-- ===== src/Wait/Syscalls.antt =====
-- `syscall_p` after `callstack_push_syscall`: how a call and its return are told apart.
use utrace.Common.{
  ℕ, suc, ◌-◌, ◌<◌, ◌≡◌, refl, arith, true, length, get_elem?, get_elem?-set_self, some, ==_refl,
  ==_ne, ◌==◌,
}
use utrace.Common.Int.{pos}
use utrace.Tracee.{Thread, Timeval, syscall, max_calldepth, CallstackElement}
use utrace.Run.{ok, ◌>>=◌, Returns}
use utrace.Options.{Options}
use utrace.Callstack.{callstack_push_syscall, stamp, top_frame, element_at}
use utrace.Callstack.Balance.{in_bounds, element_at_lem}
use utrace.Wait.{syscall_p, sysret, stopped, sigtrap, call}

pub top_frame_lem :
    (t : Thread) (d : ℕ) (e : CallstackElement)
    → t.callstack_depth ≡ suc d
    → get_elem? t.callstack d ≡ some e
    → top_frame t ≡ ok e
top_frame_lem t d e depth read = simp (top_frame, depth, element_at, read) refl

-- The frame on top decides.
syscall_p-top :
    (t : Thread) (d n : ℕ) (e : CallstackElement)
    → t.callstack_depth ≡ suc d
    → get_elem? t.callstack d ≡ some e
    → e.is_syscall ≡ true
    → e.c_un ≡ syscall n
    → syscall_p t (stopped sigtrap) (pos n) ≡ ok (sysret n)
unfolding syscall_p
syscall_p-top t d n e depth read call_frame number =
    rw
      (
        ==_ne t.callstack_depth 0 (omega arith),
        top_frame_lem t d e depth read,
        ◌>>=◌,
        call_frame,
        number,
        ==_refl n,
      )
      refl

stamp-is_syscall :
    (o : Options) (now : Timeval) (e : CallstackElement)
    → ((stamp o now e).is_syscall ≡ e.is_syscall) × ((stamp o now e).c_un ≡ e.c_un)
stamp-is_syscall o now e = ground arith

-- Where the stack of a thread has room, callstack_push_syscall ends without a fault, and syscall_p
-- takes the next stop with the number of the same call for its return
pub syscall_p-callstack_push_syscall :
    (o : Options) (now : Timeval) (t : Thread) (n : ℕ)
    → t.callstack_depth < max_calldepth - 1
    → length t.callstack ≡ max_calldepth
    → Returns
        (callstack_push_syscall o now t n)
        (λ t'. syscall_p t' (stopped sigtrap) (pos n) ≡ ok (sysret n))
unfolding callstack_push_syscall
syscall_p-callstack_push_syscall o now t n d l =
    let (e, read) = in_bounds t.callstack t.callstack_depth (omega arith) in
    rw
      (
        ==_ne t.callstack_depth (max_calldepth - 1) (omega arith),
        element_at_lem t.callstack t.callstack_depth e read,
      )
      (
        _,
        refl,
        syscall_p-top _ t.callstack_depth n _ (omega arith)
            (get_elem?-set_self t.callstack t.callstack_depth _ (omega arith))
            (stamp-is_syscall o now _).0 (stamp-is_syscall o now _).1,
      )

at_limit : (n : ℕ) → n ≡ max_calldepth - 1 → (n == max_calldepth - 1) ≡ true
at_limit n h = ground arith

-- Where the stack of a thread is full, a system call that syscall_p took for a call is, after
-- callstack_push_syscall, taken for a call once more at the stop that ends it
pub callstack_push_syscall_full :
    (o : Options) (now : Timeval) (t : Thread) (n : ℕ)
    → t.callstack_depth ≡ max_calldepth - 1
    → syscall_p t (stopped sigtrap) (pos n) ≡ ok (call n)
    → (callstack_push_syscall o now t n >>= λ t'. syscall_p t' (stopped sigtrap) (pos n))
      ≡ ok (call n)
unfolding callstack_push_syscall
callstack_push_syscall_full o now t n d e = rw (at_limit t.callstack_depth d) e

-- ===== src/Wait/Stops.antt =====
-- Which event `wait_for_something` makes of a stop, and what it does with a thread that it does not
-- know.
use utrace.Common.{
  ℕ, ◌+◌, ◌-◌, ◌*◌, ◌%◌, ◌^◌, ◌<◌, ◌≡◌, ◌≢◌, refl, arith, some, none, get_elem?, List, ◌==◌, true,
  false, Bool, if◌then◌else◌, ◌∙◌, ap,
}
use utrace.Common.Int.{ℤ, negsuc}
use utrace.Ptrace.{Ptrace}
use utrace.Arch.{Arch}
use utrace.Tracee.{Thread, Process, Timeval}
use utrace.Threads.{find_tid}
use utrace.Threads.Lookup.{IsRegistry, IsCached, tid2thread-find_tid}
use utrace.Threads.Register.{reg_tid_new}
use utrace.Run.{ok, fault, undefined, Returns, ◌>>=◌}
use utrace.Options.{Options}
use utrace.Breakpoints.{Core}
use utrace.Callstack.{element_at}
use utrace.Callstack.Balance.{element_at_lem}
use utrace.Events.{Host, Context, Display}
use utrace.Events.Handlers.{ev_breakpoint}
use native.Mathlib.Decide.{dec_lt}
use native.Mathlib.Nat.{mod-eq_of_lt, add-mod_right}
use utrace.Wait.{
  is_not_yet, WaitStatus, stopped, sigtrap, with_ip, event, pc_before, event_of_status,
  event_of_kind, make_event, find_thread, event_in, syscall_p,
}

back_off : (a d size : ℕ) → a < size → d < size → ((a + d) % size + size - d) % size ≡ a
back_off a d size l k = elim (dec_lt (a + d) size) [
  | yes small ↦
      ap (λ x. (x + size - d) % size) (mod-eq_of_lt small)
      ∙ ap (λ x. x % size) (omega arith)
      ∙ add-mod_right a size
      ∙ mod-eq_of_lt l
  | no large ↦
      ap (λ x. (x % size + size - d) % size) (wraps large)
      ∙ ap (λ x. (x + size - d) % size)
          (add-mod_right (a + d - size) size ∙ mod-eq_of_lt (omega arith))
      ∙ ap (λ x. x % size) (omega arith)
      ∙ mod-eq_of_lt l
]
  where
    wraps : ¬ (a + d < size) → a + d ≡ a + d - size + size
    wraps h = omega arith

pub read_once :
    (known : Bool) (ip : ℕ)
    → (if (if known then ip else 0) == 0 then ip else (if known then ip else 0)) ≡ ip
read_once true ip = ground arith
read_once false ip = refl

module _ (arch : Arch) (p : Ptrace) (o : Options) (h : Host p) (now : Timeval) where
  abbrev pub address_space : ℕ
  address_space = 2 ^ (8 * arch.sizeof_long)

  pc_before_lem :
      (a : ℕ)
      → a < address_space
      → arch.decr_pc_after_break < address_space
      → pc_before arch p o h now ((a + arch.decr_pc_after_break) % address_space) ≡ a
  pc_before_lem a l d = back_off a arch.decr_pc_after_break address_space l d

  -- Where a thread of a process with its breakpoints set up stops by SIGTRAP outside of a system
  -- call, with its instruction pointer behind a trap at an address of the address space, the
  -- pointer moved on as far as the architecture moves it and wrapped, the event is a breakpoint at
  -- exactly that address, with or without -i, and the kernel and the heap are as before
  pub make_event-ev_breakpoint :
      (orig_eax : p.Kernel → ℕ → ℤ) (tid i a n : ℕ) (c : Context p.Kernel) (t : Thread)
      → get_elem? c.proc.threads i ≡ some t
      → is_not_yet c.proc.breakpoints_enabled ≡ false
      → orig_eax c.core.kernel t.tid ≡ negsuc n
      → a < address_space
      → arch.decr_pc_after_break < address_space
      → p.instruction_pointer c.core.kernel t.tid ≡ (a + arch.decr_pc_after_break) % address_space
      → Returns
          (make_event arch p o h now orig_eax tid (stopped sigtrap) i c)
          (λ w. (c' : Context p.Kernel) × (w ≡ event (ev_breakpoint a) i c') × (c'.core ≡ c.core))
  unfolding make_event syscall_p event_of_kind event_of_status
  make_event-ev_breakpoint orig_eax tid i a n c t e b neg l d ip =
      let c' = with_ip arch p o h now i (p.instruction_pointer c.core.kernel t.tid) c t in
      (event (ev_breakpoint a) i c', made, (c', refl, refl))
    where
      made :
          make_event arch p o h now orig_eax tid (stopped sigtrap) i c
          ≡ ok (
              event
                (ev_breakpoint a)
                i
                (with_ip arch p o h now i (p.instruction_pointer c.core.kernel t.tid) c t))
      made =
          rw
            (
              make_event,
              element_at_lem c.proc.threads i t e,
              ◌>>=◌,
              b,
              neg,
              syscall_p,
              read_once o.opt_i (p.instruction_pointer c.core.kernel t.tid),
              ip,
              pc_before_lem a l d,
            )
            refl

  -- Where a process with a well-formed table, an empty or valid cache and a free slot has an event
  -- of a thread with a nonzero id that is not registered, making the event runs into undefined
  -- behaviour, whatever the status is
  pub event_in_new_thread :
      (orig_eax : p.Kernel → ℕ → ℤ) (s : Core p.Kernel) (displayed : List Display) (spent : ℤ × ℕ)
      (tid k : ℕ) (status : WaitStatus) (q : Process)
      → IsRegistry q
      → IsCached q
      → tid ≢ 0
      → find_tid tid q.threads ≡ none
      → find_tid 0 q.threads ≡ some k
      → event_in arch p o h now orig_eax s displayed spent tid status (some q) ≡ fault undefined
  unfolding event_in find_thread make_event
  event_in_new_thread orig_eax s displayed spent tid k status q r cached nz e f =
      let (q', registered, m) = reg_tid_new q tid k r nz e f in
      rw
        (
          event_in,
          find_thread,
          tid2thread-find_tid q tid r cached nz,
          e,
          registered,
          element_at,
          m.pointer_behind,
        )
        refl

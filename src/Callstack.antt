-- ===== src/Callstack.antt =====
-- The call stack of a thread: `callstack_push_syscall`, `callstack_push_symfunc`, `callstack_pop` and
-- `calc_time_spent` of utrace-0.1/process_event.c. `now` is what `gettimeofday` returns; the
-- messages on stderr are left out.
pub mod Balance
pub mod Frames
pub mod Time
use utrace.Common.{
  ℕ, zero, suc, ◌+◌, ◌-◌, Bool, true, false, ◌||◌, List, Option, none, some, ◌==◌, if◌then◌else◌,
  leb, get_elem?, set,
}
use utrace.Common.Int.{ℤ, pos, sub_ℕ, ◌+ℤ◌}
use utrace.Ptrace.{Ptrace}
use utrace.Arch.{Arch}
use utrace.Tracee.{
  LibrarySymbol, Timeval, Callee, syscall, libfunc, CallstackElement, max_calldepth, Thread,
  Process,
}
use utrace.Threads.{get_proc}
use utrace.Run.{Run, ok, fault, assertion, undefined, ◌>>=◌}
use utrace.Options.{Options}
use utrace.Breakpoints.{Core, insert_breakpoint, delete_breakpoint}

-- A read of an array element.
abbrev pub element_at {ℓ} : {A : Type ℓ} → List A → ℕ → Run A
element_at xs i = elim (get_elem? xs i) [ none ↦ fault undefined | some x ↦ ok x ]

abbrev pub set_thread : Process → ℕ → Thread → Process
set_thread proc i t = record proc { threads = set proc.threads i t }

-- The process that `get_proc` yields, where it is followed.
abbrev pub parent : Process → ℕ → Run Process
parent proc i = elim (get_proc proc i) [ none ↦ fault undefined | some q ↦ ok q ]

-- `if (opt_T || opt_c) gettimeofday(&elem->time_spent, …)`
abbrev pub stamp : Options → Timeval → CallstackElement → CallstackElement
stamp o now elem = if o.opt_T || o.opt_c then record elem { time_spent = now } else elem

-- The stack with `elem` written on top.
abbrev pub put_frame : Thread → CallstackElement → Thread
put_frame t elem = record t { callstack = set t.callstack t.callstack_depth elem }

unfoldable pub callstack_push_syscall : Options → Timeval → Thread → ℕ → Run Thread
callstack_push_syscall o now t sysnum =
    if t.callstack_depth == max_calldepth - 1
    then ok t
    else (element_at t.callstack t.callstack_depth >>= λ elem.
        let elem' : CallstackElement = record elem {
          is_syscall = true;
          c_un = syscall sysnum;
          return_addr = 0;
        } in
        ok (record (put_frame t (stamp o now elem')) { callstack_depth = t.callstack_depth + 1 }))

-- `diff` of `calc_time_spent`: the seconds go up where they should go down.
unfoldable pub time_since : Timeval → Timeval → ℤ × ℕ
time_since tv start =
    let sec = sub_ℕ tv.tv_sec start.tv_sec in
    if leb start.tv_usec tv.tv_usec
    then (sec, tv.tv_usec - start.tv_usec)
    else (sec +ℤ pos 1, 1000000 + tv.tv_usec - start.tv_usec)

-- `callstack[callstack_depth-1]`
abbrev pub top_frame : Thread → Run CallstackElement
top_frame t = elim t.callstack_depth [ zero ↦ fault undefined | suc n ↦ element_at t.callstack n ]

unfoldable pub calc_time_spent : Timeval → Thread → Run (ℤ × ℕ)
unfolding time_since
calc_time_spent now t = do elem ← top_frame t; ok (time_since now elem.time_spent)

module _ (arch : Arch) (p : Ptrace) where
  unfoldable pub push_frame_of :
      Options
      → Timeval
      → Core p.Kernel
      → Process
      → ℕ
      → LibrarySymbol
      → Thread
      → CallstackElement
      → Run (Core p.Kernel × Process)
  push_frame_of o now s proc i sym t elem = do
    let elem' = record elem { is_syscall = false; c_un = libfunc sym; return_addr = t.return_addr }
    owner ← parent proc i
    (s', proc') ← insert_breakpoint arch p s owner t.return_addr
    ok (
      s',
      set_thread proc' i
          (record (put_frame t (stamp o now elem')) { callstack_depth = t.callstack_depth + 1 }),
    )

  unfoldable pub callstack_push_symfunc :
      Options
      → Timeval
      → Core p.Kernel
      → Process
      → ℕ
      → LibrarySymbol
      → Run (Core p.Kernel × Process)
  unfolding push_frame_of
  callstack_push_symfunc o now s proc i sym = do
    t ← element_at proc.threads i
    if t.callstack_depth == max_calldepth - 1
        then ok (s, proc)
        else (element_at t.callstack t.callstack_depth >>= push_frame_of o now s proc i sym t)

  unfoldable pub release_frame :
      Core p.Kernel → Process → ℕ → CallstackElement → Run (Core p.Kernel)
  release_frame s proc i elem =
      if elem.is_syscall
      then ok s
      else (parent proc i >>= λ owner. delete_breakpoint arch p s owner elem.return_addr)

  unfoldable pub pop_frame :
      Core p.Kernel → Process → ℕ → Thread → ℕ → Run (Core p.Kernel × Process)
  unfolding release_frame
  pop_frame s proc i t zero = fault assertion
  pop_frame s proc i t (suc n) = do
    elem ← element_at t.callstack n
    s' ← release_frame s proc i elem
    ok (s', set_thread proc i (record t { callstack_depth = n }))

  unfoldable pub callstack_pop : Core p.Kernel → Process → ℕ → Run (Core p.Kernel × Process)
  unfolding pop_frame
  callstack_pop s proc i = do t ← element_at proc.threads i; pop_frame s proc i t t.callstack_depth

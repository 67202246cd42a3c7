-- ===== src/Wait.antt =====
-- How an event is made: `wait_for_something` of utrace-0.1/wait_for_something.c and `syscall_p` of
-- utrace-0.1/sysdeps/linux-gnu/i386/trace.c. The answer of `waitpid` comes from outside; with -f the
-- source also calls `ptrace_gettid`, whose answer goes to the debugging output alone.
pub mod Syscalls
pub mod Stops
use utrace.Common.{
  ℕ, zero, suc, ◌+◌, ◌-◌, ◌*◌, ◌%◌, ◌^◌, Bool, true, false, not, ◌&&◌, List, [], ◌∷◌, Option, none,
  some, ◌==◌, if◌then◌else◌, get_elem?,
}
use utrace.Common.Int.{ℤ, pos, negsuc}
use utrace.Ptrace.{Ptrace}
use utrace.Arch.{Arch}
use utrace.Tracee.{
  Callee, unset, syscall, libfunc, CallstackElement, Thread, Process, Timeval, Enabled, not_yet,
}
use utrace.Threads.{
  Located, at, absent, out_of_bounds, tid2thread, Registered, slot, exits, reg_tid,
}
use utrace.Run.{Run, ok, fault, undefined, exit_failure, ◌>>=◌}
use utrace.Options.{Options}
use utrace.Breakpoints.{Core, enable_all_breakpoints}
use utrace.Callstack.{element_at, set_thread, top_frame}
use utrace.Processes.{pid2proc}
use utrace.Tgid.{Pid2TgidEntry, pid2tgid}
use utrace.Events.{Host, Context, Display, with_state, continue_process}
use utrace.Events.Handlers.{
  Thing, ev_unknown, ev_none, ev_signal, ev_exit, ev_exit_signal, ev_syscall, ev_sysret,
  ev_breakpoint,
}

-- What the macros of <sys/wait.h> tell of a status: one of WIFEXITED, WIFSIGNALED, WIFSTOPPED or
-- none of them, with the number that goes with it.
pub data WaitStatus : Type 0 where
  exited : (status : ℕ) → WaitStatus
  signaled : (signum : ℕ) → WaitStatus
  stopped : (signum : ℕ) → WaitStatus
  neither : WaitStatus

abbrev pub sigtrap : ℕ
sigtrap = 5

abbrev pub is_trap : WaitStatus → Bool
is_trap (stopped signum) = signum == sigtrap
is_trap _ = false

-- The results 0, 1 and 2 of `syscall_p`; with 1 and 2 goes `*sysnum`.
pub data SyscallKind : Type 0 where
  no_syscall : SyscallKind
  call : ℕ → SyscallKind
  sysret : ℕ → SyscallKind

-- `callstack[callstack_depth-1].c_un.syscall == *sysnum`
abbrev pub is_call_of : Callee → ℕ → Run Bool
is_call_of unset n = fault undefined
is_call_of (syscall m) n = ok (m == n)
is_call_of (libfunc sym) n = fault undefined

abbrev pub in_syscall : Thread → ℕ → Run Bool
in_syscall t n =
    if t.callstack_depth == 0
    then ok false
    else (top_frame t >>= λ elem. if elem.is_syscall then is_call_of elem.c_un n else ok false)

-- `orig_eax` is the register: the number of the call, or a negative number outside of one, which no
-- frame holds. The frame is read first: where that is undefined, all is.
unfoldable pub syscall_p : Thread → WaitStatus → ℤ → Run SyscallKind
syscall_p t status (pos n) =
    if is_trap status
    then (in_syscall t n >>= λ returning. ok (if returning then sysret n else call n))
    else ok no_syscall
syscall_p t status (negsuc n) = ok no_syscall

-- `breakpoints_enabled == -1`
abbrev pub is_not_yet : Enabled → Bool
is_not_yet not_yet = true
is_not_yet _ = false

-- What `waitpid` returns: -1 with `errno`, or a thread and its status.
pub data WaitAnswer : Type 0 where
  no_child interrupted wait_failed : WaitAnswer
  changed : (tid : ℕ) → WaitStatus → WaitAnswer

-- `exit(code)`; an event of no thread; or an event of the thread in a slot of a process.
pub data Waited (K : Type 0) : Type 0 where
  leaves : (code : ℕ) → Waited K
  nothing : Waited K
  event : Thing → (slot : ℕ) → Context K → Waited K

module _ (arch : Arch) (p : Ptrace) (o : Options) (h : Host p) (now : Timeval) where
  -- `event.thr`: the thread in the table, or the one that `reg_tid` makes.
  unfoldable pub find_thread : ℕ → Context p.Kernel → Run (ℕ × Context p.Kernel)
  find_thread tid c = elim (tid2thread tid c.proc) [
    | at i ↦ ok (i, c)
    | out_of_bounds ↦ fault undefined
    | absent ↦ elim (reg_tid c.proc tid) [
      | slot i q ↦ ok (i, record c { proc = q })
      | exits ↦ fault exit_failure
    ]
  ]

  abbrev pub with_ip : ℕ → ℕ → Context p.Kernel → Thread → Context p.Kernel
  with_ip i ip c t = record c { proc = set_thread c.proc i (record t { instruction_pointer = ip }) }

  -- `thr->instruction_pointer - DECR_PC_AFTER_BREAK`, on pointers
  abbrev pub pc_before : ℕ → ℕ
  pc_before ip =
      let size = 2 ^ (8 * arch.sizeof_long) in (ip + size - arch.decr_pc_after_break) % size

  -- A stop by SIGTRAP outside of a call: `ip` is what -i has read already, or 0.
  abbrev pub at_breakpoint : ℕ → Context p.Kernel → Thread → ℕ → Waited p.Kernel
  at_breakpoint i c t ip =
      let ip' = if ip == 0 then p.instruction_pointer c.core.kernel t.tid else ip in
      event (ev_breakpoint (pc_before ip')) i (with_ip i ip' c t)

  -- The tests after the `switch`.
  unfoldable pub event_of_status : ℕ → WaitStatus → Context p.Kernel → Thread → ℕ → Waited p.Kernel
  event_of_status i (exited status) c t ip = event (ev_exit status) i (with_ip i ip c t)
  event_of_status i (signaled signum) c t ip = event (ev_exit_signal signum) i (with_ip i ip c t)
  event_of_status i neither c t ip = event ev_unknown i (with_ip i ip c t)
  event_of_status i (stopped signum) c t ip =
      if signum == sigtrap
      then at_breakpoint i c t ip
      else event (ev_signal signum) i (with_ip i ip c t)

  -- The `switch` on `syscall_p`.
  unfoldable pub event_of_kind :
      ℕ → WaitStatus → Context p.Kernel → Thread → ℕ → SyscallKind → Waited p.Kernel
  unfolding event_of_status
  event_of_kind i status c t ip (call n) = event (ev_syscall n) i (with_ip i ip c t)
  event_of_kind i status c t ip (sysret n) = event (ev_sysret n) i (with_ip i ip c t)
  event_of_kind i status c t ip no_syscall = event_of_status i status c t ip

  -- `instruction_pointer` at the `switch`: cleared, and with -i read.
  abbrev pub read_ip : Context p.Kernel → Thread → ℕ
  read_ip c t = if o.opt_i then p.instruction_pointer c.core.kernel t.tid else 0

  -- From `get_arch_dep` on: the process has its breakpoints, or gets them now.
  unfoldable pub make_event :
      (orig_eax : p.Kernel → ℕ → ℤ) → ℕ → WaitStatus → ℕ → Context p.Kernel → Run (Waited p.Kernel)
  unfolding event_of_kind syscall_p
  make_event orig_eax tid status i c = do
    t ← element_at c.proc.threads i
    if is_not_yet c.proc.breakpoints_enabled
        then (enable_all_breakpoints arch p c.core (with_ip i 0 c t).proc >>= λ r.
            ok (event ev_none i (continue_process arch p o h now tid (with_state c r))))
        else (syscall_p t status (orig_eax c.core.kernel t.tid) >>= λ kind.
            ok (event_of_kind i status c t (read_ip c t) kind))

  -- The first process of the list with the thread's group, or `exit(1)`.
  unfoldable pub event_in :
      (orig_eax : p.Kernel → ℕ → ℤ)
      → Core p.Kernel
      → List Display
      → ℤ × ℕ
      → ℕ
      → WaitStatus
      → Option Process
      → Run (Waited p.Kernel)
  unfolding find_thread make_event
  event_in orig_eax s displayed spent tid status none = ok (leaves 1)
  event_in orig_eax s displayed spent tid status (some q) = do
    let c : Context p.Kernel = record {
      core = s;
      proc = q;
      displayed = displayed;
      current_time_spent = spent;
    }
    (i, c') ← find_thread tid c
    make_event orig_eax tid status i c'

  abbrev pub wait_in :
      (orig_eax : p.Kernel → ℕ → ℤ) (read_status : ℕ → Option (List ℕ))
      → Core p.Kernel
      → List Display
      → ℤ × ℕ
      → List Pid2TgidEntry
      → List Process
      → WaitAnswer
      → Run (Waited p.Kernel × List Pid2TgidEntry)
  wait_in orig_eax read_status s displayed spent cache procs no_child = ok (leaves 0, cache)
  wait_in orig_eax read_status s displayed spent cache procs interrupted = ok (nothing, cache)
  wait_in orig_eax read_status s displayed spent cache procs wait_failed = ok (leaves 1, cache)
  wait_in orig_eax read_status s displayed spent cache procs (changed tid status) =
      let (pid, cache') = pid2tgid read_status tid cache in
      event_in orig_eax s displayed spent tid status (pid2proc pid procs) >>= λ w. ok (w, cache')

  unfoldable pub wait_for_something :
      (orig_eax : p.Kernel → ℕ → ℤ) (read_status : ℕ → Option (List ℕ))
      → Core p.Kernel
      → List Display
      → ℤ × ℕ
      → List Pid2TgidEntry
      → List Process
      → WaitAnswer
      → Run (Waited p.Kernel × List Pid2TgidEntry)
  unfolding event_in pid2tgid pid2proc
  wait_for_something orig_eax read_status s displayed spent cache [] answer = ok (leaves 0, cache)
  wait_for_something orig_eax read_status s displayed spent cache (q ∷ qs) answer =
      wait_in orig_eax read_status s displayed spent cache (q ∷ qs) answer

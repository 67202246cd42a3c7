-- ===== src/Session/Made.antt =====
-- `wait_for_something` of utrace-0.1/wait_for_something.c and `syscall_p` of
-- utrace-0.1/sysdeps/linux-gnu/i386/trace.c, for a traced process: the events that can be.
use utrace.Common.{
  ℕ, zero, suc, ◌≡◌, ◌≢◌, ◌⊎◌, inl, inr, refl, arith, true, false, Bool-cases, ◌==◌, ==_iff, ==_ne,
  if◌then◌else◌,
}
use utrace.Common.Int.{ℤ, pos, negsuc}
use utrace.Ptrace.{Ptrace}
use utrace.Arch.{Arch}
use utrace.Tracee.{Timeval, Thread, Enabled, enabled}
use utrace.Run.{ok, ◌>>=◌, Returns, bind-Returns, along-Returns}
use utrace.Options.{Options}
use utrace.Callstack.Balance.{IsThread, in_bounds, element_at_lem}
use utrace.Events.{Host, Context}
use utrace.Events.Handlers.{
  ev_signal, ev_exit, ev_exit_signal, ev_syscall, ev_sysret, ev_breakpoint,
}
use utrace.Wait.{
  WaitStatus, exited, signaled, stopped, neither, is_trap, SyscallKind, no_syscall, call, sysret,
  in_syscall, syscall_p, sigtrap, Waited, event, pc_before, with_ip, read_ip, event_of_status,
  event_of_kind, make_event, is_not_yet,
}
use utrace.Wait.Syscalls.{top_frame_lem}
use utrace.Wait.Stops.{read_once}
use utrace.Session.Typed.{of_syscall, of_function, AreTyped, IsTraced, Traced, thread-IsTraced}

set_up : (e : Enabled) → e ≡ enabled → is_not_yet e ≡ false
set_up e h = rw h refl

zero_or_suc : (n : ℕ) → (n ≡ 0) ⊎ ((d : ℕ) × (n ≡ suc d))
zero_or_suc zero = inl refl
zero_or_suc (suc n) = inr (n, refl)

-- A return is that of the call on top, which is not execve.
data IsKind (nr_execve : ℕ) (t : Thread) : SyscallKind → Type 0 where
  of_none : IsKind nr_execve t no_syscall
  of_call : (n : ℕ) → IsKind nr_execve t (call n)
  of_return :
      (n d : ℕ)
      → (n == nr_execve) ≡ false
      → t.callstack_depth ≡ suc d
      → IsKind nr_execve t (sysret n)

module _ (nr_execve : ℕ) (t : Thread) (frames : IsThread t)
    (typed : AreTyped nr_execve t.callstack t.callstack_depth) where
  in_syscall_lem :
      (n d : ℕ)
      → t.callstack_depth ≡ suc d
      → Returns (in_syscall t n) λ r. r ≡ true → (n == nr_execve) ≡ false
  in_syscall_lem n d depth =
      let (e, at) = in_bounds t.callstack d (omega (arith, frames.width, frames.room)) in
      elim (typed d (omega arith) e at) [
        | of_function fn function callee ↦ (
          false,
          rw
              (
                ==_ne t.callstack_depth 0 (omega arith),
                top_frame_lem t d e depth at,
                ◌>>=◌,
                function,
              )
              refl,
          λ z. absurd (cc z),
        )
        | of_syscall m is_call number zero_addr other ↦ (
          m == n,
          rw
              (
                ==_ne t.callstack_depth 0 (omega arith),
                top_frame_lem t d e depth at,
                ◌>>=◌,
                is_call,
                number,
              )
              refl,
          λ z. rw ((==_iff m n).0 z) at other,
        )
      ]

  in_syscall-IsKind :
      (n : ℕ)
      → Returns
          (in_syscall t n >>= λ returning. ok (if returning then sysret n else call n))
          (IsKind nr_execve t)
  in_syscall-IsKind n = elim (zero_or_suc t.callstack_depth) [
    | inl none_left ↦ (call n, rw (none_left, ◌>>=◌) refl, of_call n)
    | inr (d, depth) ↦ bind-Returns (in_syscall t n) _ (in_syscall_lem n d depth) λ r back.
        elim (Bool-cases r) [
          | inl same ↦ (sysret n, rw same refl, of_return n d (back same) depth)
          | inr new ↦ (call n, rw new refl, of_call n)
        ]
  ]

  syscall_p-IsKind :
      (status : WaitStatus) (z : ℤ) → Returns (syscall_p t status z) (IsKind nr_execve t)
  unfolding syscall_p
  syscall_p-IsKind status (negsuc n) = (no_syscall, refl, of_none)
  syscall_p-IsKind status (pos n) = elim (Bool-cases (is_trap status)) [
    | inl trap ↦ along-Returns _ _ (rw (syscall_p, trap) refl) (in_syscall-IsKind n)
    | inr other ↦ (no_syscall, rw (syscall_p, other) refl, of_none)
  ]

module _ (arch : Arch) (p : Ptrace) (o : Options) (h : Host p) (now : Timeval) (base : ℕ → ℕ)
    (tid i address : ℕ) where
  abbrev IsOurs : Context p.Kernel → Thread → Type 0
  IsOurs c t = IsTraced arch base h.nr_execve tid i address c t

  abbrev Ours : Context p.Kernel → Type 0
  Ours c = Traced arch base h.nr_execve tid i address c

  -- The events of a traced process, each with what its handler needs.
  pub data IsReady : Waited p.Kernel → Type 0 where
    of_signal : (n : ℕ) (c : Context p.Kernel) → Ours c → IsReady (event (ev_signal n) i c)
    of_exit : (n : ℕ) (c : Context p.Kernel) → Ours c → IsReady (event (ev_exit n) i c)
    of_exit_signal :
        (n : ℕ) (c : Context p.Kernel) → Ours c → IsReady (event (ev_exit_signal n) i c)
    of_syscall_entry : (n : ℕ) (c : Context p.Kernel) → Ours c → IsReady (event (ev_syscall n) i c)
    of_sysret :
        (n d : ℕ) (c : Context p.Kernel) (t : Thread)
        → IsOurs c t
        → (n == h.nr_execve) ≡ false
        → t.callstack_depth ≡ suc d
        → IsReady (event (ev_sysret n) i c)
    of_breakpoint :
        (a : ℕ) (c : Context p.Kernel) → Ours c → a ≢ 0 → IsReady (event (ev_breakpoint a) i c)

  with_ip-IsTraced :
      (c : Context p.Kernel) (t : Thread) (ip : ℕ)
      → IsOurs c t
      → IsOurs (with_ip arch p o h now i ip c t) (record t { instruction_pointer = ip })
  with_ip-IsTraced c t ip v =
      thread-IsTraced arch base h.nr_execve tid i address c t
        (record t { instruction_pointer = ip }) v refl refl refl refl v.stepping

  stop-IsReady :
      (c : Context p.Kernel) (t : Thread) (signum : ℕ)
      → IsOurs c t
      → pc_before arch p o h now (p.instruction_pointer c.core.kernel tid) ≢ 0
      → IsReady (event_of_status arch p o h now i (stopped signum) c t (read_ip arch p o h now c t))
  unfolding event_of_status
  stop-IsReady c t signum v nz = elim (Bool-cases (signum == sigtrap)) [
    | inl trap ↦
        rw (trap, read_once o.opt_i (p.instruction_pointer c.core.kernel t.tid))
          (of_breakpoint _ _ (_, with_ip-IsTraced c t _ v) (rw (v.named) nz))
    | inr other ↦ rw other (of_signal signum _ (_, with_ip-IsTraced c t _ v))
  ]

  status-IsReady :
      (c : Context p.Kernel) (t : Thread) (status : WaitStatus)
      → IsOurs c t
      → status ≢ neither
      → pc_before arch p o h now (p.instruction_pointer c.core.kernel tid) ≢ 0
      → IsReady (event_of_status arch p o h now i status c t (read_ip arch p o h now c t))
  unfolding event_of_status
  status-IsReady c t (exited n) v said nz = of_exit n _ (_, with_ip-IsTraced c t _ v)
  status-IsReady c t (signaled n) v said nz = of_exit_signal n _ (_, with_ip-IsTraced c t _ v)
  status-IsReady c t neither v said nz = absurd (said refl)
  status-IsReady c t (stopped n) v said nz = stop-IsReady c t n v nz

  kind-IsReady :
      (c : Context p.Kernel) (t : Thread) (status : WaitStatus) (kind : SyscallKind)
      → IsOurs c t
      → status ≢ neither
      → pc_before arch p o h now (p.instruction_pointer c.core.kernel tid) ≢ 0
      → IsKind h.nr_execve t kind
      → IsReady (event_of_kind arch p o h now i status c t (read_ip arch p o h now c t) kind)
  unfolding event_of_kind
  kind-IsReady c t status no_syscall v said nz of_none = status-IsReady c t status v said nz
  kind-IsReady c t status (call n) v said nz (of_call _) =
      of_syscall_entry n _ (_, with_ip-IsTraced c t _ v)
  kind-IsReady c t status (sysret n) v said nz (of_return _ d other depth) =
      of_sysret n d _ _ (with_ip-IsTraced c t _ v) other depth

  -- The event of a traced process is one that its handler is ready for: never an unknown one,
  -- never the return of execve, and a return only where a frame is there to be popped.
  pub make_event-IsReady :
      (orig_eax : p.Kernel → ℕ → ℤ) (c : Context p.Kernel) (t : Thread) (status : WaitStatus)
      → IsOurs c t
      → status ≢ neither
      → pc_before arch p o h now (p.instruction_pointer c.core.kernel tid) ≢ 0
      → Returns (make_event arch p o h now orig_eax tid status i c) IsReady
  unfolding make_event
  make_event-IsReady orig_eax c t status v said nz =
      along-Returns _ _
        (rw
          (
            make_event,
            element_at_lem c.proc.threads i t v.balanced.stands,
            ◌>>=◌,
            set_up c.proc.breakpoints_enabled v.armed,
          )
          refl)
        (bind-Returns _ _
          (syscall_p-IsKind h.nr_execve t v.balanced.thread v.typed status
            (orig_eax c.core.kernel t.tid))
          λ kind k. (_, refl, kind-IsReady c t status kind v said nz k))

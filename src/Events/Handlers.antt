-- ===== src/Events/Handlers.antt =====
-- The other handlers of utrace-0.1/process_event.c, and `process_event` over them.
use utrace.Common.{ℕ, Bool, ◌&&◌, ◌==◌, if◌then◌else◌}
use utrace.Ptrace.{Ptrace, detach}
use utrace.Arch.{Arch}
use utrace.Tracee.{Timeval, syscall, disabled}
use utrace.Threads.{Registered, slot, exits, reg_tid}
use utrace.Run.{Run, ok, fault, undefined, exit_failure, ◌>>=◌}
use utrace.Options.{Options}
use utrace.Breakpoints.{enable_all_breakpoints, disable_all_breakpoints, breakpoints_init}
use utrace.Callstack.{element_at, set_thread, callstack_push_syscall}
use utrace.Events.{
  left, right, signal_line, exit_line, killed_line, Host, fork_p, clone_p, exec_p, Context, show,
  with_state, with_kernel, continue_after_signal, continue_process, pops, measure,
  process_breakpoint,
}

-- `enum … thing` with the members of `e_un`.
pub data Thing : Type 0 where
  ev_unknown ev_none : Thing
  ev_signal ev_exit ev_exit_signal ev_syscall ev_sysret ev_breakpoint : ℕ → Thing

-- Whether the process is still in the list when the handler is done.
pub data Outcome (K : Type 0) : Type 0 where
  kept : Context K → Outcome K
  removed : Context K → Outcome K

module _ (arch : Arch) (p : Ptrace) (o : Options) (h : Host p) (now : Timeval) where
  unfoldable pub wake_breakpoints : ℕ → Context p.Kernel → Run (Context p.Kernel)
  wake_breakpoints sysnum c = if clone_p h sysnum then ok c else elim c.proc.breakpoints_enabled [
    | disabled ↦ (enable_all_breakpoints arch p c.core c.proc >>= λ r. ok (with_state c r))
    | _ ↦ ok c
  ]

  unfoldable pub push_call : ℕ → ℕ → Context p.Kernel → Run (Context p.Kernel)
  push_call i sysnum c =
      if exec_p h sysnum
      then ok c
      else (element_at c.proc.threads i >>= λ t. callstack_push_syscall o now t sysnum >>= λ t'.
          ok (record c { proc = set_thread c.proc i t' }))

  unfoldable pub process_syscall : ℕ → ℕ → Context p.Kernel → Run (Context p.Kernel)
  unfolding wake_breakpoints push_call continue_process
  process_syscall i sysnum c = do
    t ← element_at c.proc.threads i
    let c₁ = if o.opt_S then show c (left t.tid t.callstack_depth (syscall sysnum)) else c
    c₂ ← wake_breakpoints sysnum c₁
    c₃ ← push_call i sysnum c₂
    ok (continue_process arch p o h now t.tid c₃)

  -- With -f, `enable_all_breakpoints(event->thr)` takes a thread for a process.
  unfoldable pub follow_fork : ℕ → Context p.Kernel → Run (Context p.Kernel)
  follow_fork sysnum c = if fork_p h sysnum && o.opt_f then fault undefined else ok c

  abbrev pub after_register : Context p.Kernel → Registered → Run (Context p.Kernel)
  after_register c (slot i q) = ok (record c { proc = q })
  after_register c exits = fault exit_failure

  unfoldable pub follow_clone : ℕ → ℕ → Context p.Kernel → Run (Context p.Kernel)
  follow_clone tid sysnum c =
      if clone_p h sysnum && o.opt_f
      then after_register c (reg_tid c.proc (h.return_value c.core.kernel tid))
      else ok c

  -- The program of the process was replaced: its file and its breakpoints are read again.
  unfoldable pub follow_exec : ℕ → ℕ → Context p.Kernel → Run (Context p.Kernel)
  follow_exec tid sysnum c =
      if exec_p h sysnum && h.return_value c.core.kernel tid == 0
      then (breakpoints_init arch p o h.read_elf c.core
            (record (c.proc) { filename = h.pid2name c.core.kernel c.proc.pid })
          >>= λ r. ok (with_state c r))
      else ok c

  unfoldable pub show_sysret : ℕ → ℕ → Context p.Kernel → Run (Context p.Kernel)
  show_sysret i sysnum c =
      if o.opt_S
      then (element_at c.proc.threads i >>= λ t.
          ok (show c (right t.tid t.callstack_depth (syscall sysnum))))
      else ok c

  unfoldable pub process_sysret : ℕ → ℕ → Context p.Kernel → Run (Context p.Kernel)
  unfolding measure follow_fork follow_clone follow_exec show_sysret pops continue_process
  process_sysret i sysnum c = do
    t ← element_at c.proc.threads i
    c₁ ← measure arch p o h now i c
    c₂ ← follow_fork sysnum c₁
    c₃ ← follow_clone t.tid sysnum c₂
    c₄ ← (if exec_p h sysnum then ok c₃ else pops arch p o h now i 1 c₃)
    c₅ ← show_sysret i sysnum c₄
    c₆ ← follow_exec t.tid sysnum c₅
    ok (continue_process arch p o h now t.tid c₆)

  unfoldable pub process_signal : Bool → ℕ → ℕ → Context p.Kernel → Run (Outcome p.Kernel)
  unfolding continue_after_signal
  process_signal exiting i signum c = do
    t ← element_at c.proc.threads i
    if exiting && signum == h.sigstop
        then (disable_all_breakpoints arch p c.core c.proc >>= λ r.
            let c₁ = with_state c r in
            let c₂ = with_kernel c₁ (p.resume c₁.core.kernel (detach c.proc.pid)) in
            ok (removed (continue_after_signal arch p o h now t.tid signum c₂)))
        else ok (
            kept (
              continue_after_signal arch p o h now t.tid signum
                (show c (signal_line t.tid signum))))

  unfoldable pub process_event : Bool → ℕ → Thing → Context p.Kernel → Run (Outcome p.Kernel)
  unfolding process_signal process_syscall process_sysret process_breakpoint
  process_event exiting i ev_unknown c = fault exit_failure
  process_event exiting i ev_none c = ok (kept c)
  process_event exiting i (ev_signal signum) c = process_signal exiting i signum c
  process_event exiting i (ev_exit status) c =
      element_at c.proc.threads i >>= λ t. ok (removed (show c (exit_line t.tid status)))
  process_event exiting i (ev_exit_signal signum) c =
      element_at c.proc.threads i >>= λ t. ok (removed (show c (killed_line t.tid signum)))
  process_event exiting i (ev_syscall sysnum) c = process_syscall i sysnum c >>= λ c'. ok (kept c')
  process_event exiting i (ev_sysret sysnum) c = process_sysret i sysnum c >>= λ c'. ok (kept c')
  process_event exiting i (ev_breakpoint addr) c =
      process_breakpoint arch p o h now i addr c >>= λ c'. ok (kept c')

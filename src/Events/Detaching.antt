-- ===== src/Events/Detaching.antt =====
-- How `process_signal` of utrace-0.1/process_event.c lets a process go when utrace stops.
use utrace.Common.{ℕ, ◌≡◌}
use utrace.Ptrace.{Ptrace, IsMemory, detach}
use utrace.Arch.{Arch}
use utrace.Tracee.{Timeval}
use utrace.Options.{Options}
use utrace.Events.{Host, Context, with_kernel, continue_after_signal}
use utrace.Events.Handlers.{Outcome, removed}

module _ (arch : Arch) (p : Ptrace) (o : Options) (h : Host p) (now : Timeval) (pid : ℕ)
    (m : IsMemory p arch.sizeof_long pid) where
  -- The process is detached from and continued with the signal, and is forgotten. When it is
  -- detached from, its code is `orig`.
  pub record LetGo (orig : ℕ → ℕ) (tid : ℕ) (r : Outcome p.Kernel) : Type 0 where
    pub before : Context p.Kernel
    pub detached :
        r
        ≡ removed (
            continue_after_signal arch p o h now tid h.sigstop
              (with_kernel before (p.resume before.core.kernel (detach pid))))
    pub restored : (b : ℕ) → m.byte before.core.kernel b ≡ orig b

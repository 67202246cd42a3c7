-- ===== src/Session/Execs.antt =====
-- The event at the end of execve, of which process_event.c and trace.c of utrace-0.1 do not make a return.
use utrace.Common.{ℕ, List, Option}
use utrace.Common.Int.{ℤ}
use utrace.Ptrace.{Ptrace}
use utrace.Arch.{Arch}
use utrace.Options.{Options}
use utrace.Events.{Host}
use utrace.Session.{Loop}
use utrace.Session.Rounds.{StaysTraced}

module _ (arch : Arch) (p : Ptrace) (o : Options) (h : Host p) (orig_eax : p.Kernel → ℕ → ℤ)
    (read_status : ℕ → Option (List ℕ)) (base : ℕ → ℕ) (tid i address : ℕ) where
  abbrev Stays : Loop p.Kernel → Type 0
  Stays l = StaysTraced arch p o h orig_eax read_status base tid i address l

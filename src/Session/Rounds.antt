-- ===== src/Session/Rounds.antt =====
-- The loop of `main` in utrace-0.1/ltrace.c: no event of a traced process makes the tracer fail.
use utrace.Common.{ℕ, ◌≡◌, ◌≢◌, false, List, [], ◌∷◌, Option}
use utrace.Common.Int.{ℤ}
use utrace.Ptrace.{Ptrace}
use utrace.Arch.{Arch}
use utrace.Tracee.{Timeval, Process}
use utrace.Tgid.Cache.{IsSound}
use utrace.Run.{Returns}
use utrace.Options.{Options}
use utrace.Events.{Host, Context}
use utrace.Events.Handlers.{Thing, Outcome, kept, removed, process_event}
use utrace.Wait.{WaitStatus, neither, no_child, interrupted, changed, Waited, event, pc_before}
use utrace.Session.{Turn, Tracer, Loop, running, exited}
use utrace.Session.Typed.{Traced}
use utrace.Session.Looked.{context_with, truth}

module _ (arch : Arch) (p : Ptrace) (o : Options) (h : Host p) (orig_eax : p.Kernel → ℕ → ℤ)
    (read_status : ℕ → Option (List ℕ)) (base : ℕ → ℕ) (tid i address : ℕ) where
  -- What a handler leaves: the process is traced on, or it is this one that is to be removed.
  data IsHandled : Outcome p.Kernel → Type 0 where
    stays :
        (c : Context p.Kernel) → Traced arch base h.nr_execve tid i address c → IsHandled (kept c)
    goes : (c : Context p.Kernel) → c.proc.address ≡ address → IsHandled (removed c)

  -- Between two rounds the process is the only one and is traced, or none is left; or utrace left
  -- with exit(0).
  pub data StaysTraced : Loop p.Kernel → Type 0 where
    traced_on :
        (s : Tracer p.Kernel) (q : Process)
        → s.procs ≡ q ∷ []
        → IsSound (truth arch p o h orig_eax read_status base tid i address) s.cache
        → Traced arch base h.nr_execve tid i address (context_with s q)
        → StaysTraced (running s)
    nobody_left : (s : Tracer p.Kernel) → s.procs ≡ [] → StaysTraced (running s)
    done : StaysTraced (exited 0)

  -- What waitpid and the tracee can bring: a stop, an exit or a death of the thread, in no trap at
  -- address 0; an interruption; or that there is no child.
  pub data IsPlausible (w : Turn p.Kernel) : Type 0 where
    of_thread :
        (status : WaitStatus)
        → w.answer ≡ changed tid status
        → status ≢ neither
        → pc_before arch p o h w.now (p.instruction_pointer w.kernel tid) ≢ 0
        → IsPlausible w
    of_nobody : w.answer ≡ no_child → IsPlausible w
    of_eintr : w.answer ≡ interrupted → IsPlausible w

  pub data ArePlausible : List (Turn p.Kernel) → Type 0 where
    no_turn : ArePlausible []
    one_more :
        (w : Turn p.Kernel) (ws : List (Turn p.Kernel))
        → IsPlausible w
        → ArePlausible ws
        → ArePlausible (w ∷ ws)

  -- What `process_event` makes of an event for which it is ready.
  data IsHandledEvent (now : Timeval) : Waited p.Kernel → Type 0 where
    of_event :
        (thing : Thing) (slot : ℕ) (c : Context p.Kernel)
        → Returns (process_event arch p o h now false slot thing c) IsHandled
        → IsHandledEvent now (event thing slot c)

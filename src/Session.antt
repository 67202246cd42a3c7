-- ===== src/Session.antt =====
-- The loop of `main` in utrace-0.1/ltrace.c: between two rounds the tracees run and leave the kernel in a
-- state of its own, and a round is `process_event(wait_for_something())` on what `waitpid` says. `now`
-- is the time of the round; the files under /proc are the same in all rounds.
pub mod Typed
pub mod Reinsert
pub mod Breaks
pub mod Calls
pub mod Returns
pub mod Made
pub mod Looked
pub mod Rounds
pub mod Execs
pub mod RoundTrip
use utrace.Common.{ℕ, Bool, List, [], ◌∷◌, Option, ◌==◌, if◌then◌else◌}
use utrace.Common.Int.{ℤ}
use utrace.Ptrace.{Ptrace}
use utrace.Arch.{Arch}
use utrace.Tracee.{Timeval, Process}
use utrace.Tgid.{Pid2TgidEntry}
use utrace.Processes.{remove_proc}
use utrace.Run.{Run, ok, ◌>>=◌}
use utrace.Options.{Options}
use utrace.Breakpoints.{Core}
use utrace.Events.{Host, Context, Display}
use utrace.Events.Handlers.{Outcome, kept, removed, process_event}
use utrace.Wait.{WaitAnswer, Waited, leaves, nothing, event, wait_for_something}

-- What the world contributes to a round.
pub record Turn (K : Type 0) : Type 0 where
  pub kernel : K
  pub answer : WaitAnswer
  pub now : Timeval

-- The variables that the rounds share: those behind the pointers, the output, `current_time_spent`,
-- the cache of pid2tgid and `list_of_processes`.
pub record Tracer (K : Type 0) : Type 0 where
  pub core : Core K
  pub displayed : List Display
  pub current_time_spent : ℤ × ℕ
  pub cache : List Pid2TgidEntry
  pub procs : List Process

-- The loop goes on, or `exit(code)` was called.
pub data Loop (K : Type 0) : Type 0 where
  running : Tracer K → Loop K
  exited : (code : ℕ) → Loop K

-- The process that an event changed stands where pid2proc found it.
unfoldable pub put_back : Process → List Process → List Process
put_back proc [] = []
put_back proc (q ∷ qs) =
    let rest = put_back proc qs in if proc.pid == q.pid then proc ∷ qs else q ∷ rest

abbrev pub with_procs : {K : Type 0} → Context K → List Pid2TgidEntry → List Process → Tracer K
with_procs c cache procs = record {
  core = c.core;
  displayed = c.displayed;
  current_time_spent = c.current_time_spent;
  cache = cache;
  procs = procs;
}

module _ (arch : Arch) (p : Ptrace) (o : Options) (h : Host p) (orig_eax : p.Kernel → ℕ → ℤ)
    (read_status : ℕ → Option (List ℕ)) (exiting : Bool) where
  -- What a handler leaves; where it removes the process, it does so by `remove_proc`.
  unfoldable pub settle : List Pid2TgidEntry → List Process → Outcome p.Kernel → Run (Loop p.Kernel)
  unfolding put_back
  settle cache procs (kept c) = ok (running (with_procs c cache (put_back c.proc procs)))
  settle cache procs (removed c) =
      remove_proc c.proc.address procs >>= λ procs'. ok (running (with_procs c cache procs'))

  -- `process_event` on the event; LT_EV_NONE of no thread does nothing.
  unfoldable pub handle :
      Timeval → Tracer p.Kernel → Waited p.Kernel × List Pid2TgidEntry → Run (Loop p.Kernel)
  unfolding settle
  handle now s (leaves code, cache) = ok (exited code)
  handle now s (nothing, cache) = ok (running (record s { cache = cache }))
  handle now s (event thing slot c, cache) =
      process_event arch p o h now exiting slot thing c >>= settle cache s.procs

  abbrev pub wait : Turn p.Kernel → Tracer p.Kernel → Run (Waited p.Kernel × List Pid2TgidEntry)
  wait w s =
      wait_for_something arch p o h w.now orig_eax read_status
        (record (s.core) { kernel = w.kernel }) s.displayed s.current_time_spent s.cache s.procs
        w.answer

  unfoldable pub round : Turn p.Kernel → Tracer p.Kernel → Run (Loop p.Kernel)
  unfolding handle
  round w s = wait w s >>= handle w.now (record s { core = record (s.core) { kernel = w.kernel } })

  -- `while (1)`, as long as the world has an answer.
  unfoldable pub rounds : List (Turn p.Kernel) → Loop p.Kernel → Run (Loop p.Kernel)
  unfolding round
  rounds [] l = ok l
  rounds (w ∷ ws) (exited code) = ok (exited code)
  rounds (w ∷ ws) (running s) = round w s >>= rounds ws

-- ===== src/Session/Looked.antt =====
-- `wait_for_something` of utrace-0.1/wait_for_something.c finds a traced process and its thread.
use utrace.Common.{ℕ, ◌≡◌, ◌≢◌, refl, ◌∙◌, List, [], ◌∷◌, Option, some, false, ==_ne, ==_refl}
use utrace.Common.Int.{ℤ}
use utrace.Ptrace.{Ptrace}
use utrace.Arch.{Arch}
use utrace.Tracee.{Thread, Process}
use utrace.Threads.{at, look_hot, tid2thread}
use utrace.Processes.{pid2proc}
use utrace.Tgid.{tgid_of_status, pid2tgid}
use utrace.Tgid.Cache.{IsSound, pid2tgid-IsSound}
use utrace.Run.{◌>>=◌, Returns}
use utrace.Options.{Options}
use utrace.Events.{Host, Context}
use utrace.Wait.{WaitStatus, neither, changed, pc_before, find_thread, event_in, wait_for_something}
use utrace.Session.{Turn, Tracer, wait}
use utrace.Session.Typed.{IsTraced, Traced, world-IsTraced}
use utrace.Session.Made.{IsReady, make_event-IsReady}

abbrev pub context_with : {K : Type 0} → Tracer K → Process → Context K
context_with s q = record {
  core = s.core;
  proc = q;
  displayed = s.displayed;
  current_time_spent = s.current_time_spent;
}

module _ (arch : Arch) (p : Ptrace) (o : Options) (h : Host p) (orig_eax : p.Kernel → ℕ → ℤ)
    (read_status : ℕ → Option (List ℕ)) (base : ℕ → ℕ) (tid i address : ℕ) where
  abbrev pub truth : ℕ → ℕ
  truth q = tgid_of_status (read_status q)

  tid2thread-at :
      (c : Context p.Kernel) (t : Thread)
      → IsTraced arch base h.nr_execve tid i address c t
      → tid2thread tid c.proc ≡ at i
  unfolding tid2thread look_hot
  tid2thread-at c t v =
      rw
        (
          tid2thread,
          look_hot,
          ==_ne tid 0 v.real,
          v.cached,
          v.balanced.stands,
          v.named,
          ==_refl tid,
        )
        refl

  pid2proc-only : (q : Process) → q.pid ≡ tid → pid2proc tid (q ∷ []) ≡ some q
  unfolding pid2proc
  pid2proc-only q e = rw (e, ==_refl tid) refl

  -- A stop of the thread is made an event of the thread, for which the handlers are ready.
  pub wait-IsReady :
      (w : Turn p.Kernel) (s : Tracer p.Kernel) (q : Process) (status : WaitStatus)
      → truth tid ≡ tid
      → IsSound truth s.cache
      → s.procs ≡ q ∷ []
      → Traced arch base h.nr_execve tid i address (context_with s q)
      → w.answer ≡ changed tid status
      → status ≢ neither
      → pc_before arch p o h w.now (p.instruction_pointer w.kernel tid) ≢ 0
      → Returns
          (wait arch p o h orig_eax read_status false w s)
          λ r. IsReady arch p o h w.now base tid i address r.0 × IsSound truth r.1
  unfolding wait_for_something event_in find_thread
  wait-IsReady w s q status own sound alone (t, v) answer said elsewhere =
      let r = pid2tgid read_status tid s.cache in
      let (group, sound') = pid2tgid-IsSound truth read_status tid s.cache (λ u. refl) sound in
      let c : Context p.Kernel = record (context_with s q) {
        core = record (s.core) { kernel = w.kernel };
      } in
      let v' : IsTraced arch base h.nr_execve tid i address c t =
        world-IsTraced arch base h.nr_execve tid i address (context_with s q) t _ _ _ v in
      let (e, run, ready) =
        make_event-IsReady arch p o h w.now base tid i address orig_eax c t status v' said
          elsewhere in
      (
        (e, r.1),
        rw
            (
              wait_for_something,
              alone,
              answer,
              group ∙ own,
              event_in,
              pid2proc-only q v.leader,
              find_thread,
              tid2thread-at c t v',
              ◌>>=◌,
              run,
            )
            refl,
        (ready, sound'),
      )

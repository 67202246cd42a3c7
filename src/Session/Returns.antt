-- ===== src/Session/Returns.antt =====
-- `process_sysret` of utrace-0.1/process_event.c, for a traced process.
use utrace.Common.{
  ℕ, suc, ◌≡◌, inl, inr, refl, ap, sym, ◌∙◌, arith, false, Bool, Bool-cases, ◌==◌, ◌&&◌,
  if◌then◌else◌,
}
use utrace.Ptrace.{Ptrace}
use utrace.Arch.{Arch}
use utrace.Tracee.{Timeval, syscall, Thread, Process}
use utrace.Run.{ok, ◌>>=◌, Returns, bind-Returns, weaken-Returns, along-Returns}
use utrace.Options.{Options}
use utrace.Callstack.Balance.{element_at_lem}
use utrace.Events.{right, Host, Context, show, fork_p, clone_p, exec_p, pops, measure}
use utrace.Events.Traps.{pops-Popped, measure_lem}
use utrace.Events.Unwind.{same_pointer}
use utrace.Events.Handlers.{follow_fork, follow_clone, follow_exec, show_sysret, process_sysret}
use utrace.Session.Typed.{IsTraced, Traced, world-IsTraced, after-IsTraced}
use utrace.Session.Calls.{continue_process-Traced}

and_false : (b c : Bool) → c ≡ false → b && c ≡ false
and_false b c e = ground arith

module _ (arch : Arch) (p : Ptrace) (o : Options) (h : Host p) (now : Timeval) (base : ℕ → ℕ)
    (tid i address : ℕ) where
  abbrev IsOurs : Context p.Kernel → Thread → Type 0
  IsOurs c t = IsTraced arch base h.nr_execve tid i address c t

  abbrev Ours : Context p.Kernel → Type 0
  Ours c = Traced arch base h.nr_execve tid i address c

  show_sysret-Traced :
      (c : Context p.Kernel) (n : ℕ) → Ours c → Returns (show_sysret arch p o h now i n c) Ours
  unfolding show_sysret
  show_sysret-Traced c n (t, v) = elim (Bool-cases o.opt_S) [
    | inl on ↦ (
      show c (right t.tid t.callstack_depth (syscall n)),
      rw (show_sysret, on, element_at_lem c.proc.threads i t v.balanced.stands, ◌>>=◌) refl,
      (t, world-IsTraced arch base h.nr_execve tid i address c t _ _ _ v),
    )
    | inr off ↦ (c, rw (show_sysret, off) refl, (t, v))
  ]

  -- Without -f nothing is followed, and at the end of any call but execve nothing is read again.
  follow_fork_lem :
      {P : Context p.Kernel → Type 0} (c : Context p.Kernel) (n : ℕ)
      → o.opt_f ≡ false
      → P c
      → Returns (follow_fork arch p o h now n c) P
  unfolding follow_fork
  follow_fork_lem c n e w = (c, rw (follow_fork, and_false (fork_p h n) o.opt_f e) refl, w)

  follow_clone_lem :
      {P : Context p.Kernel → Type 0} (c : Context p.Kernel) (k n : ℕ)
      → o.opt_f ≡ false
      → P c
      → Returns (follow_clone arch p o h now k n c) P
  unfolding follow_clone
  follow_clone_lem c k n e w = (c, rw (follow_clone, and_false (clone_p h n) o.opt_f e) refl, w)

  follow_exec_lem :
      {P : Context p.Kernel → Type 0} (c : Context p.Kernel) (k n : ℕ)
      → (n == h.nr_execve) ≡ false
      → P c
      → Returns (follow_exec arch p o h now k n c) P
  unfolding follow_exec exec_p
  follow_exec_lem c k n e w = (c, rw (follow_exec, exec_p, e) refl, w)

  measured :
      (c : Context p.Kernel) (t : Thread) (d : ℕ)
      → IsOurs c t
      → t.callstack_depth ≡ suc d
      → Returns (measure arch p o h now i c) λ c'. IsOurs c' t
  measured c t d v depth =
      weaken-Returns _ (measure_lem arch p o h now base i c t d v.balanced depth) λ c' m.
        after-IsTraced arch base h.nr_execve tid i address c c' t t v (rw (m.0, m.1) (v.balanced))
          v.typed (rw (m.1) (v.stepping)) refl
          (record {
            symbols = ap (λ (q : Process). q.list_of_symbols) (m.1);
            setting = ap (λ (q : Process). q.breakpoints_enabled) (m.1);
            hot = ap (λ (q : Process). q.hot_tid_idx) (m.1);
            same_pid = ap (λ (q : Process). q.pid) (m.1);
            same_address = ap (λ (q : Process). q.address) (m.1);
          })

  popped :
      (c : Context p.Kernel) (t : Thread) (n d : ℕ)
      → IsOurs c t
      → t.callstack_depth ≡ suc d
      → (n == h.nr_execve) ≡ false
      → Returns (if exec_p h n then ok c else pops arch p o h now i 1 c) Ours
  unfolding exec_p
  popped c t n d v depth other = along-Returns _ _ (rw (exec_p, other) refl) (
      weaken-Returns _ (pops-Popped arch p o h now base i 1 d c t v.balanced (depth ∙ omega arith))
        λ c' q. (
          q.thread,
          after-IsTraced arch base h.nr_execve tid i address c c' t q.thread v q.balanced
              (rw (q.only_depth) λ j k e g. v.typed j (omega arith) e g)
              (λ s e.
                let (a, g) =
                  v.stepping s
                    (sym (ap (λ (x : Thread). x.breakpoint_being_enabled) q.only_depth) ∙ e) in
                (a, same_pointer c'.proc c.proc a q.same_table ∙ g))
              (ap (λ (x : Thread). x.tid) q.only_depth) q.same_settings,
        ))

  -- At the end of a system call, which has its frame, the handler ends without a fault.
  pub process_sysret-Traced :
      (c : Context p.Kernel) (t : Thread) (n d : ℕ)
      → o.opt_f ≡ false
      → IsOurs c t
      → (n == h.nr_execve) ≡ false
      → t.callstack_depth ≡ suc d
      → Returns (process_sysret arch p o h now i n c) Ours
  unfolding process_sysret follow_fork follow_clone follow_exec exec_p
  process_sysret-Traced c t n d no_follow v other depth =
      along-Returns _ _
        (rw (process_sysret, element_at_lem c.proc.threads i t v.balanced.stands, ◌>>=◌) refl)
        (bind-Returns _ _ (measured c t d v depth) λ c₁ v₁.
          bind-Returns _ _ (follow_fork_lem c₁ n no_follow v₁) λ c₂ v₂.
            bind-Returns _ _ (follow_clone_lem c₂ t.tid n no_follow v₂) λ c₃ v₃.
              bind-Returns _ _ (popped c₃ t n d v₃ depth other) λ c₄ v₄.
                bind-Returns _ _ (show_sysret-Traced c₄ n v₄) λ c₅ v₅.
                  bind-Returns _ _ (follow_exec_lem c₅ t.tid n other v₅) λ c₆ v₆. (
                    _,
                    refl,
                    continue_process-Traced arch p o h now base tid i address c₆ t.tid v₆,
                  ))

-- ===== src/Session/Reinsert.antt =====
-- `reinsert`, the first branch of `process_breakpoint` in utrace-0.1/process_event.c, for a traced
-- process.
use utrace.Common.{
  ℕ, ◌%◌, ◌^◌, ◌≡◌, inl, inr, refl, ap, sym, ◌∙◌, arith, Bool-cases, some, none, ◌==◌, ==_iff,
  length,
}
use utrace.Ptrace.{Ptrace}
use utrace.Arch.{Arch, FitsWord}
use utrace.Trap.{Breakpoint, enable_breakpoint}
use utrace.Trap.Restore.{enable_breakpoint_keeps}
use utrace.Tracee.{Timeval, Thread}
use utrace.Run.{◌>>=◌, Returns}
use utrace.Options.{Options}
use utrace.Breakpoints.{Core, switch_on}
use utrace.Breakpoints.Store.{
  IsStore, ptr_at, count, count_congr, deref_live, rewrite-IsStore, rewrite-count,
}
use utrace.Callstack.{set_thread}
use utrace.Events.{Host, Context, reinsert, continue_process, continue_enabling_breakpoint}
use utrace.Session.Typed.{IsTraced, Traced, world-IsTraced, thread-IsTraced, after-IsTraced}

module _ (arch : Arch) (p : Ptrace) (o : Options) (h : Host p) (now : Timeval) (base : ℕ → ℕ)
    (tid i address : ℕ) where
  abbrev pub IsOurs : Context p.Kernel → Thread → Type 0
  IsOurs c t = IsTraced arch base h.nr_execve tid i address c t

  abbrev pub Ours : Context p.Kernel → Type 0
  Ours c = Traced arch base h.nr_execve tid i address c

  -- Writing the trap again kept_parts every count.
  switch_on-IsTraced :
      (c : Context p.Kernel) (t : Thread) (a sbp : ℕ) (b : Breakpoint)
      → FitsWord arch
      → IsOurs c t
      → ptr_at c.proc a ≡ some sbp
      → c.core.heap sbp ≡ some b
      → b.addr % 2 ^ 32 ≡ a % 2 ^ 32
      → length b.orig_value ≡ arch.breakpoint_length
      → IsOurs (record c { core = switch_on arch p c.core t.tid sbp b }) t
  unfolding switch_on
  switch_on-IsTraced c t a sbp b fits v e alive same len =
      after-IsTraced arch base h.nr_execve tid i address c _ t t v
        (record {
          store = record {
            table = store'.table;
            keyed = store'.keyed;
            found = store'.found;
            live = store'.live;
          };
          stands = v.balanced.stands;
          thread = v.balanced.thread;
          child = v.balanced.child;
          counts = λ x. same_count x ∙ v.balanced.counts x;
        })
        v.typed v.stepping refl
        (record {
          symbols = refl;
          setting = refl;
          hot = refl;
          same_pid = refl;
          same_address = refl;
        })
    where
      b' : Breakpoint
      b' = (enable_breakpoint arch p t.tid c.core.kernel b).1

      kept_parts :
          (b'.addr ≡ b.addr)
          × (b'.enabled ≡ b.enabled)
          × (length b'.orig_value ≡ length b.orig_value)
      kept_parts = enable_breakpoint_keeps arch p t.tid c.core.kernel b fits

      s' : Core p.Kernel
      s' = switch_on arch p c.core t.tid sbp b

      store' : IsStore arch s' c.proc
      store' =
          rewrite-IsStore arch c.core c.proc a sbp b' s' v.balanced.store e refl (omega arith)
            (ap (λ x. x % 2 ^ 32) kept_parts.0 ∙ same) (kept_parts.2 ∙ len)

      count_here : (x : ℕ) → x % 2 ^ 32 ≡ a % 2 ^ 32 → count c.core c.proc x ≡ b.enabled
      count_here x k = count_congr arch c.core c.proc x a v.balanced.store k ∙ rw (e, alive)

      same_count : (x : ℕ) → count s' c.proc x ≡ count c.core c.proc x
      same_count x = elim (Bool-cases (x % 2 ^ 32 == a % 2 ^ 32)) [
        | inl here ↦
            rewrite-count arch c.core c.proc a sbp b' s' v.balanced.store e refl store' x
            ∙ rw here (kept_parts.1 ∙ sym (count_here x ((==_iff _ _).0 here)))
        | inr other ↦
            rewrite-count arch c.core c.proc a sbp b' s' v.balanced.store e refl store' x ∙ rw other
      ]

  pub reinsert-IsTraced :
      (c : Context p.Kernel) (t : Thread) (sbp : ℕ)
      → FitsWord arch
      → IsOurs c t
      → t.breakpoint_being_enabled ≡ some sbp
      → Returns (reinsert arch p o h now i t sbp c) λ c'.
        IsOurs c' (record t { breakpoint_being_enabled = none }) × (c'.displayed ≡ c.displayed)
  unfolding reinsert continue_enabling_breakpoint continue_process
  reinsert-IsTraced c t sbp fits v e =
      let (a, held) = v.stepping sbp e in
      let l = v.balanced.store.live a sbp held in
      let t' : Thread = record t { breakpoint_being_enabled = none } in
      let c₁ : Context p.Kernel = record c { core = switch_on arch p c.core t.tid sbp l.struct } in
      let v₁ =
        switch_on-IsTraced c t a sbp l.struct fits v held l.alive l.same_addr l.same_length in
      let c₂ : Context p.Kernel = continue_process arch p o h now t.tid c₁ in
      let v₂ : IsOurs c₂ t = world-IsTraced arch base h.nr_execve tid i address c₁ t _ _ _ v₁ in
      (
        record c₂ { proc = set_thread c₂.proc i t' },
        rw (reinsert, deref_live c.core sbp l.struct l.alive, ◌>>=◌) refl,
        (
          thread-IsTraced arch base h.nr_execve tid i address c₂ t t' v₂ refl refl refl refl
              (λ q g. absurd (cc g)),
          refl,
        ),
      )

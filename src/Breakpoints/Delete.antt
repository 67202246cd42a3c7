-- ===== src/Breakpoints/Delete.antt =====
-- `delete_breakpoint` of utrace-0.1/breakpoints.c lowers one count.
use utrace.Common.{
  ℕ, suc, ◌+◌, ◌≡◌, ap, sym, ◌∙◌, some, ◌==◌, if◌then◌else◌, arith, inl, inr, Option-cases,
}
use utrace.Dict.{Dict, dict_init, dict_find_entry}
use utrace.Dict.Lookup.{dict_find_entry-init}
use utrace.Dict.Keys.{int_ops}
use utrace.Ptrace.{Ptrace}
use utrace.Arch.{Arch}
use utrace.Trap.{Breakpoint, disable_breakpoint}
use utrace.Tracee.{Process}
use utrace.Run.{ok, fault, assertion, ◌>>=◌, Returns}
use utrace.Breakpoints.{
  Core, overwrite, write, address2bpstruct, dict_of, count_down, delete_breakpoint,
}
use utrace.Breakpoints.Store.{
  ptr_at, deref_live, count, count_congr, hit, IsStore, rewrite-IsStore, rewrite-count,
}

module _ (arch : Arch) (p : Ptrace) where
  pub found_at :
      (proc : Process) (d : Dict ℕ ℕ) (a : ℕ)
      → proc.breakpoints ≡ some d
      → address2bpstruct proc a ≡ ok (ptr_at proc a)
  unfolding address2bpstruct
  found_at proc d a e = ground arith

  pub has_table :
      (proc : Process) (a q : ℕ)
      → ptr_at proc a ≡ some q
      → (d : Dict ℕ ℕ) × (proc.breakpoints ≡ some d)
  has_table proc a q e = elim (Option-cases proc.breakpoints) [
    | inr h ↦ h
    | inl h ↦
        let d : dict_of proc ≡ dict_init int_ops = ground arith in
        absurd (cc (sym e ∙ ap (λ t. dict_find_entry t a) d ∙ dict_find_entry-init int_ops a))
  ]

  -- One less at the address, nothing else counted otherwise.
  pub record Deletes (s : Core p.Kernel) (proc : Process) (a : ℕ) (s' : Core p.Kernel)
      : Type 0 where
    pub store : IsStore arch s' proc
    pub counted : (c : ℕ) → count s' proc c + hit c a ≡ count s proc c

  -- On a well-formed store where the count of the address is not 0, delete_breakpoint ends without
  -- a fault in a well-formed store, lowers that count by one and leaves every other count
  pub delete_breakpoint-Deletes :
      (s : Core p.Kernel) (proc : Process) (a n : ℕ)
      → IsStore arch s proc
      → count s proc a ≡ suc n
      → Returns (delete_breakpoint arch p s proc a) (Deletes s proc a)
  unfolding delete_breakpoint count_down
  delete_breakpoint-Deletes s proc a n t e = elim (Option-cases (ptr_at proc a)) [
    | inl m ↦ absurd (ground arith)
    | inr (q, m) ↦
        let l = t.live a q m in
        let (d, has) = has_table proc a q m in
        let now : l.struct.enabled ≡ suc n = ground (arith, l.alive) in
        let b : Breakpoint = record (l.struct) { enabled = n } in
        let s₁ : Core p.Kernel = write s q b in
        let s' : Core p.Kernel =
          if n == 0
          then record s₁ { kernel = disable_breakpoint arch p proc.pid s.kernel b }
          else s₁ in
        let h : s'.heap ≡ overwrite s.heap q (some b) = ground arith in
        let fr : s'.fresh ≡ s.fresh = ground arith in
        let store : IsStore arch s' proc =
          rewrite-IsStore arch s proc a q b s' t m h (omega (arith, fr)) l.same_addr
            l.same_length in
        (
          s',
          rw (
            delete_breakpoint,
            found_at proc d a has,
            m,
            ◌>>=◌,
            deref_live s q l.struct l.alive,
            now,
          ),
          record {
            store = store;
            counted = λ c. ground (
              arith,
              rewrite-count arch s proc a q b s' t m h store c,
              count_congr arch s proc c a t,
            );
          },
        )
  ]

  -- On a well-formed store with a table, delete_breakpoint fails its assertion where the count of
  -- the address is 0
  pub delete_breakpoint_unwanted :
      (s : Core p.Kernel) (proc : Process) (d : Dict ℕ ℕ) (a : ℕ)
      → IsStore arch s proc
      → proc.breakpoints ≡ some d
      → count s proc a ≡ 0
      → delete_breakpoint arch p s proc a ≡ fault assertion
  unfolding delete_breakpoint count_down
  delete_breakpoint_unwanted s proc d a t has e = elim (Option-cases (ptr_at proc a)) [
    | inl m ↦ rw (delete_breakpoint, found_at proc d a has, m)
    | inr (q, m) ↦
        let l = t.live a q m in
        let now : l.struct.enabled ≡ 0 = ground (arith, l.alive) in
        rw
          (delete_breakpoint, found_at proc d a has, m, ◌>>=◌, deref_live s q l.struct l.alive, now)
  ]

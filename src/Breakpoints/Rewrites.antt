-- ===== src/Breakpoints/Rewrites.antt =====
-- The code of a process when one struct of utrace-0.1/breakpoints.c is written.
use utrace.Common.{
  ℕ, ◌+◌, ◌-◌, ◌≡◌, ◌≢◌, ◌⊎◌, refl, ap, ap₂, sym, subst, ◌∙◌, arith, false, ◌&&◌, Bool-cases, inl,
  inr, some, ◌==◌, ==_iff, ==_refl, ==_ne, if◌then◌else◌, leb, ltb, get_or,
}
use utrace.Ptrace.{Ptrace, IsMemory}
use utrace.Arch.{Arch, FitsWord}
use utrace.Trap.{Breakpoint, disable_breakpoint}
use utrace.Trap.Restore.{Sets, disable_breakpoint-restores}
use utrace.Tracee.{Process}
use utrace.Breakpoints.{Core, overwrite}
use utrace.Breakpoints.Store.{ptr_at, IsArmed}
use utrace.Breakpoints.Code.{
  covers, Apart, IsOver, IsCode, swap-Apart, Apart-covers, own_covers, moved-IsOver,
}

module _ (arch : Arch) (p : Ptrace) (pid : ℕ) (m : IsMemory p arch.sizeof_long pid) where
  module _ (s s' : Core p.Kernel) (proc : Process) (q : ℕ) (st : Breakpoint)
      (rewrites : s'.heap ≡ overwrite s.heap q (some st)) where
    set_self : (x : Breakpoint) → IsArmed s' proc q x → x ≡ st
    set_self x i =
        let here : s'.heap q ≡ some st = rw (rewrites, ==_refl q) refl in
        let same : some x ≡ some st = sym i.alive ∙ here in cc same

    set_other : (r : ℕ) (x : Breakpoint) → q ≢ r → IsArmed s' proc r x → IsArmed s proc r x
    set_other r x ne i = record {
      key = i.key;
      held = i.held;
      alive = sym (rw (rewrites, ==_ne q r ne) refl) ∙ i.alive;
      wanted = i.wanted;
    }

    other_set : (r : ℕ) (x : Breakpoint) → q ≢ r → IsArmed s proc r x → IsArmed s' proc r x
    other_set r x ne i = record {
      key = i.key;
      held = i.held;
      alive = rw (rewrites, ==_ne q r ne) i.alive;
      wanted = i.wanted;
    }

    -- A struct of the new table is the one that was written, or an old one.
    split_set :
        (r : ℕ) (x : Breakpoint)
        → IsArmed s' proc r x
        → ((q ≡ r) × (x ≡ st)) ⊎ ((q ≢ r) × IsArmed s proc r x)
    split_set r x i = elim (Bool-cases (q == r)) [
      | inl here ↦
          let same : q ≡ r = (==_iff q r).0 here in
          inl (same, set_self x (subst (λ n. IsArmed s' proc n x) (sym same) i))
      | inr other ↦
          let apart : q ≢ r = λ e. cc (sym other ∙ (==_iff q r).1 e) in
          inr (apart, set_other r x apart i)
    ]

    self_set : (a : ℕ) → ptr_at proc a ≡ some q → st.enabled ≢ 0 → IsArmed s' proc q st
    self_set a held wanted = record {
      key = a;
      held = held;
      alive = rw (rewrites, ==_refl q) refl;
      wanted = wanted;
    }

    -- The traps stay apart if the written one is apart from the others.
    Apart-after :
        (orig : ℕ → ℕ)
        → IsCode arch p pid m orig s proc
        → ((r : ℕ) (x : Breakpoint)
            → q ≢ r
            → IsArmed s proc r x
            → Apart arch p pid m st.addr x.addr)
        → (r₁ r₂ : ℕ) (x y : Breakpoint) → IsArmed s' proc r₁ x
        → IsArmed s' proc r₂ y
        → r₁ ≢ r₂
        → Apart arch p pid m x.addr y.addr
    Apart-after orig c new r₁ r₂ x y i j ne = elim (split_set r₁ x i) [
      | inl (here, same) ↦ elim (split_set r₂ y j) [
        | inl (there, _) ↦ absurd (ne (sym here ∙ there))
        | inr (other, j') ↦
            subst (λ z. Apart arch p pid m z y.addr) (ap (λ z. z.addr) (sym same))
              (new r₂ y other j')
      ]
      | inr (other, i') ↦ elim (split_set r₂ y j) [
        | inl (there, same) ↦ swap-Apart arch p pid m y.addr x.addr (
            subst (λ z. Apart arch p pid m z x.addr) (ap (λ z. z.addr) (sym same))
              (new r₁ x other i'))
        | inr (_, j') ↦ c.apart r₁ r₂ x y i' j' ne
      ]
    ]

    -- A byte that the written struct and the others do not cover was not covered.
    free_before :
        (b : ℕ) (old : Breakpoint)
        → s.heap q ≡ some old
        → st.addr ≡ old.addr
        → covers arch p pid m st b ≡ false
        → ((r : ℕ) (x : Breakpoint) → q ≢ r → IsArmed s proc r x → covers arch p pid m x b ≡ false)
        → (r : ℕ) (x : Breakpoint) → IsArmed s proc r x
        → covers arch p pid m x b ≡ false
    free_before b old alive same_addr free others r x i = elim (Bool-cases (q == r)) [
      | inl here ↦
          let same_pointer : q ≡ r = (==_iff q r).0 here in
          let one : some old ≡ some x = sym alive ∙ ap s.heap same_pointer ∙ i.alive in
          let same : old ≡ x = cc one in
          subst (λ z. covers arch p pid m z b ≡ false) same
            (ap (λ z. leb z b && ltb b (z + arch.breakpoint_length)) (sym same_addr) ∙ free)
      | inr other ↦ others r x (λ e. cc (sym other ∙ (==_iff q r).1 e)) i
    ]

    -- The count of a struct that is set changes, and stays above 0.
    pub recount-IsCode :
        (orig : ℕ → ℕ) (a : ℕ) (old : Breakpoint)
        → IsCode arch p pid m orig s proc
        → ptr_at proc a ≡ some q
        → s.heap q ≡ some old
        → old.enabled ≢ 0
        → st.enabled ≢ 0
        → st.addr ≡ old.addr
        → st.orig_value ≡ old.orig_value
        → s'.kernel ≡ s.kernel
        → IsCode arch p pid m orig s' proc
    recount-IsCode orig a old c held alive was now same_addr same_value same_kernel =
        let before : IsArmed s proc q old = record {
          key = a;
          held = held;
          alive = alive;
          wanted = was;
        } in
        let after : IsArmed s' proc q st = self_set a held now in
        let still = λ (b : ℕ). ap (λ k. m.byte k b) same_kernel in
        record {
          traps = λ r x i. elim (split_set r x i) [
            | inl (_, same) ↦ subst (IsOver arch p pid m orig s'.kernel) (sym same) (
                moved-IsOver arch p pid m orig s.kernel s'.kernel old st (c.traps q old before)
                  same_addr same_value λ j h. still (old.addr + j))
            | inr (_, i') ↦
                moved-IsOver arch p pid m orig s.kernel s'.kernel x x (c.traps r x i') refl refl
                  λ j h. still (x.addr + j)
          ];
          others = λ b free.
              still b
              ∙ c.others b (
                  free_before b old alive same_addr (free q st after)
                    λ r x other i. free r x (other_set r x other i));
          apart = Apart-after orig c λ r x other i.
              subst (λ z. Apart arch p pid m z x.addr) (sym same_addr)
                (c.apart q r old x before i other);
        }

    -- A trap is taken out.
    pub switched_off-IsCode :
        (orig : ℕ → ℕ) (a : ℕ) (old : Breakpoint)
        → FitsWord arch
        → IsCode arch p pid m orig s proc
        → ptr_at proc a ≡ some q
        → s.heap q ≡ some old
        → old.enabled ≢ 0
        → st.enabled ≡ 0
        → st.addr ≡ old.addr
        → st.orig_value ≡ old.orig_value
        → s'.kernel ≡ disable_breakpoint arch p pid s.kernel st
        → IsCode arch p pid m orig s' proc
    switched_off-IsCode orig a old f c held alive was now same_addr same_value off =
        let before : IsArmed s proc q old = record {
          key = a;
          held = held;
          alive = alive;
          wanted = was;
        } in
        let o = c.traps q old before in
        let bytes = λ (b : ℕ).
          ap (λ k. m.byte k b) off ∙ disable_breakpoint-restores arch p pid m s.kernel st b f in
        let gone : (r : ℕ) (x : Breakpoint) → IsArmed s' proc r x → (q ≢ r) × IsArmed s proc r x =
          λ r x i. elim (split_set r x i) [
            | inl (_, same) ↦ absurd (i.wanted (ap (λ z. z.enabled) same ∙ now))
            | inr rest ↦ rest
          ] in
        record {
          traps = λ r x i.
              let (other, i') = gone r x i in
              moved-IsOver arch p pid m orig s.kernel s'.kernel x x (c.traps r x i') refl refl
                λ j h.
                  bytes (x.addr + j)
                  ∙ rw
                      (Apart-covers arch p pid m st x.addr j
                        (subst (λ w. Apart arch p pid m w x.addr) (sym same_addr)
                          (c.apart q r old x before i' other))
                        h)
                      refl;
          others = λ b free. bytes b ∙ elim (Bool-cases (covers arch p pid m st b)) [
            | inl under ↦ rw under (
                ap₂ (λ v z. get_or v (b - z) 0) same_value same_addr
                ∙ o.below (b - old.addr) (ground arith)
                ∙ ap orig (ground arith))
            | inr free_of ↦ rw free_of (
                c.others b (
                  free_before b old alive same_addr free_of
                    λ r x other i. free r x (other_set r x other i)))
          ];
          apart = λ r₁ r₂ x y i j ne. c.apart r₁ r₂ x y (gone r₁ x i).1 (gone r₂ y j).1 ne;
        }

    -- A trap is put in.
    pub switched_on-IsCode :
        (orig : ℕ → ℕ) (a : ℕ) (old b' : Breakpoint)
        → IsCode arch p pid m orig s proc
        → ptr_at proc a ≡ some q
        → s.heap q ≡ some old
        → old.enabled ≡ 0
        → b'.addr ≡ old.addr
        → st.enabled ≢ 0
        → ((r : ℕ) (x : Breakpoint) → IsArmed s proc r x → Apart arch p pid m old.addr x.addr)
        → Sets arch p pid m s.kernel b' (s'.kernel, st)
        → IsCode arch p pid m orig s' proc
    switched_on-IsCode orig a old b' c held alive was same now clear t =
        let same_addr : st.addr ≡ old.addr = t.same_addr ∙ same in
        let after : IsArmed s' proc q st = self_set a held now in
        let bytes : (b : ℕ)
            → m.byte s'.kernel b ≡ (
                if covers arch p pid m st b
                then get_or arch.breakpoint_value (b - st.addr) 0
                else m.byte s.kernel b) =
          λ b.
            t.covers b
            ∙ ap
                (λ z.
                  if leb z b && ltb b (z + arch.breakpoint_length)
                  then get_or arch.breakpoint_value (b - z) 0
                  else m.byte s.kernel b)
                (sym t.same_addr) in
        record {
          traps = λ r x i. elim (split_set r x i) [
            | inl (_, one) ↦ subst (IsOver arch p pid m orig s'.kernel) (sym one) (record {
              trap = λ j h.
                  bytes (st.addr + j)
                  ∙ rw (own_covers arch p pid m st j h)
                      (ap (λ z. get_or arch.breakpoint_value z 0) (omega arith));
              below = λ j h.
                  t.saves j h
                  ∙ ap (λ z. m.byte s.kernel (z + j)) same
                  ∙ c.others (old.addr + j) (λ r₁ y i₁.
                    Apart-covers arch p pid m y old.addr j
                      (swap-Apart arch p pid m old.addr y.addr (clear r₁ y i₁)) h)
                  ∙ ap (λ z. orig (z + j)) (sym same_addr);
            })
            | inr (_, i') ↦
                moved-IsOver arch p pid m orig s.kernel s'.kernel x x (c.traps r x i') refl refl
                  λ j h.
                    bytes (x.addr + j)
                    ∙ rw
                        (Apart-covers arch p pid m st x.addr j
                          (subst (λ w. Apart arch p pid m w x.addr) (sym same_addr) (clear r x i'))
                          h)
                        refl
          ];
          others = λ b free.
              let free_of = free q st after in
              bytes b
              ∙ rw free_of (
                  c.others b (
                    free_before b old alive same_addr free_of
                      λ r x other i. free r x (other_set r x other i)));
          apart =
              Apart-after orig c λ r x other i.
                subst (λ z. Apart arch p pid m z x.addr) (sym same_addr) (clear r x i);
        }

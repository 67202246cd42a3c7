-- ===== src/Breakpoints/Code.antt =====
-- The code of a process under the breakpoints of utrace-0.1/breakpoints.c: its own bytes, with a trap
-- instruction over them at each address where one is wanted.
use utrace.Common.{
  ℕ, ◌+◌, ◌≤◌, ◌<◌, ◌≡◌, ◌≢◌, ◌⊎◌, ap, sym, ◌∙◌, arith, false, true, ◌&&◌, Bool, inl, inr, leb, ltb,
  get_or,
}
use utrace.Ptrace.{Ptrace, IsMemory}
use utrace.Arch.{Arch}
use utrace.Trap.{Breakpoint}
use utrace.Tracee.{Process}
use utrace.Breakpoints.{Core}
use utrace.Breakpoints.Store.{IsArmed}

module _ (arch : Arch) (p : Ptrace) (pid : ℕ) (m : IsMemory p arch.sizeof_long pid) where
  -- The bytes of the trap of a struct.
  abbrev pub covers : Breakpoint → ℕ → Bool
  covers st b = leb st.addr b && ltb b (st.addr + arch.breakpoint_length)

  -- The traps at two addresses share no byte.
  abbrev pub Apart : ℕ → ℕ → Type 0
  Apart x y = (x + arch.breakpoint_length ≤ y) ⊎ (y + arch.breakpoint_length ≤ x)

  -- The trap stands, and the struct holds the code below it.
  pub record IsOver (orig : ℕ → ℕ) (k : p.Kernel) (st : Breakpoint) : Type 0 where
    pub trap :
        (j : ℕ)
        → j < arch.breakpoint_length
        → m.byte k (st.addr + j) ≡ get_or arch.breakpoint_value j 0
    pub below : (j : ℕ) → j < arch.breakpoint_length → get_or st.orig_value j 0 ≡ orig (st.addr + j)

  pub record IsCode (orig : ℕ → ℕ) (s : Core p.Kernel) (proc : Process) : Type 0 where
    pub traps : (q : ℕ) (st : Breakpoint) → IsArmed s proc q st → IsOver orig s.kernel st
    pub others :
        (b : ℕ)
        → ((q : ℕ) (st : Breakpoint) → IsArmed s proc q st → covers st b ≡ false)
        → m.byte s.kernel b ≡ orig b
    pub apart :
        (q r : ℕ) (x y : Breakpoint)
        → IsArmed s proc q x
        → IsArmed s proc r y
        → q ≢ r
        → Apart x.addr y.addr

  pub swap-Apart : (x y : ℕ) → Apart x y → Apart y x
  swap-Apart x y (inl h) = inr h
  swap-Apart x y (inr h) = inl h

  -- The bytes of a trap that stands apart are not covered.
  pub Apart-covers :
      (st : Breakpoint) (x j : ℕ)
      → Apart st.addr x
      → j < arch.breakpoint_length
      → covers st (x + j) ≡ false
  Apart-covers st x j (inl h) l = ground arith
  Apart-covers st x j (inr h) l = ground arith

  pub own_covers :
      (st : Breakpoint) (j : ℕ) → j < arch.breakpoint_length → covers st (st.addr + j) ≡ true
  own_covers st j h = ground arith

  -- The same trap in a struct with another count, over bytes that did not change.
  pub moved-IsOver :
      (orig : ℕ → ℕ) (k k' : p.Kernel) (old st : Breakpoint)
      → IsOver orig k old
      → st.addr ≡ old.addr
      → st.orig_value ≡ old.orig_value
      → ((j : ℕ) → j < arch.breakpoint_length → m.byte k' (old.addr + j) ≡ m.byte k (old.addr + j))
      → IsOver orig k' st
  moved-IsOver orig k k' old st o same_addr same_value still = record {
    trap = λ j h. ap (λ z. m.byte k' (z + j)) same_addr ∙ still j h ∙ o.trap j h;
    below = λ j h.
        ap (λ z. get_or z j 0) same_value ∙ o.below j h ∙ ap (λ z. orig (z + j)) (sym same_addr);
  }

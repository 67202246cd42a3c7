-- ===== src/Breakpoints/Changes.antt =====
-- Sequences of calls of `insert_breakpoint` and `delete_breakpoint` of utrace-0.1/breakpoints.c, and the
-- code that they leave.
use utrace.Common.{
  ℕ, suc, ◌-◌, ◌≡◌, ◌≢◌, refl, ap, sym, subst, ◌∙◌, arith, inl, inr, Option-cases, Bool-cases, ◌==◌,
  ==_iff,
}
use utrace.Ptrace.{Ptrace, IsMemory}
use utrace.Arch.{Arch, FitsWord}
use utrace.Trap.{Breakpoint}
use utrace.Tracee.{Process}
use utrace.Run.{ok, fault, null_pointer}
use utrace.Breakpoints.{Core, address2bpstruct, insert_breakpoint, delete_breakpoint}
use utrace.Breakpoints.Insert.{insert_breakpoint-Inserts}
use utrace.Breakpoints.Delete.{delete_breakpoint-Deletes, delete_breakpoint_unwanted}
use utrace.Breakpoints.Store.{count, IsStore, IsArmed}
use utrace.Breakpoints.Code.{IsCode}
use utrace.Breakpoints.Patches.{IsClear, insert_breakpoint-IsCode, delete_breakpoint-IsCode}

module _ (arch : Arch) (p : Ptrace) (pid : ℕ) (m : IsMemory p arch.sizeof_long pid) where
  -- A sequence of calls, each of which returns: of insert_breakpoint at an address where no other
  -- trap is in the way, and of delete_breakpoint.
  pub data History : Core p.Kernel → Process → Core p.Kernel → Process → Type 0 where
    done : (s : Core p.Kernel) (proc : Process) → History s proc s proc
    insertion :
        (s : Core p.Kernel) (proc : Process) (a : ℕ) (s' : Core p.Kernel) (proc' : Process)
        (s'' : Core p.Kernel) (proc'' : Process)
        → IsClear arch p pid m s proc a
        → insert_breakpoint arch p s proc a ≡ ok (s', proc')
        → History s' proc' s'' proc''
        → History s proc s'' proc''
    deletion :
        (s : Core p.Kernel) (proc : Process) (a : ℕ) (s' s'' : Core p.Kernel) (proc'' : Process)
        → delete_breakpoint arch p s proc a ≡ ok s'
        → History s' proc s'' proc''
        → History s proc s'' proc''

  -- A call of delete_breakpoint that returns found the breakpoint wanted.
  deleted_wanted :
      (s : Core p.Kernel) (proc : Process) (a : ℕ) (s' : Core p.Kernel)
      → IsStore arch s proc
      → delete_breakpoint arch p s proc a ≡ ok s'
      → (n : ℕ) × (count s proc a ≡ suc n)
  unfolding delete_breakpoint address2bpstruct
  deleted_wanted s proc a s' t run = elim (Bool-cases (count s proc a == 0)) [
    | inr more ↦ (count s proc a - 1, ground arith)
    | inl nought ↦
        let zero_count : count s proc a ≡ 0 = (==_iff _ 0).0 nought in
        elim (Option-cases proc.breakpoints) [
          | inr (d, has) ↦
              absurd
                (cc (sym (delete_breakpoint_unwanted arch p s proc d a t has zero_count) ∙ run))
          | inl no_table ↦
              let followed : delete_breakpoint arch p s proc a ≡ fault null_pointer =
                rw (delete_breakpoint, address2bpstruct, no_table) refl in
              absurd (cc (sym followed ∙ run))
        ]
  ]

  module _ (orig : ℕ → ℕ) where
    pub record IsPatched (s : Core p.Kernel) (proc : Process) : Type 0 where
      pub store : IsStore arch s proc
      pub code : IsCode arch p pid m orig s proc
      pub same_pid : proc.pid ≡ pid

    pub History-IsPatched :
        (s : Core p.Kernel) (proc : Process) (s' : Core p.Kernel) (proc' : Process)
        → FitsWord arch
        → pid ≢ 0
        → History s proc s' proc'
        → IsPatched s proc
        → IsPatched s' proc'
    History-IsPatched s proc _ _ f live_pid (done _ _) i = i
    History-IsPatched s proc t proc'' f live_pid (insertion _ _ a s' proc' _ _ clear run rest) i =
        let (r, ran, n) = insert_breakpoint-Inserts arch p s proc a f i.store in
        let (r', ran', c) =
          insert_breakpoint-IsCode arch p pid m orig s proc a f i.store i.code i.same_pid live_pid
            clear in
        let same : r ≡ (s', proc') = cc (sym ran ∙ run) in
        let same' : r' ≡ (s', proc') = cc (sym ran' ∙ run) in
        History-IsPatched s' proc' t proc'' f live_pid rest (record {
          store = subst (λ z. IsStore arch z.0 z.1) same n.store;
          code = subst (λ z. IsCode arch p pid m orig z.0 z.1) same' c;
          same_pid =
              sym (ap (λ (z : Core p.Kernel × Process). z.1.pid) same)
              ∙ ap (λ (z : Process). z.pid) n.only_table
              ∙ i.same_pid;
        })
    History-IsPatched s proc t proc'' f live_pid (deletion _ _ a s' _ _ run rest) i =
        let (n, wanted) = deleted_wanted s proc a s' i.store run in
        let (r, ran, d) = delete_breakpoint-Deletes arch p s proc a n i.store wanted in
        let (r', ran', c) =
          delete_breakpoint-IsCode arch p pid m orig s proc a n f i.store i.code i.same_pid
            wanted in
        let same : r ≡ s' = cc (sym ran ∙ run) in
        let same' : r' ≡ s' = cc (sym ran' ∙ run) in
        History-IsPatched s' proc t proc'' f live_pid rest (record {
          store = subst (λ z. IsStore arch z proc) same d.store;
          code = subst (λ z. IsCode arch p pid m orig z proc) same' c;
          same_pid = i.same_pid;
        })

  -- Where no breakpoint is wanted, no struct is armed.
  none_armed :
      (s : Core p.Kernel) (proc : Process)
      → ((a : ℕ) → count s proc a ≡ 0)
      → (q : ℕ) (st : Breakpoint) → IsArmed s proc q st
      → ⊥
  none_armed s proc none_wanted q st i =
      let counted : count s proc i.key ≡ st.enabled = rw (i.held, i.alive) in
      i.wanted (sym counted ∙ none_wanted i.key)

  -- The first state, with its bytes as the code.
  start-IsCode :
      (s : Core p.Kernel) (proc : Process)
      → ((a : ℕ) → count s proc a ≡ 0)
      → IsCode arch p pid m (m.byte s.kernel) s proc
  start-IsCode s proc none_wanted = record {
    traps = λ q st i. absurd (none_armed s proc none_wanted q st i);
    others = λ b free. refl;
    apart = λ q r x y i j ne. absurd (none_armed s proc none_wanted q x i);
  }

  pub start-IsPatched :
      (s : Core p.Kernel) (proc : Process)
      → IsStore arch s proc
      → proc.pid ≡ pid
      → ((a : ℕ) → count s proc a ≡ 0)
      → IsPatched (m.byte s.kernel) s proc
  start-IsPatched s proc t same_pid start = record {
    store = t;
    code = start-IsCode s proc start;
    same_pid = same_pid;
  }

  -- Where the trap instruction fits one word, for a traced process with a well-formed store in
  -- which no breakpoint is wanted: after any sequence of calls of insert_breakpoint, each at an
  -- address where the trap of no other struct is in the way, and of delete_breakpoint, all of
  -- which return, the trap instruction stands at every struct that is wanted, which holds the
  -- bytes that stood there at first, every byte outside these traps is what it was at first, and
  -- no two of these traps overlap
  pub changes-IsCode :
      (s : Core p.Kernel) (proc : Process) (s' : Core p.Kernel) (proc' : Process)
      → FitsWord arch
      → IsStore arch s proc
      → proc.pid ≡ pid
      → pid ≢ 0
      → ((a : ℕ) → count s proc a ≡ 0)
      → History s proc s' proc'
      → IsCode arch p pid m (m.byte s.kernel) s' proc'
  changes-IsCode s proc s' proc' f t same_pid live_pid start h =
      (History-IsPatched (m.byte s.kernel) s proc s' proc' f live_pid h
        (start-IsPatched s proc t same_pid start)).code

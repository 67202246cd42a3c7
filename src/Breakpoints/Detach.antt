-- ===== src/Breakpoints/Detach.antt =====
-- `disable_all_breakpoints` of utrace-0.1/breakpoints.c, before a process goes on untraced.
use mathlib.Core.List.{Memᴰ, foldl}
use mathlib.Core.List.Memᴰ as Memᴰ
use utrace.Common.{
  ℕ, ◌+◌, ◌-◌, ◌<◌, ◌≡◌, ◌≢◌, refl, ap, sym, subst, ◌∙◌, arith, false, List, [], ◌∷◌, Option, some,
  ◌==◌, ==_iff, get_or, Bool-cases, Option-cases, inl, inr, ◌⊎◌,
}
use utrace.Dict.{DictEntry, dict_init, dict_apply_to_all}
use utrace.Dict.Order.{entries, visit, dict_apply_to_all-foldl}
use utrace.Dict.Members.{found_entry, entries-init}
use utrace.Dict.Keys.{int_ops}
use utrace.Ptrace.{Ptrace, IsMemory}
use utrace.Arch.{Arch, FitsWord}
use utrace.Trap.{Breakpoint, disable_breakpoint}
use utrace.Trap.Restore.{disable_breakpoint-restores}
use utrace.Tracee.{Process, Enabled, not_yet, disabled, enabled}
use utrace.Run.{Run, ok, ◌>>=◌, Returns}
use utrace.Breakpoints.{Core, dict_of, disable_bp_cb, disable_all_breakpoints}
use utrace.Breakpoints.Store.{ptr_at, deref_live, IsStore}
use utrace.Breakpoints.Code.{covers, IsCode}

module _ (arch : Arch) (p : Ptrace) (pid : ℕ) (m : IsMemory p arch.sizeof_long pid) (orig : ℕ → ℕ)
    (f : FitsWord arch) where
  -- The entry points to a live struct, which holds the code below its trap if that is wanted.
  record Holds (heap : ℕ → Option Breakpoint) (e : DictEntry ℕ ℕ) : Type 0 where
    struct : Breakpoint
    alive : heap e.value ≡ some struct
    below :
        struct.enabled ≢ 0
        → (j : ℕ) → j < arch.breakpoint_length
        → get_or struct.orig_value j 0 ≡ orig (struct.addr + j)

  -- A byte after the walk over some entries.
  IsRestored : Core p.Kernel → Core p.Kernel → List (DictEntry ℕ ℕ) → ℕ → Type 0
  IsRestored s s' es b =
      (m.byte s'.kernel b ≡ orig b)
      ⊎ ((m.byte s'.kernel b ≡ m.byte s.kernel b)
          × ((e : DictEntry ℕ ℕ) (st : Breakpoint)
              → Memᴰ e es
              → s.heap e.value ≡ some st
              → st.enabled ≢ 0
              → covers arch p pid m st b ≡ false))

  record Walked (s s' : Core p.Kernel) (es : List (DictEntry ℕ ℕ)) : Type 0 where
    same_heap : s'.heap ≡ s.heap
    restored : (b : ℕ) → IsRestored s s' es b

  only :
      (heap : ℕ → Option Breakpoint) (e e' : DictEntry ℕ ℕ) (b st : Breakpoint)
      → heap e.value ≡ some b
      → Memᴰ e' (e ∷ [])
      → heap e'.value ≡ some st
      → b ≡ st
  only heap e e' b st alive mem alive' = elim (Memᴰ.cases_cons mem) [
    | inl same ↦
        let one : some b ≡ some st =
          sym alive ∙ ap (λ (z : DictEntry ℕ ℕ). heap z.value) (sym same) ∙ alive' in
        cc one
    | inr none_more ↦ absurd (Memᴰ.not-nil none_more)
  ]

  one_struct :
      (s : Core p.Kernel) (e : DictEntry ℕ ℕ)
      → Holds s.heap e
      → Returns (disable_bp_cb arch p pid e.key e.value (ok s)) (λ s'. Walked s s' (e ∷ []))
  unfolding disable_bp_cb IsRestored
  one_struct s e h = elim (Bool-cases (h.struct.enabled == 0)) [
    | inl unwanted ↦ (
      s,
      rw (disable_bp_cb, deref_live s e.value h.struct h.alive, ◌>>=◌, unwanted),
      record {
        same_heap = refl;
        restored = λ b. inr (
          refl,
          λ e' st mem alive now. absurd (
              now (
                ap (λ (z : Breakpoint). z.enabled)
                  (sym (only s.heap e e' h.struct st h.alive mem alive))
                ∙ (==_iff _ _).0 unwanted)),
        );
      },
    )
    | inr wanted ↦
        let k = disable_breakpoint arch p pid s.kernel h.struct in
        (
          record s { kernel = k },
          rw (disable_bp_cb, deref_live s e.value h.struct h.alive, ◌>>=◌, wanted),
          record {
            same_heap = refl;
            restored = λ b. elim (Bool-cases (covers arch p pid m h.struct b)) [
              | inl under ↦ inl (
                  disable_breakpoint-restores arch p pid m s.kernel h.struct b f
                  ∙ rw under (
                      h.below (λ z. ground (arith, z)) (b - h.struct.addr) (ground arith)
                      ∙ ap orig (ground arith)))
              | inr free ↦ inr (
                disable_breakpoint-restores arch p pid m s.kernel h.struct b f ∙ rw free refl,
                λ e' st mem alive now.
                    subst (λ z. covers arch p pid m z b ≡ false)
                      (only s.heap e e' h.struct st h.alive mem alive) free,
              )
            ];
          },
        )
  ]

  after_both :
      (s s₁ s' : Core p.Kernel) (e : DictEntry ℕ ℕ) (es : List (DictEntry ℕ ℕ))
      → Walked s s₁ (e ∷ [])
      → Walked s₁ s' es
      → (b : ℕ) → IsRestored s s' (e ∷ es) b
  unfolding IsRestored
  after_both s s₁ s' e es w₁ w b = elim (w.restored b) [
    | inl done ↦ inl done
    | inr (same, rest) ↦ elim (w₁.restored b) [
      | inl done ↦ inl (same ∙ done)
      | inr (same₁, first) ↦ inr (
        same ∙ same₁,
        λ e' st mem alive now. elim (Memᴰ.cases_cons mem) [
          | inl here ↦ first e' st (Memᴰ.head here) alive now
          | inr there ↦ rest e' st there (ap (λ h. h e'.value) w₁.same_heap ∙ alive) now
        ],
      )
    ]
  ]

  walk_table :
      (es : List (DictEntry ℕ ℕ)) (s : Core p.Kernel)
      → ((e : DictEntry ℕ ℕ) → Memᴰ e es → Holds s.heap e)
      → Returns (foldl (visit (disable_bp_cb arch p pid)) (ok s) es) (λ s'. Walked s s' es)
  unfolding IsRestored
  walk_table [] s holds = (
    s,
    refl,
    record {
      same_heap = refl;
      restored = λ b. inr (refl, λ e st mem alive now. absurd (Memᴰ.not-nil mem));
    },
  )
  walk_table (e ∷ es) s holds =
      let (s₁, run₁, w₁) = one_struct s e (holds e (Memᴰ.head refl)) in
      let (s', run, w) =
        walk_table es s₁
          (λ e' mem. subst (λ h. Holds h e') (sym w₁.same_heap) (holds e' (Memᴰ.tail mem))) in
      (
        s',
        ap (λ z. foldl (visit (disable_bp_cb arch p pid)) z es) run₁ ∙ run,
        record { same_heap = w.same_heap ∙ w₁.same_heap; restored = after_both s s₁ s' e es w₁ w },
      )

  -- What the walk over a whole table needs.
  all_hold :
      (s : Core p.Kernel) (proc : Process)
      → IsStore arch s proc
      → IsCode arch p pid m orig s proc
      → (e : DictEntry ℕ ℕ) → Memᴰ e (entries (dict_of proc))
      → Holds s.heap e
  all_hold s proc t c e mem =
      let held : ptr_at proc e.key ≡ some e.value = t.found e ∣ mem ∣₁ in
      let l = t.live e.key e.value held in
      record {
        struct = l.struct;
        alive = l.alive;
        below = λ now.
            (c.traps e.value l.struct
              (record { key = e.key; held = held; alive = l.alive; wanted = now })).below;
      }

  -- The walk over the table of a process, which may have none.
  walk_over :
      (proc : Process) (func : ℕ → ℕ → Run (Core p.Kernel) → Run (Core p.Kernel))
      (run : Run (Core p.Kernel))
      → dict_apply_to_all func proc.breakpoints run
        ≡ foldl (visit func) run (entries (dict_of proc))
  walk_over proc func run = elim (Option-cases proc.breakpoints) [
    | inr (d, table) ↦ rw table (dict_apply_to_all-foldl func d run).0
    | inl no_table ↦
        let bare : entries (dict_of proc) ≡ [] = rw no_table (entries-init int_ops) in
        rw bare (rw no_table (dict_apply_to_all-foldl func (dict_init int_ops) run).1)
  ]

  -- Where the breakpoints are not disabled already, the table is walked over.
  not_disabled :
      (s : Core p.Kernel) (proc : Process)
      → proc.breakpoints_enabled ≢ disabled
      → disable_all_breakpoints arch p s proc ≡ (
          dict_apply_to_all (disable_bp_cb arch p proc.pid) proc.breakpoints (ok s) >>= λ s'.
          ok (s', record proc { breakpoints_enabled = disabled }))
  unfolding disable_all_breakpoints
  not_disabled s proc standing = elim (kinds proc.breakpoints_enabled) [
    | inl first ↦ rw first refl
    | inr (inl off) ↦ absurd (standing off)
    | inr (inr on) ↦ rw on refl
  ]
    where
      kinds : (e : Enabled) → (e ≡ not_yet) ⊎ ((e ≡ disabled) ⊎ (e ≡ enabled))
      kinds not_yet = inl refl
      kinds disabled = inr (inl refl)
      kinds enabled = inr (inr refl)

  pub disable_all_breakpoints_lem :
      (s : Core p.Kernel) (proc : Process)
      → IsStore arch s proc
      → IsCode arch p pid m orig s proc
      → proc.pid ≡ pid
      → proc.breakpoints_enabled ≢ disabled
      → Returns
          (disable_all_breakpoints arch p s proc)
          (λ r. (b : ℕ) → m.byte r.0.kernel b ≡ orig b)
  unfolding IsRestored
  disable_all_breakpoints_lem s proc t c same_pid standing =
      let es = entries (dict_of proc) in
      let (s', run, w) =
        subst
          (λ n. Returns (foldl (visit (disable_bp_cb arch p n)) (ok s) es) (λ s'. Walked s s' es))
          (sym same_pid) (walk_table es s (all_hold s proc t c)) in
      (
        (s', record proc { breakpoints_enabled = disabled }),
        not_disabled s proc standing
            ∙ rw (walk_over proc (disable_bp_cb arch p proc.pid) (ok s)) (rw run refl),
        λ b. elim (w.restored b) [
          | inl done ↦ done
          | inr (same, none_over) ↦
              same
              ∙ c.others b (λ q st i.
                let (e, mem, value) = found_entry (dict_of proc) i.key q i.held in
                none_over e st mem (ap s.heap value ∙ i.alive) i.wanted)
        ],
      )

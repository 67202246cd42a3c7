-- ===== src/Demangle.antt =====
-- utrace-0.1/demangle.c: a cache before `cplus_demangle`, which comes from outside. strdup is taken
-- to succeed.
use utrace.Common.{
  ℕ, ◌≡◌, refl, ap, sym, ◌∙◌, Bool-cases, inl, inr, List, Option, none, some, Option-cases,
  if◌then◌else◌,
}
use mathlib.Core.Option.{or_else}
use utrace.Dict.{Dict, dict_init, dict_enter, dict_find_entry}
use utrace.Dict.Lookup.{
  IsDict, dict_enter-IsDict, dict_init-IsDict, dict_find_entry-enter, dict_find_entry-init,
}
use utrace.Dict.Keys.{string_ops, string_ops-IsLawful, same_string, same_string_iff}

abbrev pub cache_of : Option (Dict (List ℕ) (List ℕ)) → Dict (List ℕ) (List ℕ)
cache_of none = dict_init string_ops
cache_of (some d) = d

module _ (cplus_demangle : List ℕ → Option (List ℕ)) where
  abbrev pub demangled : List ℕ → List ℕ
  demangled name = elim (cplus_demangle name) [ none ↦ name | some text ↦ text ]

  -- `d` is null before the first call.
  unfoldable pub my_demangle :
      List ℕ → Option (Dict (List ℕ) (List ℕ)) → List ℕ × Option (Dict (List ℕ) (List ℕ))
  my_demangle name d = elim (dict_find_entry (cache_of d) name) [
    | some text ↦ (text, some (cache_of d))
    | none ↦ (demangled name, some (dict_enter (cache_of d) name (demangled name)))
  ]

  -- The cache holds what would be made anew.
  pub record IsFaithful (d : Option (Dict (List ℕ) (List ℕ))) : Type 0 where
    pub table : IsDict (cache_of d)
    pub keyed : (cache_of d).ops ≡ string_ops
    pub holds :
        (name text : List ℕ) → dict_find_entry (cache_of d) name ≡ some text → text ≡ demangled name

  pub none-IsFaithful : IsFaithful none
  unfolding dict_init
  none-IsFaithful = record {
    table = dict_init-IsDict string_ops string_ops-IsLawful;
    keyed = refl;
    holds = λ name text e. absurd (cc (sym (dict_find_entry-init string_ops name) ∙ e));
  }

  entered_keyed :
      (name : List ℕ) (d : Dict (List ℕ) (List ℕ))
      → d.ops ≡ string_ops
      → (dict_enter d name (demangled name)).ops ≡ string_ops
  unfolding dict_enter
  entered_keyed name d e = e

  entered_holds :
      (name other text : List ℕ) (d : Dict (List ℕ) (List ℕ))
      → IsDict d
      → d.ops ≡ string_ops
      → ((x : List ℕ) → dict_find_entry d other ≡ some x → x ≡ demangled other)
      → or_else
          (dict_find_entry d other)
          (if d.ops.same_key other name then some (demangled name) else none)
        ≡ some text
      → text ≡ demangled other
  unfolding or_else
  entered_holds name other text d w keyed old e = elim (Option-cases (dict_find_entry d other)) [
    | inr (x, m) ↦
        let same : some x ≡ some text = rw m at e in
        let one : x ≡ text = cc same in sym one ∙ old x m
    | inl m ↦ elim (Bool-cases (same_string other name)) [
      | inl same ↦
          let new : some (demangled name) ≡ some text = rw (m, keyed, same) at e in
          let one : demangled name ≡ text = cc new in
          sym one ∙ ap demangled (sym ((same_string_iff other name).0 same))
      | inr apart ↦ absurd (cc (rw (m, keyed, apart) at e))
    ]
  ]

  -- With a cache that holds only what cplus_demangle makes, or the name where it makes nothing,
  -- my_demangle answers what would be made without a cache, and the cache it leaves is of the same
  -- kind
  pub my_demangle-IsFaithful :
      (name : List ℕ) (d : Option (Dict (List ℕ) (List ℕ)))
      → IsFaithful d
      → let r = my_demangle name d in (r.0 ≡ demangled name) × IsFaithful r.1
  unfolding my_demangle
  my_demangle-IsFaithful name d v = elim (Option-cases (dict_find_entry (cache_of d) name)) [
    | inr (text, e) ↦
        rw (my_demangle, e)
          (v.holds name text e, record { table = v.table; keyed = v.keyed; holds = v.holds })
    | inl e ↦
        rw (my_demangle, e)
          (
            refl,
            record {
              table = dict_enter-IsDict (cache_of d) name (demangled name) v.table;
              keyed = entered_keyed name (cache_of d) v.keyed;
              holds = λ other text g.
                  entered_holds name other text (cache_of d) v.table v.keyed (v.holds other) (
                    sym (dict_find_entry-enter (cache_of d) name other (demangled name) v.table)
                    ∙ g);
            },
          )
  ]

-- ===== src/Dict/Members.antt =====
-- The entries of a table of utrace-0.1/dict.c and what a search finds of them.
use mathlib.Core.List.{flatten, Mem, Memᴰ, forall_mem-cons, not-mem-nil}
use mathlib.Core.List.Memᴰ as Memᴰ
use mathlib.Core.List.Perm as Perm
use mathlib.Core.Option.{or_else}
use utrace.Common.{
  ℕ, zero, suc, ◌%◌, ◌≡◌, refl, sym, ◌∙◌, true, List, [], ◌∷◌, none, some, ◌==◌, get_or, Bool-cases,
  inl, inr, subst, replicate,
}
use utrace.Dict.{
  DictEntry, KeyOps, Dict, dict_enter, find_in_chain, dict_find_entry, dict_init, dict_table_size,
}
use utrace.Dict.Lookup.{IsDict, dict_find_entry-enter}
use utrace.Dict.Order.{entries, entries-enter}

module _ {ℓ} {K V : Type ℓ} where
  found_in_chain :
      (ops : KeyOps K) (h : ℕ) (k : K) (v : V) (es : List (DictEntry K V))
      → find_in_chain ops h k es ≡ some v
      → (e : DictEntry K V) × Memᴰ e es × (e.value ≡ v)
  unfolding find_in_chain
  found_in_chain ops h k v [] f = absurd (cc f)
  found_in_chain ops h k v (e ∷ es) f =
      let on : find_in_chain ops h k es ≡ some v
          → (e' : DictEntry K V) × Memᴰ e' (e ∷ es) × (e'.value ≡ v) =
        λ g. let (e', m, same) = found_in_chain ops h k v es g in (e', Memᴰ.tail m, same) in
      elim (Bool-cases (h == e.hash)) [
        | inr other ↦ on (sym (rw other refl) ∙ f)
        | inl here ↦ elim (Bool-cases (ops.same_key k e.key)) [
          | inr other ↦ on (sym (rw (here, other) refl) ∙ f)
          | inl same ↦
              let found : some e.value ≡ some v = sym (rw (here, same) refl) ∙ f in
              (e, Memᴰ.head refl, cc found)
        ]
      ]

  in_bucket :
      (bs : List (List (DictEntry K V))) (i : ℕ) (e : DictEntry K V)
      → Memᴰ e (get_or bs i [])
      → Memᴰ e (flatten bs)
  unfolding flatten
  in_bucket [] i e m = absurd (Memᴰ.not-nil m)
  in_bucket (b ∷ bs) zero e m = Memᴰ.append_left (flatten bs) m
  in_bucket (b ∷ bs) (suc i) e m = Memᴰ.append_right b (in_bucket bs i e m)

  -- What a search finds is the value of an entry.
  pub found_entry :
      (d : Dict K V) (k : K) (v : V)
      → dict_find_entry d k ≡ some v
      → (e : DictEntry K V) × Memᴰ e (entries d) × (e.value ≡ v)
  unfolding dict_find_entry
  found_entry d k v f =
      let (e, m, same) =
        found_in_chain d.ops (d.ops.key2hash k) k v (get_or d.buckets (d.ops.key2hash k % 997) [])
          f in
      (e, in_bucket d.buckets (d.ops.key2hash k % 997) e m, same)

  flatten-replicate : (n : ℕ) → flatten {A = DictEntry K V} (replicate n []) ≡ []
  unfolding flatten replicate
  flatten-replicate zero = refl
  flatten-replicate (suc n) = flatten-replicate n

module _ {K : Type 0} where
  -- A search for the key of an entry finds this entry: there is one entry for each key.
  abbrev pub IsFound : Dict K ℕ → Type 0
  IsFound d = (e : DictEntry K ℕ) → Mem e (entries d) → dict_find_entry d e.key ≡ some e.value

  pub dict_enter-IsFound :
      (d : Dict K ℕ) (k : K) (v : ℕ)
      → IsDict d
      → d.ops.same_key k k ≡ true
      → dict_find_entry d k ≡ none
      → IsFound d
      → IsFound (dict_enter d k v)
  unfolding or_else
  dict_enter-IsFound d k v w itself miss each e m =
      let new : DictEntry K ℕ = record { hash = d.ops.key2hash k; key = k; value = v } in
      (forall_mem-cons
          {p = λ (z : DictEntry K ℕ). dict_find_entry (dict_enter d k v) z.key ≡ some z.value}
          (λ z. hlevel)).1
        (
          dict_find_entry-enter d k k v w ∙ rw (miss, itself) refl,
          λ z old. dict_find_entry-enter d k z.key v w ∙ rw (each z old) refl,
        )
        e ((Perm.mem_iff (entries-enter d k v w)).0 m)

  pub dict_init-IsFound : (ops : KeyOps K) → IsFound (dict_init ops)
  unfolding dict_init
  dict_init-IsFound ops e m =
      absurd (not-mem-nil (subst (Mem e) (flatten-replicate dict_table_size) m))

-- A table that was not entered into has no entries.
pub entries-init {ℓ} : {K V : Type ℓ} (ops : KeyOps K) → entries (dict_init {V = V} ops) ≡ []
unfolding dict_init
entries-init {K} {V} ops = flatten-replicate {K = K} {V = V} dict_table_size

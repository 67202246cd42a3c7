-- ===== src/Dict/Lookup.antt =====
-- What a table of utrace-0.1/dict.c answers after `dict_enter`.
use mathlib.Core.Option.{or_else}
use native.Mathlib.Decide.{ℕ_discrete}
use utrace.Common.{
  ℕ, ◌%◌, true, false, ◌≡◌, ◌≢◌, refl, ap, sym, ◌∙◌, List, [], ◌∷◌, Option, none, some,
  if◌then◌else◌, Bool-cases, arith, length, get_or, length-set, get_or-set_self, get_or-set_ne,
  length-replicate, get_or-replicate, inl, inr,
}
use utrace.Dict.{
  KeyOps, DictEntry, Dict, dict_table_size, dict_init, append_entry, dict_enter, find_in_chain,
  dict_find_entry,
}

-- Keys that compare as equal hash alike; a hash is an `unsigned int`.
pub record IsLawful {ℓ} {K : Type ℓ} (ops : KeyOps K) : Type ℓ where
  pub hash_same : (j k : K) → ops.same_key j k ≡ true → ops.key2hash j ≡ ops.key2hash k

-- The array has its 997 buckets.
pub record IsDict {ℓ} {K V : Type ℓ} (d : Dict K V) : Type ℓ where
  pub width : length d.buckets ≡ dict_table_size
  pub lawful : IsLawful d.ops

or_else-none {ℓ} : {V : Type ℓ} (o : Option V) → or_else o none ≡ o
unfolding or_else
or_else-none none = refl
or_else-none (some v) = refl

module _ {ℓ} {K V : Type ℓ} where
  pub dict_init-IsDict : (ops : KeyOps K) → IsLawful ops → IsDict (dict_init {V = V} ops)
  unfolding dict_init
  dict_init-IsDict ops l = record { width = length-replicate dict_table_size []; lawful = l }

  pub dict_enter-IsDict : (d : Dict K V) (k : K) (v : V) → IsDict d → IsDict (dict_enter d k v)
  unfolding dict_enter
  dict_enter-IsDict d k v w = record {
    width = length-set d.buckets _ _ ∙ w.width;
    lawful = w.lawful;
  }

  pub dict_find_entry-init :
      (ops : KeyOps K) (k : K) → dict_find_entry {V = V} (dict_init ops) k ≡ none
  unfolding dict_init dict_find_entry
  dict_find_entry-init ops k = rw (
      get_or-replicate {A = List (DictEntry K V)} dict_table_size (ops.key2hash k % dict_table_size)
        [])

  find_in_chain-append :
      (ops : KeyOps K) (h : ℕ) (j : K) (es : List (DictEntry K V)) (e : DictEntry K V)
      → find_in_chain ops h j (append_entry es e)
        ≡ or_else (find_in_chain ops h j es) (find_in_chain ops h j (e ∷ []))
  unfolding find_in_chain append_entry or_else
  find_in_chain-append ops h j [] e = refl
  find_in_chain-append ops h j (x ∷ es) e = ground (arith, find_in_chain-append ops h j es e)

  find_in_chain-one :
      (ops : KeyOps K)
      → IsLawful ops
      → (j k : K) (v : V)
      → find_in_chain ops
          (ops.key2hash j)
          j
          (record { hash = ops.key2hash k; key = k; value = v } ∷ [])
        ≡ (if ops.same_key j k then some v else none)
  unfolding find_in_chain
  find_in_chain-one ops l j k v = ground (arith, l.hash_same j k)

  -- In a table with its 997 buckets and lawful key functions, dict_find_entry after dict_enter
  -- finds what it found before, and otherwise the new value if the keys compare as equal: the
  -- oldest entry under a key wins
  pub dict_find_entry-enter :
      (d : Dict K V) (k j : K) (v : V)
      → IsDict d
      → dict_find_entry (dict_enter d k v) j
        ≡ or_else (dict_find_entry d j) (if d.ops.same_key j k then some v else none)
  unfolding dict_enter dict_find_entry
  dict_find_entry-enter d k j v w = elim (ℕ_discrete (hash k % 997) (hash j % 997)) [
    | yes p ↦
        rw
          (
            p,
            get_or-set_self d.buckets (hash j % 997) _ [] (omega (arith, w.width)),
            find_in_chain-append d.ops (hash j) j (get_or d.buckets (hash j % 997) []) _,
          )
          (ap (or_else _) (find_in_chain-one d.ops w.lawful j k v))
    | no n ↦
        rw (get_or-set_ne d.buckets (hash k % 997) (hash j % 997) _ [] n)
          (rw (miss n) (sym (or_else-none _)))
  ]
    where
      hash : K → ℕ
      hash = d.ops.key2hash

      miss : (hash k % 997 ≢ hash j % 997) → d.ops.same_key j k ≡ false
      miss n = elim (Bool-cases (d.ops.same_key j k)) [
        | inl s ↦ absurd (n (ap (λ (h : ℕ). h % 997) (sym (w.lawful.hash_same j k s))))
        | inr s ↦ s
      ]

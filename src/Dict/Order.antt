-- ===== src/Dict/Order.antt =====
-- The walks over a whole table of utrace-0.1/dict.c.
use mathlib.Core.List.{flatten, foldl, Perm, perm_middle, append_assoc}
use mathlib.Core.List.Perm
use utrace.Common.{
  ℕ, zero, suc, ◌%◌, ◌<◌, ◌≡◌, refl, ap, List, [], ◌∷◌, ◌++◌, none, some, arith, length, get_or,
  set,
}
use utrace.Dict.{
  DictEntry, Dict, append_entry, dict_enter, apply_to_chain, apply_to_buckets, dict_apply_to_all,
  clear_chain, clear_buckets, dict_clear,
}
use utrace.Dict.Lookup.{IsDict}

module _ {ℓ} {K V : Type ℓ} where
  -- The entries of a table, bucket by bucket.
  abbrev pub entries : Dict K V → List (DictEntry K V)
  entries d = flatten d.buckets

  append_entry-append :
      (es : List (DictEntry K V)) (e : DictEntry K V) → append_entry es e ≡ es ++ e ∷ []
  unfolding append_entry
  append_entry-append [] e = refl
  append_entry-append (x ∷ es) e = ap (◌∷◌ x) (append_entry-append es e)

  flatten-set_append-perm :
      (bs : List (List (DictEntry K V))) (i : ℕ) (e : DictEntry K V)
      → i < length bs
      → Perm (flatten (set bs i (get_or bs i [] ++ e ∷ []))) (e ∷ flatten bs)
  unfolding flatten
  flatten-set_append-perm [] i e h = absurd (omega arith)
  flatten-set_append-perm (b ∷ bs) zero e h = rw append_assoc (perm_middle b (flatten bs))
  flatten-set_append-perm (b ∷ bs) (suc i) e h =
      Perm.trans (Perm.append (Perm.refl b) (flatten-set_append-perm bs i e (omega arith)))
        (perm_middle b (flatten bs))

  -- In a table with its 997 buckets and lawful key functions, dict_enter adds exactly the new
  -- entry to the entries of the table, up to order
  pub entries-enter :
      (d : Dict K V) (k : K) (v : V)
      → IsDict d
      → Perm
          (entries (dict_enter d k v))
          (record { hash = d.ops.key2hash k; key = k; value = v } ∷ entries d)
  unfolding dict_enter
  entries-enter d k v w =
      rw append_entry-append
        (flatten-set_append-perm d.buckets (d.ops.key2hash k % 997) _ (omega (arith, w.width)))

  module _ {κ} {S : Type κ} (func : K → V → S → S) where
    abbrev pub visit : S → DictEntry K V → S
    visit s e = func e.key e.value s

    apply_to_chain-foldl :
        (es : List (DictEntry K V)) (s : S) → apply_to_chain func es s ≡ foldl visit s es
    unfolding apply_to_chain
    apply_to_chain-foldl [] s = refl
    apply_to_chain-foldl (e ∷ es) s = apply_to_chain-foldl es (visit s e)

    foldl-split :
        (s : S) (xs ys : List (DictEntry K V))
        → foldl visit s (xs ++ ys) ≡ foldl visit (foldl visit s xs) ys
    foldl-split s [] ys = refl
    foldl-split s (x ∷ xs) ys = foldl-split (visit s x) xs ys

    apply_to_buckets-foldl :
        (bs : List (List (DictEntry K V))) (s : S)
        → apply_to_buckets func bs s ≡ foldl visit s (flatten bs)
    unfolding apply_to_buckets flatten
    apply_to_buckets-foldl [] s = refl
    apply_to_buckets-foldl (b ∷ bs) s =
        rw (apply_to_chain-foldl, apply_to_buckets-foldl bs, foldl-split)

    -- Dict_apply_to_all is a fold over all entries of the table in the order of the buckets and
    -- their chains, and does nothing on a null table
    pub dict_apply_to_all-foldl :
        (d : Dict K V) (s : S)
        → (dict_apply_to_all func (some d) s ≡ foldl visit s (entries d))
          × (dict_apply_to_all func none s ≡ s)
    unfolding dict_apply_to_all
    dict_apply_to_all-foldl d s = (apply_to_buckets-foldl d.buckets s, refl)

  clear_chain_lem : (es : List (DictEntry K V)) → clear_chain es ≡ es
  unfolding clear_chain
  clear_chain_lem [] = refl
  clear_chain_lem (e ∷ es) = ap (◌∷◌ e) (clear_chain_lem es)

  clear_buckets-flatten : (bs : List (List (DictEntry K V))) → clear_buckets bs ≡ flatten bs
  unfolding clear_buckets flatten
  clear_buckets-flatten [] = refl
  clear_buckets-flatten (b ∷ bs) = rw (clear_chain_lem, clear_buckets-flatten bs)

  -- `dict_clear` frees every entry of the table, once.
  pub dict_clear-entries : (d : Dict K V) → dict_clear d ≡ entries d
  unfolding dict_clear
  dict_clear-entries d = clear_buckets-flatten d.buckets

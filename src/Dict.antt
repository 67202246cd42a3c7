-- ===== src/Dict.antt =====
-- utrace-0.1/dict.c: the chained hash table behind the breakpoints, the demangler's cache and the
-- call counts. A `void *` value is a value of `V`; the callers store no null pointer, so the null
-- that `dict_find_entry` returns for a missing key is `none`. `malloc` is taken to succeed.
pub mod Lookup
pub mod Order
pub mod Members
pub mod Keys
use utrace.Common.{
  ℕ, zero, suc, ◌+◌, ◌%◌, Bool, true, false, not, ◌&&◌, List, [], ◌∷◌, ◌++◌, Option, none, some,
  ◌==◌, if◌then◌else◌, length, get_or, set, replicate,
}

-- The two callbacks of a table. `key_cmp` is read for "is it zero" alone: `same_key` is `!key_cmp`.
pub record KeyOps {ℓ} (K : Type ℓ) : Type ℓ where
  pub key2hash : K → ℕ
  pub same_key : K → K → Bool

pub record DictEntry {ℓ} (K V : Type ℓ) : Type ℓ where
  pub hash : ℕ
  pub key : K
  pub value : V

pub record Dict {ℓ} (K V : Type ℓ) : Type ℓ where
  pub buckets : List (List (DictEntry K V))
  pub ops : KeyOps K

abbrev pub dict_table_size : ℕ
dict_table_size = 997

module _ {ℓ} {K V : Type ℓ} where
  unfoldable pub dict_init : KeyOps K → Dict K V
  dict_init ops = record { buckets = replicate dict_table_size []; ops = ops }

  -- `while (entry && entry->next) entry = entry->next;` and the link after it
  unfoldable pub append_entry : List (DictEntry K V) → DictEntry K V → List (DictEntry K V)
  append_entry [] new = new ∷ []
  append_entry (e ∷ es) new = e ∷ append_entry es new

  unfoldable pub dict_enter : Dict K V → K → V → Dict K V
  unfolding append_entry
  dict_enter d key value =
      let hash = d.ops.key2hash key in
      let bucketpos = hash % dict_table_size in
      record d {
        buckets = set d.buckets bucketpos (
            append_entry (get_or d.buckets bucketpos [])
              (record { hash = hash; key = key; value = value }));
      }

  -- the `for` loop over one chain
  unfoldable pub find_in_chain : KeyOps K → ℕ → K → List (DictEntry K V) → Option V
  find_in_chain ops hash key [] = none
  find_in_chain ops hash key (e ∷ es) =
      if not (hash == e.hash)
      then find_in_chain ops hash key es
      else (if ops.same_key key e.key then some e.value else find_in_chain ops hash key es)

  unfoldable pub dict_find_entry : Dict K V → K → Option V
  unfolding find_in_chain
  dict_find_entry d key =
      let hash = d.ops.key2hash key in
      find_in_chain d.ops hash key (get_or d.buckets (hash % dict_table_size) [])

  -- `func` reads and returns the state that it changes through `data` and the values
  module _ {κ} {S : Type κ} (func : K → V → S → S) where
    unfoldable pub apply_to_chain : List (DictEntry K V) → S → S
    apply_to_chain [] s = s
    apply_to_chain (e ∷ es) s = apply_to_chain es (func e.key e.value s)

    unfoldable pub apply_to_buckets : List (List (DictEntry K V)) → S → S
    unfolding apply_to_chain
    apply_to_buckets [] s = s
    apply_to_buckets (b ∷ bs) s = apply_to_buckets bs (apply_to_chain b s)

    -- a null table is `none`
    unfoldable pub dict_apply_to_all : Option (Dict K V) → S → S
    unfolding apply_to_buckets
    dict_apply_to_all none s = s
    dict_apply_to_all (some d) s = apply_to_buckets d.buckets s

  -- `dict_clear` frees the entries in this order, then the table: what is left is the list of the
  -- entries that were freed.
  unfoldable pub clear_chain : List (DictEntry K V) → List (DictEntry K V)
  clear_chain [] = []
  clear_chain (e ∷ es) = let nextentry = clear_chain es in e ∷ nextentry

  unfoldable pub clear_buckets : List (List (DictEntry K V)) → List (DictEntry K V)
  unfolding clear_chain
  clear_buckets [] = []
  clear_buckets (b ∷ bs) = clear_chain b ++ clear_buckets bs

  unfoldable pub dict_clear : Dict K V → List (DictEntry K V)
  unfolding clear_buckets
  dict_clear d = clear_buckets d.buckets

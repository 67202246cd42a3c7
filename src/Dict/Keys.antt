-- ===== src/Dict/Keys.antt =====
-- The key functions of utrace-0.1/dict.c for strings and for addresses. A string is the list of its
-- bytes before the terminator; `char` is signed, as on the i386 target.
use utrace.Common.{
  ℕ, ◌+◌, ◌-◌, ◌*◌, ◌%◌, ◌^◌, ◌≤◌, ◌<◌, Bool, true, false, ◌&&◌, ◌≡◌, refl, ap, ◌↔◌, List, [], ◌∷◌,
  ◌==◌, if◌then◌else◌, ltb, bit_xor, arith,
}
use utrace.Dict.{KeyOps}
use utrace.Dict.Lookup.{IsLawful}

-- The value of a `char` that is promoted to `int`, as 32 bits.
unfoldable pub char_to_word : ℕ → ℕ
char_to_word c = if ltb c 128 then c else c + 2 ^ 32 - 256

-- `shift += 5; if (shift > 24) shift -= 24;`
unfoldable pub next_shift : ℕ → ℕ
next_shift shift = if ltb 24 (shift + 5) then shift + 5 - 24 else shift + 5

-- The `while` loop over its two variables.
unfoldable pub hash_loop : List ℕ → ℕ → ℕ → ℕ
unfolding char_to_word next_shift
hash_loop [] total shift = total
hash_loop (c ∷ s) total shift =
    hash_loop s (bit_xor total (char_to_word c * 2 ^ shift % 2 ^ 32)) (next_shift shift)

unfoldable pub dict_key2hash_string : List ℕ → ℕ
unfolding hash_loop
dict_key2hash_string s = hash_loop s 0 0

-- `!strcmp`
unfoldable pub same_string : List ℕ → List ℕ → Bool
same_string [] [] = true
same_string [] (d ∷ t) = false
same_string (c ∷ s) [] = false
same_string (c ∷ s) (d ∷ t) = c == d && same_string s t

abbrev pub string_ops : KeyOps (List ℕ)
string_ops = record { key2hash = dict_key2hash_string; same_key = same_string }

-- A pointer that is cast to `unsigned int`.
unfoldable pub dict_key2hash_int : ℕ → ℕ
dict_key2hash_int key = key % 2 ^ 32

-- `!(key1 - key2)`: the difference of two `void *` that is returned as an `int`.
unfoldable pub same_int : ℕ → ℕ → Bool
same_int key1 key2 = (key1 % 2 ^ 64 + 2 ^ 64 - key2 % 2 ^ 64) % 2 ^ 32 == 0

abbrev pub int_ops : KeyOps ℕ
int_ops = record { key2hash = dict_key2hash_int; same_key = same_int }

pub same_string_iff : (s t : List ℕ) → (same_string s t ≡ true) ↔ (s ≡ t)
unfolding same_string
same_string_iff [] [] = (λ _. refl, λ _. refl)
same_string_iff [] (d ∷ t) = (λ e. cc, λ e. cc)
same_string_iff (c ∷ s) [] = (λ e. cc, λ e. cc)
same_string_iff (c ∷ s) (d ∷ t) =
    (λ e. ground (arith, (same_string_iff s t).0), λ e. ground (arith, (same_string_iff s t).1))

pub string_ops-IsLawful : IsLawful string_ops
string_ops-IsLawful = record {
  hash_same = λ j k e. ap dict_key2hash_string ((same_string_iff j k).0 e);
}

-- Two addresses are one key of an address table exactly when their low 32 bits agree
pub same_int_iff : (a b : ℕ) → (same_int a b ≡ true) ↔ (a % 2 ^ 32 ≡ b % 2 ^ 32)
unfolding same_int
same_int_iff a b = (λ e. ground arith, λ e. ground arith)

pub int_ops-IsLawful : IsLawful int_ops
unfolding dict_key2hash_int
int_ops-IsLawful = record { hash_same = λ j k e. (same_int_iff j k).0 e }

-- Below 4 GB two addresses compare as equal exactly when they are the same.
pub same_int_below : (a b : ℕ) → a < 2 ^ 32 → b < 2 ^ 32 → same_int a b ≡ a == b
unfolding same_int
same_int_below a b ha hb = ground arith

-- The shift stays below the width of the word: it runs through 0, 5, …, 24 and back to 1.
pub next_shift-le : (shift : ℕ) → shift ≤ 24 → next_shift shift ≤ 24
unfolding next_shift
next_shift-le shift h = ground arith

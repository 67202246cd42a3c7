-- ===== src/Tgid/Status.antt =====
-- `parse_tgid_str` of utrace-0.1/sysdeps/linux-gnu/proc.c on the lines that the kernel writes.
use utrace.Common.{
  ℕ, ◌+◌, ◌-◌, ◌*◌, ◌^◌, ◌≤◌, ◌<◌, ◌≡◌, ◌∙◌, refl, inl, inr, Bool-cases, true, false, List, [], ◌∷◌,
  ◌++◌, none, some, ==_refl, ◌==◌, ltb, length, arith,
}
use native.Mathlib.Nat.{pow-succ'}
use utrace.Tgid.{
  strip_prefix, after_key, is_digit, skip_to_digits, copy_digits, atoi, tgid_key, parse_tgid_str,
}

-- The key is nowhere before `tail`.
abbrev pub IsBefore : (key pre tail : List ℕ) → Type 0
IsBefore key [] tail = Unit
IsBefore key (c ∷ cs) tail = (strip_prefix key (c ∷ (cs ++ tail)) ≡ none) × IsBefore key cs tail

abbrev pub AreDigits : List ℕ → Type 0
AreDigits [] = Unit
AreDigits (c ∷ cs) = (is_digit c ≡ true) × AreDigits cs

-- The number that the digits write, most significant first.
unfoldable pub place_value : List ℕ → ℕ
place_value [] = 0
place_value (c ∷ cs) = (c - 48) * 10 ^ length cs + place_value cs

strip_prefix-append : (key rest : List ℕ) → strip_prefix key (key ++ rest) ≡ some rest
unfolding strip_prefix
strip_prefix-append [] rest = refl
strip_prefix-append (c ∷ cs) rest = rw (==_refl c) (strip_prefix-append cs rest)

after_key_lem :
    (c : ℕ) (cs pre rest : List ℕ)
    → IsBefore (c ∷ cs) pre ((c ∷ cs) ++ rest)
    → after_key (c ∷ cs) (pre ++ ((c ∷ cs) ++ rest)) ≡ some rest
unfolding after_key
after_key_lem c cs [] rest b = rw (after_key, strip_prefix-append (c ∷ cs) rest) refl
after_key_lem c cs (d ∷ pre) rest b = rw (after_key, b.0) (after_key_lem c cs pre rest b.1)

ltb_ge : (a b : ℕ) → b ≤ a → ltb a b ≡ false
ltb_ge a b h = ground arith

copy_digits_lem :
    (used : ℕ) (ds tail : List ℕ)
    → AreDigits ds
    → used + length ds ≤ 9
    → copy_digits used (ds ++ (10 ∷ tail)) ≡ some ds
unfolding copy_digits
copy_digits_lem used [] tail a l = refl
copy_digits_lem used (c ∷ cs) tail a l =
    rw
      (a.0, copy_digits_lem (used + 1) cs tail a.1 (omega arith), ltb_ge 9 (used + 1) (omega arith))
      refl

copy_digits_long :
    (used : ℕ) (ds tail : List ℕ)
    → AreDigits ds
    → used ≤ 9
    → 9 < used + length ds
    → copy_digits used (ds ++ tail) ≡ none
unfolding copy_digits
copy_digits_long used [] tail a u l = absurd (omega arith)
copy_digits_long used (c ∷ cs) tail a u l = rw a.0 (elim (Bool-cases (ltb 9 (used + 1))) [
  | inl y ↦ rw y refl
  | inr z ↦ rw (z, copy_digits_long (used + 1) cs tail a.1 (ground arith) (omega arith)) refl
])

horner : (a d x v : ℕ) → (a * 10 + d) * x + v ≡ a * (10 * x) + (d * x + v)
horner a d x v = omega arith

atoi_lem : (acc : ℕ) (ds : List ℕ) → atoi acc ds ≡ acc * 10 ^ length ds + place_value ds
unfolding atoi place_value
atoi_lem acc [] = omega arith
atoi_lem acc (c ∷ cs) =
    rw (pow-succ' 10 (length cs))
      (atoi_lem (acc * 10 + (c - 48)) cs ∙ horner acc (c - 48) (10 ^ length cs) (place_value cs))

skip_to_digits_lem :
    (d : ℕ) (rest : List ℕ) → is_digit d ≡ true → skip_to_digits (9 ∷ d ∷ rest) ≡ d ∷ rest
unfolding skip_to_digits
skip_to_digits_lem d rest h = elim (Bool-cases (d == 10)) [
  | inl y ↦ rw (h, y) refl
  | inr z ↦ rw (h, z) refl
]

module _ (pre : List ℕ) (d : ℕ) (ds tail : List ℕ) where
  -- `Tgid:\t` and the digits, in a text
  abbrev pub status_text : List ℕ → List ℕ
  status_text end = pre ++ (tgid_key ++ (9 ∷ d ∷ (ds ++ end)))

  -- Where the key Tgid: starts nowhere before its line, and a tab and one to nine digits up to the
  -- end of the line follow it, parse_tgid_str is the number that the digits write in base ten
  pub parse_tgid_str_lem :
      IsBefore tgid_key pre (tgid_key ++ (9 ∷ d ∷ (ds ++ (10 ∷ tail))))
      → AreDigits (d ∷ ds)
      → length (d ∷ ds) ≤ 9
      → parse_tgid_str (status_text (10 ∷ tail)) ≡ place_value (d ∷ ds)
  unfolding parse_tgid_str
  parse_tgid_str_lem b a l =
      rw
        (
          parse_tgid_str,
          after_key_lem 84 (103 ∷ 105 ∷ 100 ∷ 58 ∷ []) pre _ b,
          skip_to_digits_lem d _ a.0,
          copy_digits_lem 0 (d ∷ ds) tail a (omega arith),
        )
        (omega (arith, atoi_lem 0 (d ∷ ds)))

  -- Where the key Tgid: starts nowhere before its line, and a tab and more than nine digits follow
  -- it, parse_tgid_str is 0, whatever comes after the digits
  pub parse_tgid_str_long :
      IsBefore tgid_key pre (tgid_key ++ (9 ∷ d ∷ (ds ++ tail)))
      → AreDigits (d ∷ ds)
      → 9 < length (d ∷ ds)
      → parse_tgid_str (status_text tail) ≡ 0
  unfolding parse_tgid_str
  parse_tgid_str_long b a l =
      rw
        (
          parse_tgid_str,
          after_key_lem 84 (103 ∷ 105 ∷ 100 ∷ 58 ∷ []) pre _ b,
          skip_to_digits_lem d _ a.0,
          copy_digits_long 0 (d ∷ ds) tail a (omega arith) (omega arith),
        )
        refl

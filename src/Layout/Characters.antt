-- ===== src/Layout/Characters.antt =====
-- Reading back what `display_char` of utrace-0.1/display_args.c shows.
use utrace.Common.{
  ℕ, ◌+◌, ◌-◌, ◌*◌, ◌/◌, ◌%◌, ◌<◌, ◌≡◌, arith, Bool-cases, inl, inr, List, [], ◌∷◌, ◌++◌, Option,
  none, some, ◌==◌, if◌then◌else◌,
}
use utrace.Common.Int.{pos}
use utrace.Layout.{display_char, octal_text}

abbrev pub octal_value : ℕ → List ℕ → Option (ℕ × List ℕ)
octal_value e [] = none
octal_value e (f ∷ []) = none
octal_value e (f ∷ g ∷ s) = some ((e - 48) * 64 + (f - 48) * 8 + (g - 48), s)

-- The character behind a backslash.
unfoldable pub unescape : List ℕ → Option (ℕ × List ℕ)
unescape [] = none
unescape (e ∷ s) =
    if e == 114
    then some (13, s)
    else if e == 110
    then some (10, s)
    else if e == 116
    then some (9, s)
    else if e == 98
    then some (8, s)
    else if e == 92
    then some (92, s)
    else octal_value e s

-- The first character that a text shows, and the rest.
unfoldable pub read_back : List ℕ → Option (ℕ × List ℕ)
unfolding unescape
read_back [] = none
read_back (c ∷ s) = if c == 92 then unescape s else some (c, s)

octal_lem :
    (c : ℕ) (rest : List ℕ) → c < 256 → read_back (octal_text (c % 256) ++ rest) ≡ some (c, rest)
unfolding read_back
octal_lem c rest h = ground (arith, eight)
  where
    eight : (c % 256 / 64 * 64 + c % 256 / 8 % 8 * 8 + c % 256 % 8) ≡ c
    eight = omega arith

-- For a character code below 256, what display_char shows of it, before any text, can be read back
-- as that character and the text behind it
pub read_back-display_char :
    (c : ℕ) (rest : List ℕ) → c < 256 → read_back (display_char (pos c) ++ rest) ≡ some (c, rest)
unfolding display_char read_back
read_back-display_char c rest h = elim (Bool-cases (c == 13)) [
  | inl e ↦ ground arith
  | inr n ↦ ground (arith, octal_lem c rest h)
]

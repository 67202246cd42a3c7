-- ===== src/Printf/Plain.antt =====
-- What fprintf(3) makes of a number or a character has no newline.
use utrace.Common.{
  ℕ, zero, suc, ◌+◌, ◌-◌, ◌/◌, ◌%◌, ◌≡◌, ◌≤◌, refl, arith, true, false, Bool, Bool-cases, inl, inr,
  List, [], ◌∷◌, ◌++◌, ◌==◌, if◌then◌else◌, ltb, length, replicate,
}
use utrace.Common.Int.{ℤ, pos, negsuc}
use utrace.Options.Strings.{lacks}
use utrace.Layout.{decimal, two_wide, octal_text, display_char, label}
use utrace.Printf.{
  digit, digits, unsigned_text, signed_text, octal_digits, hex_text, pointer_text, wide,
}

-- The text lies within one line.
abbrev pub IsPlain : List ℕ → Type 0
IsPlain text = lacks 10 text ≡ true

pub append-IsPlain : (xs ys : List ℕ) → IsPlain xs → IsPlain ys → IsPlain (xs ++ ys)
append-IsPlain [] ys p q = q
append-IsPlain (x ∷ xs) ys p q = elim (Bool-cases (x == 10)) [
  | inl e ↦ absurd (cc (rw e at p))
  | inr e ↦ rw e (append-IsPlain xs ys (rw e at p) q)
]

pub replicate-IsPlain : (n c : ℕ) → (c == 10) ≡ false → IsPlain (replicate n c)
unfolding replicate
replicate-IsPlain zero c h = refl
replicate-IsPlain (suc n) c h = rw (h, replicate-IsPlain n c h) refl

pub if-IsPlain :
    (b : Bool) (xs ys : List ℕ) → IsPlain xs → IsPlain ys → IsPlain (if b then xs else ys)
if-IsPlain true xs ys p q = p
if-IsPlain false xs ys p q = q

one-IsPlain : (c : ℕ) → 48 ≤ c → IsPlain (c ∷ [])
one-IsPlain c h = ground arith

pub decimal-IsPlain : (size n : ℕ) → IsPlain (decimal size n)
unfolding decimal
decimal-IsPlain zero n = refl
decimal-IsPlain (suc size) n = if-IsPlain (ltb n 10) _ _ (one-IsPlain (48 + n) (omega arith)) (
    append-IsPlain (decimal size (n / 10)) _ (decimal-IsPlain size (n / 10))
      (one-IsPlain (48 + n % 10) (omega arith)))

digit-IsPlain : (d : ℕ) → IsPlain (digit d ∷ [])
digit-IsPlain d = ground arith

pub digits-IsPlain : (base size n : ℕ) → IsPlain (digits base size n)
unfolding digits
digits-IsPlain base zero n = refl
digits-IsPlain base (suc size) n = if-IsPlain (ltb n base) _ _ (digit-IsPlain n) (
    append-IsPlain (digits base size (n / base)) _ (digits-IsPlain base size (n / base))
      (digit-IsPlain (n % base)))

pub unsigned_text-IsPlain : (n : ℕ) → IsPlain (unsigned_text n)
unfolding unsigned_text
unsigned_text-IsPlain n = decimal-IsPlain 20 n

pub signed_text-IsPlain : (z : ℤ) → IsPlain (signed_text z)
unfolding signed_text
signed_text-IsPlain (pos n) = unsigned_text-IsPlain n
signed_text-IsPlain (negsuc n) = unsigned_text-IsPlain (n + 1)

pub octal_digits-IsPlain : (n : ℕ) → IsPlain (octal_digits n)
unfolding octal_digits
octal_digits-IsPlain n = digits-IsPlain 8 22 n

pub hex_text-IsPlain : (n : ℕ) → IsPlain (hex_text n)
unfolding hex_text
hex_text-IsPlain n = if-IsPlain (n == 0) _ _ refl (digits-IsPlain 16 16 n)

pub pointer_text-IsPlain : (n : ℕ) → IsPlain (pointer_text n)
unfolding pointer_text
pointer_text-IsPlain n = if-IsPlain (n == 0) _ _ refl (hex_text-IsPlain n)

pub wide-IsPlain :
    (fill width : ℕ) (text : List ℕ)
    → (fill == 10) ≡ false
    → IsPlain text
    → IsPlain (wide fill width text)
unfolding wide
wide-IsPlain fill width text h p =
    append-IsPlain (replicate (width - length text) fill) text (replicate-IsPlain _ fill h) p

octal_text-IsPlain : (c : ℕ) → IsPlain (octal_text c)
octal_text-IsPlain c = ground arith

pub display_char-IsPlain : (z : ℤ) → IsPlain (display_char z)
unfolding display_char
display_char-IsPlain (negsuc n) = if-IsPlain (n == 0) _ _ refl (octal_text-IsPlain (255 - n % 256))
display_char-IsPlain (pos c) = ground (arith, octal_text-IsPlain (c % 256))

two_wide-IsPlain : (n : ℕ) → IsPlain (two_wide n)
unfolding two_wide
two_wide-IsPlain n = if-IsPlain (ltb n 10) _ _ (decimal-IsPlain 10 n) (decimal-IsPlain 10 n)

pub label-IsPlain : (is_left : Bool) (depth : ℕ) → IsPlain (label is_left depth)
label-IsPlain true depth = append-IsPlain (two_wide depth) (93 ∷ []) (two_wide-IsPlain depth) refl
label-IsPlain false depth = append-IsPlain (two_wide depth) (93 ∷ []) (two_wide-IsPlain depth) refl

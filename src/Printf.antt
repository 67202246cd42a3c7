-- ===== src/Printf.antt =====
-- The conversions that utrace-0.1/output.c and utrace-0.1/display_args.c hand to fprintf(3): what
-- the C library documents of them. A `long` is the pattern of its `bits` bits.
pub mod Plain
use Prim.Native.Char.{code}
use Prim.Native.String.{String}
use utrace.Common.{
  ℕ, zero, suc, ◌+◌, ◌-◌, ◌/◌, ◌%◌, ◌^◌, ◌≡◌, refl, arith, Bool, ◌&&◌, not, List, [], ◌∷◌, ◌++◌,
  ◌==◌, if◌then◌else◌, ltb, length, replicate,
}
use utrace.Common.Int.{ℤ, pos, negsuc}
use utrace.Options.Strings.{lacks}
use utrace.Layout.{decimal}

-- The characters of a literal.
abbrev pub codes : String → List ℕ
codes String.[] = []
codes (String.◌∷◌ c s) = code c ∷ codes s

-- The integer that a pattern of `bits` bits stands for.
unfoldable pub signed : (bits : ℕ) → ℕ → ℤ
signed bits n = if ltb n (2 ^ (bits - 1)) then pos n else negsuc (2 ^ bits - 1 - n)

-- `(int)x` and `(unsigned)x` of a `long`
abbrev pub as_int : ℕ → ℤ
as_int n = signed 32 (n % 2 ^ 32)

abbrev pub as_unsigned : ℕ → ℕ
as_unsigned n = n % 2 ^ 32

abbrev pub digit : ℕ → ℕ
digit d = if ltb d 10 then 48 + d else 87 + d

-- The digits in another base of a number of at most `size` digits.
unfoldable pub digits : (base size : ℕ) → ℕ → List ℕ
digits base zero n = []
digits base (suc size) n =
    let higher = digits base size (n / base) in
    if ltb n base then digit n ∷ [] else higher ++ digit (n % base) ∷ []

-- `%u` and `%lu`
unfoldable pub unsigned_text : ℕ → List ℕ
unsigned_text n = decimal 20 n

-- `%d` and `%ld`
unfoldable pub signed_text : ℤ → List ℕ
unfolding unsigned_text
signed_text (pos n) = unsigned_text n
signed_text (negsuc n) = 45 ∷ unsigned_text (n + 1)

-- `%o`
unfoldable pub octal_digits : ℕ → List ℕ
octal_digits n = digits 8 22 n

-- `%#x`
unfoldable pub hex_text : ℕ → List ℕ
hex_text n = if n == 0 then codes "0" else 48 ∷ 120 ∷ digits 16 16 n

-- `%p`
unfoldable pub pointer_text : ℕ → List ℕ
unfolding hex_text
pointer_text n = if n == 0 then codes "(nil)" else hex_text n

-- `%5d` and the like, and `%06d`: filled up from the left.
unfoldable pub wide : (fill width : ℕ) → List ℕ → List ℕ
wide fill width text = replicate (width - length text) fill ++ text

-- ===== src/Config/Types.antt =====
-- The names of types: what `str2type` reads of them.
use utrace.Common.{
  ℕ, ◌≡◌, refl, true, false, ◌==◌, List, [], ◌∷◌, ◌++◌, Bool, not, ◌&&◌, ◌<◌, arith,
}
use utrace.Config.{
  ArgType, unknown, void, int, uint, octal, char, addr, file, format, string, string0, string1,
  string2, string3, string_text, str2type, is_delimiter, is_unknown, type_in, eat_spaces, head,
}
use utrace.Tgid.{strip_prefix}

-- The name of a type in a prototype.
unfoldable pub type_text : ArgType → List ℕ
type_text unknown = []
type_text void = 118 ∷ 111 ∷ 105 ∷ 100 ∷ []
type_text int = 105 ∷ 110 ∷ 116 ∷ []
type_text uint = 117 ∷ 105 ∷ 110 ∷ 116 ∷ []
type_text octal = 111 ∷ 99 ∷ 116 ∷ 97 ∷ 108 ∷ []
type_text char = 99 ∷ 104 ∷ 97 ∷ 114 ∷ []
type_text addr = 97 ∷ 100 ∷ 100 ∷ 114 ∷ []
type_text file = 102 ∷ 105 ∷ 108 ∷ 101 ∷ []
type_text format = 102 ∷ 111 ∷ 114 ∷ 109 ∷ 97 ∷ 116 ∷ []
type_text string = string_text []
type_text string0 = string_text (48 ∷ [])
type_text string1 = string_text (49 ∷ [])
type_text string2 = string_text (50 ∷ [])
type_text string3 = string_text (51 ∷ [])

pub str2type-type_text :
    (ty : ArgType) (d : ℕ) (rest : List ℕ)
    → is_unknown ty ≡ false
    → is_delimiter d ≡ true
    → str2type (type_text ty ++ (d ∷ rest)) ≡ (ty, d ∷ rest)
unfolding str2type type_in type_text strip_prefix
str2type-type_text unknown d rest k h = cc
str2type-type_text void d rest k h = rw h refl
str2type-type_text int d rest k h = rw h refl
str2type-type_text uint d rest k h = rw h refl
str2type-type_text octal d rest k h = rw h refl
str2type-type_text char d rest k h = rw h refl
str2type-type_text addr d rest k h = rw h refl
str2type-type_text file d rest k h = rw h refl
str2type-type_text format d rest k h = rw h refl
str2type-type_text string d rest k h = rw h refl
str2type-type_text string0 d rest k h = rw h refl
str2type-type_text string1 d rest k h = rw h refl
str2type-type_text string2 d rest k h = rw h refl
str2type-type_text string3 d rest k h = rw h refl

-- A text that begins neither with a space nor with `)` or `+`.
pub record Starts (str : List ℕ) : Type 0 where
  pub no_space : eat_spaces str ≡ str
  pub no_close : (head str == 41) ≡ false
  pub no_plus : (head str == 43) ≡ false

plain-Starts : (c : ℕ) (cs : List ℕ) → 44 < c → Starts (c ∷ cs)
unfolding eat_spaces
plain-Starts c cs h = record {
  no_space = ground arith;
  no_close = ground arith;
  no_plus = ground arith;
}

pub type_text-Starts :
    (ty : ArgType) (rest : List ℕ) → is_unknown ty ≡ false → Starts (type_text ty ++ rest)
unfolding type_text
type_text-Starts unknown rest k = cc
type_text-Starts void rest k = plain-Starts 118 _ (omega arith)
type_text-Starts int rest k = plain-Starts 105 _ (omega arith)
type_text-Starts uint rest k = plain-Starts 117 _ (omega arith)
type_text-Starts octal rest k = plain-Starts 111 _ (omega arith)
type_text-Starts char rest k = plain-Starts 99 _ (omega arith)
type_text-Starts addr rest k = plain-Starts 97 _ (omega arith)
type_text-Starts file rest k = plain-Starts 102 _ (omega arith)
type_text-Starts format rest k = plain-Starts 102 _ (omega arith)
type_text-Starts string rest k = plain-Starts 115 _ (omega arith)
type_text-Starts string0 rest k = plain-Starts 115 _ (omega arith)
type_text-Starts string1 rest k = plain-Starts 115 _ (omega arith)
type_text-Starts string2 rest k = plain-Starts 115 _ (omega arith)
type_text-Starts string3 rest k = plain-Starts 115 _ (omega arith)

unfoldable pub no_parens : List ℕ → Bool
no_parens [] = true
no_parens (c ∷ cs) = not (c == 40) && not (c == 41) && no_parens cs

pub no_parens-type_text : (ty : ArgType) → no_parens (type_text ty) ≡ true
unfolding no_parens type_text
no_parens-type_text unknown = refl
no_parens-type_text void = refl
no_parens-type_text int = refl
no_parens-type_text uint = refl
no_parens-type_text octal = refl
no_parens-type_text char = refl
no_parens-type_text addr = refl
no_parens-type_text file = refl
no_parens-type_text format = refl
no_parens-type_text string = refl
no_parens-type_text string0 = refl
no_parens-type_text string1 = refl
no_parens-type_text string2 = refl
no_parens-type_text string3 = refl

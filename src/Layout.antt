-- ===== src/Layout.antt =====
-- The beginning of a line of output: the time of -r in `begin_of_line`, and `add_prefix_space`, both of
-- utrace-0.1/output.c. Also `display_char` of utrace-0.1/display_args.c. The text is what is handed
-- to `fprintf`.
pub mod Bounds
pub mod Characters
use utrace.Common.{
  ℕ, zero, suc, ◌+◌, ◌-◌, ◌/◌, ◌%◌, Bool, ◌&&◌, ◌||◌, List, [], ◌∷◌, ◌++◌, ◌==◌, if◌then◌else◌, ltb,
  leb, length, replicate,
}
use utrace.Common.Int.{ℤ, pos, sub_ℕ, ◌+ℤ◌, negsuc}
use utrace.Tracee.{Timeval, max_calldepth}
use utrace.Run.{Run, ok, fault, undefined}

-- `diff` and the new `old_tv` at the time `tv`; the first line sees no time pass.
unfoldable pub first_time : Timeval → Timeval → Timeval
first_time tv old_tv = if old_tv.tv_sec == 0 && old_tv.tv_usec == 0 then tv else old_tv

unfoldable pub line_diff : Timeval → Timeval → ℤ × ℕ
line_diff tv old_tv =
    let sec = sub_ℕ tv.tv_sec old_tv.tv_sec in
    if leb old_tv.tv_usec tv.tv_usec
    then (sec, tv.tv_usec - old_tv.tv_usec)
    else (sec +ℤ negsuc 0, 1000000 + tv.tv_usec - old_tv.tv_usec)

unfoldable pub line_time : Timeval → Timeval → (ℤ × ℕ) × Timeval
unfolding first_time line_diff
line_time tv old_tv = (line_diff tv (first_time tv old_tv), tv)

-- The decimal digits of a number of at most `size` digits.
unfoldable pub decimal : (size : ℕ) → ℕ → List ℕ
decimal zero n = []
decimal (suc size) n =
    let higher = decimal size (n / 10) in
    if ltb n 10 then (48 + n) ∷ [] else higher ++ ((48 + n % 10) ∷ [])

-- `%2d`
unfoldable pub two_wide : ℕ → List ℕ
two_wide n = if ltb n 10 then 32 ∷ decimal 10 n else decimal 10 n

-- `+[%2d]` or `-[%2d]`
abbrev pub label : Bool → ℕ → List ℕ
label is_left depth = (if is_left then 43 else 45) ∷ 91 ∷ (two_wide depth ++ (93 ∷ []))

-- The size of `spaces`.
abbrev pub spaces_size : ℕ
spaces_size = max_calldepth + 2 + 2 + 2

-- `spaces` as a string; a write behind the array, the null included, is undefined.
unfoldable pub add_prefix_space : ℕ → Bool → Run (List ℕ)
unfolding two_wide
add_prefix_space depth is_left =
    let i = if ltb max_calldepth depth then max_calldepth else depth in
    let text = label is_left depth in
    if ltb spaces_size (i + length text + 1) then fault undefined else ok (replicate i 32 ++ text)

-- `\\%03o` of an `unsigned char`
abbrev pub octal_text : ℕ → List ℕ
octal_text c = 92 ∷ (48 + c / 64) ∷ (48 + c / 8 % 8) ∷ (48 + c % 8) ∷ []

-- EOF, the escapes, octal digits, or the character.
unfoldable pub display_char : ℤ → List ℕ
display_char (negsuc n) = if n == 0 then 69 ∷ 79 ∷ 70 ∷ [] else octal_text (255 - n % 256)
display_char (pos c) =
    if c == 13
    then 92 ∷ 114 ∷ []
    else if c == 10
    then 92 ∷ 110 ∷ []
    else if c == 9
    then 92 ∷ 116 ∷ []
    else if c == 8
    then 92 ∷ 98 ∷ []
    else if c == 92
    then 92 ∷ 92 ∷ []
    else if ltb c 32 || ltb 126 c
    then octal_text (c % 256)
    else c ∷ []

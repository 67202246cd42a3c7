-- ===== src/Values.antt =====
-- `display_arg` of utrace-0.1/display_args.c: an argument or a return value as the output shows it.
-- `gimme_arg` is the architecture's; its answer is the pattern of a `long` of `bits` bits, and an
-- `arg_num` of -1, the return value, is `none`.
pub mod Pieces
pub mod Lines
use utrace.Common.{
  ℕ, zero, suc, ◌+◌, ◌-◌, ◌^◌, ◌%◌, Bool, true, false, not, ◌&&◌, ◌||◌, List, [], ◌∷◌, ◌++◌, Option,
  none, some, ◌==◌, if◌then◌else◌, leb, ltb, length, set, replicate,
}
use utrace.Common.Int.{ℤ, pos, negsuc}
use utrace.Run.{Run, ok, fault, undefined, ◌>>=◌}
use utrace.Ptrace.{Ptrace}
use utrace.Tracee.{Thread}
use utrace.Arguments.{Tof}
use utrace.Layout.{display_char}
use utrace.Callstack.{element_at}
use utrace.Config.{
  ArgType, unknown, void, int, uint, octal, char, addr, file, format, string, string0, string1,
  string2, string3,
}
use utrace.Strings.{umovestr, put}
use utrace.Strings.Shown.{
  leq_ℤ, min_ℤ, buffer_size, copy_length, shown_length, quote, dots, display_string,
}
use utrace.Printf.{
  signed, signed_text, unsigned_text, octal_digits, hex_text, pointer_text, as_int, as_unsigned,
  codes,
}

-- INT_MAX, the initializer of `string_maxlength`.
abbrev pub int_max : ℤ
int_max = pos (2 ^ 31 - 1)

-- `++arg_num`
abbrev pub next_arg : Option ℕ → ℕ
next_arg none = 0
next_arg (some n) = n + 1

-- `arg2-1`
abbrev pub arg_before : ℕ → Option ℕ
arg_before zero = none
arg_before (suc n) = some n

-- `while(1)` goes on, or has met a conversion: what it shows, and the arguments that it takes.
pub data Directive : Type 0 where
  skip star percent decimal_int unsigned_int octal_int hex character text real : Directive

-- The tests of the loop on the character `c`, which is not null.
unfoldable pub directive : ℕ → Directive
directive c =
    if c == b'%'
    then percent
    else if c == b'd' || c == b'i'
    then decimal_int
    else if c == b'u'
    then unsigned_int
    else if c == b'o'
    then octal_int
    else if c == b'x' || c == b'X'
    then hex
    else if c == b'c'
    then character
    else if c == b's'
    then text
    else if (c == b'e' || c == b'E') || (c == b'f' || c == b'g')
    then real
    else if c == b'*'
    then star
    else skip

-- Whether the directive ends the loop.
abbrev pub ends : Directive → Bool
ends skip = false
ends star = false
ends d = true

-- Whether it takes an argument.
abbrev pub takes_arg : Directive → Bool
takes_arg skip = false
takes_arg percent = false
takes_arg real = false
takes_arg d = true

-- The loop over the characters of a format, with the number of rounds that are left: `len` counts
-- what was printed, the quote included. The answer is the text and the last `i`.
unfoldable pub show_format : List ℕ → (m rounds i len : ℕ) → Run (List ℕ × ℕ)
show_format str1 m zero i len = if ltb len (m + 1) then fault undefined else ok ([], i)
show_format str1 m (suc n) i len =
    if ltb len (m + 1)
    then (element_at str1 i >>= λ c. elim (c == 0) [
      | true ↦ ok ([], i)
      | false ↦ show_format str1 m n (i + 1) (len + length (display_char (pos c))) >>= λ r.
          ok (display_char (pos c) ++ r.0, r.1)
    ])
    else ok ([], i)

-- `str1[i+1]='\0'` after a conversion of a `double`.
unfoldable pub after_directive : Directive → List ℕ → ℕ → Run (List ℕ)
after_directive real str1 i = put str1 (i + 1) 0
after_directive d str1 i = ok str1

module _ (bits sizeof_long : ℕ) (p : Ptrace) (k : p.Kernel) (junk : ℕ) (opt_s : ℤ)
    (gimme_arg : Tof → Thread → Option ℕ → Run ℕ) (type : Tof) (thr : Thread) where
  unfoldable pub display_string_arg : (string_maxlength : ℤ) → Option ℕ → Run (List ℕ)
  unfolding display_string
  display_string_arg string_maxlength arg_num = gimme_arg type thr arg_num >>= λ addr.
      display_string sizeof_long p k (thr.tid) junk opt_s string_maxlength addr

  unfoldable pub display_string_n : (arg2 : ℕ) → Option ℕ → Run (List ℕ)
  unfolding display_string_arg
  display_string_n arg2 arg_num =
      gimme_arg type thr (arg_before arg2) >>= λ n. display_string_arg (as_int n) arg_num

  unfoldable pub display_unknown : Option ℕ → Run (List ℕ)
  unfolding signed signed_text pointer_text
  display_unknown arg_num = gimme_arg type thr arg_num >>= λ tmp. ok (
      if ltb tmp 1000000 || ltb (2 ^ bits - 1000000) tmp
      then signed_text (signed bits tmp)
      else pointer_text tmp)

  -- What a conversion prints.
  unfoldable pub show_directive : Directive → Option ℕ → Run (List ℕ)
  unfolding display_string_arg signed signed_text unsigned_text octal_digits hex_text display_char
  show_directive skip arg_num = ok []
  show_directive percent arg_num = ok []
  show_directive real arg_num = ok (codes ", ...")
  show_directive star arg_num =
      gimme_arg type thr arg_num >>= λ n. ok (codes ", " ++ signed_text (as_int n))
  show_directive decimal_int arg_num =
      gimme_arg type thr arg_num >>= λ n. ok (codes ", " ++ signed_text (as_int n))
  show_directive unsigned_int arg_num =
      gimme_arg type thr arg_num >>= λ n. ok (codes ", " ++ unsigned_text (as_unsigned n))
  show_directive octal_int arg_num =
      gimme_arg type thr arg_num >>= λ n. ok (codes ", 0" ++ octal_digits (as_unsigned n))
  show_directive hex arg_num =
      gimme_arg type thr arg_num >>= λ n. ok (codes ", " ++ hex_text (as_unsigned n))
  show_directive character arg_num =
      gimme_arg type thr arg_num >>= λ n. ok (codes ", '" ++ display_char (as_int n) ++ codes "'")
  show_directive text arg_num = display_string_arg int_max arg_num >>= λ s. ok (codes ", " ++ s)

  -- The last loop, from `i` on, with the number of rounds that are left; `inside`: in the inner
  -- loop, behind a percent sign.
  unfoldable pub show_args : (rounds : ℕ) (inside : Bool) → List ℕ → ℕ → Option ℕ → Run (List ℕ)
  unfolding directive after_directive show_directive
  show_args zero inside str1 i arg_num = fault undefined
  show_args (suc n) false str1 i arg_num = element_at str1 i >>= λ c. elim (c == 0) [
    | true ↦ ok []
    | false ↦ show_args n (c == b'%') str1 (i + 1) arg_num
  ]
  show_args (suc n) true str1 i arg_num = element_at str1 i >>= λ c. elim (c == 0) [
    | true ↦ show_args n false str1 (i + 1) arg_num
    | false ↦ do
      let d = directive c
      let arg = if takes_arg d then some (next_arg arg_num) else arg_num
      shown ← show_directive d arg
      str1' ← after_directive d str1 i
      rest ← show_args n (not (ends d)) str1' (i + 1) arg
      ok (shown ++ rest)
  ]

  -- From the copied buffer on.
  unfoldable pub format_buffer : Option ℕ → List ℕ → Run (List ℕ)
  unfolding show_format show_args
  format_buffer arg_num str1 = do
    let m = shown_length (min_ℤ opt_s int_max)
    r ← show_format str1 m m 0 1
    c ← element_at str1 r.1
    args ← show_args (length str1 + 1) false str1 0 arg_num
    ok (
        quote
        ∷ (r.0 ++ quote ∷ ((if not (c == 0) && leq_ℤ opt_s int_max then dots else []) ++ args)))

  unfoldable pub display_format : Option ℕ → Run (List ℕ)
  unfolding umovestr format_buffer
  display_format arg_num = gimme_arg type thr arg_num >>= λ addr.
      if addr == 0
      then ok (codes "NULL")
      else if leb (2 ^ 31 - 3) (shown_length (min_ℤ opt_s int_max))
      then fault undefined
      else elim (buffer_size (min_ℤ opt_s int_max)) [
        | none ↦ ok (codes "???")
        | some size ↦
            umovestr sizeof_long p k (thr.tid) addr (copy_length (min_ℤ opt_s int_max))
              (replicate size junk)
            >>= format_buffer arg_num
      ]

  unfoldable pub display_arg : Option ℕ → ArgType → Run (List ℕ)
  unfolding signed signed_text unsigned_text octal_digits pointer_text display_char
      display_string_arg display_string_n display_unknown display_format
  display_arg arg_num void = ok []
  display_arg arg_num int = gimme_arg type thr arg_num >>= λ n. ok (signed_text (as_int n))
  display_arg arg_num uint = gimme_arg type thr arg_num >>= λ n. ok (unsigned_text (as_unsigned n))
  display_arg arg_num octal =
      gimme_arg type thr arg_num >>= λ n. ok (48 ∷ octal_digits (as_unsigned n))
  display_arg arg_num char =
      gimme_arg type thr arg_num >>= λ n. ok (codes "'" ++ display_char (as_int n) ++ codes "'")
  display_arg arg_num addr =
      gimme_arg type thr arg_num >>= λ n. ok (if n == 0 then codes "NULL" else pointer_text n)
  display_arg arg_num format = display_format arg_num
  display_arg arg_num string = display_string_arg int_max arg_num
  display_arg arg_num string0 = display_string_n 0 arg_num
  display_arg arg_num string1 = display_string_n 1 arg_num
  display_arg arg_num string2 = display_string_n 2 arg_num
  display_arg arg_num string3 = display_string_n 3 arg_num
  display_arg arg_num file = display_unknown arg_num
  display_arg arg_num unknown = display_unknown arg_num

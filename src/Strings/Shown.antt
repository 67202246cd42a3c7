-- ===== src/Strings/Shown.antt =====
-- `display_string` of utrace-0.1/display_args.c: a string of the tracee as the output shows it.
use utrace.Common.{
  ℕ, zero, suc, ◌+◌, ◌-◌, ◌^◌, true, false, Bool, not, ◌&&◌, List, [], ◌∷◌, ◌++◌, Option, none,
  some, ◌==◌, if◌then◌else◌, leb, ltb, replicate,
}
use utrace.Common.Int.{ℤ, pos, negsuc}
use utrace.Run.{Run, ok, fault, undefined, ◌>>=◌}
use utrace.Ptrace.{Ptrace}
use utrace.Layout.{display_char}
use utrace.Callstack.{element_at}
use utrace.Strings.{umovestr}

abbrev pub leq_ℤ : ℤ → ℤ → Bool
leq_ℤ (pos a) (pos b) = leb a b
leq_ℤ (pos a) (negsuc b) = false
leq_ℤ (negsuc a) (pos b) = true
leq_ℤ (negsuc a) (negsuc b) = leb b a

-- `MIN(opt_s,string_maxlength)`
abbrev pub min_ℤ : ℤ → ℤ → ℤ
min_ℤ a b = if leq_ℤ b a then b else a

-- `malloc(MIN(…)+3)`: below -3 the request is one of nearly the whole memory and fails.
abbrev pub buffer_size : ℤ → Option ℕ
buffer_size (pos m) = some (m + 3)
buffer_size (negsuc n) = if ltb n 3 then some (2 - n) else none

-- `MIN(…)+1`; umovestr does with a negative length what it does with 0.
abbrev pub copy_length : ℤ → ℕ
copy_length (pos m) = m + 1
copy_length (negsuc n) = 0

-- The rounds of the loop over `i`.
abbrev pub shown_length : ℤ → ℕ
shown_length (pos m) = m
shown_length (negsuc n) = 0

abbrev pub quote : ℕ
quote = 34

abbrev pub dots : List ℕ
dots = 46 ∷ 46 ∷ 46 ∷ []

-- The loop, with the number of rounds that are left: what is shown, and the last `i`.
unfoldable pub show_chars : List ℕ → (rounds i : ℕ) → Run (List ℕ × ℕ)
show_chars str1 zero i = ok ([], i)
show_chars str1 (suc n) i =
    let rest = show_chars str1 n (i + 1) in
    element_at str1 i >>= λ c.
    if c == 0 then ok ([], i) else (rest >>= λ r. ok (display_char (pos c) ++ r.0, r.1))

-- From the copied buffer on.
unfoldable pub show_buffer : (opt_s string_maxlength : ℤ) → List ℕ → Run (List ℕ)
unfolding show_chars
show_buffer opt_s string_maxlength str1 = do
  r ← show_chars str1 (shown_length (min_ℤ opt_s string_maxlength)) 0
  c ← element_at str1 r.1
  ok (quote ∷ (r.0 ++ quote ∷ (if not (c == 0) && leq_ℤ opt_s string_maxlength then dots else [])))

-- `malloc` finds bytes of the value `junk`. The sum `MIN(…)+3` is one of ints, which must not
-- overflow.
module _ (sizeof_long : ℕ) (p : Ptrace) (k : p.Kernel) (tid junk : ℕ) where
  unfoldable pub display_string : (opt_s string_maxlength : ℤ) (addr : ℕ) → Run (List ℕ)
  unfolding umovestr show_buffer
  display_string opt_s string_maxlength addr =
      if addr == 0
      then ok (78 ∷ 85 ∷ 76 ∷ 76 ∷ [])
      else if leb (2 ^ 31 - 3) (shown_length (min_ℤ opt_s string_maxlength))
      then fault undefined
      else elim (buffer_size (min_ℤ opt_s string_maxlength)) [
        | none ↦ ok (63 ∷ 63 ∷ 63 ∷ [])
        | some size ↦
            umovestr sizeof_long p k tid addr (copy_length (min_ℤ opt_s string_maxlength))
              (replicate size junk)
            >>= show_buffer opt_s string_maxlength
      ]

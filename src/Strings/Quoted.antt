-- ===== src/Strings/Quoted.antt =====
-- `display_string` of utrace-0.1/display_args.c shows the string of the tracee, cut and quoted.
use utrace.Common.{
  ℕ, zero, suc, ◌+◌, ◌-◌, ◌^◌, ◌<◌, ◌≡◌, ◌≢◌, refl, ap, sym, ◌∙◌, arith, false, Bool, Bool-cases,
  inl, inr, not, ◌&&◌, List, [], ◌∷◌, ◌++◌, none, some, ◌==◌, ==_ne, if◌then◌else◌, leb, ltb,
  length, min, get_elem?, replicate, length-replicate,
}
use utrace.Common.Int.{ℤ, pos}
use utrace.Run.{Run, ok, fault, undefined, ◌>>=◌}
use utrace.Ptrace.{Ptrace, IsMemory}
use utrace.Layout.{display_char}
use utrace.Config.{take, drop}
use utrace.Callstack.Balance.{element_at_lem}
use utrace.Strings.{umovestr}
use utrace.Strings.Umovestr.{string_at, umovestr-string_at}
use utrace.Strings.Shown.{
  min_ℤ, buffer_size, copy_length, shown_length, quote, dots, show_chars, show_buffer,
  display_string,
}

-- The characters, each as display_char shows it.
abbrev pub escape : List ℕ → List ℕ
escape [] = []
escape (c ∷ cs) = display_char (pos c) ++ escape cs

-- How a string is shown, with at most `m` characters; `cut`: whether a cut is marked.
abbrev pub quoted : (cut : Bool) (m : ℕ) → List ℕ → List ℕ
quoted cut m text =
    quote ∷ (escape (take m text) ++ quote ∷ (if ltb m (length text) && cut then dots else []))

show_chars_lem :
    (str1 text : List ℕ) (n i : ℕ)
    → ((j c : ℕ) → get_elem? text j ≡ some c → (c == 0) ≡ false)
    → ((j c : ℕ) → get_elem? text j ≡ some c → get_elem? str1 (i + j) ≡ some c)
    → get_elem? str1 (i + length text) ≡ some 0
    → show_chars str1 n i ≡ ok (escape (take n text), i + min n (length text))
unfolding show_chars take
show_chars_lem str1 text zero i nz at end = ap (λ x. ok ([], x)) (omega arith)
show_chars_lem str1 [] (suc n) i nz at end =
    rw (element_at_lem str1 i 0 (ap (get_elem? str1) (omega arith) ∙ end), ◌>>=◌)
      (ap (λ x. ok ([], x)) (omega arith))
show_chars_lem str1 (c ∷ cs) (suc n) i nz at end =
    rw
      (
        element_at_lem str1 i c (ap (get_elem? str1) (omega arith) ∙ at 0 c refl),
        ◌>>=◌,
        nz 0 c refl,
        show_chars_lem str1 cs n (i + 1) (λ j x e. nz (suc j) x e)
            (λ j x e. ap (get_elem? str1) (omega arith) ∙ at (suc j) x e)
            (ap (get_elem? str1) (omega arith) ∙ end),
      )
      (ap (λ x. ok (display_char (pos c) ++ escape (take n cs), x)) (omega arith))

cons_nonzero :
    (b c : ℕ) (bs : List ℕ)
    → (b == 0) ≡ false
    → ((j : ℕ) → get_elem? bs j ≡ some c → (c == 0) ≡ false)
    → (j : ℕ) → get_elem? (b ∷ bs) j ≡ some c
    → (c == 0) ≡ false
cons_nonzero b c bs h ih zero e = let same : b ≡ c = cc e in ap (λ x. x == 0) (sym same) ∙ h
cons_nonzero b c bs h ih (suc j) e = ih j e

string_at-nonzero :
    (byte : ℕ → ℕ) (addr n j c : ℕ)
    → get_elem? (string_at byte addr n) j ≡ some c
    → (c == 0) ≡ false
unfolding string_at
string_at-nonzero byte addr zero j c e = absurd (cc e)
string_at-nonzero byte addr (suc n) j c e = elim (Bool-cases (byte addr == 0)) [
  | inl null ↦ absurd (cc (rw null at e))
  | inr char ↦
      cons_nonzero (byte addr) c (string_at byte (addr + 1) n) char
        (λ i g. string_at-nonzero byte (addr + 1) n i c g) j (rw char at e)
]

get_elem?-append_left :
    (xs ys : List ℕ) (j c : ℕ) → get_elem? xs j ≡ some c → get_elem? (xs ++ ys) j ≡ some c
get_elem?-append_left [] ys j c e = absurd (cc e)
get_elem?-append_left (x ∷ xs) ys zero c e = e
get_elem?-append_left (x ∷ xs) ys (suc j) c e = get_elem?-append_left xs ys j c e

get_elem?-append_end : (xs ys : List ℕ) (y : ℕ) → get_elem? (xs ++ y ∷ ys) (length xs) ≡ some y
get_elem?-append_end [] ys y = refl
get_elem?-append_end (x ∷ xs) ys y = get_elem?-append_end xs ys y

-- The character where the loop stops is null exactly when all are shown.
stop_lem :
    (text ys : List ℕ) (n : ℕ)
    → ((j c : ℕ) → get_elem? text j ≡ some c → (c == 0) ≡ false)
    → (c : ℕ) × (get_elem? (text ++ 0 ∷ ys) (min n (length text)) ≡ some c)
      × (not (c == 0) ≡ ltb n (length text))
stop_lem [] ys n nz =
    let none_left : 0 ≡ min n 0 = omega arith in
    (0, ap (get_elem? (0 ∷ ys)) (sym none_left), ground arith)
stop_lem (x ∷ xs) ys zero nz =
    let at_start : min 0 (suc (length xs)) ≡ 0 = omega arith in
    (x, ap (get_elem? (x ∷ (xs ++ 0 ∷ ys))) at_start, rw (nz 0 x refl) (ground arith))
stop_lem (x ∷ xs) ys (suc n) nz =
    let (c, e, same) = stop_lem xs ys n (λ j z h. nz (suc j) z h) in
    let on : min (suc n) (suc (length xs)) ≡ suc (min n (length xs)) = omega arith in
    let later : ltb n (length xs) ≡ ltb (suc n) (suc (length xs)) = ground arith in
    (c, ap (get_elem? (x ∷ (xs ++ 0 ∷ ys))) on ∙ e, same ∙ later)

least : (s x : ℕ) → min_ℤ (pos s) (pos x) ≡ pos (min s x)
least s x = elim (Bool-cases (leb x s)) [
  | inl second ↦ let e : x ≡ min s x = ground arith in rw second (ap pos e)
  | inr first ↦ let e : s ≡ min s x = ground arith in rw first (ap pos e)
]

whole_buffer :
    (text ys : List ℕ) (n : ℕ)
    → ((j c : ℕ) → get_elem? text j ≡ some c → (c == 0) ≡ false)
    → show_chars (text ++ 0 ∷ ys) n 0 ≡ ok (escape (take n text), min n (length text))
whole_buffer text ys n nz =
    show_chars_lem (text ++ 0 ∷ ys) text n 0 nz
      (λ j c e.
        ap (get_elem? (text ++ 0 ∷ ys)) (omega arith) ∙ get_elem?-append_left text (0 ∷ ys) j c e)
      (ap (get_elem? (text ++ 0 ∷ ys)) (omega arith) ∙ get_elem?-append_end text ys 0)
    ∙ ap (λ x. ok (escape (take n text), x)) (omega arith)

show_buffer_lem :
    (s x : ℕ) (text ys : List ℕ)
    → ((j c : ℕ) → get_elem? text j ≡ some c → (c == 0) ≡ false)
    → show_buffer (pos s) (pos x) (text ++ 0 ∷ ys) ≡ ok (quoted (leb s x) (min s x) text)
unfolding show_buffer
show_buffer_lem s x text ys nz =
    let (c, e, same) = stop_lem text ys (min s x) nz in
    rw
      (
        least s x,
        whole_buffer text ys (min s x) nz,
        ◌>>=◌,
        element_at_lem (text ++ 0 ∷ ys) (min (min s x) (length text)) c e,
        same,
      )
      refl

module _ (sizeof_long : ℕ) (p : Ptrace) (k : p.Kernel) (tid junk : ℕ)
    (memory : IsMemory p sizeof_long tid) where
  after_test : ℕ → ℕ → ℕ → ℤ → Run (List ℕ)
  after_test s x addr z =
      if leb (2 ^ 31 - 3) (shown_length z) then fault undefined else elim (buffer_size z) [
        | none ↦ ok (63 ∷ 63 ∷ 63 ∷ [])
        | some size ↦
            umovestr sizeof_long p k tid addr (copy_length z) (replicate size junk)
            >>= show_buffer (pos s) (pos x)
      ]

  after_small_test :
      (s x addr m : ℕ)
      → leb (2 ^ 31 - 3) m ≡ false
      → after_test s x addr (pos m) ≡ (
          umovestr sizeof_long p k tid addr (m + 1) (replicate (m + 3) junk)
          >>= show_buffer (pos s) (pos x))
  unfolding after_test
  after_small_test s x addr m h = rw h refl

  -- For an address other than 0 and lengths that are not negative, the smaller one below 2 ^ 31 -
  -- 3, display_string ends without a fault and shows the string at the address between quotes,
  -- each character as display_char shows it, cut at the smaller of -s and the length that the
  -- prototype gives, with dots behind it exactly where the string was cut and -s is not the larger
  -- one
  pub display_string-quoted :
      (s x addr : ℕ)
      → 0 < sizeof_long
      → addr ≢ 0
      → min s x < 2 ^ 31 - 3
      → display_string sizeof_long p k tid junk (pos s) (pos x) addr
        ≡ ok (quoted (leb s x) (min s x) (string_at (memory.byte k) addr (min s x + 1)))
  unfolding display_string after_test
  display_string-quoted s x addr w nz fits =
      let text = string_at (memory.byte k) addr (min s x + 1) in
      rw (==_ne addr 0 nz) (
        ap (after_test s x addr) (least s x)
        ∙ after_small_test s x addr (min s x) (ground arith)
        ∙ ap (λ r. r >>= show_buffer (pos s) (pos x))
            (umovestr-string_at sizeof_long p tid memory k addr (min s x + 1)
              (replicate (min s x + 3) junk) w (omega (arith, length-replicate (min s x + 3) junk)))
        ∙ show_buffer_lem s x text (drop (suc (length text)) (replicate (min s x + 3) junk))
            (string_at-nonzero (memory.byte k) addr (min s x + 1)))

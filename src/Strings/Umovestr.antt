-- ===== src/Strings/Umovestr.antt =====
-- `umovestr` of utrace-0.1/sysdeps/linux-gnu/trace.c copies a string and its end, and no more.
use utrace.Common.{
  ℕ, zero, suc, ◌+◌, ◌<◌, ◌≤◌, ◌≡◌, refl, ap, sym, subst, ◌∙◌, arith, true, false, Bool, Bool-cases,
  inl, inr, not, ◌&&◌, List, [], ◌∷◌, ◌++◌, ◌==◌, if◌then◌else◌, ltb, length, length-append, set,
  get_or,
}
use mathlib.Core.List.{append_assoc}
use utrace.Run.{Run, ok, ◌>>=◌, Returns}
use utrace.Ptrace.{Ptrace, IsMemory}
use utrace.Config.{drop}
use utrace.Strings.{Copy, ended, more, put, copy_bytes, copy_words, umovestr}

set-append : (xs ys : List ℕ) (y v : ℕ) → set (xs ++ y ∷ ys) (length xs) v ≡ xs ++ v ∷ ys
set-append [] ys y v = refl
set-append (x ∷ xs) ys y v = ap (λ zs. x ∷ zs) (set-append xs ys y v)

put_lem : (xs ys : List ℕ) (y v : ℕ) → put (xs ++ y ∷ ys) (length xs) v ≡ ok (xs ++ v ∷ ys)
put_lem xs ys y v =
    let room : ltb (length xs) (length (xs ++ y ∷ ys)) ≡ true =
      ground (arith, length-append xs (y ∷ ys)) in
    rw room (ap ok (set-append xs ys y v))

snoc_append : (xs ys : List ℕ) (c : ℕ) → (xs ++ c ∷ []) ++ ys ≡ xs ++ c ∷ ys
snoc_append xs ys c = append_assoc xs (c ∷ []) ys

module _ (byte : ℕ → ℕ) where
  -- The string at an address, at most `n` characters of it.
  unfoldable pub string_at : (addr n : ℕ) → List ℕ
  string_at addr zero = []
  string_at addr (suc n) =
      let rest = string_at (addr + 1) n in if byte addr == 0 then [] else byte addr ∷ rest

  -- The string and its end written over the beginning of a buffer.
  unfoldable pub fill : (addr n : ℕ) → List ℕ → List ℕ
  fill addr n [] = []
  fill addr zero (r ∷ rs) = 0 ∷ rs
  fill addr (suc n) (r ∷ rs) =
      let rest = fill (addr + 1) n rs in if byte addr == 0 then 0 ∷ rs else byte addr ∷ rest

  -- What a word leaves to be done, where `goal` is what shall stand in the buffer.
  data Copied (len base pos : ℕ) (goal : List ℕ) : Copy → Type 0 where
    all_copied : Copied len base pos goal (ended goal)
    to_copy :
        (pre rest : List ℕ) (n : ℕ)
        → length pre ≡ pos
        → length pre + n ≡ len
        → n < length rest
        → pre ++ fill (base + pos) n rest ≡ goal
        → Copied len base pos goal (more (pre ++ rest))

  -- The same copy with one character more said to be there already.
  shift-Copied :
      (len base n c : ℕ) (cs pre rs : List ℕ)
      → let pre' = pre ++ c ∷ [] in
        Returns
          (copy_bytes len cs (length pre') (pre' ++ rs))
          (Copied len base (length pre' + length cs) (pre' ++ fill (base + length pre') n rs))
        → Returns (copy_bytes len cs (length pre + 1) (pre ++ c ∷ rs)) (
            Copied len base
              (length pre + suc (length cs))
              (pre ++ c ∷ fill (base + length pre + 1) n rs))
  shift-Copied len base n c cs pre rs h =
      rw
        (
          length-append pre (c ∷ []),
          snoc_append pre rs c,
          snoc_append pre (fill (base + (length pre + 1)) n rs) c,
          total,
          next,
        )
        at h
    where
      total : length pre + 1 + length cs ≡ length pre + suc (length cs)
      total = omega arith

      next : base + (length pre + 1) ≡ base + length pre + 1
      next = omega arith

  copy_bytes-Copied :
      (len base : ℕ) (w pre rest : List ℕ) (n : ℕ)
      → length pre + n ≡ len
      → n < length rest
      → ((j : ℕ) → j < length w → get_or w j 0 ≡ byte (base + length pre + j))
      → Returns
          (copy_bytes len w (length pre) (pre ++ rest))
          (Copied len base (length pre + length w) (pre ++ fill (base + length pre) n rest))
  unfolding copy_bytes fill
  copy_bytes-Copied len base [] pre rest n e l h = (
    more (pre ++ rest),
    refl,
    to_copy pre rest n (omega arith) e l (ap (λ a. pre ++ fill (base + a) n rest) (omega arith)),
  )
  copy_bytes-Copied len base (c ∷ cs) pre [] n e l h = absurd (omega arith)
  copy_bytes-Copied len base (c ∷ cs) pre (r ∷ rs) zero e l h = (
    ended (pre ++ 0 ∷ rs),
    rw (copy_bytes, at_end (not (c == 0)), put_lem pre rs r 0, ◌>>=◌) refl,
    all_copied,
  )
    where
      at_end : (b : Bool) → b && ltb (length pre) len ≡ false
      at_end b = ground arith
  copy_bytes-Copied len base (c ∷ cs) pre (r ∷ rs) (suc n) e l h = elim (Bool-cases (c == 0)) [
    | inl null ↦
        rw (copy_bytes, null, put_lem pre rs r 0, ◌>>=◌)
          (ended (pre ++ 0 ∷ rs), refl, rw (sym here, null) all_copied)
    | inr char ↦
        rw (copy_bytes, char, inside, put_lem pre rs r c, ◌>>=◌)
          (rw (sym here, char)
            (shift-Copied len base n c cs pre rs (
              copy_bytes-Copied len base cs pre' rs n (omega (arith, length_snoc)) (omega arith)
                later)))
  ]
    where
      pre' : List ℕ
      pre' = pre ++ c ∷ []

      length_snoc : length pre' ≡ length pre + 1
      length_snoc = length-append pre (c ∷ [])

      later : (j : ℕ) → j < length cs → get_or cs j 0 ≡ byte (base + length pre' + j)
      later j k = h (suc j) (omega arith) ∙ ap byte (omega (arith, length_snoc))

      inside : ltb (length pre) len ≡ true
      inside = ground arith

      here : c ≡ byte (base + length pre)
      here = h 0 (omega arith) ∙ ap byte (omega arith)

  fill-string_at :
      (addr n : ℕ) (buf : List ℕ)
      → n < length buf
      → fill addr n buf ≡ string_at addr n ++ 0 ∷ drop (suc (length (string_at addr n))) buf
  unfolding fill string_at drop
  fill-string_at addr n [] h = absurd (omega arith)
  fill-string_at addr zero (r ∷ rs) h = refl
  fill-string_at addr (suc n) (r ∷ rs) h = elim (Bool-cases (byte addr == 0)) [
    | inl null ↦ rw null refl
    | inr char ↦ rw char (ap (λ zs. byte addr ∷ zs) (fill-string_at (addr + 1) n rs (omega arith)))
  ]

module _ (sizeof_long : ℕ) (p : Ptrace) (tid : ℕ) (memory : IsMemory p sizeof_long tid)
    (k : p.Kernel) (addr len : ℕ) where
  abbrev resume_copy : ℕ → ℕ → Copy → Run (List ℕ)
  resume_copy m offset (ended buf) = ok buf
  resume_copy m offset (more buf) = copy_words sizeof_long p k tid addr len m offset buf

  after_word :
      (m pos : ℕ) (goal : List ℕ) (c : Copy)
      → ((n : ℕ) (pre rest : List ℕ)
          → length pre ≡ pos
          → length pre + n ≡ len
          → n < length rest
          → copy_words sizeof_long p k tid addr len m (length pre) (pre ++ rest)
            ≡ ok (pre ++ fill (memory.byte k) (addr + length pre) n rest))
      → Copied (memory.byte k) len addr pos goal c
      → resume_copy m pos c ≡ ok goal
  after_word m pos goal _ ih all_copied = refl
  after_word m pos goal _ ih (to_copy pre rest n at e l g) =
      ap (λ x. copy_words sizeof_long p k tid addr len m x (pre ++ rest)) (sym at)
      ∙ ih n pre rest at e l
      ∙ ap (λ x. ok (pre ++ fill (memory.byte k) (addr + x) n rest)) at
      ∙ ap ok g

  copy_words_lem :
      (rounds n : ℕ) (pre rest : List ℕ)
      → 0 < sizeof_long
      → n ≤ rounds
      → length pre + n ≡ len
      → n < length rest
      → copy_words sizeof_long p k tid addr len rounds (length pre) (pre ++ rest)
        ≡ ok (pre ++ fill (memory.byte k) (addr + length pre) n rest)
  unfolding copy_words fill
  copy_words_lem rounds n pre [] w r e l = absurd (omega arith)
  copy_words_lem zero zero pre (x ∷ xs) w r e l =
      let done : ltb (length pre) len ≡ false = ground arith in rw done (put_lem pre xs x 0)
  copy_words_lem zero (suc n) pre (x ∷ xs) w r e l = absurd (omega arith)
  copy_words_lem (suc m) zero pre (x ∷ xs) w r e l =
      let done : ltb (length pre) len ≡ false = ground arith in rw done (put_lem pre xs x 0)
  copy_words_lem (suc m) (suc n) pre (x ∷ xs) w r e l =
      let going : ltb (length pre) len ≡ true = ground arith in
      let (c, run, copied) =
        copy_bytes-Copied (memory.byte k) len addr (p.peek_text k tid (addr + length pre)) pre
          (x ∷ xs) (suc n) e l bytes in
      rw (going, run, ◌>>=◌)
        (after_word m (length pre + sizeof_long)
          (pre ++ fill (memory.byte k) (addr + length pre) (suc n) (x ∷ xs)) c
          (λ n' pre' rest' at e' l'. copy_words_lem m n' pre' rest' w (omega arith) e' l')
          (subst
            (λ z.
              Copied (memory.byte k) len addr z
                (pre ++ fill (memory.byte k) (addr + length pre) (suc n) (x ∷ xs)) c)
            (ap (λ z. length pre + z) (memory.length-peek k (addr + length pre))) copied))
    where
      bytes :
          (j : ℕ)
          → j < length (p.peek_text k tid (addr + length pre))
          → get_or (p.peek_text k tid (addr + length pre)) j 0
            ≡ memory.byte k (addr + length pre + j)
      bytes j h = memory.peek-byte k (addr + length pre) j (rw (memory.length-peek k _) at h)

  -- With a buffer of more than len bytes, umovestr ends within len rounds without a write outside
  -- of the buffer, and leaves there the string at the address, cut at len characters, and a null
  -- behind it, the rest of the buffer as it was
  pub umovestr-string_at :
      (laddr : List ℕ)
      → 0 < sizeof_long
      → len < length laddr
      → let text = string_at (memory.byte k) addr len in
        umovestr sizeof_long p k tid addr len laddr
        ≡ ok (text ++ 0 ∷ drop (suc (length text)) laddr)
  unfolding umovestr
  umovestr-string_at laddr w l =
      copy_words_lem len len [] laddr w (omega arith) (omega arith) l
      ∙ ap (λ a. ok (fill (memory.byte k) a len laddr)) (omega arith)
      ∙ ap ok (fill-string_at (memory.byte k) addr len laddr l)

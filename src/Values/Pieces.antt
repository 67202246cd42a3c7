-- ===== src/Values/Pieces.antt =====
-- The quoted strings and the formats of utrace-0.1/display_args.c lie within one line.
use utrace.Common.{
  ℕ, zero, suc, ◌+◌, ◌-◌, ◌^◌, ◌≡◌, refl, subst, true, false, Bool, List, [], ◌∷◌, ◌++◌, Option,
  none, some, ◌==◌, if◌then◌else◌, leb, ltb, length, replicate,
}
use utrace.Common.Int.{ℤ, pos}
use utrace.Run.{Run, Fault, ok, fault, undefined, ◌>>=◌}
use utrace.Ptrace.{Ptrace}
use utrace.Layout.{display_char}
use utrace.Callstack.{element_at}
use utrace.Strings.{umovestr}
use utrace.Strings.Shown.{
  min_ℤ, buffer_size, copy_length, shown_length, quote, dots, show_chars, show_buffer,
  display_string,
}
use utrace.Printf.Plain.{IsPlain, append-IsPlain, if-IsPlain, display_char-IsPlain}
use utrace.Values.{show_format}

-- Whatever the run ends with satisfies `P`.
abbrev pub Gives {ℓ κ} : {A : Type ℓ} → (A → Type κ) → Run A → Type (ℓ ⊔ κ)
Gives {A} P r = (a : A) → r ≡ ok a → P a

pub ok-Gives {ℓ κ} : {A : Type ℓ} (P : A → Type κ) (t : A) → P t → Gives P (ok t)
ok-Gives P t h a e = subst P (cc e) h

pub fault-Gives {ℓ κ} : {A : Type ℓ} (P : A → Type κ) (c : Fault) → Gives P (fault c)
fault-Gives P c a e = absurd (cc e)

pub bind-Gives {ℓ κ ι} :
    {A : Type ℓ} {B : Type κ} (Q : A → Type ι) (P : B → Type ι) (m : Run A) (f : A → Run B)
    → Gives Q m
    → ((a : A) → Q a → Gives P (f a))
    → Gives P (m >>= f)
bind-Gives Q P (fault c) f g h b e = absurd (cc e)
bind-Gives Q P (ok a) f g h b e = h a (g a refl) b e

-- Nothing is asked of the value.
abbrev pub Anything {ℓ} : {A : Type ℓ} → A → Type 0
Anything a = Unit {0}

pub Anything-Gives {ℓ} : {A : Type ℓ} (r : Run A) → Gives Anything r
Anything-Gives r a e = tt

pub if-Gives {ℓ κ} :
    {A : Type ℓ} (P : A → Type κ) (b : Bool) (r s : Run A)
    → Gives P r
    → Gives P s
    → Gives P (if b then r else s)
if-Gives P true r s p q = p
if-Gives P false r s p q = q

show_chars-IsPlain :
    (str1 : List ℕ) (rounds i : ℕ) → Gives (λ r. IsPlain r.0) (show_chars str1 rounds i)
unfolding show_chars
show_chars-IsPlain str1 zero i = ok-Gives (λ r. IsPlain r.0) ([], i) refl
show_chars-IsPlain str1 (suc n) i =
    bind-Gives Anything (λ r. IsPlain r.0) (element_at str1 i) _ (Anything-Gives _)
      λ c _.
        if-Gives (λ r. IsPlain r.0) (c == 0) _ _ (ok-Gives (λ r. IsPlain r.0) ([], i) refl)
          (bind-Gives (λ r. IsPlain r.0) (λ r. IsPlain r.0) (show_chars str1 n (i + 1)) _
            (show_chars-IsPlain str1 n (i + 1))
            λ r h.
              ok-Gives (λ r. IsPlain r.0) _
                (append-IsPlain (display_char (pos c)) r.0 (display_char-IsPlain (pos c)) h))

-- Between quotes, with what stands behind them.
pub quoted-IsPlain :
    (shown behind : List ℕ)
    → IsPlain shown
    → IsPlain behind
    → IsPlain (quote ∷ (shown ++ quote ∷ behind))
quoted-IsPlain shown behind p q = append-IsPlain shown (quote ∷ behind) p q

pub dots-IsPlain : (b : Bool) → IsPlain (if b then dots else [])
dots-IsPlain b = if-IsPlain b dots [] refl refl

show_buffer-IsPlain :
    (opt_s string_maxlength : ℤ) (str1 : List ℕ)
    → Gives IsPlain (show_buffer opt_s string_maxlength str1)
unfolding show_buffer
show_buffer-IsPlain opt_s string_maxlength str1 =
    bind-Gives (λ r. IsPlain r.0) IsPlain
      (show_chars str1 (shown_length (min_ℤ opt_s string_maxlength)) 0) _
      (show_chars-IsPlain str1 _ 0)
      λ r h.
        bind-Gives Anything IsPlain (element_at str1 r.1) _ (Anything-Gives _)
          λ c _. ok-Gives IsPlain _ (quoted-IsPlain r.0 _ h (dots-IsPlain _))

module _ (sizeof_long : ℕ) (p : Ptrace) (k : p.Kernel) (tid junk : ℕ) where
  pub display_string-IsPlain :
      (opt_s string_maxlength : ℤ) (address : ℕ)
      → Gives IsPlain (display_string sizeof_long p k tid junk opt_s string_maxlength address)
  unfolding display_string
  display_string-IsPlain opt_s string_maxlength address =
      if-Gives IsPlain (address == 0) _ _ (ok-Gives IsPlain _ refl) (
        if-Gives IsPlain (leb (2 ^ 31 - 3) (shown_length (min_ℤ opt_s string_maxlength))) _ _
          (fault-Gives IsPlain undefined) (sized (buffer_size (min_ℤ opt_s string_maxlength))))
    where
      sized :
          (o : Option ℕ)
          → Gives IsPlain (elim o [
            | none ↦ ok (63 ∷ 63 ∷ 63 ∷ [])
            | some size ↦
                umovestr sizeof_long p k tid address
                  (copy_length (min_ℤ opt_s string_maxlength))
                  (replicate size junk)
                >>= show_buffer opt_s string_maxlength
          ])
      sized none = ok-Gives IsPlain _ refl
      sized (some size) =
          bind-Gives Anything IsPlain
            (umovestr sizeof_long p k tid address (copy_length (min_ℤ opt_s string_maxlength))
              (replicate size junk))
            (show_buffer opt_s string_maxlength) (Anything-Gives _)
            λ str1 _. show_buffer-IsPlain opt_s string_maxlength str1

pub show_format-IsPlain :
    (str1 : List ℕ) (m rounds i len : ℕ)
    → Gives (λ r. IsPlain r.0) (show_format str1 m rounds i len)
unfolding show_format
show_format-IsPlain str1 m zero i len =
    if-Gives (λ r. IsPlain r.0) (ltb len (m + 1)) _ _ (fault-Gives _ undefined)
      (ok-Gives (λ r. IsPlain r.0) ([], i) refl)
show_format-IsPlain str1 m (suc n) i len =
    if-Gives (λ r. IsPlain r.0) (ltb len (m + 1)) _ _
      (bind-Gives Anything (λ r. IsPlain r.0) (element_at str1 i) _ (Anything-Gives _)
        λ c _.
          elim (c == 0)
            as (λ b.
              Gives {A = List ℕ × ℕ} (λ r. IsPlain r.0)
                (elim b [
                  | true ↦ ok ([], i)
                  | false ↦
                      show_format str1 m n (i + 1) (len + length (display_char (pos c))) >>= λ r.
                      ok (display_char (pos c) ++ r.0, r.1)
                ])) [
                  | true ↦ ok-Gives (λ r. IsPlain r.0) ([], i) refl
                  | false ↦
                      bind-Gives (λ r. IsPlain r.0) (λ r. IsPlain r.0)
                        (show_format str1 m n (i + 1) (len + length (display_char (pos c)))) _
                        (show_format-IsPlain str1 m n (i + 1) (len + length (display_char (pos c))))
                        λ r h.
                          ok-Gives (λ r. IsPlain r.0) _
                            (append-IsPlain (display_char (pos c)) r.0
                              (display_char-IsPlain (pos c)) h)
                ])
      (ok-Gives (λ r. IsPlain r.0) ([], i) refl)

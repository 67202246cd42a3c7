-- ===== src/Options/Names.antt =====
-- Option -e of utrace-0.1/options.c, and the functions that breakpoints_init of
-- utrace-0.1/breakpoints.c then keeps.
use utrace.Common.{
  ℕ, ◌≡◌, refl, ap, ◌∙◌, arith, true, false, Bool, Bool-cases, inl, inr, not, ◌||◌, List, [], ◌∷◌,
  ◌==◌, if◌then◌else◌, length,
}
use mathlib.Core.List.{reverse_aux}
use utrace.Dict.Keys.{same_string}
use utrace.Ptrace.{Ptrace}
use utrace.Arch.{Arch}
use utrace.Tracee.{LibrarySymbol}
use utrace.Options.{Options}
use utrace.Options.Strings.{join, AreParts, walk, visit_all, walk-join}
use utrace.Breakpoints.{is_empty, keeps, select_symbols}

-- ',' and '!'
abbrev pub comma : ℕ
comma = 44

abbrev pub bang : ℕ
bang = 33

abbrev pub begins_with : ℕ → List ℕ → Bool
begins_with c [] = false
begins_with c (d ∷ ds) = d == c

-- `while(*str_e)`: each name goes to the head of `opt_e`.
unfoldable pub add_names : List ℕ → List (List ℕ) → List (List ℕ)
unfolding walk
add_names str_e opt_e = walk comma (λ name names. name ∷ names) (length str_e) str_e opt_e

-- `case 'e'`
unfoldable pub option_e : List ℕ → Options → Options
unfolding add_names
option_e [] o = o
option_e (c ∷ cs) o =
    if c == bang
    then record o { opt_e_enable = false; opt_e = add_names cs o.opt_e }
    else record o { opt_e = add_names (c ∷ cs) o.opt_e }

abbrev pub mentions : List (List ℕ) → List ℕ → Bool
mentions [] name = false
mentions (n ∷ ns) name = same_string name n || mentions ns name

-- The functions whose names are mentioned, or those whose names are not.
abbrev pub chosen : (mentioned : Bool) → List (List ℕ) → List LibrarySymbol → List LibrarySymbol
chosen mentioned names [] = []
chosen mentioned names (s ∷ ss) =
    if mentions names s.name
    then (if mentioned then s ∷ chosen mentioned names ss else chosen mentioned names ss)
    else (if mentioned then chosen mentioned names ss else s ∷ chosen mentioned names ss)

visit_all-reverse_aux :
    (names acc : List (List ℕ))
    → visit_all comma (λ name ns. name ∷ ns) names acc ≡ reverse_aux names acc
visit_all-reverse_aux [] acc = refl
visit_all-reverse_aux (n ∷ ns) acc = visit_all-reverse_aux ns (n ∷ acc)

add_names-join :
    (names acc : List (List ℕ))
    → AreParts comma names
    → add_names (join comma names) acc ≡ reverse_aux names acc
unfolding add_names
add_names-join names acc h =
    walk-join comma (λ name ns. name ∷ ns) names (length (join comma names)) acc h (omega arith)
    ∙ visit_all-reverse_aux names acc

or_swap : (a b c : Bool) → a || (b || c) ≡ (b || a) || c
or_swap true true c = refl
or_swap true false c = refl
or_swap false true c = refl
or_swap false false c = refl

mentions-reverse_aux :
    (names acc : List (List ℕ)) (name : List ℕ)
    → mentions (reverse_aux names acc) name ≡ mentions names name || mentions acc name
mentions-reverse_aux [] acc name = refl
mentions-reverse_aux (n ∷ ns) acc name =
    mentions-reverse_aux ns (n ∷ acc) name
    ∙ or_swap (mentions ns name) (same_string name n) (mentions acc name)

or_false : (a : Bool) → a || false ≡ a
or_false true = refl
or_false false = refl

option_e-plain :
    (str : List ℕ) (o : Options)
    → begins_with bang str ≡ false
    → o.opt_e ≡ []
    → o.opt_e_enable ≡ true
    → ((option_e str o).opt_e ≡ add_names str []) × ((option_e str o).opt_e_enable ≡ true)
unfolding option_e add_names
option_e-plain [] o plain empty on = (empty, on)
option_e-plain (c ∷ cs) o plain empty on = rw plain (ap (λ es. add_names (c ∷ cs) es) empty, on)

if_same : (b c : Bool) → (if b then c else c) ≡ c
if_same true c = refl
if_same false c = refl

either_way {ℓ} :
    {A : Type ℓ} (mentioned enable : Bool) (a b : A)
    → (if (if mentioned then enable else not enable) then a else b)
      ≡ (if mentioned then (if enable then a else b) else (if enable then b else a))
either_way true true a b = refl
either_way true false a b = refl
either_way false true a b = refl
either_way false false a b = refl

module _ (arch : Arch) (p : Ptrace) where
  keeps-mentions :
      (enable : Bool) (names : List (List ℕ)) (name : List ℕ) (keep : Bool)
      → keeps arch p enable names name keep ≡ (if mentions names name then enable else keep)
  unfolding keeps
  keeps-mentions enable [] name keep = refl
  keeps-mentions enable (n ∷ ns) name keep = elim (Bool-cases (same_string name n)) [
    | inl same ↦ rw same (keeps-mentions enable ns name enable ∙ if_same (mentions ns name) enable)
    | inr other ↦ rw other (keeps-mentions enable ns name keep)
  ]

  select_symbols-chosen :
      (o : Options) (names : List (List ℕ)) (syms : List LibrarySymbol)
      → ((name : List ℕ) → mentions o.opt_e name ≡ mentions names name)
      → select_symbols arch p o syms ≡ chosen o.opt_e_enable names syms
  unfolding select_symbols
  select_symbols-chosen o names [] h = refl
  select_symbols-chosen o names (s ∷ ss) h =
      rw
        (
          keeps-mentions o.opt_e_enable o.opt_e s.name (not o.opt_e_enable),
          h s.name,
          select_symbols-chosen o names ss h,
        )
        (either_way (mentions names s.name) o.opt_e_enable (s ∷ chosen o.opt_e_enable names ss)
          (chosen o.opt_e_enable names ss))

  add_names-mentions :
      (names : List (List ℕ)) (name : List ℕ)
      → AreParts comma names
      → mentions (add_names (join comma names) []) name ≡ mentions names name
  add_names-mentions names name parts =
      ap (λ es. mentions es name) (add_names-join names [] parts)
      ∙ mentions-reverse_aux names [] name
      ∙ or_false (mentions names name)

  -- The filter of breakpoints_init over all functions of the file.
  pub select_symbols-option_e :
      (o : Options) (names : List (List ℕ)) (syms : List LibrarySymbol)
      → AreParts comma names
      → o.opt_e ≡ []
      → o.opt_e_enable ≡ true
      → begins_with bang (join comma names) ≡ false
      → (select_symbols arch p (option_e (join comma names) o) syms ≡ chosen true names syms)
        × (select_symbols arch p (option_e (bang ∷ join comma names) o) syms
            ≡ chosen false names syms)
  unfolding option_e
  select_symbols-option_e o names syms parts empty on plain =
      let shown = option_e-plain (join comma names) o plain empty on in
      (
        select_symbols-chosen (option_e (join comma names) o) names syms
              (λ name. ap (λ es. mentions es name) shown.0 ∙ add_names-mentions names name parts)
            ∙ ap (λ b. chosen b names syms) shown.1,
        select_symbols-chosen (option_e (bang ∷ join comma names) o) names syms (λ name.
            ap (λ es. mentions (add_names (join comma names) es) name) empty
            ∙ add_names-mentions names name parts),
      )

  -- A list of at least one name leaves opt_e not null, and -L as it was.
  pub option_e-opt_e :
      (o : Options) (n : List ℕ) (ns : List (List ℕ))
      → AreParts comma (n ∷ ns)
      → o.opt_e ≡ []
      → o.opt_e_enable ≡ true
      → begins_with bang (join comma (n ∷ ns)) ≡ false
      → (is_empty arch p (option_e (join comma (n ∷ ns)) o).opt_e ≡ false)
        × (is_empty arch p (option_e (bang ∷ join comma (n ∷ ns)) o).opt_e ≡ false)
  unfolding option_e
  option_e-opt_e o n ns parts empty on plain =
      let shown = option_e-plain (join comma (n ∷ ns)) o plain empty on in
      (
        ap (λ es. is_empty arch p es) (shown.0 ∙ add_names-join (n ∷ ns) [] parts)
            ∙ reverse_aux_not_empty ns n [],
        ap (λ es. is_empty arch p (add_names (join comma (n ∷ ns)) es)) empty
            ∙ ap (λ es. is_empty arch p es) (add_names-join (n ∷ ns) [] parts)
            ∙ reverse_aux_not_empty ns n [],
      )
    where
      reverse_aux_not_empty :
          (xs : List (List ℕ)) (y : List ℕ) (ys : List (List ℕ))
          → is_empty arch p (reverse_aux xs (y ∷ ys)) ≡ false
      reverse_aux_not_empty [] y ys = refl
      reverse_aux_not_empty (x ∷ xs) y ys = reverse_aux_not_empty xs x (y ∷ ys)

  pub option_e-opt_L : (arg : List ℕ) (o : Options) → (option_e arg o).opt_L ≡ o.opt_L
  unfolding option_e
  option_e-opt_L [] o = refl
  option_e-opt_L (c ∷ cs) o = elim (Bool-cases (c == bang)) [
    | inl hides ↦ rw hides refl
    | inr shows ↦ rw shows refl
  ]

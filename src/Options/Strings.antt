-- ===== src/Options/Strings.antt =====
-- How utrace-0.1/options.c walks over a string with `strchr`: from one separator to the next.
use utrace.Common.{
  ℕ, zero, suc, ◌≤◌, ◌≡◌, refl, ap, ◌∙◌, arith, true, Bool, Bool-cases, inl, inr, not, ◌&&◌, List,
  [], ◌∷◌, ◌++◌, Option, none, some, ◌==◌, ==_refl, if◌then◌else◌, length, length-append,
}

-- What stands before the first `sep`, and what stands behind it if there is one.
unfoldable pub strchr_split : ℕ → List ℕ → List ℕ × Option (List ℕ)
strchr_split sep [] = ([], none)
strchr_split sep (c ∷ cs) =
    let (before, after) = strchr_split sep cs in
    if c == sep then ([], some cs) else (c ∷ before, after)

abbrev pub lacks : ℕ → List ℕ → Bool
lacks sep [] = true
lacks sep (c ∷ cs) = not (c == sep) && lacks sep cs

abbrev pub join : ℕ → List (List ℕ) → List ℕ
join sep [] = []
join sep (s ∷ []) = s
join sep (s ∷ t ∷ ts) = s ++ sep ∷ join sep (t ∷ ts)

-- Strings that a separator can hold apart; only the last must not be empty.
pub data AreParts (sep : ℕ) : List (List ℕ) → Type 0 where
  no_part : AreParts sep []
  last_part : (c : ℕ) (cs : List ℕ) → lacks sep (c ∷ cs) ≡ true → AreParts sep ((c ∷ cs) ∷ [])
  next_part :
      (s t : List ℕ) (ts : List (List ℕ))
      → lacks sep s ≡ true
      → AreParts sep (t ∷ ts)
      → AreParts sep (s ∷ t ∷ ts)

pub strchr_split-lacks :
    (sep : ℕ) (s : List ℕ) → lacks sep s ≡ true → strchr_split sep s ≡ (s, none)
unfolding strchr_split
strchr_split-lacks sep [] h = refl
strchr_split-lacks sep (c ∷ cs) h = elim (Bool-cases (c == sep)) [
  | inl here ↦ absurd (cc (rw here at h))
  | inr other ↦
      let rest : lacks sep cs ≡ true = rw other at h in
      rw (other, strchr_split, strchr_split-lacks sep cs rest) refl
]

pub strchr_split-join :
    (sep : ℕ) (s r : List ℕ) → lacks sep s ≡ true → strchr_split sep (s ++ sep ∷ r) ≡ (s, some r)
unfolding strchr_split
strchr_split-join sep [] r h = rw (strchr_split, ==_refl sep) refl
strchr_split-join sep (c ∷ cs) r h = elim (Bool-cases (c == sep)) [
  | inl here ↦ absurd (cc (rw here at h))
  | inr other ↦
      let rest : lacks sep cs ≡ true = rw other at h in
      rw (other, strchr_split, strchr_split-join sep cs r rest) refl
]

module _ {ℓ} {State : Type ℓ} (sep : ℕ) (visit : List ℕ → State → State) where
  -- `while (*str) { … strchr(str, sep) … }` with the number of rounds that are left.
  unfoldable pub walk : ℕ → List ℕ → State → State
  walk zero str st = st
  walk (suc n) [] st = st
  walk (suc n) (c ∷ cs) st =
      let (part, after) = strchr_split sep (c ∷ cs) in
      elim after [ none ↦ visit part st | some rest ↦ walk n rest (visit part st) ]

  abbrev pub visit_all : List (List ℕ) → State → State
  visit_all [] st = st
  visit_all (s ∷ ss) st = visit_all ss (visit s st)

  abbrev step : ℕ → State → List ℕ × Option (List ℕ) → State
  step n st (part, none) = visit part st
  step n st (part, some rest) = walk n rest (visit part st)

  -- As many rounds as there are characters are enough.
  pub walk-join :
      (parts : List (List ℕ)) (n : ℕ) (st : State)
      → AreParts sep parts
      → length (join sep parts) ≤ n
      → walk n (join sep parts) st ≡ visit_all parts st
  unfolding walk
  walk-join _ zero st no_part h = refl
  walk-join _ (suc n) st no_part h = refl
  walk-join _ zero st (last_part c cs free) h = absurd (omega arith)
  walk-join _ (suc n) st (last_part c cs free) h =
      ap (step n st) (strchr_split-lacks sep (c ∷ cs) free)
  walk-join _ zero st (next_part s t ts free more) h =
      absurd (omega (arith, h, length-append s (sep ∷ join sep (t ∷ ts))))
  walk-join _ (suc n) st (next_part [] t ts free more) h =
      ap (step n st) (strchr_split-join sep [] (join sep (t ∷ ts)) free)
      ∙ walk-join (t ∷ ts) n (visit [] st) more (omega (arith, h))
  walk-join _ (suc n) st (next_part (c ∷ cs) t ts free more) h =
      ap (step n st) (strchr_split-join sep (c ∷ cs) (join sep (t ∷ ts)) free)
      ∙ walk-join (t ∷ ts) n (visit (c ∷ cs) st) more
          (omega (arith, h, length-append cs (sep ∷ join sep (t ∷ ts))))

  -- What every visit keeps, the walk keeps.
  pub walk-keeps {κ} :
      (P : State → Type κ)
      → ((s : List ℕ) (st : State) → P st → P (visit s st))
      → (n : ℕ) (str : List ℕ) (st : State) → P st
      → P (walk n str st)
  unfolding walk
  walk-keeps P keep zero str st v = v
  walk-keeps P keep (suc n) [] st v = v
  walk-keeps P keep (suc n) (c ∷ cs) st v =
      keep_step (strchr_split sep (c ∷ cs)) λ rest. walk-keeps P keep n rest _ (keep _ st v)
    where
      keep_step :
          (r : List ℕ × Option (List ℕ))
          → ((rest : List ℕ) → P (walk n rest (visit r.0 st)))
          → P (step n st r)
      keep_step (part, none) h = keep part st v
      keep_step (part, some rest) h = h rest

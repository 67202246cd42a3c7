-- ===== src/Options/Search.antt =====
-- `search_for_command` of utrace-0.1/options.c. The environment, `access` and PATH_MAX come from
-- outside. The rounds after the one that returns change nothing here.
use utrace.Common.{
  ℕ, ◌+◌, ◌<◌, ◌≤◌, ◌≡◌, ◌≢◌, ◌⊎◌, refl, ap, sym, subst, ==_iff, ◌∙◌, arith, true, false, Bool,
  Bool-cases, inl, inr, not, List, [], ◌∷◌, ◌++◌, Option, none, some, ◌==◌, if◌then◌else◌, length,
  leb, ltb, length-append,
}
use utrace.Run.{Run, ok, fault, undefined, exit_failure, Returns}
use utrace.Options.Strings.{lacks, join, AreParts, walk, visit_all, walk-join, walk-keeps}

-- '/' and ':'
abbrev pub slash : ℕ
slash = 47

abbrev pub colon : ℕ
colon = 58

-- How the loop stands; `overrun`: a write behind the end of `pathname`.
pub data Search : Type 0 where
  looking too_long overrun : Search
  found : List ℕ → Search

-- `n && pathname[n - 1] != '/'`
abbrev pub wants_slash : List ℕ → Bool
wants_slash [] = false
wants_slash (c ∷ []) = not (c == slash)
wants_slash (c ∷ d ∷ cs) = wants_slash (d ∷ cs)

-- What is put together in `pathname`, without its null.
abbrev pub candidate : (filename dir : List ℕ) → List ℕ
candidate filename dir = if wants_slash dir then dir ++ slash ∷ filename else dir ++ filename

module _ (path_max : ℕ) (access : List ℕ → Bool) where
  abbrev pub try_candidate : List ℕ → Search
  try_candidate pathname =
      if ltb path_max (length pathname + 1)
      then overrun
      else if access pathname
      then found pathname
      else looking

  -- One round of the loop over the directories.
  unfoldable pub look_in : (filename dir : List ℕ) → Search → Search
  look_in filename dir looking =
      if leb path_max (length dir + length filename + 1)
      then too_long
      else try_candidate (candidate filename dir)
  look_in filename dir st = st

  abbrev pub result : List ℕ → Search → Run (List ℕ)
  result filename looking = ok filename
  result filename too_long = fault exit_failure
  result filename overrun = fault undefined
  result filename (found pathname) = ok pathname

  -- `getenv("PATH")` may be null.
  unfoldable pub search_for_command : Option (List ℕ) → List ℕ → Run (List ℕ)
  unfolding walk look_in
  search_for_command path filename =
      if lacks slash filename
      then elim path [
        | none ↦ ok filename
        | some dirs ↦ result filename (walk colon (look_in filename) (length dirs) dirs looking)
      ]
      else ok filename

  candidate-length :
      (filename dir : List ℕ) → length (candidate filename dir) ≤ length dir + length filename + 1
  candidate-length filename dir = elim (Bool-cases (wants_slash dir)) [
    | inl with_slash ↦ rw with_slash (omega (arith, length-append dir (slash ∷ filename)))
    | inr without ↦ rw without (omega (arith, length-append dir filename))
  ]

  fits_in :
      (filename dir : List ℕ)
      → leb path_max (length dir + length filename + 1) ≡ false
      → ltb path_max (length (candidate filename dir) + 1) ≡ false
  fits_in filename dir h = ground (arith, candidate-length filename dir)

  look_in-keeps :
      (filename dir : List ℕ) (st : Search) → st ≢ overrun → look_in filename dir st ≢ overrun
  unfolding look_in
  look_in-keeps filename dir too_long h = h
  look_in-keeps filename dir overrun h = h
  look_in-keeps filename dir (found pathname) h = h
  look_in-keeps filename dir looking h =
      elim (Bool-cases (leb path_max (length dir + length filename + 1))) [
        | inl long ↦ rw long λ e. absurd (cc e)
        | inr short ↦ rw (short, fits_in filename dir short) (try-overrun (candidate filename dir))
      ]
    where
      try-overrun :
          (pathname : List ℕ) → (if access pathname then found pathname else looking) ≢ overrun
      try-overrun pathname = elim (Bool-cases (access pathname)) [
        | inl there ↦ rw there λ e. absurd (cc e)
        | inr missing ↦ rw missing λ e. absurd (cc e)
      ]

  abbrev pub Searched : List ℕ → Run (List ℕ) → Type 0
  Searched filename r = (r ≡ fault exit_failure) ⊎ (name : List ℕ) × (r ≡ ok name)

  result-Searched :
      (filename : List ℕ) (st : Search) → st ≢ overrun → Searched filename (result filename st)
  result-Searched filename looking h = inr (filename, refl)
  result-Searched filename too_long h = inl refl
  result-Searched filename overrun h = absurd (h refl)
  result-Searched filename (found pathname) h = inr (pathname, refl)

  -- For every PATH and every name search_for_command answers a name or leaves with exit(1): it
  -- never writes behind the end of its buffer
  pub search_for_command-Searched :
      (path : Option (List ℕ)) (filename : List ℕ)
      → Searched filename (search_for_command path filename)
  unfolding search_for_command
  search_for_command-Searched path filename = elim (Bool-cases (lacks slash filename)) [
    | inr with_slash ↦ inr (filename, rw with_slash refl)
    | inl plain ↦ rw plain (over path)
  ]
    where
      over :
          (path : Option (List ℕ))
          → Searched filename (elim path [
            | none ↦ ok filename
            | some dirs ↦ result filename (walk colon (look_in filename) (length dirs) dirs looking)
          ])
      over none = inr (filename, refl)
      over (some dirs) = result-Searched filename _ (
          walk-keeps colon (look_in filename) (λ st. st ≢ overrun) (look_in-keeps filename)
            (length dirs) dirs looking λ x. absurd (cc x))

  -- What a name is called in a directory of PATH: an empty one is the current one.
  pub data IsPathIn (filename dir : List ℕ) : List ℕ → Type 0 where
    current : dir ≡ [] → IsPathIn filename dir filename
    with_slash : (start : List ℕ) → dir ≡ start ++ 47 ∷ [] → IsPathIn filename dir (dir ++ filename)
    without_slash :
        (start : List ℕ) (c : ℕ)
        → dir ≡ start ++ c ∷ []
        → c ≢ 47
        → IsPathIn filename dir (dir ++ 47 ∷ filename)

  -- The name in the first directory where it can be executed, or else the name itself.
  pub data IsFirst (filename : List ℕ) : List (List ℕ) → List ℕ → Type 0 where
    nowhere : IsFirst filename [] filename
    here :
        (d : List ℕ) (ds : List (List ℕ)) (pathname : List ℕ)
        → IsPathIn filename d pathname
        → access pathname ≡ true
        → IsFirst filename (d ∷ ds) pathname
    later :
        (d : List ℕ) (ds : List (List ℕ)) (pathname result : List ℕ)
        → IsPathIn filename d pathname
        → access pathname ≡ false
        → IsFirst filename ds result
        → IsFirst filename (d ∷ ds) result

  pub data AllFit (filename : List ℕ) : List (List ℕ) → Type 0 where
    none_to_fit : AllFit filename []
    one_fits :
        (d : List ℕ) (ds : List (List ℕ))
        → length d + length filename + 1 < path_max
        → AllFit filename ds
        → AllFit filename (d ∷ ds)

  after_found :
      (filename pathname : List ℕ) (dirs : List (List ℕ))
      → visit_all colon (look_in filename) dirs (found pathname) ≡ found pathname
  unfolding look_in
  after_found filename pathname [] = refl
  after_found filename pathname (d ∷ ds) = after_found filename pathname ds

  -- How a directory ends.
  data Ending (dir : List ℕ) : Type 0 where
    empty : dir ≡ [] → wants_slash dir ≡ false → Ending dir
    slashed : (start : List ℕ) → dir ≡ start ++ slash ∷ [] → wants_slash dir ≡ false → Ending dir
    plain_end :
        (start : List ℕ) (c : ℕ)
        → dir ≡ start ++ c ∷ []
        → c ≢ slash
        → wants_slash dir ≡ true
        → Ending dir

  ending : (dir : List ℕ) → Ending dir
  ending [] = empty refl refl
  ending (c ∷ []) = elim (Bool-cases (c == slash)) [
    | inl same ↦ slashed [] (ap (λ x. x ∷ []) ((==_iff c slash).0 same)) (rw same refl)
    | inr other ↦
        plain_end [] c refl (λ e. absurd (cc (sym other ∙ (==_iff c slash).1 e))) (rw other refl)
  ]
  ending (c ∷ d ∷ cs) = elim (ending (d ∷ cs)) [
    | empty e w ↦ absurd (cc e)
    | slashed start e w ↦ slashed (c ∷ start) (ap (◌∷◌ c) e) w
    | plain_end start x e ne w ↦ plain_end (c ∷ start) x (ap (◌∷◌ c) e) ne w
  ]

  candidate-IsPathIn : (filename dir : List ℕ) → IsPathIn filename dir (candidate filename dir)
  candidate-IsPathIn filename dir = elim (ending dir) [
    | empty e w ↦ subst (IsPathIn filename dir) (sym (rw w (ap (λ d. d ++ filename) e))) (current e)
    | slashed start e w ↦ rw w (with_slash start e)
    | plain_end start c e ne w ↦ rw w (without_slash start c e ne)
  ]

  visit_all-IsFirst :
      (filename : List ℕ) (dirs : List (List ℕ))
      → AllFit filename dirs
      → Returns
          (result filename (visit_all colon (look_in filename) dirs looking))
          (IsFirst filename dirs)
  unfolding look_in
  visit_all-IsFirst filename _ none_to_fit = (filename, refl, nowhere)
  visit_all-IsFirst filename _ (one_fits d ds short more) =
      let room : leb path_max (length d + length filename + 1) ≡ false = ground arith in
      let pathname = candidate filename d in
      elim (Bool-cases (access pathname)) [
        | inl there ↦ (
          pathname,
          rw (look_in, room, fits_in filename d room, there)
              (ap (result filename) (after_found filename pathname ds)),
          here d ds pathname (candidate-IsPathIn filename d) there,
        )
        | inr missing ↦
            let (name, run, first) = visit_all-IsFirst filename ds more in
            (
              name,
              rw (look_in, room, fits_in filename d room, missing) run,
              later d ds pathname name (candidate-IsPathIn filename d) missing first,
            )
      ]

  -- For a name without a slash, and a PATH of directories joined by colons that leave room for it,
  -- search_for_command answers the path of the name in the first directory where it can be
  -- executed, or, where there is none, the name itself; the path is the name after the directory
  -- and a slash, without a second slash where the directory ends in one, and the bare name for an
  -- empty directory
  pub search_for_command-IsFirst :
      (dirs : List (List ℕ)) (filename : List ℕ)
      → AreParts 58 dirs
      → AllFit filename dirs
      → lacks 47 filename ≡ true
      → Returns (search_for_command (some (join 58 dirs)) filename) (IsFirst filename dirs)
  unfolding search_for_command
  search_for_command-IsFirst dirs filename parts fits plain =
      let (name, run, first) = visit_all-IsFirst filename dirs fits in
      (
        name,
        rw plain (
            ap (result filename) (
              walk-join colon (look_in filename) dirs (length (join colon dirs)) looking parts
                (omega arith))
            ∙ run),
        first,
      )

-- ===== src/Options/Settled.antt =====
-- What `process_options` of utrace-0.1/options.c leaves behind, whatever the arguments are.
use utrace.Common.{
  ℕ, zero, suc, ◌≤◌, ◌≡◌, ◌≢◌, ◌⊎◌, refl, sym, ◌∙◌, arith, true, false, ◌||◌, some, Bool,
  Bool-cases, inl, inr, not, ◌&&◌, List, [], ◌∷◌, ◌++◌, Option, none, ◌==◌, ==_iff, length,
  length-append,
}
use utrace.Common.Int.{ℤ}
use utrace.Run.{Run, ok, fault, exit_failure, exit_success, ◌>>=◌}
use utrace.Options.{Options}
use utrace.Options.Names.{option_e, bang}
use utrace.Options.Search.{search_for_command-Searched}
use utrace.Options.Parsing.{
  max_library, Getopt, align, expr, library, indent, output, pid, strlen, user, count, demangle,
  debug, follow, help, pointer, no_library_calls, relative, syscalls, absolute, time_spent, version,
  other, Settings, initial, add_library, process_option, process_all, finish, process_options,
}

-- The array of -l keeps its bounds, and -i is off.
pub record IsBounded (s : Settings) : Type 0 where
  pub libraries : length s.library ≤ max_library
  pub no_pointer : s.flags.opt_i ≡ false

-- Not both -r and -t, and a command or a process to trace.
pub record IsComplete (s : Settings) : Type 0 where
  pub one_time : (s.opt_r ≡ 0) ⊎ (s.opt_t ≡ 0)
  pub target : (s.command ≢ none) ⊎ (s.opt_p ≢ [])

-- The program ends by `exit`, or it goes on with settings that are well.
pub data Settles (P : Settings → Type 0) : Run Settings → Type 0 where
  exits_well : Settles P (fault exit_success)
  exits_ill : Settles P (fault exit_failure)
  goes_on : (s : Settings) → P s → Settles P (ok s)

bind-Settles :
    {P Q : Settings → Type 0} (m : Run Settings) (f : Settings → Run Settings)
    → Settles P m
    → ((s : Settings) → P s → Settles Q (f s))
    → Settles Q (m >>= f)
bind-Settles _ f exits_well k = exits_well
bind-Settles _ f exits_ill k = exits_ill
bind-Settles _ f (goes_on s v) k = k s v

list_cases {ℓ} : {A : Type ℓ} (xs : List A) → (xs ≡ []) ⊎ (x : A) × (ys : List A) × (xs ≡ x ∷ ys)
list_cases [] = inl refl
list_cases (x ∷ xs) = inr (x, xs, refl)

option_e-opt_i : (arg : List ℕ) (o : Options) → (option_e arg o).opt_i ≡ o.opt_i
unfolding option_e
option_e-opt_i [] o = refl
option_e-opt_i (c ∷ cs) o = elim (Bool-cases (c == bang)) [
  | inl hides ↦ rw hides refl
  | inr shows ↦ rw shows refl
]

-- --indent, for which getopt has no argument.
abbrev pub is_bare_indent : Getopt → Bool
is_bare_indent (indent none) = true
is_bare_indent g = false

abbrev pub has_bare_indent : List Getopt → Bool
has_bare_indent [] = false
has_bare_indent (g ∷ gs) = is_bare_indent g || has_bare_indent gs

module _ (atoi : List ℕ → ℤ) (opens : List ℕ → Bool) where
  same_lists :
      (s s' : Settings)
      → IsBounded s
      → s'.library ≡ s.library
      → s'.flags.opt_i ≡ s.flags.opt_i
      → Settles IsBounded (ok s')
  same_lists s s' v l f =
      goes_on s' (record { libraries = rw l (v.libraries); no_pointer = f ∙ v.no_pointer })

  add_library-Settles :
      (f : List ℕ) (s : Settings) → IsBounded s → Settles IsBounded (add_library atoi opens f s)
  unfolding add_library
  add_library-Settles f s v = elim (Bool-cases (length s.library == max_library)) [
    | inl full ↦ rw (add_library, full) exits_ill
    | inr room ↦
        rw (add_library, room)
          (goes_on _ (record { libraries = room_for room; no_pointer = v.no_pointer }))
  ]
    where
      room_for :
          (length s.library == max_library) ≡ false → length (s.library ++ f ∷ []) ≤ max_library
      room_for h =
          let below : length s.library ≢ max_library =
            λ e. absurd (cc (sym h ∙ (==_iff _ _).1 e)) in
          omega (arith, length-append s.library (f ∷ []), v.libraries, below)

  process_option-Settles :
      (g : Getopt) (s : Settings)
      → IsBounded s
      → is_bare_indent g ≡ false
      → Settles IsBounded (process_option atoi opens g s)
  unfolding process_option
  process_option-Settles (align a) s v told = same_lists s _ v refl refl
  process_option-Settles (expr a) s v told = same_lists s _ v refl (option_e-opt_i a s.flags)
  process_option-Settles (library a) s v told = add_library-Settles a s v
  process_option-Settles (indent (some a)) s v told = same_lists s _ v refl refl
  process_option-Settles (indent none) s v told = absurd (cc told)
  process_option-Settles (output a) s v told = elim (Bool-cases (opens a)) [
    | inl opened ↦ rw (process_option, opened) (same_lists s _ v refl refl)
    | inr closed ↦ rw (process_option, closed) exits_ill
  ]
  process_option-Settles (pid a) s v told = same_lists s _ v refl refl
  process_option-Settles (strlen a) s v told = same_lists s _ v refl refl
  process_option-Settles (user a) s v told = same_lists s _ v refl refl
  process_option-Settles count s v told = same_lists s _ v refl refl
  process_option-Settles demangle s v told = same_lists s _ v refl refl
  process_option-Settles debug s v told = same_lists s _ v refl refl
  process_option-Settles follow s v told = same_lists s _ v refl refl
  process_option-Settles help s v told = exits_well
  process_option-Settles pointer s v told = same_lists s _ v refl refl
  process_option-Settles no_library_calls s v told = same_lists s _ v refl refl
  process_option-Settles relative s v told = same_lists s _ v refl refl
  process_option-Settles syscalls s v told = same_lists s _ v refl refl
  process_option-Settles absolute s v told = same_lists s _ v refl refl
  process_option-Settles time_spent s v told = same_lists s _ v refl refl
  process_option-Settles version s v told = exits_well
  process_option-Settles other s v told = exits_ill

  process_all-Settles :
      (gs : List Getopt) (s : Settings)
      → IsBounded s
      → has_bare_indent gs ≡ false
      → Settles IsBounded (process_all atoi opens gs s)
  unfolding process_all
  process_all-Settles [] s v told = goes_on s v
  process_all-Settles (g ∷ gs) s v told =
      bind-Settles _ _ (process_option-Settles g s v (ground (arith, told)))
        λ s' v'. process_all-Settles gs s' v' (ground (arith, told))

  module _ (path_max : ℕ) (access : List ℕ → Bool) (path : Option (List ℕ)) where
    abbrev pub IsSettled : Settings → Type 0
    IsSettled s = IsBounded s × IsComplete s

    times_lem : (r t : ℕ) → (not (r == 0) && not (t == 0)) ≡ false → (r ≡ 0) ⊎ (t ≡ 0)
    times_lem zero t h = inl refl
    times_lem (suc r) zero h = inr refl
    times_lem (suc r) (suc t) h = ground arith

    finish-Settles :
        (args : List (List ℕ)) (s : Settings)
        → IsBounded s
        → Settles IsSettled (finish atoi opens path_max access path args s)
    unfolding finish
    finish-Settles [] s v = elim (list_cases s.opt_p) [
      | inl nobody ↦ simp (finish, nobody) exits_ill
      | inr (q, qs, e) ↦ elim (Bool-cases (not (s.opt_r == 0) && not (s.opt_t == 0))) [
        | inl both ↦ simp (finish, e, both) exits_ill
        | inr fine ↦
            simp (finish, e, fine)
              (goes_on s (
                v,
                record {
                  one_time = times_lem s.opt_r s.opt_t fine;
                  target = inr λ z. absurd (cc (sym e ∙ z));
                },
              ))
      ]
    ]
    finish-Settles (arg ∷ args) s v = elim (Bool-cases (not (s.opt_r == 0) && not (s.opt_t == 0))) [
      | inl both ↦ simp (finish, both) exits_ill
      | inr fine ↦ elim (search_for_command-Searched path_max access path arg) [
        | inl long ↦ simp (finish, fine, long, ◌>>=◌) exits_ill
        | inr (name, e) ↦
            simp (finish, fine, e, ◌>>=◌)
              (goes_on _ (
                record { libraries = v.libraries; no_pointer = v.no_pointer },
                record {
                  one_time = times_lem s.opt_r s.opt_t fine;
                  target = inl λ z. absurd (cc z);
                },
              ))
      ]
    ]

    -- Whatever getopt answers, but for an option --indent without an argument, process_options
    -- never fails but by exit, and the settings it returns have at most 30 libraries, -i off, not
    -- both -r and -t, and a command or a process to attach to
    pub process_options-Settles :
        (getopts : List Getopt) (args : List (List ℕ))
        → has_bare_indent getopts ≡ false
        → Settles IsSettled (process_options atoi opens path_max access path getopts args)
    unfolding process_options
    process_options-Settles getopts args told =
        bind-Settles _ _
          (process_all-Settles getopts initial
            (record { libraries = omega arith; no_pointer = refl }) told)
          (finish-Settles args)

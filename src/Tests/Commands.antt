-- ===== src/Tests/Commands.antt =====
-- Command lines and strings of a tracee.
use utrace.Common.{
  ℕ, suc, ◌≡◌, refl, arith, true, false, Bool, List, [], ◌∷◌, ◌++◌, none, some, ◌==◌, if◌then◌else◌,
  length, replicate,
}
use utrace.Common.Int.{ℤ, pos}
use utrace.Arch.{i386}
use utrace.Tracee.{Process, LibrarySymbol}
use utrace.Run.{ok, Returns}
use utrace.Dict.Keys.{same_string}
use utrace.Options.Strings.{join, AreParts, last_part, next_part}
use utrace.Options.Search.{
  Searched, search_for_command, search_for_command-Searched, AllFit, none_to_fit, one_fits, IsFirst,
  search_for_command-IsFirst,
}
use utrace.Options.Names.{option_e, chosen}
use utrace.Options.Kept.{IsKept, breakpoints_init-option_e}
use utrace.Options.Parsing.{library, relative, process_options}
use utrace.Options.Settled.{Settles, IsSettled, process_options-Settles}
use utrace.Breakpoints.{breakpoints_init}
use utrace.Config.{drop, take}
use utrace.Layout.{display_char}
use utrace.Strings.Shown.{display_string}
use utrace.Strings.Quoted.{quoted, display_string-quoted}
use utrace.Strings.{umovestr}
use utrace.Strings.Umovestr.{string_at, umovestr-string_at}
use utrace.Tests.Machine.{
  quiet, process_of, resting, fits, machine, machine-IsMemory, callee, plain,
}

-- The directories "/a" and "/b"; only "/b/x" can be executed.
abbrev directories : List (List ℕ)
directories = (47 ∷ 97 ∷ []) ∷ (47 ∷ 98 ∷ []) ∷ []

directories-AreParts : AreParts 58 directories
directories-AreParts = next_part (47 ∷ 97 ∷ []) (47 ∷ 98 ∷ []) [] refl (last_part 47 (98 ∷ []) refl)

abbrev only_b : List ℕ → Bool
only_b name = same_string name (47 ∷ 98 ∷ 47 ∷ 120 ∷ [])

directories-AllFit : AllFit 4096 only_b (120 ∷ []) directories
directories-AllFit = one_fits _ _ (omega arith) (one_fits _ _ (omega arith) none_to_fit)

search_for_command-Searched_example :
    Searched 4096 only_b
      (120 ∷ [])
      (search_for_command 4096 only_b (some (join 58 directories)) (120 ∷ []))
search_for_command-Searched_example =
    search_for_command-Searched 4096 only_b (some (join 58 directories)) (120 ∷ [])

search_for_command-IsFirst_example :
    Returns
      (search_for_command 4096 only_b (some (join 58 directories)) (120 ∷ []))
      (IsFirst 4096 only_b (120 ∷ []) directories)
search_for_command-IsFirst_example =
    search_for_command-IsFirst 4096 only_b directories (120 ∷ []) directories-AreParts
      directories-AllFit refl

found_b :
    search_for_command 4096 only_b (some (join 58 directories)) (120 ∷ [])
    ≡ ok (47 ∷ 98 ∷ 47 ∷ 120 ∷ [])
unfolding search_for_command same_string utrace.Options.Strings.strchr_split
found_b = refl

-- -e f,g
abbrev names : List (List ℕ)
names = (102 ∷ []) ∷ (103 ∷ []) ∷ []

abbrev other_symbol : LibrarySymbol
other_symbol = record { name = 104 ∷ []; enter_addr = 300 }

abbrev own_program : Process
own_program = record (process_of resting) { pid = 0; filename = some (47 ∷ []) }

abbrev own_symbols : List ℕ → List LibrarySymbol
own_symbols f = callee ∷ other_symbol ∷ []

-- Of the functions f and h, -e f,g keeps f, and -e !f,g keeps h.
kept_f : chosen true names (own_symbols []) ≡ callee ∷ []
unfolding same_string
kept_f = refl

breakpoints_init-option_e_example :
    Returns
      (breakpoints_init i386 machine (option_e (join 44 names) plain) own_symbols quiet own_program)
      (IsKept i386 machine (chosen true names (own_symbols (47 ∷ []))))
    × Returns
        (breakpoints_init i386 machine
          (option_e (33 ∷ join 44 names) plain)
          own_symbols
          quiet
          own_program)
        (IsKept i386 machine (chosen false names (own_symbols (47 ∷ []))))
breakpoints_init-option_e_example =
    breakpoints_init-option_e i386 machine plain (102 ∷ []) ((103 ∷ []) ∷ []) own_symbols quiet
      own_program (47 ∷ []) fits (next_part (102 ∷ []) (103 ∷ []) [] refl (last_part 103 [] refl))
      refl refl refl refl refl refl

abbrev number : List ℕ → ℤ
number s = pos 0

process_options-Settles_example : Settles (IsSettled number (λ f. true) 4096 only_b none) (
    process_options number
      (λ f. true)
      4096
      only_b
      none
      (relative ∷ library (108 ∷ []) ∷ [])
      ((120 ∷ []) ∷ []))
process_options-Settles_example =
    process_options-Settles number (λ f. true) 4096 only_b none (relative ∷ library (108 ∷ []) ∷ [])
      ((120 ∷ []) ∷ []) refl

-- The bytes from 250 on count up to 255 and then are 0.
abbrev text : ℕ → ℕ
text a = if a == 256 then 0 else a

umovestr-string_at_example :
    umovestr 4 machine text 7 250 10 (replicate 12 1)
    ≡ ok (
        string_at ((machine-IsMemory 7).byte text) 250 10
        ++ 0
          ∷ drop
              (suc (length (string_at ((machine-IsMemory 7).byte text) 250 10)))
              (replicate 12 1))
unfolding replicate
umovestr-string_at_example =
    umovestr-string_at 4 machine 7 (machine-IsMemory 7) text 250 10 (replicate 12 1) (omega arith)
      (omega arith)

display_string-quoted_example :
    display_string 4 machine text 7 1 (pos 3) (pos 100) 250
    ≡ ok (quoted true 3 (string_at ((machine-IsMemory 7).byte text) 250 4))
display_string-quoted_example =
    display_string-quoted 4 machine text 7 1 (machine-IsMemory 7) 3 100 250 (omega arith)
      (omega arith) (omega arith)

-- The string "a" is shown whole.
shows_a : quoted true 3 (97 ∷ []) ≡ 34 ∷ 97 ∷ 34 ∷ []
unfolding display_char take
shows_a = refl

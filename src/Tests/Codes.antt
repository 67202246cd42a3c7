-- ===== src/Tests/Codes.antt =====
-- The code of the small machine while breakpoints come and go.
use utrace.Common.{List, [], ◌∷◌, some, ℕ, ◌≡◌, refl, arith}
use utrace.Arch.{i386}
use utrace.Tracee.{LibrarySymbol, Process}
use utrace.Run.{ok, Returns}
use utrace.Breakpoints.{chosen_symbols, breakpoints_init, insert_breakpoint}
use utrace.Breakpoints.Store.{ptr_at, count}
use utrace.Breakpoints.Insert.{insert_breakpoint-Inserts}
use utrace.Breakpoints.Code.{IsCode}
use utrace.Breakpoints.Patches.{IsClear}
use utrace.Breakpoints.Changes.{History, done, insertion, changes-IsCode}
use utrace.Breakpoints.Init.{wanted_by, Prepared, breakpoints_init-Prepared}
use utrace.Tests.Machine.{
  callee, plain, machine, machine-IsMemory, fits, quiet, process_of, quiet-IsStore, resting,
}
use utrace.Tests.Tracing.{armed, no_count}

abbrev mine : Process
mine = process_of resting

pub nothing_wanted : (a : ℕ) → count quiet mine a ≡ 0
nothing_wanted a = no_count (ptr_at mine a)

nothing_in_the_way : IsClear i386 machine 7 (machine-IsMemory 7) quiet mine 100
nothing_in_the_way q st i = absurd (cc i.alive)

inserted : insert_breakpoint i386 machine quiet mine 100 ≡ ok (armed.0, armed.1)
inserted = (insert_breakpoint-Inserts i386 machine quiet mine 100 fits (quiet-IsStore resting)).1

one_insertion : History i386 machine 7 (machine-IsMemory 7) quiet mine armed.0 armed.1
one_insertion =
    insertion quiet mine 100 armed.0 armed.1 armed.0 armed.1 nothing_in_the_way inserted
      (done armed.0 armed.1)

changes-IsCode_example :
    IsCode i386 machine 7
      (machine-IsMemory 7)
      ((machine-IsMemory 7).byte quiet.kernel)
      armed.0
      armed.1
changes-IsCode_example =
    changes-IsCode i386 machine 7 (machine-IsMemory 7) quiet mine armed.0 armed.1 fits
      (quiet-IsStore resting) refl (λ (z : 7 ≡ 0). absurd (omega (arith, z))) nothing_wanted
      one_insertion

-- A program that does not run yet, with a function that its file lists twice.
abbrev new_program : Process
new_program = record (process_of resting) { pid = 0; filename = some (47 ∷ []) }

abbrev read_twice : List ℕ → List LibrarySymbol
read_twice f = callee ∷ callee ∷ []

two_wanted : wanted_by 100 (chosen_symbols i386 machine plain read_twice new_program) ≡ 2
unfolding wanted_by chosen_symbols
two_wanted = refl

breakpoints_init-Prepared_example :
    Returns
      (breakpoints_init i386 machine plain read_twice quiet new_program)
      (Prepared i386 machine plain read_twice quiet new_program)
breakpoints_init-Prepared_example =
    breakpoints_init-Prepared i386 machine plain read_twice quiet new_program fits refl

-- ===== src/Options/Kept.antt =====
-- What the option -e of utrace-0.1/options.c makes of `breakpoints_init` of utrace-0.1/breakpoints.c.
use utrace.Common.{ℕ, ◌≡◌, refl, ap, ◌∙◌, true, false, List, [], ◌∷◌, none, some}
use utrace.Ptrace.{Ptrace}
use utrace.Arch.{Arch, FitsWord}
use utrace.Tracee.{LibrarySymbol, Process}
use utrace.Run.{Returns}
use utrace.Options.{Options}
use utrace.Options.Strings.{join, AreParts}
use utrace.Options.Names.{
  begins_with, option_e, chosen, select_symbols-option_e, option_e-opt_e, option_e-opt_L,
}
use utrace.Breakpoints.{Core, is_empty, select_symbols, chosen_symbols, breakpoints_init}
use utrace.Breakpoints.Store.{count}
use utrace.Breakpoints.Init.{wanted_by, breakpoints_init-Prepared}

module _ (arch : Arch) (p : Ptrace) where
  filtered :
      (o : Options) (symbols : List ℕ → List LibrarySymbol) (proc : Process) (file : List ℕ)
      → o.opt_L ≡ true
      → is_empty arch p o.opt_e ≡ false
      → proc.filename ≡ some file
      → chosen_symbols arch p o symbols proc ≡ select_symbols arch p o (symbols file)
  unfolding chosen_symbols
  filtered o symbols proc file on some_names named = rw (named, on, some_names) refl

  -- The process has these symbols, and each address is wanted as often as one of them lies at it.
  pub record IsKept (fs : List LibrarySymbol) (r : Core p.Kernel × Process) : Type 0 where
    pub listed : r.1.list_of_symbols ≡ fs
    pub counted : (a : ℕ) → count r.0 r.1 a ≡ wanted_by a fs

  init-IsKept :
      (o : Options) (symbols : List ℕ → List LibrarySymbol) (s : Core p.Kernel) (proc : Process)
      (fs : List LibrarySymbol)
      → FitsWord arch
      → proc.breakpoints ≡ none
      → chosen_symbols arch p o symbols proc ≡ fs
      → Returns (breakpoints_init arch p o symbols s proc) (IsKept fs)
  init-IsKept o symbols s proc fs f no_table e =
      let (r, run, i) = breakpoints_init-Prepared arch p o symbols s proc f no_table in
      (r, run, record { listed = i.listed ∙ e; counted = λ a. i.counted a ∙ ap (wanted_by a) e })

  -- With -L not given, a trap instruction that fits a word and a process that has a file and no
  -- table of breakpoints, and for a list of at least one name, no name with a comma, the last not
  -- empty and the list not beginning with an exclamation mark: after the option -e with the names
  -- joined by commas, given once, breakpoints_init ends without a fault, the process has just the
  -- functions of the file with those names, and each address is wanted as often as one of them
  -- lies at it, by the low 32 bits; with an exclamation mark before the list, the same holds with
  -- just the others
  pub breakpoints_init-option_e :
      (o : Options) (n : List ℕ) (ns : List (List ℕ)) (symbols : List ℕ → List LibrarySymbol)
      (s : Core p.Kernel) (proc : Process) (file : List ℕ)
      → FitsWord arch
      → AreParts 44 (n ∷ ns)
      → begins_with 33 (join 44 (n ∷ ns)) ≡ false
      → o.opt_e ≡ []
      → o.opt_e_enable ≡ true
      → o.opt_L ≡ true
      → proc.filename ≡ some file
      → proc.breakpoints ≡ none
      → Returns
          (breakpoints_init arch p (option_e (join 44 (n ∷ ns)) o) symbols s proc)
          (IsKept (chosen true (n ∷ ns) (symbols file)))
        × Returns
            (breakpoints_init arch p (option_e (33 ∷ join 44 (n ∷ ns)) o) symbols s proc)
            (IsKept (chosen false (n ∷ ns) (symbols file)))
  breakpoints_init-option_e o n ns symbols s proc file f parts plain empty enabling on named
        no_table =
      let list = join 44 (n ∷ ns) in
      let shown = option_e list o in
      let hidden = option_e (33 ∷ list) o in
      let names = option_e-opt_e arch p o n ns parts empty enabling plain in
      let filter =
        select_symbols-option_e arch p o (n ∷ ns) (symbols file) parts empty enabling plain in
      (
        init-IsKept shown symbols s proc _ f no_table (
            filtered shown symbols proc file (option_e-opt_L arch p list o ∙ on) names.0 named
            ∙ filter.0),
        init-IsKept hidden symbols s proc _ f no_table (
            filtered hidden symbols proc file (option_e-opt_L arch p (33 ∷ list) o ∙ on) names.1
              named
            ∙ filter.1),
      )

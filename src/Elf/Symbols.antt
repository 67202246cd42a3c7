-- ===== src/Elf/Symbols.antt =====
-- The symbols that `read_elf` of utrace-0.1/elf.c finds, and what the libraries of -l change of them.
use utrace.Common.{
  ℕ, zero, suc, ◌+◌, ◌<◌, ◌≡◌, refl, ap, sym, ◌∙◌, arith, true, false, not, Bool, Bool-cases, inl,
  inr, ◌&&◌, List, [], ◌∷◌, some, Option-cases, ◌==◌, length, get_elem?,
}
use mathlib.Core.List.{reverse, reverse_aux}
use utrace.Dict.Keys.{same_string}
use utrace.Tracee.{LibrarySymbol}
use utrace.Run.{Run, ok, ◌>>=◌, Returns}
use utrace.Elf.{
  ElfClass, Sym, Image, Opened, Table, Ltelf, text_section, do_init_elf, do_load_elf_symtab,
  do_init_load_libraries, symbol_count, in_table, in_library, in_libraries, in_load_libraries,
  skip_library_symbols, add_local_symbol, has_code, is_global_function, section_name, is_wanted,
  add_local_symbols, over_table, read_elf,
}
use utrace.Elf.Functions.{text_functions, AreFunctions, text_functions-AreFunctions}

module _ (class : ElfClass) where
  -- The symbols and the strings of a table are there.
  abbrev pub IsReadable : Image → Table → Type 0
  IsReadable image t =
      (j : ℕ)
      → j < symbol_count class (some t)
      → (s : Sym) × (image.sym t.symtab j ≡ some s)
        × (n : List ℕ) × (image.str (t.strtab + s.st_name) ≡ some n)

  pub record HasDynamic (lte : Ltelf) : Type 0 where
    pub readable : (t : Table) → lte.dynamic ≡ some t → IsReadable lte.maddr t

  pub data HaveDynamic : List Ltelf → Type 0 where
    no_library : HaveDynamic []
    one_library :
        (l : Ltelf) (ls : List Ltelf) → HasDynamic l → HaveDynamic ls → HaveDynamic (l ∷ ls)

  -- The file's own symbols, with their names and those of their sections.
  pub record HasSymbols (lte : Ltelf) (t : Table) (syms : List Sym) (name section : ℕ → List ℕ)
      : Type 0 where
    pub table : lte.local ≡ some t
    pub count : symbol_count class (some t) ≡ length syms
    pub symbols : (j : ℕ) (s : Sym) → get_elem? syms j ≡ some s → lte.maddr.sym t.symtab j ≡ some s
    pub names :
        (j : ℕ) (s : Sym)
        → get_elem? syms j ≡ some s
        → lte.maddr.str (t.strtab + s.st_name) ≡ some (name s.st_name)
    pub sections :
        (j : ℕ) (s : Sym) → get_elem? syms j ≡ some s → section_name lte s ≡ ok (section s.st_shndx)

  is_wanted_lem :
      (lte : Ltelf) (s : Sym) (section : List ℕ)
      → section_name lte s ≡ ok section
      → is_wanted lte s
        ≡ ok (has_code s && (same_string section text_section && is_global_function s))
  unfolding is_wanted
  is_wanted_lem lte s section e = elim (Bool-cases (has_code s)) [
    | inl code ↦ rw (is_wanted, code, e, ◌>>=◌)
    | inr other ↦ rw (is_wanted, other)
  ]

  module _ (lte : Ltelf) (t : Table) (name section : ℕ → List ℕ) where
    add_local_symbols_lem :
        (syms : List Sym) (i : ℕ) (acc : List LibrarySymbol)
        → ((j : ℕ) (s : Sym)
            → get_elem? syms j ≡ some s
            → (lte.maddr.sym t.symtab (i + j) ≡ some s)
              × (lte.maddr.str (t.strtab + s.st_name) ≡ some (name s.st_name))
              × (section_name lte s ≡ ok (section s.st_shndx)))
        → add_local_symbols lte t (length syms) i acc
          ≡ ok (reverse_aux (text_functions name section syms) acc)
    unfolding add_local_symbols text_functions add_local_symbol
    add_local_symbols_lem [] i acc h = refl
    add_local_symbols_lem (s ∷ ss) i acc h = elim (Bool-cases (wanted_of s)) [
      | inl yes_wanted ↦
          rw
            (
              add_local_symbols,
              here,
              is_wanted_lem lte s (section s.st_shndx) (h 0 s refl).2,
              ◌>>=◌,
              yes_wanted,
              (h 0 s refl).1,
              text_functions,
            )
            (add_local_symbols_lem ss (i + 1) _ later)
      | inr not_wanted ↦
          rw
            (
              add_local_symbols,
              here,
              is_wanted_lem lte s (section s.st_shndx) (h 0 s refl).2,
              ◌>>=◌,
              not_wanted,
              text_functions,
            )
            (add_local_symbols_lem ss (i + 1) _ later)
    ]
      where
        wanted_of : Sym → Bool
        wanted_of x =
            has_code x && (same_string (section x.st_shndx) text_section && is_global_function x)

        here : lte.maddr.sym t.symtab i ≡ some s
        here = ap (lte.maddr.sym t.symtab) (omega arith) ∙ (h 0 s refl).0

        later :
            (j : ℕ) (x : Sym)
            → get_elem? ss j ≡ some x
            → (lte.maddr.sym t.symtab (i + 1 + j) ≡ some x)
              × (lte.maddr.str (t.strtab + x.st_name) ≡ some (name x.st_name))
              × (section_name lte x ≡ ok (section x.st_shndx))
        later j x e =
            let r = h (suc j) x e in (ap (lte.maddr.sym t.symtab) (omega arith) ∙ r.0, r.1, r.2)

  -- The search in the libraries of -l ends.
  in_table_lem :
      (func : List ℕ) (image : Image) (t : Table) (n j : ℕ)
      → n + j ≡ symbol_count class (some t)
      → IsReadable image t
      → (b : Bool) × (in_table func image t n j ≡ ok b)
  unfolding in_table
  in_table_lem func image t zero j e r = (false, refl)
  in_table_lem func image t (suc n) j e r =
      let (s, read_s, name, read_name) = r j (omega arith) in
      let (b, rest) = in_table_lem func image t n (j + 1) (omega arith) r in
      elim (Bool-cases (s.st_value == 0)) [
        | inl zero_value ↦ (b, rw (in_table, read_s, ◌>>=◌, zero_value, rest) refl)
        | inr valued ↦ elim (Bool-cases (same_string func name)) [
          | inl same ↦ (true, rw (in_table, read_s, ◌>>=◌, valued, read_name, same) refl)
          | inr other ↦ (b, rw (in_table, read_s, ◌>>=◌, valued, read_name, other, rest) refl)
        ]
      ]

  in_library_lem :
      (func : List ℕ) (l : Ltelf) → HasDynamic l → (b : Bool) × (in_library class func l ≡ ok b)
  unfolding in_library
  in_library_lem func l d = elim (Option-cases l.dynamic) [
    | inl none_there ↦ (false, rw (in_library, none_there) refl)
    | inr (t, there) ↦
        let n = symbol_count class (some t) in
        let (b, e) = in_table_lem func l.maddr t n 0 (omega arith) (d.readable t there) in
        (b, rw (in_library, there, e) refl)
  ]

  in_libraries_lem :
      (func : List ℕ) (ls : List Ltelf)
      → HaveDynamic ls
      → (b : Bool) × (in_libraries class func ls ≡ ok b)
  unfolding in_libraries
  in_libraries_lem func [] no_library = (false, refl)
  in_libraries_lem func (l ∷ ls) (one_library _ _ d ds) =
      let (b, here) = in_library_lem func l d in
      let (b', rest) = in_libraries_lem func ls ds in
      elim (Bool-cases b) [
        | inl found ↦ (true, rw (in_libraries, here, ◌>>=◌, found) refl)
        | inr other ↦ (b', rw (in_libraries, here, ◌>>=◌, other, rest) refl)
      ]

  in_load_libraries_lem :
      (func : List ℕ) (ls : List Ltelf)
      → HaveDynamic ls
      → (b : Bool) × (in_load_libraries class func ls ≡ ok b)
  unfolding in_load_libraries
  in_load_libraries_lem func [] no_library = (true, refl)
  in_load_libraries_lem func (l ∷ ls) d = in_libraries_lem func (l ∷ ls) d

  -- The walk over the dynamic symbols adds nothing.
  skip_library_symbols_lem :
      (libs : List Ltelf) (image : Image) (t : Table) (n i : ℕ) (syms : List LibrarySymbol)
      → HaveDynamic libs
      → n + i ≡ symbol_count class (some t)
      → IsReadable image t
      → skip_library_symbols class libs image t n i syms ≡ ok syms
  unfolding skip_library_symbols
  skip_library_symbols_lem libs image t zero i syms ds e r = refl
  skip_library_symbols_lem libs image t (suc n) i syms ds e r =
      let (s, read_s, name, read_name) = r i (omega arith) in
      let (b, found) = in_load_libraries_lem name libs ds in
      let rest = skip_library_symbols_lem libs image t n (i + 1) syms ds (omega arith) r in
      elim (Bool-cases (s.st_shndx == 0 && not (s.st_value == 0))) [
        | inl undefined_one ↦
            rw (skip_library_symbols, read_s, ◌>>=◌, undefined_one, read_name, found, rest) refl
        | inr other ↦ rw (skip_library_symbols, read_s, ◌>>=◌, other, rest) refl
      ]

  module _ (open_file : List ℕ → Opened) where
    -- What the first part of `read_elf` makes of the file and of the libraries of -l.
    pub record Loads (library : List (List ℕ)) (filename : List ℕ) (lte : Ltelf) (libs : List Ltelf)
        : Type 0 where
      pub opens : Ltelf
      pub file : do_init_elf class open_file filename ≡ ok opens
      pub loaded : do_load_elf_symtab opens true ≡ ok lte
      pub libraries : do_init_load_libraries class open_file library ≡ ok libs
      pub dynamic : HasDynamic lte
      pub dynamics : HaveDynamic libs

    skip_lem :
        (libs : List Ltelf) (lte : Ltelf)
        → HaveDynamic libs
        → HasDynamic lte
        → over_table class lte.dynamic (λ t n. skip_library_symbols class libs lte.maddr t n 0) []
          ≡ ok []
    skip_lem libs lte ds d = elim (Option-cases lte.dynamic) [
      | inl none_there ↦ rw none_there refl
      | inr (t, there) ↦ rw there (
          skip_library_symbols_lem libs lte.maddr t (symbol_count class (some t)) 0 [] ds
            (omega arith) (d.readable t there))
    ]

    -- The same by the tests of the code.
    read_elf-text_functions :
        (library : List (List ℕ)) (filename : List ℕ) (lte : Ltelf) (libs : List Ltelf) (t : Table)
        (syms : List Sym) (name section : ℕ → List ℕ)
        → Loads library filename lte libs
        → HasSymbols lte t syms name section
        → read_elf class open_file library filename
          ≡ ok (reverse (text_functions name section syms))
    unfolding read_elf
    read_elf-text_functions library filename lte libs t syms name section l h =
        rw (read_elf, l.file, ◌>>=◌, l.loaded, l.libraries, skip_lem libs lte l.dynamics l.dynamic)
          (ap (λ x. over_table class x loop []) h.table
            ∙ ap (λ n. add_local_symbols lte t n 0 []) h.count
            ∙ add_local_symbols_lem lte t name section syms 0 [] λ j s e. (
              ap (lte.maddr.sym t.symtab) (omega arith) ∙ h.symbols j s e,
              h.names j s e,
              h.sections j s e,
            ))
      where
        loop : Table → ℕ → List LibrarySymbol → Run (List LibrarySymbol)
        loop u n = add_local_symbols lte u n 0

    -- Where the file and the libraries of -l load and their dynamic symbols can be read, and the
    -- symbols of the file with their names and the names of their sections can be read, read_elf
    -- ends without a fault with exactly those symbols of the file that have an address, a size and
    -- an st_other of 0, lie in the section .text, and have the type of a function (2) and the
    -- binding of a global symbol (1), the last of the table first
    pub read_elf-AreFunctions :
        (library : List (List ℕ)) (filename : List ℕ) (lte : Ltelf) (libs : List Ltelf) (t : Table)
        (syms : List Sym) (name section : ℕ → List ℕ)
        → Loads library filename lte libs
        → HasSymbols lte t syms name section
        → Returns
            (read_elf class open_file library filename)
            (λ r. (fs : List LibrarySymbol) × AreFunctions name section syms fs × (r ≡ reverse fs))
    read_elf-AreFunctions library filename lte libs t syms name section l h = (
      reverse (text_functions name section syms),
      read_elf-text_functions library filename lte libs t syms name section l h,
      (text_functions name section syms, text_functions-AreFunctions name section syms, refl),
    )

    -- Where a file loads with two lists of libraries for -l, and all symbols can be read, read_elf
    -- finds the same symbols with both
    pub read_elf-read_elf :
        (library library' : List (List ℕ)) (filename : List ℕ) (lte : Ltelf)
        (libs libs' : List Ltelf) (t : Table) (syms : List Sym) (name section : ℕ → List ℕ)
        → Loads library filename lte libs
        → Loads library' filename lte libs'
        → HasSymbols lte t syms name section
        → read_elf class open_file library filename ≡ read_elf class open_file library' filename
    read_elf-read_elf library library' filename lte libs libs' t syms name section l l' h =
        read_elf-text_functions library filename lte libs t syms name section l h
        ∙ sym (read_elf-text_functions library' filename lte libs' t syms name section l' h)

-- ===== src/Elf.antt =====
-- utrace-0.1/elf.c: the symbols of a file. Opening and mapping a file, and the layout of <elf.h>
-- behind a pointer into the mapping, come from outside; a read that the mapping does not hold is
-- undefined. The symbol tables are read as the i386 code reads them, without the #ifdef of sparc.
pub mod Functions
pub mod Symbols
pub mod Sections
use utrace.Common.{
  ℕ, zero, suc, ◌+◌, ◌-◌, ◌*◌, ◌/◌, ◌%◌, ◌^◌, Bool, true, false, not, ◌&&◌, List, [], ◌∷◌, Option,
  none, some, ◌==◌, if◌then◌else◌, ltb,
}
use utrace.Dict.Keys.{same_string}
use utrace.Tracee.{LibrarySymbol}
use utrace.Run.{Run, ok, fault, undefined, exit_failure, ◌>>=◌}

pub record Shdr : Type 0 where
  pub sh_name : ℕ
  pub sh_type : ℕ
  pub sh_offset : ℕ
  pub sh_size : ℕ
  pub sh_link : ℕ

pub record Sym : Type 0 where
  pub st_name : ℕ
  pub st_value : ℕ
  pub st_size : ℕ
  pub st_info : ℕ
  pub st_other : ℕ
  pub st_shndx : ℕ

-- A mapped file: two fields of its header, the section headers, the symbols of a table by the
-- table's offset and an index, and the strings by their offset.
pub record Image : Type 0 where
  pub is_elf : Bool
  pub e_shnum : ℕ
  pub e_shstrndx : ℕ
  pub shdr : ℕ → Option Shdr
  pub sym : ℕ → ℕ → Option Sym
  pub str : ℕ → Option (List ℕ)

-- What `open`, `fstat` and `mmap` make of a file name.
pub data Opened : Type 0 where
  no_file no_stat no_map : Opened
  mapped : (st_size : ℕ) → Image → Opened

-- A symbol table with the string table that belongs to it.
pub record Table : Type 0 where
  pub symtab : ℕ
  pub symtab_len : ℕ
  pub strtab : ℕ

-- `struct ltelf`; a table that was not found has a null pointer and length 0.
pub record Ltelf : Type 0 where
  pub maddr : Image
  pub dynamic : Option Table
  pub local : Option Table
  pub local_shstrtab : ℕ

abbrev pub sht_symtab : ℕ
sht_symtab = 2

abbrev pub sht_dynsym : ℕ
sht_dynsym = 11

abbrev pub stt_func : ℕ
stt_func = 2

abbrev pub stb_global : ℕ
stb_global = 1

-- ".text"
abbrev pub text_section : List ℕ
text_section = 46 ∷ 116 ∷ 101 ∷ 120 ∷ 116 ∷ []

-- A read through a pointer into the mapping.
abbrev pub read {ℓ} : {A : Type ℓ} → Option A → Run A
read none = fault undefined
read (some x) = ok x

-- The sizes of `long`, `Elf_Ehdr` and `Elf_Sym`.
pub record ElfClass : Type 0 where
  pub sizeof_long : ℕ
  pub sizeof_ehdr : ℕ
  pub sizeof_sym : ℕ

abbrev pub table_of : Image → Shdr → Run Table
table_of image s = read (image.shdr s.sh_link) >>= λ link.
    ok (record { symtab = s.sh_offset; symtab_len = s.sh_size; strtab = link.sh_offset })

-- One round of the loop over the sections.
unfoldable pub load_section : Bool → Shdr → Ltelf → Run Ltelf
load_section load_local s lte =
    (if s.sh_type == sht_dynsym
      then (table_of lte.maddr s >>= λ t. ok (record lte { dynamic = some t }))
      else ok lte)
    >>= λ lte'.
        if load_local && s.sh_type == sht_symtab
        then (table_of lte.maddr s >>= λ t. ok (record lte' { local = some t }))
        else ok lte'

-- The loop with the number of rounds that are left.
unfoldable pub load_sections : Bool → (rounds i : ℕ) → Ltelf → Run Ltelf
unfolding load_section
load_sections load_local zero i lte = ok lte
load_sections load_local (suc n) i lte = do
  s ← read (lte.maddr.shdr i)
  lte' ← load_section load_local s lte
  load_sections load_local n (i + 1) lte'

unfoldable pub do_load_elf_symtab : Ltelf → Bool → Run Ltelf
unfolding load_sections
do_load_elf_symtab lte load_local = do
  lte' ← load_sections load_local lte.maddr.e_shnum 0 lte
  s ← read (lte.maddr.shdr lte.maddr.e_shstrndx)
  ok (record lte' { local_shstrtab = s.sh_offset })

-- The inner loop of `in_load_libraries` over the symbols of one library.
unfoldable pub in_table : List ℕ → Image → Table → (rounds j : ℕ) → Run Bool
in_table func image t zero j = ok false
in_table func image t (suc n) j =
    let rest = in_table func image t n (j + 1) in
    read (image.sym t.symtab j) >>= λ s.
    if s.st_value == 0
    then rest
    else (read (image.str (t.strtab + s.st_name)) >>= λ name.
        if same_string func name then ok true else rest)

-- `add_local_symbol`: the new symbol is the head. Its name is read when it is added.
unfoldable pub add_local_symbol :
    Image → Table → Sym → List LibrarySymbol → Run (List LibrarySymbol)
add_local_symbol image t s syms = read (image.str (t.strtab + s.st_name)) >>= λ name.
    ok (record { name = name; enter_addr = s.st_value } ∷ syms)

-- The tests that come before the name of the section is looked at, and those after it.
abbrev pub has_code : Sym → Bool
has_code s = not (s.st_value == 0) && ltb 0 s.st_size && s.st_other == 0

abbrev pub is_global_function : Sym → Bool
is_global_function s = s.st_info % 16 == stt_func && s.st_info / 16 == stb_global

unfoldable pub section_name : Ltelf → Sym → Run (List ℕ)
section_name lte s = do
  section ← read (lte.maddr.shdr s.st_shndx)
  read (lte.maddr.str (lte.local_shstrtab + section.sh_name))

unfoldable pub is_wanted : Ltelf → Sym → Run Bool
unfolding section_name
is_wanted lte s =
    if has_code s
    then (section_name lte s >>= λ name. ok (same_string name text_section && is_global_function s))
    else ok false

-- The loop over the symbols of the file itself.
unfoldable pub add_local_symbols :
    Ltelf → Table → (rounds i : ℕ) → List LibrarySymbol → Run (List LibrarySymbol)
unfolding is_wanted add_local_symbol
add_local_symbols lte t zero i syms = ok syms
add_local_symbols lte t (suc n) i syms = do
  s ← read (lte.maddr.sym t.symtab i)
  wanted ← is_wanted lte s
  syms' ← (if wanted then add_local_symbol lte.maddr t s syms else ok syms)
  add_local_symbols lte t n (i + 1) syms'

module _ (class : ElfClass) where
  -- `symtab_len / sizeof(Elf_Sym)`: the size is kept in an `int`, which the division by a `size_t`
  -- widens with its sign.
  unfoldable pub symbol_count : Option Table → ℕ
  symbol_count none = 0
  symbol_count (some t) =
      let low = t.symtab_len % 2 ^ 32 in
      (if ltb low (2 ^ 31) then low else low + 2 ^ (8 * class.sizeof_long) - 2 ^ 32)
      / class.sizeof_sym

  unfoldable pub in_library : List ℕ → Ltelf → Run Bool
  unfolding in_table symbol_count
  in_library func lte = elim lte.dynamic [
    | none ↦ ok false
    | some t ↦ in_table func lte.maddr t (symbol_count (some t)) 0
  ]

  unfoldable pub in_libraries : List ℕ → List Ltelf → Run Bool
  unfolding in_library
  in_libraries func [] = ok false
  in_libraries func (l ∷ ls) =
      in_library func l >>= λ found. if found then ok true else in_libraries func ls

  unfoldable pub in_load_libraries : List ℕ → List Ltelf → Run Bool
  unfolding in_libraries
  in_load_libraries func [] = ok true
  in_load_libraries func (l ∷ ls) = in_libraries func (l ∷ ls)

  -- The loop over the dynamic symbols: with `add_library_symbol` commented out it adds none.
  unfoldable pub skip_library_symbols :
      List Ltelf → Image → Table → (rounds i : ℕ) → List LibrarySymbol → Run (List LibrarySymbol)
  unfolding in_load_libraries
  skip_library_symbols libs image t zero i syms = ok syms
  skip_library_symbols libs image t (suc n) i syms =
      let rest = skip_library_symbols libs image t n (i + 1) syms in
      read (image.sym t.symtab i) >>= λ s.
      if s.st_shndx == 0 && not (s.st_value == 0)
      then (read (image.str (t.strtab + s.st_name)) >>= λ name.
          in_load_libraries name libs >>= λ found. rest)
      else rest

  abbrev pub over_table {ℓ} : {A : Type ℓ} → Option Table → (Table → ℕ → A → Run A) → A → Run A
  over_table none loop a = ok a
  over_table (some t) loop a = loop t (symbol_count (some t)) a

  module _ (open_file : List ℕ → Opened) where
    abbrev pub check_ident : Image → Run Ltelf
    check_ident image =
        if image.is_elf
        then ok (record { maddr = image; dynamic = none; local = none; local_shstrtab = 0 })
        else fault exit_failure

    unfoldable pub do_init_elf : List ℕ → Run Ltelf
    do_init_elf filename = elim (open_file filename) [
      | mapped st_size image ↦
          if ltb st_size class.sizeof_ehdr then fault exit_failure else check_ident image
      | _ ↦ fault exit_failure
    ]

    unfoldable pub do_init_load_libraries : List (List ℕ) → Run (List Ltelf)
    unfolding do_init_elf do_load_elf_symtab
    do_init_load_libraries [] = ok []
    do_init_load_libraries (f ∷ fs) = do
      lte ← do_init_elf f
      lte' ← do_load_elf_symtab lte false
      ltes ← do_init_load_libraries fs
      ok (lte' ∷ ltes)

    unfoldable pub read_elf : List (List ℕ) → List ℕ → Run (List LibrarySymbol)
    unfolding do_init_elf do_load_elf_symtab do_init_load_libraries skip_library_symbols
        add_local_symbols symbol_count
    read_elf library filename = do
      lte₀ ← do_init_elf filename
      lte ← do_load_elf_symtab lte₀ true
      libs ← do_init_load_libraries library
      syms ← over_table lte.dynamic (λ t n. skip_library_symbols libs lte.maddr t n 0) []
      over_table lte.local (λ t n. add_local_symbols lte t n 0) syms

-- ===== src/Tests/Elfs.antt =====
-- A small ELF file: one function `f`, one variable `v` and one static function `s`.
use utrace.Common.{
  ℕ, zero, suc, ◌+◌, ◌≡◌, refl, subst, arith, true, List, [], ◌∷◌, Option, none, some, ◌==◌,
  if◌then◌else◌, get_elem?,
}
use mathlib.Core.List.{reverse}
use utrace.Dict.Keys.{same_string}
use utrace.Run.{ok, Returns}
use utrace.Tracee.{LibrarySymbol}
use utrace.Elf.Functions.{text_functions, AreFunctions}
use utrace.Elf.{
  ElfClass, Shdr, Sym, Image, Opened, no_file, mapped, Table, Ltelf, text_section, read_elf,
  do_init_elf, do_load_elf_symtab, do_init_load_libraries, section_name, symbol_count,
}
use utrace.Elf.Symbols.{
  IsReadable, HasDynamic, no_library, one_library, HasSymbols, Loads, read_elf-AreFunctions,
  read_elf-read_elf,
}

abbrev class : ElfClass
class = record { sizeof_long = 4; sizeof_ehdr = 52; sizeof_sym = 16 }

abbrev header : ℕ → ℕ → ℕ → ℕ → ℕ → Shdr
header name type offset size link = record {
  sh_name = name;
  sh_type = type;
  sh_offset = offset;
  sh_size = size;
  sh_link = link;
}

abbrev sections : List Shdr
sections =
    header 0 0 0 0 0
    ∷ header 1 1 100 50 0
    ∷ header 7 2 200 48 3
    ∷ header 15 3 300 10 0
    ∷ header 23 3 400 40 0
    ∷ []

abbrev symbol : ℕ → ℕ → ℕ → ℕ → Sym
symbol name value info shndx = record {
  st_name = name;
  st_value = value;
  st_size = 8;
  st_info = info;
  st_other = 0;
  st_shndx = shndx;
}

abbrev symbols : List Sym
symbols = symbol 1 0x1000 0x12 1 ∷ symbol 3 0x2000 0x11 1 ∷ symbol 5 0x1010 0x02 1 ∷ []

abbrev name_of : ℕ → List ℕ
name_of n = if n == 1 then 102 ∷ [] else if n == 3 then 118 ∷ [] else 115 ∷ []

abbrev section_of : ℕ → List ℕ
section_of n = text_section

abbrev small_file : Image
small_file = record {
  is_elf = true;
  e_shnum = 5;
  e_shstrndx = 4;
  shdr = get_elem? sections;
  sym = λ offset i. if offset == 200 then get_elem? symbols i else none;
  str = λ offset.
      if offset == 401
      then some text_section
      else if offset == 301
      then some (102 ∷ [])
      else if offset == 303
      then some (118 ∷ [])
      else if offset == 305
      then some (115 ∷ [])
      else none;
}

-- A library with one dynamic symbol, f.
abbrev library_file : Image
library_file = record {
  is_elf = true;
  e_shnum = 2;
  e_shstrndx = 1;
  shdr = get_elem? (header 1 11 200 16 1 ∷ header 9 3 300 10 0 ∷ []);
  sym = λ offset i. if offset == 200 then get_elem? (symbol 1 0x500 0x12 1 ∷ []) i else none;
  str = λ offset. if offset == 301 then some (102 ∷ []) else none;
}

-- The file is named "a" and the library "l".
abbrev open_file : List ℕ → Opened
open_file [] = no_file
open_file (c ∷ cs) = if c == 97 then mapped 1000 small_file else mapped 1000 library_file

abbrev own_table : Table
own_table = record { symtab = 200; symtab_len = 48; strtab = 300 }

abbrev lte : Ltelf
lte = record { maddr = small_file; dynamic = none; local = some own_table; local_shstrtab = 400 }

abbrev library_lte : Ltelf
library_lte = record {
  maddr = library_file;
  dynamic = some (record { symtab = 200; symtab_len = 16; strtab = 300 });
  local = none;
  local_shstrtab = 300;
}

lte-HasDynamic : HasDynamic class lte
lte-HasDynamic = record { readable = λ t e. absurd (cc e) }

abbrev OfOption : {A : Type 0} → (A → Type 0) → Option A → Type 0
OfOption P none = ℕ
OfOption P (some s) = P s

-- What holds of the three symbols.
each_symbol :
    (P : Sym → Type 0)
    → P (symbol 1 0x1000 0x12 1)
    → P (symbol 3 0x2000 0x11 1)
    → P (symbol 5 0x1010 0x02 1)
    → (j : ℕ) (s : Sym) → get_elem? symbols j ≡ some s
    → P s
each_symbol P p q r zero s e = subst (λ o. OfOption P o) e p
each_symbol P p q r (suc zero) s e = subst (λ o. OfOption P o) e q
each_symbol P p q r (suc (suc zero)) s e = subst (λ o. OfOption P o) e r
each_symbol P p q r (suc (suc (suc j))) s e = absurd (cc e)

lte-HasSymbols : HasSymbols class lte own_table symbols name_of section_of
unfolding section_name symbol_count
lte-HasSymbols = record {
  table = refl;
  count = refl;
  symbols = λ j s e. e;
  names =
      each_symbol (λ s. small_file.str (300 + s.st_name) ≡ some (name_of s.st_name)) refl refl refl;
  sections = each_symbol (λ s. section_name lte s ≡ ok (section_of s.st_shndx)) refl refl refl;
}

small-Loads : Loads class open_file [] (97 ∷ []) lte []
unfolding do_init_elf do_load_elf_symtab do_init_load_libraries
small-Loads = record {
  opens = record { maddr = small_file; dynamic = none; local = none; local_shstrtab = 0 };
  file = refl;
  loaded = refl;
  libraries = refl;
  dynamic = lte-HasDynamic;
  dynamics = no_library;
}

library-IsReadable :
    IsReadable class library_file (record { symtab = 200; symtab_len = 16; strtab = 300 })
unfolding symbol_count
library-IsReadable zero l = (symbol 1 0x500 0x12 1, refl, 102 ∷ [], refl)
library-IsReadable (suc j) l = absurd (omega arith)

library-HasDynamic : HasDynamic class library_lte
library-HasDynamic = record {
  readable = λ t e. subst (λ u. IsReadable class library_file u) (cc e) library-IsReadable;
}

small_l-Loads : Loads class open_file ((108 ∷ []) ∷ []) (97 ∷ []) lte (library_lte ∷ [])
unfolding do_init_elf do_load_elf_symtab do_init_load_libraries
small_l-Loads = record {
  opens = record { maddr = small_file; dynamic = none; local = none; local_shstrtab = 0 };
  file = refl;
  loaded = refl;
  libraries = refl;
  dynamic = lte-HasDynamic;
  dynamics = one_library library_lte [] library-HasDynamic no_library;
}

-- Only the function f is found.
only_f :
    reverse (text_functions name_of section_of symbols)
    ≡ record { name = 102 ∷ []; enter_addr = 0x1000 } ∷ []
unfolding text_functions same_string
only_f = refl

read_elf-AreFunctions_example :
    Returns (read_elf class open_file [] (97 ∷ [])) (λ r.
      (fs : List LibrarySymbol) × AreFunctions name_of section_of symbols fs × (r ≡ reverse fs))
read_elf-AreFunctions_example =
    read_elf-AreFunctions class open_file [] (97 ∷ []) lte [] own_table symbols name_of section_of
      small-Loads lte-HasSymbols

read_elf-read_elf_example :
    read_elf class open_file [] (97 ∷ []) ≡ read_elf class open_file ((108 ∷ []) ∷ []) (97 ∷ [])
read_elf-read_elf_example =
    read_elf-read_elf class open_file [] ((108 ∷ []) ∷ []) (97 ∷ []) lte [] (library_lte ∷ [])
      own_table symbols name_of section_of small-Loads small_l-Loads lte-HasSymbols

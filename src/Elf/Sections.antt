-- ===== src/Elf/Sections.antt =====
-- `do_load_elf_symtab` of utrace-0.1/elf.c: which sections become the symbol tables.
use utrace.Common.{
  ℕ, suc, ◌+◌, ◌≡◌, refl, ap, ◌∙◌, arith, true, false, Bool, Bool-cases, inl, inr, List, [], ◌∷◌,
  Option, none, some, ◌==◌, if◌then◌else◌, length, get_elem?,
}
use utrace.Run.{ok, ◌>>=◌}
use utrace.Elf.{
  Shdr, Image, Table, Ltelf, sht_symtab, sht_dynsym, table_of, load_section, load_sections,
  do_load_elf_symtab,
}

-- The last section of a type, or what was there before.
unfoldable pub last_of : (strings : Shdr → ℕ) → ℕ → List Shdr → Option Table → Option Table
last_of strings type [] t = t
last_of strings type (s ∷ ss) t = last_of strings type ss (
    if s.sh_type == type
    then some (record { symtab = s.sh_offset; symtab_len = s.sh_size; strtab = strings s })
    else t)

-- The section headers of a file whose links lead to sections.
pub record HasSections (image : Image) (shdrs : List Shdr) (strings : Shdr → ℕ) : Type 0 where
  pub count : image.e_shnum ≡ length shdrs
  pub headers : (j : ℕ) (s : Shdr) → get_elem? shdrs j ≡ some s → image.shdr j ≡ some s
  pub links :
      (j : ℕ) (s : Shdr)
      → get_elem? shdrs j ≡ some s
      → table_of image s
        ≡ ok (record { symtab = s.sh_offset; symtab_len = s.sh_size; strtab = strings s })

module _ (image : Image) (strings : Shdr → ℕ) where
  abbrev lte_of : Option Table → Option Table → ℕ → Ltelf
  lte_of dynamic own names = record {
    maddr = image;
    dynamic = dynamic;
    local = own;
    local_shstrtab = names;
  }

  if_same : (b : Bool) (o : Option Table) → o ≡ (if b then o else o)
  if_same true o = refl
  if_same false o = refl

  own_after :
      (b : Bool) (s : Shdr) (ss : List Shdr) (own : Option Table)
      → (if b
          then last_of strings sht_symtab ss
              (if b then last_of strings sht_symtab (s ∷ []) own else own)
          else if b
          then last_of strings sht_symtab (s ∷ []) own
          else own)
        ≡ (if b then last_of strings sht_symtab (s ∷ ss) own else own)
  unfolding last_of
  own_after true s ss own = refl
  own_after false s ss own = refl

  load_section_lem :
      (load_local : Bool) (s : Shdr) (d own : Option Table) (names : ℕ)
      → table_of image s
        ≡ ok (record { symtab = s.sh_offset; symtab_len = s.sh_size; strtab = strings s })
      → load_section load_local s (lte_of d own names)
        ≡ ok (
            lte_of
              (last_of strings sht_dynsym (s ∷ []) d)
              (if load_local then last_of strings sht_symtab (s ∷ []) own else own)
              names)
  unfolding load_section last_of
  load_section_lem false s d own names e = elim (Bool-cases (s.sh_type == sht_dynsym)) [
    | inl dyn ↦ rw (load_section, dyn, e, ◌>>=◌) refl
    | inr other ↦ rw (load_section, other, ◌>>=◌) refl
  ]
  load_section_lem true s d own names e = elim (Bool-cases (s.sh_type == sht_dynsym)) [
    | inl dyn ↦ elim (Bool-cases (s.sh_type == sht_symtab)) [
      | inl both ↦ rw (load_section, dyn, both, e, ◌>>=◌) refl
      | inr no_symtab ↦ rw (load_section, dyn, no_symtab, e, ◌>>=◌) refl
    ]
    | inr other ↦ elim (Bool-cases (s.sh_type == sht_symtab)) [
      | inl symtab ↦ rw (load_section, other, symtab, e, ◌>>=◌) refl
      | inr no_symtab ↦ rw (load_section, other, no_symtab, ◌>>=◌) refl
    ]
  ]

  load_sections_lem :
      (load_local : Bool) (ss : List Shdr) (i : ℕ) (d own : Option Table) (names : ℕ)
      → ((j : ℕ) (s : Shdr)
          → get_elem? ss j ≡ some s
          → (image.shdr (i + j) ≡ some s)
            × (table_of image s
                ≡ ok (record { symtab = s.sh_offset; symtab_len = s.sh_size; strtab = strings s })))
      → load_sections load_local (length ss) i (lte_of d own names)
        ≡ ok (
            lte_of
              (last_of strings sht_dynsym ss d)
              (if load_local then last_of strings sht_symtab ss own else own)
              names)
  unfolding load_sections last_of
  load_sections_lem load_local [] i d own names h =
      ap (λ o. ok (lte_of d o names)) (if_same load_local own)
  load_sections_lem load_local (s ∷ ss) i d own names h =
      rw (load_sections, here, ◌>>=◌, load_section_lem load_local s d own names (h 0 s refl).1)
        (load_sections_lem load_local ss (i + 1) _ _ names later
          ∙ ap (λ o. ok (lte_of (last_of strings sht_dynsym (s ∷ ss) d) o names))
              (own_after load_local s ss own))
    where
      here : image.shdr i ≡ some s
      here = ap image.shdr (omega arith) ∙ (h 0 s refl).0

      later :
          (j : ℕ) (x : Shdr)
          → get_elem? ss j ≡ some x
          → (image.shdr (i + 1 + j) ≡ some x)
            × (table_of image x
                ≡ ok (record { symtab = x.sh_offset; symtab_len = x.sh_size; strtab = strings x }))
      later j x e = let r = h (suc j) x e in (ap image.shdr (omega arith) ∙ r.0, r.1)

  -- Where the section headers of a file and the sections they link to can be read,
  -- do_load_elf_symtab ends without a fault with the last section of each of the two types as
  -- symbol table, the local one only where it is asked for
  pub do_load_elf_symtab-last_of :
      (shdrs : List Shdr) (names : Shdr) (load_local : Bool)
      → HasSections image shdrs strings
      → get_elem? shdrs image.e_shstrndx ≡ some names
      → do_load_elf_symtab (lte_of none none 0) load_local
        ≡ ok (
            lte_of
              (last_of strings sht_dynsym shdrs none)
              (if load_local then last_of strings sht_symtab shdrs none else none)
              names.sh_offset)
  unfolding do_load_elf_symtab
  do_load_elf_symtab-last_of shdrs names load_local v e =
      rw (do_load_elf_symtab, loaded, ◌>>=◌, v.headers image.e_shstrndx names e) refl
    where
      start : Ltelf
      start = lte_of none none 0

      loaded :
          load_sections load_local image.e_shnum 0 start
          ≡ ok (
              lte_of
                (last_of strings sht_dynsym shdrs none)
                (if load_local then last_of strings sht_symtab shdrs none else none)
                0)
      loaded =
          ap (λ n. load_sections load_local n 0 start) v.count
          ∙ load_sections_lem load_local shdrs 0 none none 0
              (λ j s g. (ap image.shdr (omega arith) ∙ v.headers j s g, v.links j s g))

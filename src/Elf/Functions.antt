-- ===== src/Elf/Functions.antt =====
-- The symbols that `read_elf` of utrace-0.1/elf.c takes for functions to be traced.
use utrace.Common.{
  ℕ, ◌<◌, ◌≡◌, ◌≢◌, ◌%◌, ◌/◌, sym, ◌∙◌, arith, true, Bool, Bool-cases, inl, inr, ◌&&◌, List, [],
  ◌∷◌, if◌then◌else◌,
}
use utrace.Dict.Keys.{same_string, same_string_iff}
use utrace.Tracee.{LibrarySymbol}
use utrace.Printf.{codes}
use utrace.Elf.{Sym, text_section, has_code, is_global_function}

-- The functions among the symbols by the tests of the code, with the names of symbols and of sections.
unfoldable pub text_functions : (name section : ℕ → List ℕ) → List Sym → List LibrarySymbol
text_functions name section [] = []
text_functions name section (s ∷ ss) =
    let rest = text_functions name section ss in
    if has_code s && (same_string (section s.st_shndx) text_section && is_global_function s)
    then record { name = name s.st_name; enter_addr = s.st_value } ∷ rest
    else rest

-- A global function of the section .text with an address, a size and default visibility.
pub record IsTextFunction (section : ℕ → List ℕ) (s : Sym) : Type 0 where
  pub address : s.st_value ≢ 0
  pub size : 0 < s.st_size
  pub visibility : s.st_other ≡ 0
  pub in_text : section s.st_shndx ≡ codes ".text"
  pub type : s.st_info % 16 ≡ 2
  pub binding : s.st_info / 16 ≡ 1

-- The functions of a table of symbols, in its order.
pub data AreFunctions (name section : ℕ → List ℕ) : List Sym → List LibrarySymbol → Type 0 where
  no_symbol : AreFunctions name section [] []
  taken :
      (s : Sym) (ss : List Sym) (fs : List LibrarySymbol)
      → IsTextFunction section s
      → AreFunctions name section ss fs
      → AreFunctions name section
          (s ∷ ss)
          (record { name = name s.st_name; enter_addr = s.st_value } ∷ fs)
  passed :
      (s : Sym) (ss : List Sym) (fs : List LibrarySymbol)
      → ¬ IsTextFunction section s
      → AreFunctions name section ss fs
      → AreFunctions name section (s ∷ ss) fs

abbrev tests : (ℕ → List ℕ) → Sym → Bool
tests section s =
    has_code s && (same_string (section s.st_shndx) text_section && is_global_function s)

tests-IsTextFunction :
    (section : ℕ → List ℕ) (s : Sym) → tests section s ≡ true → IsTextFunction section s
tests-IsTextFunction section s e = record {
  address = λ z. ground (arith, e, z);
  size = ground (arith, e);
  visibility = ground (arith, e);
  in_text = (same_string_iff (section s.st_shndx) text_section).0 (ground (arith, e));
  type = ground (arith, e);
  binding = ground (arith, e);
}

IsTextFunction-tests :
    (section : ℕ → List ℕ) (s : Sym) → IsTextFunction section s → tests section s ≡ true
IsTextFunction-tests section s f =
    let named = (same_string_iff (section s.st_shndx) text_section).1 f.in_text in
    ground (arith, named, f.address, f.size, f.visibility, f.type, f.binding)

pub text_functions-AreFunctions :
    (name section : ℕ → List ℕ) (ss : List Sym)
    → AreFunctions name section ss (text_functions name section ss)
unfolding text_functions
text_functions-AreFunctions name section [] = no_symbol
text_functions-AreFunctions name section (s ∷ ss) =
    let rest = text_functions-AreFunctions name section ss in
    elim (Bool-cases (tests section s)) [
      | inl wanted ↦ rw wanted (taken s ss _ (tests-IsTextFunction section s wanted) rest)
      | inr other ↦
          rw other
            (passed s ss _ (λ f. absurd (cc (sym other ∙ IsTextFunction-tests section s f))) rest)
    ]

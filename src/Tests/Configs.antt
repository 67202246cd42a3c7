-- ===== src/Tests/Configs.antt =====
-- Prototypes of a configuration file.
use utrace.Common.{ℕ, ◌≡◌, refl, arith, [], ◌∷◌, List, some}
use utrace.Config.{int, addr, string0, Function, process_line}
use utrace.Config.Lines.{prototype_text, process_line_lem}
use utrace.Config.Types.{no_parens}

-- int f(addr,string0);
abbrev line : List ℕ
line = prototype_text int (102 ∷ []) (addr ∷ string0 ∷ []) (59 ∷ [])

abbrev parsed : Function
parsed = record {
  name = 102 ∷ [];
  return_type = int;
  num_params = 2;
  arg_types = addr ∷ string0 ∷ [];
  params_right = 0;
}

process_line_lem_example : process_line line ≡ some parsed
unfolding no_parens
process_line_lem_example =
    process_line_lem int 102 [] (addr ∷ string0 ∷ []) (59 ∷ []) refl refl (refl, (refl, tt))
      (omega arith) refl

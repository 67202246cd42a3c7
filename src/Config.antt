-- ===== src/Config.antt =====
-- The reader of prototypes: utrace-0.1/read_config_file.c, with `struct function` of
-- utrace-0.1/ltrace.h and the search of `name2func` of utrace-0.1/output.c without -C. A C string is
-- the list of its characters before the null; the lines are what `fgets` returns.
pub mod Lines
pub mod Types
use utrace.Common.{
  ℕ, zero, suc, ◌+◌, ◌-◌, ◌&&◌, leb, Bool, true, false, ◌||◌, List, [], ◌∷◌, Option, none, some,
  ◌==◌, if◌then◌else◌, length,
}
use utrace.Dict.Keys.{same_string}
use utrace.Tgid.{strip_prefix}

pub data ArgType : Type 0 where
  unknown void int uint octal char addr file format string string0 string1 string2 string3 : ArgType

abbrev pub max_args : ℕ
max_args = 32

-- `next` is the rest of the list that the function stands in.
pub record Function : Type 0 where
  pub name : List ℕ
  pub return_type : ArgType
  pub num_params : ℕ
  pub arg_types : List ArgType
  pub params_right : ℕ

-- void, int, uint, octal, char, addr, file, format, string, string0 to string3
abbrev pub string_text : List ℕ → List ℕ
string_text digit = 115 ∷ 116 ∷ 114 ∷ 105 ∷ 110 ∷ 103 ∷ digit

abbrev pub list_of_pt : List (List ℕ × ArgType)
list_of_pt =
    (118 ∷ 111 ∷ 105 ∷ 100 ∷ [], void)
    ∷ (105 ∷ 110 ∷ 116 ∷ [], int)
    ∷ (117 ∷ 105 ∷ 110 ∷ 116 ∷ [], uint)
    ∷ (111 ∷ 99 ∷ 116 ∷ 97 ∷ 108 ∷ [], octal)
    ∷ (99 ∷ 104 ∷ 97 ∷ 114 ∷ [], char)
    ∷ (97 ∷ 100 ∷ 100 ∷ 114 ∷ [], addr)
    ∷ (102 ∷ 105 ∷ 108 ∷ 101 ∷ [], file)
    ∷ (102 ∷ 111 ∷ 114 ∷ 109 ∷ 97 ∷ 116 ∷ [], format)
    ∷ (string_text [], string)
    ∷ (string_text (48 ∷ []), string0)
    ∷ (string_text (49 ∷ []), string1)
    ∷ (string_text (50 ∷ []), string2)
    ∷ (string_text (51 ∷ []), string3)
    ∷ []

-- `*str`, which is the null behind the last character
abbrev pub head : List ℕ → ℕ
head [] = 0
head (c ∷ cs) = c

abbrev pub tail : List ℕ → List ℕ
tail [] = []
tail (c ∷ cs) = cs

-- `index(" ,)#", c)`, which finds the null too
abbrev pub is_delimiter : ℕ → Bool
is_delimiter c = c == 32 || c == 44 || c == 41 || c == 35 || c == 0

abbrev pub ends_type : Option (List ℕ) → Bool
ends_type none = false
ends_type (some rest) = is_delimiter (head rest)

abbrev pub rest_of : Option (List ℕ) → List ℕ
rest_of none = []
rest_of (some rest) = rest

unfoldable pub type_in : List (List ℕ × ArgType) → List ℕ → ArgType × List ℕ
unfolding strip_prefix
type_in [] str = (unknown, str)
type_in (tmp ∷ pts) str =
    let later = type_in pts str in
    if ends_type (strip_prefix tmp.0 str) then (tmp.1, rest_of (strip_prefix tmp.0 str)) else later

unfoldable pub str2type : List ℕ → ArgType × List ℕ
unfolding type_in
str2type str = type_in list_of_pt str

unfoldable pub eat_spaces : List ℕ → List ℕ
eat_spaces [] = []
eat_spaces (c ∷ cs) = let rest = eat_spaces cs in if c == 32 then rest else c ∷ cs

-- The characters before `pos`, last one first.
unfoldable pub reverse_onto : List ℕ → List ℕ → List ℕ
reverse_onto [] acc = acc
reverse_onto (c ∷ cs) acc = reverse_onto cs (c ∷ acc)

abbrev pub stacked_after : ℕ → ℕ → ℕ
stacked_after c stacked = if c == 41 then stacked + 1 else if c == 40 then stacked - 1 else stacked

-- The two loops from `pos` down: `stacked` parentheses are open; the result is the index of the
-- one that closes the last.
unfoldable pub scan_back : List ℕ → ℕ → Option ℕ
scan_back [] stacked = none
scan_back (c ∷ before) stacked =
    let further = scan_back before (stacked_after c stacked) in
    if c == 40 && leb stacked 1
    then (if stacked == 1 then some (length before) else none)
    else further

unfoldable pub start_of_arg_sig : List ℕ → Option ℕ
unfolding reverse_onto scan_back
start_of_arg_sig str = scan_back (reverse_onto str []) 0

unfoldable pub take : ℕ → List ℕ → List ℕ
take zero cs = []
take (suc n) [] = []
take (suc n) (c ∷ cs) = c ∷ take n cs

unfoldable pub drop : ℕ → List ℕ → List ℕ
drop zero cs = cs
drop (suc n) [] = []
drop (suc n) (c ∷ cs) = drop n cs

-- `params_right` after a look at the `+`
abbrev pub count_right : Bool → ℕ → ℕ
count_right plus params_right =
    if plus then params_right + 1 else if params_right == 0 then 0 else params_right + 1

abbrev pub add_type : ArgType → Option (List ArgType × ℕ) → Option (List ArgType × ℕ)
add_type ty none = none
add_type ty (some (types, params_right)) = some (ty ∷ types, params_right)

-- The loop over the arguments, with the rounds that are left: the types and `params_right`, or a
-- syntax error. The test that follows `str2type` looks at the return type, which is known here.
unfoldable pub parse_args : ℕ → ℕ → List ℕ → Option (List ArgType × ℕ)
unfolding eat_spaces str2type
parse_args zero params_right str = some ([], params_right)
parse_args (suc rounds) params_right str =
    let s = eat_spaces str in
    let plus = head s == 43 in
    let (ty, s') = str2type (if plus then tail s else s) in
    let s'' = eat_spaces s' in
    let more =
      parse_args rounds (count_right plus params_right)
        (if head s'' == 44 then tail s'' else s'') in
    if head s == 41
    then some ([], params_right)
    else if head s'' == 44 || head s'' == 41
    then add_type ty more
    else none

abbrev pub function_with : ArgType → List ℕ → Option (List ArgType × ℕ) → Option Function
function_with ty name none = none
function_with ty name (some (types, params_right)) = some (record {
  name = name;
  return_type = ty;
  num_params = length types;
  arg_types = types;
  params_right = params_right;
})

abbrev pub is_unknown : ArgType → Bool
is_unknown unknown = true
is_unknown _ = false

abbrev pub prototype : ArgType → List ℕ → Option ℕ → Option Function
prototype ty str none = none
prototype ty str (some pos) =
    function_with ty (take pos str) (parse_args max_args 0 (drop (pos + 1) str))

unfoldable pub process_line : List ℕ → Option Function
unfolding str2type eat_spaces start_of_arg_sig take drop parse_args
process_line buf =
    let (ty, rest) = str2type (eat_spaces buf) in
    let str = eat_spaces rest in
    if is_unknown ty then none else prototype ty str (start_of_arg_sig str)

-- Each function is put at the head of the list.
unfoldable pub read_lines : List (List ℕ) → List Function → List Function
unfolding process_line
read_lines [] list_of_functions = list_of_functions
read_lines (line ∷ lines) list_of_functions =
    read_lines lines
      (elim (process_line line) [ none ↦ list_of_functions | some fun ↦ fun ∷ list_of_functions ])

-- A file that cannot be opened changes nothing.
unfoldable pub read_config_file : Option (List (List ℕ)) → List Function → List Function
unfolding read_lines
read_config_file none list_of_functions = list_of_functions
read_config_file (some lines) list_of_functions = read_lines lines list_of_functions

unfoldable pub name2func : List ℕ → List Function → Option Function
name2func name [] = none
name2func name (fun ∷ funs) =
    let rest = name2func name funs in if same_string fun.name name then some fun else rest

-- ===== src/Config/Lines.antt =====
-- `process_line` of utrace-0.1/read_config_file.c on a prototype as it is written.
use utrace.Common.{
  ℕ, zero, suc, ◌+◌, ◌≤◌, ◌≡◌, ◌∙◌, refl, ap, arith, true, false, ◌==◌, List, [], ◌∷◌, ◌++◌, some,
  length,
}
use utrace.Config.{
  ArgType, Function, is_unknown, eat_spaces, reverse_onto, scan_back, start_of_arg_sig, take, drop,
  add_type, parse_args, process_line, max_args, read_lines, read_config_file, name2func,
}
use utrace.Dict.Keys.{same_string_iff}
use utrace.Config.Types.{
  type_text, str2type-type_text, type_text-Starts, no_parens, no_parens-type_text,
}

-- The types with commas between them, before `rest`.
unfoldable pub args_text : List ArgType → List ℕ → List ℕ
args_text [] rest = rest
args_text (ty ∷ []) rest = type_text ty ++ rest
args_text (ty ∷ next ∷ tys) rest = type_text ty ++ (44 ∷ args_text (next ∷ tys) rest)

-- `int name(void,addr)` and the rest of the line
abbrev pub prototype_text : ArgType → List ℕ → List ArgType → List ℕ → List ℕ
prototype_text ret name tys rest =
    type_text ret ++ (32 ∷ (name ++ (40 ∷ args_text tys (41 ∷ rest))))

abbrev pub AreKnown : List ArgType → Type 0
AreKnown [] = Unit
AreKnown (ty ∷ tys) = (is_unknown ty ≡ false) × AreKnown tys

parse_end : (n : ℕ) (rest : List ℕ) → parse_args n 0 (41 ∷ rest) ≡ some ([], 0)
unfolding parse_args eat_spaces
parse_end zero rest = refl
parse_end (suc n) rest = refl

parse_last :
    (n : ℕ) (ty : ArgType) (rest : List ℕ)
    → is_unknown ty ≡ false
    → parse_args (suc n) 0 (type_text ty ++ (41 ∷ rest)) ≡ some (ty ∷ [], 0)
unfolding parse_args eat_spaces
parse_last n ty rest k =
    let s = type_text-Starts ty (41 ∷ rest) k in
    rw
      (
        parse_args,
        s.no_space,
        s.no_close,
        s.no_plus,
        str2type-type_text ty 41 rest k refl,
        parse_end n rest,
      )
      refl

parse_comma :
    (n : ℕ) (ty : ArgType) (rest : List ℕ)
    → is_unknown ty ≡ false
    → parse_args (suc n) 0 (type_text ty ++ (44 ∷ rest)) ≡ add_type ty (parse_args n 0 rest)
unfolding parse_args eat_spaces
parse_comma n ty rest k =
    let s = type_text-Starts ty (44 ∷ rest) k in
    rw (parse_args, s.no_space, s.no_close, s.no_plus, str2type-type_text ty 44 rest k refl) refl

parse_args-args_text :
    (n : ℕ) (tys : List ArgType) (rest : List ℕ)
    → AreKnown tys
    → length tys ≤ n
    → parse_args n 0 (args_text tys (41 ∷ rest)) ≡ some (tys, 0)
unfolding args_text
parse_args-args_text n [] rest k l = parse_end n rest
parse_args-args_text zero (ty ∷ tys) rest k l = absurd (omega arith)
parse_args-args_text (suc n) (ty ∷ []) rest k l = parse_last n ty rest k.0
parse_args-args_text (suc n) (ty ∷ next ∷ tys) rest k l =
    parse_comma n ty _ k.0
    ∙ ap (add_type ty) (parse_args-args_text n (next ∷ tys) rest k.1 (omega arith))

reverse_onto-append :
    (xs ys acc : List ℕ) → reverse_onto (xs ++ ys) acc ≡ reverse_onto ys (reverse_onto xs acc)
unfolding reverse_onto
reverse_onto-append [] ys acc = refl
reverse_onto-append (x ∷ xs) ys acc = reverse_onto-append xs ys (x ∷ acc)

scan_back_pass :
    (x : ℕ) (acc : List ℕ) (k : ℕ)
    → (x == 40) ≡ false
    → (x == 41) ≡ false
    → scan_back (x ∷ acc) k ≡ scan_back acc k
unfolding scan_back
scan_back_pass x acc k o c = rw (o, c) refl

-- Text without parentheses is passed.
scan_back_free :
    (xs acc : List ℕ) (k : ℕ)
    → no_parens xs ≡ true
    → scan_back (reverse_onto xs acc) k ≡ scan_back acc k
unfolding no_parens reverse_onto
scan_back_free [] acc k h = refl
scan_back_free (x ∷ xs) acc k h =
    scan_back_free xs (x ∷ acc) k (ground arith)
    ∙ scan_back_pass x acc k (ground arith) (ground arith)

-- What stands before `rest`, last character first, is as good as `acc` to the scan.
Passes : List ℕ → (List ℕ → List ℕ) → Type 0
Passes acc f =
    (seen : List ℕ) × ((rest : List ℕ) → reverse_onto (f rest) acc ≡ reverse_onto rest seen)
    × ((k : ℕ) → scan_back seen k ≡ scan_back acc k)

text-Passes : (xs acc : List ℕ) → no_parens xs ≡ true → Passes acc (λ rest. xs ++ rest)
unfolding Passes
text-Passes xs acc h =
    (reverse_onto xs acc, λ rest. reverse_onto-append xs rest acc, λ k. scan_back_free xs acc k h)

args_text-Passes : (tys : List ArgType) (acc : List ℕ) → Passes acc (args_text tys)
unfolding Passes args_text reverse_onto
args_text-Passes [] acc = (acc, λ rest. refl, λ k. refl)
args_text-Passes (ty ∷ []) acc = text-Passes (type_text ty) acc (no_parens-type_text ty)
args_text-Passes (ty ∷ next ∷ tys) acc =
    let (seen, moved, same) = text-Passes (type_text ty) acc (no_parens-type_text ty) in
    let (seen', moved', same') = args_text-Passes (next ∷ tys) (44 ∷ seen) in
    (
      seen',
      λ rest.
          moved (44 ∷ args_text (next ∷ tys) rest)
          ∙ opened seen (args_text (next ∷ tys) rest)
          ∙ moved' rest,
      λ k. same' k ∙ scan_back_pass 44 seen k refl refl ∙ same k,
    )
  where
    opened : (seen rest : List ℕ) → reverse_onto (44 ∷ rest) seen ≡ reverse_onto rest (44 ∷ seen)
    opened seen rest = refl

length-reverse_onto : (xs acc : List ℕ) → length (reverse_onto xs acc) ≡ length xs + length acc
unfolding reverse_onto
length-reverse_onto [] acc = omega arith
length-reverse_onto (x ∷ xs) acc = omega (arith, length-reverse_onto xs (x ∷ acc))

start_of_arg_sig_lem :
    (name : List ℕ) (tys : List ArgType) (rest : List ℕ)
    → no_parens rest ≡ true
    → start_of_arg_sig (name ++ (40 ∷ args_text tys (41 ∷ rest))) ≡ some (length name)
unfolding start_of_arg_sig Passes reverse_onto scan_back
start_of_arg_sig_lem name tys rest h =
    let before = reverse_onto name [] in
    let (seen, moved, same) = args_text-Passes tys (40 ∷ before) in
    ap (λ x. scan_back x 0) (reverse_onto-append name _ [] ∙ moved (41 ∷ rest))
    ∙ scan_back_free rest (41 ∷ seen) 0 h
    ∙ same 1
    ∙ ap some (omega (arith, length-reverse_onto name []))

take-append : (xs ys : List ℕ) → take (length xs) (xs ++ ys) ≡ xs
unfolding take
take-append [] ys = refl
take-append (x ∷ xs) ys = ap (λ t. x ∷ t) (take-append xs ys)

drop_at :
    (n : ℕ) (xs : List ℕ) (y : ℕ) (ys : List ℕ) → n ≡ length xs → drop (suc n) (xs ++ (y ∷ ys)) ≡ ys
unfolding drop
drop_at zero [] y ys e = refl
drop_at zero (x ∷ xs) y ys e = absurd (omega arith)
drop_at (suc n) [] y ys e = absurd (omega arith)
drop_at (suc n) (x ∷ xs) y ys e = drop_at n xs y ys (omega arith)

drop-append : (xs : List ℕ) (y : ℕ) (ys : List ℕ) → drop (length xs + 1) (xs ++ (y ∷ ys)) ≡ ys
drop-append xs y ys =
    ap (λ n. drop n (xs ++ (y ∷ ys))) (omega arith) ∙ drop_at (length xs) xs y ys refl

-- A line with a known return type, one space, a name that does not begin with a space, a left
-- parenthesis, at most 32 known types with commas between them, a right parenthesis and a rest
-- without parentheses is read by process_line as the function with just that name, return type and
-- types, and with no parameter on the right
pub process_line_lem :
    (ret : ArgType) (c : ℕ) (cs : List ℕ) (tys : List ArgType) (rest : List ℕ)
    → is_unknown ret ≡ false
    → (c == 32) ≡ false
    → AreKnown tys
    → length tys ≤ max_args
    → no_parens rest ≡ true
    → process_line (prototype_text ret (c ∷ cs) tys rest)
      ≡ some (record {
        name = c ∷ cs;
        return_type = ret;
        num_params = length tys;
        arg_types = tys;
        params_right = 0;
      })
unfolding process_line eat_spaces
process_line_lem ret c cs tys rest k n ks l h =
    rw
      (
        process_line,
        (type_text-Starts ret (32 ∷ ((c ∷ cs) ++ (40 ∷ args_text tys (41 ∷ rest)))) k).no_space,
        str2type-type_text ret 32 ((c ∷ cs) ++ (40 ∷ args_text tys (41 ∷ rest))) k refl,
        k,
        n,
        start_of_arg_sig_lem (c ∷ cs) tys rest h,
        take-append (c ∷ cs) (40 ∷ args_text tys (41 ∷ rest)),
        drop-append (c ∷ cs) 40 (args_text tys (41 ∷ rest)),
        parse_args-args_text max_args tys rest ks l,
      )
      refl

read_lines-last :
    (lines : List (List ℕ)) (line : List ℕ) (funs : List Function) (fun : Function)
    → process_line line ≡ some fun
    → (before : List Function) × (read_lines (lines ++ (line ∷ [])) funs ≡ fun ∷ before)
unfolding read_lines
read_lines-last [] line funs fun e = (funs, rw (read_lines, e) refl)
read_lines-last (l ∷ lines) line funs fun e = read_lines-last lines line _ fun e

-- Where process_line reads a function from the last line of a file, read_config_file makes
-- name2func find that function under its name, whatever the lines before it and the list before
-- them declare
pub name2func-read_config_file :
    (lines : List (List ℕ)) (line : List ℕ) (funs : List Function) (fun : Function)
    → process_line line ≡ some fun
    → name2func fun.name (read_config_file (some (lines ++ (line ∷ []))) funs) ≡ some fun
unfolding name2func read_config_file
name2func-read_config_file lines line funs fun e =
    let (before, read) = read_lines-last lines line funs fun e in
    rw (read, name2func, (same_string_iff fun.name fun.name).1 refl) refl

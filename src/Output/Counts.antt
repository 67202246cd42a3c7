-- ===== src/Output/Counts.antt =====
-- The counts and times of -c that `output_right` of utrace-0.1/output.c keeps.
use utrace.Common.{ℕ, List, [], ◌∷◌, ◌++◌, Option, none, some, length, get_or, set}
use utrace.Tracee.{Timeval}
use utrace.Dict.{Dict, dict_init, dict_enter, dict_find_entry}
use utrace.Dict.Keys.{string_ops}
use utrace.Summary.{OptCStruct, add_call}
use utrace.Output.{Out, Surroundings, as_ulong}

abbrev pub spent_of : Surroundings → Timeval
spent_of e = record {
  tv_sec = as_ulong (e.long_bits) e.current_time_spent.0;
  tv_usec = e.current_time_spent.1;
}

-- A struct of -c is found, or made, and one more call is added to it.
abbrev pub dict_of_counts : Option (Dict (List ℕ) ℕ) → Dict (List ℕ) ℕ
dict_of_counts none = dict_init string_ops
dict_of_counts (some d) = d

abbrev pub new_struct : OptCStruct
new_struct = record { count = 0; tv = record { tv_sec = 0; tv_usec = 0 } }

-- The time spent as a struct: its seconds are added as an `unsigned long`.
unfoldable pub add_to : Timeval → ℕ → Out → Out
unfolding add_call
add_to spent st s = record s {
  structs = set s.structs st (add_call spent (get_or s.structs st new_struct));
}

unfoldable pub tally : Timeval → List ℕ → Out → Out
unfolding dict_init dict_find_entry dict_enter add_to
tally spent function_name s =
    let d = dict_of_counts s.dict_opt_c in
    elim (dict_find_entry d function_name) [
      | some st ↦ add_to spent st (record s { dict_opt_c = some d })
      | none ↦ add_to spent (length s.structs) (record s {
        dict_opt_c = some (dict_enter d function_name (length s.structs));
        structs = s.structs ++ new_struct ∷ [];
      })
    ]

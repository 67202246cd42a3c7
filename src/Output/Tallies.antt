-- ===== src/Output/Tallies.antt =====
-- The counts of -c are a table by name: what `output_right` of utrace-0.1/output.c keeps of the
-- functions that returned.
use mathlib.Core.Option.{or_else}
use utrace.Common.{
  ℕ, ◌+◌, ◌*◌, ◌≤◌, ◌<◌, ◌≡◌, ◌≢◌, ap, ◌∙◌, List, Option, none, some, if◌then◌else◌, length,
  get_elem?,
}
use utrace.Tracee.{Timeval}
use utrace.Dict.{Dict, dict_enter, dict_find_entry}
use utrace.Dict.Lookup.{IsDict, dict_find_entry-enter}
use utrace.Dict.Keys.{string_ops, same_string}
use utrace.Summary.{OptCStruct, add_call}
use utrace.Run.{Run}
use utrace.Ptrace.{Ptrace}
use utrace.Output.{Out}
use utrace.Output.Counts.{dict_of_counts, new_struct}

-- What is kept of a function.
abbrev pub struct_at : Option ℕ → List OptCStruct → Option OptCStruct
struct_at none structs = none
struct_at (some st) structs = get_elem? structs st

unfoldable pub counted : List ℕ → Out → Option OptCStruct
counted name s = struct_at (dict_find_entry (dict_of_counts s.dict_opt_c) name) s.structs

abbrev pub or_new : Option OptCStruct → OptCStruct
or_new none = new_struct
or_new (some st) = st

-- Every name has a struct of its own.
pub record IsCounted (d : Dict (List ℕ) ℕ) (structs : List OptCStruct) : Type 0 where
  pub table : IsDict d
  pub keyed : d.ops ≡ string_ops
  pub within : (name : List ℕ) (st : ℕ) → dict_find_entry d name ≡ some st → st < length structs
  pub own :
      (name other : List ℕ) (st : ℕ)
      → dict_find_entry d name ≡ some st
      → dict_find_entry d other ≡ some st
      → name ≡ other

abbrev pub AreCounts : Out → Type 0
AreCounts s = IsCounted (dict_of_counts s.dict_opt_c) s.structs

module _ (spent : Timeval) (name : List ℕ) (s : Out) (v : AreCounts s) where
  abbrev d : Dict (List ℕ) ℕ
  d = dict_of_counts s.dict_opt_c

  -- What one call makes of the structs.
  record Added (t : Out) : Type 0 where
    silent : t.written ≡ s.written
    counts : AreCounts t
    one_more : counted name t ≡ some (add_call spent (or_new (counted name s)))
    others : (other : List ℕ) → other ≢ name → counted other t ≡ counted other s

  -- What the table answers with the new name.
  entered :
      (other : List ℕ)
      → dict_find_entry d name ≡ none
      → dict_find_entry (dict_enter d name (length s.structs)) other
        ≡ or_else
            (dict_find_entry d other)
            (if same_string other name then some (length s.structs) else none)
  entered other absent =
      dict_find_entry-enter d name other (length s.structs) v.table
      ∙ ap
          (λ ops.
            or_else (dict_find_entry d other)
              (if ops.same_key other name then some (length s.structs) else none))
          v.keyed

-- The calls, the time in microseconds, and the field of microseconds that are kept of a function.
abbrev pub calls_of : Option OptCStruct → ℕ
calls_of none = 0
calls_of (some st) = st.count

abbrev pub time_of : Option OptCStruct → ℕ
time_of none = 0
time_of (some st) = 1000000 * st.tv.tv_sec + st.tv.tv_usec

abbrev pub usec_of : Option OptCStruct → ℕ
usec_of none = 0
usec_of (some st) = st.tv.tv_usec

-- One more call is kept of a function, and the time that it took.
pub record IsOneMore (spent : Timeval) (before after : Option OptCStruct) : Type 0 where
  pub struct : OptCStruct
  pub kept : after ≡ some struct
  pub calls : struct.count ≡ calls_of before + 1
  pub time :
      1000000 * struct.tv.tv_sec + struct.tv.tv_usec
      ≡ time_of before + (1000000 * spent.tv_sec + spent.tv_usec)
  pub below : struct.tv.tv_usec ≤ 1000000

-- What a return leaves under -c.
pub record Tallied (spent : Timeval) (name : List ℕ) (s t : Out) : Type 0 where
  pub silent : t.written ≡ s.written
  pub counts : AreCounts t
  pub one_more : IsOneMore spent (counted name s) (counted name t)
  pub others : (other : List ℕ) → other ≢ name → counted other t ≡ counted other s

-- ===== src/Tests/Summaries.antt =====
-- Sums and rows of -c.
use utrace.Common.{replicate, arith, ◌≡◌, refl, ℕ, [], ◌∷◌, List, some}
use utrace.Tracee.{Timeval}
use utrace.Dict.{Dict, dict_init, dict_enter, dict_apply_to_all}
use utrace.Run.{ok, Returns}
use utrace.Dict.Order.{entries}
use utrace.Dict.Keys.{string_ops}
use utrace.Summary.{OptCStruct, EntrySt, fill_struct, no_totals}
use utrace.Summary.Table.{AreTotals, total_calls, totals-AreTotals}

abbrev long : Timeval
long = record { tv_sec = 2; tv_usec = 700000 }

abbrev short : Timeval
short = record { tv_sec = 1; tv_usec = 600000 }

abbrev twice : OptCStruct
twice = record { count = 2; tv = long }

abbrev slow : EntrySt
slow = record { name = 102 ∷ []; count = 2; tv = long }

abbrev quick : EntrySt
quick = record { name = 103 ∷ []; count = 1; tv = short }

abbrev calls : Dict (List ℕ) OptCStruct
calls = dict_enter (dict_init string_ops) (102 ∷ []) twice

-- Another function, which took longer.
abbrev more_calls : Dict (List ℕ) OptCStruct
more_calls = dict_enter calls (103 ∷ []) (record { count = 3; tv = short })

five_calls : total_calls (entries more_calls) ≡ 5
unfolding total_calls dict_enter dict_init replicate mathlib.Core.List.flatten
    utrace.Dict.Keys.dict_key2hash_string
five_calls = refl

totals-AreTotals_example :
    Returns
      (dict_apply_to_all (fill_struct 32) (some more_calls) (ok no_totals))
      (AreTotals 32 (entries more_calls))
totals-AreTotals_example = totals-AreTotals 32 more_calls (omega (arith, five_calls))

-- ===== src/Summary.antt =====
-- The counts and times of -c: the sums of `output_right` in utrace-0.1/output.c and the table of
-- utrace-0.1/summary.c. `qsort` is the caller's; the table is the numbers that `printf` shows.
pub mod Times
pub mod Table
use utrace.Common.{
  ℕ, zero, suc, ◌+◌, ◌-◌, ◌*◌, ◌/◌, ◌%◌, ◌^◌, Bool, ◌||◌, List, [], ◌∷◌, ◌++◌, Option, ltb, ◌==◌,
  if◌then◌else◌,
}
use utrace.Common.Int.{ℤ, pos, negsuc, sub_ℕ}
use utrace.Tracee.{Timeval}
use utrace.Dict.{Dict, dict_apply_to_all}
use utrace.Run.{Run, ok, fault, undefined, ◌>>=◌}

pub record OptCStruct : Type 0 where
  pub count : ℕ
  pub tv : Timeval

-- One more call that took `spent`; the microseconds carry only above a million.
unfoldable pub add_call : Timeval → OptCStruct → OptCStruct
add_call spent st =
    let usec = st.tv.tv_usec + spent.tv_usec in
    let carries = ltb 1000000 usec in
    record {
      count = st.count + 1;
      tv = record {
        tv_sec = (if carries then st.tv.tv_sec + 1 else st.tv.tv_sec) + spent.tv_sec;
        tv_usec = if carries then usec - 1000000 else usec;
      };
    }

pub record EntrySt : Type 0 where
  pub name : List ℕ
  pub count : ℕ
  pub tv : Timeval

-- The variables of the file; `num_entries` is the length of `entries`.
pub record Totals : Type 0 where
  pub entries : List EntrySt
  -- an `int`
  pub tot_count : ℕ
  pub tot_usecs : ℕ

abbrev pub no_totals : Totals
no_totals = record { entries = []; tot_count = 0; tot_usecs = 0 }

-- A row as it is printed: the percentage with two decimals, the time, the time per call.
pub record Row : Type 0 where
  pub percent : ℕ
  pub decimals : ℕ
  pub tv : Timeval
  pub usecs_per_call : ℕ
  pub calls : ℕ
  pub name : List ℕ

pub record Shown : Type 0 where
  pub rows : List Row
  pub total_sec : ℕ
  pub total_usec : ℕ
  pub total_calls : ℕ

-- A `long` as an `int`, by its low 32 bits.
abbrev pub low_bits : ℤ → ℕ
low_bits (pos n) = n % 2 ^ 32
low_bits (negsuc n) = 2 ^ 32 - 1 - n % 2 ^ 32

unfoldable pub to_int : ℤ → ℤ
to_int z = if ltb (low_bits z) (2 ^ 31) then pos (low_bits z) else negsuc (2 ^ 32 - 1 - low_bits z)

unfoldable pub compar : EntrySt → EntrySt → ℤ
unfolding to_int
compar en1 en2 =
    if en2.tv.tv_sec == en1.tv.tv_sec
    then to_int (sub_ℕ en2.tv.tv_usec en1.tv.tv_usec)
    else to_int (sub_ℕ en2.tv.tv_sec en1.tv.tv_sec)

-- `bits` is the width of an `unsigned long`.
module _ (bits : ℕ) where
  -- A sum of calls above 2 ^ 31 - 1 overflows `tot_count`, which is undefined.
  unfoldable pub fill_struct : List ℕ → OptCStruct → Run Totals → Run Totals
  fill_struct key st run = run >>= λ t.
      if ltb (2 ^ 31 - 1) (t.tot_count + st.count)
      then fault undefined
      else ok (record {
        entries = t.entries ++ (record { name = key; count = st.count; tv = st.tv } ∷ []);
        tot_count = t.tot_count + st.count;
        tot_usecs = ((t.tot_usecs + 1000000 * st.tv.tv_sec) % 2 ^ bits + st.tv.tv_usec) % 2 ^ bits;
      })

abbrev pub entry_usecs : EntrySt → ℕ
entry_usecs e = 1000000 * e.tv.tv_sec + e.tv.tv_usec

abbrev pub row_of : ℕ → EntrySt → Row
row_of tot_usecs e =
    let c = entry_usecs e in
    let p = 100000 * c / tot_usecs + 5 in
    record {
      percent = p / 1000;
      decimals = p / 10 % 100;
      tv = e.tv;
      usecs_per_call = c / e.count;
      calls = e.count;
      name = e.name;
    }

-- `c` is a product of `int`s before it is widened: above 2 ^ 31 - 1 it is undefined; so is a
-- division by 0.
unfoldable pub show_row : ℕ → EntrySt → Run Row
show_row tot_usecs e =
    if ltb (2 ^ 31 - 1) (entry_usecs e) || tot_usecs == 0 || e.count == 0
    then fault undefined
    else ok (row_of tot_usecs e)

unfoldable pub show_rows : ℕ → List EntrySt → Run (List Row)
unfolding show_row
show_rows tot_usecs [] = ok []
show_rows tot_usecs (e ∷ es) = do
  row ← show_row tot_usecs e
  rows ← show_rows tot_usecs es
  ok (row ∷ rows)

unfoldable pub show_summary :
    (bits : ℕ) (qsort : (EntrySt → EntrySt → ℤ) → List EntrySt → List EntrySt)
    → Option (Dict (List ℕ) OptCStruct)
    → Run Shown
unfolding show_rows fill_struct compar dict_apply_to_all
show_summary bits qsort dict_opt_c = do
  t ← dict_apply_to_all (fill_struct bits) dict_opt_c (ok no_totals)
  rows ← show_rows t.tot_usecs (qsort compar t.entries)
  ok (record {
    rows = rows;
    total_sec = t.tot_usecs / 1000000;
    total_usec = t.tot_usecs % 1000000;
    total_calls = t.tot_count;
  })

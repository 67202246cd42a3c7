-- ===== src/Summary/Table.antt =====
-- The table of utrace-0.1/summary.c: its totals and its rows.
use mathlib.Core.List.{foldl, append-nil, append_assoc}
use native.Mathlib.Nat.{zero-mod, mod-mod, mod-add-mod, div-lt_iff_lt-mul}
use utrace.Common.{
  ℕ, ◌+◌, ◌*◌, ◌/◌, ◌%◌, ◌^◌, ◌≤◌, ◌<◌, ◌≡◌, ◌≢◌, ◌-◌, ◌||◌, ◌∙◌, refl, ap, arith, List, [], ◌∷◌,
  ◌++◌, sym, some, ltb, ◌==◌, false,
}
use utrace.Dict.{DictEntry, Dict, dict_apply_to_all}
use utrace.Dict.Order.{entries, visit, dict_apply_to_all-foldl}
use utrace.Run.{ok, ◌>>=◌, Returns}
use utrace.Summary.{OptCStruct, EntrySt, Totals, no_totals, fill_struct, show_row, row_of}
use utrace.Summary.Times.{micros}

-- The time and the calls of all structs of a table.
unfoldable pub total_micros : List (DictEntry (List ℕ) OptCStruct) → ℕ
total_micros [] = 0
total_micros (e ∷ es) = 1000000 * e.value.tv.tv_sec + e.value.tv.tv_usec + total_micros es

unfoldable pub total_calls : List (DictEntry (List ℕ) OptCStruct) → ℕ
total_calls [] = 0
total_calls (e ∷ es) = e.value.count + total_calls es

-- The entries that are sorted and printed: one for each of the table, in its order.
unfoldable pub listed : List (DictEntry (List ℕ) OptCStruct) → List EntrySt
listed [] = []
listed (e ∷ es) = record { name = e.key; count = e.value.count; tv = e.value.tv } ∷ listed es

-- The variables of the file, after the entries `es`.
record IsSummed (bits : ℕ) (es : List (DictEntry (List ℕ) OptCStruct)) (t t' : Totals)
    : Type 0 where
  time : t'.tot_usecs ≡ (t.tot_usecs + total_micros es) % 2 ^ bits
  calls : t'.tot_count ≡ t.tot_count + total_calls es
  rows : t'.entries ≡ t.entries ++ listed es

sum_mod : (m s a b r : ℕ) → (((s + a) % m + b) % m + r) % m ≡ (s + (a + b + r)) % m
sum_mod m s a b r =
    mod-add-mod ((s + a) % m + b) m r
    ∙ ap (λ x. x % m) (omega arith)
    ∙ mod-add-mod (s + a) m (b + r)
    ∙ ap (λ x. x % m) (omega arith)

fill_all-IsSummed :
    (bits : ℕ) (es : List (DictEntry (List ℕ) OptCStruct)) (t : Totals)
    → t.tot_count + total_calls es < 2 ^ 31
    → t.tot_usecs % 2 ^ bits ≡ t.tot_usecs
    → Returns (foldl (visit (fill_struct bits)) (ok t) es) (IsSummed bits es t)
unfolding fill_struct total_micros total_calls listed
fill_all-IsSummed bits [] t few low = (
  t,
  refl,
  record {
    time = sym low ∙ ap (λ x. x % 2 ^ bits) (omega arith);
    calls = omega arith;
    rows = sym (append-nil t.entries);
  },
)
fill_all-IsSummed bits (e ∷ es) t few low =
    let t₁ : Totals = record {
      entries = t.entries ++ (record { name = e.key; count = e.value.count; tv = e.value.tv } ∷ []);
      tot_count = t.tot_count + e.value.count;
      tot_usecs =
          ((t.tot_usecs + 1000000 * e.value.tv.tv_sec) % 2 ^ bits + e.value.tv.tv_usec) % 2 ^ bits;
    } in
    let room : ltb (2 ^ 31 - 1) (t.tot_count + e.value.count) ≡ false = ground arith in
    let (t', run, s) = fill_all-IsSummed bits es t₁ (omega arith) (
      mod-mod ((t.tot_usecs + 1000000 * e.value.tv.tv_sec) % 2 ^ bits + e.value.tv.tv_usec)
        (2 ^ bits)) in
    (
      t',
      rw (fill_struct, ◌>>=◌, room) run,
      record {
        time =
            s.time
            ∙ sum_mod (2 ^ bits) t.tot_usecs (1000000 * e.value.tv.tv_sec) e.value.tv.tv_usec
                (total_micros es);
        calls = omega (arith, s.calls);
        rows = s.rows ∙ append_assoc t.entries _ (listed es);
      },
    )

-- What show_summary sorts and prints.
pub record AreTotals (bits : ℕ) (es : List (DictEntry (List ℕ) OptCStruct)) (t : Totals)
    : Type 0 where
  pub time : t.tot_usecs ≡ total_micros es % 2 ^ bits
  pub calls : t.tot_count ≡ total_calls es
  pub rows : t.entries ≡ listed es

-- For a table of fewer than 2 ^ 31 calls in all, the walk of show_summary over the table ends
-- without a fault: the rows are the entries of the table in the order of the walk, with their
-- names, counts and times, tot_usecs is the time of all entries of the table modulo the width of
-- an unsigned long, and tot_count is the number of their calls
pub totals-AreTotals :
    (bits : ℕ) (d : Dict (List ℕ) OptCStruct)
    → total_calls (entries d) < 2 ^ 31
    → Returns
        (dict_apply_to_all (fill_struct bits) (some d) (ok no_totals))
        (AreTotals bits (entries d))
totals-AreTotals bits d few =
    let (t, run, s) =
      fill_all-IsSummed bits (entries d) no_totals (omega arith) (zero-mod (2 ^ bits)) in
    (
      t,
      (dict_apply_to_all-foldl (fill_struct bits) d (ok no_totals)).0 ∙ run,
      record {
        time = s.time ∙ ap (λ x. x % 2 ^ bits) (omega arith);
        calls = s.calls ∙ omega arith;
        rows = s.rows;
      },
    )

no_guard :
    (c tot n : ℕ)
    → n ≢ 0
    → tot ≢ 0
    → c < 2 ^ 31
    → (ltb (2 ^ 31 - 1) c || tot == 0 || n == 0) ≡ false
no_guard c tot n h k l = ground arith

share_le : (c tot : ℕ) → tot ≢ 0 → c ≤ tot → 100000 * c / tot < 100001
share_le c tot h l = (div-lt_iff_lt-mul (omega arith)).1 (omega arith)

-- An entry with calls, of a time below 2 ^ 31 microseconds and no more than a total that is not 0,
-- is shown without a fault with a percentage of at most 100, decimals below 100 and its number of
-- calls
pub show_row_lem :
    (tot_usecs : ℕ) (e : EntrySt)
    → e.count ≢ 0
    → tot_usecs ≢ 0
    → micros e.tv ≤ tot_usecs
    → micros e.tv < 2 ^ 31
    → Returns
        (show_row tot_usecs e)
        (λ row. (row.percent ≤ 100) × (row.decimals < 100) × (row.calls ≡ e.count))
unfolding show_row
show_row_lem tot_usecs e c t le lt =
    let share = share_le (micros e.tv) tot_usecs t le in
    (
      row_of tot_usecs e,
      rw (no_guard (micros e.tv) tot_usecs e.count c t lt) refl,
      (omega arith, omega arith, refl),
    )

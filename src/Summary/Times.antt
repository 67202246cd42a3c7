-- ===== src/Summary/Times.antt =====
-- The times of utrace-0.1/output.c and utrace-0.1/summary.c, in microseconds.
use utrace.Common.{
  ℕ, ◌+◌, ◌*◌, ◌^◌, ◌≤◌, ◌<◌, ◌≡◌, ◌↔◌, ◌⊎◌, arith, leb, Bool-cases, inl, inr, ◌==◌,
}
use utrace.Common.Int.{sub_ℕ, neg_part}
use utrace.Tracee.{Timeval}
use utrace.Summary.{OptCStruct, EntrySt, add_call, compar, to_int}

abbrev pub micros : Timeval → ℕ
micros tv = 1000000 * tv.tv_sec + tv.tv_usec

-- Where the microseconds of the time spent are below a million and those of the sum at most a
-- million, one more call adds just the time spent to the sum, keeps its microseconds at most a
-- million, and counts one call
pub add_call_lem :
    (spent : Timeval) (st : OptCStruct)
    → spent.tv_usec < 1000000
    → st.tv.tv_usec ≤ 1000000
    → (micros (add_call spent st).tv ≡ micros st.tv + micros spent)
      × ((add_call spent st).tv.tv_usec ≤ 1000000)
      × ((add_call spent st).count ≡ st.count + 1)
unfolding add_call
add_call_lem spent st h k = (ground arith, ground arith, ground arith)

to_int_small : (x y : ℕ) → x < 2 ^ 31 → y < 2 ^ 31 → (0 < neg_part (to_int (sub_ℕ x y))) ↔ (x < y)
unfolding to_int
to_int_small x y h k = elim (Bool-cases (leb y x)) [ inl e ↦ ground arith | inr e ↦ ground arith ]

-- For two entries with seconds below 2 ^ 31 and at most a million microseconds, compar is negative
-- exactly when the first took longer, so the rows are ordered by falling time
pub compar_lem :
    (a b : EntrySt)
    → a.tv.tv_sec < 2 ^ 31
    → b.tv.tv_sec < 2 ^ 31
    → a.tv.tv_usec ≤ 1000000
    → b.tv.tv_usec ≤ 1000000
    → (0 < neg_part (compar a b)) ↔ (
        (b.tv.tv_sec < a.tv.tv_sec) ⊎ ((b.tv.tv_sec ≡ a.tv.tv_sec) × (b.tv.tv_usec < a.tv.tv_usec)))
unfolding compar
compar_lem a b sa sb ua ub =
    let secs = to_int_small b.tv.tv_sec a.tv.tv_sec sb sa in
    let usecs = to_int_small b.tv.tv_usec a.tv.tv_usec (omega arith) (omega arith) in
    elim (Bool-cases (b.tv.tv_sec == a.tv.tv_sec)) [
      | inl e ↦ rw e (ground (arith, usecs))
      | inr e ↦ rw e (ground (arith, secs))
    ]

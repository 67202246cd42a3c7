-- ===== src/Layout/Bounds.antt =====
-- What the beginning of a line shows, and the room that it needs.
use utrace.Common.{
  ℕ, suc, ◌+◌, ◌≤◌, ◌<◌, ◌≡◌, refl, arith, lt→ltb, ltb→lt, ◌/◌, Bool, false, Bool-cases, inl, inr,
  ltb, leb, length, [], ◌∷◌, ◌++◌, length-append, length-replicate, replicate,
}
use utrace.Common.Int.{◌+ℤ◌}
use utrace.Tracee.{Timeval, max_calldepth}
use utrace.Run.{Returns}
use utrace.Layout.{line_diff, decimal, two_wide, label, add_prefix_space}
use utrace.Callstack.Time.{spent_micros, micros}

decimal_one : (size n : ℕ) → n < 10 → decimal (suc size) n ≡ (48 + n) ∷ []
unfolding decimal
decimal_one size n h = rw (lt→ltb n 10 h) refl

decimal_two : (size n : ℕ) → ltb n 10 ≡ false → n < 100 → length (decimal (suc (suc size)) n) ≡ 2
unfolding decimal
decimal_two size n h l = rw (h, decimal_one size (n / 10) (omega arith)) refl

length-two_wide : (n : ℕ) → n < 100 → length (two_wide n) ≡ 2
unfolding two_wide
length-two_wide n h = elim (Bool-cases (ltb n 10)) [
  | inl e ↦ rw (e, decimal_one 9 n (ltb→lt n 10 e)) refl
  | inr e ↦ rw (e) (decimal_two 8 n e h)
]

length-label : (is_left : Bool) (n : ℕ) → n < 100 → length (label is_left n) ≡ 5
length-label is_left n h = omega (arith, length-append (two_wide n) (93 ∷ []), length-two_wide n h)

ltb_ge : (a b : ℕ) → b ≤ a → ltb a b ≡ false
ltb_ge a b h = ground arith

-- For a depth below 100 add_prefix_space writes within its buffer, and the string it makes is five
-- characters longer than the depth
pub add_prefix_space-Returns :
    (depth : ℕ) (is_left : Bool)
    → depth < max_calldepth
    → Returns (add_prefix_space depth is_left) (λ text. length text ≡ depth + 5)
unfolding add_prefix_space
add_prefix_space-Returns depth is_left h =
    let wide = length-label is_left depth h in
    (
      replicate depth 32 ++ label is_left depth,
      rw
          (
            add_prefix_space,
            ltb_ge max_calldepth depth (omega arith),
            ltb_ge 106 (depth + length (label is_left depth) + 1) (omega arith),
          )
          refl,
      omega (
        arith,
        length-append (replicate depth 32) (label is_left depth),
        length-replicate {A = ℕ} depth 32,
      ),
    )

-- For two times in normal form that do not run backwards, neither in seconds nor in all, the
-- difference that -r shows is the time between them
pub line_diff_lem :
    (tv old_tv : Timeval)
    → old_tv.tv_sec ≤ tv.tv_sec
    → old_tv.tv_usec < 1000000
    → tv.tv_usec < 1000000
    → micros old_tv ≤ micros tv
    → spent_micros (line_diff tv old_tv) + micros old_tv ≡ micros tv
unfolding line_diff ◌+ℤ◌
line_diff_lem tv old_tv s a b l = elim (Bool-cases (leb old_tv.tv_usec tv.tv_usec)) [
  | inl e ↦ rw e (ground arith)
  | inr e ↦ rw e (ground arith)
]

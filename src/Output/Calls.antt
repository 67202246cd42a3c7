-- ===== src/Output/Calls.antt =====
-- `output_left` and `output_right` of utrace-0.1/output.c: the lines of calls.
use utrace.Common.{
  ℕ, zero, suc, ◌+◌, ◌-◌, Bool, true, false, not, ◌&&◌, ◌||◌, List, [], ◌∷◌, ◌++◌, Option, none,
  some, ◌==◌, if◌then◌else◌, ltb,
}
use utrace.Common.Int.{negsuc, ◌+ℤ◌}
use utrace.Run.{Run, ok, ◌>>=◌}
use utrace.Ptrace.{Ptrace}
use utrace.Tracee.{Thread}
use utrace.Arguments.{Tof}
use utrace.Config.{ArgType, unknown, void, Function}
use utrace.Callstack.{element_at}
use utrace.Printf.{codes, unsigned_text}
use utrace.Values.{display_arg}
use utrace.Output.{
  Out, print, print_counted, tabto, leave_line, Surroundings, as_ulong, six_digits, shown_name,
  find_function, begin_of_line, print_prefix,
}
use utrace.Output.Counts.{spent_of, tally}

-- ` <%lu.%06d>` with `current_time_spent`
abbrev pub spent_text : Surroundings → List ℕ
spent_text e =
    codes " <"
    ++ unsigned_text (as_ulong (e.long_bits) e.current_time_spent.0)
    ++ codes "."
    ++ six_digits e.current_time_spent.1
    ++ codes ">"

abbrev pub is_void : ArgType → Bool
is_void void = true
is_void at = false

module _ (sizeof_long : ℕ) (p : Ptrace) (k : p.Kernel) (junk : ℕ) (e : Surroundings)
    (gimme_arg : Tof → Thread → Option ℕ → Run ℕ) (type : Tof) (thr : Thread) where
  -- `display_arg` with what it returns added to the column.
  unfoldable pub show_arg : Option ℕ → ArgType → Out → Run Out
  unfolding display_arg print_counted
  show_arg arg_num at s =
      display_arg (e.long_bits) sizeof_long p k junk e.settings.opt_s gimme_arg type thr arg_num at
      >>= λ text. ok (print_counted text s)

  -- The loops over `i` from `i` on, with the number of rounds that are left.
  unfoldable pub show_args : (rounds i : ℕ) → (ℕ → Run ArgType) → Out → Run Out
  unfolding show_arg
  show_args zero i at s = ok s
  show_args (suc n) i at s = do
    ty ← at i
    s₁ ← show_arg (some i) ty s
    show_args n (i + 1) at (print_counted (codes ", ") s₁)

  unfoldable pub last_left : Function → ℕ → Out → Run Out
  unfolding show_arg
  last_left func i s = do
    ty ← element_at func.arg_types i
    s₁ ← show_arg (some i) ty s
    ok (if func.params_right == 0 then s₁ else print_counted (codes ", ") s₁)

  -- The arguments at a call.
  unfoldable pub left_args : Option Function → Out → Run Out
  unfolding show_args last_left
  left_args none s = show_args 4 0 (λ i. ok unknown) s >>= λ s₁. show_arg (some 4) unknown s₁
  left_args (some func) s = do
    let i = func.num_params - func.params_right - 1
    s₁ ← show_args i 0 (element_at func.arg_types) s
    if ltb func.params_right func.num_params then last_left func i s₁ else ok s₁

  -- The name of a call and its arguments.
  unfoldable pub left_name : List ℕ → Out → Run Out
  unfolding shown_name find_function left_args
  left_name function_name s =
      let r = shown_name e function_name s in
      let f =
        find_function e function_name (e.list_of_functions)
          (print_counted (r.0 ++ codes "(") r.1) in
      left_args f.0 f.1

  -- The open line is left for one of this thread.
  unfoldable pub own_line : Out → Out
  unfolding leave_line
  own_line s = record (leave_line s) {
    current_pid = thr.tid;
    current_depth = thr.callstack_depth;
    current_column = if s.current_pid == 0 then s.current_column else 0;
  }

  unfoldable pub output_left : List ℕ → Out → Run Out
  unfolding begin_of_line print_prefix left_name own_line
  output_left function_name s = if e.settings.flags.opt_c then ok s else do
    s₁ ← begin_of_line e type (some thr) (own_line s)
    s₂ ← print_prefix s₁.current_depth true s₁
    left_name function_name s₂

  -- The test before a return is shown: the open line is another's, or there is none.
  unfoldable pub resume_line : List ℕ → Out → Run Out
  unfolding begin_of_line print_prefix shown_name
  resume_line function_name s = begin_of_line e type (some thr) s >>= λ s₁.
      print_prefix thr.callstack_depth false s₁ >>= λ s₂.
      let r = shown_name e function_name s₂ in ok (print_counted (r.0 ++ codes " resumed> ") r.1)

  unfoldable pub continue_line : List ℕ → Out → Run Out
  unfolding leave_line resume_line
  continue_line function_name s =
      let other = not (s.current_pid == thr.tid) || not (s.current_depth == thr.callstack_depth) in
      let s₁ = if not (s.current_pid == 0) && other then leave_line s else s in
      if s₁.current_pid == thr.tid then ok s₁ else resume_line function_name s₁

  -- `) `, the column of -a, and `= `
  unfoldable pub close_args : Out → Out
  unfolding print print_counted tabto
  close_args s =
      print (codes "= ") (tabto (e.settings.opt_a +ℤ negsuc 0) (print_counted (codes ") ") s))

  -- What was returned; it is not added to the column.
  unfoldable pub show_result : ArgType → Out → Run Out
  unfolding print display_arg
  show_result at s =
      display_arg (e.long_bits) sizeof_long p k junk e.settings.opt_s gimme_arg type thr none at
      >>= λ text. ok (print text s)

  unfoldable pub last_right : Function → Out → Run Out
  unfolding show_arg
  last_right func s =
      if func.params_right == 0
      then ok s
      else (element_at func.arg_types (func.num_params - 1) >>= λ ty.
          show_arg (some (func.num_params - 1)) ty s)

  -- The arguments on the right of a prototype, and what was returned.
  unfoldable pub right_args : Option Function → Out → Run Out
  unfolding show_args last_right close_args show_result
  right_args none s = show_result unknown (close_args s)
  right_args (some func) s = do
    s₁ ←
        show_args (func.params_right - 1) (func.num_params - func.params_right)
          (element_at func.arg_types) s
    s₂ ← last_right func s₁
    if is_void func.return_type
        then ok (print (codes "<void>") (close_args s₂))
        else show_result func.return_type (close_args s₂)

  -- The time of -T, and the end of the line.
  unfoldable pub end_line : Out → Out
  unfolding print
  end_line s =
      let s₁ = if e.settings.flags.opt_T then print (spent_text e) s else s in
      record (print (10 ∷ []) s₁) { current_pid = 0; current_column = 0 }

  unfoldable pub output_right : List ℕ → Out → Run Out
  unfolding find_function tally continue_line right_args end_line
  output_right function_name s =
      let f = find_function e function_name (e.list_of_functions) s in
      if e.settings.flags.opt_c
      then ok (tally (spent_of e) function_name f.1)
      else (continue_line function_name f.1 >>= λ s₁. right_args f.0 s₁ >>= λ s₂. ok (end_line s₂))

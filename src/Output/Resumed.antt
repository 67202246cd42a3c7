-- ===== src/Output/Resumed.antt =====
-- The number that `add_prefix_space` of utrace-0.1/output.c shows on a line that a return begins.
use mathlib.Core.List.{append_assoc}
use utrace.Common.{
  ℕ, replicate, ◌<◌, ◌≡◌, ◌≢◌, refl, ap, ◌∙◌, Bool-cases, false, inl, inr, List, [], ◌∷◌, ◌++◌,
  Option, some, ◌==◌,
}
use utrace.Run.{Run, ok, ◌>>=◌, Returns, bind-Returns, along-Returns}
use utrace.Ptrace.{Ptrace}
use utrace.Tracee.{Thread, max_calldepth}
use utrace.Arguments.{Tof}
use utrace.Config.{Function}
use utrace.Layout.{decimal}
use utrace.Layout.Bounds.{add_prefix_space-Returns}
use utrace.Printf.{codes, unsigned_text, wide, signed, signed_text}
use utrace.Printf.Plain.{IsPlain, append-IsPlain}
use utrace.Output.{
  Out, print_counted, leave_line, Surroundings, find_function, begin_of_line, print_prefix,
}
use utrace.Output.Plain.{refl-Extends, shown_name-plain, Adds, counted-Adds}
use utrace.Output.Begin.{add_prefix_space-IsPlain, begin_of_line-Extends}
use utrace.Output.Args.{Showable}
use utrace.Output.Calls.{resume_line, output_right}
use utrace.Output.Lines.{IsShowing, found-IsPrototype}
use utrace.Output.Ends.{continued, resumed, finish_line, continue_line_idle, rest_of_line}

regroup :
    (a before rest more : List ℕ)
    → (a ++ (before ++ (codes "[    0] " ++ rest))) ++ more
      ≡ a ++ (before ++ (codes "[    0] " ++ (rest ++ more)))
regroup a before rest more =
    append_assoc a (before ++ (codes "[    0] " ++ rest)) more
    ∙ ap (λ x. a ++ x) (append_assoc before (codes "[    0] " ++ rest) more)

module _ (sizeof_long : ℕ) (p : Ptrace) (k : p.Kernel) (junk : ℕ) (e : Surroundings)
    (gimme_arg : Tof → Thread → Option ℕ → Run ℕ) (type : Tof) (thr : Thread) (name : List ℕ)
    (showing : IsShowing e) (plain : IsPlain name) (real : thr.tid ≢ 0)
    (room : thr.callstack_depth < max_calldepth)
    (showable : Showable sizeof_long p k junk e gimme_arg type thr) where
  abbrev continuing : Out → Run Out
  continuing =
      continued sizeof_long p k junk e gimme_arg type thr name showing plain real room showable

  abbrev resuming : Out → Run Out
  resuming = resumed sizeof_long p k junk e gimme_arg type thr name showing plain real room showable

  abbrev finishing : Option Function → Out → Run Out
  finishing =
      finish_line sizeof_long p k junk e gimme_arg type thr name showing plain real room showable

  zero_text : wide 32 5 (signed_text (signed 32 0)) ≡ codes "    0"
  unfolding wide signed signed_text unsigned_text decimal replicate
  zero_text = refl

  -- With no line open the prefix has the number 0.
  zero_prefix :
      (s : Out)
      → s.current_pid ≡ 0
      → Returns
          (print_prefix thr.callstack_depth false s)
          λ t. (spaces : List ℕ) × Adds s t (codes "[    0] " ++ spaces)
  unfolding print_prefix
  zero_prefix s pid =
      let (spaces, run, _) = add_prefix_space-Returns thr.callstack_depth false room in
      let text = codes "[    0] " ++ spaces in
      (
        print_counted text s,
        rw (run, ◌>>=◌)
            (ap
                (λ n. ok (
                  print_counted
                    (codes "[" ++ wide 32 5 (signed_text (signed 32 n)) ++ codes "] " ++ spaces) s))
                pid
              ∙ ap (λ x. ok (print_counted (codes "[" ++ x ++ codes "] " ++ spaces) s)) zero_text),
        (
          spaces,
          counted-Adds text s (
              append-IsPlain (codes "[    0] ") spaces refl
                (add_prefix_space-IsPlain thr.callstack_depth false spaces run)),
        ),
      )

  zero_line :
      (s : Out)
      → s.current_pid ≡ 0
      → Returns (resuming s) λ t.
        (before : List ℕ) × (rest : List ℕ) × (t.written
          ≡ s.written ++ (before ++ (codes "[    0] " ++ rest)))
  unfolding resume_line
  zero_line s pid =
      bind-Returns (begin_of_line e type (some thr) s) _
        (begin_of_line-Extends e type (some thr) s showing.some_process)
        λ s₁ x₁.
          bind-Returns (print_prefix thr.callstack_depth false s₁) _
            (zero_prefix s₁ (x₁.same_pid ∙ pid))
            λ s₂ (spaces, a₂).
              let text = name ++ codes " resumed> " in
              let a₃ = counted-Adds text s₂ (append-IsPlain name (codes " resumed> ") plain refl) in
              (
                print_counted text s₂,
                rw (shown_name-plain e name s₂ showing.no_demangle) refl,
                (
                  x₁.more,
                  spaces ++ text,
                  a₃.written
                      ∙ ap (λ w. w ++ text)
                          (a₂.written
                            ∙ ap (λ w. w ++ (codes "[    0] " ++ spaces)) x₁.written
                            ∙ append_assoc s.written x₁.more (codes "[    0] " ++ spaces))
                      ∙ regroup s.written x₁.more spaces text,
                ),
              )

  leave_line_idle : (s : Out) → s.current_pid ≡ 0 → (leave_line s).current_pid ≡ 0
  unfolding leave_line
  leave_line_idle s pid = elim (Bool-cases (s.current_pid == 0)) [
    | inl idle ↦ rw idle pid
    | inr busy ↦ rw busy refl
  ]

  -- Without -c and -C, where no line is open, output_right for a thread with an id, within its
  -- stack, whose arguments can be shown, ends without a fault and begins a line whose prefix shows
  -- the number 0, whatever the id of the thread is
  pub output_right_zero :
      (s : Out)
      → s.current_pid ≡ 0
      → Returns (output_right sizeof_long p k junk e gimme_arg type thr name s) λ t.
        (before : List ℕ) × (rest : List ℕ) × (t.written
          ≡ (leave_line s).written ++ (before ++ (codes "[    0] " ++ rest)))
  unfolding output_right
  output_right_zero s pid =
      let (same, proto) = found-IsPrototype e name s showing in
      let func = (find_function e name (e.list_of_functions) s).0 in
      let s₀ = leave_line s in
      along-Returns (output_right sizeof_long p k junk e gimme_arg type thr name s)
        (continuing s >>= finishing func) (rw (output_right, showing.no_count, same) refl)
        (along-Returns _ _
          (ap (λ r. r >>= finishing func)
            (continue_line_idle sizeof_long p k junk e gimme_arg type thr name showing plain real
              room showable s pid))
          (bind-Returns (resuming s₀) (finishing func) (zero_line s₀ (leave_line_idle s pid))
            λ s₁ (before, rest, a).
              let (t, run, f) =
                rest_of_line sizeof_long p k junk e gimme_arg type thr name showing plain real room
                  showable s₁ s₁ func (refl-Extends s₁) proto in
              (
                t,
                run,
                (
                  before,
                  rest ++ (f.more ++ 10 ∷ []),
                  f.written
                      ∙ ap (λ w. w ++ (f.more ++ 10 ∷ [])) a
                      ∙ regroup s₀.written before rest (f.more ++ 10 ∷ []),
                ),
              )))

-- ===== src/Output/Lines.antt =====
-- The calls of utrace-0.1/output.c as the lines that a reader sees: a line is of one call of one
-- thread.
use mathlib.Core.List.{append_assoc}
use utrace.Common.{
  ℕ, ◌<◌, ◌≡◌, ◌≢◌, refl, sym, ap, subst, ◌∙◌, arith, true, false, inl, inr, List, [], ◌∷◌, ◌++◌,
  Option, some, get_elem?,
}
use utrace.Run.{Run, ok, ◌>>=◌, Returns, bind-Returns, along-Returns}
use utrace.Ptrace.{Ptrace}
use utrace.Tracee.{Thread, max_calldepth}
use utrace.Arguments.{Tof, tof_none}
use utrace.Config.{Function}
use utrace.Printf.{codes}
use utrace.Printf.Plain.{IsPlain, append-IsPlain}
use utrace.Output.{
  Out, print, print_counted, leave_line, Surroundings, find_function, begin_of_line, output_line,
  print_prefix,
}
use utrace.Output.Plain.{
  trans-Extends, shown_name-plain, find_function-All, Adds, Extends-Adds, trans-Adds, counted-Adds,
}
use utrace.Output.Begin.{begin_of_line-Extends, print_prefix-Extends}
use utrace.Output.Args.{IsPrototype, Showable, left_args-Extends}
use utrace.Output.Calls.{left_name, own_line, output_left}
use utrace.Output.Pages.{Page, Shows, add_line, give_up_line, open_call}
use utrace.Output.Writing.{ended, leave_line-Shows, fresh-written, opened, give_up-owner}

-- The options and tables under which lines are shown: without -c and without -C, with a process in
-- the list and with prototypes.
pub record IsShowing (e : Surroundings) : Type 0 where
  pub no_count : e.settings.flags.opt_c ≡ false
  pub no_demangle : e.settings.opt_C ≡ 0
  pub some_process : e.processes ≢ 0
  pub prototypes : (i : ℕ) (f : Function) → get_elem? e.list_of_functions i ≡ some f → IsPrototype f

-- Without -c output_line gives up the line that is open, and adds a line with its message at the
-- end, or none where it has no message
pub output_line-Shows :
    (e : Surroundings) (thr : Option Thread) (text : List ℕ) (s : Out) (page : Page)
    → IsShowing e
    → IsPlain text
    → Shows s page
    → Returns
        (output_line e thr (some text) s)
        λ t. (before : List ℕ) × Shows t (add_line (before ++ text) (give_up_line page))
unfolding output_line print give_up_line
output_line-Shows e thr text s page showing plain v =
    let v₁ = leave_line-Shows s page v in
    along-Returns _ _ (rw (output_line, showing.no_count) refl) (
      bind-Returns (begin_of_line e tof_none thr (leave_line s))
        (λ s₁. ok (record (print (text ++ 10 ∷ []) s₁) { current_column = 0 }))
        (begin_of_line-Extends e tof_none thr (leave_line s) showing.some_process)
        λ s₁ x. (
          record (print (text ++ 10 ∷ []) s₁) { current_column = 0 },
          refl,
          (
            x.more,
            ended (leave_line s) (record (print (text ++ 10 ∷ []) s₁) { current_column = 0 })
                (give_up_line page).lines [] (x.more ++ text) (fresh-written (leave_line s) page v₁)
                v₁.whole refl (append-IsPlain x.more text x.plain plain)
                (ap (λ w. w ++ (text ++ 10 ∷ [])) x.written
                  ∙ append_assoc (leave_line s).written x.more (text ++ 10 ∷ [])
                  ∙ ap (λ w. (leave_line s).written ++ w)
                      (sym (append_assoc x.more text (10 ∷ []))))
                (x.same_pid ∙ v₁.pid ∙ give_up-owner page.lines page.open_line),
          ),
        ))

-- The prototype that was found, if any.
pub found-IsPrototype :
    (e : Surroundings) (name : List ℕ) (s : Out)
    → IsShowing e
    → let f = find_function e name (e.list_of_functions) s in
      (f.1 ≡ s) × ((g : Function) → f.0 ≡ some g → IsPrototype g)
found-IsPrototype e name s showing =
    elim (find_function-All IsPrototype e name (e.list_of_functions) s showing.no_demangle
      showing.prototypes) [
        | inl absent ↦ rw absent (refl, λ g h. absurd (cc h))
        | inr (f, found, proto) ↦
            rw found (refl, λ g h. let same : f ≡ g = cc h in subst IsPrototype same proto)
      ]

-- The text has the name and its left parenthesis.
abbrev pub Names : (name text : List ℕ) → Type 0
Names name text =
    (before : List ℕ) × (rest : List ℕ) × (text ≡ before ++ ((name ++ codes "(") ++ rest))

module _ (sizeof_long : ℕ) (p : Ptrace) (k : p.Kernel) (junk : ℕ) (e : Surroundings)
    (gimme_arg : Tof → Thread → Option ℕ → Run ℕ) (type : Tof) (thr : Thread) (name : List ℕ)
    (showing : IsShowing e) (plain : IsPlain name) (real : thr.tid ≢ 0)
    (room : thr.callstack_depth < max_calldepth)
    (showable : Showable sizeof_long p k junk e gimme_arg type thr) where
  left_name-Adds :
      (s : Out)
      → Returns
          (left_name sizeof_long p k junk e gimme_arg type thr name s)
          λ t. (rest : List ℕ) × Adds s t ((name ++ codes "(") ++ rest)
  unfolding left_name
  left_name-Adds s =
      let s₁ = print_counted (name ++ codes "(") s in
      let (same, proto) = found-IsPrototype e name s₁ showing in
      let f = find_function e name (e.list_of_functions) s₁ in
      let a₁ = counted-Adds (name ++ codes "(") s (append-IsPlain name (codes "(") plain refl) in
      let (s₂, run, x₂) =
        left_args-Extends sizeof_long p k junk e gimme_arg type thr showable f.0 s₁ proto in
      (
        s₂,
        rw (left_name, shown_name-plain e name s showing.no_demangle, same) run,
        (x₂.more, trans-Adds s s₁ s₂ _ _ a₁ (Extends-Adds s₁ s₂ x₂)),
      )

  -- Without -c, for a thread with an id, output_left gives up the line that is open, and leaves open
  -- a line that is the thread's at its depth
  pub output_left-Shows :
      (s : Out) (page : Page)
      → Shows s page
      → Returns (output_left sizeof_long p k junk e gimme_arg type thr name s) λ t.
        (text : List ℕ) × Names name text
        × Shows t (open_call thr.tid thr.callstack_depth text page)
  unfolding output_left own_line
  output_left-Shows s page v =
      let s₀ = own_line sizeof_long p k junk e gimme_arg type thr s in
      let v₁ = leave_line-Shows s page v in
      along-Returns _ _ (rw (output_left, showing.no_count) refl) (
        bind-Returns (begin_of_line e type (some thr) s₀)
          (λ s₁.
            print_prefix s₁.current_depth true s₁
            >>= left_name sizeof_long p k junk e gimme_arg type thr name)
          (begin_of_line-Extends e type (some thr) s₀ showing.some_process)
          λ s₁ x₁.
            bind-Returns (print_prefix s₁.current_depth true s₁)
              (left_name sizeof_long p k junk e gimme_arg type thr name)
              (print_prefix-Extends s₁.current_depth true s₁ (omega (arith, x₁.same_depth)))
              λ s₂ x₂.
                let (s₃, run, (rest, a₃)) = left_name-Adds s₂ in
                let x = trans-Extends s₀ s₁ s₂ x₁ x₂ in
                let text = x.more ++ ((name ++ codes "(") ++ rest) in
                let a =
                  trans-Adds s₀ s₂ s₃ x.more ((name ++ codes "(") ++ rest) (Extends-Adds s₀ s₂ x)
                    a₃ in
                (
                  s₃,
                  run,
                  (
                    text,
                    (x.more, rest, refl),
                    opened (leave_line s) s₃ page thr.tid thr.callstack_depth text real v₁ a.written
                        a.plain a.same_pid a.same_depth,
                  ),
                ))

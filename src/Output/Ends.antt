-- ===== src/Output/Ends.antt =====
-- `output_right` of utrace-0.1/output.c: a return finishes the line of its call, or is on a line of its
-- own.
use mathlib.Core.List.{append_assoc}
use utrace.Common.{
  ℕ, ◌<◌, ◌≡◌, ◌≢◌, refl, sym, ap, ap₂, subst, ◌∙◌, Bool, Bool-cases, true, false, inl, inr, not,
  ◌&&◌, ◌||◌, List, [], ◌∷◌, ◌++◌, Option, none, some, ◌==◌, ==_ne, ==_iff, if◌then◌else◌,
}
use utrace.Run.{Run, ok, ◌>>=◌, Returns, bind-Returns, along-Returns, weaken-Returns}
use utrace.Ptrace.{Ptrace}
use utrace.Tracee.{Thread, max_calldepth}
use utrace.Arguments.{Tof}
use utrace.Config.{Function}
use utrace.Printf.{codes, unsigned_text}
use utrace.Printf.Plain.{IsPlain, append-IsPlain, unsigned_text-IsPlain}
use utrace.Output.{
  Out, print, print_counted, leave_line, Surroundings, as_ulong, six_digits, find_function,
  begin_of_line, print_prefix,
}
use utrace.Output.Plain.{
  Extends, refl-Extends, trans-Extends, print-Extends, print_counted-Extends, if-Extends,
  shown_name-plain,
}
use utrace.Output.Begin.{begin_of_line-Extends, print_prefix-Extends, dotted-IsPlain}
use utrace.Output.Args.{IsPrototype, Showable, right_args-Extends}
use utrace.Output.Calls.{spent_text, resume_line, continue_line, right_args, end_line, output_right}
use utrace.Output.Pages.{
  Open, Page, unlines, open_text, owner_of, IsOwned, Shows, add_line, give_up_line, close_call_in,
  close_call,
}
use utrace.Output.Writing.{ended, leave_line-Shows, fresh-written, Finished}
use utrace.Output.Lines.{IsShowing, found-IsPrototype}

spent_text-IsPlain : (e : Surroundings) → IsPlain (spent_text e)
spent_text-IsPlain e =
    let sec = unsigned_text (as_ulong (e.long_bits) e.current_time_spent.0) in
    append-IsPlain (codes " <" ++ sec ++ codes "." ++ six_digits e.current_time_spent.1) (codes ">")
      (dotted-IsPlain (codes " <" ++ sec) e.current_time_spent.1 (
        append-IsPlain (codes " <") sec refl
          (unsigned_text-IsPlain (as_ulong (e.long_bits) e.current_time_spent.0))))
      refl

both_true : (a b : Bool) → a && b ≡ true → (a ≡ true) × (b ≡ true)
both_true true b h = (refl, h)
both_true false b h = absurd (cc h)

one_false : (a b : Bool) → a && b ≡ false → not a || not b ≡ true
one_false true b h = rw h refl
one_false false b h = refl

module _ (sizeof_long : ℕ) (p : Ptrace) (k : p.Kernel) (junk : ℕ) (e : Surroundings)
    (gimme_arg : Tof → Thread → Option ℕ → Run ℕ) (type : Tof) (thr : Thread) (name : List ℕ)
    (showing : IsShowing e) (plain : IsPlain name) (real : thr.tid ≢ 0)
    (room : thr.callstack_depth < max_calldepth)
    (showable : Showable sizeof_long p k junk e gimme_arg type thr) where
  abbrev pub continued : Out → Run Out
  continued = continue_line sizeof_long p k junk e gimme_arg type thr name

  abbrev pub resumed : Out → Run Out
  resumed = resume_line sizeof_long p k junk e gimme_arg type thr name

  -- The open line is that of the call.
  continue_line_own :
      (s : Out)
      → s.current_pid ≡ thr.tid
      → s.current_depth ≡ thr.callstack_depth
      → continued s ≡ ok s
  unfolding continue_line
  continue_line_own s pid level =
      let own : (s.current_pid == thr.tid) ≡ true = (==_iff s.current_pid thr.tid).1 pid in
      let here : (s.current_depth == thr.callstack_depth) ≡ true =
        (==_iff s.current_depth thr.callstack_depth).1 level in
      continues (s.current_pid == 0) own here
    where
      continues :
          (idle : Bool)
          → (s.current_pid == thr.tid) ≡ true
          → (s.current_depth == thr.callstack_depth) ≡ true
          → (let other =
                not (s.current_pid == thr.tid) || not (s.current_depth == thr.callstack_depth) in
              let s₁ = if not idle && other then leave_line s else s in
              if s₁.current_pid == thr.tid then ok s₁ else resumed s₁)
            ≡ ok s
      continues true own here = rw (own) refl
      continues false own here = simp (own, here)

  -- No line is open.
  pub continue_line_idle : (s : Out) → s.current_pid ≡ 0 → continued s ≡ resumed (leave_line s)
  unfolding continue_line leave_line
  continue_line_idle s pid =
      let idle : (s.current_pid == 0) ≡ true = ap (λ x. x == 0) pid in
      let other : (s.current_pid == thr.tid) ≡ false =
        ap (λ x. x == thr.tid) pid ∙ ==_ne 0 thr.tid λ h. real (sym h) in
      simp (idle, other)

  -- The open line is another's, or of another depth.
  continue_line_other :
      (s : Out)
      → (s.current_pid == 0) ≡ false
      → not (s.current_pid == thr.tid) || not (s.current_depth == thr.callstack_depth) ≡ true
      → continued s ≡ resumed (leave_line s)
  unfolding continue_line leave_line
  continue_line_other s busy other =
      let fresh : (0 == thr.tid) ≡ false = ==_ne 0 thr.tid λ h. real (sym h) in
      simp (busy, other, fresh)

  resume_line-Extends : (s : Out) → Returns (resumed s) (Extends s)
  unfolding resume_line
  resume_line-Extends s =
      bind-Returns (begin_of_line e type (some thr) s) _
        (begin_of_line-Extends e type (some thr) s showing.some_process)
        λ s₁ x₁.
          bind-Returns (print_prefix thr.callstack_depth false s₁) _
            (print_prefix-Extends thr.callstack_depth false s₁ room)
            λ s₂ x₂.
              let text = name ++ codes " resumed> " in
              (
                print_counted text s₂,
                rw (shown_name-plain e name s₂ showing.no_demangle) refl,
                trans-Extends s s₁ _ x₁ (
                    trans-Extends s₁ s₂ _ x₂ (
                      print_counted-Extends text s₂
                        (append-IsPlain name (codes " resumed> ") plain refl))),
              )

  end_line-Finished :
      (s t : Out) → Extends s t → Finished s (end_line sizeof_long p k junk e gimme_arg type thr t)
  unfolding end_line print
  end_line-Finished s t x =
      let timed = if e.settings.flags.opt_T then print (spent_text e) t else t in
      let x₁ = trans-Extends s t timed x (
        if-Extends e.settings.flags.opt_T t _ t
          (print-Extends (spent_text e) t (spent_text-IsPlain e)) (refl-Extends t)) in
      record {
        more = x₁.more;
        written = ap (λ w. w ++ 10 ∷ []) x₁.written ∙ append_assoc s.written x₁.more (10 ∷ []);
        plain = x₁.plain;
        pid = refl;
      }

  -- The arguments on the right, what was returned, and the end of the line.
  pub rest_of_line :
      (s s₁ : Out) (func : Option Function)
      → Extends s s₁
      → ((f : Function) → func ≡ some f → IsPrototype f)
      → Returns
          (right_args sizeof_long p k junk e gimme_arg type thr func s₁ >>= λ s₂.
            ok (end_line sizeof_long p k junk e gimme_arg type thr s₂))
          (Finished s)
  rest_of_line s s₁ func x proto =
      let (s₂, run, x₂) =
        right_args-Extends sizeof_long p k junk e gimme_arg type thr showable func s₁ proto in
      (
        end_line sizeof_long p k junk e gimme_arg type thr s₂,
        rw (run, ◌>>=◌) refl,
        end_line-Finished s s₂ (trans-Extends s s₁ s₂ x x₂),
      )

  abbrev pub finish_line : Option Function → Out → Run Out
  finish_line func s₁ = right_args sizeof_long p k junk e gimme_arg type thr func s₁ >>= λ s₂.
      ok (end_line sizeof_long p k junk e gimme_arg type thr s₂)

  -- A line of its own.
  on_new_line :
      (s : Out) (page : Page) (func : Option Function)
      → Shows s page
      → ((f : Function) → func ≡ some f → IsPrototype f)
      → continued s ≡ resumed (leave_line s)
      → Returns
          (continued s >>= finish_line func)
          λ t. (text : List ℕ) × Shows t (add_line text (give_up_line page))
  unfolding give_up_line
  on_new_line s page func v proto fresh =
      let v₁ = leave_line-Shows s page v in
      along-Returns _ _ (ap (λ r. r >>= finish_line func) fresh) (
        bind-Returns (resumed (leave_line s)) (finish_line func)
          (resume_line-Extends (leave_line s))
          λ s₁ x₁.
            weaken-Returns (finish_line func s₁) (rest_of_line (leave_line s) s₁ func x₁ proto)
              λ t f. (
                f.more,
                ended (leave_line s) t (give_up_line page).lines [] f.more
                    (fresh-written (leave_line s) page v₁) v₁.whole refl f.plain f.written f.pid,
              ))

  -- Without -c, for a thread with an id, output_right finishes the line that is open where it is of
  -- the thread at its depth; otherwise it gives up that line and adds one of its own; no line is
  -- open then
  pub output_right-Shows :
      (s : Out) (page : Page)
      → Shows s page
      → Returns
          (output_right sizeof_long p k junk e gimme_arg type thr name s)
          λ t. (text : List ℕ) × Shows t (close_call thr.tid thr.callstack_depth text page)
  unfolding output_right close_call
  output_right-Shows s page v =
      let (same, proto) = found-IsPrototype e name s showing in
      let func = (find_function e name (e.list_of_functions) s).0 in
      along-Returns (output_right sizeof_long p k junk e gimme_arg type thr name s)
        (continued s >>= finish_line func) (rw (output_right, showing.no_count, same) refl)
        (closed page.open_line refl func proto)
    where
      owned : (o : Option Open) → page.open_line ≡ o → IsOwned s.current_depth o
      owned o at = subst (IsOwned s.current_depth) at v.owned

      on_own_line :
          (o : Open) (func : Option Function)
          → page.open_line ≡ some o
          → ((f : Function) → func ≡ some f → IsPrototype f)
          → s.current_pid ≡ thr.tid
          → s.current_depth ≡ thr.callstack_depth
          → Returns (continued s >>= finish_line func) λ t.
            (text : List ℕ) × Shows t
              (record { lines = page.lines ++ (o.so_far ++ text) ∷ []; open_line = none })
      on_own_line o func at proto pid level =
          along-Returns (continued s >>= finish_line func) (finish_line func s)
            (ap (λ r. r >>= finish_line func) (continue_line_own s pid level))
            (weaken-Returns (finish_line func s) (rest_of_line s s func (refl-Extends s) proto)
              λ t f. (
                f.more,
                ended s t page.lines o.so_far f.more
                    (v.written ∙ ap (λ q. unlines page.lines ++ open_text q) at) v.whole
                    (subst (λ q. IsPlain (open_text q)) at v.plain) f.plain f.written f.pid,
              ))

      closed :
          (o : Option Open)
          → page.open_line ≡ o
          → (func : Option Function) → ((f : Function) → func ≡ some f → IsPrototype f)
          → Returns
              (continued s >>= finish_line func)
              λ t. (text : List ℕ) × Shows t (close_call_in thr.tid thr.callstack_depth text page o)
      closed none at func proto =
          on_new_line s page func v proto (continue_line_idle s (v.pid ∙ ap owner_of at))
      closed (some o) at func proto =
          let pid : s.current_pid ≡ o.owner = v.pid ∙ ap owner_of at in
          let (owner, level) = owned (some o) at in
          elim (Bool-cases (o.owner == thr.tid && o.depth == thr.callstack_depth)) [
            | inl own ↦
                let (same_owner, same_level) = both_true _ _ own in
                rw own (
                  on_own_line o func at proto (pid ∙ (==_iff o.owner thr.tid).0 same_owner)
                    (level ∙ (==_iff o.depth thr.callstack_depth).0 same_level))
            | inr other ↦ rw other (
                on_new_line s page func v proto (
                  continue_line_other s (ap (λ x. x == 0) pid ∙ ==_ne o.owner 0 owner) (
                    ap₂ (λ x y. not (x == thr.tid) || not (y == thr.callstack_depth)) pid level
                    ∙ one_false (o.owner == thr.tid) (o.depth == thr.callstack_depth) other)))
          ]

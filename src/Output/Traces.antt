-- ===== src/Output/Traces.antt =====
-- Any sequence of the calls of utrace-0.1/output.c, as the lines that a reader sees.
use mathlib.Core.List.{append_assoc}
use utrace.Common.{
  ℕ, ◌<◌, ◌≡◌, ◌≢◌, refl, ◌∙◌, ap, ==_refl, List, [], ◌∷◌, ◌++◌, Option, some, true, ◌&&◌, ◌==◌,
}
use utrace.Run.{Run, ok, ◌>>=◌, Returns, bind-Returns, weaken-Returns}
use utrace.Ptrace.{Ptrace}
use utrace.Tracee.{Thread, max_calldepth}
use utrace.Arguments.{Tof}
use utrace.Printf.{codes}
use utrace.Printf.Plain.{IsPlain}
use utrace.Output.{Out, Surroundings, output_line}
use utrace.Output.Pages.{Page, Shows, add_line, give_up_line, open_call, close_call}
use utrace.Output.Args.{Showable}
use utrace.Output.Calls.{output_left, output_right}
use utrace.Output.Lines.{IsShowing, Names, output_line-Shows, output_left-Shows}
use utrace.Output.Ends.{output_right-Shows}

module _ (sizeof_long : ℕ) (p : Ptrace) (junk : ℕ) where
  -- What a call of output_left or output_right is made with.
  pub record Site : Type 0 where
    pub kernel : p.Kernel
    pub around : Surroundings
    pub args : Tof → Thread → Option ℕ → Run ℕ
    pub type : Tof
    pub thread : Thread
    pub function_name : List ℕ

  pub data Call : Type 0 where
    message : Surroundings → Option Thread → List ℕ → Call
    entry : Site → Call
    return : Site → Call

  unfoldable pub make_call : Call → Out → Run Out
  unfolding output_line output_left output_right
  make_call (message e thr text) s = output_line e thr (some text) s
  make_call (entry c) s =
      output_left sizeof_long p c.kernel junk c.around c.args c.type c.thread c.function_name s
  make_call (return c) s =
      output_right sizeof_long p c.kernel junk c.around c.args c.type c.thread c.function_name s

  unfoldable pub make_calls : List Call → Out → Run Out
  unfolding make_call
  make_calls [] s = ok s
  make_calls (c ∷ cs) s = make_call c s >>= make_calls cs

  -- A thread with an id, within its stack, whose arguments can be shown.
  pub record IsSite (c : Site) : Type 0 where
    pub showing : IsShowing c.around
    pub plain : IsPlain c.function_name
    pub real : c.thread.tid ≢ 0
    pub room : c.thread.callstack_depth < max_calldepth
    pub showable : Showable sizeof_long p c.kernel junk c.around c.args c.type c.thread

  abbrev pub AreCalls : List Call → Type 0
  AreCalls [] = Unit {0}
  AreCalls (message e thr text ∷ cs) = IsShowing e × IsPlain text × AreCalls cs
  AreCalls (entry c ∷ cs) = IsSite c × AreCalls cs
  AreCalls (return c ∷ cs) = IsSite c × AreCalls cs

  -- What the calls make of a page.
  pub data Moves : Page → List Call → Page → Type 0 where
    no_call : (page : Page) → Moves page [] page
    a_message :
        {page last : Page} {cs : List Call} (e : Surroundings) (thr : Option Thread)
        (text before : List ℕ)
        → Moves (add_line (before ++ text) (give_up_line page)) cs last
        → Moves page (message e thr text ∷ cs) last
    an_entry :
        {page last : Page} {cs : List Call} (c : Site) (text : List ℕ)
        → Names c.function_name text
        → Moves (open_call c.thread.tid c.thread.callstack_depth text page) cs last
        → Moves page (entry c ∷ cs) last
    a_return :
        {page last : Page} {cs : List Call} (c : Site) (text : List ℕ)
        → Moves (close_call c.thread.tid c.thread.callstack_depth text page) cs last
        → Moves page (return c ∷ cs) last

  -- Without -c and -C, for threads with ids and within their stacks whose arguments can be shown,
  -- any sequence of calls of output_line, output_left and output_right ends without a fault, and a
  -- reader sees the lines that the calls make one after the other: a call opens a line of its
  -- thread, which its return finishes unless another call or message comes between them
  pub make_calls-Shows :
      (cs : List Call) (s : Out) (page : Page)
      → AreCalls cs
      → Shows s page
      → Returns (make_calls cs s) λ t. (last : Page) × Moves page cs last × Shows t last
  unfolding make_calls make_call
  make_calls-Shows [] s page a v = (s, refl, (page, no_call page, v))
  make_calls-Shows (message e thr text ∷ cs) s page a v =
      bind-Returns (output_line e thr (some text) s) (make_calls cs)
        (output_line-Shows e thr text s page a.0 a.1 v)
        λ s₁ (before, v₁).
          weaken-Returns (make_calls cs s₁)
            (make_calls-Shows cs s₁ (add_line (before ++ text) (give_up_line page)) a.2 v₁)
            λ t (last, m, w). (last, a_message e thr text before m, w)
  make_calls-Shows (entry c ∷ cs) s page a v =
      let i = a.0 in
      bind-Returns (make_call (entry c) s) (make_calls cs)
        (output_left-Shows sizeof_long p (c.kernel) junk (c.around) (c.args) (c.type) (c.thread)
          (c.function_name) i.showing i.plain i.real i.room i.showable s page v)
        λ s₁ (text, names, v₁).
          weaken-Returns (make_calls cs s₁)
            (make_calls-Shows cs s₁ (open_call c.thread.tid c.thread.callstack_depth text page) a.1
              v₁)
            λ t (last, m, w). (last, an_entry c text names m, w)
  make_calls-Shows (return c ∷ cs) s page a v =
      let i = a.0 in
      bind-Returns (make_call (return c) s) (make_calls cs)
        (output_right-Shows sizeof_long p (c.kernel) junk (c.around) (c.args) (c.type) (c.thread)
          (c.function_name) i.showing i.plain i.real i.room i.showable s page v)
        λ s₁ (text, v₁).
          weaken-Returns (make_calls cs s₁)
            (make_calls-Shows cs s₁ (close_call c.thread.tid c.thread.callstack_depth text page) a.1
              v₁)
            λ t (last, m, w). (last, a_return c text m, w)

  -- Without -c and -C, a call of a thread with an id, within its stack, and, as the next of all
  -- calls, its return at the same depth, where the arguments of both can be shown, are shown in
  -- one line, which has the name of the function, behind what was there before
  pub entry_return_one_line :
      (c d : Site) (s : Out) (page : Page)
      → IsSite c
      → IsSite d
      → d.thread.tid ≡ c.thread.tid
      → d.thread.callstack_depth ≡ c.thread.callstack_depth
      → Shows s page
      → Returns (make_calls (entry c ∷ return d ∷ []) s) λ t.
        (text : List ℕ) × Names c.function_name text × Shows t (add_line text (give_up_line page))
  unfolding make_calls make_call close_call give_up_line
  entry_return_one_line c d s page i j same_tid same_depth v =
      bind-Returns (make_call (entry c) s) (make_calls (return d ∷ []))
        (output_left-Shows sizeof_long p (c.kernel) junk (c.around) (c.args) (c.type) (c.thread)
          (c.function_name) i.showing i.plain i.real i.room i.showable s page v)
        λ s₁ (text, (before, rest, names), v₁).
          let (t, run, (more, w)) =
            output_right-Shows sizeof_long p (d.kernel) junk (d.around) (d.args) (d.type) (d.thread)
              (d.function_name) j.showing j.plain j.real j.room j.showable s₁
              (open_call c.thread.tid c.thread.callstack_depth text page) v₁ in
          let own : (c.thread.tid == d.thread.tid)
                && (c.thread.callstack_depth == d.thread.callstack_depth)
              ≡ true =
            rw (same_tid, same_depth, ==_refl c.thread.tid, ==_refl c.thread.callstack_depth)
              refl in
          (
            t,
            rw (run, ◌>>=◌) refl,
            (
              text ++ more,
              (
                before,
                rest ++ more,
                ap (λ x. x ++ more) names
                    ∙ append_assoc before ((c.function_name ++ codes "(") ++ rest) more
                    ∙ ap (λ x. before ++ x) (append_assoc (c.function_name ++ codes "(") rest more),
              ),
              rw own at w,
            ),
          )

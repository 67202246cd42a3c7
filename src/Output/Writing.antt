-- ===== src/Output/Writing.antt =====
-- What the calls of utrace-0.1/output.c add to the lines that a reader sees.
use mathlib.Core.List.{append_assoc, append-nil}
use utrace.Common.{
  ℕ, ◌≡◌, ◌≢◌, refl, sym, ap, ◌∙◌, true, false, List, [], ◌∷◌, ◌++◌, Option, none, some, ◌==◌,
  ==_ne,
}
use utrace.Printf.{codes}
use utrace.Printf.Plain.{IsPlain, append-IsPlain}
use utrace.Output.{Out, print, leave_line}
use utrace.Output.Pages.{
  Open, Page, unlines, open_text, owner_of, AllPlain, IsOwned, Shows, give_up, give_up_line,
  open_call,
}

unlines-snoc :
    (ls : List (List ℕ)) (l : List ℕ) → unlines (ls ++ l ∷ []) ≡ unlines ls ++ (l ++ 10 ∷ [])
unlines-snoc [] l = refl
unlines-snoc (x ∷ ls) l =
    ap (λ t. x ++ 10 ∷ t) (unlines-snoc ls l)
    ∙ sym (append_assoc x (10 ∷ unlines ls) (l ++ 10 ∷ []))

AllPlain-snoc :
    (ls : List (List ℕ)) (l : List ℕ) → AllPlain ls → IsPlain l → AllPlain (ls ++ l ∷ [])
AllPlain-snoc [] l a h = (h, tt)
AllPlain-snoc (x ∷ ls) l (p, a) h = (p, AllPlain-snoc ls l a h)

-- A line ends.
pub ended :
    (s t : Out) (ls : List (List ℕ)) (before more : List ℕ)
    → s.written ≡ unlines ls ++ before
    → AllPlain ls
    → IsPlain before
    → IsPlain more
    → t.written ≡ s.written ++ (more ++ 10 ∷ [])
    → t.current_pid ≡ 0
    → Shows t (record { lines = ls ++ (before ++ more) ∷ []; open_line = none })
ended s t ls before more w a h h' w' pid = record {
  written =
      w'
      ∙ ap (λ x. x ++ (more ++ 10 ∷ [])) w
      ∙ append_assoc (unlines ls) before (more ++ 10 ∷ [])
      ∙ ap (λ x. unlines ls ++ x) (sym (append_assoc before more (10 ∷ [])))
      ∙ sym (unlines-snoc ls (before ++ more))
      ∙ sym (append-nil (unlines (ls ++ (before ++ more) ∷ [])));
  whole = AllPlain-snoc ls (before ++ more) a (append-IsPlain before more h h');
  plain = refl;
  pid = pid;
  owned = tt;
}

-- The end of a line behind `s`.
pub record Finished (s t : Out) : Type 0 where
  pub more : List ℕ
  pub written : t.written ≡ s.written ++ (more ++ 10 ∷ [])
  pub plain : IsPlain more
  pub pid : t.current_pid ≡ 0

-- `leave_line` gives up the open line.
leave_line-give_up :
    (s : Out) (ls : List (List ℕ)) (o : Option Open)
    → s.written ≡ unlines ls ++ open_text o
    → AllPlain ls
    → IsPlain (open_text o)
    → s.current_pid ≡ owner_of o
    → IsOwned s.current_depth o
    → Shows (leave_line s) (give_up ls o)
unfolding leave_line print
leave_line-give_up s ls none w a h pid owned =
    let idle : (s.current_pid == 0) ≡ true = ap (λ x. x == 0) pid in
    rw (leave_line, idle) (record { written = w; whole = a; plain = refl; pid = pid; owned = tt })
leave_line-give_up s ls (some o) w a h pid owned =
    let busy : (s.current_pid == 0) ≡ false = ap (λ x. x == 0) pid ∙ ==_ne o.owner 0 owned.0 in
    rw (leave_line, busy) (ended s _ ls o.so_far (codes " <unfinished ...>") w a h refl refl refl)

pub leave_line-Shows :
    (s : Out) (page : Page) → Shows s page → Shows (leave_line s) (give_up_line page)
unfolding give_up_line
leave_line-Shows s page v =
    leave_line-give_up s page.lines page.open_line v.written v.whole v.plain v.pid v.owned

-- Behind a line that was given up nothing is open.
pub give_up-none : (ls : List (List ℕ)) (o : Option Open) → (give_up ls o).open_line ≡ none
give_up-none ls none = refl
give_up-none ls (some o) = refl

pub give_up-owner : (ls : List (List ℕ)) (o : Option Open) → owner_of (give_up ls o).open_line ≡ 0
give_up-owner ls o = ap owner_of (give_up-none ls o)

-- What is written behind whole lines.
pub fresh-written :
    (s : Out) (page : Page)
    → Shows s (give_up_line page)
    → s.written ≡ unlines (give_up_line page).lines ++ []
unfolding give_up_line
fresh-written s page v =
    v.written
    ∙ ap (λ o. unlines (give_up_line page).lines ++ open_text o)
        (give_up-none page.lines page.open_line)

-- A new line of a thread.
pub opened :
    (s t : Out) (page : Page) (tid depth : ℕ) (more : List ℕ)
    → tid ≢ 0
    → Shows s (give_up_line page)
    → t.written ≡ s.written ++ more
    → IsPlain more
    → t.current_pid ≡ tid
    → t.current_depth ≡ depth
    → Shows t (open_call tid depth more page)
opened s t page tid depth more real v w plain pid level = record {
  written =
      w
      ∙ ap (λ y. y ++ more) (fresh-written s page v)
      ∙ append_assoc (unlines (give_up_line page).lines) [] more;
  whole = v.whole;
  plain = plain;
  pid = pid;
  owned = (real, level);
}

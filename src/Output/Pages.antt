-- ===== src/Output/Pages.antt =====
-- What a reader sees of the output of utrace-0.1/output.c: lines, the last of which may be open, and
-- then belongs to one thread at one depth.
use utrace.Common.{ℕ, ◌≡◌, ◌≢◌, ◌&&◌, List, [], ◌∷◌, ◌++◌, Option, none, some, ◌==◌, if◌then◌else◌}
use utrace.Printf.{codes}
use utrace.Printf.Plain.{IsPlain}
use utrace.Output.{Out}

-- The line of a call that is not finished.
pub record Open : Type 0 where
  pub owner : ℕ
  pub depth : ℕ
  pub so_far : List ℕ

pub record Page : Type 0 where
  pub lines : List (List ℕ)
  pub open_line : Option Open

-- The lines with their newlines.
abbrev pub unlines : List (List ℕ) → List ℕ
unlines [] = []
unlines (l ∷ ls) = l ++ 10 ∷ unlines ls

abbrev pub open_text : Option Open → List ℕ
open_text none = []
open_text (some o) = o.so_far

abbrev pub owner_of : Option Open → ℕ
owner_of none = 0
owner_of (some o) = o.owner

abbrev pub AllPlain : List (List ℕ) → Type 0
AllPlain [] = Unit {0}
AllPlain (l ∷ ls) = IsPlain l × AllPlain ls

-- A thread that owns a line has an id; the depth is kept with it.
abbrev pub IsOwned : ℕ → Option Open → Type 0
IsOwned depth none = Unit {0}
IsOwned depth (some o) = (o.owner ≢ 0) × (depth ≡ o.depth)

-- The state shows the page.
pub record Shows (s : Out) (page : Page) : Type 0 where
  pub written : s.written ≡ unlines page.lines ++ open_text page.open_line
  pub whole : AllPlain page.lines
  pub plain : IsPlain (open_text page.open_line)
  pub pid : s.current_pid ≡ owner_of page.open_line
  pub owned : IsOwned s.current_depth page.open_line

abbrev pub add_line : List ℕ → Page → Page
add_line text page = record { lines = page.lines ++ text ∷ []; open_line = none }

-- An open line is given up.
abbrev pub give_up : List (List ℕ) → Option Open → Page
give_up ls none = record { lines = ls; open_line = none }
give_up ls (some o) = record {
  lines = ls ++ (o.so_far ++ codes " <unfinished ...>") ∷ [];
  open_line = none;
}

unfoldable pub give_up_line : Page → Page
give_up_line page = give_up page.lines page.open_line

-- A call: its line stays open.
abbrev pub open_call : (tid depth : ℕ) → List ℕ → Page → Page
open_call tid depth text page = record {
  lines = (give_up_line page).lines;
  open_line = some (record { owner = tid; depth = depth; so_far = text });
}

-- A return: the open line is finished where it is of this thread at this depth; otherwise there is
-- a line of its own.
abbrev pub close_call_in : (tid depth : ℕ) → List ℕ → Page → Option Open → Page
close_call_in tid depth text page none = add_line text (give_up_line page)
close_call_in tid depth text page (some o) =
    if o.owner == tid && o.depth == depth
    then record { lines = page.lines ++ (o.so_far ++ text) ∷ []; open_line = none }
    else add_line text (give_up_line page)

unfoldable pub close_call : (tid depth : ℕ) → List ℕ → Page → Page
close_call tid depth text page = close_call_in tid depth text page page.open_line

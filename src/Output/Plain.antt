-- ===== src/Output/Plain.antt =====
-- What the parts of a line of utrace-0.1/output.c write: text within the line that is open, which is
-- neither opened nor closed by them.
use mathlib.Core.List.{append_assoc, append-nil}
use utrace.Common.{
  ℕ, suc, ◌-◌, ◌≡◌, ◌⊎◌, refl, sym, ap, ◌∙◌, Bool, Bool-cases, true, false, inl, inr, List, [], ◌∷◌,
  ◌++◌, none, some, if◌then◌else◌, ltb, get_elem?, replicate,
}
use utrace.Common.Int.{ℤ, pos, negsuc}
use utrace.Config.{Function}
use utrace.Dict.Keys.{same_string}
use utrace.Printf.Plain.{IsPlain, append-IsPlain, replicate-IsPlain}
use utrace.Output.{Out, print, print_counted, tabto, Surroundings, shown_name, find_function}

-- The state `t` has more text in the line that is open.
pub record Extends (s t : Out) : Type 0 where
  pub more : List ℕ
  pub written : t.written ≡ s.written ++ more
  pub plain : IsPlain more
  pub same_pid : t.current_pid ≡ s.current_pid
  pub same_depth : t.current_depth ≡ s.current_depth

pub refl-Extends : (s : Out) → Extends s s
refl-Extends s = record {
  more = [];
  written = sym (append-nil s.written);
  plain = refl;
  same_pid = refl;
  same_depth = refl;
}

pub trans-Extends : (s t u : Out) → Extends s t → Extends t u → Extends s u
trans-Extends s t u a b = record {
  more = a.more ++ b.more;
  written = b.written ∙ ap (λ x. x ++ b.more) a.written ∙ append_assoc s.written a.more b.more;
  plain = append-IsPlain a.more b.more a.plain b.plain;
  same_pid = b.same_pid ∙ a.same_pid;
  same_depth = b.same_depth ∙ a.same_depth;
}

pub print-Extends : (text : List ℕ) (s : Out) → IsPlain text → Extends s (print text s)
unfolding print
print-Extends text s h = record {
  more = text;
  written = refl;
  plain = h;
  same_pid = refl;
  same_depth = refl;
}

pub print_counted-Extends :
    (text : List ℕ) (s : Out) → IsPlain text → Extends s (print_counted text s)
unfolding print_counted
print_counted-Extends text s h = record {
  more = text;
  written = refl;
  plain = h;
  same_pid = refl;
  same_depth = refl;
}

-- With the text that is added as an index.
pub record Adds (s t : Out) (more : List ℕ) : Type 0 where
  pub written : t.written ≡ s.written ++ more
  pub plain : IsPlain more
  pub same_pid : t.current_pid ≡ s.current_pid
  pub same_depth : t.current_depth ≡ s.current_depth

pub Extends-Adds : (s t : Out) (x : Extends s t) → Adds s t x.more
Extends-Adds s t x = record {
  written = x.written;
  plain = x.plain;
  same_pid = x.same_pid;
  same_depth = x.same_depth;
}

pub trans-Adds : (s t u : Out) (a b : List ℕ) → Adds s t a → Adds t u b → Adds s u (a ++ b)
trans-Adds s t u a b x y = record {
  written = y.written ∙ ap (λ w. w ++ b) x.written ∙ append_assoc s.written a b;
  plain = append-IsPlain a b x.plain y.plain;
  same_pid = y.same_pid ∙ x.same_pid;
  same_depth = y.same_depth ∙ x.same_depth;
}

pub counted-Adds : (text : List ℕ) (s : Out) → IsPlain text → Adds s (print_counted text s) text
unfolding print_counted
counted-Adds text s h = record { written = refl; plain = h; same_pid = refl; same_depth = refl }

pub if-Extends :
    (b : Bool) (s t u : Out) → Extends s t → Extends s u → Extends s (if b then t else u)
if-Extends true s t u p q = p
if-Extends false s t u p q = q

pub tabto-Extends : (col : ℤ) (s : Out) → Extends s (tabto col s)
unfolding tabto
tabto-Extends (pos col) s =
    if-Extends (ltb s.current_column col) s _ s
      (print-Extends (replicate (col - s.current_column) 32) s
        (replicate-IsPlain (col - s.current_column) 32 refl))
      (refl-Extends s)
tabto-Extends (negsuc n) s = refl-Extends s

-- Without -C a name is shown as it is.
pub shown_name-plain :
    (e : Surroundings) (name : List ℕ) (s : Out)
    → e.settings.opt_C ≡ 0
    → shown_name e name s ≡ (name, s)
unfolding shown_name
shown_name-plain e name s h = rw h refl

-- What is true of all functions of the list is true of the one that is found.
pub find_function-All :
    (P : Function → Type 0) (e : Surroundings) (name : List ℕ) (funs : List Function) (s : Out)
    → e.settings.opt_C ≡ 0
    → ((i : ℕ) (f : Function) → get_elem? funs i ≡ some f → P f)
    → (find_function e name funs s ≡ (none, s))
      ⊎ ((f : Function) × (find_function e name funs s ≡ (some f, s)) × P f)
unfolding find_function
find_function-All P e name [] s h all = inl refl
find_function-All P e name (fun ∷ funs) s h all = elim (Bool-cases (same_string fun.name name)) [
  | inl same ↦ inr (
    fun,
    rw (shown_name-plain e fun.name s h, shown_name-plain e name s h, same) refl,
    all 0 fun refl,
  )
  | inr other ↦
      rw (shown_name-plain e fun.name s h, shown_name-plain e name s h, other)
        (find_function-All P e name funs s h λ i. all (suc i))
]

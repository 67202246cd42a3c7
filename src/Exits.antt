-- ===== src/Exits.antt =====
-- How utrace stops: `signal_exit` and `signal_alarm` of utrace-0.1/ltrace.c. A process is its pid; what
-- `kill(pid, SIGSTOP)` does comes from outside, so the pids that it is called with are listed.
use utrace.Common.{
  ℕ, ◌≡◌, refl, true, false, Bool, Bool-cases, inl, inr, ◌||◌, List, [], ◌∷◌, ◌++◌, ◌∙◌, Option,
  none, some, ◌==◌, ==_iff, if◌then◌else◌,
}

abbrev pub has : ℕ → List ℕ → Bool
has q [] = false
has q (x ∷ xs) = q == x || has q xs

-- What is installed for a signal.
pub data Handler : Type 0 where
  sig_dfl sig_ign exit_handler alarm_handler : Handler

-- `exiting`, the handlers, the seconds of the last call of `alarm`, and the processes that were sent
-- SIGSTOP.
pub record Signals : Type 0 where
  pub exiting : Bool
  pub sigint : Handler
  pub sigterm : Handler
  pub sigalrm : Handler
  pub alarm : Option ℕ
  pub stopped : List ℕ

-- After the first lines of `main`.
abbrev pub started : Signals
started = record {
  exiting = false;
  sigint = exit_handler;
  sigterm = exit_handler;
  sigalrm = sig_dfl;
  alarm = none;
  stopped = [];
}

unfoldable pub signal_exit : (opt_p : List ℕ) → Signals → Signals
signal_exit opt_p s = record s {
  exiting = true;
  sigint = sig_ign;
  sigterm = sig_ign;
  sigalrm = alarm_handler;
  stopped = s.stopped ++ opt_p;
  alarm = some 1;
}

-- The loop over the processes. The one after a process of -p is not looked up in turn.
unfoldable pub stop_others : (opt_p procs : List ℕ) → List ℕ
stop_others opt_p [] = []
stop_others opt_p (q ∷ []) = if has q opt_p then [] else q ∷ []
stop_others opt_p (q ∷ r ∷ rs) =
    let skipping = r ∷ stop_others opt_p rs in
    let next = stop_others opt_p (r ∷ rs) in if has q opt_p then skipping else q ∷ next

unfoldable pub signal_alarm : (opt_p procs : List ℕ) → Signals → Signals
unfolding stop_others
signal_alarm opt_p procs s = record s {
  sigalrm = sig_dfl;
  stopped = s.stopped ++ stop_others opt_p procs;
}

-- A signal for which the handler is one of utrace's runs it.
unfoldable pub run_handler : (opt_p procs : List ℕ) → Handler → Signals → Signals
unfolding signal_exit signal_alarm
run_handler opt_p procs exit_handler s = signal_exit opt_p s
run_handler opt_p procs alarm_handler s = signal_alarm opt_p procs s
run_handler opt_p procs sig_dfl s = s
run_handler opt_p procs sig_ign s = s

listed :
    (q r : ℕ) (xs : List ℕ) (b : Bool) → (q == r) ≡ true → has r xs ≡ true → has q xs || b ≡ true
listed q r xs b e h = rw ((==_iff q r).0 e, h) refl

or_true : (a : Bool) → a || true ≡ true
or_true true = refl
or_true false = refl

stopped_once :
    (opt_p procs : List ℕ) (q : ℕ)
    → has q procs ≡ true
    → has q opt_p || has q (stop_others opt_p procs) ≡ true
unfolding stop_others
stopped_once opt_p [] q h = absurd (cc h)
stopped_once opt_p (x ∷ []) q h = elim (Bool-cases (q == x)) [
  | inr other ↦ absurd (cc (rw other at h))
  | inl same ↦ elim (Bool-cases (has x opt_p)) [
    | inl attached ↦ rw attached (listed q x opt_p false same attached)
    | inr own ↦ rw (own, same) (or_true (has q opt_p))
  ]
]
stopped_once opt_p (x ∷ r ∷ rs) q h = elim (Bool-cases (has x opt_p)) [
  | inl attached ↦ elim (Bool-cases (q == x)) [
    | inl same ↦ rw attached (listed q x opt_p (has q (r ∷ stop_others opt_p rs)) same attached)
    | inr other ↦ elim (Bool-cases (q == r)) [
      | inl next ↦ rw (attached, next) (or_true (has q opt_p))
      | inr later ↦ rw (attached, later) (stopped_once opt_p rs q (rw (other, later) at h))
    ]
  ]
  | inr own ↦ elim (Bool-cases (q == x)) [
    | inl same ↦ rw (own, same) (or_true (has q opt_p))
    | inr other ↦ rw (own, other) (stopped_once opt_p (r ∷ rs) q (rw other at h))
  ]
]

has-append : (q : ℕ) (xs ys : List ℕ) → has q (xs ++ ys) ≡ has q xs || has q ys
has-append q [] ys = refl
has-append q (x ∷ xs) ys = elim (Bool-cases (q == x)) [
  | inl here ↦ rw here refl
  | inr other ↦ rw other (has-append q xs ys)
]

-- What an interrupt leads to: SIGINT and SIGTERM are ignored from then on, SIGALRM is due one second
-- later, and its handler is the one after which the process has been stopped.
pub record IsInterrupted (opt_p procs : List ℕ) (q : ℕ) (s : Signals) : Type 0 where
  pub exiting : s.exiting ≡ true
  pub no_int : s.sigint ≡ sig_ign
  pub no_term : s.sigterm ≡ sig_ign
  pub due : s.alarm ≡ some 1
  pub stopped : has q (run_handler opt_p procs s.sigalrm s).stopped ≡ true
  pub once : (run_handler opt_p procs s.sigalrm s).sigalrm ≡ sig_dfl

-- When SIGINT or SIGTERM first comes, its handler of main sets exiting, makes both be ignored from
-- then on, and calls alarm(1); and for each process of the list, once the handler that is then
-- installed for SIGALRM has run, SIGSTOP was sent to the process, and SIGALRM has its default
-- action again
pub run_handler-IsInterrupted :
    (opt_p procs : List ℕ) (q : ℕ)
    → has q procs ≡ true
    → IsInterrupted opt_p procs q (run_handler opt_p procs started.sigint started)
      × IsInterrupted opt_p procs q (run_handler opt_p procs started.sigterm started)
unfolding run_handler
run_handler-IsInterrupted opt_p procs q h = (after, after)
  where
    after : IsInterrupted opt_p procs q (signal_exit opt_p started)
    after = record {
      exiting = refl;
      no_int = refl;
      no_term = refl;
      due = refl;
      stopped = has-append q opt_p (stop_others opt_p procs) ∙ stopped_once opt_p procs q h;
      once = refl;
    }

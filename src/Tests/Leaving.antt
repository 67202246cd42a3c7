-- ===== src/Tests/Leaving.antt =====
-- Stopping, demangling and changing the user.
use utrace.Common.{
  ℕ, ◌≡◌, refl, true, false, List, [], ◌∷◌, Option, none, some, ◌==◌, if◌then◌else◌,
}
use utrace.Exits.{started, stop_others, run_handler, IsInterrupted, run_handler-IsInterrupted}
use utrace.Demangle.{my_demangle, demangled, IsFaithful, none-IsFaithful, my_demangle-IsFaithful}
use utrace.Users.{Passwd, System}

-- Processes 5, 6 and 7, of which 5 and 6 were given with -p.
run_handler-IsInterrupted_example :
    IsInterrupted
      (5 ∷ 6 ∷ [])
      (5 ∷ 6 ∷ 7 ∷ [])
      7
      (run_handler (5 ∷ 6 ∷ []) (5 ∷ 6 ∷ 7 ∷ []) started.sigint started)
    × IsInterrupted
        (5 ∷ 6 ∷ [])
        (5 ∷ 6 ∷ 7 ∷ [])
        7
        (run_handler (5 ∷ 6 ∷ []) (5 ∷ 6 ∷ 7 ∷ []) started.sigterm started)
run_handler-IsInterrupted_example = run_handler-IsInterrupted (5 ∷ 6 ∷ []) (5 ∷ 6 ∷ 7 ∷ []) 7 refl

-- Process 6 is stopped by both.
six_again : stop_others (5 ∷ 6 ∷ []) (5 ∷ 6 ∷ 7 ∷ []) ≡ 6 ∷ 7 ∷ []
unfolding stop_others
six_again = refl

abbrev demangler : List ℕ → Option (List ℕ)
demangler [] = none
demangler (c ∷ cs) = if c == 95 then some cs else none

my_demangle-IsFaithful_example :
    let r = my_demangle demangler (95 ∷ 102 ∷ []) none in
    (r.0 ≡ demangled demangler (95 ∷ 102 ∷ [])) × IsFaithful demangler r.1
my_demangle-IsFaithful_example =
    my_demangle-IsFaithful demangler (95 ∷ 102 ∷ []) none (none-IsFaithful demangler)

abbrev bob : Passwd
bob = record { pw_uid = 1000; pw_gid = 100 }

-- Root, and a program that is setuid to user 8.
abbrev answers : System
answers = record {
  uid = 0;
  euid = 0;
  gid = 0;
  getpwnam = λ name. some bob;
  initgroups = λ name gid. true;
  stat = λ name. some (record { setuid = true; setgid = false; st_uid = 8; st_gid = 9 });
  grants = λ real effective. true;
}

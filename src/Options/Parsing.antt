-- ===== src/Options/Parsing.antt =====
-- `process_options` of utrace-0.1/options.c. What getopt(3) makes of the arguments, atoi(3) and
-- whether a file can be opened for the output come from outside.
use utrace.Common.{
  ℕ, ◌+◌, true, false, Bool, not, ◌&&◌, List, [], ◌∷◌, ◌++◌, Option, none, some, ◌==◌,
  if◌then◌else◌, length,
}
use utrace.Common.Int.{ℤ, pos}
use utrace.Run.{Run, ok, fault, undefined, exit_failure, exit_success, ◌>>=◌}
use utrace.Options.{Options}
use utrace.Options.Search.{search_for_command}
use utrace.Options.Names.{option_e}

abbrev pub max_library : ℕ
max_library = 30

-- An answer of `getopt_long` that is not -1, with `optarg`. The table of long options gives --indent
-- no argument, so that there `optarg` is null or stale: `none`.
pub data Getopt : Type 0 where
  indent : (optarg : Option (List ℕ)) → Getopt
  align expr library output pid strlen user : (optarg : List ℕ) → Getopt
  count demangle debug follow help pointer no_library_calls relative syscalls absolute time_spent
        version other :
      Getopt

-- The variables of the file. `flags` are those that the traced program's events are read with; -i
-- is never counted. A counter is a number, an option that is set a Boolean.
pub record Settings : Type 0 where
  pub flags : Options
  pub opt_a : ℤ
  pub opt_d : ℕ
  pub opt_s : ℤ
  pub opt_u : Option (List ℕ)
  pub opt_r : ℕ
  pub opt_t : ℕ
  pub opt_C : ℕ
  pub opt_n : ℤ
  pub opt_p : List ℤ
  pub library : List (List ℕ)
  pub output : Option (List ℕ)
  pub command : Option (List ℕ)

-- The initializers: DEFAULT_ACOLUMN and DEFAULT_STRLEN of utrace-0.1/defs.h.
abbrev pub initial : Settings
initial = record {
  flags = record {
    opt_c = false;
    opt_i = false;
    opt_L = true;
    opt_S = false;
    opt_f = false;
    opt_T = false;
    opt_e = [];
    opt_e_enable = true;
  };
  opt_a = pos 50;
  opt_d = 0;
  opt_s = pos 32;
  opt_u = none;
  opt_r = 0;
  opt_t = 0;
  opt_C = 0;
  opt_n = pos 0;
  opt_p = [];
  library = [];
  output = none;
  command = none;
}

module _ (atoi : List ℕ → ℤ) (opens : List ℕ → Bool) where
  -- `library[library_num++] = optarg`
  unfoldable pub add_library : List ℕ → Settings → Run Settings
  add_library f s =
      if length s.library == max_library
      then fault exit_failure
      else ok (record s { library = s.library ++ f ∷ [] })

  -- The `switch`.
  unfoldable pub process_option : Getopt → Settings → Run Settings
  unfolding add_library option_e
  process_option (align a) s = ok (record s { opt_a = atoi a })
  process_option (expr a) s = ok (record s { flags = option_e a s.flags })
  process_option (library a) s = add_library a s
  process_option (indent (some a)) s = ok (record s { opt_n = atoi a })
  process_option (indent none) s = fault undefined
  process_option (output a) s =
      if opens a then ok (record s { output = some a }) else fault exit_failure
  process_option (pid a) s = ok (record s { opt_p = atoi a ∷ s.opt_p })
  process_option (strlen a) s = ok (record s { opt_s = atoi a })
  process_option (user a) s = ok (record s { opt_u = some a })
  process_option count s = ok (record s { flags = record (s.flags) { opt_c = true } })
  process_option demangle s = ok (record s { opt_C = s.opt_C + 1 })
  process_option debug s = ok (record s { opt_d = s.opt_d + 1 })
  process_option follow s = ok (record s { flags = record (s.flags) { opt_f = true } })
  process_option help s = fault exit_success
  process_option pointer s = ok s
  process_option no_library_calls s = ok (record s { flags = record (s.flags) { opt_L = false } })
  process_option relative s = ok (record s { opt_r = s.opt_r + 1 })
  process_option syscalls s = ok (record s { flags = record (s.flags) { opt_S = true } })
  process_option absolute s = ok (record s { opt_t = s.opt_t + 1 })
  process_option time_spent s = ok (record s { flags = record (s.flags) { opt_T = true } })
  process_option version s = fault exit_success
  process_option other s = fault exit_failure

  unfoldable pub process_all : List Getopt → Settings → Run Settings
  unfolding process_option
  process_all [] s = ok s
  process_all (g ∷ gs) s = process_option g s >>= process_all gs

  module _ (path_max : ℕ) (access : List ℕ → Bool) (path : Option (List ℕ)) where
    -- The tests after the loop, with the arguments that getopt has left.
    unfoldable pub finish : List (List ℕ) → Settings → Run Settings
    unfolding search_for_command
    finish [] s = elim s.opt_p [
      | [] ↦ fault exit_failure
      | _ ∷ _ ↦ if not (s.opt_r == 0) && not (s.opt_t == 0) then fault exit_failure else ok s
    ]
    finish (arg ∷ args) s =
        if not (s.opt_r == 0) && not (s.opt_t == 0)
        then fault exit_failure
        else (search_for_command path_max access path arg >>= λ name.
            ok (record s { command = some name }))

    unfoldable pub process_options : List Getopt → List (List ℕ) → Run Settings
    unfolding process_all finish
    process_options getopts args = process_all getopts initial >>= finish args

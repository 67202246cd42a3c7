-- ===== src/Options.antt =====
-- The options of utrace-0.1/options.h that the modelled code reads. A counter or a flag is read for
-- "is it zero" alone.
pub mod Strings
pub mod Search
pub mod Names
pub mod Kept
pub mod Parsing
pub mod Settled
use utrace.Common.{ℕ, Bool, List}

pub record Options : Type 0 where
  -- -c: count time and calls
  pub opt_c : Bool
  -- -i: instruction pointer
  pub opt_i : Bool
  -- -L clears it
  pub opt_L : Bool
  -- -S: system calls
  pub opt_S : Bool
  -- -f: follow children
  pub opt_f : Bool
  -- -T: time spent
  pub opt_T : Bool
  -- -e: the names that were given, and whether they are shown or hidden
  pub opt_e : List (List ℕ)
  pub opt_e_enable : Bool

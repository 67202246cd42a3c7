-- ===== src/Tracee.antt =====
-- The data of utrace-0.1/ltrace.h: processes, their threads and call stacks. A `pid_t` is the
-- pattern of its 32 bits; a pointer to a `struct breakpoint` is a number, an index into a heap.
use utrace.Common.{ℕ, Bool, false, List, Option, none, replicate}
use utrace.Dict.{Dict}

pub record LibrarySymbol : Type 0 where
  pub name : List ℕ
  pub enter_addr : ℕ

pub record Timeval : Type 0 where
  pub tv_sec : ℕ
  pub tv_usec : ℕ

-- The union `c_un`, with the member that was written last.
pub data Callee : Type 0 where
  unset : Callee
  syscall : ℕ → Callee
  libfunc : LibrarySymbol → Callee

pub record CallstackElement : Type 0 where
  pub c_un : Callee
  pub is_syscall : Bool
  pub return_addr : ℕ
  pub time_spent : Timeval

abbrev pub max_calldepth : ℕ
max_calldepth = 100

abbrev pub max_threads_traced : ℕ
max_threads_traced = 256

-- `type_being_displayed` is written by the output alone and read by nothing; it is left out, and so
-- is `arch_ptr`, which the i386 code does not use.
pub record Thread : Type 0 where
  pub tid : ℕ
  pub callstack_depth : ℕ
  pub callstack : List CallstackElement
  pub instruction_pointer : ℕ
  pub stack_pointer : ℕ
  pub return_addr : ℕ
  pub breakpoint_being_enabled : Option ℕ
  pub child_idx : ℕ

-- `breakpoints_enabled`: -1, 0 and 1.
pub data Enabled : Type 0 where
  not_yet disabled enabled : Enabled

-- `hot_tid_idx` is `none` for -1. `address` is where the struct lies: its identity in the list of
-- processes.
pub record Process : Type 0 where
  pub address : ℕ
  pub filename : Option (List ℕ)
  pub pid : ℕ
  pub hot_tid_idx : Option ℕ
  pub breakpoints : Option (Dict ℕ ℕ)
  pub breakpoints_enabled : Enabled
  pub list_of_symbols : List LibrarySymbol
  pub threads : List Thread

-- What `memset(proc, 0, …)` leaves.
abbrev pub zero_element : CallstackElement
zero_element = record {
  c_un = unset;
  is_syscall = false;
  return_addr = 0;
  time_spent = record { tv_sec = 0; tv_usec = 0 };
}

unfoldable pub zero_thread : Thread
zero_thread = record {
  tid = 0;
  callstack_depth = 0;
  callstack = replicate max_calldepth zero_element;
  instruction_pointer = 0;
  stack_pointer = 0;
  return_addr = 0;
  breakpoint_being_enabled = none;
  child_idx = 0;
}

-- ===== src/Tests/Machine.antt =====
-- A small machine behind ptrace(2): one memory of bytes, no registers to speak of.
use utrace.Common.{
  ℕ, zero, suc, ◌+◌, ◌-◌, ◌<◌, ◌≡◌, refl, [], ◌∷◌, none, some, ◌&&◌, if◌then◌else◌, ltb, leb,
  get_or, arith, false, true, replicate,
}
use utrace.Ptrace.{Ptrace, IsMemory}
use utrace.Arch.{i386, FitsWord, Supported-FitsWord, on_i386}
use utrace.Tracee.{
  Thread, Process, zero_thread, not_yet, LibrarySymbol, CallstackElement, libfunc, zero_element,
}
use utrace.Breakpoints.{Core}
use utrace.Breakpoints.Store.{IsStore, empty-IsStore}
use utrace.Options.{Options}
use utrace.Events.{Host}

-- The stack pointer is 64, and the stack holds the address 200.
abbrev pub machine : Ptrace
machine = record {
  Kernel = ℕ → ℕ;
  peek_text = λ k pid a. k a ∷ k (a + 1) ∷ k (a + 2) ∷ k (a + 3) ∷ [];
  poke_text = λ k pid a word b. if leb a b && ltb b (a + 4) then get_or word (b - a) 0 else k b;
  instruction_pointer = λ k pid. 5;
  set_instruction_pointer = λ k pid a. k;
  stack_pointer = λ k pid. 64;
  return_addr = λ k pid sp. 200;
  resume = λ k r. k;
}

peek_lem :
    (k : ℕ → ℕ) (a j : ℕ)
    → j < 4
    → get_or (k a ∷ k (a + 1) ∷ k (a + 2) ∷ k (a + 3) ∷ []) j 0 ≡ k (a + j)
peek_lem k a zero h = ground arith
peek_lem k a (suc zero) h = ground arith
peek_lem k a (suc (suc zero)) h = ground arith
peek_lem k a (suc (suc (suc zero))) h = ground arith
peek_lem k a (suc (suc (suc (suc j)))) h = absurd (omega arith)

pub machine-IsMemory : (pid : ℕ) → IsMemory machine 4 pid
machine-IsMemory pid = record {
  byte = λ k a. k a;
  length-peek = λ k a. refl;
  peek-byte = λ k a j h. peek_lem k a j h;
  byte-poke = λ k a word b h. refl;
}

pub fits : FitsWord i386
fits = Supported-FitsWord on_i386

-- Code that counts up, and no breakpoint yet.
abbrev pub quiet : Core (ℕ → ℕ)
quiet = record { kernel = λ a. a; heap = λ q. none; fresh = 1 }

abbrev pub callee : LibrarySymbol
callee = record { name = 102 ∷ []; enter_addr = 100 }

-- A process with one thread in slot 0.
abbrev pub process_of : Thread → Process
process_of t = record {
  address = 8;
  filename = none;
  pid = 7;
  hot_tid_idx = some 0;
  breakpoints = none;
  breakpoints_enabled = not_yet;
  list_of_symbols = callee ∷ [];
  threads = t ∷ replicate 255 zero_thread;
}

pub quiet-IsStore : (t : Thread) → IsStore i386 quiet (process_of t)
quiet-IsStore t = empty-IsStore i386 quiet (process_of t) refl

-- A thread at the bottom of its stack, and one in a call that returns to 200.
abbrev pub resting : Thread
resting = record zero_thread { tid = 7 }

abbrev pub in_call : CallstackElement
in_call = record zero_element { c_un = libfunc callee; return_addr = 200 }

abbrev pub calling : Thread
calling = record zero_thread {
  tid = 7;
  callstack_depth = 1;
  callstack = in_call ∷ replicate 99 zero_element;
}

abbrev pub plain : Options
plain = record {
  opt_c = false;
  opt_i = false;
  opt_L = true;
  opt_S = false;
  opt_f = false;
  opt_T = true;
  opt_e = [];
  opt_e_enable = true;
}

abbrev pub host : Host machine
host = record {
  nr_fork = 2;
  nr_vfork = 190;
  nr_clone = 120;
  nr_execve = 11;
  sigstop = 19;
  return_value = λ k tid. 0;
  pid2name = λ k pid. none;
  read_elf = λ f. [];
}

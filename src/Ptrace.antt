-- ===== src/Ptrace.antt =====
-- What utrace asks of the kernel: the requests of ptrace(2) and the registers behind them. The
-- kernel is not part of the repository, so it is a parameter of the model: an abstract state and
-- one operation for each request that the code makes.
use utrace.Common.{ℕ, ◌+◌, ◌-◌, ◌<◌, ◌≡◌, ◌&&◌, List, length, get_or, if◌then◌else◌, leb, ltb}

-- The requests that let a stopped tracee go.
pub data Request : Type 0 where
  -- PTRACE_SYSCALL with the signal to deliver
  run_to_syscall : (pid signum : ℕ) → Request
  -- PTRACE_SINGLESTEP
  single_step : (pid : ℕ) → Request
  -- PTRACE_DETACH
  detach : (pid : ℕ) → Request

pub record Ptrace : Type 1 where
  pub Kernel : Type 0
  -- PTRACE_PEEKTEXT and PTRACE_POKETEXT: the bytes of one `long`, in memory order
  pub peek_text : Kernel → ℕ → ℕ → List ℕ
  pub poke_text : Kernel → ℕ → ℕ → List ℕ → Kernel
  -- get_instruction_pointer, set_instruction_pointer, get_stack_pointer, get_return_addr
  pub instruction_pointer : Kernel → ℕ → ℕ
  pub set_instruction_pointer : Kernel → ℕ → ℕ → Kernel
  pub stack_pointer : Kernel → ℕ → ℕ
  pub return_addr : Kernel → ℕ → ℕ → ℕ
  pub resume : Kernel → Request → Kernel

-- What ptrace(2) documents of the text of one process: a `long` is `width` bytes, a read shows the
-- bytes at the address, and a write changes those and no other.
pub record IsMemory (p : Ptrace) (width : ℕ) (pid : ℕ) : Type 0 where
  pub byte : p.Kernel → ℕ → ℕ
  pub length-peek : (k : p.Kernel) (a : ℕ) → length (p.peek_text k pid a) ≡ width
  pub peek-byte :
      (k : p.Kernel) (a j : ℕ) → j < width → get_or (p.peek_text k pid a) j 0 ≡ byte k (a + j)
  pub byte-poke :
      (k : p.Kernel) (a : ℕ) (word : List ℕ) (b : ℕ)
      → length word ≡ width
      → byte (p.poke_text k pid a word) b
        ≡ (if leb a b && ltb b (a + width) then get_or word (b - a) 0 else byte k b)

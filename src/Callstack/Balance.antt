-- ===== src/Callstack/Balance.antt =====
-- When the call stack of utrace-0.1/ltrace.h and the counts of the breakpoints are in step.
use utrace.Common.{
  ℕ, zero, suc, ◌+◌, ◌<◌, ◌≡◌, refl, List, [], ◌∷◌, some, if◌then◌else◌, arith, length, get_elem?,
  set,
}
use utrace.Arch.{Arch}
use utrace.Tracee.{CallstackElement, max_calldepth, Thread, Process}
use utrace.Run.{ok}
use utrace.Breakpoints.{Core}
use utrace.Breakpoints.Store.{count, hit, IsStore}
use utrace.Callstack.{element_at}

-- The array has its 100 elements and the last one is never used.
pub record IsThread (t : Thread) : Type 0 where
  pub width : length t.callstack ≡ max_calldepth
  pub room : t.callstack_depth < max_calldepth

-- What a frame wants of the breakpoint at an address.
abbrev pub want : ℕ → CallstackElement → ℕ
want a e = if e.is_syscall then 0 else hit a e.return_addr

-- How many of the first `n` frames want the breakpoint at an address.
unfoldable pub wants : ℕ → List CallstackElement → ℕ → ℕ
wants a [] n = 0
wants a (e ∷ es) zero = 0
wants a (e ∷ es) (suc n) = want a e + wants a es n

pub wants-set :
    (a : ℕ) (es : List CallstackElement) (n : ℕ) (e : CallstackElement)
    → n < length es
    → wants a (set es n e) (suc n) ≡ wants a es n + want a e
unfolding wants
wants-set a [] n e h = absurd (omega arith)
wants-set a (x ∷ []) zero e h = ground arith
wants-set a (x ∷ y ∷ es) zero e h = ground arith
wants-set a (x ∷ es) (suc n) e h = ground (arith, wants-set a es n e)

pub wants-suc :
    (a : ℕ) (es : List CallstackElement) (n : ℕ) (e : CallstackElement)
    → get_elem? es n ≡ some e
    → wants a es (suc n) ≡ wants a es n + want a e
unfolding wants
wants-suc a [] n e h = cc
wants-suc a (x ∷ []) zero e h = ground arith
wants-suc a (x ∷ y ∷ es) zero e h = ground arith
wants-suc a (x ∷ es) (suc n) e h = ground (arith, wants-suc a es n e)

pub in_bounds {ℓ} :
    {A : Type ℓ} (xs : List A) (i : ℕ) → i < length xs → (x : A) × (get_elem? xs i ≡ some x)
in_bounds [] i h = absurd (omega arith)
in_bounds (x ∷ xs) zero h = (x, refl)
in_bounds (x ∷ xs) (suc i) h = in_bounds xs i (omega arith)

pub element_at_lem {ℓ} :
    {A : Type ℓ} (xs : List A) (i : ℕ) (x : A) → get_elem? xs i ≡ some x → element_at xs i ≡ ok x
element_at_lem xs i x e = rw (element_at, e)

-- The thread in a slot stands well in its process: `get_proc` finds the process, and the counts are
-- those of `base` (symbols, other threads) and of its own frames.
pub record IsBalanced (arch : Arch) (base : ℕ → ℕ) {K : Type 0} (i : ℕ) (s : Core K)
    (proc : Process) (t : Thread) : Type 0 where
  pub store : IsStore arch s proc
  pub stands : get_elem? proc.threads i ≡ some t
  pub thread : IsThread t
  pub child : t.child_idx ≡ i
  pub counts : (a : ℕ) → count s proc a ≡ base a + wants a t.callstack t.callstack_depth

-- What no push and no pop touches.
pub record SameSettings (proc proc' : Process) : Type 0 where
  pub symbols : proc'.list_of_symbols ≡ proc.list_of_symbols
  pub setting : proc'.breakpoints_enabled ≡ proc.breakpoints_enabled
  pub hot : proc'.hot_tid_idx ≡ proc.hot_tid_idx
  pub same_pid : proc'.pid ≡ proc.pid
  pub same_address : proc'.address ≡ proc.address

-- ===== src/Run.antt =====
-- Runs of the tracer that may end in a failed assertion or in an access that C leaves undefined.
use mathlib.Core.Path.{◌≡◌, ◌∙◌}

pub data Fault : Type 0 where
  -- `assert` failed
  assertion : Fault
  -- a null pointer was followed
  null_pointer : Fault
  -- a `struct breakpoint` was used after `free`
  freed : Fault
  -- an index behind an array, or a member of a union that was not the last one written
  undefined : Fault
  -- `exit(1)`
  exit_failure : Fault
  -- `exit(0)`
  exit_success : Fault

-- The outcome of a piece of C code: a value, or what stopped it.
pub data Run {ℓ} (Value : Type ℓ) : Type ℓ where
  fault : (cause : Fault) → Run Value
  ok : (value : Value) → Run Value

-- The run ends normally, in a value that satisfies `Post`.
abbrev pub Returns {ℓ κ} : {Value : Type ℓ} → Run Value → (Value → Type κ) → Type (ℓ ⊔ κ)
Returns {Value} run Post = (value : Value) × (run ≡ ok value) × Post value

-- One piece of code after another.
abbrev pub ◌>>=◌ {ℓ κ} :
    {Value : Type ℓ} {Next : Type κ} (first : Run Value) (rest : Value → Run Next) → Run Next
fault cause >>= next = fault cause
ok value >>= next = next value

infixl 5 ◌>>=◌
-- A chain ends well if its first part does, and what follows does from every value that it may hand on.
pub bind-Returns {ℓ κ ι} :
    {A : Type ℓ} {B : Type ℓ} (m : Run A) (f : A → Run B) {P : A → Type κ} {Q : B → Type ι}
    → Returns m P
    → ((a : A) → P a → Returns (f a) Q)
    → Returns (m >>= f) Q
bind-Returns m f (a, e, pa) k = let (b, e', q) = k a pa in (b, rw e e', q)

-- A weaker statement about the same run.
pub weaken-Returns {ℓ κ ι} :
    {A : Type ℓ} (m : Run A) {P : A → Type κ} {Q : A → Type ι}
    → Returns m P
    → ((a : A) → P a → Q a)
    → Returns m Q
weaken-Returns m (a, e, pa) k = (a, e, k a pa)

-- The same run, written otherwise.
pub along-Returns {ℓ κ} :
    {A : Type ℓ} (m n : Run A) {P : A → Type κ} → m ≡ n → Returns n P → Returns m P
along-Returns m n e (a, run, q) = (a, e ∙ run, q)

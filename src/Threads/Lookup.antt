-- ===== src/Threads/Lookup.antt =====
-- What `dereg_tid` and `tid2thread` find and change.
use utrace.Common.{
  ℕ, zero, suc, ◌+◌, ◌≤◌, ◌<◌, ◌≡◌, ◌≢◌, refl, ◌∙◌, List, [], ◌∷◌, Option, none, some, ◌==◌,
  if◌then◌else◌, arith, length, get_elem?, get_or, set, length-set, ==_ne, Option-cases, inl, inr,
}
use utrace.Tracee.{Thread, Process, max_threads_traced, zero_thread}
use utrace.Threads.{
  Scan, found, ended, reg_scan, find_tid, forget_hot, clear_slot, dereg_tid, located, look_hot,
  tid2thread,
}

-- The slot behind `i` slots that were passed.
abbrev pub shift : ℕ → Option ℕ → Option ℕ
shift i none = none
shift i (some k) = some (i + k)

abbrev first : Option ℕ → Option ℕ → Option ℕ
first none b = b
first (some a) b = some a

abbrev scanned : Option ℕ → Option ℕ → Scan
scanned none free = ended free
scanned (some i) free = found i

reg_scan_lem :
    (tid i : ℕ) (ava : Option ℕ) (ts : List Thread)
    → tid ≢ 0
    → reg_scan tid i ava ts
      ≡ scanned (shift i (find_tid tid ts)) (first ava (shift i (find_tid 0 ts)))
unfolding reg_scan find_tid
reg_scan_lem tid i none [] h = refl
reg_scan_lem tid i (some a) [] h = refl
reg_scan_lem tid i none (t ∷ ts) h =
    ground (arith, reg_scan_lem tid (i + 1) (some i) ts, reg_scan_lem tid (i + 1) none ts)
reg_scan_lem tid i (some a) (t ∷ ts) h = ground (arith, reg_scan_lem tid (i + 1) (some a) ts)

pub find_tid-lt : (tid : ℕ) (ts : List Thread) (k : ℕ) → find_tid tid ts ≡ some k → k < length ts
unfolding find_tid
find_tid-lt tid [] k e = cc
find_tid-lt tid (t ∷ ts) zero e = omega arith
find_tid-lt tid (t ∷ ts) (suc k) e = ground (arith, find_tid-lt tid ts k)

-- How many slots have this thread id.
unfoldable pub occurrences : ℕ → List Thread → ℕ
occurrences tid [] = 0
occurrences tid (t ∷ ts) = (if t.tid == tid then 1 else 0) + occurrences tid ts

pub find_tid-eq-none :
    (tid : ℕ) (ts : List Thread) → occurrences tid ts ≡ 0 → find_tid tid ts ≡ none
unfolding find_tid occurrences
find_tid-eq-none tid [] e = refl
find_tid-eq-none tid (t ∷ ts) e = ground (arith, find_tid-eq-none tid ts)

pub occurrences-eq-zero :
    (tid : ℕ) (ts : List Thread) → find_tid tid ts ≡ none → occurrences tid ts ≡ 0
unfolding find_tid occurrences
occurrences-eq-zero tid [] e = refl
occurrences-eq-zero tid (t ∷ ts) e = ground (arith, occurrences-eq-zero tid ts)

pub occurrences-set :
    (tid : ℕ) (ts : List Thread) (k : ℕ) (t : Thread)
    → k < length ts
    → occurrences tid (set ts k t) + (if (get_or ts k zero_thread).tid == tid then 1 else 0)
      ≡ occurrences tid ts + (if t.tid == tid then 1 else 0)
unfolding occurrences
occurrences-set tid [] k t h = absurd (omega arith)
occurrences-set tid (x ∷ ts) zero t h = ground arith
occurrences-set tid (x ∷ ts) (suc k) t h = ground (arith, occurrences-set tid ts k t)

pub find_tid-get_or :
    (tid : ℕ) (ts : List Thread) (k : ℕ)
    → find_tid tid ts ≡ some k
    → (get_or ts k zero_thread).tid ≡ tid
unfolding find_tid
find_tid-get_or tid [] k e = cc
find_tid-get_or tid (t ∷ ts) zero e = ground arith
find_tid-get_or tid (t ∷ ts) (suc k) e = ground (arith, find_tid-get_or tid ts k)

pub find_tid_only :
    (tid : ℕ) (ts : List Thread) (k : ℕ) (t : Thread)
    → occurrences tid ts ≤ 1
    → get_elem? ts k ≡ some t
    → t.tid ≡ tid
    → find_tid tid ts ≡ some k
unfolding find_tid occurrences
find_tid_only tid [] k t h e s = cc
find_tid_only tid (x ∷ ts) zero t h e s = ground arith
find_tid_only tid (x ∷ ts) (suc k) t h e s =
    ground (arith, find_tid_only tid ts k t, find_tid_found tid ts k t)
  where
    find_tid_found :
        (tid : ℕ) (ts : List Thread) (k : ℕ) (t : Thread)
        → get_elem? ts k ≡ some t
        → t.tid ≡ tid
        → 1 ≤ occurrences tid ts
    find_tid_found tid [] k t e s = cc
    find_tid_found tid (x ∷ ts) zero t e s = ground arith
    find_tid_found tid (x ∷ ts) (suc k) t e s = ground (arith, find_tid_found tid ts k t)

-- A table of 256 slots in which no thread stands twice.
pub record IsRegistry (proc : Process) : Type 0 where
  pub width : length proc.threads ≡ max_threads_traced
  pub once : (tid : ℕ) → tid ≢ 0 → occurrences tid proc.threads ≤ 1

pub not_behind : (ts : List Thread) (i : ℕ) → i < length ts → get_elem? ts i ≢ none
not_behind [] i h e = absurd (omega arith)
not_behind (t ∷ ts) zero h e = cc
not_behind (t ∷ ts) (suc i) h e = not_behind ts i (omega arith) e

-- `hot_tid_idx` is -1 or a slot of the array.
abbrev pub IsCached : Process → Type 0
IsCached proc = (h : ℕ) → proc.hot_tid_idx ≡ some h → h < length proc.threads

shift_zero : (o : Option ℕ) → shift 0 o ≡ o
shift_zero none = refl
shift_zero (some i) = ground arith

pub reg_scan_start :
    (tid : ℕ) (ts : List Thread)
    → tid ≢ 0
    → reg_scan tid 0 none ts ≡ scanned (find_tid tid ts) (find_tid 0 ts)
reg_scan_start tid ts h =
    rw (reg_scan_lem tid 0 none ts h, shift_zero (find_tid tid ts), shift_zero (find_tid 0 ts)) refl

forget_hot_ne : (o : Option ℕ) (i : ℕ) → forget_hot o i ≢ some i
forget_hot_ne none i e = cc
forget_hot_ne (some h) i e = ground arith

-- `dereg_tid` forgets the thread and no other, and the cache does not point at the freed slot.
pub record Forgets (proc : Process) (tid : ℕ) (q : Process) : Type 0 where
  pub registry : IsRegistry q
  pub gone : find_tid tid q.threads ≡ none
  pub others : (u : ℕ) → u ≢ 0 → u ≢ tid → occurrences u q.threads ≡ occurrences u proc.threads
  pub cold : (i : ℕ) → find_tid tid proc.threads ≡ some i → q.hot_tid_idx ≢ some i

-- On a well-formed table dereg_tid of a nonzero id keeps the table well-formed, forgets that
-- thread and no other, and does not leave the cache at the slot that it freed
pub dereg_tid-Forgets :
    (proc : Process) (tid : ℕ) → IsRegistry proc → tid ≢ 0 → Forgets proc tid (dereg_tid proc tid)
unfolding dereg_tid
dereg_tid-Forgets proc tid r h = elim (Option-cases (find_tid tid proc.threads)) [
  | inl e ↦
      rw (==_ne tid 0 h, clear_slot, e)
        (record { registry = r; gone = e; others = λ u n m. refl; cold = λ i s. cc })
  | inr (k, e) ↦
      let t : Thread = record (get_or proc.threads k zero_thread) { tid = 0 } in
      let inside = find_tid-lt tid proc.threads k e in
      let was = find_tid-get_or tid proc.threads k e in
      rw (==_ne tid 0 h, clear_slot, e)
        (record {
          registry = record {
            width = length-set proc.threads k t ∙ r.width;
            once = λ u n. ground (arith, occurrences-set u proc.threads k t, r.once u n);
          };
          gone =
              find_tid-eq-none tid (set proc.threads k t)
                (ground (arith, occurrences-set tid proc.threads k t, r.once tid h));
          others = λ u n m. ground (arith, occurrences-set u proc.threads k t);
          cold = λ i s x. forget_hot_ne proc.hot_tid_idx k (x ∙ cc);
        })
]

-- On a well-formed table with a cache that is empty or in bounds, tid2thread of a nonzero id gives
-- what a search of the whole table gives: the cache changes no answer
pub tid2thread-find_tid :
    (proc : Process) (tid : ℕ)
    → IsRegistry proc
    → IsCached proc
    → tid ≢ 0
    → tid2thread tid proc ≡ located (find_tid tid proc.threads)
unfolding tid2thread
tid2thread-find_tid proc tid r c h = rw (==_ne tid 0 h) (through proc.hot_tid_idx c)
  where
    through :
        (o : Option ℕ)
        → ((i : ℕ) → o ≡ some i → i < length proc.threads)
        → look_hot proc.threads tid o ≡ located (find_tid tid proc.threads)
    through none b = refl
    through (some i) b = elim (Option-cases (get_elem? proc.threads i)) [
      | inl e ↦ absurd (not_behind proc.threads i (b i refl) e)
      | inr (t, e) ↦
          rw (look_hot, e) (ground (arith, find_tid_only tid proc.threads i t (r.once tid h) e))
    ]

-- ===== src/Threads/Register.antt =====
-- What `reg_tid` does with a new thread.
use utrace.Common.{
  ℕ, zero, suc, ◌≤◌, ◌<◌, ◌≡◌, ◌≢◌, refl, sym, ◌∙◌, List, [], ◌∷◌, none, some, arith, length,
  get_elem?, get_or, set, length-set, get_elem?-set_self, ==_ne,
}
use utrace.Tracee.{Thread, Process, max_threads_traced, zero_thread}
use utrace.Threads.{
  slot, exits, register_at, reg_tid, find_tid, out_of_bounds, look_hot, tid2thread, get_proc,
}
use utrace.Threads.Lookup.{
  find_tid-lt, occurrences-eq-zero, occurrences-set, find_tid-get_or, find_tid_only, IsRegistry,
  reg_scan_start,
}

-- Reg_tid on a thread with a nonzero id that is registered returns its first slot and changes
-- nothing
pub reg_tid_known :
    (proc : Process) (tid i : ℕ)
    → tid ≢ 0
    → find_tid tid proc.threads ≡ some i
    → reg_tid proc tid ≡ slot i proc
unfolding reg_tid register_at
reg_tid_known proc tid i h e = rw (reg_scan_start tid proc.threads h, e)

-- Reg_tid on a thread with a nonzero id that is not registered exits where no slot is free
pub reg_tid_full :
    (proc : Process) (tid : ℕ)
    → tid ≢ 0
    → find_tid tid proc.threads ≡ none
    → find_tid 0 proc.threads ≡ none
    → reg_tid proc tid ≡ exits
unfolding reg_tid register_at
reg_tid_full proc tid h e f = rw (reg_scan_start tid proc.threads h, e, f)

-- What `reg_tid` leaves when it puts a new thread into the free slot `k`.
abbrev pub entered : Process → ℕ → ℕ → Process
entered proc tid k = record proc {
  threads =
      set proc.threads k (record (get_or proc.threads k zero_thread) { tid = tid; child_idx = 0 });
  hot_tid_idx = some max_threads_traced;
}

pub reg_tid_free :
    (proc : Process) (tid k : ℕ)
    → tid ≢ 0
    → find_tid tid proc.threads ≡ none
    → find_tid 0 proc.threads ≡ some k
    → reg_tid proc tid ≡ slot max_threads_traced (entered proc tid k)
unfolding reg_tid register_at
reg_tid_free proc tid k h e f = rw (reg_scan_start tid proc.threads h, e, f)

get_elem?-behind : (ts : List Thread) (i : ℕ) → length ts ≤ i → get_elem? ts i ≡ none
get_elem?-behind [] i h = refl
get_elem?-behind (t ∷ ts) zero h = absurd (omega arith)
get_elem?-behind (t ∷ ts) (suc i) h = get_elem?-behind ts i (omega arith)

-- Registering a new thread keeps the table a registry with the thread in the first free slot, and
-- leaves a cache and a returned pointer that lie behind the array: the next look-up reads out of
-- bounds, and `get_proc` finds the process only from slot 0.
pub record Misplaced (proc : Process) (tid k : ℕ) : Type 0 where
  pub registry : IsRegistry proc
  pub stands : find_tid tid proc.threads ≡ some k
  pub pointer_behind : get_elem? proc.threads max_threads_traced ≡ none
  pub next_lookup : (other : ℕ) → other ≢ 0 → tid2thread other proc ≡ out_of_bounds
  pub stray_parent : k ≢ 0 → get_proc proc k ≡ none

pub entered-Misplaced :
    (proc : Process) (tid k : ℕ)
    → IsRegistry proc
    → tid ≢ 0
    → find_tid tid proc.threads ≡ none
    → find_tid 0 proc.threads ≡ some k
    → Misplaced (entered proc tid k) tid k
unfolding tid2thread get_proc
entered-Misplaced proc tid k r h e f =
    let t : Thread = record (get_or proc.threads k zero_thread) { tid = tid; child_idx = 0 } in
    let inside : k < length proc.threads = find_tid-lt 0 proc.threads k f in
    let free = find_tid-get_or 0 proc.threads k f in
    let none_yet = occurrences-eq-zero tid proc.threads e in
    let behind =
      get_elem?-behind (set proc.threads k t) 256
        (omega (arith, length-set proc.threads k t, r.width)) in
    let kept = get_elem?-set_self proc.threads k t inside in
    record {
      registry = record {
        width = length-set proc.threads k t ∙ r.width;
        once = λ u n. ground (arith, occurrences-set u proc.threads k t, r.once u n);
      };
      stands =
          find_tid_only tid _ k t (ground (arith, occurrences-set tid proc.threads k t)) kept refl;
      pointer_behind = behind;
      next_lookup = λ other n. rw (==_ne other 0 n, look_hot, behind);
      stray_parent = λ n. rw (get_proc, kept, ==_ne 0 k (λ z. n (sym z)));
    }

-- In a well-formed table with a free slot k where the thread is not registered, reg_tid keeps the
-- table well-formed and puts the thread into slot k, but returns a pointer behind the array,
-- leaves a cache with which every look-up of a thread reads out of bounds, and unless k is 0
-- get_proc does not find the process from the new slot
pub reg_tid_new :
    (proc : Process) (tid k : ℕ)
    → IsRegistry proc
    → tid ≢ 0
    → find_tid tid proc.threads ≡ none
    → find_tid 0 proc.threads ≡ some k
    → (q : Process) × (reg_tid proc tid ≡ slot max_threads_traced q) × Misplaced q tid k
reg_tid_new proc tid k r h e f =
    (entered proc tid k, reg_tid_free proc tid k h e f, entered-Misplaced proc tid k r h e f)

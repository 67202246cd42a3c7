-- ===== src/Threads.antt =====
-- The table of threads of a process: utrace-0.1/proc.c (`reg_tid`, `dereg_tid`, `get_proc`) and
-- `tid2thread` of utrace-0.1/wait_for_something.c. A thread is named by its slot in `threads[]`.
pub mod Lookup
pub mod Register
use utrace.Common.{
  ℕ, zero, suc, ◌+◌, ◌-◌, ◌%◌, ◌^◌, Bool, true, false, not, ◌&&◌, List, [], ◌∷◌, Option, none, some,
  ◌==◌, if◌then◌else◌, get_elem?, get_or, set,
}
use utrace.Tracee.{Thread, Process, max_threads_traced, zero_thread}

-- Where the loop of `reg_tid` ended: at a slot that has the thread, or behind the array with the
-- free slot that it saw first (`idx_ava`).
pub data Scan : Type 0 where
  found : ℕ → Scan
  ended : Option ℕ → Scan

abbrev pub is_none {ℓ} : {A : Type ℓ} → Option A → Bool
is_none none = true
is_none (some a) = false

unfoldable pub reg_scan : ℕ → ℕ → Option ℕ → List Thread → Scan
reg_scan tid i idx_ava [] = ended idx_ava
reg_scan tid i idx_ava (t ∷ ts) =
    let marked = reg_scan tid (i + 1) (some i) ts in
    let passed = reg_scan tid (i + 1) idx_ava ts in
    if t.tid == 0 && is_none idx_ava then marked else (if t.tid == tid then found i else passed)

-- The slot that the returned pointer names, with the process, or `exit(1)`.
pub data Registered : Type 0 where
  slot : ℕ → Process → Registered
  exits : Registered

-- After the loop `i` is `MAX_THREADS_TRACED`; the code goes on with `i` where it set `idx_ava`.
-- `child_idx` is an `unsigned char`.
unfoldable pub register_at : Process → ℕ → Scan → Registered
register_at proc tid (found i) = slot i proc
register_at proc tid (ended none) = exits
register_at proc tid (ended (some idx_ava)) =
    let i = max_threads_traced in
    slot i (record proc {
      threads =
          set proc.threads idx_ava
            (record (get_or proc.threads idx_ava zero_thread) { tid = tid; child_idx = i % 2 ^ 8 });
      hot_tid_idx = some i;
    })

unfoldable pub reg_tid : Process → ℕ → Registered
unfolding reg_scan register_at
reg_tid proc tid = register_at proc tid (reg_scan tid 0 none proc.threads)

-- The first slot with this thread id: the loops of `dereg_tid` and `tid2thread`.
unfoldable pub find_tid : ℕ → List Thread → Option ℕ
find_tid tid [] = none
find_tid tid (t ∷ ts) =
    let rest = find_tid tid ts in
    if t.tid == tid then some 0 else elim rest [ none ↦ none | some i ↦ some (suc i) ]

-- `if (proc->hot_tid_idx == i) proc->hot_tid_idx = -1;`
abbrev pub forget_hot : Option ℕ → ℕ → Option ℕ
forget_hot none i = none
forget_hot (some h) i = if h == i then none else some h

unfoldable pub clear_slot : Process → Option ℕ → Process
clear_slot proc none = proc
clear_slot proc (some i) = record proc {
  threads = set proc.threads i (record (get_or proc.threads i zero_thread) { tid = 0 });
  hot_tid_idx = forget_hot proc.hot_tid_idx i;
}

unfoldable pub dereg_tid : Process → ℕ → Process
unfolding find_tid clear_slot
dereg_tid proc tid = if tid == 0 then proc else clear_slot proc (find_tid tid proc.threads)

-- `tid2thread` reads `threads[hot_tid_idx]` first; an index behind the array is undefined
-- behaviour.
pub data Located : Type 0 where
  at : ℕ → Located
  absent : Located
  out_of_bounds : Located

abbrev pub located : Option ℕ → Located
located none = absent
located (some i) = at i

unfoldable pub look_hot : List Thread → ℕ → Option ℕ → Located
unfolding find_tid
look_hot threads tid none = located (find_tid tid threads)
look_hot threads tid (some h) = elim (get_elem? threads h) [
  | none ↦ out_of_bounds
  | some t ↦ if t.tid == tid then at h else located (find_tid tid threads)
]

unfoldable pub tid2thread : ℕ → Process → Located
unfolding look_hot
tid2thread tid proc = if tid == 0 then absent else look_hot proc.threads tid proc.hot_tid_idx

-- `get_proc` steps back by `child_idx` slots and takes what stands there for `threads[0]`: that is
-- the process only if `child_idx` is the slot.
unfoldable pub get_proc : Process → ℕ → Option Process
get_proc proc i = elim (get_elem? proc.threads i) [
  | none ↦ none
  | some t ↦ if t.child_idx == i then some proc else none
]

-- ===== src/Tests/Tables.antt =====
-- The table, the threads and the list of processes.
use mathlib.Core.Option.{or_else}
use utrace.Common.{
  ℕ, ◌+◌, ◌≡◌, ◌≢◌, refl, ap, List, [], ◌∷◌, some, arith, replicate, length-replicate, suc, zero,
}
use utrace.Dict.{Dict, dict_init, dict_enter, dict_find_entry}
use utrace.Dict.Lookup.{IsDict, dict_init-IsDict, dict_enter-IsDict, dict_find_entry-enter}
use utrace.Dict.Keys.{string_ops, string_ops-IsLawful, same_string, dict_key2hash_string}
use utrace.Tracee.{Process, zero_thread, max_threads_traced}
use utrace.Threads.{slot, reg_tid, dereg_tid, tid2thread, at, find_tid}
use utrace.Threads.Lookup.{IsRegistry, occurrences, Forgets, dereg_tid-Forgets, tid2thread-find_tid}
use utrace.Threads.Register.{Misplaced, reg_tid_new}
use utrace.Callstack.{time_since}
use utrace.Callstack.Time.{time_since_lem, spent_micros}
use utrace.Tests.Machine.{process_of, resting}

abbrev names : Dict (List ℕ) ℕ
names = dict_enter (dict_init string_ops) (102 ∷ []) 5

names-IsDict : IsDict names
names-IsDict = dict_enter-IsDict _ (102 ∷ []) 5 (dict_init-IsDict string_ops string_ops-IsLawful)

dict_find_entry-enter_example :
    dict_find_entry (dict_enter names (102 ∷ []) 6) (102 ∷ [])
    ≡ or_else (dict_find_entry names (102 ∷ [])) (some 6)
unfolding dict_enter dict_init same_string
dict_find_entry-enter_example = dict_find_entry-enter names (102 ∷ []) (102 ∷ []) 6 names-IsDict

-- The first entry under a name wins.
shadowed : dict_find_entry (dict_enter names (102 ∷ []) 6) (102 ∷ []) ≡ some 5
unfolding dict_enter dict_init same_string dict_find_entry dict_key2hash_string replicate
shadowed = refl

-- The hash of "main".
hash_main : dict_key2hash_string (109 ∷ 97 ∷ 105 ∷ 110 ∷ []) ≡ 3582029
unfolding dict_key2hash_string
hash_main = refl

occurrences-replicate : (tid n : ℕ) → tid ≢ 0 → occurrences tid (replicate n zero_thread) ≡ 0
unfolding occurrences replicate zero_thread
occurrences-replicate tid zero h = refl
occurrences-replicate tid (suc n) h = ground (arith, occurrences-replicate tid n h)

abbrev pub process : Process
process = process_of resting

pub process-IsRegistry : IsRegistry process
unfolding occurrences
process-IsRegistry = record {
  width = ap suc (length-replicate 255 zero_thread);
  once = λ tid h. ground (arith, occurrences-replicate tid 255 h);
}

abbrev crowded : Process
crowded = record process { threads = resting ∷ [] }

reg_tid_new_example :
    (q : Process) × (reg_tid process 8 ≡ slot max_threads_traced q) × Misplaced q 8 1
unfolding find_tid zero_thread replicate
reg_tid_new_example = reg_tid_new process 8 1 process-IsRegistry (omega arith) refl refl

dereg_tid-Forgets_example : Forgets process 7 (dereg_tid process 7)
dereg_tid-Forgets_example = dereg_tid-Forgets process 7 process-IsRegistry (omega arith)

tid2thread-find_tid_example : tid2thread 7 process ≡ at 0
unfolding find_tid
tid2thread-find_tid_example =
    tid2thread-find_tid process 7 process-IsRegistry (λ h e. ground arith) (omega arith)

time_since_lem_example :
    spent_micros (
        time_since
          (record { tv_sec = 11; tv_usec = 100000 })
          (record { tv_sec = 10; tv_usec = 900000 }))
      + 10900000
    ≡ 13100000
time_since_lem_example =
    time_since_lem (record { tv_sec = 10; tv_usec = 900000 })
      (record { tv_sec = 11; tv_usec = 100000 }) (omega arith) (omega arith) (omega arith)

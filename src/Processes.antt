-- ===== src/Processes.antt =====
-- The list of traced processes: `open_program` and `open_pid` of utrace-0.1/proc.c, `remove_proc` of
-- utrace-0.1/process_event.c and `pid2proc` of utrace-0.1/wait_for_something.c. A pointer to a
-- `struct process` is the address in the struct.
pub mod Removal
use utrace.Common.{
  ℕ, Bool, true, false, List, [], ◌∷◌, Option, none, some, ◌==◌, if◌then◌else◌, replicate,
}
use utrace.Run.{Run, ok, fault, null_pointer, exit_failure, ◌>>=◌}
use utrace.Tracee.{Process, not_yet, zero_thread, max_threads_traced}

unfoldable pub pid2proc : ℕ → List Process → Option Process
pid2proc pid [] = none
pid2proc pid (q ∷ qs) = if pid == q.pid then some q else pid2proc pid qs

-- The `while (tmp->next)` loop behind an element that stays: every later element that is the
-- process is unlinked and freed.
unfoldable pub unlink : ℕ → List Process → List Process
unlink proc [] = []
unlink proc (q ∷ qs) = let rest = unlink proc qs in if q.address == proc then rest else q ∷ rest

-- On an empty list `tmp->next` follows a null pointer, unless the process is a null pointer too.
unfoldable pub remove_proc : ℕ → List Process → Run (List Process)
unfolding unlink
remove_proc proc [] = fault null_pointer
remove_proc proc (q ∷ qs) = ok (if q.address == proc then qs else q ∷ unlink proc qs)

-- The struct that `open_program` allocates at `address`, before `breakpoints_init`.
unfoldable pub new_process : ℕ → List ℕ → Process
new_process address filename = record {
  address = address;
  filename = some filename;
  pid = 0;
  hot_tid_idx = some 0;
  breakpoints = none;
  breakpoints_enabled = not_yet;
  list_of_symbols = [];
  threads = replicate max_threads_traced zero_thread;
}

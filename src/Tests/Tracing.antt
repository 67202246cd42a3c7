-- ===== src/Tests/Tracing.antt =====
-- Breakpoints, frames and events on the small machine.
use utrace.Common.{
  ℕ, suc, ◌+◌, ◌≡◌, refl, ap, ◌∙◌, [], ◌∷◌, Option, none, some, arith, replicate, length-replicate,
  get_elem?,
}
use utrace.Common.Int.{pos}
use utrace.Arch.{i386}
use utrace.Trap.{Breakpoint, enable_breakpoint}
use utrace.Trap.Restore.{Sets, enable_breakpoint-Sets}
use utrace.Tracee.{Thread, Process, Timeval, zero_thread, zero_element}
use utrace.Run.{Returns}
use utrace.Breakpoints.{Core, insert_breakpoint, delete_breakpoint}
use utrace.Breakpoints.Store.{ptr_at, count_of, count, hit}
use utrace.Breakpoints.Insert.{Inserts, insert_breakpoint-Inserts}
use utrace.Breakpoints.Delete.{Deletes, delete_breakpoint-Deletes}
use utrace.Callstack.{callstack_push_symfunc, callstack_pop, set_thread}
use utrace.Callstack.Balance.{IsThread, IsBalanced, SameSettings, wants}
use utrace.Callstack.Frames.{Pushed, callstack_pop-IsBalanced, callstack_push_symfunc-IsBalanced}
use utrace.Events.{Context, process_breakpoint, find_return, find_symbol}
use utrace.Events.Unwind.{Returned, process_breakpoint-Returned}
use utrace.Events.Calls.{Called, process_breakpoint-Called}
use utrace.Tests.Machine.{
  machine, machine-IsMemory, fits, quiet, callee, process_of, quiet-IsStore, resting, in_call,
  calling, plain, host,
}

abbrev trap : Breakpoint
trap = record { addr = 100; orig_value = 0 ∷ []; enabled = 1 }

enable_breakpoint-Sets_example :
    Sets i386 machine 7
      (machine-IsMemory 7)
      quiet.kernel
      trap
      (enable_breakpoint i386 machine 7 quiet.kernel trap)
enable_breakpoint-Sets_example =
    enable_breakpoint-Sets i386 machine 7 (machine-IsMemory 7) quiet.kernel trap fits refl

-- The byte under the trap is 0xcc.
trap_stands : (enable_breakpoint i386 machine 7 quiet.kernel trap).0 100 ≡ 0xcc
unfolding enable_breakpoint
trap_stands = refl

insert_breakpoint-Inserts_example :
    Returns
      (insert_breakpoint i386 machine quiet (process_of resting) 100)
      (Inserts i386 machine quiet (process_of resting) 100)
insert_breakpoint-Inserts_example =
    insert_breakpoint-Inserts i386 machine quiet (process_of resting) 100 fits
      (quiet-IsStore resting)

-- The state after the breakpoint at 100 was inserted.
abbrev pub armed : Core (ℕ → ℕ) × Process
armed =
    (insert_breakpoint-Inserts i386 machine quiet (process_of resting) 100 fits
      (quiet-IsStore resting)).0

pub armed-Inserts : Inserts i386 machine quiet (process_of resting) 100 armed
armed-Inserts =
    (insert_breakpoint-Inserts i386 machine quiet (process_of resting) 100 fits
      (quiet-IsStore resting)).2

pub armed_count : (c : ℕ) → count armed.0 armed.1 c ≡ count quiet (process_of resting) c + hit c 100
armed_count c = armed-Inserts.counted c

delete_breakpoint-Deletes_example :
    Returns
      (delete_breakpoint i386 machine armed.0 armed.1 100)
      (Deletes i386 machine armed.0 armed.1 100)
delete_breakpoint-Deletes_example =
    delete_breakpoint-Deletes i386 machine armed.0 armed.1 100
      (count quiet (process_of resting) 100) armed-Inserts.store (armed_count 100 ∙ omega arith)

-- Where nothing was inserted, nothing is counted.
pub no_count : (o : Option ℕ) → count_of (λ q. none) o ≡ 0
no_count none = refl
no_count (some q) = refl

-- The breakpoint of the one symbol.
abbrev pub at_entry : ℕ → ℕ
at_entry a = hit a 100

pub armed_table : armed.1 ≡ record (process_of resting) { breakpoints = armed.1.breakpoints }
armed_table = armed-Inserts.only_table

resting-IsThread : IsThread resting
unfolding zero_thread
resting-IsThread = record { width = length-replicate 100 zero_element; room = omega arith }

pub armed-IsBalanced : IsBalanced i386 at_entry 0 armed.0 armed.1 resting
unfolding wants zero_thread replicate
armed-IsBalanced = record {
  store = armed-Inserts.store;
  stands = ap (λ (q : Process). get_elem? q.threads 0) armed_table;
  thread = resting-IsThread;
  child = refl;
  counts = λ a. omega (arith, armed_count a, no_count (ptr_at (process_of resting) a));
}

callstack_push_symfunc-IsBalanced_example :
    Returns
      (callstack_push_symfunc i386 machine plain
        (record { tv_sec = 1; tv_usec = 2 })
        armed.0
        armed.1
        0
        callee)
      λ r.
        (t' : Thread) × IsBalanced i386 at_entry 0 r.0 r.1 t'
        × Pushed i386 at_entry machine 0 armed.0 armed.1 resting armed-IsBalanced plain
            (record { tv_sec = 1; tv_usec = 2 })
            callee
            t'
        × SameSettings armed.1 r.1
callstack_push_symfunc-IsBalanced_example =
    callstack_push_symfunc-IsBalanced i386 at_entry machine 0 armed.0 armed.1 resting
      armed-IsBalanced plain (record { tv_sec = 1; tv_usec = 2 }) callee fits
      (unfold zero_thread in omega arith)

-- A call from 100 is under way, with the breakpoint at 200 that it wants.
abbrev called : Core (ℕ → ℕ) × Process
called =
    (insert_breakpoint-Inserts i386 machine quiet (process_of calling) 200 fits
      (quiet-IsStore calling)).0

called-Inserts : Inserts i386 machine quiet (process_of calling) 200 called
called-Inserts =
    (insert_breakpoint-Inserts i386 machine quiet (process_of calling) 200 fits
      (quiet-IsStore calling)).2

called-IsBalanced : IsBalanced i386 (λ a. 0) 0 called.0 called.1 calling
unfolding wants replicate zero_thread
called-IsBalanced = record {
  store = called-Inserts.store;
  stands = ap (λ (q : Process). get_elem? q.threads 0) called-Inserts.only_table;
  thread = record { width = ap suc (length-replicate 99 zero_element); room = omega arith };
  child = refl;
  counts = λ a. omega (arith, called-Inserts.counted a, no_count (ptr_at (process_of calling) a));
}

callstack_pop-IsBalanced_example : Returns (callstack_pop i386 machine called.0 called.1 0) λ r.
    IsBalanced i386 (λ a. 0) 0 r.0 r.1 (record calling { callstack_depth = 0 })
    × (r.1 ≡ set_thread called.1 0 (record calling { callstack_depth = 0 }))
callstack_pop-IsBalanced_example =
    callstack_pop-IsBalanced i386 (λ a. 0) machine 0 called.0 called.1 calling called-IsBalanced 0
      refl

abbrev pub context_of : Core (ℕ → ℕ) × Process → Context (ℕ → ℕ)
context_of r = record { core = r.0; proc = r.1; displayed = []; current_time_spent = (pos 0, 0) }

abbrev pub noon : Timeval
noon = record { tv_sec = 43200; tv_usec = 0 }

process_breakpoint-Returned_example :
    Returns
      (process_breakpoint i386 machine plain host noon 0 200 (context_of called))
      (Returned i386 machine plain host noon (λ a. 0) 0 (context_of called) calling 0 callee)
unfolding find_return zero_thread
process_breakpoint-Returned_example =
    process_breakpoint-Returned i386 machine plain host noon (λ a. 0) 0 (context_of called) calling
      200 0 in_call callee called-IsBalanced refl refl refl refl refl

process_breakpoint-Called_example :
    Returns
      (process_breakpoint i386 machine plain host noon 0 100 (context_of armed))
      (Called i386 machine plain host noon at_entry 0 (context_of armed) resting callee)
unfolding find_return find_symbol zero_thread
process_breakpoint-Called_example =
    process_breakpoint-Called i386 machine plain host noon at_entry 0 (context_of armed) resting 100
      callee fits armed-IsBalanced refl (omega arith) refl
      (ap (λ (q : Process). find_symbol 100 q.list_of_symbols) armed_table) (omega arith)

-- ===== src/Tests/Waits.antt =====
-- Events made of stops on the small machine.
use utrace.Common.{ℕ, ◌≡◌, refl, arith, [], length-replicate, replicate, some}
use utrace.Common.Int.{pos, negsuc}
use utrace.Arch.{i386}
use utrace.Tracee.{Thread, Timeval, zero_thread, enabled}
use utrace.Threads.{find_tid}
use utrace.Run.{ok, fault, undefined, Returns}
use utrace.Callstack.{callstack_push_syscall}
use utrace.Events.{Context}
use utrace.Events.Handlers.{ev_breakpoint}
use utrace.Wait.{stopped, sigtrap, sysret, syscall_p, event, make_event, event_in}
use utrace.Wait.Syscalls.{syscall_p-callstack_push_syscall}
use utrace.Wait.Stops.{make_event-ev_breakpoint, event_in_new_thread}
use utrace.Tests.Machine.{machine, quiet, resting, plain, host}
use utrace.Tests.Tables.{process, process-IsRegistry}

abbrev now : Timeval
now = record { tv_sec = 1; tv_usec = 2 }

syscall_p-callstack_push_syscall_example :
    Returns
      (callstack_push_syscall plain now resting 4)
      (λ t'. syscall_p t' (stopped sigtrap) (pos 4) ≡ ok (sysret 4))
unfolding zero_thread
syscall_p-callstack_push_syscall_example =
    syscall_p-callstack_push_syscall plain now resting 4 (omega arith) (length-replicate 100 _)

abbrev full : Thread
full = record zero_thread { callstack_depth = 99 }

-- The instruction pointer of the machine is what it is; the trap stands before it.
abbrev armed_context : Context (ℕ → ℕ)
armed_context = record {
  core = quiet;
  proc = record process { breakpoints_enabled = enabled };
  displayed = [];
  current_time_spent = (pos 0, 0);
}

make_event-ev_breakpoint_example :
    Returns
      (make_event i386 machine plain host now
        (λ k tid. negsuc 0)
        7
        (stopped sigtrap)
        0
        armed_context)
      (λ w. (c' : Context (ℕ → ℕ)) × (w ≡ event (ev_breakpoint 4) 0 c') × (c'.core ≡ quiet))
make_event-ev_breakpoint_example =
    make_event-ev_breakpoint i386 machine plain host now (λ k tid. negsuc 0) 7 0 4 0 armed_context
      resting refl refl refl (omega arith) (omega arith) refl

event_in_new_thread_example :
    event_in i386 machine plain host now
      (λ k tid. negsuc 0)
      quiet
      []
      (pos 0, 0)
      8
      (stopped 19)
      (some process)
    ≡ fault undefined
unfolding find_tid zero_thread replicate
event_in_new_thread_example =
    event_in_new_thread i386 machine plain host now (λ k tid. negsuc 0) quiet [] (pos 0, 0) 8 1
      (stopped 19) process process-IsRegistry (λ h e. ground arith) (omega arith) refl refl

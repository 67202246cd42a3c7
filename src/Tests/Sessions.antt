-- ===== src/Tests/Sessions.antt =====
-- Whole runs of the loop of utrace-0.1/ltrace.c on a small machine whose registers lie in memory.
use utrace.Common.{
  ℕ, zero, suc, [], ◌∷◌, List, Option, none, some, ◌==◌, if◌then◌else◌, true, replicate,
}
use utrace.Common.Int.{ℤ, pos, negsuc}
use utrace.Ptrace.{Ptrace}
use utrace.Tracee.{Process, Thread, zero_element, syscall, enabled}
use utrace.Callstack.{set_thread}
use utrace.Events.{Host, Context}
use utrace.Events.Handlers.{kept, ev_sysret}
use utrace.Wait.{stopped, sigtrap, changed, event, make_event, with_ip, syscall_p, event_of_kind}
use utrace.Session.{Turn, Tracer, with_procs}
use utrace.Tgid.Status.{status_text}
use utrace.Tests.Machine.{quiet, process_of, machine, resting}
use utrace.Tests.Tracing.{armed, context_of, noon}

-- The instruction pointer lies at 500, and at 501 the number of the system call and 1, or 0.
abbrev board : Ptrace
board = record {
  Kernel = ℕ → ℕ;
  peek_text = machine.peek_text;
  poke_text = machine.poke_text;
  instruction_pointer = λ k pid. k 500;
  set_instruction_pointer = λ k pid a b. if b == 500 then a else k b;
  stack_pointer = λ k pid. 64;
  return_addr = λ k pid sp. 200;
  resume = λ k r. k;
}

abbrev call_number : ℕ → ℤ
call_number zero = negsuc 0
call_number (suc n) = pos n

abbrev orig_eax : (ℕ → ℕ) → ℕ → ℤ
orig_eax k tid = call_number (k 501)

abbrev host : Host board
host = record {
  nr_fork = 2;
  nr_vfork = 190;
  nr_clone = 120;
  nr_execve = 11;
  sigstop = 19;
  return_value = λ k tid. 0;
  pid2name = λ k pid. none;
  read_elf = λ f. [];
}

-- The process of `armed` with its breakpoints set up.
abbrev ready : Context (ℕ → ℕ)
ready = context_of (armed.0, record (armed.1) { breakpoints_enabled = enabled })

-- "Tgid:\t7\n" of every thread
abbrev read_status : ℕ → Option (List ℕ)
read_status pid = some (status_text [] 55 [] [] (10 ∷ []))

-- A stop of the thread with the given registers.
abbrev stop_at : ℕ → ℕ → Turn (ℕ → ℕ)
stop_at ip call = record {
  kernel = λ a. if a == 500 then ip else if a == 501 then call else 0;
  answer = changed 7 (stopped sigtrap);
  now = noon;
}

-- The tracer of `ready` before the loop.
abbrev tracing : Tracer (ℕ → ℕ)
tracing = with_procs ready [] (ready.proc ∷ [])

-- The function is called, the trap is put back, a system call comes and goes, and the function
-- returns.
abbrev day : List (Turn (ℕ → ℕ))
day = stop_at 101 0 ∷ stop_at 103 0 ∷ stop_at 120 5 ∷ stop_at 120 5 ∷ stop_at 201 0 ∷ []

-- A program without symbols.
abbrev bare_proc : Thread → Process
bare_proc t = record (process_of t) { list_of_symbols = []; breakpoints_enabled = enabled }

-- The tracer of such a program before the loop.
abbrev bare : Tracer (ℕ → ℕ)
bare = record {
  core = quiet;
  displayed = [];
  current_time_spent = (pos 0, 0);
  cache = [];
  procs = bare_proc resting ∷ [];
}

-- The same thread within system call 4, from 12:00 on.
abbrev in_kernel : Thread
in_kernel = record resting {
  callstack_depth = 1;
  callstack =
      record zero_element { is_syscall = true; c_un = syscall 4; time_spent = noon }
      ∷ replicate 99 zero_element;
}

abbrev within : Process → Tracer (ℕ → ℕ)
within q = record bare { core = record quiet { kernel = (stop_at 120 5).kernel }; procs = q ∷ [] }

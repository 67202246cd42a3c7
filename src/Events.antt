-- ===== src/Events.antt =====
-- utrace-0.1/process_event.c: what the tracer does on an event, and the ways of
-- utrace-0.1/sysdeps/linux-gnu/trace.c to let the thread go on. The lines that the output shows are
-- recorded as the calls that make them; the i386 code is meant where the sources differ.
pub mod Handlers
pub mod Traps
pub mod Unwind
pub mod Calls
pub mod Detaching
use utrace.Common.{
  ℕ, zero, suc, ◌+◌, ◌-◌, Bool, true, false, not, ◌&&◌, ◌||◌, List, [], ◌∷◌, ◌++◌, Option, none,
  some, ◌==◌, if◌then◌else◌, ltb, get_elem?, set,
}
use utrace.Common.Int.{ℤ}
use utrace.Ptrace.{Ptrace, Request, run_to_syscall, single_step, detach}
use utrace.Arch.{Arch}
use utrace.Trap.{Breakpoint, enable_breakpoint, disable_breakpoint}
use utrace.Tracee.{
  LibrarySymbol, Timeval, Callee, syscall, libfunc, unset, CallstackElement, Thread, Process,
  Enabled, disabled,
}
use utrace.Threads.{Registered, slot, exits, reg_tid}
use utrace.Run.{Run, ok, fault, null_pointer, undefined, exit_failure, ◌>>=◌}
use utrace.Options.{Options}
use utrace.Breakpoints.{
  Core, deref, write, address2bpstruct, switch_on, enable_all_breakpoints, disable_all_breakpoints,
  breakpoints_init,
}
use utrace.Callstack.{
  element_at, set_thread, callstack_push_syscall, callstack_push_symfunc, callstack_pop,
  calc_time_spent,
}

-- A call of the output: `output_left`, `output_right` with the depth of the thread at the call, and
-- the lines of `output_line`.
pub data Display : Type 0 where
  left : (tid depth : ℕ) → Callee → Display
  right : (tid depth : ℕ) → Callee → Display
  signal_line : (tid signum : ℕ) → Display
  exit_line : (tid status : ℕ) → Display
  killed_line : (tid signum : ℕ) → Display
  breakpoint_line : (tid addr : ℕ) → Display

-- The kernel's numbers, and what the tracer reads from a process: the return value of a system call
-- (`gimme_arg(…, -1)`), the name of its program, and the symbols of a file (`read_elf`).
pub record Host (p : Ptrace) : Type 0 where
  pub nr_fork : ℕ
  pub nr_vfork : ℕ
  pub nr_clone : ℕ
  pub nr_execve : ℕ
  pub sigstop : ℕ
  pub return_value : p.Kernel → ℕ → ℕ
  pub pid2name : p.Kernel → ℕ → Option (List ℕ)
  pub read_elf : List ℕ → List LibrarySymbol

unfoldable pub fork_p : {p : Ptrace} → Host p → ℕ → Bool
fork_p h sysnum = sysnum == h.nr_fork || sysnum == h.nr_vfork

unfoldable pub clone_p : {p : Ptrace} → Host p → ℕ → Bool
clone_p h sysnum = sysnum == h.nr_clone

unfoldable pub exec_p : {p : Ptrace} → Host p → ℕ → Bool
exec_p h sysnum = sysnum == h.nr_execve

-- What an event works on: the process and the state behind it.
pub record Context (K : Type 0) : Type 0 where
  pub core : Core K
  pub proc : Process
  pub displayed : List Display
  pub current_time_spent : ℤ × ℕ

abbrev pub show : {K : Type 0} → Context K → Display → Context K
show c d = record c { displayed = c.displayed ++ d ∷ [] }

abbrev pub with_state : {K : Type 0} → Context K → Core K × Process → Context K
with_state c r = record c { core = r.0; proc = r.1 }

abbrev pub with_kernel : {K : Type 0} → Context K → K → Context K
with_kernel c k = record c { core = record (c.core) { kernel = k } }

-- The topmost frame below `n` that returns to the address: the `for` loop over `i`.
unfoldable pub find_return : ℕ → List CallstackElement → ℕ → Option ℕ
find_return addr es zero = none
find_return addr es (suc n) =
    let rest = find_return addr es n in
    elim (get_elem? es n) [ none ↦ rest | some e ↦ if addr == e.return_addr then some n else rest ]

-- The first symbol at the address: the `while (tmp)` loop.
unfoldable pub find_symbol : ℕ → List LibrarySymbol → Option LibrarySymbol
find_symbol addr [] = none
find_symbol addr (sym ∷ syms) = if addr == sym.enter_addr then some sym else find_symbol addr syms

module _ (arch : Arch) (p : Ptrace) (o : Options) (h : Host p) (now : Timeval) where
  unfoldable pub continue_after_signal : ℕ → ℕ → Context p.Kernel → Context p.Kernel
  continue_after_signal tid signum c =
      with_kernel c (p.resume c.core.kernel (run_to_syscall tid signum))

  unfoldable pub continue_process : ℕ → Context p.Kernel → Context p.Kernel
  unfolding continue_after_signal
  continue_process tid c = continue_after_signal tid 0 c

  -- `enable_breakpoint` and `continue_process`
  unfoldable pub continue_enabling_breakpoint : ℕ → ℕ → Context p.Kernel → Run (Context p.Kernel)
  unfolding continue_process switch_on
  continue_enabling_breakpoint tid sbp c = do
    b ← deref c.core sbp
    ok (continue_process tid (record c { core = switch_on arch p c.core tid sbp b }))

  -- The thread runs on from the address of the breakpoint: freely, or for one step with the code
  -- put back.
  unfoldable pub go_on : ℕ → Thread → ℕ → Breakpoint → Context p.Kernel → Context p.Kernel
  unfolding continue_process
  go_on i t sbp b c =
      let k = c.core.kernel in
      let k' = if b.enabled == 0 then k else disable_breakpoint arch p t.tid k b in
      let c' = with_kernel c (p.set_instruction_pointer k' t.tid b.addr) in
      if b.enabled == 0
      then continue_process t.tid c'
      else with_kernel
          (record c' {
            proc = set_thread c.proc i (record t { breakpoint_being_enabled = some sbp });
          })
          (p.resume c'.core.kernel (single_step t.tid))

  unfoldable pub continue_after_breakpoint :
      ℕ → Option ℕ → Context p.Kernel → Run (Context p.Kernel)
  unfolding go_on
  continue_after_breakpoint i none c = fault null_pointer
  continue_after_breakpoint i (some sbp) c = do
    t ← element_at c.proc.threads i
    b ← deref c.core sbp
    ok (go_on i t sbp b c)

  -- `callstack_pop`, `count` times
  unfoldable pub pops : ℕ → ℕ → Context p.Kernel → Run (Context p.Kernel)
  pops i zero c = ok c
  pops i (suc n) c = callstack_pop arch p c.core c.proc i >>= λ r. pops i n (with_state c r)

  -- `if (opt_T || opt_c) calc_time_spent(event->thr);`
  unfoldable pub measure : ℕ → Context p.Kernel → Run (Context p.Kernel)
  measure i c =
      if o.opt_T || o.opt_c
      then (element_at c.proc.threads i >>= λ t.
          calc_time_spent now t >>= λ d. ok (record c { current_time_spent = d }))
      else ok c

  -- `callstack[i].c_un.libfunc`, where a function was written last
  abbrev pub function_of : Callee → Run LibrarySymbol
  function_of unset = fault undefined
  function_of (syscall n) = fault undefined
  function_of (libfunc sym) = ok sym

  -- `thr->return_addr = brk_addr; output_right(…)`: the frame is read after it was popped.
  unfoldable pub show_return : ℕ → ℕ → ℕ → Context p.Kernel → Run (Context p.Kernel)
  show_return i addr frame c = do
    t ← element_at c.proc.threads i
    elem ← element_at t.callstack frame
    sym ← function_of elem.c_un
    let t' = record t { return_addr = addr }
    ok (
        show (record c { proc = set_thread c.proc i t' })
          (right t.tid t.callstack_depth (libfunc sym)))

  -- The branch of a return: the frames above `frame` go first, then `frame` itself.
  unfoldable pub returned : ℕ → Thread → ℕ → ℕ → Context p.Kernel → Run (Context p.Kernel)
  unfolding pops measure show_return continue_after_breakpoint
  returned i t addr frame c = do
    c₁ ← pops i (t.callstack_depth - 1 - frame) c
    c₂ ← measure i c₁
    c₃ ← pops i 1 c₂
    c₄ ← show_return i addr frame c₃
    sbp ← address2bpstruct c₄.proc addr
    continue_after_breakpoint i sbp c₄

  -- The branch of a call.
  unfoldable pub entered : ℕ → Thread → LibrarySymbol → Context p.Kernel → Run (Context p.Kernel)
  unfolding continue_after_breakpoint
  entered i t sym c = do
    let sp = p.stack_pointer c.core.kernel t.tid
    let t' = record t { stack_pointer = sp; return_addr = p.return_addr c.core.kernel t.tid sp }
    let c₁ =
        show (record c { proc = set_thread c.proc i t' })
          (left t.tid t.callstack_depth (libfunc sym))
    r ← callstack_push_symfunc arch p o now c₁.core c₁.proc i sym
    sbp ← address2bpstruct r.1 sym.enter_addr
    continue_after_breakpoint i sbp (with_state c₁ r)

  unfoldable pub not_returned :
      ℕ → Thread → ℕ → Option LibrarySymbol → Context p.Kernel → Run (Context p.Kernel)
  unfolding entered continue_process
  not_returned i t addr (some sym) c = entered i t sym c
  not_returned i t addr none c = ok (continue_process t.tid (show c (breakpoint_line t.tid addr)))

  unfoldable pub stopped_at : ℕ → Thread → ℕ → Option ℕ → Context p.Kernel → Run (Context p.Kernel)
  unfolding returned not_returned
  stopped_at i t addr (some frame) c = returned i t addr frame c
  stopped_at i t addr none c = not_returned i t addr (find_symbol addr c.proc.list_of_symbols) c

  -- `if (event->thr->breakpoint_being_enabled)`: the step over the breakpoint is done.
  unfoldable pub reinsert : ℕ → Thread → ℕ → Context p.Kernel → Run (Context p.Kernel)
  unfolding continue_enabling_breakpoint
  reinsert i t sbp c = continue_enabling_breakpoint t.tid sbp c >>= λ c'.
      ok (record c' { proc = set_thread c'.proc i (record t { breakpoint_being_enabled = none }) })

  unfoldable pub process_breakpoint : ℕ → ℕ → Context p.Kernel → Run (Context p.Kernel)
  unfolding reinsert stopped_at
  process_breakpoint i addr c = do
    t ← element_at c.proc.threads i
    elim t.breakpoint_being_enabled [
      | some sbp ↦ reinsert i t sbp c
      | none ↦ stopped_at i t addr (find_return addr t.callstack t.callstack_depth) c
    ]

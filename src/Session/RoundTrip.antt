-- ===== src/Session/RoundTrip.antt =====
-- A call and its return: three events of a traced process, in utrace-0.1/process_event.c.
use utrace.Common.{ℕ, ◌+◌, ◌≡◌, false, [], ◌∷◌, ◌++◌, some, none, get_elem?}
use utrace.Ptrace.{Ptrace}
use utrace.Arch.{Arch}
use utrace.Tracee.{LibrarySymbol, Timeval, libfunc, CallstackElement, Thread}
use utrace.Run.{Returns}
use utrace.Options.{Options}
use utrace.Events.{left, right, Host, Context, with_kernel, process_breakpoint}
use utrace.Session.Typed.{IsTraced}

module _ (arch : Arch) (p : Ptrace) (o : Options) (h : Host p) (base : ℕ → ℕ)
    (tid i address : ℕ) where
  abbrev IsOurs : Context p.Kernel → Thread → Type 0
  IsOurs c t = IsTraced arch base h.nr_execve tid i address c t

  -- Where the function `fn` has been called from depth `t.callstack_depth`, and the thread does not
  -- step.
  record Inside (c : Context p.Kernel) (t : Thread) (fn : LibrarySymbol) (back : ℕ)
      (c' : Context p.Kernel) (t' : Thread) : Type 0 where
    traced : IsOurs c' t'
    idle : t'.breakpoint_being_enabled ≡ none
    depth : t'.callstack_depth ≡ t.callstack_depth + 1
    frame : CallstackElement
    top : get_elem? t'.callstack t.callstack_depth ≡ some frame
    callee : frame.c_un ≡ libfunc fn
    function : frame.is_syscall ≡ false
    returns_to : frame.return_addr ≡ back
    same_tid : t'.tid ≡ t.tid
    shown : c'.displayed ≡ c.displayed ++ left t.tid t.callstack_depth (libfunc fn) ∷ []

  -- The call and its return are shown, and the frames are those of before.
  pub record CameBack (c : Context p.Kernel) (t : Thread) (fn : LibrarySymbol)
      (c' : Context p.Kernel) : Type 0 where
    pub thread : Thread
    pub stands : get_elem? c'.proc.threads i ≡ some thread
    pub depth : thread.callstack_depth ≡ t.callstack_depth
    pub shown :
        c'.displayed
        ≡ (c.displayed ++ left t.tid t.callstack_depth (libfunc fn) ∷ [])
          ++ right t.tid t.callstack_depth (libfunc fn) ∷ []

  -- What the stop at the return address does, whenever it comes.
  abbrev pub Back : Context p.Kernel → Thread → LibrarySymbol → ℕ → Context p.Kernel → Type 0
  Back c t fn back c₂ =
      (now : Timeval) (k : p.Kernel)
      → Returns (process_breakpoint arch p o h now i back (with_kernel c₂ k)) (CameBack c t fn)

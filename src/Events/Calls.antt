-- ===== src/Events/Calls.antt =====
-- `process_breakpoint` of utrace-0.1/process_event.c at the entry of a function.
use utrace.Common.{
  ℕ, ◌+◌, ◌-◌, ◌≤◌, ◌≡◌, ◌≢◌, ap, sym, ◌∙◌, false, List, [], ◌∷◌, ◌++◌, none, some, arith,
  get_elem?, get_elem?-set_self,
}
use utrace.Ptrace.{Ptrace}
use utrace.Arch.{Arch, FitsWord}
use utrace.Tracee.{
  LibrarySymbol, Timeval, libfunc, CallstackElement, max_calldepth, Thread, Process,
}
use utrace.Run.{Returns, bind-Returns, weaken-Returns, along-Returns}
use utrace.Options.{Options}
use utrace.Breakpoints.{Core}
use utrace.Breakpoints.Store.{ptr_at}
use utrace.Callstack.{set_thread}
use utrace.Callstack.Balance.{IsBalanced, SameSettings}
use utrace.Callstack.Frames.{in_slot, callstack_push_symfunc-IsBalanced}
use utrace.Events.{
  left, Host, Context, with_state, find_return, find_symbol, entered, not_returned, stopped_at,
  process_breakpoint,
}
use utrace.Events.Traps.{Balanced, Stepping, trans-SameSettings, continue_after_breakpoint-GoesOn}
use utrace.Events.Unwind.{counted_pointer, not_stepping}

module _ (arch : Arch) (p : Ptrace) (o : Options) (h : Host p) (now : Timeval) (base : ℕ → ℕ)
    (i : ℕ) where
  -- The thread and the context when a function was entered.
  pub record Called (c : Context p.Kernel) (t : Thread) (fn : LibrarySymbol) (c' : Context p.Kernel)
      : Type 0 where
    pub thread : Thread
    pub balanced : Balanced arch p o h now base i c' thread
    pub depth : thread.callstack_depth ≡ t.callstack_depth + 1
    pub same_tid : thread.tid ≡ t.tid
    pub frame : CallstackElement
    pub top : get_elem? thread.callstack t.callstack_depth ≡ some frame
    pub callee : frame.c_un ≡ libfunc fn
    pub function : frame.is_syscall ≡ false
    pub returns_to :
        frame.return_addr ≡ p.return_addr c.core.kernel t.tid (p.stack_pointer c.core.kernel t.tid)
    pub below :
        (j : ℕ) → t.callstack_depth ≢ j → get_elem? thread.callstack j ≡ get_elem? t.callstack j
    pub shown : c'.displayed ≡ c.displayed ++ left t.tid t.callstack_depth (libfunc fn) ∷ []
    pub same_settings : SameSettings c.proc c'.proc
    pub stepping : Stepping c'.proc thread

  entered-Called :
      (c : Context p.Kernel) (t : Thread) (fn : LibrarySymbol)
      → FitsWord arch
      → Balanced arch p o h now base i c t
      → t.breakpoint_being_enabled ≡ none
      → t.callstack_depth ≢ max_calldepth - 1
      → 1 ≤ base fn.enter_addr
      → Returns (entered arch p o h now i t fn c) (Called c t fn)
  unfolding entered
  entered-Called c t fn fits b idle room wanted =
      bind-Returns _ _
        (callstack_push_symfunc-IsBalanced arch base p i c.core _ t₁ b₁ o now fn fits room)
        λ r (t₂, b₂, q, u).
          weaken-Returns _
            (continue_after_breakpoint-GoesOn arch p o h now base i t₂ fn.enter_addr
              (pointer r t₂ b₂).0 (with_state c₁ r) b₂ (pointer r t₂ b₂).1)
            λ c₃ g. record {
              thread = g.thread;
              balanced = g.balanced;
              depth = g.same_depth ∙ q.depth;
              same_tid = g.same_tid ∙ q.same_tid;
              frame = q.elem;
              top =
                  ap (λ (es : List CallstackElement). get_elem? es t.callstack_depth) g.same_frames
                  ∙ q.top;
              callee = q.callee;
              function = q.function;
              returns_to = q.returns_to;
              below = λ j n.
                  ap (λ (es : List CallstackElement). get_elem? es j) g.same_frames ∙ q.below j n;
              shown = g.same_display;
              same_settings = trans-SameSettings (of_shown u) g.same_settings;
              stepping = g.stepping λ x e. cc (sym idle ∙ sym q.stepping ∙ e);
            }
    where
      t₁ : Thread
      t₁ =
          let sp = p.stack_pointer c.core.kernel t.tid in
          record t { stack_pointer = sp; return_addr = p.return_addr c.core.kernel t.tid sp }

      c₁ : Context p.Kernel
      c₁ = record c {
        proc = set_thread c.proc i t₁;
        displayed = c.displayed ++ left t.tid t.callstack_depth (libfunc fn) ∷ [];
      }

      of_shown : {y : Process} → SameSettings c₁.proc y → SameSettings c.proc y
      of_shown u = record {
        symbols = u.symbols;
        setting = u.setting;
        hot = u.hot;
        same_pid = u.same_pid;
        same_address = u.same_address;
      }

      b₁ : Balanced arch p o h now base i c₁ t₁
      b₁ = record {
        store = record {
          table = b.store.table;
          keyed = b.store.keyed;
          found = b.store.found;
          live = b.store.live;
        };
        stands =
            get_elem?-set_self c.proc.threads i t₁ (in_slot arch base c.proc.threads i t b.stands);
        thread = record { width = b.thread.width; room = b.thread.room };
        child = b.child;
        counts = b.counts;
      }

      pointer :
          (r : Core p.Kernel × Process) (t₂ : Thread)
          → IsBalanced arch base i r.0 r.1 t₂
          → (q : ℕ) × (ptr_at r.1 fn.enter_addr ≡ some q)
      pointer r t₂ b₂ =
          counted_pointer r.0 r.1 fn.enter_addr (omega (arith, b₂.counts fn.enter_addr))

  -- Where a thread that is not stepping over a breakpoint stops at the entry of a traced function
  -- to which no frame returns, and its stack is not full, process_breakpoint ends without a fault:
  -- one frame for that function is on top with the return address that the stack held, the
  -- breakpoint counts match the frames again, and the call is shown
  pub process_breakpoint-Called :
      (c : Context p.Kernel) (t : Thread) (addr : ℕ) (fn : LibrarySymbol)
      → FitsWord arch
      → Balanced arch p o h now base i c t
      → t.breakpoint_being_enabled ≡ none
      → t.callstack_depth ≢ max_calldepth - 1
      → find_return addr t.callstack t.callstack_depth ≡ none
      → find_symbol addr c.proc.list_of_symbols ≡ some fn
      → 1 ≤ base fn.enter_addr
      → Returns (process_breakpoint arch p o h now i addr c) (Called c t fn)
  unfolding process_breakpoint stopped_at not_returned
  process_breakpoint-Called c t addr fn fits b idle room no_return at_entry wanted =
      along-Returns _ (entered arch p o h now i t fn c)
        (not_stepping arch p o h now base i c t addr b idle ∙ rw (no_return, at_entry))
        (entered-Called c t fn fits b idle room wanted)

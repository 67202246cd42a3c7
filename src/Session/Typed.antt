-- ===== src/Session/Typed.antt =====
-- What holds of a traced process between two rounds of the loop of utrace-0.1/ltrace.c.
use utrace.Common.{
  ℕ, ◌+◌, ◌≤◌, ◌<◌, ◌≡◌, ◌≢◌, inl, inr, ap, sym, ◌∙◌, arith, true, false, Bool-cases, List, some,
  ◌==◌, ==_iff, get_elem?, length, get_elem?-set_self,
}
use utrace.Common.Int.{ℤ}
use utrace.Arch.{Arch}
use utrace.Tracee.{LibrarySymbol, syscall, libfunc, CallstackElement, Thread, enabled}
use utrace.Callstack.{set_thread}
use utrace.Callstack.Balance.{IsBalanced, SameSettings}
use utrace.Callstack.Frames.{in_slot}
use utrace.Events.{Context, Display, find_symbol}
use utrace.Events.Traps.{Stepping}

-- A frame's tag says which member of the union was written; no frame is one of execve.
pub data IsTyped (nr_execve : ℕ) (e : CallstackElement) : Type 0 where
  of_syscall :
      (n : ℕ)
      → e.is_syscall ≡ true
      → e.c_un ≡ syscall n
      → e.return_addr ≡ 0
      → (n == nr_execve) ≡ false
      → IsTyped nr_execve e
  of_function :
      (fn : LibrarySymbol) → e.is_syscall ≡ false → e.c_un ≡ libfunc fn → IsTyped nr_execve e

abbrev pub AreTyped : ℕ → List CallstackElement → ℕ → Type 0
AreTyped nr_execve es depth =
    (j : ℕ) → j < depth → (e : CallstackElement) → get_elem? es j ≡ some e → IsTyped nr_execve e

-- A frame more, on top.
pub push-AreTyped :
    (nr : ℕ) (es es' : List CallstackElement) (d : ℕ) (top : CallstackElement)
    → AreTyped nr es d
    → get_elem? es' d ≡ some top
    → IsTyped nr top
    → ((j : ℕ) → d ≢ j → get_elem? es' j ≡ get_elem? es j)
    → AreTyped nr es' (d + 1)
push-AreTyped nr es es' d top old at typed below j k e g = elim (Bool-cases (d == j)) [
  | inl here ↦
      let there : d ≡ j = (==_iff d j).0 here in
      let same : some top ≡ some e = sym at ∙ ap (get_elem? es') there ∙ g in
      let one : top ≡ e = cc same in rw (sym one) typed
  | inr apart ↦
      let other : d ≢ j = λ z. absurd (cc (sym apart ∙ (==_iff d j).1 z)) in
      old j (omega (arith, other)) e (sym (below j other) ∙ g)
]

pub record IsTraced (arch : Arch) (base : ℕ → ℕ) (nr_execve tid i address : ℕ) {K : Type 0}
    (c : Context K) (t : Thread) : Type 0 where
  -- frames and breakpoint counts in step
  pub balanced : IsBalanced arch base i c.core c.proc t
  pub typed : AreTyped nr_execve t.callstack t.callstack_depth
  pub stepping : Stepping c.proc t
  pub named : t.tid ≡ tid
  -- `tid2thread` finds the thread in the slot that it looks at first
  pub cached : c.proc.hot_tid_idx ≡ some i
  -- the thread is the leader of its group
  pub leader : c.proc.pid ≡ tid
  pub real : tid ≢ 0
  pub home : c.proc.address ≡ address
  -- the breakpoints of the process are set up
  pub armed : c.proc.breakpoints_enabled ≡ enabled
  -- the entry of every symbol is counted, apart from the frames
  pub wanted :
      (a : ℕ) (fn : LibrarySymbol)
      → find_symbol a c.proc.list_of_symbols ≡ some fn
      → 1 ≤ base fn.enter_addr

abbrev pub Traced :
    (arch : Arch) (base : ℕ → ℕ) (nr_execve tid i address : ℕ) {K : Type 0} → Context K → Type 0
Traced arch base nr_execve tid i address c =
    (t : Thread) × IsTraced arch base nr_execve tid i address c t

module _ (arch : Arch) (base : ℕ → ℕ) (nr_execve tid i address : ℕ) {K : Type 0} where
  -- A change of the kernel and of the display.
  pub world-IsTraced :
      (c : Context K) (t : Thread) (k : K) (ds : List Display) (spent : ℤ × ℕ)
      → IsTraced arch base nr_execve tid i address c t
      → IsTraced arch base nr_execve tid i address
          (record c {
            core = record (c.core) { kernel = k };
            displayed = ds;
            current_time_spent = spent;
          })
          t
  world-IsTraced c t k ds spent v = record {
    balanced = record {
      store = record {
        table = b.store.table;
        keyed = b.store.keyed;
        found = b.store.found;
        live = b.store.live;
      };
      stands = b.stands;
      thread = b.thread;
      child = b.child;
      counts = b.counts;
    };
    typed = v.typed;
    stepping = v.stepping;
    named = v.named;
    cached = v.cached;
    leader = v.leader;
    real = v.real;
    home = v.home;
    armed = v.armed;
    wanted = v.wanted;
  }
    where
      b : IsBalanced arch base i c.core c.proc t
      b = v.balanced

  -- A change of the thread that leaves its frames.
  pub thread-IsTraced :
      (c : Context K) (t t' : Thread)
      → IsTraced arch base nr_execve tid i address c t
      → t'.callstack ≡ t.callstack
      → t'.callstack_depth ≡ t.callstack_depth
      → t'.child_idx ≡ t.child_idx
      → t'.tid ≡ t.tid
      → Stepping c.proc t'
      → IsTraced arch base nr_execve tid i address (record c { proc = set_thread c.proc i t' }) t'
  thread-IsTraced c t t' v frames depth child name steps = record {
    balanced = record {
      store = record {
        table = b.store.table;
        keyed = b.store.keyed;
        found = b.store.found;
        live = b.store.live;
      };
      stands =
          get_elem?-set_self c.proc.threads i t' (in_slot arch base c.proc.threads i t b.stands);
      thread = record { width = ap length frames ∙ b.thread.width; room = rw depth b.thread.room };
      child = child ∙ b.child;
      counts = λ a. rw (frames, depth) (b.counts a);
    };
    typed = rw (frames, depth) (v.typed);
    stepping = steps;
    named = name ∙ v.named;
    cached = v.cached;
    leader = v.leader;
    real = v.real;
    home = v.home;
    armed = v.armed;
    wanted = v.wanted;
  }
    where
      b : IsBalanced arch base i c.core c.proc t
      b = v.balanced

  -- What a handler leaves is traced, where the frames are in step and typed.
  pub after-IsTraced :
      (c c' : Context K) (t t' : Thread)
      → IsTraced arch base nr_execve tid i address c t
      → IsBalanced arch base i c'.core c'.proc t'
      → AreTyped nr_execve t'.callstack t'.callstack_depth
      → Stepping c'.proc t'
      → t'.tid ≡ t.tid
      → SameSettings c.proc c'.proc
      → IsTraced arch base nr_execve tid i address c' t'
  after-IsTraced c c' t t' v b typed steps name same = record {
    balanced = b;
    typed = typed;
    stepping = steps;
    named = name ∙ v.named;
    cached = same.hot ∙ v.cached;
    leader = same.same_pid ∙ v.leader;
    real = v.real;
    home = same.same_address ∙ v.home;
    armed = same.setting ∙ v.armed;
    wanted = λ a fn e. v.wanted a fn (ap (find_symbol a) (sym same.symbols) ∙ e);
  }

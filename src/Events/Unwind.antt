-- ===== src/Events/Unwind.antt =====
-- `process_breakpoint` of utrace-0.1/process_event.c at a return address.
use utrace.Common.{
  ℕ, zero, suc, ◌-◌, ◌%◌, ◌^◌, ◌≤◌, ◌<◌, ◌≡◌, refl, ap, ap₂, sym, ◌∙◌, false, List, [], ◌∷◌, ◌++◌,
  none, some, ◌==◌, ==_iff, ==_refl, arith, get_elem?, get_elem?-set_self, Bool-cases, Option-cases,
  inl, inr,
}
use utrace.Ptrace.{Ptrace}
use utrace.Arch.{Arch}
use utrace.Tracee.{LibrarySymbol, Timeval, libfunc, CallstackElement, Thread, Process}
use utrace.Run.{◌>>=◌, Returns, bind-Returns, weaken-Returns, along-Returns}
use utrace.Options.{Options}
use utrace.Breakpoints.{Core, dict_of}
use utrace.Breakpoints.Store.{ptr_at, count}
use utrace.Callstack.{set_thread}
use utrace.Callstack.Balance.{SameSettings, wants, element_at_lem}
use utrace.Callstack.Frames.{in_slot}
use utrace.Events.{
  Display, right, Host, Context, find_return, show_return, returned, stopped_at, process_breakpoint,
}
use utrace.Events.Traps.{
  Balanced, Stepping, trans-SameSettings, pops-Popped, measure_lem,
  continue_after_breakpoint-GoesOn,
}

-- The frame that the loop finds is the topmost one that returns to the address.
pub find_return_lem :
    (addr : ℕ) (es : List CallstackElement) (n f : ℕ)
    → find_return addr es n ≡ some f
    → (f < n) × ((e : CallstackElement) → get_elem? es f ≡ some e → e.return_addr ≡ addr)
unfolding find_return
find_return_lem addr es zero f e = absurd (cc e)
find_return_lem addr es (suc n) f e = elim (Option-cases (get_elem? es n)) [
  | inl m ↦
      let r = find_return_lem addr es n f (rw (find_return, m) at e) in (omega (arith, r.0), r.1)
  | inr (x, m) ↦ elim (Bool-cases (addr == x.return_addr)) [
    | inl same ↦
        let here : n ≡ f = cc (rw (find_return, m, same) at e) in
        (
          omega (arith, here),
          λ y g.
              let one : some x ≡ some y = sym m ∙ ap (get_elem? es) here ∙ g in
              ground (arith, (==_iff addr x.return_addr).0),
        )
    | inr other ↦
        let r = find_return_lem addr es n f (rw (find_return, m, other) at e) in
        (omega (arith, r.0), r.1)
  ]
]

wants-ge :
    (a : ℕ) (es : List CallstackElement) (n f : ℕ) (e : CallstackElement)
    → f < n
    → get_elem? es f ≡ some e
    → e.is_syscall ≡ false
    → e.return_addr ≡ a
    → 1 ≤ wants a es n
unfolding wants
wants-ge a [] n f e h at sys ret = absurd (cc at)
wants-ge a (x ∷ es) zero f e h at sys ret = absurd (omega arith)
wants-ge a (x ∷ es) (suc n) zero e h at sys ret =
    let same : x ≡ e = cc at in rw (same, sys, ret, ==_refl (a % 2 ^ 32)) (omega arith)
wants-ge a (x ∷ es) (suc n) (suc f) e h at sys ret =
    omega (arith, wants-ge a es n f e (omega arith) at sys ret)

pub counted_pointer :
    {K : Type 0} (s : Core K) (proc : Process) (a : ℕ)
    → 1 ≤ count s proc a
    → (q : ℕ) × (ptr_at proc a ≡ some q)
counted_pointer s proc a h = elim (Option-cases (ptr_at proc a)) [
  | inl m ↦ absurd (ground arith)
  | inr r ↦ r
]

pub same_pointer : (x y : Process) (a : ℕ) → x.breakpoints ≡ y.breakpoints → ptr_at x a ≡ ptr_at y a
same_pointer x y a e = rw (dict_of, e)

module _ (arch : Arch) (p : Ptrace) (o : Options) (h : Host p) (now : Timeval) (base : ℕ → ℕ)
    (i : ℕ) where
  show_return_lem :
      (c : Context p.Kernel) (t : Thread) (addr f : ℕ) (elem : CallstackElement)
      (fn : LibrarySymbol)
      → Balanced arch p o h now base i c t
      → get_elem? t.callstack f ≡ some elem
      → elem.c_un ≡ libfunc fn
      → Returns (show_return arch p o h now i addr f c) λ c'.
        Balanced arch p o h now base i c' (record t { return_addr = addr })
        × (c'.proc.breakpoints ≡ c.proc.breakpoints)
        × (c'.displayed ≡ c.displayed ++ right t.tid t.callstack_depth (libfunc fn) ∷ [])
        × SameSettings c.proc c'.proc
  unfolding show_return
  show_return_lem c t addr f elem fn b at callee =
      let t' : Thread = record t { return_addr = addr } in
      (
        record c {
          proc = set_thread c.proc i t';
          displayed = c.displayed ++ right t.tid t.callstack_depth (libfunc fn) ∷ [];
        },
        rw (
          element_at_lem c.proc.threads i t b.stands,
          ◌>>=◌,
          element_at_lem t.callstack f elem at,
          callee,
        ),
        (
          record {
            store = record {
              table = b.store.table;
              keyed = b.store.keyed;
              found = b.store.found;
              live = b.store.live;
            };
            stands =
                get_elem?-set_self c.proc.threads i t'
                  (in_slot arch base c.proc.threads i t b.stands);
            thread = record { width = b.thread.width; room = b.thread.room };
            child = b.child;
            counts = b.counts;
          },
          refl,
          refl,
          record {
            symbols = refl;
            setting = refl;
            hot = refl;
            same_pid = refl;
            same_address = refl;
          },
        ),
      )

  -- The thread and the context when a function has returned from the frame `f`.
  pub record Returned (c : Context p.Kernel) (t : Thread) (f : ℕ) (fn : LibrarySymbol)
      (c' : Context p.Kernel) : Type 0 where
    pub thread : Thread
    pub balanced : Balanced arch p o h now base i c' thread
    pub depth : thread.callstack_depth ≡ f
    pub same_tid : thread.tid ≡ t.tid
    pub same_frames : thread.callstack ≡ t.callstack
    pub shown : c'.displayed ≡ c.displayed ++ right t.tid f (libfunc fn) ∷ []
    pub same_settings : SameSettings c.proc c'.proc
    pub stepping : Stepping c'.proc thread

  returned-Returned :
      (c : Context p.Kernel) (t : Thread) (addr f : ℕ) (elem : CallstackElement)
      (fn : LibrarySymbol)
      → Balanced arch p o h now base i c t
      → f < t.callstack_depth
      → get_elem? t.callstack f ≡ some elem
      → elem.is_syscall ≡ false
      → elem.c_un ≡ libfunc fn
      → elem.return_addr ≡ addr
      → t.breakpoint_being_enabled ≡ none
      → Returns (returned arch p o h now i t addr f c) (Returned c t f fn)
  unfolding returned
  returned-Returned c t addr f elem fn b below at fun callee ret idle =
      bind-Returns _ _
        (pops-Popped arch p o h now base i (t.callstack_depth - 1 - f) (suc f) c t b (omega arith))
        λ c₁ p₁.
          bind-Returns _ _
            (measure_lem arch p o h now base i c₁ p₁.thread f p₁.balanced (depth_of p₁.only_depth))
            λ c₂ m₂.
              bind-Returns _ _
                (pops-Popped arch p o h now base i 1 f c₂ p₁.thread (rw (m₂.0, m₂.1) (p₁.balanced))
                  (depth_of p₁.only_depth ∙ omega arith))
                λ c₃ p₃.
                  bind-Returns _ _
                    (show_return_lem c₃ p₃.thread addr f elem fn p₃.balanced
                      (ap (λ (es : List CallstackElement). get_elem? es f)
                          (frames_of p₃.only_depth ∙ frames_of p₁.only_depth)
                        ∙ at)
                      callee)
                    λ c₄ r₄.
                      weaken-Returns _
                        (continue_after_breakpoint-GoesOn arch p o h now base i
                          (record (p₃.thread) { return_addr = addr }) addr pointer.0 c₄ r₄.0
                          (same_pointer c₄.proc c.proc addr (
                              r₄.1
                              ∙ p₃.same_table
                              ∙ ap (λ (x : Process). x.breakpoints) m₂.1
                              ∙ p₁.same_table)
                            ∙ pointer.1))
                        λ c₅ g. record {
                          thread = g.thread;
                          balanced = g.balanced;
                          depth = g.same_depth ∙ depth_of p₃.only_depth;
                          same_tid = g.same_tid ∙ tid_of p₃.only_depth ∙ tid_of p₁.only_depth;
                          same_frames =
                              g.same_frames ∙ frames_of p₃.only_depth ∙ frames_of p₁.only_depth;
                          shown =
                              g.same_display
                              ∙ r₄.2
                              ∙ ap₂ (λ (ds : List Display) (d : Display). ds ++ d ∷ [])
                                  (p₃.same_display ∙ m₂.2 ∙ p₁.same_display)
                                  (ap₂ (λ (tid : ℕ) (d : ℕ). right tid d (libfunc fn))
                                    (tid_of p₃.only_depth ∙ tid_of p₁.only_depth)
                                    (depth_of p₃.only_depth));
                          same_settings = trans-SameSettings p₁.same_settings (
                              trans-SameSettings (of_measure m₂.1) (
                                trans-SameSettings p₃.same_settings
                                  (trans-SameSettings r₄.3 g.same_settings)));
                          stepping = g.stepping λ q e. cc (
                              sym idle
                              ∙ sym (step_of p₁.only_depth)
                              ∙ sym (step_of p₃.only_depth)
                              ∙ e);
                        }
    where
      pointer : (q : ℕ) × (ptr_at c.proc addr ≡ some q)
      pointer = counted_pointer c.core c.proc addr (
          omega (
            arith,
            b.counts addr,
            wants-ge addr t.callstack t.callstack_depth f elem below at fun ret,
          ))

      depth_of : {x y : Thread} → x ≡ y → x.callstack_depth ≡ y.callstack_depth
      depth_of e = ap (λ (z : Thread). z.callstack_depth) e

      step_of : {x y : Thread} → x ≡ y → x.breakpoint_being_enabled ≡ y.breakpoint_being_enabled
      step_of e = ap (λ (z : Thread). z.breakpoint_being_enabled) e

      of_measure : {x y : Process} → y ≡ x → SameSettings x y
      of_measure e = record {
        symbols = ap (λ (z : Process). z.list_of_symbols) e;
        setting = ap (λ (z : Process). z.breakpoints_enabled) e;
        hot = ap (λ (z : Process). z.hot_tid_idx) e;
        same_pid = ap (λ (z : Process). z.pid) e;
        same_address = ap (λ (z : Process). z.address) e;
      }

      frames_of : {x y : Thread} → x ≡ y → x.callstack ≡ y.callstack
      frames_of e = ap (λ (z : Thread). z.callstack) e

      tid_of : {x y : Thread} → x ≡ y → x.tid ≡ y.tid
      tid_of e = ap (λ (z : Thread). z.tid) e

  pub not_stepping :
      (c : Context p.Kernel) (t : Thread) (addr : ℕ)
      → Balanced arch p o h now base i c t
      → t.breakpoint_being_enabled ≡ none
      → process_breakpoint arch p o h now i addr c
        ≡ stopped_at arch p o h now i t addr (find_return addr t.callstack t.callstack_depth) c
  unfolding process_breakpoint
  not_stepping c t addr b idle = rw (element_at_lem c.proc.threads i t b.stands, ◌>>=◌) (simp idle)

  -- Where a thread that is not stepping over a breakpoint stops at the return address of a
  -- function frame, process_breakpoint ends without a fault: the topmost such frame and all frames
  -- above it are gone, every breakpoint count is again what the base and the frames left want, and
  -- the return of that function is shown at the depth reached
  pub process_breakpoint-Returned :
      (c : Context p.Kernel) (t : Thread) (addr f : ℕ) (elem : CallstackElement)
      (fn : LibrarySymbol)
      → Balanced arch p o h now base i c t
      → t.breakpoint_being_enabled ≡ none
      → find_return addr t.callstack t.callstack_depth ≡ some f
      → get_elem? t.callstack f ≡ some elem
      → elem.is_syscall ≡ false
      → elem.c_un ≡ libfunc fn
      → Returns (process_breakpoint arch p o h now i addr c) (Returned c t f fn)
  unfolding process_breakpoint stopped_at
  process_breakpoint-Returned c t addr f elem fn b idle at_return at fun callee =
      let (below, ret) = find_return_lem addr t.callstack t.callstack_depth f at_return in
      along-Returns _ (returned arch p o h now i t addr f c)
        (not_stepping c t addr b idle ∙ rw at_return)
        (returned-Returned c t addr f elem fn b below at fun callee (ret elem at) idle)

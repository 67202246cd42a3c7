-- ===== src/Events/Traps.antt =====
-- A thread that stops at a breakpoint: calls and returns keep the frames and the counts of the
-- breakpoints in step, and neither fails.
use utrace.Common.{
  ℕ, zero, suc, ◌+◌, ◌≡◌, refl, ap, ◌∙◌, ◌||◌, some, ◌==◌, arith, get_elem?-set_self, Bool-cases,
  inl, inr,
}
use utrace.Ptrace.{Ptrace}
use utrace.Arch.{Arch}
use utrace.Trap.{Breakpoint}
use utrace.Tracee.{Timeval, Thread, Process}
use utrace.Run.{◌>>=◌, Returns}
use utrace.Options.{Options}
use utrace.Breakpoints.{address2bpstruct}
use utrace.Breakpoints.Store.{ptr_at, deref_live}
use utrace.Breakpoints.Delete.{found_at, has_table}
use utrace.Callstack.{top_frame, calc_time_spent, time_since}
use utrace.Callstack.Balance.{IsBalanced, SameSettings, in_bounds, element_at_lem}
use utrace.Callstack.Frames.{in_slot, callstack_pop-IsBalanced}
use utrace.Events.{Host, Context, with_state, go_on, continue_after_breakpoint, pops, measure}

-- A thread that steps over a breakpoint holds a pointer of the table.
abbrev pub Stepping : Process → Thread → Type 0
Stepping proc t = (q : ℕ) → t.breakpoint_being_enabled ≡ some q → (a : ℕ) × (ptr_at proc a ≡ some q)

pub trans-SameSettings : {x y z : Process} → SameSettings x y → SameSettings y z → SameSettings x z
trans-SameSettings e f = record {
  symbols = f.symbols ∙ e.symbols;
  setting = f.setting ∙ e.setting;
  hot = f.hot ∙ e.hot;
  same_pid = f.same_pid ∙ e.same_pid;
  same_address = f.same_address ∙ e.same_address;
}

module _ (arch : Arch) (p : Ptrace) (o : Options) (h : Host p) (now : Timeval) (base : ℕ → ℕ)
    (i : ℕ) where
  -- The thread of a context, with its frames and counts in step.
  abbrev pub Balanced : Context p.Kernel → Thread → Type 0
  Balanced c t = IsBalanced arch base i c.core c.proc t

  -- A context that is reached from `c` with the thread at depth `f`.
  pub record Popped (c : Context p.Kernel) (t : Thread) (f : ℕ) (c' : Context p.Kernel)
      : Type 0 where
    pub thread : Thread
    pub balanced : Balanced c' thread
    pub only_depth : thread ≡ record t { callstack_depth = f }
    pub same_table : c'.proc.breakpoints ≡ c.proc.breakpoints
    pub same_display : c'.displayed ≡ c.displayed
    pub same_settings : SameSettings c.proc c'.proc

  -- Popping down to depth `f` never fails.
  pub pops-Popped :
      (k f : ℕ) (c : Context p.Kernel) (t : Thread)
      → Balanced c t
      → t.callstack_depth ≡ k + f
      → Returns (pops arch p o h now i k c) (Popped c t f)
  unfolding pops
  pops-Popped zero f c t b e = (
    c,
    refl,
    record {
      thread = t;
      balanced = b;
      only_depth = ap (λ (d : ℕ). record t { callstack_depth = d }) (e ∙ omega arith);
      same_table = refl;
      same_display = refl;
      same_settings = record {
        symbols = refl;
        setting = refl;
        hot = refl;
        same_pid = refl;
        same_address = refl;
      };
    },
  )
  pops-Popped (suc k) f c t b e =
      let (r, run, (b', only)) =
        callstack_pop-IsBalanced arch base p i c.core c.proc t b (k + f) (omega arith) in
      let t' : Thread = record t { callstack_depth = k + f } in
      let (c', run', q) = pops-Popped k f (with_state c r) t' b' refl in
      (
        c',
        rw (run, ◌>>=◌, run'),
        record {
          thread = q.thread;
          balanced = q.balanced;
          only_depth = q.only_depth;
          same_table = q.same_table ∙ ap (λ (x : Process). x.breakpoints) only;
          same_display = q.same_display;
          same_settings =
              trans-SameSettings
                (record {
                  symbols = ap (λ (x : Process). x.list_of_symbols) only;
                  setting = ap (λ (x : Process). x.breakpoints_enabled) only;
                  hot = ap (λ (x : Process). x.hot_tid_idx) only;
                  same_pid = ap (λ (x : Process). x.pid) only;
                  same_address = ap (λ (x : Process). x.address) only;
                })
                q.same_settings;
        },
      )

  -- Measuring the time changes nothing else, where a frame is there.
  pub measure_lem :
      (c : Context p.Kernel) (t : Thread) (n : ℕ)
      → Balanced c t
      → t.callstack_depth ≡ suc n
      → Returns
          (measure arch p o h now i c)
          λ c'. (c'.core ≡ c.core) × (c'.proc ≡ c.proc) × (c'.displayed ≡ c.displayed)
  unfolding measure calc_time_spent
  measure_lem c t n b e = elim (Bool-cases (o.opt_T || o.opt_c)) [
    | inr off ↦ (c, rw off, (refl, refl, refl))
    | inl on ↦
        let (elem, at) = in_bounds t.callstack n (omega (arith, b.thread.width, b.thread.room)) in
        (
          record c { current_time_spent = time_since now elem.time_spent },
          rw (
            on,
            element_at_lem c.proc.threads i t b.stands,
            ◌>>=◌,
            calc_time_spent,
            top_frame,
            e,
            element_at_lem t.callstack n elem at,
          ),
          (refl, refl, refl),
        )
  ]

  -- Going on from a breakpoint changes no frame and no count.
  pub record GoesOn (c : Context p.Kernel) (t : Thread) (c' : Context p.Kernel) : Type 0 where
    pub thread : Thread
    pub balanced : Balanced c' thread
    pub same_frames : thread.callstack ≡ t.callstack
    pub same_depth : thread.callstack_depth ≡ t.callstack_depth
    pub same_tid : thread.tid ≡ t.tid
    pub same_display : c'.displayed ≡ c.displayed
    pub same_settings : SameSettings c.proc c'.proc
    pub stepping : Stepping c.proc t → Stepping c'.proc thread

  go_on-GoesOn :
      (t : Thread) (a sbp : ℕ) (b : Breakpoint) (c : Context p.Kernel)
      → Balanced c t
      → ptr_at c.proc a ≡ some sbp
      → GoesOn c t (go_on arch p o h now i t sbp b c)
  unfolding go_on
  go_on-GoesOn t a sbp b c v e = elim (Bool-cases (b.enabled == 0)) [
    | inl free ↦
        rw (go_on, free)
          (record {
            thread = t;
            balanced = record {
              store = record {
                table = v.store.table;
                keyed = v.store.keyed;
                found = v.store.found;
                live = v.store.live;
              };
              stands = v.stands;
              thread = v.thread;
              child = v.child;
              counts = v.counts;
            };
            same_frames = refl;
            same_depth = refl;
            same_tid = refl;
            same_display = refl;
            same_settings = record {
              symbols = refl;
              setting = refl;
              hot = refl;
              same_pid = refl;
              same_address = refl;
            };
            stepping = λ s. s;
          })
    | inr held ↦
        rw (go_on, held)
          (record {
            thread = record t { breakpoint_being_enabled = some sbp };
            balanced = record {
              store = record {
                table = v.store.table;
                keyed = v.store.keyed;
                found = v.store.found;
                live = v.store.live;
              };
              stands =
                  get_elem?-set_self c.proc.threads i _
                    (in_slot arch base c.proc.threads i t v.stands);
              thread = record { width = v.thread.width; room = v.thread.room };
              child = v.child;
              counts = v.counts;
            };
            same_frames = refl;
            same_depth = refl;
            same_tid = refl;
            same_display = refl;
            same_settings = record {
              symbols = refl;
              setting = refl;
              hot = refl;
              same_pid = refl;
              same_address = refl;
            };
            stepping = λ s q held_pointer. (a, e ∙ held_pointer);
          })
  ]

  pub continue_after_breakpoint-GoesOn :
      (t : Thread) (a q : ℕ) (c : Context p.Kernel)
      → Balanced c t
      → ptr_at c.proc a ≡ some q
      → Returns
          (address2bpstruct c.proc a >>= λ sbp. continue_after_breakpoint arch p o h now i sbp c)
          (GoesOn c t)
  unfolding continue_after_breakpoint
  continue_after_breakpoint-GoesOn t a q c v e =
      let l = v.store.live a q e in
      let (d, has) = has_table arch p c.proc a q e in
      (
        go_on arch p o h now i t q l.struct c,
        rw (
          found_at arch p c.proc d a has,
          ◌>>=◌,
          e,
          continue_after_breakpoint,
          element_at_lem c.proc.threads i t v.stands,
          deref_live c.core q l.struct l.alive,
        ),
        go_on-GoesOn t a q l.struct c v e,
      )

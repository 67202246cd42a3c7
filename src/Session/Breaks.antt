-- ===== src/Session/Breaks.antt =====
-- `process_breakpoint` of utrace-0.1/process_event.c on every branch, for a traced process.
use utrace.Common.{
  ℕ, ◌-◌, ◌≤◌, ◌≡◌, ◌≢◌, inl, inr, refl, ap, sym, ◌∙◌, arith, false, Bool-cases, Option-cases, some,
  none, ◌==◌, ==_iff,
}
use utrace.Ptrace.{Ptrace}
use utrace.Arch.{Arch, FitsWord}
use utrace.Tracee.{LibrarySymbol, Timeval, libfunc, Thread, max_calldepth}
use utrace.Run.{◌>>=◌, Returns, weaken-Returns, along-Returns}
use utrace.Options.{Options}
use utrace.Breakpoints.{address2bpstruct}
use utrace.Breakpoints.Store.{ptr_at}
use utrace.Callstack.{set_thread}
use utrace.Callstack.Balance.{in_bounds, element_at_lem}
use utrace.Callstack.Frames.{callstack_push_symfunc_full}
use utrace.Events.{
  left, breakpoint_line, Host, Context, with_state, show, find_return, find_symbol, entered,
  not_returned, reinsert, stopped_at, continue_process, process_breakpoint,
  continue_after_breakpoint,
}
use utrace.Events.Traps.{continue_after_breakpoint-GoesOn}
use utrace.Events.Unwind.{
  find_return_lem, counted_pointer, not_stepping, process_breakpoint-Returned,
}
use utrace.Events.Calls.{Called, process_breakpoint-Called}
use utrace.Session.Typed.{
  of_syscall, of_function, push-AreTyped, IsTraced, Traced, world-IsTraced, thread-IsTraced,
  after-IsTraced,
}
use utrace.Session.Reinsert.{reinsert-IsTraced}

module _ (arch : Arch) (p : Ptrace) (o : Options) (h : Host p) (now : Timeval) (base : ℕ → ℕ)
    (tid i address : ℕ) where
  abbrev IsOurs : Context p.Kernel → Thread → Type 0
  IsOurs c t = IsTraced arch base h.nr_execve tid i address c t

  abbrev Ours : Context p.Kernel → Type 0
  Ours c = Traced arch base h.nr_execve tid i address c

  unknown-Traced :
      (c : Context p.Kernel) (t : Thread) (addr : ℕ)
      → IsOurs c t
      → Returns (not_returned arch p o h now i t addr none c) Ours
  unfolding not_returned continue_process
  unknown-Traced c t addr v = (
    continue_process arch p o h now t.tid (show c (breakpoint_line t.tid addr)),
    refl,
    (t, world-IsTraced arch base h.nr_execve tid i address c t _ _ _ v),
  )

  -- At the entry of a function: a frame more, or none where the stack is full.
  pub entry_keeps :
      (c : Context p.Kernel) (t : Thread) (addr : ℕ) (fn : LibrarySymbol)
      → FitsWord arch
      → IsOurs c t
      → t.breakpoint_being_enabled ≡ none
      → t.callstack_depth ≢ max_calldepth - 1
      → find_return addr t.callstack t.callstack_depth ≡ none
      → find_symbol addr c.proc.list_of_symbols ≡ some fn
      → Returns
          (process_breakpoint arch p o h now i addr c)
          λ c'. (q : Called arch p o h now base i c t fn c') × IsOurs c' q.thread
  entry_keeps c t addr fn fits v idle room no_return at =
      weaken-Returns _
        (process_breakpoint-Called arch p o h now base i c t addr fn fits v.balanced idle room
          no_return at (v.wanted addr fn at))
        λ c' q. (
          q,
          after-IsTraced arch base h.nr_execve tid i address c c' t q.thread v q.balanced
              (rw q.depth (
                push-AreTyped h.nr_execve t.callstack q.thread.callstack t.callstack_depth q.frame
                  v.typed q.top (of_function fn q.function q.callee) q.below))
              q.stepping q.same_tid q.same_settings,
        )

  -- At a return address that is not 0, which no frame of a system call has.
  back-Traced :
      (c : Context p.Kernel) (t : Thread) (addr f : ℕ)
      → IsOurs c t
      → addr ≢ 0
      → t.breakpoint_being_enabled ≡ none
      → find_return addr t.callstack t.callstack_depth ≡ some f
      → Returns (process_breakpoint arch p o h now i addr c) Ours
  back-Traced c t addr f v nz idle back =
      let (below, ret) = find_return_lem addr t.callstack t.callstack_depth f back in
      let (elem, at) =
        in_bounds t.callstack f (omega (arith, v.balanced.thread.width, v.balanced.thread.room)) in
      elim (v.typed f below elem at) [
        | of_syscall n call number zero_addr other ↦ absurd (nz (sym (ret elem at) ∙ zero_addr))
        | of_function fn function callee ↦
            weaken-Returns _
              (process_breakpoint-Returned arch p o h now base i c t addr f elem fn v.balanced idle
                back at function callee)
              λ c' q. (
                q.thread,
                after-IsTraced arch base h.nr_execve tid i address c c' t q.thread v q.balanced
                    (rw (q.same_frames, q.depth) λ j k e g. v.typed j (omega arith) e g) q.stepping
                    q.same_tid q.same_settings,
              )
      ]

  full-Traced :
      (c : Context p.Kernel) (t : Thread) (fn : LibrarySymbol)
      → IsOurs c t
      → t.callstack_depth ≡ max_calldepth - 1
      → 1 ≤ base fn.enter_addr
      → Returns (entered arch p o h now i t fn c) Ours
  unfolding entered
  full-Traced c t fn v full wanted =
      along-Returns _ _
        (ap
          (λ r. r >>= λ x. address2bpstruct x.1 fn.enter_addr >>= λ q.
            continue_after_breakpoint arch p o h now i q (with_state c₁ x))
          (callstack_push_symfunc_full arch base p i c₁.core c₁.proc t₁ v₁.balanced o now fn full))
        (weaken-Returns _
          (continue_after_breakpoint-GoesOn arch p o h now base i t₁ fn.enter_addr pointer.0 c₁
            v₁.balanced pointer.1)
          λ c₂ g. (
            g.thread,
            after-IsTraced arch base h.nr_execve tid i address c₁ c₂ t₁ g.thread v₁ g.balanced
                (rw (g.same_frames, g.same_depth) (v₁.typed)) (g.stepping v₁.stepping) g.same_tid
                g.same_settings,
          ))
    where
      t₁ : Thread
      t₁ =
          let sp = p.stack_pointer c.core.kernel t.tid in
          record t { stack_pointer = sp; return_addr = p.return_addr c.core.kernel t.tid sp }

      c₁ : Context p.Kernel
      c₁ =
          show (record c { proc = set_thread c.proc i t₁ })
            (left t.tid t.callstack_depth (libfunc fn))

      v₁ : IsOurs c₁ t₁
      v₁ =
          world-IsTraced arch base h.nr_execve tid i address
            (record c { proc = set_thread c.proc i t₁ }) t₁ _ _ _
            (thread-IsTraced arch base h.nr_execve tid i address c t t₁ v refl refl refl refl
              (v.stepping))

      pointer : (q : ℕ) × (ptr_at c₁.proc fn.enter_addr ≡ some q)
      pointer =
          counted_pointer c₁.core c₁.proc fn.enter_addr
            (omega (arith, v₁.balanced.counts fn.enter_addr, wanted))

  -- Wherever the thread of a traced process stops at an address other than 0, process_breakpoint
  -- ends without a fault
  pub process_breakpoint-Traced :
      (c : Context p.Kernel) (t : Thread) (addr : ℕ)
      → FitsWord arch
      → IsOurs c t
      → addr ≢ 0
      → Returns (process_breakpoint arch p o h now i addr c) Ours
  unfolding process_breakpoint stopped_at not_returned
  process_breakpoint-Traced c t addr fits v nz = elim (Option-cases t.breakpoint_being_enabled) [
    | inr (sbp, e) ↦
        along-Returns _ (reinsert arch p o h now i t sbp c)
          (rw (process_breakpoint, element_at_lem c.proc.threads i t v.balanced.stands, ◌>>=◌, e)
            refl)
          (weaken-Returns _ (reinsert-IsTraced arch p o h now base tid i address c t sbp fits v e)
            λ c' w. (_, w.0))
    | inl idle ↦ elim (Option-cases (find_return addr t.callstack t.callstack_depth)) [
      | inr (f, back) ↦ back-Traced c t addr f v nz idle back
      | inl no_return ↦ elim (Option-cases (find_symbol addr c.proc.list_of_symbols)) [
        | inl unknown ↦
            along-Returns _ _
              (not_stepping arch p o h now base i c t addr v.balanced idle
                ∙ rw (no_return, stopped_at, unknown) refl)
              (unknown-Traced c t addr v)
        | inr (fn, at) ↦ elim (Bool-cases (t.callstack_depth == max_calldepth - 1)) [
          | inl full ↦
              along-Returns _ _
                (not_stepping arch p o h now base i c t addr v.balanced idle
                  ∙ rw (no_return, stopped_at, at, not_returned) refl)
                (full-Traced c t fn v ((==_iff _ _).0 full) (v.wanted addr fn at))
          | inr room ↦
              weaken-Returns _ (entry_keeps c t addr fn fits v idle (room_left room) no_return at)
                λ c' w. (w.0.thread, w.1)
        ]
      ]
    ]
  ]
    where
      room_left :
          (t.callstack_depth == max_calldepth - 1) ≡ false → t.callstack_depth ≢ max_calldepth - 1
      room_left e same = absurd (cc (sym e ∙ (==_iff _ _).1 same))

-- ===== src/Session/Calls.antt =====
-- `process_syscall` of utrace-0.1/process_event.c, for a traced process.
use utrace.Common.{
  ℕ, suc, ◌+◌, ◌-◌, ◌<◌, ◌≡◌, ◌≢◌, inl, inr, refl, ap, sym, ◌∙◌, arith, true, false, Bool-cases,
  some, set, ◌==◌, ==_iff, ==_ne, get_elem?, length, if◌then◌else◌, length-set, get_elem?-set_self,
  get_elem?-set_ne,
}
use utrace.Ptrace.{Ptrace}
use utrace.Arch.{Arch}
use utrace.Tracee.{Timeval, syscall, CallstackElement, Thread, max_calldepth, enabled}
use utrace.Run.{ok, ◌>>=◌, Returns, bind-Returns, along-Returns}
use utrace.Options.{Options}
use utrace.Callstack.{set_thread, stamp, callstack_push_syscall}
use utrace.Callstack.Balance.{want, wants, wants-set, in_bounds, element_at_lem}
use utrace.Callstack.Frames.{in_slot}
use utrace.Events.{Display, left, Host, Context, show, clone_p, exec_p, continue_process}
use utrace.Events.Handlers.{wake_breakpoints, push_call, process_syscall}
use utrace.Session.Typed.{
  of_syscall, push-AreTyped, IsTraced, Traced, world-IsTraced, thread-IsTraced, after-IsTraced,
}

-- The frame of a system call wants no breakpoint.
abbrev pushed_frame : Options → Timeval → CallstackElement → ℕ → CallstackElement
pushed_frame o now elem n =
    stamp o now (record elem { is_syscall = true; c_un = syscall n; return_addr = 0 })

module _ (arch : Arch) (p : Ptrace) (o : Options) (h : Host p) (now : Timeval) (base : ℕ → ℕ)
    (tid i address : ℕ) where
  abbrev pub IsOurs : Context p.Kernel → Thread → Type 0
  IsOurs c t = IsTraced arch base h.nr_execve tid i address c t

  abbrev pub Ours : Context p.Kernel → Type 0
  Ours c = Traced arch base h.nr_execve tid i address c

  push_call_room :
      (c : Context p.Kernel) (t : Thread) (n : ℕ)
      → IsOurs c t
      → (n == h.nr_execve) ≡ false
      → t.callstack_depth ≢ max_calldepth - 1
      → Returns (push_call arch p o h now i n c) Ours
  unfolding push_call callstack_push_syscall exec_p
  push_call_room c t n v other room = (
    record c { proc = set_thread c.proc i t' },
    rw (
      push_call,
      exec_p,
      other,
      element_at_lem c.proc.threads i t v.balanced.stands,
      ◌>>=◌,
      callstack_push_syscall,
      ==_ne t.callstack_depth 99 room,
      element_at_lem t.callstack t.callstack_depth elem at,
    ),
    (
      t',
      after-IsTraced arch base h.nr_execve tid i address c _ t t' v
          (record {
            store = record {
              table = v.balanced.store.table;
              keyed = v.balanced.store.keyed;
              found = v.balanced.store.found;
              live = v.balanced.store.live;
            };
            stands =
                get_elem?-set_self c.proc.threads i t'
                  (in_slot arch base c.proc.threads i t v.balanced.stands);
            thread = record {
              width = length-set t.callstack t.callstack_depth top ∙ v.balanced.thread.width;
              room = omega (arith, v.balanced.thread.room);
            };
            child = v.balanced.child;
            counts = λ a. omega (
              arith,
              v.balanced.counts a,
              wants-set a t.callstack t.callstack_depth top room_for,
              no_want a,
              ap (wants a t'.callstack) plus_one,
            );
          })
          (push-AreTyped h.nr_execve t.callstack t'.callstack t.callstack_depth top v.typed
            (get_elem?-set_self t.callstack t.callstack_depth top room_for)
            (of_syscall n (ground arith) (ground arith) (ground arith) other)
            λ j k. get_elem?-set_ne t.callstack t.callstack_depth j top k)
          v.stepping refl
          (record {
            symbols = refl;
            setting = refl;
            hot = refl;
            same_pid = refl;
            same_address = refl;
          }),
    ),
  )
    where
      room_for : t.callstack_depth < length t.callstack
      room_for = omega (arith, v.balanced.thread.width, v.balanced.thread.room)

      elem : CallstackElement
      elem = (in_bounds t.callstack t.callstack_depth room_for).0

      at : get_elem? t.callstack t.callstack_depth ≡ some elem
      at = (in_bounds t.callstack t.callstack_depth room_for).1

      top : CallstackElement
      top = pushed_frame o now elem n

      t' : Thread
      t' = record t {
        callstack = set t.callstack t.callstack_depth top;
        callstack_depth = t.callstack_depth + 1;
      }

      plus_one : t.callstack_depth + 1 ≡ suc t.callstack_depth
      plus_one = omega arith

      no_want : (a : ℕ) → want a top ≡ 0
      no_want a = ground arith

  push_call-Traced :
      (c : Context p.Kernel) (t : Thread) (n : ℕ)
      → IsOurs c t
      → Returns (push_call arch p o h now i n c) Ours
  unfolding push_call callstack_push_syscall exec_p
  push_call-Traced c t n v = elim (Bool-cases (n == h.nr_execve)) [
    | inl exec ↦ (c, rw (push_call, exec_p, exec) refl, (t, v))
    | inr other ↦ elim (Bool-cases (t.callstack_depth == max_calldepth - 1)) [
      | inl full ↦ (
        record c { proc = set_thread c.proc i t },
        rw (
          push_call,
          exec_p,
          other,
          element_at_lem c.proc.threads i t v.balanced.stands,
          ◌>>=◌,
          callstack_push_syscall,
          full,
        ),
        (
          t,
          thread-IsTraced arch base h.nr_execve tid i address c t t v refl refl refl refl
              v.stepping,
        ),
      )
      | inr room ↦ push_call_room c t n v other λ e. absurd (cc (sym room ∙ (==_iff _ _).1 e))
    ]
  ]

  shown-IsTraced :
      (c : Context p.Kernel) (t : Thread) (d : Display)
      → IsOurs c t
      → IsOurs (if o.opt_S then show c d else c) t
  shown-IsTraced c t d v = elim (Bool-cases o.opt_S) [
    | inl on ↦ rw on (world-IsTraced arch base h.nr_execve tid i address c t _ _ _ v)
    | inr off ↦ rw off v
  ]

  wake_breakpoints_lem :
      (c : Context p.Kernel) (n : ℕ)
      → c.proc.breakpoints_enabled ≡ enabled
      → wake_breakpoints arch p o h now n c ≡ ok c
  unfolding wake_breakpoints
  wake_breakpoints_lem c n e = elim (Bool-cases (clone_p h n)) [
    | inl clone ↦ rw (wake_breakpoints, clone) refl
    | inr other ↦ simp (wake_breakpoints, other, e)
  ]

  pub continue_process-Traced :
      (c : Context p.Kernel) (k : ℕ) → Ours c → Ours (continue_process arch p o h now k c)
  unfolding continue_process
  continue_process-Traced c k (t, v) =
      (t, world-IsTraced arch base h.nr_execve tid i address c t _ _ _ v)

  -- At the entry of a system call the handler ends without a fault, and the process stays traced.
  pub process_syscall-Traced :
      (c : Context p.Kernel) (t : Thread) (n : ℕ)
      → IsOurs c t
      → Returns (process_syscall arch p o h now i n c) Ours
  unfolding process_syscall
  process_syscall-Traced c t n v =
      along-Returns _
        (push_call arch p o h now i n c₁ >>= λ c₃. ok (continue_process arch p o h now t.tid c₃))
        (rw
          (
            process_syscall,
            element_at_lem c.proc.threads i t v.balanced.stands,
            ◌>>=◌,
            wake_breakpoints_lem c₁ n v₁.armed,
          )
          refl)
        (bind-Returns _ _ (push_call-Traced c₁ t n v₁)
          λ c₃ w. (_, refl, continue_process-Traced c₃ t.tid w))
    where
      c₁ : Context p.Kernel
      c₁ = if o.opt_S then show c (left t.tid t.callstack_depth (syscall n)) else c

      v₁ : IsOurs c₁ t
      v₁ = shown-IsTraced c t _ v

-- ===== src/Callstack/Frames.antt =====
-- Frames and breakpoints: each function frame of a thread holds one count of the breakpoint at its
-- return address.
use utrace.Common.{
  ℕ, zero, suc, ◌+◌, ◌-◌, ◌%◌, ◌^◌, ◌≤◌, ◌<◌, ◌≡◌, ◌≢◌, refl, ap, sym, ◌∙◌, true, false, ◌||◌, List,
  [], ◌∷◌, some, ==_refl, ==_ne, arith, length, get_elem?, length-set, get_elem?-set_self,
  get_elem?-set_ne, Bool-cases, inl, inr,
}
use utrace.Ptrace.{Ptrace}
use utrace.Arch.{Arch, FitsWord}
use utrace.Tracee.{
  LibrarySymbol, Timeval, libfunc, CallstackElement, max_calldepth, Thread, Process,
}
use utrace.Threads.{get_proc}
use utrace.Run.{ok, ◌>>=◌, Returns}
use utrace.Options.{Options}
use utrace.Breakpoints.{Core, delete_breakpoint}
use utrace.Breakpoints.Store.{count, hit, IsStore}
use utrace.Breakpoints.Insert.{insert_breakpoint-Inserts}
use utrace.Breakpoints.Delete.{Deletes, delete_breakpoint-Deletes}
use utrace.Callstack.{
  set_thread, parent, stamp, put_frame, push_frame_of, callstack_push_symfunc, release_frame,
  pop_frame, callstack_pop,
}
use utrace.Callstack.Balance.{
  want, wants, wants-set, wants-suc, in_bounds, element_at_lem, IsBalanced, SameSettings,
}

module _ (arch : Arch) (base : ℕ → ℕ) where
  parent_lem :
      {K : Type 0} (i : ℕ) (s : Core K) (proc : Process) (t : Thread)
      → IsBalanced arch base i s proc t
      → parent proc i ≡ ok proc
  unfolding get_proc
  parent_lem i s proc t b = rw (parent, get_proc, b.stands, b.child, ==_refl i)

  pub in_slot : (ts : List Thread) (i : ℕ) (t : Thread) → get_elem? ts i ≡ some t → i < length ts
  in_slot [] i t e = cc
  in_slot (x ∷ ts) zero t e = omega arith
  in_slot (x ∷ ts) (suc i) t e = omega (arith, in_slot ts i t e)

  module _ (p : Ptrace) (i : ℕ) (s : Core p.Kernel) (proc : Process) (t : Thread)
      (b : IsBalanced arch base i s proc t) where
    Releases : CallstackElement → Core p.Kernel → Type 0
    Releases elem s' =
        IsStore arch s' proc × ((a : ℕ) → count s' proc a + want a elem ≡ count s proc a)

    release_function :
        (elem : CallstackElement)
        → elem.is_syscall ≡ false
        → Returns
            (delete_breakpoint arch p s proc elem.return_addr)
            (Deletes arch p s proc elem.return_addr)
        → Returns (release_frame arch p s proc i elem) (Releases elem)
    unfolding release_frame Releases
    release_function elem fun (s', run, d) = (
      s',
      rw (release_frame, fun, parent_lem i s proc t b, ◌>>=◌, run),
      (d.store, λ a. rw fun (d.counted a)),
    )

    release_frame_lem :
        (elem : CallstackElement)
        → want elem.return_addr elem ≤ count s proc elem.return_addr
        → Returns (release_frame arch p s proc i elem) (Releases elem)
    unfolding release_frame Releases
    release_frame_lem elem h = elim (Bool-cases elem.is_syscall) [
      | inl sys ↦ (s, rw (release_frame, sys), (b.store, λ a. rw sys (omega arith)))
      | inr fun ↦ release_function elem fun (
          delete_breakpoint-Deletes arch p s proc elem.return_addr
            (count s proc elem.return_addr - 1) b.store (wanted_once fun h))
    ]
      where
        wanted_once :
            elem.is_syscall ≡ false
            → want elem.return_addr elem ≤ count s proc elem.return_addr
            → count s proc elem.return_addr ≡ suc (count s proc elem.return_addr - 1)
        wanted_once fun k = omega (arith, rw (fun, ==_refl (elem.return_addr % 2 ^ 32)) at k)

    -- Where the counts of the breakpoints match the frames and the stack is not empty,
    -- callstack_pop ends without a fault, takes the top frame off, and the counts match the frames
    -- again
    pub callstack_pop-IsBalanced :
        (n : ℕ)
        → t.callstack_depth ≡ suc n
        → Returns (callstack_pop arch p s proc i) λ r.
          IsBalanced arch base i r.0 r.1 (record t { callstack_depth = n })
          × (r.1 ≡ set_thread proc i (record t { callstack_depth = n }))
    unfolding callstack_pop pop_frame Releases
    callstack_pop-IsBalanced n e =
        let below : n < length t.callstack = omega (arith, b.thread.width, b.thread.room) in
        let (elem, at) = in_bounds t.callstack n below in
        let t' : Thread = record t { callstack_depth = n } in
        let split = λ (a : ℕ). wants-suc a t.callstack n elem at in
        let (s', run, (store, given)) = release_frame_lem elem (
          omega (
            arith,
            b.counts elem.return_addr,
            ap (wants elem.return_addr t.callstack) e,
            split elem.return_addr,
          )) in
        (
          (s', set_thread proc i t'),
          rw (
            callstack_pop,
            element_at_lem proc.threads i t b.stands,
            ◌>>=◌,
            e,
            pop_frame,
            element_at_lem t.callstack n elem at,
            run,
          ),
          (
            record {
              store = record {
                table = store.table;
                keyed = store.keyed;
                found = store.found;
                live = store.live;
              };
              stands = get_elem?-set_self proc.threads i t' (in_slot proc.threads i t b.stands);
              thread = record { width = b.thread.width; room = omega (arith, b.thread.room) };
              child = b.child;
              counts = λ a. omega (arith, given a, b.counts a, ap (wants a t.callstack) e, split a);
            },
            refl,
          ),
        )

    room_for : t.callstack_depth < length t.callstack
    room_for = omega (arith, b.thread.width, b.thread.room)

    -- A push of a function frame never fails: on a full stack nothing happens, and otherwise the
    -- frame goes on top and holds a count of the breakpoint at its return address.
    pub callstack_push_symfunc_full :
        (o : Options) (now : Timeval) (sym : LibrarySymbol)
        → t.callstack_depth ≡ max_calldepth - 1
        → callstack_push_symfunc arch p o now s proc i sym ≡ ok (s, proc)
    unfolding callstack_push_symfunc
    callstack_push_symfunc_full o now sym e =
        rw (callstack_push_symfunc, element_at_lem proc.threads i t b.stands, ◌>>=◌, e)

    -- The thread after a push.
    pub record Pushed (o : Options) (now : Timeval) (sym : LibrarySymbol) (t' : Thread)
        : Type 0 where
      pub elem : CallstackElement
      pub top : get_elem? t'.callstack t.callstack_depth ≡ some elem
      pub depth : t'.callstack_depth ≡ t.callstack_depth + 1
      pub callee : elem.c_un ≡ libfunc sym
      pub returns_to : elem.return_addr ≡ t.return_addr
      pub function : elem.is_syscall ≡ false
      pub below :
          (j : ℕ) → t.callstack_depth ≢ j → get_elem? t'.callstack j ≡ get_elem? t.callstack j
      pub stepping : t'.breakpoint_being_enabled ≡ t.breakpoint_being_enabled
      pub same_tid : t'.tid ≡ t.tid
      pub timed : o.opt_T || o.opt_c ≡ true → elem.time_spent ≡ now

    -- Where the counts of the breakpoints match the frames and the stack has room,
    -- callstack_push_symfunc ends without a fault with a frame for the symbol on top that holds
    -- the return address of the thread, and the time if times are kept, and the counts match the
    -- frames again; the frames below, the symbols and the setting of the process are as before
    pub callstack_push_symfunc-IsBalanced :
        (o : Options) (now : Timeval) (sym : LibrarySymbol)
        → FitsWord arch
        → t.callstack_depth ≢ max_calldepth - 1
        → Returns (callstack_push_symfunc arch p o now s proc i sym) λ r.
          (t' : Thread) × IsBalanced arch base i r.0 r.1 t'
          × Pushed o now sym t'
          × SameSettings proc r.1
    unfolding callstack_push_symfunc push_frame_of
    callstack_push_symfunc-IsBalanced o now sym f n =
        let (elem, at) = in_bounds t.callstack t.callstack_depth room_for in
        let elem' : CallstackElement = record elem {
          is_syscall = false;
          c_un = libfunc sym;
          return_addr = t.return_addr;
        } in
        let top = stamp o now elem' in
        let t' : Thread = record (put_frame t top) { callstack_depth = t.callstack_depth + 1 } in
        let ((s', proc'), run, ins) =
          insert_breakpoint-Inserts arch p s proc t.return_addr f b.store in
        let threads : proc'.threads ≡ proc.threads =
          ap (λ (q : Process). q.threads) ins.only_table in
        let wanted = λ (a : ℕ). wants-set a t.callstack t.callstack_depth top room_for in
        let plus_one : t.callstack_depth + 1 ≡ suc t.callstack_depth = omega arith in
        let same_want : (a : ℕ) → want a top ≡ hit a t.return_addr = λ a. ground arith in
        (
          (s', set_thread proc' i t'),
          rw (
            callstack_push_symfunc,
            element_at_lem proc.threads i t b.stands,
            ◌>>=◌,
            ==_ne t.callstack_depth 99 n,
            element_at_lem t.callstack t.callstack_depth elem at,
            push_frame_of,
            parent_lem i s proc t b,
            run,
          ),
          (
            t',
            record {
              store = record {
                table = ins.store.table;
                keyed = ins.store.keyed;
                found = ins.store.found;
                live = ins.store.live;
              };
              stands =
                  get_elem?-set_self proc'.threads i t'
                    (rw threads (in_slot proc.threads i t b.stands));
              thread = record {
                width = length-set t.callstack t.callstack_depth top ∙ b.thread.width;
                room = omega (arith, b.thread.room);
              };
              child = b.child;
              counts = λ a. omega (
                arith,
                ins.counted a,
                b.counts a,
                wanted a,
                same_want a,
                ap (wants a t'.callstack) plus_one,
              );
            },
            record {
              elem = top;
              top = get_elem?-set_self t.callstack t.callstack_depth top room_for;
              depth = refl;
              callee = ground arith;
              returns_to = ground arith;
              function = ground arith;
              below = λ j n. get_elem?-set_ne t.callstack t.callstack_depth j top n;
              stepping = refl;
              same_tid = refl;
              timed = λ e. rw e;
            },
            record {
              symbols = ap (λ (q : Process). q.list_of_symbols) ins.only_table;
              setting = ap (λ (q : Process). q.breakpoints_enabled) ins.only_table;
              hot = ap (λ (q : Process). q.hot_tid_idx) ins.only_table;
              same_pid = ap (λ (q : Process). q.pid) ins.only_table;
              same_address = ap (λ (q : Process). q.address) ins.only_table;
            },
          ),
        )

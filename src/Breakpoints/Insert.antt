-- ===== src/Breakpoints/Insert.antt =====
-- `insert_breakpoint` of utrace-0.1/breakpoints.c raises one count and leaves a store.
use utrace.Common.{
  ℕ, ◌+◌, ◌%◌, ◌^◌, ◌≡◌, refl, ap, ◌∙◌, not, ◌&&◌, some, ◌==◌, arith, length, inl, inr, Bool-cases,
}
use utrace.Ptrace.{Ptrace}
use utrace.Arch.{Arch, FitsWord}
use utrace.Trap.{Breakpoint, enable_breakpoint}
use utrace.Trap.Restore.{enable_breakpoint_keeps}
use utrace.Tracee.{Process}
use utrace.Run.{◌>>=◌, Returns}
use utrace.Breakpoints.{Core, overwrite, write, find_or_add, switch_on, count_up, insert_breakpoint}
use utrace.Breakpoints.Store.{
  deref_live, count, count_congr, hit, IsStore, rewrite-IsStore, rewrite-count,
}
use utrace.Breakpoints.Adding.{find_or_add-Added}

module _ (arch : Arch) where
  module _ (p : Ptrace) where
    -- What `count_up` writes.
    record CountsUp (s : Core p.Kernel) (pid q : ℕ) (b : Breakpoint) (s' : Core p.Kernel)
        : Type 0 where
      struct : Breakpoint
      written : s'.heap ≡ overwrite s.heap q (some struct)
      same_addr : struct.addr ≡ b.addr
      more : struct.enabled ≡ b.enabled + 1
      same_length : length struct.orig_value ≡ length b.orig_value
      same_fresh : s'.fresh ≡ s.fresh

    count_up-CountsUp :
        (s : Core p.Kernel) (pid q : ℕ) (b : Breakpoint)
        → FitsWord arch
        → s.heap q ≡ some b
        → Returns (count_up arch p s pid q) (CountsUp s pid q b)
    unfolding count_up
    count_up-CountsUp s pid q b f e =
        let b' : Breakpoint = record b { enabled = b.enabled + 1 } in
        let keeps = enable_breakpoint_keeps arch p pid s.kernel b' f in
        elim (Bool-cases (b'.enabled == 1 && not (pid == 0))) [
          | inl on ↦ (
            switch_on arch p s pid q b',
            rw (count_up, deref_live s q b e, ◌>>=◌, on),
            record {
              struct = (enable_breakpoint arch p pid s.kernel b').1;
              written = refl;
              same_addr = keeps.0;
              more = keeps.1;
              same_length = keeps.2;
              same_fresh = refl;
            },
          )
          | inr off ↦ (
            write s q b',
            rw (count_up, deref_live s q b e, ◌>>=◌, off),
            record {
              struct = b';
              written = refl;
              same_addr = refl;
              more = refl;
              same_length = refl;
              same_fresh = refl;
            },
          )
        ]

    -- `insert_breakpoint` on a store: one more at the address, nothing else counted otherwise.
    pub record Inserts (s : Core p.Kernel) (proc : Process) (a : ℕ) (r : Core p.Kernel × Process)
        : Type 0 where
      pub store : IsStore arch r.0 r.1
      pub counted : (c : ℕ) → count r.0 r.1 c ≡ count s proc c + hit c a
      pub only_table : r.1 ≡ record proc { breakpoints = r.1.breakpoints }

    -- On a well-formed store of breakpoints insert_breakpoint ends without a fault in a well-
    -- formed store, changes nothing of the process but the table, raises the count of the
    -- addresses that are one key with the given one by one and leaves every other count
    pub insert_breakpoint-Inserts :
        (s : Core p.Kernel) (proc : Process) (a : ℕ)
        → FitsWord arch
        → IsStore arch s proc
        → Returns (insert_breakpoint arch p s proc a) (Inserts s proc a)
    unfolding insert_breakpoint
    insert_breakpoint-Inserts s proc a f t =
        let r = find_or_add arch p s proc a in
        let added = find_or_add-Added arch p s proc a t in
        let l = added.store.live a r.2 added.held in
        let (s', run, up) = count_up-CountsUp r.0 proc.pid r.2 l.struct f l.alive in
        let old : count r.0 r.1 a ≡ l.struct.enabled = rw (added.held, l.alive) in
        let store : IsStore arch s' r.1 =
          rewrite-IsStore arch r.0 r.1 a r.2 up.struct s' added.store added.held up.written
            (omega (arith, up.same_fresh)) (ap (λ (n : ℕ). n % 2 ^ 32) up.same_addr ∙ l.same_addr)
            (up.same_length ∙ l.same_length) in
        (
          (s', r.1),
          rw run,
          record {
            store = store;
            counted = λ c. ground (
              arith,
              rewrite-count arch r.0 r.1 a r.2 up.struct s' added.store added.held up.written store
                  c,
              count_congr arch r.0 r.1 c a added.store,
              up.more,
              old,
              added.counts c,
            );
            only_table = added.only_table;
          },
        )

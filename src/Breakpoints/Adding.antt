-- ===== src/Breakpoints/Adding.antt =====
-- The head of `insert_breakpoint` of utrace-0.1/breakpoints.c: the struct of an address, found or made.
use mathlib.Core.Option.{or_else}
use utrace.Common.{
  ℕ, suc, ◌%◌, ◌^◌, ◌<◌, ◌≡◌, true, refl, ap, sym, ◌∙◌, Option, none, some, ==_refl, ==_ne,
  if◌then◌else◌, arith, length-replicate, inl, inr, Option-cases, Bool-cases,
}
use utrace.Dict.{dict_enter}
use utrace.Dict.Lookup.{dict_enter-IsDict, dict_find_entry-enter}
use utrace.Dict.Members.{dict_enter-IsFound}
use utrace.Dict.Keys.{same_int, same_int_iff}
use utrace.Ptrace.{Ptrace}
use utrace.Arch.{Arch}
use utrace.Trap.{Breakpoint}
use utrace.Tracee.{Process}
use utrace.Breakpoints.{Core, overwrite, write, dict_of, new_breakpoint, find_or_add}
use utrace.Breakpoints.Store.{ptr_at, enabled_of, IsArmed, placed, count_of, count, IsLive, IsStore}

module _ (arch : Arch) where
  module _ (p : Ptrace) where
    -- What the head of `insert_breakpoint` leaves: a store with a struct for the address, and no
    -- count that is changed.
    pub record Added (s : Core p.Kernel) (proc : Process) (a : ℕ) (r : Core p.Kernel × Process × ℕ)
        : Type 0 where
      pub store : IsStore arch r.0 r.1
      pub held : ptr_at r.1 a ≡ some r.2
      pub counts : (c : ℕ) → count r.0 r.1 c ≡ count s proc c
      pub same_kernel : r.0.kernel ≡ s.kernel
      pub only_table : r.1 ≡ record proc { breakpoints = r.1.breakpoints }
      pub set_before : (q : ℕ) (st : Breakpoint) → IsArmed r.0 r.1 q st → IsArmed s proc q st
      pub set_after : (q : ℕ) (st : Breakpoint) → IsArmed s proc q st → IsArmed r.0 r.1 q st
      pub place : (st : Breakpoint) → r.0.heap r.2 ≡ some st → st.addr ≡ placed s proc a

    Added-hit :
        (s : Core p.Kernel) (proc : Process) (a q : ℕ)
        → IsStore arch s proc
        → ptr_at proc a ≡ some q
        → Added s proc a (find_or_add arch p s proc a)
    unfolding find_or_add
    Added-hit s proc a q t e =
        rw (find_or_add, e)
          (record {
            store = record { table = t.table; keyed = t.keyed; found = t.found; live = t.live };
            held = e;
            counts = λ c. refl;
            same_kernel = refl;
            only_table = refl;
            set_before =
                λ r st i. record { key = i.key; held = i.held; alive = i.alive; wanted = i.wanted };
            set_after =
                λ r st i. record { key = i.key; held = i.held; alive = i.alive; wanted = i.wanted };
            place = λ st alive. rw (e, alive) refl;
          })

    module _ (s : Core p.Kernel) (proc : Process) (a : ℕ) (t : IsStore arch s proc)
        (e : ptr_at proc a ≡ none) where
      after_add : Process
      after_add = record proc { breakpoints = some (dict_enter (dict_of proc) a s.fresh) }

      ptr_at-add :
          (c : ℕ)
          → ptr_at after_add c
            ≡ or_else (ptr_at proc c) (if same_int c a then some s.fresh else none)
      unfolding after_add
      ptr_at-add c = rw (dict_find_entry-enter (dict_of proc) a c s.fresh t.table, t.keyed) refl

      after_heap : ℕ → Option Breakpoint
      after_heap = overwrite s.heap s.fresh (some (new_breakpoint arch p a))

      -- A pointer of the new table is an old one or the new struct's.
      data Origin (c r : ℕ) : Type 0 where
        old : ptr_at proc c ≡ some r → r < s.fresh → Origin c r
        new : ptr_at proc c ≡ none → r ≡ s.fresh → a % 2 ^ 32 ≡ c % 2 ^ 32 → Origin c r

      origin : (c r : ℕ) → ptr_at after_add c ≡ some r → Origin c r
      unfolding or_else
      origin c r g = elim (Option-cases (ptr_at proc c)) [
        | inr (q, m) ↦
            let here : q ≡ r = ground (arith, ptr_at-add c) in
            old (m ∙ ap some here) (ground (arith, (t.live c q m).allocated))
        | inl m ↦ elim (Bool-cases (same_int c a)) [
          | inl same ↦ new m (ground (arith, ptr_at-add c)) (sym ((same_int_iff c a).0 same))
          | inr other ↦ absurd (ground (arith, ptr_at-add c))
        ]
      ]

      add-IsLive :
          (c r : ℕ) → ptr_at after_add c ≡ some r → IsLive arch after_heap (suc s.fresh) c r
      unfolding after_heap
      add-IsLive c r g = elim (origin c r g) [
        | old m below ↦
            let l = t.live c r m in
            record {
              struct = l.struct;
              alive = rw (==_ne s.fresh r (omega arith)) l.alive;
              allocated = omega arith;
              same_addr = l.same_addr;
              same_length = l.same_length;
            }
        | new m here same ↦ record {
          struct = new_breakpoint arch p a;
          alive = rw (here, ==_refl s.fresh);
          allocated = omega arith;
          same_addr = same;
          same_length = length-replicate arch.breakpoint_length 0;
        }
      ]

      add_counts :
          (c : ℕ) → count_of after_heap (ptr_at after_add c) ≡ count_of s.heap (ptr_at proc c)
      unfolding after_heap or_else
      add_counts c = elim (Option-cases (ptr_at after_add c)) [
        | inl g ↦ rw (g, no_pointer g)
        | inr (r, g) ↦ elim (origin c r g) [
          | old m below ↦ rw (g, m, ==_ne s.fresh r (omega arith))
          | new m here same ↦ rw (g, m, here, ==_refl s.fresh)
        ]
      ]
        where
          no_pointer : ptr_at after_add c ≡ none → ptr_at proc c ≡ none
          no_pointer g = elim (Option-cases (ptr_at proc c)) [
            | inl m ↦ m
            | inr (q, m) ↦ ground (arith, ptr_at-add c)
          ]

      after : Core p.Kernel
      after = record (write s s.fresh (new_breakpoint arch p a)) { fresh = suc s.fresh }

      add_set_before :
          (q : ℕ) (st : Breakpoint) → IsArmed after after_add q st → IsArmed s proc q st
      unfolding after
      add_set_before q st i = elim (origin i.key q i.held) [
        | old m below ↦ record {
          key = i.key;
          held = m;
          alive = sym (rw (==_ne s.fresh q (omega arith)) refl) ∙ i.alive;
          wanted = i.wanted;
        }
        | new m here same ↦
            let made : some (new_breakpoint arch p a) ≡ some st =
              sym (rw (here, ==_refl s.fresh) refl) ∙ i.alive in
            let none_wanted : st.enabled ≡ 0 = ap enabled_of (sym made) in
            absurd (i.wanted none_wanted)
      ]

      add_set_after : (q : ℕ) (st : Breakpoint) → IsArmed s proc q st → IsArmed after after_add q st
      unfolding after or_else
      add_set_after q st i =
          let below = (t.live i.key q i.held).allocated in
          record {
            key = i.key;
            held = ptr_at-add i.key ∙ rw (i.held) refl;
            alive = rw (==_ne s.fresh q (omega arith)) i.alive;
            wanted = i.wanted;
          }

      add_place : (st : Breakpoint) → after.heap s.fresh ≡ some st → st.addr ≡ a
      unfolding after
      add_place st alive =
          let made : some (new_breakpoint arch p a) ≡ some st =
            sym (rw (==_refl s.fresh) refl) ∙ alive in
          cc made

      itself : (dict_of proc).ops.same_key a a ≡ true
      itself = rw t.keyed ((same_int_iff a a).1 refl)

      Added-miss : Added s proc a (find_or_add arch p s proc a)
      unfolding find_or_add after_add after_heap after or_else
      Added-miss =
          rw (find_or_add, e)
            (record {
              store = record {
                table = dict_enter-IsDict (dict_of proc) a s.fresh t.table;
                keyed = unfold dict_enter in t.keyed;
                found = dict_enter-IsFound (dict_of proc) a s.fresh t.table itself e t.found;
                live = add-IsLive;
              };
              held = ptr_at-add a ∙ rw e (rw ((same_int_iff a a).1 refl));
              counts = add_counts;
              same_kernel = refl;
              only_table = refl;
              set_before = add_set_before;
              set_after = add_set_after;
              place = λ st alive. rw e (add_place st alive);
            })

    pub find_or_add-Added :
        (s : Core p.Kernel) (proc : Process) (a : ℕ)
        → IsStore arch s proc
        → Added s proc a (find_or_add arch p s proc a)
    find_or_add-Added s proc a t = elim (Option-cases (ptr_at proc a)) [
      | inl e ↦ Added-miss s proc a t e
      | inr (q, e) ↦ Added-hit s proc a q t e
    ]

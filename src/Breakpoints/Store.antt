-- ===== src/Breakpoints/Store.antt =====
-- The table of breakpoints as a count for each address. Addresses are compared by their low 32 bits,
-- as `dict_key_cmp_int` does.
use utrace.Common.{
  ℕ, ◌%◌, ◌^◌, ◌≤◌, ◌<◌, ◌≡◌, ◌≢◌, refl, ap, sym, ◌∙◌, false, Option, none, some, ◌==◌, ==_iff,
  ==_refl, ==_ne, if◌then◌else◌, arith, length, inl, inr, Option-cases, Bool-cases,
}
use mathlib.Core.List.{List, [], ◌∷◌}
use utrace.Dict.{DictEntry, find_in_chain, Dict, dict_init, dict_find_entry}
use utrace.Dict.Lookup.{IsDict, dict_init-IsDict, dict_find_entry-init}
use utrace.Dict.Members.{IsFound, dict_init-IsFound}
use utrace.Dict.Keys.{int_ops, int_ops-IsLawful, dict_key2hash_int, same_int, same_int_iff}
use utrace.Arch.{Arch}
use utrace.Trap.{Breakpoint}
use utrace.Tracee.{Process}
use utrace.Run.{ok}
use utrace.Breakpoints.{Core, overwrite, deref, dict_of}

-- The pointer that the table holds for an address.
abbrev pub ptr_at : Process → ℕ → Option ℕ
ptr_at proc a = dict_find_entry (dict_of proc) a

abbrev pub enabled_of : Option Breakpoint → ℕ
enabled_of none = 0
enabled_of (some b) = b.enabled

abbrev pub count_of : (ℕ → Option Breakpoint) → Option ℕ → ℕ
count_of heap none = 0
count_of heap (some q) = enabled_of (heap q)

-- How often the breakpoint at an address is wanted.
abbrev pub count : {K : Type 0} → Core K → Process → ℕ → ℕ
count s proc a = count_of s.heap (ptr_at proc a)

pub deref_live :
    {K : Type 0} (s : Core K) (q : ℕ) (b : Breakpoint) → s.heap q ≡ some b → deref s q ≡ ok b
deref_live s q b e = rw (deref, e)

-- 1 at the addresses that are one key with `a`, and 0 at all others.
abbrev pub hit : ℕ → ℕ → ℕ
hit c a = if c % 2 ^ 32 == a % 2 ^ 32 then 1 else 0

-- What stands behind a pointer of the table: a live struct for the address, unlike any other's.
pub record IsLive (arch : Arch) (heap : ℕ → Option Breakpoint) (fresh a q : ℕ) : Type 0 where
  pub struct : Breakpoint
  pub alive : heap q ≡ some struct
  pub allocated : q < fresh
  pub same_addr : struct.addr % 2 ^ 32 ≡ a % 2 ^ 32
  pub same_length : length struct.orig_value ≡ arch.breakpoint_length

pub record IsStore (arch : Arch) {K : Type 0} (s : Core K) (proc : Process) : Type 0 where
  pub table : IsDict (dict_of proc)
  pub keyed : (dict_of proc).ops ≡ int_ops
  pub found : IsFound (dict_of proc)
  pub live : (a q : ℕ) → ptr_at proc a ≡ some q → IsLive arch s.heap s.fresh a q

-- A struct of the table whose trap is wanted.
pub record IsArmed {K : Type 0} (s : Core K) (proc : Process) (q : ℕ) (st : Breakpoint)
    : Type 0 where
  pub key : ℕ
  pub held : ptr_at proc key ≡ some q
  pub alive : s.heap q ≡ some st
  pub wanted : st.enabled ≢ 0

-- Where insert_breakpoint puts a trap: at the address of a struct that is there already.
abbrev pub placed_in : Option Breakpoint → ℕ → ℕ
placed_in none a = a
placed_in (some st) a = st.addr

abbrev pub struct_of : (ℕ → Option Breakpoint) → Option ℕ → Option Breakpoint
struct_of heap none = none
struct_of heap (some q) = heap q

abbrev pub placed : {K : Type 0} → Core K → Process → ℕ → ℕ
placed s proc a = placed_in (struct_of s.heap (ptr_at proc a)) a

module _ (arch : Arch) where
  -- Two addresses share a struct only if they are one key.
  pub one_key :
      {K : Type 0} (s : Core K) (proc : Process) (a b q : ℕ)
      → IsStore arch s proc
      → ptr_at proc a ≡ some q
      → ptr_at proc b ≡ some q
      → a % 2 ^ 32 ≡ b % 2 ^ 32
  one_key s proc a b q t e f =
      let la = t.live a q e in
      let lb = t.live b q f in
      let same : some la.struct ≡ some lb.struct = sym la.alive ∙ lb.alive in
      sym la.same_addr ∙ cc same ∙ lb.same_addr

  same_int_congr : (a b k : ℕ) → a % 2 ^ 32 ≡ b % 2 ^ 32 → same_int a k ≡ same_int b k
  same_int_congr a b k e = ground (arith, same_int_iff a k, same_int_iff b k)

  find_in_chain_congr :
      (h a b : ℕ) (es : List (DictEntry ℕ ℕ))
      → a % 2 ^ 32 ≡ b % 2 ^ 32
      → find_in_chain int_ops h a es ≡ find_in_chain int_ops h b es
  unfolding find_in_chain
  find_in_chain_congr h a b [] e = refl
  find_in_chain_congr h a b (x ∷ es) e =
      rw (same_int_congr a b x.key e, find_in_chain_congr h a b es e)

  pub find_congr :
      (d : Dict ℕ ℕ) (a b : ℕ)
      → d.ops ≡ int_ops
      → a % 2 ^ 32 ≡ b % 2 ^ 32
      → dict_find_entry d a ≡ dict_find_entry d b
  unfolding dict_find_entry dict_key2hash_int
  find_congr d a b k e = rw (k, e, find_in_chain_congr (b % 2 ^ 32) a b _ e)

  -- The count is one for all addresses with the same low 32 bits.
  pub count_congr :
      {K : Type 0} (s : Core K) (proc : Process) (a b : ℕ)
      → IsStore arch s proc
      → a % 2 ^ 32 ≡ b % 2 ^ 32
      → count s proc a ≡ count s proc b
  count_congr s proc a b t e = ap (count_of s.heap) (find_congr (dict_of proc) a b t.keyed e)

  -- A process that has no table yet.
  pub empty-IsStore :
      {K : Type 0} (s : Core K) (proc : Process) → proc.breakpoints ≡ none → IsStore arch s proc
  unfolding dict_init
  empty-IsStore s proc e =
      let d : dict_of proc ≡ dict_init int_ops = ground arith in
      record {
        table = rw d (dict_init-IsDict int_ops int_ops-IsLawful);
        keyed = rw d dict_init-keyed;
        found = rw d (dict_init-IsFound int_ops);
        live =
            λ a q f. cc (sym f ∙ ap (λ t. dict_find_entry t a) d ∙ dict_find_entry-init int_ops a);
      }
    where
      dict_init-keyed : (dict_init {V = ℕ} int_ops).ops ≡ int_ops
      dict_init-keyed = refl

  -- A write to one struct that keeps its address.
  module _ {K : Type 0} (s : Core K) (proc : Process) (a q : ℕ) (b : Breakpoint) where
    pub rewrite-IsStore :
        (s' : Core K)
        → IsStore arch s proc
        → ptr_at proc a ≡ some q
        → s'.heap ≡ overwrite s.heap q (some b)
        → s.fresh ≤ s'.fresh
        → b.addr % 2 ^ 32 ≡ a % 2 ^ 32
        → length b.orig_value ≡ arch.breakpoint_length
        → IsStore arch s' proc
    rewrite-IsStore s' t e h f same len = record {
      table = t.table;
      keyed = t.keyed;
      found = t.found;
      live = λ c r g. elim (Bool-cases (q == r)) [
        | inl here ↦ record {
          struct = b;
          alive = rw (h, here);
          allocated = ground (arith, (t.live c r g).allocated);
          same_addr = ground (arith, one_key s proc a c q t e);
          same_length = len;
        }
        | inr other ↦
            let l = t.live c r g in
            record {
              struct = l.struct;
              alive = rw (h, other) l.alive;
              allocated = ground (arith, l.allocated);
              same_addr = l.same_addr;
              same_length = l.same_length;
            }
      ];
    }

    pub rewrite-count :
        (s' : Core K)
        → IsStore arch s proc
        → ptr_at proc a ≡ some q
        → s'.heap ≡ overwrite s.heap q (some b)
        → IsStore arch s' proc
        → (c : ℕ)
        → count s' proc c ≡ (if c % 2 ^ 32 == a % 2 ^ 32 then b.enabled else count s proc c)
    rewrite-count s' t e h t' c = elim (Bool-cases (c % 2 ^ 32 == a % 2 ^ 32)) [
      | inl same ↦ rw same (count_congr s' proc c a t' ((==_iff _ _).0 same) ∙ rw (e, h, ==_refl q))
      | inr apart ↦ rw apart (elim (Option-cases (ptr_at proc c)) [
        | inl m ↦ rw m
        | inr (r, m) ↦ rw (m, h, ==_ne q r (λ (z : q ≡ r). clash apart (m ∙ ap some (sym z))))
      ])
    ]
      where
        clash : (c % 2 ^ 32 == a % 2 ^ 32) ≡ false → ptr_at proc c ≡ some q → ⊥
        clash apart m = ground (arith, one_key s proc a c q t e m)

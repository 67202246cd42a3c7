-- ===== src/Breakpoints/Init.antt =====
-- `breakpoints_init` of utrace-0.1/breakpoints.c for a process that has no table yet, as `open_program`
-- calls it.
use utrace.Common.{
  ℕ, ◌+◌, ◌≡◌, refl, ap, sym, ◌∙◌, arith, false, not, ◌&&◌, List, [], ◌∷◌, Option, none, ◌==◌,
}
use utrace.Arch.{Arch, FitsWord}
use utrace.Ptrace.{Ptrace}
use utrace.Tracee.{LibrarySymbol, Process, not_yet}
use utrace.Run.{◌>>=◌, Returns}
use utrace.Options.{Options}
use utrace.Dict.{dict_apply_to_all}
use utrace.Dict.Keys.{int_ops}
use utrace.Dict.Lookup.{dict_find_entry-init}
use utrace.Breakpoints.{
  Core, write, find_or_add, count_up, insert_breakpoint, chosen_symbols, insert_all,
  breakpoints_init,
}
use utrace.Breakpoints.Adding.{find_or_add-Added}
use utrace.Breakpoints.Insert.{insert_breakpoint-Inserts}
use utrace.Breakpoints.Store.{count, count_of, deref_live, hit, IsStore, empty-IsStore}

-- How many of the symbols lie at the address.
unfoldable pub wanted_by : ℕ → List LibrarySymbol → ℕ
wanted_by a [] = 0
wanted_by a (sym ∷ syms) = hit a sym.enter_addr + wanted_by a syms

module _ (arch : Arch) (p : Ptrace) where
  -- While the process has no pid, no trap is written.
  insert_breakpoint_delayed :
      (s : Core p.Kernel) (proc : Process) (a : ℕ)
      → IsStore arch s proc
      → proc.pid ≡ 0
      → Returns (insert_breakpoint arch p s proc a) (λ r. r.0.kernel ≡ s.kernel)
  unfolding insert_breakpoint count_up
  insert_breakpoint_delayed s proc a t no_pid =
      let r = find_or_add arch p s proc a in
      let added = find_or_add-Added arch p s proc a t in
      let l = added.store.live a r.2 added.held in
      let b = l.struct in
      let off : (b.enabled + 1 == 1 && not (proc.pid == 0)) ≡ false = ground arith in
      (
        (write r.0 r.2 (record b { enabled = b.enabled + 1 }), r.1),
        rw (insert_breakpoint, count_up, deref_live r.0 r.2 b l.alive, ◌>>=◌, off) refl,
        added.same_kernel,
      )

  record Filled (s : Core p.Kernel) (proc : Process) (syms : List LibrarySymbol)
      (r : Core p.Kernel × Process) : Type 0 where
    store : IsStore arch r.0 r.1
    counted : (c : ℕ) → count r.0 r.1 c ≡ count s proc c + wanted_by c syms
    only_table : r.1 ≡ record proc { breakpoints = r.1.breakpoints }
    delayed : proc.pid ≡ 0 → r.0.kernel ≡ s.kernel

  insert_all-Filled :
      (s : Core p.Kernel) (proc : Process) (syms : List LibrarySymbol)
      → FitsWord arch
      → IsStore arch s proc
      → Returns (insert_all arch p s proc syms) (Filled s proc syms)
  unfolding insert_all wanted_by
  insert_all-Filled s proc [] f t = (
    (s, proc),
    refl,
    record { store = t; counted = λ c. omega arith; only_table = refl; delayed = λ z. refl },
  )
  insert_all-Filled s proc (symbol ∷ syms) f t =
      let (r, run, i) = insert_breakpoint-Inserts arch p s proc symbol.enter_addr f t in
      let (r', run', rest) = insert_all-Filled r.0 r.1 syms f i.store in
      let same_pid : r.1.pid ≡ proc.pid = ap (λ (z : Process). z.pid) i.only_table in
      (
        r',
        rw (run, run') refl,
        record {
          store = rest.store;
          counted = λ c. omega (arith, rest.counted c, i.counted c);
          only_table =
              rest.only_table
              ∙ ap (λ (z : Process). record z { breakpoints = r'.1.breakpoints }) i.only_table;
          delayed = λ no_pid.
              let (q, ran, still) = insert_breakpoint_delayed s proc symbol.enter_addr t no_pid in
              let same : q ≡ r = cc (sym ran ∙ run) in
              rest.delayed (same_pid ∙ no_pid)
              ∙ sym (ap (λ (z : Core p.Kernel × Process). z.0.kernel) same)
              ∙ still;
        },
      )

  -- What breakpoints_init leaves of a process without a table.
  pub record Prepared (o : Options) (symbols : List ℕ → List LibrarySymbol) (s : Core p.Kernel)
      (proc : Process) (r : Core p.Kernel × Process) : Type 0 where
    pub store : IsStore arch r.0 r.1
    pub counted : (c : ℕ) → count r.0 r.1 c ≡ wanted_by c (chosen_symbols arch p o symbols proc)
    pub listed : r.1.list_of_symbols ≡ chosen_symbols arch p o symbols proc
    pub setting : r.1.breakpoints_enabled ≡ not_yet
    pub delayed : proc.pid ≡ 0 → r.0.kernel ≡ s.kernel

  -- Where the trap instruction fits one word, for a process without a table of breakpoints,
  -- breakpoints_init ends without a fault in a well-formed store, in which each address is wanted
  -- as often as the chosen symbols lie at it, by the low 32 bits; the process has these symbols
  -- and is marked as not enabled yet, and without a pid nothing is written to the program
  pub breakpoints_init-Prepared :
      (o : Options) (symbols : List ℕ → List LibrarySymbol) (s : Core p.Kernel) (proc : Process)
      → FitsWord arch
      → proc.breakpoints ≡ none
      → Returns (breakpoints_init arch p o symbols s proc) (Prepared o symbols s proc)
  unfolding breakpoints_init dict_apply_to_all
  breakpoints_init-Prepared o symbols s proc f no_table =
      let syms = chosen_symbols arch p o symbols proc in
      let bare : Process = record proc { breakpoints = none; list_of_symbols = syms } in
      let (r, run, i) = insert_all-Filled s bare syms f (empty-IsStore arch s bare refl) in
      (
        (r.0, record (r.1) { breakpoints_enabled = not_yet }),
        rw (breakpoints_init, no_table, ◌>>=◌, run) refl,
        record {
          store = record {
            table = i.store.table;
            keyed = i.store.keyed;
            found = i.store.found;
            live = i.store.live;
          };
          counted = λ c.
              i.counted c
              ∙ ap (λ (z : Option ℕ). count_of s.heap z + wanted_by c syms)
                  (dict_find_entry-init int_ops c)
              ∙ omega arith;
          listed = ap (λ (z : Process). z.list_of_symbols) i.only_table;
          setting = refl;
          delayed = i.delayed;
        },
      )

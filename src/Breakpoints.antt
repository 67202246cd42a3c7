-- ===== src/Breakpoints.antt =====
-- utrace-0.1/breakpoints.c: counted breakpoints, found by address. The `#ifdef __powerpc__` part is
-- left out, `malloc` is taken to succeed, and `trace_option`, which returns at once, does nothing.
pub mod Store
pub mod Adding
pub mod Insert
pub mod Init
pub mod Delete
pub mod Code
pub mod Rewrites
pub mod Patches
pub mod Changes
pub mod Detach
use utrace.Common.{
  ℕ, zero, suc, ◌+◌, Bool, true, false, not, ◌&&◌, List, [], ◌∷◌, Option, none, some, ◌==◌,
  if◌then◌else◌, replicate,
}
use utrace.Dict.{Dict, dict_init, dict_enter, dict_find_entry, dict_apply_to_all, dict_clear}
use utrace.Dict.Keys.{int_ops, same_string}
use utrace.Ptrace.{Ptrace}
use utrace.Arch.{Arch}
use utrace.Trap.{Breakpoint, enable_breakpoint, disable_breakpoint}
use utrace.Tracee.{LibrarySymbol, Process, Enabled, not_yet, disabled, enabled}
use utrace.Run.{Run, ok, fault, assertion, null_pointer, freed, ◌>>=◌}
use utrace.Options.{Options}

-- The state behind the pointers: the kernel and the heap of `struct breakpoint`. `fresh` is the
-- address that the next `malloc` returns.
pub record Core (K : Type 0) : Type 0 where
  pub kernel : K
  pub heap : ℕ → Option Breakpoint
  pub fresh : ℕ

abbrev pub overwrite : (ℕ → Option Breakpoint) → ℕ → Option Breakpoint → ℕ → Option Breakpoint
overwrite heap sbp object q = if sbp == q then object else heap q

abbrev pub deref : {K : Type 0} → Core K → ℕ → Run Breakpoint
deref s sbp = elim (s.heap sbp) [ none ↦ fault freed | some b ↦ ok b ]

abbrev pub write : {K : Type 0} → Core K → ℕ → Breakpoint → Core K
write s sbp b = record s { heap = overwrite s.heap sbp (some b) }

-- `dict_find_entry` on the table of a process, which must be there.
unfoldable pub address2bpstruct : Process → ℕ → Run (Option ℕ)
address2bpstruct proc addr = elim proc.breakpoints [
  | none ↦ fault null_pointer
  | some d ↦ ok (dict_find_entry d addr)
]

-- `if (!proc->breakpoints) proc->breakpoints = dict_init(…)`
abbrev pub dict_of : Process → Dict ℕ ℕ
dict_of proc = elim proc.breakpoints [ none ↦ dict_init int_ops | some d ↦ d ]

module _ (arch : Arch) (p : Ptrace) where
  -- The new struct; `malloc` leaves `orig_value` as it finds it, here as zeros.
  abbrev pub new_breakpoint : ℕ → Breakpoint
  new_breakpoint addr = record {
    addr = addr;
    orig_value = replicate arch.breakpoint_length 0;
    enabled = 0;
  }

  -- The look-up and, on a miss, the allocation at the head of `insert_breakpoint`.
  unfoldable pub find_or_add : Core p.Kernel → Process → ℕ → Core p.Kernel × Process × ℕ
  find_or_add s proc addr = elim (dict_find_entry (dict_of proc) addr) [
    | some sbp ↦ (s, record proc { breakpoints = some (dict_of proc) }, sbp)
    | none ↦ (
      record (write s s.fresh (new_breakpoint addr)) { fresh = suc s.fresh },
      record proc { breakpoints = some (dict_enter (dict_of proc) addr s.fresh) },
      s.fresh,
    )
  ]

  -- `enable_breakpoint(pid, sbp)` on a struct with the contents `b`
  unfoldable pub switch_on : Core p.Kernel → ℕ → ℕ → Breakpoint → Core p.Kernel
  switch_on s pid sbp b =
      let (k, b') = enable_breakpoint arch p pid s.kernel b in
      record (write s sbp b') { kernel = k }

  -- `sbp->enabled++; if (sbp->enabled==1 && proc->pid) enable_breakpoint(…);`
  unfoldable pub count_up : Core p.Kernel → ℕ → ℕ → Run (Core p.Kernel)
  unfolding switch_on
  count_up s pid sbp = do
    b ← deref s sbp
    let b' = record b { enabled = b.enabled + 1 }
    ok (if b'.enabled == 1 && not (pid == 0) then switch_on s pid sbp b' else write s sbp b')

  unfoldable pub insert_breakpoint : Core p.Kernel → Process → ℕ → Run (Core p.Kernel × Process)
  unfolding find_or_add count_up
  insert_breakpoint s proc addr =
      let (s', proc', sbp) = find_or_add s proc addr in
      count_up s' proc.pid sbp >>= λ s''. ok (s'', proc')

  -- `sbp->enabled--;` and the test after it: at 0 the assertion below fails.
  unfoldable pub count_down : Core p.Kernel → ℕ → ℕ → Breakpoint → ℕ → Run (Core p.Kernel)
  count_down s pid sbp b zero = fault assertion
  count_down s pid sbp b (suc n) =
      let b' = record b { enabled = n } in
      let s' = write s sbp b' in
      ok (if n == 0 then record s' { kernel = disable_breakpoint arch p pid s.kernel b' } else s')

  unfoldable pub delete_breakpoint : Core p.Kernel → Process → ℕ → Run (Core p.Kernel)
  unfolding address2bpstruct count_down
  delete_breakpoint s proc addr = do
    found ← address2bpstruct proc addr
    elim found [
      | none ↦ fault assertion
      | some sbp ↦ do b ← deref s sbp; count_down s proc.pid sbp b b.enabled
    ]

  unfoldable pub enable_bp_cb : ℕ → ℕ → ℕ → Run (Core p.Kernel) → Run (Core p.Kernel)
  unfolding switch_on
  enable_bp_cb pid addr sbp run = do
    s ← run
    b ← deref s sbp
    ok (if b.enabled == 0 then s else switch_on s pid sbp b)

  unfoldable pub enable_all_breakpoints : Core p.Kernel → Process → Run (Core p.Kernel × Process)
  unfolding enable_bp_cb
  enable_all_breakpoints s proc =
      elim proc.breakpoints_enabled [
        | enabled ↦ ok s
        | _ ↦ dict_apply_to_all (enable_bp_cb proc.pid) proc.breakpoints (ok s)
      ]
      >>= λ s'. ok (s', record proc { breakpoints_enabled = enabled })

  unfoldable pub disable_bp_cb : ℕ → ℕ → ℕ → Run (Core p.Kernel) → Run (Core p.Kernel)
  disable_bp_cb pid addr sbp run = do
    s ← run
    b ← deref s sbp
    ok (
        if b.enabled == 0
        then s
        else record s { kernel = disable_breakpoint arch p pid s.kernel b })

  unfoldable pub disable_all_breakpoints : Core p.Kernel → Process → Run (Core p.Kernel × Process)
  unfolding disable_bp_cb
  disable_all_breakpoints s proc =
      elim proc.breakpoints_enabled [
        | disabled ↦ ok s
        | _ ↦ dict_apply_to_all (disable_bp_cb proc.pid) proc.breakpoints (ok s)
      ]
      >>= λ s'. ok (s', record proc { breakpoints_enabled = disabled })

  -- `assert(sbp); free(sbp);` A pointer that was freed already is a fault.
  unfoldable pub free_bp_cb : ℕ → ℕ → Run (Core p.Kernel) → Run (Core p.Kernel)
  free_bp_cb addr sbp run = do
    s ← run
    b ← deref s sbp
    ok (record s { heap = overwrite s.heap sbp none })

  -- The inner loop of `breakpoints_init` over the names of -e.
  unfoldable pub keeps : Bool → List (List ℕ) → List ℕ → Bool → Bool
  keeps enable [] name keep = keep
  keeps enable (e ∷ es) name keep =
      keeps enable es name (if same_string name e then enable else keep)

  -- The outer loop, which unlinks what is not kept.
  unfoldable pub select_symbols : Options → List LibrarySymbol → List LibrarySymbol
  unfolding keeps
  select_symbols o [] = []
  select_symbols o (sym ∷ syms) =
      let rest = select_symbols o syms in
      if keeps o.opt_e_enable o.opt_e sym.name (not o.opt_e_enable) then sym ∷ rest else rest

  abbrev pub is_empty {ℓ} : {A : Type ℓ} → List A → Bool
  is_empty [] = true
  is_empty (x ∷ xs) = false

  -- `read_elf` is the caller's: `symbols` is what it returns for the file.
  unfoldable pub chosen_symbols :
      Options → (List ℕ → List LibrarySymbol) → Process → List LibrarySymbol
  unfolding select_symbols
  chosen_symbols o symbols proc = elim proc.filename [
    | none ↦ []
    | some f ↦
        if o.opt_L
        then (if is_empty o.opt_e then symbols f else select_symbols o (symbols f))
        else []
  ]

  unfoldable pub insert_all :
      Core p.Kernel → Process → List LibrarySymbol → Run (Core p.Kernel × Process)
  insert_all s proc [] = ok (s, proc)
  insert_all s proc (sym ∷ syms) =
      insert_breakpoint s proc sym.enter_addr >>= λ r. insert_all r.0 r.1 syms

  -- `dict_clear` frees the entries of the table and changes no `struct breakpoint`.
  unfoldable pub breakpoints_init :
      Options
      → (List ℕ → List LibrarySymbol)
      → Core p.Kernel
      → Process
      → Run (Core p.Kernel × Process)
  unfolding free_bp_cb chosen_symbols insert_all
  breakpoints_init o symbols s proc = do
    s' ← dict_apply_to_all free_bp_cb proc.breakpoints (ok s)
    let syms = chosen_symbols o symbols proc
    (s'', proc') ← insert_all s' (record proc { breakpoints = none; list_of_symbols = syms }) syms
    ok (s'', record proc' { breakpoints_enabled = not_yet })

-- ===== src/Trap.antt =====
-- utrace-0.1/sysdeps/linux-gnu/breakpoint.c: writing a trap instruction over the code of a process
-- and putting the code back. The debug output under `opt_d > 1` is left out; addresses do not wrap.
pub mod Restore
use utrace.Common.{ℕ, zero, suc, ◌+◌, ◌-◌, ◌*◌, ◌/◌, List, [], ◌∷◌, if◌then◌else◌, ltb, get_or, set}
use utrace.Ptrace.{Ptrace}
use utrace.Arch.{Arch}

-- `struct breakpoint`; the assertion in `delete_breakpoint` keeps `enabled` from falling below 0.
pub record Breakpoint : Type 0 where
  pub addr : ℕ
  pub orig_value : List ℕ
  pub enabled : ℕ

module _ (arch : Arch) where
  -- The loop over `j`, at position `i * sizeof(long) + j`: the bytes of the word are kept in
  -- `orig_value` and replaced by the trap instruction.
  unfoldable pub save_bytes : ℕ → List ℕ → List ℕ → List ℕ × List ℕ
  save_bytes pos [] orig = ([], orig)
  save_bytes pos (b ∷ bs) orig =
      let (rest, saved) = save_bytes (pos + 1) bs (set orig pos b) in
      if ltb pos arch.breakpoint_length
      then (get_or arch.breakpoint_value pos 0 ∷ rest, saved)
      else (b ∷ bs, orig)

  unfoldable pub restore_bytes : ℕ → List ℕ → List ℕ → List ℕ
  restore_bytes pos [] orig = []
  restore_bytes pos (b ∷ bs) orig =
      let rest = restore_bytes (pos + 1) bs orig in
      if ltb pos arch.breakpoint_length then get_or orig pos 0 ∷ rest else b ∷ bs

  -- `1 + ((BREAKPOINT_LENGTH - 1) / sizeof(long))`
  abbrev pub words : ℕ
  words = 1 + (arch.breakpoint_length - 1) / arch.sizeof_long

  module _ (p : Ptrace) where
    -- The loop over `i`, with the number of rounds that are left.
    unfoldable pub enable_words : ℕ → ℕ → ℕ → p.Kernel → Breakpoint → p.Kernel × Breakpoint
    unfolding save_bytes
    enable_words zero i pid k sbp = (k, sbp)
    enable_words (suc n) i pid k sbp =
        let at = sbp.addr + i * arch.sizeof_long in
        let (a, saved) = save_bytes (i * arch.sizeof_long) (p.peek_text k pid at) sbp.orig_value in
        enable_words n (i + 1) pid (p.poke_text k pid at a) (record sbp { orig_value = saved })

    unfoldable pub enable_breakpoint : ℕ → p.Kernel → Breakpoint → p.Kernel × Breakpoint
    unfolding enable_words
    enable_breakpoint pid k sbp = enable_words words 0 pid k sbp

    unfoldable pub disable_words : ℕ → ℕ → ℕ → p.Kernel → Breakpoint → p.Kernel
    unfolding restore_bytes
    disable_words zero i pid k sbp = k
    disable_words (suc n) i pid k sbp =
        let at = sbp.addr + i * arch.sizeof_long in
        let a = restore_bytes (i * arch.sizeof_long) (p.peek_text k pid at) sbp.orig_value in
        disable_words n (i + 1) pid (p.poke_text k pid at a) sbp

    unfoldable pub disable_breakpoint : ℕ → p.Kernel → Breakpoint → p.Kernel
    unfolding disable_words
    disable_breakpoint pid k sbp = disable_words words 0 pid k sbp

-- ===== src/Trap/Restore.antt =====
-- A trap that is set covers the code under it, and one that is taken away gives the code back.
use utrace.Common.{
  ℕ, zero, suc, ◌+◌, ◌-◌, ◌*◌, ◌≤◌, ◌<◌, ◌&&◌, ◌≡◌, ◌≢◌, refl, ◌∙◌, List, [], ◌∷◌, if◌then◌else◌,
  ltb, leb, length, get_or, set, length-set, get_or-set_self, get_or-set_ne, arith,
}
use native.Mathlib.Decide.{ℕ_discrete}
use utrace.Ptrace.{Ptrace, IsMemory}
use utrace.Arch.{Arch, FitsWord}
use utrace.Trap.{
  Breakpoint, save_bytes, restore_bytes, words, enable_breakpoint, disable_breakpoint,
  disable_words,
}

module _ (arch : Arch) where
  length-save_bytes :
      (pos : ℕ) (bs orig : List ℕ)
      → (length (save_bytes arch pos bs orig).0 ≡ length bs)
        × (length (save_bytes arch pos bs orig).1 ≡ length orig)
  unfolding save_bytes
  length-save_bytes pos [] orig = (refl, refl)
  length-save_bytes pos (b ∷ bs) orig =
      ground (arith, length-save_bytes (pos + 1) bs (set orig pos b), length-set orig pos b)

  get_or-save_bytes :
      (pos : ℕ) (bs orig : List ℕ) (j : ℕ)
      → j < length bs
      → get_or (save_bytes arch pos bs orig).0 j 0 ≡ (
          if ltb (pos + j) arch.breakpoint_length
          then get_or arch.breakpoint_value (pos + j) 0
          else get_or bs j 0)
  unfolding save_bytes
  get_or-save_bytes pos [] orig j h = absurd (omega arith)
  get_or-save_bytes pos (b ∷ bs) orig zero h = ground arith
  get_or-save_bytes pos (b ∷ bs) orig (suc j) h =
      ground (arith, get_or-save_bytes (pos + 1) bs (set orig pos b) j)

  get_or-saved :
      (pos : ℕ) (bs orig : List ℕ) (q : ℕ)
      → arch.breakpoint_length ≤ length orig
      → get_or (save_bytes arch pos bs orig).1 q 0 ≡ (
          if leb pos q && (ltb q (pos + length bs) && ltb q arch.breakpoint_length)
          then get_or bs (q - pos) 0
          else get_or orig q 0)
  unfolding save_bytes
  get_or-saved pos [] orig q h = ground arith
  get_or-saved pos (b ∷ bs) orig q h = elim (ℕ_discrete pos q) [
    | yes e ↦ rw e (
        ground (
          arith,
          get_or-saved (q + 1) bs (set orig q b) q,
          length-set orig q b,
          get_or-set_self orig q b 0,
        ))
    | no n ↦ ground (
      arith,
      get_or-saved (pos + 1) bs (set orig pos b) q,
      length-set orig pos b,
      get_or-set_ne orig pos q b 0,
      get_or-cons b bs (q - pos),
    )
  ]
    where
      get_or-cons :
          (b : ℕ) (bs : List ℕ) (i : ℕ) → i ≢ 0 → get_or (b ∷ bs) i 0 ≡ get_or bs (i - 1) 0
      get_or-cons b bs zero h = absurd (h refl)
      get_or-cons b bs (suc i) h = ground arith

  length-restore_bytes :
      (pos : ℕ) (bs orig : List ℕ) → length (restore_bytes arch pos bs orig) ≡ length bs
  unfolding restore_bytes
  length-restore_bytes pos [] orig = refl
  length-restore_bytes pos (b ∷ bs) orig = ground (arith, length-restore_bytes (pos + 1) bs orig)

  get_or-restore_bytes :
      (pos : ℕ) (bs orig : List ℕ) (j : ℕ)
      → j < length bs
      → get_or (restore_bytes arch pos bs orig) j 0
        ≡ (if ltb (pos + j) arch.breakpoint_length then get_or orig (pos + j) 0 else get_or bs j 0)
  unfolding restore_bytes
  get_or-restore_bytes pos [] orig j h = absurd (omega arith)
  get_or-restore_bytes pos (b ∷ bs) orig zero h = ground arith
  get_or-restore_bytes pos (b ∷ bs) orig (suc j) h =
      ground (arith, get_or-restore_bytes (pos + 1) bs orig j)

  words-one : FitsWord arch → words arch ≡ 1
  words-one f = grind arith

  module _ (p : Ptrace) (pid : ℕ) where
    enable_once :
        (k : p.Kernel) (sbp : Breakpoint)
        → FitsWord arch
        → let saved = save_bytes arch 0 (p.peek_text k pid sbp.addr) sbp.orig_value in
          enable_breakpoint arch p pid k sbp
          ≡ (p.poke_text k pid sbp.addr saved.0, record sbp { orig_value = saved.1 })
    unfolding enable_breakpoint
    enable_once k sbp f = rw (words-one f, at_start, no_offset sbp.addr)
      where
        at_start : 0 * arch.sizeof_long ≡ 0
        at_start = omega arith

        no_offset : (a : ℕ) → a + 0 ≡ a
        no_offset a = omega arith

    -- `enable_breakpoint` changes nothing of the struct but the bytes of `orig_value`.
    pub enable_breakpoint_keeps :
        (k : p.Kernel) (sbp : Breakpoint)
        → FitsWord arch
        → let r = (enable_breakpoint arch p pid k sbp).1 in
          (r.addr ≡ sbp.addr)
          × (r.enabled ≡ sbp.enabled)
          × (length r.orig_value ≡ length sbp.orig_value)
    enable_breakpoint_keeps k sbp f =
        rw (enable_once k sbp f)
          (refl, refl, (length-save_bytes 0 (p.peek_text k pid sbp.addr) sbp.orig_value).1)

    disable_once :
        (k : p.Kernel) (sbp : Breakpoint)
        → FitsWord arch
        → disable_breakpoint arch p pid k sbp
          ≡ p.poke_text k pid sbp.addr
              (restore_bytes arch 0 (p.peek_text k pid sbp.addr) sbp.orig_value)
    unfolding disable_breakpoint disable_words
    disable_once k sbp f = rw (words-one f, disable_words, at_start, no_offset sbp.addr)
      where
        at_start : 0 * arch.sizeof_long ≡ 0
        at_start = omega arith

        no_offset : (a : ℕ) → a + 0 ≡ a
        no_offset a = omega arith

  module _ (p : Ptrace) (pid : ℕ) (m : IsMemory p arch.sizeof_long pid) where
    -- What `enable_breakpoint` did: the trap instruction stands at the address and nothing else
    -- changed, and the struct holds the bytes that stood there.
    pub record Sets (k : p.Kernel) (sbp : Breakpoint) (r : p.Kernel × Breakpoint) : Type 0 where
      pub covers :
          (b : ℕ)
          → m.byte r.0 b ≡ (
              if leb sbp.addr b && ltb b (sbp.addr + arch.breakpoint_length)
              then get_or arch.breakpoint_value (b - sbp.addr) 0
              else m.byte k b)
      pub saves :
          (j : ℕ) → j < arch.breakpoint_length → get_or r.1.orig_value j 0 ≡ m.byte k (sbp.addr + j)
      pub same_addr : r.1.addr ≡ sbp.addr
      pub same_count : r.1.enabled ≡ sbp.enabled
      pub same_length : length r.1.orig_value ≡ length sbp.orig_value

    -- Where the trap instruction fits one word, enable_breakpoint puts it at the address and
    -- changes no other byte, saves the bytes that stood there, and keeps the address, the count
    -- and the size of the struct
    pub enable_breakpoint-Sets :
        (k : p.Kernel) (sbp : Breakpoint)
        → FitsWord arch
        → length sbp.orig_value ≡ arch.breakpoint_length
        → Sets k sbp (enable_breakpoint arch p pid k sbp)
    enable_breakpoint-Sets k sbp f l =
        let bs = p.peek_text k pid sbp.addr in
        let saved = save_bytes arch 0 bs sbp.orig_value in
        rw (enable_once p pid k sbp f) (record {
          covers = λ b.
              rw
                (m.byte-poke k sbp.addr saved.0 b
                  ((length-save_bytes 0 bs sbp.orig_value).0 ∙ m.length-peek k sbp.addr))
                (ground (
                  arith,
                  length-save_bytes 0 bs sbp.orig_value,
                  m.length-peek k sbp.addr,
                  get_or-save_bytes 0 bs sbp.orig_value (b - sbp.addr),
                  m.peek-byte k sbp.addr (b - sbp.addr),
                ));
          saves = λ j h. ground (
            arith,
            m.length-peek k sbp.addr,
            get_or-saved 0 bs sbp.orig_value j,
            m.peek-byte k sbp.addr j,
          );
          same_addr = refl;
          same_count = refl;
          same_length = (length-save_bytes 0 bs sbp.orig_value).1;
        })

    -- `disable_breakpoint` writes the bytes that the struct holds, and changes nothing else.
    pub disable_breakpoint-restores :
        (k : p.Kernel) (sbp : Breakpoint) (b : ℕ)
        → FitsWord arch
        → m.byte (disable_breakpoint arch p pid k sbp) b ≡ (
            if leb sbp.addr b && ltb b (sbp.addr + arch.breakpoint_length)
            then get_or sbp.orig_value (b - sbp.addr) 0
            else m.byte k b)
    disable_breakpoint-restores k sbp b f =
        let bs = p.peek_text k pid sbp.addr in
        rw
          (
            disable_once p pid k sbp f,
            m.byte-poke k sbp.addr (restore_bytes arch 0 bs sbp.orig_value) b
                (length-restore_bytes 0 bs sbp.orig_value ∙ m.length-peek k sbp.addr),
          )
          (ground (
            arith,
            length-restore_bytes 0 bs sbp.orig_value,
            m.length-peek k sbp.addr,
            get_or-restore_bytes 0 bs sbp.orig_value (b - sbp.addr),
            m.peek-byte k sbp.addr (b - sbp.addr),
          ))

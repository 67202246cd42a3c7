-- ===== src/Arch.antt =====
-- utrace-0.1/sysdeps/linux-gnu/*/arch.h: the trap instruction of each architecture.
use utrace.Common.{ℕ, ◌≤◌, ◌<◌, ◌≡◌, List, [], ◌∷◌, length, arith}

pub record Arch : Type 0 where
  pub breakpoint_value : List ℕ
  pub breakpoint_length : ℕ
  pub decr_pc_after_break : ℕ
  pub sizeof_long : ℕ

abbrev pub alpha : Arch
alpha = record {
  breakpoint_value = 0x80 ∷ 0x00 ∷ 0x00 ∷ 0x00 ∷ [];
  breakpoint_length = 4;
  decr_pc_after_break = 4;
  sizeof_long = 8;
}

abbrev pub arm : Arch
arm = record {
  breakpoint_value = 0x01 ∷ 0x00 ∷ 0x9f ∷ 0xef ∷ [];
  breakpoint_length = 4;
  decr_pc_after_break = 0;
  sizeof_long = 4;
}

abbrev pub i386 : Arch
i386 = record {
  breakpoint_value = 0xcc ∷ [];
  breakpoint_length = 1;
  decr_pc_after_break = 1;
  sizeof_long = 4;
}

abbrev pub m68k : Arch
m68k = record {
  breakpoint_value = 0x4e ∷ 0x4f ∷ [];
  breakpoint_length = 2;
  decr_pc_after_break = 2;
  sizeof_long = 4;
}

abbrev pub ppc : Arch
ppc = record {
  breakpoint_value = 0x7f ∷ 0xe0 ∷ 0x00 ∷ 0x08 ∷ [];
  breakpoint_length = 4;
  decr_pc_after_break = 0;
  sizeof_long = 4;
}

abbrev pub s390 : Arch
s390 = record {
  breakpoint_value = 0x00 ∷ 0x01 ∷ [];
  breakpoint_length = 2;
  decr_pc_after_break = 2;
  sizeof_long = 4;
}

abbrev pub sparc : Arch
sparc = record {
  breakpoint_value = 0x91 ∷ 0xd0 ∷ 0x20 ∷ 0x01 ∷ [];
  breakpoint_length = 4;
  decr_pc_after_break = 0;
  sizeof_long = 4;
}

abbrev pub x86_64 : Arch
x86_64 = record {
  breakpoint_value = 0xcc ∷ [];
  breakpoint_length = 1;
  decr_pc_after_break = 1;
  sizeof_long = 8;
}

-- The architectures of the repository.
pub data Supported : Arch → Type 0 where
  on_alpha : Supported alpha
  on_arm : Supported arm
  on_i386 : Supported i386
  on_m68k : Supported m68k
  on_ppc : Supported ppc
  on_s390 : Supported s390
  on_sparc : Supported sparc
  on_x86_64 : Supported x86_64

-- The trap instruction has the length that is declared and fits one `long`.
pub record FitsWord (a : Arch) : Type 0 where
  pub declared : length a.breakpoint_value ≡ a.breakpoint_length
  pub some_byte : 0 < a.breakpoint_length
  pub one_word : a.breakpoint_length ≤ a.sizeof_long

pub Supported-FitsWord : {a : Arch} → Supported a → FitsWord a
Supported-FitsWord on_alpha = omega arith
Supported-FitsWord on_arm = omega arith
Supported-FitsWord on_i386 = omega arith
Supported-FitsWord on_m68k = omega arith
Supported-FitsWord on_ppc = omega arith
Supported-FitsWord on_s390 = omega arith
Supported-FitsWord on_sparc = omega arith
Supported-FitsWord on_x86_64 = omega arith

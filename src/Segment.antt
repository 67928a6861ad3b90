-- ===== src/Segment.antt =====
-- Descriptors: `get_base` and `set_base` of kernel/sched.c, the macros `_set_tssldt_desc` and
-- `_set_gate` of include/asm/system.h, `set_limit` of include/linux/sched.h, and `struct desc_struct` of include/linux/head.h.
pub mod Fields
pub mod Tables
use mockos.Prelude.Word.{sub32}
use mockos.Prelude.{ℕ, ◌+◌, ◌-◌, ◌*◌, ◌/◌, ◌%◌, ◌^◌}

-- Two words of 32 bits.
pub record Desc : Type 0 where
  pub a : ℕ
  pub b : ℕ

-- (a >> 16) | ((b & 0xff) << 16) | (b & 0xff000000): the parts share no bit, so `|` is `+`.
unfoldable pub get_base : Desc → ℕ
get_base p = p.a / 2 ^ 16 + p.b % 2 ^ 8 * 2 ^ 16 + (p.b - p.b % 2 ^ 24)

-- The two stores to the second word follow each other.
unfoldable pub set_base : Desc → (base : ℕ) → Desc
set_base p base =
    let first = p.b - p.b % 2 ^ 8 + base / 2 ^ 16 % 2 ^ 8 in
    record {
      a = p.a % 2 ^ 16 + base % 2 ^ 16 * 2 ^ 16;
      b = first % 2 ^ 24 + (base - base % 2 ^ 24);
    }

-- set_limit(ldt,limit): `(limit - 1) >> 12` has 20 bits, so `|` is `+`.
unfoldable pub set_limit : Desc → (limit : ℕ) → Desc
set_limit p limit =
    let pages = sub32 limit 1 / 2 ^ 12 in
    record {
      a = p.a - p.a % 2 ^ 16 + pages % 2 ^ 16;
      b = p.b - p.b % 2 ^ 20 + pages / 2 ^ 16 * 2 ^ 16 + p.b % 2 ^ 16;
    }

-- The stores to all eight bytes: the limit 104, the base, the type's byte and a byte 0.
unfoldable pub set_tssldt_desc : (type addr : ℕ) → Desc
set_tssldt_desc type addr = record {
  a = 104 + addr % 2 ^ 16 * 2 ^ 16;
  b = addr / 2 ^ 16 % 2 ^ 8 + type * 2 ^ 8 + 0 * 2 ^ 16 + addr / 2 ^ 24 * 2 ^ 24;
}

abbrev pub set_tss_desc : ℕ → Desc
set_tss_desc addr = set_tssldt_desc 0x89 addr

abbrev pub set_ldt_desc : ℕ → Desc
set_ldt_desc addr = set_tssldt_desc 0x82 addr

-- eax is the selector 8 and the low half of the address, edx the high half and the type's word.
unfoldable pub set_gate : (type dpl addr : ℕ) → Desc
set_gate type dpl addr = record {
  a = 0x8_0000 + addr % 2 ^ 16;
  b = addr - addr % 2 ^ 16 + (0x8000 + dpl * 2 ^ 13 + type * 2 ^ 8) % 2 ^ 16;
}

abbrev pub set_trap_gate : ℕ → Desc
set_trap_gate addr = set_gate 15 0 addr

abbrev pub set_system_gate : ℕ → Desc
set_system_gate addr = set_gate 15 3 addr

abbrev pub set_intr_gate : ℕ → Desc
set_intr_gate addr = set_gate 14 0 addr

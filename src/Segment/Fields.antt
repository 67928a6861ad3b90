-- ===== src/Segment/Fields.antt =====
-- What the processor reads from a descriptor, and what the functions on descriptors make of it.
use mockos.Prelude.{ℕ, ◌+◌, ◌*◌, ◌/◌, ◌%◌, ◌^◌, ◌<◌, ◌≡◌, arith}
use mockos.Segment.{Desc, get_base, set_base, set_tssldt_desc, set_gate}

-- A word holds 32 bits.
pub record IsDesc (p : Desc) : Type 0 where
  pub a_word : p.a < 2 ^ 32
  pub b_word : p.b < 2 ^ 32

-- The limit's 20 bits, the access byte and the four flags of a segment descriptor.
abbrev pub limit : Desc → ℕ
limit p = p.a % 2 ^ 16 + p.b / 2 ^ 16 % 2 ^ 4 * 2 ^ 16

abbrev pub access : Desc → ℕ
access p = p.b / 2 ^ 8 % 2 ^ 8

abbrev pub flags : Desc → ℕ
flags p = p.b / 2 ^ 20 % 2 ^ 4

-- The selector, offset, type, level and present bit of a gate.
abbrev pub selector : Desc → ℕ
selector p = p.a / 2 ^ 16

abbrev pub offset : Desc → ℕ
offset p = p.b / 2 ^ 16 * 2 ^ 16 + p.a % 2 ^ 16

abbrev pub gate_type : Desc → ℕ
gate_type p = p.b / 2 ^ 8 % 2 ^ 5

abbrev pub level : Desc → ℕ
level p = p.b / 2 ^ 13 % 2 ^ 2

abbrev pub present : Desc → ℕ
present p = p.b / 2 ^ 15 % 2

-- For every descriptor and every base of 32 bits: `get_base` reads what `set_base` wrote, and the
-- limit, the access byte and the flags are as before.
pub get_base-set_base :
    (p : Desc) (base : ℕ)
    → IsDesc p
    → base < 2 ^ 32
    → (get_base (set_base p base) ≡ base)
      × (limit (set_base p base) ≡ limit p)
      × (access (set_base p base) ≡ access p)
      × (flags (set_base p base) ≡ flags p)
      × IsDesc (set_base p base)
unfolding get_base set_base
get_base-set_base p base w lt = (
  omega (arith, w.a_word, w.b_word),
  omega (arith, w.a_word, w.b_word),
  omega (arith, w.a_word, w.b_word),
  omega (arith, w.a_word, w.b_word),
  record { a_word = omega (arith, w.a_word, w.b_word); b_word = omega (arith, w.a_word, w.b_word) },
)

-- The descriptor of a task's state or table at an address of 32 bits has that base, the limit 104, the
-- type's byte and no flags.
pub get_base-set_tssldt_desc :
    (type addr : ℕ)
    → type < 2 ^ 8
    → addr < 2 ^ 32
    → (get_base (set_tssldt_desc type addr) ≡ addr)
      × (limit (set_tssldt_desc type addr) ≡ 104)
      × (access (set_tssldt_desc type addr) ≡ type)
      × (flags (set_tssldt_desc type addr) ≡ 0)
unfolding get_base set_tssldt_desc
get_base-set_tssldt_desc type addr t lt = (omega arith, omega arith, omega arith, omega arith)

-- A gate for a handler at an address of 32 bits, with a type below 32 and a level below 4: the
-- processor reads that address in the code segment 8, the type and the level, and the gate is present.
pub set_gate_fields :
    (type dpl addr : ℕ)
    → type < 2 ^ 5
    → dpl < 2 ^ 2
    → addr < 2 ^ 32
    → (offset (set_gate type dpl addr) ≡ addr)
      × (selector (set_gate type dpl addr) ≡ 8)
      × (gate_type (set_gate type dpl addr) ≡ type)
      × (level (set_gate type dpl addr) ≡ dpl)
      × (present (set_gate type dpl addr) ≡ 1)
unfolding set_gate
set_gate_fields type dpl addr t d lt =
    (omega arith, omega arith, omega arith, omega arith, omega arith)

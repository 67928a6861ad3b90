-- ===== src/Tests/Segment.antt =====
-- Descriptors at concrete addresses.
use mockos.Prelude.{◌*◌, ◌/◌, ◌^◌, ℕ, ◌+◌, ◌≡◌, refl, arith}
use mockos.Fork.Copy.{get_limit}
use mockos.Fork.Limits.{get_limit-set_limit}
use mockos.Segment.{set_limit, set_gate, Desc, get_base, set_base, set_tssldt_desc, set_tss_desc}
use mockos.Segment.Fields.{IsDesc, limit, access, flags, get_base-set_base}
use mockos.Segment.Tables.{fill_offsets, trap_init}

-- the code segment of the first task: 640 KB from 0 on
abbrev task_code : Desc
task_code = record { a = 0x9f; b = 0xc0_fa00 }

tss_word : (set_tss_desc 0x2_5030).a ≡ 0x5030_0068
unfolding set_tssldt_desc
tss_word = refl

get_base-set_base_example :
    (get_base (set_base task_code 0x400_0000) ≡ 0x400_0000)
    × (limit (set_base task_code 0x400_0000) ≡ limit task_code)
    × (access (set_base task_code 0x400_0000) ≡ access task_code)
    × (flags (set_base task_code 0x400_0000) ≡ flags task_code)
    × IsDesc (set_base task_code 0x400_0000)
get_base-set_base_example =
    get_base-set_base task_code 0x400_0000 (record { a_word = omega arith; b_word = omega arith })
      (omega arith)

get_limit-set_limit_example :
    (flags task_code / 2 ^ 3 ≡ 1
      → get_limit (set_limit task_code 0x9_f123) ≡ (0x9_f123 + 4095) / 4096 * 4096)
    × (flags task_code / 2 ^ 3 ≡ 0
        → get_limit (set_limit task_code 0x9_f123) ≡ (0x9_f123 + 4095) / 4096)
    × (get_base (set_limit task_code 0x9_f123) ≡ get_base task_code)
    × (access (set_limit task_code 0x9_f123) ≡ access task_code)
    × (flags (set_limit task_code 0x9_f123) ≡ flags task_code)
get_limit-set_limit_example =
    get_limit-set_limit task_code 0x9_f123 (record { a_word = omega arith; b_word = omega arith })
      (omega arith) (omega arith)

abbrev no_idt : ℕ → Desc
no_idt i = record { a = 0x8_0000; b = 0x8e00 }

page_fault_gate : (trap_init (λ i. 0x5000 + i) 0x6000 no_idt 14).a ≡ 0x8_6000
unfolding trap_init fill_offsets set_gate
page_fault_gate = refl

-- ===== src/Segment/Tables.antt =====
-- The tables of descriptors at the start of the system: `trap_init` of kernel/traps.c and the stores of
-- `sched_init` of kernel/sched.c to `gdt`, `idt` and `task`.
use mockos.Prelude.{
  ap, ℕ, zero, suc, ◌+◌, ◌-◌, ◌*◌, ◌/◌, ◌%◌, ◌^◌, ◌<◌, ◌≡◌, ◌≢◌, refl, arith, ◌==◌, ltb, leb, ◌&&◌,
  true, false, if◌then◌else◌,
}
use mockos.Segment.{Desc, set_tss_desc, set_ldt_desc, set_trap_gate, set_system_gate, set_intr_gate}
use mockos.Segment.Fields.{offset, selector, present, set_gate_fields}

-- a table with `d` at the index `i`
abbrev pub put : (ℕ → Desc) → ℕ → Desc → ℕ → Desc
put t i d j = if i == j then d else t j

-- idt[i].a = (idt[i].a & ~0xffff) | (off & 0xffff)
abbrev pub low_offset : Desc → ℕ → Desc
low_offset p off = record p { a = p.a - p.a % 2 ^ 16 + off % 2 ^ 16 }

-- for (; i < 256; i++), `n` rounds from `i` on
unfoldable pub fill_offsets : (n i : ℕ) → (idt_ptrs : ℕ → ℕ) → (ℕ → Desc) → ℕ → Desc
fill_offsets zero i idt_ptrs idt = idt
fill_offsets (suc n) i idt_ptrs idt =
    fill_offsets n (i + 1) idt_ptrs (put idt i (low_offset (idt i) (idt_ptrs i)))

-- `idt_ptrs` and the address of `page_fault` come from the assembly.
unfoldable pub trap_init : (idt_ptrs : ℕ → ℕ) → (page_fault : ℕ) → (ℕ → Desc) → ℕ → Desc
trap_init idt_ptrs page_fault idt =
    put (fill_offsets 256 0 idt_ptrs idt) 14 (set_trap_gate page_fault)

-- What `sched_init` writes.
pub record Tables : Type 0 where
  pub gdt : ℕ → Desc
  pub idt : ℕ → Desc
  pub task : ℕ → ℕ

abbrev pub no_desc : Desc
no_desc = record { a = 0; b = 0 }

-- for (i = 1; i < NR_TASKS; i++), `n` rounds, with `p` at the index `at` of the table
unfoldable pub clear_tasks : (n i at : ℕ) → Tables → Tables
clear_tasks zero i at s = s
clear_tasks (suc n) i at s = clear_tasks n (i + 1) (at + 2) (record s {
  task = λ j. if i == j then 0 else s.task j;
  gdt = put (put s.gdt at no_desc) (at + 1) no_desc;
})

-- The addresses of the first task's `tss` and `ldt` and of the two handlers are given. The timer
-- chip, the interrupt mask and the loads of the task registers are left out.
unfoldable pub sched_init : (tss ldt timer_interrupt system_call : ℕ) → Tables → Tables
sched_init tss ldt timer_interrupt system_call s =
    let s₁ = record s { gdt = put (put s.gdt 4 (set_tss_desc tss)) 5 (set_ldt_desc ldt) } in
    let s₂ = clear_tasks 63 1 6 s₁ in
    record s₂ {
      idt =
          put (put s₂.idt 0x20 (set_intr_gate timer_interrupt)) 0x80 (set_system_gate system_call);
    }

fill_offsets-at :
    (n i j : ℕ) (ptrs : ℕ → ℕ) (idt : ℕ → Desc)
    → fill_offsets n i ptrs idt j
      ≡ (if leb i j && ltb j (i + n) then low_offset (idt j) (ptrs j) else idt j)
unfolding fill_offsets
fill_offsets-at zero i j ptrs idt = ground arith
fill_offsets-at (suc n) i j ptrs idt =
    ground (arith, fill_offsets-at n (i + 1) j ptrs (put idt i (low_offset (idt i) (ptrs i))))

low_offset_lem :
    (p : Desc) (off : ℕ)
    → p.b / 2 ^ 16 ≡ off / 2 ^ 16
    → (offset (low_offset p off) ≡ off) × (selector (low_offset p off) ≡ selector p)
low_offset_lem p off high = (omega arith, omega arith)

-- After `trap_init` the entry of page faults, 14, is present and leads to their handler, at an
-- address of 32 bits, in the code segment 8. Any other entry below 256 whose upper half of the
-- offset was that of its handler leads to that handler, with the selector and the second word as
-- before.
pub trap_init_lem :
    (idt_ptrs : ℕ → ℕ) (page_fault i : ℕ) (idt : ℕ → Desc)
    → i < 256
    → page_fault < 2 ^ 32
    → (idt i).b / 2 ^ 16 ≡ idt_ptrs i / 2 ^ 16
    → let t = trap_init idt_ptrs page_fault idt in
      (offset (t 14) ≡ page_fault)
      × (selector (t 14) ≡ 8)
      × (present (t 14) ≡ 1)
      × (i ≢ 14
          → (offset (t i) ≡ idt_ptrs i)
            × (selector (t i) ≡ selector (idt i))
            × ((t i).b ≡ (idt i).b))
unfolding trap_init
trap_init_lem idt_ptrs page_fault i idt lt small high =
    let (o, sel, ty, lv, p) = set_gate_fields 15 0 page_fault (omega arith) (omega arith) small in
    let (o', s') = low_offset_lem (idt i) (idt_ptrs i) high in
    (
      o,
      sel,
      p,
      λ ne.
          let other : (14 == i) ≡ false = ground (arith, ne) in
          let inside : (leb 0 i && ltb i 256) ≡ true = ground arith in
          rw (other, fill_offsets-at 256 0 i idt_ptrs idt, inside) (o', s', refl),
    )

clear_tasks-at :
    (n i at j : ℕ) (s : Tables)
    → ((clear_tasks n i at s).task j ≡ (if leb i j && ltb j (i + n) then 0 else s.task j))
      × ((clear_tasks n i at s).gdt j
          ≡ (if leb at j && ltb j (at + 2 * n) then no_desc else s.gdt j))
      × ((clear_tasks n i at s).idt ≡ s.idt)
unfolding clear_tasks
clear_tasks-at zero i at j s = (ground arith, ground arith, refl)
clear_tasks-at (suc n) i at j s =
    let (a, b, c) = clear_tasks-at n (i + 1) (at + 2) j (record s {
      task = λ j. if i == j then 0 else s.task j;
      gdt = put (put s.gdt at no_desc) (at + 1) no_desc;
    }) in
    (ground (arith, a), ground (arith, b), c)

-- After `sched_init` only the slot 0 of the 64 slots has a task, the descriptors of the first task's
-- state and table are the entries 4 and 5 of `gdt`, the 126 entries behind them, those of the other slots, are
-- empty, all others are as before, and the timer's and the system calls' gates are set.
pub sched_init_lem :
    (tss ldt timer_interrupt system_call j : ℕ) (s : Tables)
    → let t = sched_init tss ldt timer_interrupt system_call s in
      (j < 64 → t.task j ≡ (if j == 0 then s.task 0 else 0))
      × (t.gdt j ≡ (
          if j == 4
          then set_tss_desc tss
          else if j == 5
          then set_ldt_desc ldt
          else if leb 6 j && ltb j 132
          then no_desc
          else s.gdt j))
      × (t.idt j ≡ (
          if j == 0x80
          then set_system_gate system_call
          else if j == 0x20
          then set_intr_gate timer_interrupt
          else s.idt j))
unfolding sched_init
sched_init_lem tss ldt timer_interrupt system_call j s =
    let (a, b, c) =
      clear_tasks-at 63 1 6 j
        (record s { gdt = put (put s.gdt 4 (set_tss_desc tss)) 5 (set_ldt_desc ldt) }) in
    (λ lt. ground (arith, a), ground (arith, b), ground (arith, ap (λ f. f j) c))

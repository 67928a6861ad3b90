-- ===== src/Start.antt =====
-- init/main.c: `main` up to `sti`, which sets up every part of the kernel.
use mockos.Prelude.{
  sym, subst, ℕ, suc, ◌+◌, ◌*◌, ◌^◌, ◌<◌, ◌≤◌, ◌≡◌, ◌≢◌, refl, ◌∙◌, arith, leb, List, [], ◌∷◌, All,
  Option, none, some, if◌then◌else◌,
}
use mockos.Printf.{codes}
use mockos.Printf.Format.{word}
use mockos.Mm.State.{Mem, used, paging_pages}
use mockos.Mm.FreePage.{get_free_page}
use mockos.Mm.Init.{mem_init, mem_init_lem, boot-get_free_page}
use mockos.Buffer.{Cache, nr_hash}
use mockos.Buffer.Reuse.{IsCache}
use mockos.Buffer.Init.{head_size, heads, buffer_init}
use mockos.Buffer.Init.Start.{IsNew, buffer_init-IsCache}
use mockos.Segment.{Desc, set_gate, set_trap_gate, set_intr_gate, set_system_gate}
use mockos.Segment.Fields.{offset, selector, gate_type, level, present, set_gate_fields}
use mockos.Segment.Tables.{Tables, trap_init, sched_init, sched_init_lem}
use mockos.Disk.{Disk, hd_init}
use mockos.Log.{Logged, printm, init_serial}

-- What the linker, the assembly and the ports give: addresses, and the bytes read.
pub record Given : Type 0 where
  pub end : ℕ
  pub idt_ptrs : ℕ → ℕ
  pub page_fault : ℕ
  pub tss : ℕ
  pub ldt : ℕ
  pub timer_interrupt : ℕ
  pub system_call : ℕ
  pub hd_interrupt : ℕ
  pub echo : ℕ
  pub read21 : ℕ
  pub reada1 : ℕ

-- The state of the parts. `serial` is what `init_serial` sent to ports, `log` what `printm` did.
pub record System : Type 0 where
  pub mem : Mem
  pub nr_buffers : ℕ
  pub cache : Cache
  pub tables : Tables
  pub disk : Disk
  pub serial : List (ℕ × ℕ)
  pub log : List Logged

-- The calls around `buffer_init`, which gives `n` and `cache`.
abbrev pub with_cache : Given → System → (n : ℕ) → Cache → System
with_cache g s n cache =
    let idt = trap_init g.idt_ptrs g.page_fault s.tables.idt in
    let tables =
      sched_init g.tss g.ldt g.timer_interrupt g.system_call (record s.tables { idt = idt }) in
    let (idt', disk) = hd_init g.hd_interrupt g.read21 g.reada1 tables.idt s.disk in
    record {
      mem = mem_init (4 * 2 ^ 20) (16 * 2 ^ 20) s.mem;
      nr_buffers = n;
      cache = cache;
      tables = record tables { idt = idt' };
      disk = disk;
      serial = (init_serial g.echo).1;
      log = printm (codes "printk from kernel space end = 0x%x\n") (word g.end ∷ []) ∷ s.log;
    }

-- `none` is the fuel of `buffer_init`.
unfoldable pub main_init : Given → System → Option System
main_init g s = elim (buffer_init g.end (4 * 1024 * 1024) s.cache) [
  | none ↦ none
  | some (n, cache) ↦ some (with_cache g s n cache)
]

-- A gate that is present and leads to `handler` in the kernel's code.
pub record IsGate (type dpl handler : ℕ) (d : Desc) : Type 0 where
  pub leads : offset d ≡ handler
  pub segment : selector d ≡ 8
  pub kind : gate_type d ≡ type
  pub from : level d ≡ dpl
  pub there : present d ≡ 1

set_gate-IsGate :
    (type dpl handler : ℕ)
    → type < 2 ^ 5
    → dpl < 2 ^ 2
    → handler < 2 ^ 32
    → IsGate type dpl handler (set_gate type dpl handler)
set_gate-IsGate type dpl handler t d lt =
    let (o, s, k, l, p) = set_gate_fields type dpl handler t d lt in
    record { leads = o; segment = s; kind = k; from = l; there = p }

-- What `main` leaves.
pub record IsStarted (g : Given) (t : System) : Type 0 where
  pub pages : (i : ℕ) → i < paging_pages → t.mem.mem_map i ≡ (if leb 768 i then 0 else used)
  pub first_page : (get_free_page t.mem).0 ≡ 0xff_f000
  pub buffers :
      (n : ℕ) × (t.nr_buffers ≡ suc n)
      × IsCache t.cache g.end (heads n (g.end + head_size)) (λ i. [])
      × All (IsNew t.cache (g.end + head_size * suc n)) (heads (suc n) g.end)
  pub first_task : (j : ℕ) → j < 64 → j ≢ 0 → t.tables.task j ≡ 0
  pub page_fault : IsGate 15 0 g.page_fault (t.tables.idt 14)
  pub timer : IsGate 14 0 g.timer_interrupt (t.tables.idt 0x20)
  pub hard_disk : IsGate 14 0 g.hd_interrupt (t.tables.idt 0x2e)
  pub calls : IsGate 15 3 g.system_call (t.tables.idt 0x80)

-- The gates and the slots that `sched_init` leaves behind `trap_init`.
sched_init-trap_init :
    (g : Given) (s : Tables)
    → let t =
        sched_init g.tss g.ldt g.timer_interrupt g.system_call
          (record s { idt = trap_init g.idt_ptrs g.page_fault s.idt }) in
      (t.idt 14 ≡ set_trap_gate g.page_fault)
      × (t.idt 0x20 ≡ set_intr_gate g.timer_interrupt)
      × (t.idt 0x80 ≡ set_system_gate g.system_call)
      × ((j : ℕ) → j < 64 → j ≢ 0 → t.task j ≡ 0)
unfolding trap_init
sched_init-trap_init g s = (
  (sched_init_lem g.tss g.ldt g.timer_interrupt g.system_call 14 traps).2,
  (sched_init_lem g.tss g.ldt g.timer_interrupt g.system_call 0x20 traps).2,
  (sched_init_lem g.tss g.ldt g.timer_interrupt g.system_call 0x80 traps).2,
  λ j lt ne.
      (sched_init_lem g.tss g.ldt g.timer_interrupt g.system_call j traps).0 lt ∙ ground arith,
)
  where
    traps : Tables
    traps = record s { idt = trap_init g.idt_ptrs g.page_fault s.idt }

main_init-some :
    (g : Given) (s : System) (n : ℕ) (cache : Cache)
    → buffer_init g.end (4 * 1024 * 1024) s.cache ≡ some (n, cache)
    → main_init g s ≡ some (with_cache g s n cache)
unfolding main_init
main_init-some g s n cache ran = rw (ran, main_init) refl

with_cache-IsStarted :
    (g : Given) (s : System) (m : ℕ) (cache : Cache)
    → ((n : ℕ) × (m ≡ suc n)
        × IsCache cache g.end (heads n (g.end + head_size)) (λ i. [])
        × All (IsNew cache (g.end + head_size * suc n)) (heads (suc n) g.end))
    → g.page_fault < 2 ^ 32
    → g.timer_interrupt < 2 ^ 32
    → g.hd_interrupt < 2 ^ 32
    → g.system_call < 2 ^ 32
    → IsStarted g (with_cache g s m cache)
with_cache-IsStarted g s m cache buffers fault timer disk calls =
    let (trap, tick, call, slots) = sched_init-trap_init g s.tables in
    record {
      pages = λ i lt.
          (mem_init_lem (4 * 2 ^ 20) (16 * 2 ^ 20) s.mem (omega arith) i lt).0 ∙ ground arith;
      first_page = boot-get_free_page s.mem;
      buffers = buffers;
      first_task = slots;
      page_fault =
          subst (IsGate 15 0 g.page_fault) (sym trap)
            (set_gate-IsGate 15 0 g.page_fault (omega arith) (omega arith) fault);
      timer =
          subst (IsGate 14 0 g.timer_interrupt) (sym tick)
            (set_gate-IsGate 14 0 g.timer_interrupt (omega arith) (omega arith) timer);
      hard_disk = set_gate-IsGate 14 0 g.hd_interrupt (omega arith) (omega arith) disk;
      calls =
          subst (IsGate 15 3 g.system_call) (sym call)
            (set_gate-IsGate 15 3 g.system_call (omega arith) (omega arith) calls);
    }

-- For a kernel that ends at 1024 or later and leaves room below 640 KB for the heads of 4 MB of
-- buffers, with no hash queue behind the table and handlers at addresses of 32 bits: `main` sets up all
-- parts. The pages of the main memory from 4 MB to 16 MB are free and all others USED, the first
-- page handed out is the last of them, the cache has one buffer or more and is in order with all buffers in the free list, unused,
-- clean and unlocked, no slot but the first has a task, and the gates of page faults, the timer, the
-- hard disk and the system calls lead to their handlers, the last one open to users.
pub main_init-IsStarted :
    (g : Given) (s : System)
    → 1024 ≤ g.end
    → g.end + head_size * 4096 ≤ 0xa_0000
    → ((i : ℕ) → nr_hash ≤ i → s.cache.hash_table i ≡ 0)
    → g.page_fault < 2 ^ 32
    → g.timer_interrupt < 2 ^ 32
    → g.hd_interrupt < 2 ^ 32
    → g.system_call < 2 ^ 32
    → (t : System) × (main_init g s ≡ some t) × IsStarted g t
main_init-IsStarted g s lo room past fault timer disk calls =
    let (n, cache, ran, is, new) =
      buffer_init-IsCache g.end (4 * 1024 * 1024) s.cache lo (omega arith) (omega arith)
        (omega arith) (omega arith) past in
    (
      with_cache g s (suc n) cache,
      main_init-some g s (suc n) cache ran,
      with_cache-IsStarted g s (suc n) cache (n, refl, is, new) fault timer disk calls,
    )

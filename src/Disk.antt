-- ===== src/Disk.antt =====
-- The block devices: `struct request` and IN_ORDER of kernel/blk_drv/blk.h, `blk_dev` of
-- kernel/blk_drv/ll_rw_blk.c, and the disk's handlers of kernel/blk_drv/hd.c.
pub mod Order
pub mod Read
use mockos.Prelude.{
  update, ℕ, zero, suc, ◌+◌, ◌-◌, ◌*◌, ◌/◌, ◌%◌, ◌^◌, ◌==◌, ltb, ◌&&◌, ◌||◌, Bool, List, [], ◌∷◌,
  ◌++◌, Option, none, some, if◌then◌else◌,
}
use mockos.Segment.{Desc, set_intr_gate}
use mockos.Segment.Tables.{put}

-- A pointer is an address, an `int` its pattern of 32 bits.
pub record Request : Type 0 where
  pub dev : ℕ
  pub cmd : ℕ
  pub errors : ℕ
  pub sector : ℕ
  pub nr_sectors : ℕ
  pub buffer : ℕ
  pub waiting : ℕ
  pub bh : ℕ
  pub next : ℕ

-- An `int` moved up by 2 ^ 31, which keeps the order.
abbrev pub above_least : ℕ → ℕ
above_least x = (x + 2 ^ 31) % 2 ^ 32

-- IN_ORDER(s1,s2)
unfoldable pub in_order : Request → Request → Bool
in_order s1 s2 =
    ltb (above_least s1.cmd) (above_least s2.cmd)
    || s1.cmd == s2.cmd
      && (ltb (above_least s1.dev) (above_least s2.dev)
          || s1.dev == s2.dev && ltb s1.sector s2.sector)

-- What `do_hd` points to.
pub data Handler : Type 0 where
  no_handler at_read : Handler

-- `request` is the array of NR_REQUEST requests, `current_request` that of `blk_dev[3]`, an index of the
-- array or NULL; `bytes` is the memory, and `outs` the values that went to a port, the last one first.
pub record Disk : Type 0 where
  pub request : ℕ → Request
  pub current_request : Option ℕ
  pub do_hd : Handler
  pub hd_timeout : ℕ
  pub bytes : ℕ → ℕ
  pub outs : List (ℕ × ℕ)

-- outb(value, port) and outb_p
abbrev pub outb : (value port : ℕ) → Disk → Disk
outb value port s = record s { outs = (value, port) ∷ s.outs }

-- SET_INTR(x)
abbrev pub set_intr : Handler → Disk → Disk
set_intr x s = record s { do_hd = x; hd_timeout = 200 }

-- The five bits BUSY, READY, WRERR, SEEK and ERR of the status, of which READY and SEEK are set alone.
unfoldable pub win_result : (status : ℕ) → ℕ
win_result status = if status / 16 % 16 == 5 && status % 2 == 0 then 0 else 1

-- port_read: `rep insw` stores `n` words, two bytes each, from the byte `k` of what the port gives.
unfoldable pub port_read : (n edi k : ℕ) → (data_port bytes : ℕ → ℕ) → ℕ → ℕ
port_read zero edi k data_port m = m
port_read (suc n) edi k data_port m =
    port_read n (edi + 2) (k + 2) data_port
      (update (update m edi (data_port k)) (edi + 1) (data_port (k + 1)))

-- The request behind one more sector.
abbrev pub advance : Request → Request
advance r = record r {
  errors = 0;
  buffer = r.buffer + 512;
  sector = (r.sector + 1) % 2 ^ 32;
  nr_sectors = (r.nr_sectors + 2 ^ 32 - 1) % 2 ^ 32;
}

-- A sector of the current request, the index `q`, has come.
unfoldable pub read_sector : (q : ℕ) → (data_port : ℕ → ℕ) → Disk → Disk
read_sector q data_port s =
    let r = advance (s.request q) in
    let s' = record s {
      bytes = port_read 256 (s.request q).buffer 0 data_port s.bytes;
      request = λ j. if q == j then r else s.request j;
    } in
    if r.nr_sectors == 0 then s' else set_intr at_read s'

-- `none` is the access through CURRENT where that is NULL.
unfoldable pub read_intr : (status : ℕ) → (data_port : ℕ → ℕ) → Disk → Option Disk
read_intr status data_port s =
    if win_result status == 1
    then some s
    else elim s.current_request [ none ↦ none | some q ↦ some (read_sector q data_port s) ]

-- The interrupt takes the handler away, tells the two interrupt controllers, and calls the handler;
-- `unexpected_hd_int` halts.
unfoldable pub hd_interrupt : (status : ℕ) → (data_port : ℕ → ℕ) → Disk → Option Disk
hd_interrupt status data_port s = elim s.do_hd [
  | no_handler ↦ none
  | at_read ↦
      read_intr status data_port
        (outb 0x20 0x20 (record (outb 0x20 0xa0 s) { do_hd = no_handler; hd_timeout = 0 }))
]

-- A read of two sectors, from the first sector of the disk on.
unfoldable pub mock_hd_out : Disk → Disk
mock_hd_out s = outb 0x20 0x1f7 (
    outb 0xa0 0x1f6 (
      outb 0 0x1f5 (
        outb 0 0x1f4 (
          outb 0x01 0x1f3
            (outb 0x02 0x1f2 (outb 0xff 0x1f1 (outb 0xc8 0x3f6 (set_intr at_read s))))))))

-- The request that `sys_kdebug` makes, for the head `test_bh` at `bh`, whose data is at `hd_test_buf`.
abbrev pub test_request : (bh hd_test_buf : ℕ) → Request → Request
test_request bh hd_test_buf r = record r {
  dev = 0x300;
  cmd = 0;
  errors = 0;
  sector = 0 * 2;
  nr_sectors = 2;
  buffer = hd_test_buf;
  bh = bh;
  next = 0;
}

-- The static function of kernel/blk_drv/hd.c; the system call of that name is the one of fs/buffer.c.
unfoldable pub sys_kdebug : (bh hd_test_buf : ℕ) → Disk → Disk
sys_kdebug bh hd_test_buf s = mock_hd_out (record s {
  request = λ j. if 31 == j then test_request bh hd_test_buf (s.request 31) else s.request j;
  current_request = some 31;
})

-- `read21` and `reada1` are what the ports 0x21 and 0xA1 give; `& 0xfb` and `& 0xbf` clear a bit.
abbrev pub hd_init :
    (hd_interrupt_address read21 reada1 : ℕ) → (ℕ → Desc) → Disk → (ℕ → Desc) × Disk
hd_init hd_interrupt_address read21 reada1 idt s = (
  put idt 0x2e (set_intr_gate hd_interrupt_address),
  outb (reada1 - reada1 / 64 % 2 * 64) 0xa1 (outb (read21 - read21 / 4 % 2 * 4) 0x21 s),
)

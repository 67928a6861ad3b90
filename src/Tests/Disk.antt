-- ===== src/Tests/Disk.antt =====
-- kernel/blk_drv/blk.h and hd.c at concrete requests and interrupts.
use mockos.Prelude.{ℕ, ◌+◌, ◌*◌, ◌<◌, ◌≤◌, ◌≡◌, ◌⊎◌, refl, arith, true, [], none, some}
use mockos.Disk.{
  Request, Disk, no_handler, at_read, in_order, win_result, hd_interrupt, read_intr, sys_kdebug,
}
use mockos.Disk.Read.{HasRead, interrupts, interrupts-HasRead, sys_kdebug-HasRead}

abbrev request_at : (cmd dev sector : ℕ) → Request
request_at cmd dev sector = record {
  dev = dev;
  cmd = cmd;
  errors = 0;
  sector = sector;
  nr_sectors = 3;
  buffer = 0x2000;
  waiting = 0;
  bh = 0;
  next = 0;
}

-- A command of minus one is before the command 0.
reads_first : in_order (request_at 0xffff_ffff 0x300 9) (request_at 0 0x300 5) ≡ true
unfolding in_order
reads_first = refl

abbrev waiting_disk : Disk
waiting_disk = record {
  request = λ j. request_at 0 0x300 7;
  current_request = some 4;
  do_hd = at_read;
  hd_timeout = 200;
  bytes = λ a. 0;
  outs = [];
}

abbrev data_port : ℕ → ℕ → ℕ
data_port i k = 16 * i + k

good : (k : ℕ) → win_result 0x50 ≡ 0
unfolding win_result
good k = refl

-- A status with ERR set leaves the disk as it is.
bad_status : read_intr 0x51 (data_port 0) waiting_disk ≡ some waiting_disk
unfolding read_intr win_result
bad_status = refl

-- An interrupt that is not expected.
unexpected : hd_interrupt 0x50 (data_port 0) (record waiting_disk { do_hd = no_handler }) ≡ none
unfolding hd_interrupt
unexpected = refl

interrupts-HasRead_example :
    (t : Disk) × (interrupts 3 0 (λ k. 0x50) data_port waiting_disk ≡ some t)
    × HasRead 3 0 4 data_port waiting_disk t
interrupts-HasRead_example =
    interrupts-HasRead 2 0 4 (λ k. 0x50) data_port waiting_disk good refl refl refl (omega arith)

sys_kdebug-HasRead_example :
    (t : Disk) × (interrupts 2 0 (λ k. 0x50) data_port (sys_kdebug 0x900 0x4000 waiting_disk)
      ≡ some t)
    × ((k j : ℕ) → k < 2 → j < 512 → t.bytes (0x4000 + 512 * k + j) ≡ data_port k j)
    × ((a : ℕ) → (a < 0x4000) ⊎ (0x4000 + 1024 ≤ a) → t.bytes a ≡ waiting_disk.bytes a)
    × (t.do_hd ≡ no_handler)
sys_kdebug-HasRead_example = sys_kdebug-HasRead 0x900 0x4000 (λ k. 0x50) data_port waiting_disk good

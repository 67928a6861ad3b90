-- ===== src/Tests/Start.antt =====
-- The start of the kernel with concrete addresses.
use mockos.Prelude.{◌+◌, ◌≡◌, refl, arith, [], none, some}
use mockos.Segment.Tables.{no_desc}
use mockos.Disk.{Request, no_handler}
use mockos.Start.{Given, System, main_init, IsStarted, main_init-IsStarted}

abbrev given : Given
given = record {
  end = 0x2_0000;
  idt_ptrs = λ i. 0x5000 + i;
  page_fault = 0x6000;
  tss = 0x7000;
  ldt = 0x7100;
  timer_interrupt = 0x6100;
  system_call = 0x6200;
  hd_interrupt = 0x6300;
  echo = 0xae;
  read21 = 0xff;
  reada1 = 0xff;
}

abbrev no_request : Request
no_request = record {
  dev = 0;
  cmd = 0;
  errors = 0;
  sector = 0;
  nr_sectors = 0;
  buffer = 0;
  waiting = 0;
  bh = 0;
  next = 0;
}

-- Static data is 0 but for the first task's slot.
abbrev loaded : System
loaded = record {
  mem = record {
    mem_map = λ i. 0;
    before_map = 0;
    word = λ a. 0;
    high_memory = 0;
    invalidations = 0;
  };
  nr_buffers = 0;
  cache = record {
    b_data = λ p. 0;
    b_blocknr = λ p. 0;
    b_dev = λ p. 0;
    b_uptodate = λ p. 0;
    b_dirt = λ p. 0;
    b_count = λ p. 0;
    b_lock = λ p. 0;
    b_prev = λ p. 0;
    b_next = λ p. 0;
    b_prev_free = λ p. 0;
    b_next_free = λ p. 0;
    hash_table = λ i. 0;
    free_list = 0;
  };
  tables = record { gdt = λ i. no_desc; idt = λ i. no_desc; task = λ i. 0x7000 };
  disk = record {
    request = λ j. no_request;
    current_request = none;
    do_hd = no_handler;
    hd_timeout = 0;
    bytes = λ a. 0;
    outs = [];
  };
  serial = [];
  log = [];
}

main_init-IsStarted_example : (t : System) × (main_init given loaded ≡ some t) × IsStarted given t
main_init-IsStarted_example =
    main_init-IsStarted given loaded (omega arith) (omega arith) (λ i le. refl) (omega arith)
      (omega arith) (omega arith) (omega arith)

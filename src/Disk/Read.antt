-- ===== src/Disk/Read.antt =====
-- A read of several sectors by the handlers of kernel/blk_drv/hd.c, an interrupt for each.
use mockos.Prelude.{
  ◌∷◌, ap₂, update, ℕ, zero, suc, ◌+◌, ◌-◌, ◌*◌, ◌%◌, ◌^◌, ◌<◌, ◌≤◌, ◌≡◌, ◌≢◌, ◌⊎◌, inl, inr, refl,
  ap, ◌∙◌, arith, ◌==◌, ltb, true, false, Option, none, some, if◌then◌else◌, Bool-cases, eq→==,
}
use mockos.Disk.{
  outb, Handler, Disk, no_handler, at_read, win_result, port_read, advance, read_sector, read_intr,
  hd_interrupt, mock_hd_out, sys_kdebug,
}

-- What `port_read` stores: the bytes of the port, and nothing outside.
port_read-out :
    (n edi k : ℕ) (port m : ℕ → ℕ) (a : ℕ)
    → (a < edi) ⊎ (edi + 2 * n ≤ a)
    → port_read n edi k port m a ≡ m a
unfolding port_read
port_read-out zero edi k port m a out = refl
port_read-out (suc n) edi k port m a out = ground (
  arith,
  port_read-out n (edi + 2) (k + 2) port (update (update m edi (port k)) (edi + 1) (port (k + 1)))
      a,
)

port_read-in :
    (n edi k : ℕ) (port m : ℕ → ℕ) (j : ℕ)
    → j < 2 * n
    → port_read n edi k port m (edi + j) ≡ port (k + j)
unfolding port_read
port_read-in zero edi k port m j lt = absurd (omega arith)
port_read-in (suc n) edi k port m j lt = elim (Bool-cases (ltb j 2)) [
  | inl e ↦ ground (
    arith,
    port_read-out n (edi + 2) (k + 2) port (update (update m edi (port k)) (edi + 1) (port (k + 1)))
        (edi + j),
  )
  | inr e ↦
      let a : edi + j ≡ edi + 2 + (j - 2) = ground arith in
      let b : k + 2 + (j - 2) ≡ k + j = ground arith in
      rw a (
        port_read-in n (edi + 2) (k + 2) port
          (update (update m edi (port k)) (edi + 1) (port (k + 1))) (j - 2) (ground arith)
        ∙ ap port b)
]

-- The disk behind one sector, with the handler and the timeout given.
abbrev received : (q : ℕ) (port : ℕ → ℕ) → Handler → ℕ → Disk → Disk
received q port handler timeout s = record s {
  bytes = port_read 256 (s.request q).buffer 0 port s.bytes;
  request = λ j. if q == j then advance (s.request q) else s.request j;
  do_hd = handler;
  hd_timeout = timeout;
  outs = (0x20, 0x20) ∷ (0x20, 0xa0) ∷ s.outs;
}

hd_interrupt-received :
    (status q : ℕ) (port : ℕ → ℕ) (s : Disk)
    → win_result status ≡ 0
    → s.current_request ≡ some q
    → s.do_hd ≡ at_read
    → hd_interrupt status port s
      ≡ some (
          if (advance (s.request q)).nr_sectors == 0
          then received q port no_handler 0 s
          else received q port at_read 200 s)
unfolding hd_interrupt read_intr read_sector
hd_interrupt-received status q port s ok current handler =
    rw (handler, hd_interrupt) (rw (ok, read_intr) (ap (λ o. sector_of o) current))
  where
    sector_of : Option ℕ → Option Disk
    sector_of o = elim o [
      | none ↦ none
      | some q ↦ some (
          read_sector q port
            (outb 0x20 0x20 (record (outb 0x20 0xa0 s) { do_hd = no_handler; hd_timeout = 0 })))
    ]

-- `n` interrupts, the statuses and what the port gives counted from `i` on.
unfoldable pub interrupts : (n i : ℕ) (status : ℕ → ℕ) (port : ℕ → ℕ → ℕ) → Disk → Option Disk
interrupts zero i status port s = some s
interrupts (suc n) i status port s = elim (hd_interrupt (status i) (port i) s) [
  | none ↦ none
  | some t ↦ interrupts n (i + 1) status port t
]

-- What reading the `n` sectors of the request `q` leaves.
pub record HasRead (n i q : ℕ) (port : ℕ → ℕ → ℕ) (s t : Disk) : Type 0 where
  pub data_in :
      (k j : ℕ) → k < n → j < 512 → t.bytes ((s.request q).buffer + 512 * k + j) ≡ port (i + k) j
  pub outside :
      (a : ℕ)
      → (a < (s.request q).buffer) ⊎ ((s.request q).buffer + 512 * n ≤ a)
      → t.bytes a ≡ s.bytes a
  pub all_read : (t.request q).nr_sectors ≡ 0
  pub sector_behind : (t.request q).sector ≡ ((s.request q).sector + n) % 2 ^ 32
  pub no_errors : (t.request q).errors ≡ 0
  pub no_more : t.do_hd ≡ no_handler
  pub others : (r : ℕ) → r ≢ q → t.request r ≡ s.request r

-- The last sector.
received-HasRead :
    (i q : ℕ) (port : ℕ → ℕ → ℕ) (s : Disk)
    → (s.request q).nr_sectors ≡ 1
    → HasRead 1 i q port s (received q (port i) no_handler 0 s)
received-HasRead i q port s one =
    let same : (q == q) ≡ true = eq→== q q refl in
    let first : i + 0 ≡ i = omega arith in
    record {
      data_in = λ k j lt lj.
          let z : k ≡ 0 = omega arith in
          rw z (
            rw first (
              ap (port_read 256 (s.request q).buffer 0 (port i) s.bytes) (omega arith)
              ∙ (port_read-in 256 (s.request q).buffer 0 (port i) s.bytes j (omega arith)
                  ∙ ap (port i) (omega arith))));
      outside = λ a out. port_read-out 256 (s.request q).buffer 0 (port i) s.bytes a (omega arith);
      all_read = rw same (omega (arith, one));
      sector_behind = rw same refl;
      no_errors = rw same refl;
      no_more = refl;
      others = λ r ne. let e : (q == r) ≡ false = ground arith in rw e refl;
    }

-- One sector, and then the rest.
HasRead-suc :
    (n i q : ℕ) (port : ℕ → ℕ → ℕ) (s t : Disk)
    → HasRead n (i + 1) q port (received q (port i) at_read 200 s) t
    → HasRead (suc n) i q port s t
HasRead-suc n i q port s t rest = record {
  data_in = λ k j lt lj. given k j lt lj;
  outside = λ a out.
      rest.outside a (omega (arith, behind, out))
      ∙ port_read-out 256 (s.request q).buffer 0 (port i) s.bytes a (omega arith);
  all_read = rest.all_read;
  sector_behind = rest.sector_behind ∙ omega (arith, next_sector);
  no_errors = rest.no_errors;
  no_more = rest.no_more;
  others = λ r ne. let e : (q == r) ≡ false = ground arith in rest.others r ne ∙ rw e refl;
}
  where
    same : (q == q) ≡ true
    same = eq→== q q refl

    u : Disk
    u = received q (port i) at_read 200 s

    behind : (u.request q).buffer ≡ (s.request q).buffer + 512
    behind = rw same refl

    next_sector : (u.request q).sector ≡ ((s.request q).sector + 1) % 2 ^ 32
    next_sector = rw same refl

    given :
        (k j : ℕ)
        → k < suc n
        → j < 512
        → t.bytes ((s.request q).buffer + 512 * k + j) ≡ port (i + k) j
    given zero j lt lj =
        ap t.bytes (omega arith)
        ∙ (rest.outside ((s.request q).buffer + j) (omega (arith, behind))
            ∙ (port_read-in 256 (s.request q).buffer 0 (port i) s.bytes j (omega arith)
                ∙ ap₂ port (omega arith) (omega arith)))
    given (suc k) j lt lj =
        ap t.bytes (omega (arith, behind))
        ∙ (rest.data_in k j (omega arith) lj ∙ ap (λ x. port x j) (omega arith))

-- A request of at least one sector that is the current one, with the handler set and a good status at each
-- interrupt: as many interrupts as it has sectors are all taken, none of them unexpected. Behind them
-- the sectors stand one behind the other at the request's buffer, no other byte changed, no sector is
-- left to read, the handler is taken away, and no other request changed.
pub interrupts-HasRead :
    (n i q : ℕ) (status : ℕ → ℕ) (port : ℕ → ℕ → ℕ) (s : Disk)
    → ((k : ℕ) → win_result (status k) ≡ 0)
    → s.current_request ≡ some q
    → s.do_hd ≡ at_read
    → (s.request q).nr_sectors ≡ suc n
    → suc n < 2 ^ 32
    → (t : Disk) × (interrupts (suc n) i status port s ≡ some t) × HasRead (suc n) i q port s t
unfolding interrupts
interrupts-HasRead zero i q status port s ok current handler size small =
    let last : ((advance (s.request q)).nr_sectors == 0) ≡ true = ground (arith, size) in
    let step = hd_interrupt-received (status i) q (port i) s (ok i) current handler in
    (
      received q (port i) no_handler 0 s,
      rw (step, interrupts) (rw last refl),
      received-HasRead i q port s (size ∙ omega arith),
    )
interrupts-HasRead (suc n) i q status port s ok current handler size small =
    let more : ((advance (s.request q)).nr_sectors == 0) ≡ false = ground (arith, size) in
    let step = hd_interrupt-received (status i) q (port i) s (ok i) current handler in
    let same : (q == q) ≡ true = eq→== q q refl in
    let (t, ran, rest) =
      interrupts-HasRead n (i + 1) q status port (received q (port i) at_read 200 s) ok current refl
        (rw same (omega (arith, size))) (omega arith) in
    (t, rw (step, interrupts) (rw more ran), HasRead-suc (suc n) i q port s t rest)

-- `sys_kdebug` and two interrupts with a good status: the 1024 bytes of `hd_test_buf` are the two sectors
-- that the disk gave, and no other byte changed.
pub sys_kdebug-HasRead :
    (bh hd_test_buf : ℕ) (status : ℕ → ℕ) (port : ℕ → ℕ → ℕ) (s : Disk)
    → ((k : ℕ) → win_result (status k) ≡ 0)
    → (t : Disk) × (interrupts 2 0 status port (sys_kdebug bh hd_test_buf s) ≡ some t)
      × ((k j : ℕ) → k < 2 → j < 512 → t.bytes (hd_test_buf + 512 * k + j) ≡ port k j)
      × ((a : ℕ) → (a < hd_test_buf) ⊎ (hd_test_buf + 1024 ≤ a) → t.bytes a ≡ s.bytes a)
      × (t.do_hd ≡ no_handler)
unfolding sys_kdebug mock_hd_out
sys_kdebug-HasRead bh hd_test_buf status port s ok =
    let (t, ran, r) =
      interrupts-HasRead 1 0 31 status port (sys_kdebug bh hd_test_buf s) ok refl refl refl
        (omega arith) in
    (
      t,
      ran,
      λ k j lt lj. r.data_in k j lt lj ∙ ap (λ x. port x j) (omega arith),
      r.outside,
      r.no_more,
    )

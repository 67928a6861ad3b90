-- ===== src/Disk/Order.antt =====
-- IN_ORDER of kernel/blk_drv/blk.h is a strict order of the requests by command, device and sector.
use mockos.Prelude.{ℕ, ◌^◌, ◌<◌, ◌≡◌, arith, true, false}
use mockos.Disk.{Request, above_least, in_order}

-- The three fields are words of 32 bits.
pub record IsRequest (r : Request) : Type 0 where
  pub dev_word : r.dev < 2 ^ 32
  pub cmd_word : r.cmd < 2 ^ 32

same_word : (x y : ℕ) → x < 2 ^ 32 → y < 2 ^ 32 → above_least x ≡ above_least y → x ≡ y
same_word x y lx ly e = omega arith

same_place :
    (a b : Request)
    → IsRequest a
    → IsRequest b
    → in_order a b ≡ false
    → in_order b a ≡ false
    → (a.cmd ≡ b.cmd) × (a.dev ≡ b.dev) × (a.sector ≡ b.sector)
unfolding in_order
same_place a b ia ib p q =
    let c : above_least a.cmd ≡ above_least b.cmd = ground arith in
    let cmd = same_word a.cmd b.cmd ia.cmd_word ib.cmd_word c in
    let d : above_least a.dev ≡ above_least b.dev = ground (arith, cmd) in
    let dev = same_word a.dev b.dev ia.dev_word ib.dev_word d in
    (cmd, dev, ground (arith, cmd, dev))

-- For requests of words: no request is before itself, a request before one that is before a third is before
-- the third, and of two requests neither of which is before the other, command, device and sector
-- are the same.
pub in_order-strict :
    (a b c : Request)
    → IsRequest a
    → IsRequest b
    → IsRequest c
    → (in_order a a ≡ false)
      × (in_order a b ≡ true → in_order b c ≡ true → in_order a c ≡ true)
      × (in_order a b ≡ false
          → in_order b a ≡ false
          → (a.cmd ≡ b.cmd) × (a.dev ≡ b.dev) × (a.sector ≡ b.sector))
unfolding in_order
in_order-strict a b c ia ib ic =
    (ground arith, λ p q. ground (arith, ia.dev_word, ia.cmd_word), same_place a b ia ib)

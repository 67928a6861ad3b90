-- ===== src/Tests/Log.antt =====
-- kernel/printk.c at concrete texts.
use mockos.Prelude.{◌≤◌, ◌≡◌, refl, arith, [], length}
use mockos.Printf.{codes}
use mockos.Log.{logged, overrun, printk, printm, init_serial, printm-plain}

-- A chip that does not give the byte back.
faulty_serial : (init_serial 0x00).0 ≡ 1
unfolding init_serial
faulty_serial = refl

printm-plain_example :
    (length (codes "ok") ≤ 127 → printm (codes "ok") [] ≡ logged (codes "ok"))
    × (128 ≤ length (codes "ok") → printm (codes "ok") [] ≡ overrun (codes "ok"))
    × (length (codes "ok") ≤ 1023 → printk (codes "ok") [] ≡ logged (codes "ok"))
printm-plain_example = printm-plain (codes "ok") [] (omega arith, (omega arith, tt))

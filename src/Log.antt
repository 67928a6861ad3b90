-- ===== src/Log.antt =====
-- kernel/printk.c: `printk` and `printm`, with the buffers that they give to `vsprintf`, and the start of
-- the serial port.
use mockos.Prelude.{ℕ, ◌≤◌, ◌≡◌, ◌≢◌, arith, ◌==◌, ltb, List, [], ◌∷◌, length, All, if◌then◌else◌}
use mockos.Printf.{Bytes}
use mockos.Printf.Format.{Arg, done, stuck, out_of_fuel}
use mockos.Printf.Vsprintf.{vsprintf}
use mockos.Printf.Vsprintf.Text.{vsprintf_plain}

-- What a call does: the bytes go to `log_buf` and their number is returned; the text and the NUL
-- behind it do not fit into the buffer, so `vsprintf` writes past its end; or `vsprintf` reads an argument
-- that is not there.
pub data Logged : Type 0 where
  logged : Bytes → Logged
  overrun : Bytes → Logged
  failed : Logged

-- i = vsprintf(buf, fmt, args); log_buf(buf, i)
unfoldable pub print_with : (size : ℕ) → Bytes → List Arg → Logged
print_with size fmt args = elim (vsprintf fmt args) [
  | done o ↦ if ltb (length o.out) size then logged o.out else overrun o.out
  | stuck ↦ failed
  | out_of_fuel ↦ failed
]

-- The buffer `buf` of the file.
abbrev pub printk : Bytes → List Arg → Logged
printk fmt args = print_with 1024 fmt args

-- The local buffer.
abbrev pub printm : Bytes → List Arg → Logged
printm fmt args = print_with 128 fmt args

-- The result of `init_serial`, and the values that it sent to ports, in their order, where `echo` is what
-- the port 0x3f8 gives.
unfoldable pub init_serial : (echo : ℕ) → ℕ × List (ℕ × ℕ)
init_serial echo =
    let faulty = if echo == 0xae then 0 else 1 in
    let end = if echo == 0xae then (0x0f, 0x3fc) ∷ [] else [] in
    (
      faulty,
      (0x00, 0x3f9)
          ∷ (0x80, 0x3fb)
          ∷ (0x03, 0x3f8)
          ∷ (0x00, 0x3f9)
          ∷ (0x03, 0x3fb)
          ∷ (0xc7, 0x3fa)
          ∷ (0x0b, 0x3fc)
          ∷ (0x1e, 0x3fc)
          ∷ (0xae, 0x3f8)
          ∷ end,
    )

-- A format without `%`: `printm` logs it if it has at most 127 bytes, and writes past its buffer if it has
-- more; `printk` logs it up to 1023 bytes.
pub printm-plain :
    (s : Bytes) (args : List Arg)
    → All (λ c. c ≢ b'%') s
    → (length s ≤ 127 → printm s args ≡ logged s)
      × (128 ≤ length s → printm s args ≡ overrun s)
      × (length s ≤ 1023 → printk s args ≡ logged s)
unfolding print_with
printm-plain s args h =
    let e = vsprintf_plain s args h in
    (
      λ le. rw (e, print_with) (ground arith),
      λ le. rw (e, print_with) (ground arith),
      λ le. rw (e, print_with) (ground arith),
    )

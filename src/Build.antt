-- ===== src/Build.antt =====
-- tools/build.c: the program that joins the boot sector, setup and the system to an image.
pub mod Files
pub mod Sector
pub mod Image
pub mod Checked
pub mod Accepted
use mockos.Prelude.{
  ℕ, zero, suc, ◌+◌, ◌-◌, ◌*◌, ◌/◌, ◌%◌, ◌^◌, ◌==◌, ltb, not, ◌&&◌, ◌||◌, Bool, true, false, List,
  [], ◌∷◌, ◌++◌, length, take, replicate, Option, none, some, if◌then◌else◌,
}

-- The text of an argument.
abbrev pub Name : Type 0
Name = List ℕ

-- What the program asks the system: the bytes of a file, if it can be opened, the device number of a
-- file, if it exists, and how many of the bytes `c` a `write` takes behind the bytes `out`.
pub record Host : Type 0 where
  pub contents : Name → Option (List ℕ)
  pub stat : Name → Option ℕ
  pub write : (out c : List ℕ) → ℕ

pub data File : Type 0 where
  boot setup system : File

-- The texts that `die` prints.
pub data Message : Type 0 where
  usage root_stat bad_root_device boot_size boot_flag write_failed setup_exceeds system_too_big :
      Message
  unable_to_open unable_to_read_header non_minix_header illegal_data_segment illegal_bss
        illegal_symbol_table :
      File → Message

-- A part of the program: it ends with `die`, or goes on with a value; `out` is what was written.
pub data Run {ℓ} (A : Type ℓ) : Type ℓ where
  died : Message → (out : List ℕ) → Run A
  went_on : A → (out : List ℕ) → Run A

pub data Done : Type 0 where
  done : Done

-- The next part, with the value and with what was written.
abbrev pub and_then {ℓ κ} : {A : Type ℓ} {B : Type κ} → Run A → (A → List ℕ → Run B) → Run B
and_then (died e out) k = died e out
and_then (went_on a out) k = k a out

abbrev pub drop : ℕ → List ℕ → List ℕ
drop zero xs = xs
drop (suc n) [] = []
drop (suc n) (x ∷ xs) = drop n xs

abbrev pub byte : List ℕ → ℕ → ℕ
byte [] k = 0
byte (x ∷ xs) zero = x
byte (x ∷ xs) (suc k) = byte xs k

-- ((long *) buf)[k], of 32 bits
abbrev pub long_at : List ℕ → ℕ → ℕ
long_at buf k =
    byte buf (4 * k)
    + byte buf (4 * k + 1) * 2 ^ 8
    + byte buf (4 * k + 2) * 2 ^ 16
    + byte buf (4 * k + 3) * 2 ^ 24

-- write(1, buf, c) != c, and the bytes that were taken
unfoldable pub write_all : Host → (c out : List ℕ) → Run Done
write_all h c out =
    if h.write out c == length c
    then went_on done (out ++ c)
    else died write_failed (out ++ take (h.write out c) c)

-- for (i = 0; (c = read(id, buf, sizeof buf)) > 0; i += c), on fuel, from `i` on: a `read` gives what
-- is left of the file, at most 1024 bytes.
unfoldable pub copy_file : (fuel : ℕ) → Host → (i : ℕ) → (file out : List ℕ) → Run ℕ
copy_file zero h i file out = went_on i out
copy_file (suc n) h i [] out = went_on i out
copy_file (suc n) h i (x ∷ xs) out =
    let c = take 1024 (x ∷ xs) in
    and_then (write_all h c out) (λ _ out'. copy_file n h (i + length c) (drop 1024 (x ∷ xs)) out')

-- while (i < SETUP_SECTS * 512), on fuel
unfoldable pub pad_setup : (fuel : ℕ) → Host → (i : ℕ) → (out : List ℕ) → Run Done
pad_setup zero h i out = went_on done out
pad_setup (suc n) h i out =
    let rest = 4 * 512 - i in
    let c = if ltb 1024 rest then 1024 else rest in
    if ltb i (4 * 512)
    then and_then (write_all h (replicate c 0) out) (λ _ out'. pad_setup n h (i + c) out')
    else went_on done out

pub record Device : Type 0 where
  pub major : ℕ
  pub minor : ℕ

-- MAJOR of an `unsigned` and MINOR, in a `char`
abbrev pub device_of : ℕ → Device
device_of rdev = record { major = rdev % 2 ^ 32 / 256 % 256; minor = rdev % 256 }

abbrev pub same_name : Name → Name → Bool
same_name [] [] = true
same_name [] (y ∷ ys) = false
same_name (x ∷ xs) [] = false
same_name (x ∷ xs) (y ∷ ys) = x == y && same_name xs ys

-- "FLOPPY" and "NONE"
abbrev pub floppy : Name
floppy = 70 ∷ 76 ∷ 79 ∷ 80 ∷ 80 ∷ 89 ∷ []

abbrev pub no_device : Name
no_device = 78 ∷ 79 ∷ 78 ∷ 69 ∷ []

-- The device that an argument names, 0 for the one name that means none.
unfoldable pub named_device : Host → (none_name name out : List ℕ) → Run Device
named_device h none_name name out =
    if same_name name none_name
    then went_on (record { major = 0; minor = 0 }) out
    else elim (h.stat name) [ none ↦ died root_stat out | some rdev ↦ went_on (device_of rdev) out ]

pub record Devices : Type 0 where
  pub root : Device
  pub swap : Device

abbrev pub check_devices : Devices → (out : List ℕ) → Run Devices
check_devices d out =
    if not (d.root.major == 2) && (not (d.root.major == 3) && not (d.root.major == 0))
    then died bad_root_device out
    else if not (d.swap.major == 0) && not (d.swap.major == 3)
    then died bad_root_device out
    else went_on d out

abbrev pub default_root : Device
default_root = record { major = 3; minor = 1 }

abbrev pub default_swap : Device
default_swap = record { major = 3; minor = 4 }

-- The six checks of a header of 32 bytes, in their order.
unfoldable pub check_header : File → (buf out : List ℕ) → Run Done
check_header f buf out =
    if not (long_at buf 0 == 0x0410_0301)
    then died (non_minix_header f) out
    else if not (long_at buf 1 == 32)
    then died (non_minix_header f) out
    else if not (long_at buf 3 == 0)
    then died (illegal_data_segment f) out
    else if not (long_at buf 4 == 0)
    then died (illegal_bss f) out
    else if not (long_at buf 5 == 0)
    then died (non_minix_header f) out
    else if not (long_at buf 7 == 0)
    then died (illegal_symbol_table f) out
    else went_on done out

-- Opens a file and reads and checks its header; the rest of the file goes on.
unfoldable pub read_header : Host → File → Name → (out : List ℕ) → Run (List ℕ)
read_header h f name out = elim (h.contents name) [
  | none ↦ died (unable_to_open f) out
  | some file ↦
      if not (length (take 32 file) == 32)
      then died (unable_to_read_header f) out
      else and_then (check_header f (take 32 file) out) (λ _ out'. went_on (drop 32 file) out')
]

abbrev pub set_byte : List ℕ → ℕ → ℕ → List ℕ
set_byte [] k v = []
set_byte (x ∷ xs) zero v = v ∷ xs
set_byte (x ∷ xs) (suc k) v = x ∷ set_byte xs k v

-- The stores to buf[506] to buf[509].
abbrev pub set_devices : Devices → List ℕ → List ℕ
set_devices d buf =
    set_byte (set_byte (set_byte (set_byte buf 506 d.swap.minor) 507 d.swap.major) 508 d.root.minor)
      509 d.root.major

-- *(unsigned short *)(buf+510)
abbrev pub boot_mark : List ℕ → ℕ
boot_mark buf = byte buf 510 + byte buf 511 * 2 ^ 8

unfoldable pub build_boot : Host → Devices → Name → (out : List ℕ) → Run Done
build_boot h d name out = and_then (read_header h boot name out) (λ file out'.
    let buf = take 1024 file in
    if not (length buf == 512)
    then died boot_size out'
    else if not (boot_mark buf == 0xaa55)
    then died boot_flag out'
    else write_all h (set_devices d buf) out')

unfoldable pub build_setup : Host → Name → (out : List ℕ) → Run Done
build_setup h name out = and_then (read_header h setup name out) (λ file out'.
    and_then (copy_file (length file) h 0 file out')
      (λ i out₂. if ltb (4 * 512) i then died setup_exceeds out₂ else pad_setup 2 h i out₂))

unfoldable pub build_system : Host → Name → (out : List ℕ) → Run Done
build_system h name out = elim (h.contents name) [
  | none ↦ died (unable_to_open system) out
  | some file ↦
      and_then (copy_file (length file) h 0 file out)
        (λ i out'. if ltb (0x3000 * 16) i then died system_too_big out' else went_on done out')
]

-- The three parts of the image, one behind the other.
unfoldable pub build_image :
    Host → Devices → (boot_name setup_name system_name out : List ℕ) → Run Done
build_image h d boot_name setup_name system_name out =
    and_then (build_boot h d boot_name out) (λ _ out₁.
      and_then (build_setup h setup_name out₁) (λ _ out₂. build_system h system_name out₂))

-- The devices, from the arguments behind the three names.
unfoldable pub read_devices : Host → (rest : List Name) → (out : List ℕ) → Run Devices
read_devices h [] out = check_devices (record { root = default_root; swap = default_swap }) out
read_devices h (r ∷ []) out =
    and_then (named_device h floppy r out)
      (λ root out'. check_devices (record { root = root; swap = default_swap }) out')
read_devices h (r ∷ (w ∷ rest)) out = and_then (named_device h floppy r out) (λ root out₁.
    and_then (named_device h no_device w out₁)
      (λ swap out₂. check_devices (record { root = root; swap = swap }) out₂))

-- `main`, with the program's name and its arguments.
unfoldable pub main : Host → (argv : List Name) → Run Done
main h (program ∷ (b ∷ (s ∷ (y ∷ rest)))) =
    if ltb 2 (length rest)
    then died usage []
    else and_then (read_devices h rest []) (λ d out. build_image h d b s y out)
main h _ = died usage []

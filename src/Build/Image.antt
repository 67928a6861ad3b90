-- ===== src/Build/Image.antt =====
-- The image that tools/build.c writes.
use mathlib.Core.List.{append_assoc}
use mockos.Prelude.{
  ◌⊎◌, ℕ, zero, suc, ◌+◌, ◌-◌, ◌<◌, ◌≤◌, ◌≡◌, refl, ap, ◌∙◌, arith, ltb, false, List, [], ◌∷◌, ◌++◌,
  length, take, replicate, length-append, length-replicate, some, eq→==,
}
use mockos.Build.{
  Host, went_on, done, Name, boot, setup, Devices, byte, boot_mark, set_devices, build_boot,
  build_setup, build_system, build_image, read_devices, main,
}
use mockos.Build.Files.{
  TakesAll, write_all-went_on, copy_file-went_on, pad_setup-went_on, IsHeader, read_header-went_on,
}
use mockos.Build.Sector.{
  length-set_devices, byte-append, device_byte, byte-set_devices, byte-behind,
}

take-whole : (n : ℕ) (xs : List ℕ) → length xs ≤ n → take n xs ≡ xs
take-whole zero [] le = refl
take-whole zero (x ∷ xs) le = absurd (omega arith)
take-whole (suc n) [] le = refl
take-whole (suc n) (x ∷ xs) le = ap (λ l. x ∷ l) (take-whole n xs (omega arith))

-- The three files: a boot sector of 512 bytes with the mark 0xAA55, setup of at most four sectors, both
-- behind headers, and a system of at most 0x30000 bytes.
pub record AreFiles (h : Host) (b s y : Name) (sector code kernel : List ℕ) : Type 0 where
  pub boot_header : List ℕ
  pub setup_header : List ℕ
  pub boot_file : h.contents b ≡ some (boot_header ++ sector)
  pub setup_file : h.contents s ≡ some (setup_header ++ code)
  pub system_file : h.contents y ≡ some kernel
  pub boot_IsHeader : IsHeader boot_header
  pub setup_IsHeader : IsHeader setup_header
  pub one_sector : length sector ≡ 512
  pub mark : boot_mark sector ≡ 0xaa55
  pub four_sectors : length code ≤ 2048
  pub small_system : length kernel ≤ 0x3_0000

-- The image: the boot sector with the devices, setup filled up to four sectors, the system.
abbrev pub image : Devices → (sector code kernel : List ℕ) → List ℕ
image d sector code kernel =
    set_devices d sector ++ (code ++ (replicate (2048 - length code) 0 ++ kernel))

build_boot-went_on :
    (h : Host) (d : Devices) (name out header sector : List ℕ)
    → TakesAll h
    → h.contents name ≡ some (header ++ sector)
    → IsHeader header
    → length sector ≡ 512
    → boot_mark sector ≡ 0xaa55
    → build_boot h d name out ≡ went_on done (out ++ set_devices d sector)
unfolding build_boot
build_boot-went_on h d name out header sector takes e k size mark =
    let t : take 1024 sector ≡ sector = take-whole 1024 sector (omega (arith, size)) in
    rw (read_header-went_on h boot name out header sector e k) (
      rw (t, eq→== _ _ size, eq→== _ _ mark) (write_all-went_on h (set_devices d sector) out takes))

build_setup-went_on :
    (h : Host) (name out header code : List ℕ)
    → TakesAll h
    → h.contents name ≡ some (header ++ code)
    → IsHeader header
    → length code ≤ 2048
    → build_setup h name out ≡ went_on done ((out ++ code) ++ replicate (2048 - length code) 0)
unfolding build_setup
build_setup-went_on h name out header code takes e k small =
    let z : 0 + length code ≡ length code = omega arith in
    let f : ltb 2048 (length code) ≡ false = ground arith in
    rw (read_header-went_on h setup name out header code e k) (
      rw (copy_file-went_on (length code) h 0 code out takes (omega arith))
        (rw (z, f) (pad_setup-went_on h (length code) (out ++ code) takes)))

build_system-went_on :
    (h : Host) (name out kernel : List ℕ)
    → TakesAll h
    → h.contents name ≡ some kernel
    → length kernel ≤ 0x3_0000
    → build_system h name out ≡ went_on done (out ++ kernel)
unfolding build_system
build_system-went_on h name out kernel takes e small =
    let z : 0 + length kernel ≡ length kernel = omega arith in
    let f : ltb 0x3_0000 (length kernel) ≡ false = ground arith in
    rw (e, build_system)
      (rw (copy_file-went_on (length kernel) h 0 kernel out takes (omega arith)) (rw (z, f) refl))

-- What the image is to be: 2560 bytes more than the system; the numbers of the swap device and of the
-- root device in the bytes 506 to 509, each minor before major; the other bytes below 512 those of the
-- boot sector; and from 512 on setup, filled up with 0 to 2048 bytes, and the system.
pub record IsImage (d : Devices) (sector code kernel out : List ℕ) : Type 0 where
  pub size : length out ≡ 2560 + length kernel
  pub swap_minor : byte out 506 ≡ d.swap.minor
  pub swap_major : byte out 507 ≡ d.swap.major
  pub root_minor : byte out 508 ≡ d.root.minor
  pub root_major : byte out 509 ≡ d.root.major
  pub boot_sector : (k : ℕ) → k < 512 → (k < 506) ⊎ (509 < k) → byte out k ≡ byte sector k
  pub behind :
      (k : ℕ) → byte out (512 + k) ≡ byte (code ++ (replicate (2048 - length code) 0 ++ kernel)) k

pub image-IsImage :
    (d : Devices) (sector code kernel : List ℕ)
    → length sector ≡ 512
    → length code ≤ 2048
    → IsImage d sector code kernel (image d sector code kernel)
image-IsImage d sector code kernel size small =
    let first = set_devices d sector in
    let behind = code ++ (replicate (2048 - length code) 0 ++ kernel) in
    let whole : length first ≡ 512 = length-set_devices d sector ∙ size in
    let at : (k : ℕ) → k < 512 → byte (first ++ behind) k ≡ device_byte d sector k = λ k lt.
      byte-append first behind k (omega (arith, whole)) ∙ byte-set_devices d sector k size in
    record {
      size = omega (
        arith,
        whole,
        length-append first behind,
        length-append code (replicate (2048 - length code) 0 ++ kernel),
        length-append (replicate (2048 - length code) 0) kernel,
        length-replicate {A = ℕ} (2048 - length code) 0,
      );
      swap_minor = at 506 (omega arith);
      swap_major = at 507 (omega arith);
      root_minor = at 508 (omega arith);
      root_major = at 509 (omega arith);
      boot_sector = λ k lt out. at k lt ∙ ground arith;
      behind = λ k. ap (byte (first ++ behind)) (omega (arith, whole)) ∙ byte-behind first behind k;
    }

pub main-went_on :
    (h : Host) (program b s y : Name) (rest : List Name) (d : Devices) (sector code kernel : List ℕ)
    → TakesAll h
    → length rest ≤ 2
    → read_devices h rest [] ≡ went_on d []
    → AreFiles h b s y sector code kernel
    → main h (program ∷ (b ∷ (s ∷ (y ∷ rest)))) ≡ went_on done (image d sector code kernel)
unfolding main build_image
main-went_on h program b s y rest d sector code kernel takes few devices k =
    let e : ltb 2 (length rest) ≡ false = ground arith in
    let first = set_devices d sector in
    let fill = replicate (2048 - length code) 0 in
    rw (e, main)
      (rw devices (
        rw
          (build_boot-went_on h d b [] k.boot_header sector takes k.boot_file k.boot_IsHeader
            k.one_sector k.mark)
          (rw
            (build_setup-went_on h s ([] ++ first) k.setup_header code takes k.setup_file
              k.setup_IsHeader k.four_sectors)
            (build_system-went_on h y ((([] ++ first) ++ code) ++ fill) kernel takes k.system_file
                k.small_system
              ∙ ap (went_on done) (
                  append_assoc (first ++ code) fill kernel
                  ∙ append_assoc first code (fill ++ kernel))))))

-- With the program's name, three files as they should be, at most two more arguments that name
-- devices, and an output that takes all bytes: `main` ends without a message, and has written the boot
-- sector with the minor and the major number of the swap device in the bytes 506 and 507 and those of the
-- root device in the bytes 508 and 509, setup filled up with 0 to 2048 bytes, and the system.
pub main-IsImage :
    (h : Host) (program b s y : Name) (rest : List Name) (d : Devices) (sector code kernel : List ℕ)
    → TakesAll h
    → length rest ≤ 2
    → read_devices h rest [] ≡ went_on d []
    → AreFiles h b s y sector code kernel
    → (out : List ℕ) × (main h (program ∷ (b ∷ (s ∷ (y ∷ rest)))) ≡ went_on done out)
      × IsImage d sector code kernel out
main-IsImage h program b s y rest d sector code kernel takes few devices k = (
  image d sector code kernel,
  main-went_on h program b s y rest d sector code kernel takes few devices k,
  image-IsImage d sector code kernel k.one_sector k.four_sectors,
)

-- ===== src/Build/Accepted.antt =====
-- The files and devices from which `main` of tools/build.c writes an image.
use mathlib.Core.List.{append_assoc}
use mockos.Build.Image.{image}
use mockos.Prelude.{
  ◌&&◌, ◌⊎◌, ℕ, zero, suc, ◌-◌, ◌<◌, ◌≤◌, ◌≡◌, refl, sym, ap, ◌∙◌, subst, arith, ◌==◌, ltb, not,
  false, List, [], ◌∷◌, ◌++◌, length, take, replicate, some, Option-cases, inl, inr,
}
use mockos.Build.{
  default_root, default_swap, named_device, check_devices, bad_root_device, floppy, no_device,
  Device, usage, Host, went_on, Done, Name, Devices, boot_mark, set_devices, build_boot,
  build_setup, build_image, read_devices, main,
}
use mockos.Build.Files.{IsHeader}
use mockos.Build.Checked.{
  and_then-went_on, went_on-injective, guard-went_on, build_boot-inverse, build_setup-inverse,
  build_system-inverse,
}

-- What the files are when an image was written: the boot file is a header and at least a sector, of which
-- exactly 512 bytes are there, with the mark 0xAA55; setup is a header and at most 2048 bytes; the
-- system has at most 0x30000 bytes. The image is made of them.
pub record IsImage (h : Host) (d : Devices) (b s y : Name) (out : List ℕ) : Type 0 where
  pub boot_header : List ℕ
  pub sector : List ℕ
  pub setup_header : List ℕ
  pub code : List ℕ
  pub kernel : List ℕ
  pub boot_file : h.contents b ≡ some (boot_header ++ sector)
  pub setup_file : h.contents s ≡ some (setup_header ++ code)
  pub system_file : h.contents y ≡ some kernel
  pub boot_IsHeader : IsHeader boot_header
  pub setup_IsHeader : IsHeader setup_header
  pub one_sector : length sector ≡ 512
  pub mark : boot_mark sector ≡ 0xaa55
  pub four_sectors : length code ≤ 2048
  pub small_system : length kernel ≤ 0x3_0000
  pub written : out ≡ image d sector code kernel

take-short : (n : ℕ) (xs : List ℕ) → length (take n xs) < n → take n xs ≡ xs
take-short zero xs lt = absurd (omega arith)
take-short (suc n) [] lt = refl
take-short (suc n) (x ∷ xs) lt = ap (λ l. x ∷ l) (take-short n xs (omega arith))

build_image-inverse :
    (h : Host) (d : Devices) (b s y : Name) (x : Done) (o : List ℕ)
    → build_image h d b s y [] ≡ went_on x o
    → IsImage h d b s y o
unfolding build_image
build_image-inverse h d b s y x o e =
    let (u, o₁, r, k) = and_then-went_on (build_boot h d b []) _ x o e in
    let (v, o₂, r', k') = and_then-went_on (build_setup h s o₁) _ x o k in
    let (sector, header, bf, bh, size, m, p) = build_boot-inverse h d b [] u o₁ r in
    let (code, header', sf, sh, small, q) = build_setup-inverse h s o₁ v o₂ r' in
    let (kernel, yf, few, w) = build_system-inverse h y o₂ x o k' in
    let whole = take-short 1024 sector (omega (arith, size)) in
    let fill = replicate (2048 - length code) 0 in
    record {
      boot_header = header;
      sector = sector;
      setup_header = header';
      code = code;
      kernel = kernel;
      boot_file = bf;
      setup_file = sf;
      system_file = yf;
      boot_IsHeader = bh;
      setup_IsHeader = sh;
      one_sector = sym (ap length whole) ∙ size;
      mark = sym (ap boot_mark whole) ∙ m;
      four_sectors = small;
      small_system = few;
      written =
          w
          ∙ (ap (λ l. l ++ kernel) q
              ∙ (append_assoc (o₁ ++ code) fill kernel
                  ∙ (append_assoc o₁ code (fill ++ kernel)
                      ∙ ap (λ l. l ++ (code ++ (fill ++ kernel))) (p ∙ ap (set_devices d) whole))));
    }

-- The devices that `check_devices` lets through.
abbrev pub AreDevices : Devices → Type 0
AreDevices d =
    ((d.root.major ≡ 0) ⊎ (d.root.major ≡ 2) ⊎ (d.root.major ≡ 3))
    × ((d.swap.major ≡ 0) ⊎ (d.swap.major ≡ 3))

check_devices-inverse :
    (d : Devices) (out : List ℕ) (e : Devices) (o : List ℕ)
    → check_devices d out ≡ went_on e o
    → (d ≡ e) × (o ≡ out) × AreDevices d
check_devices-inverse d out e o h =
    let (a, k) = guard-went_on _ bad_root_device out _ e o h in
    let (b, r) = guard-went_on _ bad_root_device out (went_on d out) e o k in
    let (same, kept) = went_on-injective r in
    (same, sym kept, (major_root d.root.major a, major_swap d.swap.major b))
  where
    major_root :
        (m : ℕ)
        → (not (m == 2) && (not (m == 3) && not (m == 0))) ≡ false
        → (m ≡ 0) ⊎ (m ≡ 2) ⊎ (m ≡ 3)
    major_root m q = ground arith

    major_swap : (m : ℕ) → (not (m == 0) && not (m == 3)) ≡ false → (m ≡ 0) ⊎ (m ≡ 3)
    major_swap m q = ground arith

named_device-inverse :
    (h : Host) (none_name name out : List ℕ) (d : Device) (o : List ℕ)
    → named_device h none_name name out ≡ went_on d o
    → o ≡ out
unfolding named_device
named_device-inverse h none_name name out d o e = elim (Option-cases (h.stat name)) [
  | inl q ↦ ground arith
  | inr (rdev, q) ↦ ground arith
]

read_devices-inverse :
    (h : Host) (rest : List Name) (out : List ℕ) (d : Devices) (o : List ℕ)
    → read_devices h rest out ≡ went_on d o
    → (o ≡ out) × AreDevices d
unfolding read_devices
read_devices-inverse h [] out d o e =
    let (same, kept, ok) =
      check_devices-inverse (record { root = default_root; swap = default_swap }) out d o e in
    (kept, subst AreDevices same ok)
read_devices-inverse h (r ∷ []) out d o e =
    let (root, o₁, n, k) = and_then-went_on (named_device h floppy r out) _ d o e in
    let (same, kept, ok) =
      check_devices-inverse (record { root = root; swap = default_swap }) o₁ d o k in
    (kept ∙ named_device-inverse h floppy r out root o₁ n, subst AreDevices same ok)
read_devices-inverse h (r ∷ (w ∷ rest)) out d o e =
    let (root, o₁, n, k) = and_then-went_on (named_device h floppy r out) _ d o e in
    let (swap, o₂, n', k') = and_then-went_on (named_device h no_device w o₁) _ d o k in
    let (same, kept, ok) = check_devices-inverse (record { root = root; swap = swap }) o₂ d o k' in
    (
      kept
          ∙ (named_device-inverse h no_device w o₁ swap o₂ n'
              ∙ named_device-inverse h floppy r out root o₁ n),
      subst AreDevices same ok,
    )

-- How the arguments were read.
pub record Accepted (h : Host) (argv : List Name) (out : List ℕ) : Type 0 where
  pub program : Name
  pub boot_name : Name
  pub setup_name : Name
  pub system_name : Name
  pub rest : List Name
  pub devices : Devices
  pub arguments : argv ≡ program ∷ (boot_name ∷ (setup_name ∷ (system_name ∷ rest)))
  pub few : length rest ≤ 2
  pub devices_read : read_devices h rest [] ≡ went_on devices []
  pub are_devices : AreDevices devices
  pub is_image : IsImage h devices boot_name setup_name system_name out

-- If `main` ends without a message, whatever the files and the arguments are: there were three to five
-- arguments, the root device has the major number 0, 2 or 3 and the swap device 0 or 3, the three files
-- passed every check, and what was written is their image.
pub main-Accepted :
    (h : Host) (argv : List Name) (x : Done) (out : List ℕ)
    → main h argv ≡ went_on x out
    → Accepted h argv out
unfolding main
main-Accepted h [] x out e = cc
main-Accepted h (p ∷ []) x out e = cc
main-Accepted h (p ∷ (b ∷ [])) x out e = cc
main-Accepted h (p ∷ (b ∷ (s ∷ []))) x out e = cc
main-Accepted h (p ∷ (b ∷ (s ∷ (y ∷ rest)))) x out e =
    let (z, k) = guard-went_on (ltb 2 (length rest)) usage [] _ x out e in
    let (d, o, r, w) = and_then-went_on (read_devices h rest []) _ x out k in
    let (kept, ok) = read_devices-inverse h rest [] d o r in
    record {
      program = p;
      boot_name = b;
      setup_name = s;
      system_name = y;
      rest = rest;
      devices = d;
      arguments = refl;
      few = ground (arith, z);
      devices_read = r ∙ ap (went_on d) kept;
      are_devices = ok;
      is_image =
          build_image-inverse h d b s y x out
            (subst (λ l. build_image h d b s y l ≡ went_on x out) kept w);
    }

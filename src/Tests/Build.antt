-- ===== src/Tests/Build.antt =====
-- tools/build.c with small files.
use mockos.Prelude.{
  ℕ, ◌≡◌, refl, arith, List, [], ◌∷◌, ◌++◌, length, replicate, some, none, if◌then◌else◌,
}
use mockos.Build.{
  Host, went_on, done, Name, Devices, floppy, no_device, same_name, read_devices, named_device,
  main,
}
use mockos.Build.Files.{TakesAll}
use mockos.Build.Image.{AreFiles, image, IsImage, main-went_on, main-IsImage}
use mockos.Build.Accepted.{Accepted, main-Accepted}

abbrev header : List ℕ
header = 1 ∷ 3 ∷ 16 ∷ 4 ∷ 32 ∷ replicate 27 0

abbrev sector : List ℕ
sector = replicate 510 0 ++ 0x55 ∷ 0xaa ∷ []

abbrev code : List ℕ
code = 7 ∷ 8 ∷ 9 ∷ []

abbrev kernel : List ℕ
kernel = 1 ∷ 2 ∷ []

abbrev host : Host
host = record {
  contents = λ name.
      if same_name name (1 ∷ [])
      then some (header ++ sector)
      else if same_name name (2 ∷ [])
      then some (header ++ code)
      else if same_name name (3 ∷ [])
      then some kernel
      else none;
  stat = λ name. none;
  write = λ out c. length c;
}

abbrev argv : List Name
argv = [] ∷ (1 ∷ []) ∷ (2 ∷ []) ∷ (3 ∷ []) ∷ floppy ∷ no_device ∷ []

abbrev no_devices : Devices
no_devices = record {
  root = record { major = 0; minor = 0 };
  swap = record { major = 0; minor = 0 };
}

takes : TakesAll host
takes out c = refl

devices_read : read_devices host (floppy ∷ no_device ∷ []) [] ≡ went_on no_devices []
unfolding read_devices named_device
devices_read = refl

files : AreFiles host (1 ∷ []) (2 ∷ []) (3 ∷ []) sector code kernel
files = record {
  boot_header = header;
  setup_header = header;
  boot_file = refl;
  setup_file = refl;
  system_file = refl;
  boot_IsHeader = record {
    whole = refl;
    magic = refl;
    size = refl;
    no_data = refl;
    no_bss = refl;
    entry = refl;
    no_symbols = refl;
  };
  setup_IsHeader = record {
    whole = refl;
    magic = refl;
    size = refl;
    no_data = refl;
    no_bss = refl;
    entry = refl;
    no_symbols = refl;
  };
  one_sector = refl;
  mark = refl;
  four_sectors = omega arith;
  small_system = omega arith;
}

main-IsImage_example :
    (out : List ℕ) × (main host argv ≡ went_on done out) × IsImage no_devices sector code kernel out
main-IsImage_example =
    main-IsImage host [] (1 ∷ []) (2 ∷ []) (3 ∷ []) (floppy ∷ no_device ∷ []) no_devices sector code
      kernel takes (omega arith) devices_read files

main-Accepted_example : Accepted host argv (image no_devices sector code kernel)
main-Accepted_example = main-Accepted host argv done (image no_devices sector code kernel) (
    main-went_on host [] (1 ∷ []) (2 ∷ []) (3 ∷ []) (floppy ∷ no_device ∷ []) no_devices sector code
      kernel takes (omega arith) devices_read files)

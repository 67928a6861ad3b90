-- ===== src/Build/Checked.antt =====
-- tools/build.c writes an image only from files that pass its checks.
use mathlib.Core.List.{append-nil, append_assoc}
use mockos.Prelude.{
  Bool, ℕ, zero, suc, ◌+◌, ◌-◌, ◌*◌, ◌≤◌, ◌≡◌, ◌≢◌, refl, sym, ap, ap₂, ◌∙◌, arith, ◌==◌, ltb, not,
  true, false, List, [], ◌∷◌, ◌++◌, length, take, replicate, none, some, Option-cases,
  if◌then◌else◌, Bool-cases, inl, inr,
}
use mockos.Build.{
  Message, unable_to_open, unable_to_read_header, boot_size, boot_flag, setup_exceeds,
  system_too_big, Host, Run, died, went_on, and_then, Done, done, File, boot, setup, system,
  Devices, boot_mark, drop, write_all, set_devices, copy_file, pad_setup, check_header, read_header,
  build_boot, build_setup, build_system,
}
use mockos.Build.Files.{
  replicate-append, take-append-drop, length-drop-lt, length-take-drop, IsHeader,
}

-- A part that goes on did so in each of its steps.
pub and_then-went_on :
    {A : Type 0} {B : Type 0} (r : Run A) (k : A → List ℕ → Run B) (b : B) (out : List ℕ)
    → and_then r k ≡ went_on b out
    → (a : A) × (o : List ℕ) × (r ≡ went_on a o) × (k a o ≡ went_on b out)
and_then-went_on (died e o) k b out h = cc
and_then-went_on (went_on a o) k b out h = (a, o, refl, h)

pub died-ne-went_on :
    {A : Type 0} {m : Message} {out o : List ℕ} {a : A} → Run.died m out ≢ went_on a o
died-ne-went_on e = cc

pub went_on-injective :
    {A : Type 0} {a b : A} {out o : List ℕ} → went_on a out ≡ went_on b o → (a ≡ b) × (out ≡ o)
went_on-injective e = (cc, cc)

write_all-inverse :
    (h : Host) (c out : List ℕ) (x : Done) (o : List ℕ)
    → write_all h c out ≡ went_on x o
    → o ≡ out ++ c
unfolding write_all
write_all-inverse h c out x o e = ground arith

copy_file-inverse :
    (fuel : ℕ) (h : Host) (i : ℕ) (file out : List ℕ) (k : ℕ) (o : List ℕ)
    → length file ≤ fuel
    → copy_file fuel h i file out ≡ went_on k o
    → (k ≡ i + length file) × (o ≡ out ++ file)
unfolding copy_file
copy_file-inverse zero h i [] out k o le e = (ground arith, ground (arith, append-nil out))
copy_file-inverse zero h i (x ∷ xs) out k o le e = absurd (omega arith)
copy_file-inverse (suc n) h i [] out k o le e = (ground arith, ground (arith, append-nil out))
copy_file-inverse (suc n) h i (x ∷ xs) out k o le e =
    let c = take 1024 (x ∷ xs) in
    let rest = drop 1024 (x ∷ xs) in
    let (d, o', w, later) = and_then-went_on (write_all h c out) _ k o e in
    let (l, p) =
      copy_file-inverse n h (i + length c) rest o' k o
        (omega (arith, length-drop-lt 1024 x xs (omega arith))) later in
    (
      omega (arith, l, length-take-drop 1024 (x ∷ xs)),
      p
          ∙ (ap (λ l. l ++ rest) (write_all-inverse h c out d o' w)
              ∙ (append_assoc out c rest ∙ ap (λ l. out ++ l) (take-append-drop 1024 (x ∷ xs)))),
    )

check_header-inverse :
    (f : File) (buf out : List ℕ) (x : Done) (o : List ℕ)
    → length buf ≡ 32
    → check_header f buf out ≡ went_on x o
    → IsHeader buf × (o ≡ out)
unfolding check_header
check_header-inverse f buf out x o whole e = (
  record {
    whole = whole;
    magic = ground arith;
    size = ground arith;
    no_data = ground arith;
    no_bss = ground arith;
    entry = ground arith;
    no_symbols = ground arith;
  },
  ground arith,
)

-- A check that went on failed to find fault.
pub guard-went_on :
    {A : Type 0} (b : Bool) (m : Message) (out : List ℕ) (r : Run A) (a : A) (o : List ℕ)
    → (if b then died m out else r) ≡ went_on a o
    → (b ≡ false) × (r ≡ went_on a o)
guard-went_on true m out r a o e = cc
guard-went_on false m out r a o e = (refl, e)

differ-false : (a b : ℕ) → not (a == b) ≡ false → a ≡ b
differ-false a b e = ground arith

read_header-none :
    (h : Host) (f : File) (name out : List ℕ)
    → h.contents name ≡ none
    → read_header h f name out ≡ died (unable_to_open f) out
unfolding read_header
read_header-none h f name out q = rw (q, read_header) refl

read_header-some :
    (h : Host) (f : File) (name out file : List ℕ)
    → h.contents name ≡ some file
    → read_header h f name out ≡ (
        if not (length (take 32 file) == 32)
        then died (unable_to_read_header f) out
        else and_then (check_header f (take 32 file) out) (λ _ o. went_on (drop 32 file) o))
unfolding read_header
read_header-some h f name out file q = rw (q, read_header) refl

read_header-inverse :
    (h : Host) (f : File) (name out rest o : List ℕ)
    → read_header h f name out ≡ went_on rest o
    → (header : List ℕ) × (h.contents name ≡ some (header ++ rest)) × IsHeader header × (o ≡ out)
read_header-inverse h f name out rest o e = elim (Option-cases (h.contents name)) [
  | inl q ↦ absurd (died-ne-went_on (sym (read_header-none h f name out q) ∙ e))
  | inr (file, q) ↦
      let (z, r) =
        guard-went_on (not (length (take 32 file) == 32)) (unable_to_read_header f) out _ rest o
          (sym (read_header-some h f name out file q) ∙ e) in
      let (d, o', c, w) = and_then-went_on (check_header f (take 32 file) out) _ rest o r in
      let whole = differ-false _ 32 z in
      let (is_header, p) = check_header-inverse f (take 32 file) out d o' whole c in
      let (same, kept) = went_on-injective w in
      (
        take 32 file,
        q ∙ ap some (sym (take-append-drop 32 file) ∙ ap (λ l. take 32 file ++ l) same),
        is_header,
        sym kept ∙ p,
      )
]

pad_setup-stop :
    (h : Host) (n i : ℕ) (out : List ℕ)
    → ltb i 2048 ≡ false
    → pad_setup (suc n) h i out ≡ went_on done out
unfolding pad_setup
pad_setup-stop h n i out q = rw (q, pad_setup) refl

pad_setup-round :
    (h : Host) (n i : ℕ) (out : List ℕ)
    → ltb i 2048 ≡ true
    → let c = if ltb 1024 (2048 - i) then 1024 else 2048 - i in
      pad_setup (suc n) h i out
      ≡ and_then (write_all h (replicate c 0) out) (λ _ o. pad_setup n h (i + c) o)
unfolding pad_setup
pad_setup-round h n i out q = rw (q, pad_setup) refl

build_system-none :
    (h : Host) (name out : List ℕ)
    → h.contents name ≡ none
    → build_system h name out ≡ died (unable_to_open system) out
unfolding build_system
build_system-none h name out q = rw (q, build_system) refl

build_system-some :
    (h : Host) (name out kernel : List ℕ)
    → h.contents name ≡ some kernel
    → build_system h name out
      ≡ and_then
          (copy_file (length kernel) h 0 kernel out)
          (λ i o. if ltb (0x3000 * 16) i then died system_too_big o else went_on done o)
unfolding build_system
build_system-some h name out kernel q = rw (q, build_system) refl

-- What fills up setup writes the same however much the output takes.
pad_setup-inverse :
    (h : Host) (n i : ℕ) (out : List ℕ) (x : Done) (o : List ℕ)
    → 2048 ≤ i + n * 1024
    → pad_setup n h i out ≡ went_on x o
    → o ≡ out ++ replicate (2048 - i) 0
unfolding pad_setup
pad_setup-inverse h zero i out x o le e =
    let z : 2048 - i ≡ 0 = omega arith in rw z (sym (went_on-injective e).1 ∙ sym (append-nil out))
pad_setup-inverse h (suc n) i out x o le e = elim (Bool-cases (ltb i 2048)) [
  | inr q ↦
      let z : 2048 - i ≡ 0 = ground arith in
      rw z (sym (went_on-injective (sym (pad_setup-stop h n i out q) ∙ e)).1 ∙ sym (append-nil out))
  | inl q ↦
      let c = if ltb 1024 (2048 - i) then 1024 else 2048 - i in
      let sum : c + (2048 - (i + c)) ≡ 2048 - i = ground arith in
      let (d, o', w, later) =
        and_then-went_on (write_all h (replicate c 0) out) _ x o
          (sym (pad_setup-round h n i out q) ∙ e) in
      pad_setup-inverse h n (i + c) o' x o (ground arith) later
      ∙ (ap (λ l. l ++ replicate (2048 - (i + c)) 0)
            (write_all-inverse h (replicate c 0) out d o' w)
          ∙ (append_assoc out (replicate c 0) (replicate (2048 - (i + c)) 0)
              ∙ ap (λ l. out ++ l)
                  (replicate-append c (2048 - (i + c)) ∙ ap (λ j. replicate j 0) sum)))
]

pub build_boot-inverse :
    (h : Host) (d : Devices) (name out : List ℕ) (x : Done) (o : List ℕ)
    → build_boot h d name out ≡ went_on x o
    → (sector header : List ℕ) × (h.contents name ≡ some (header ++ sector))
      × IsHeader header
      × (length (take 1024 sector) ≡ 512)
      × (boot_mark (take 1024 sector) ≡ 0xaa55)
      × (o ≡ out ++ set_devices d (take 1024 sector))
unfolding build_boot
build_boot-inverse h d name out x o e =
    let (file, o₁, r, k) = and_then-went_on (read_header h boot name out) _ x o e in
    let (header, c, is_header, p) = read_header-inverse h boot name out file o₁ r in
    let buf = take 1024 file in
    let (z, k₁) = guard-went_on (not (length buf == 512)) boot_size o₁ _ x o k in
    let (m, w) = guard-went_on (not (boot_mark buf == 0xaa55)) boot_flag o₁ _ x o k₁ in
    (
      file,
      header,
      c,
      is_header,
      differ-false _ 512 z,
      differ-false _ 0xaa55 m,
      write_all-inverse h (set_devices d buf) o₁ x o w ∙ ap (λ l. l ++ set_devices d buf) p,
    )

pub build_setup-inverse :
    (h : Host) (name out : List ℕ) (x : Done) (o : List ℕ)
    → build_setup h name out ≡ went_on x o
    → (code header : List ℕ) × (h.contents name ≡ some (header ++ code))
      × IsHeader header
      × (length code ≤ 2048)
      × (o ≡ (out ++ code) ++ replicate (2048 - length code) 0)
unfolding build_setup
build_setup-inverse h name out x o e =
    let (code, o₁, r, k) = and_then-went_on (read_header h setup name out) _ x o e in
    let (header, c, is_header, p) = read_header-inverse h setup name out code o₁ r in
    let (i, o₂, w, k₁) = and_then-went_on (copy_file (length code) h 0 code o₁) _ x o k in
    let (l, q) = copy_file-inverse (length code) h 0 code o₁ i o₂ (omega arith) w in
    let (z, k₂) = guard-went_on (ltb (4 * 512) i) setup_exceeds o₂ _ x o k₁ in
    let size : i ≡ length code = omega (arith, l) in
    (
      code,
      header,
      c,
      is_header,
      ground (arith, z, size),
      pad_setup-inverse h 2 i o₂ x o (omega arith) k₂
          ∙ ap₂ (λ l n. l ++ replicate (2048 - n) 0) (q ∙ ap (λ l. l ++ code) p) size,
    )

pub build_system-inverse :
    (h : Host) (name out : List ℕ) (x : Done) (o : List ℕ)
    → build_system h name out ≡ went_on x o
    → (kernel : List ℕ) × (h.contents name ≡ some kernel)
      × (length kernel ≤ 0x3_0000)
      × (o ≡ out ++ kernel)
build_system-inverse h name out x o e = elim (Option-cases (h.contents name)) [
  | inl q ↦ absurd (died-ne-went_on (sym (build_system-none h name out q) ∙ e))
  | inr (kernel, q) ↦
      let (i, o₁, w, k) =
        and_then-went_on (copy_file (length kernel) h 0 kernel out) _ x o
          (sym (build_system-some h name out kernel q) ∙ e) in
      let (l, p) = copy_file-inverse (length kernel) h 0 kernel out i o₁ (omega arith) w in
      let (z, r) = guard-went_on (ltb (0x3000 * 16) i) system_too_big o₁ _ x o k in
      (kernel, q, ground (arith, z, l), sym (went_on-injective r).1 ∙ p)
]

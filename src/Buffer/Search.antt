-- ===== src/Buffer/Search.antt =====
-- The search of `getblk` in fs/buffer.c for a head that can be reused.
use mockos.Prelude.{
  ℕ, zero, suc, ◌<◌, ◌≤◌, ◌≡◌, ◌≢◌, inl, inr, refl, sym, subst, ◌∙◌, arith, ◌==◌, ◌&&◌, ◌||◌, ltb,
  Bool, true, false, List, [], ◌∷◌, length, All, if◌then◌else◌, Bool-cases, eq→==, Option, none,
  some,
}
use mockos.Buffer.{HeadPtr, Cache, badness}
use mockos.Buffer.Ring.{In, Links, IsRing, Without}

-- The test of the loop's body: `tmp` is unused, and better than what was found before.
abbrev pub is_better : Cache → (tmp bh : HeadPtr) → Bool
is_better s tmp bh = s.b_count tmp == 0 && (bh == 0 || ltb (badness s tmp) (badness s bh))

-- do ... while ((tmp = tmp->b_next_free) != free_list), on fuel
unfoldable pub pick : ℕ → (tmp bh : HeadPtr) → Cache → Option HeadPtr
pick zero tmp bh s = none
pick (suc fuel) tmp bh s =
    let bh' = if is_better s tmp bh then tmp else bh in
    let later = pick fuel (s.b_next_free tmp) bh' s in
    if is_better s tmp bh && badness s tmp == 0
    then some tmp
    else if s.b_next_free tmp == s.free_list
    then some bh'
    else later

-- What the search makes of the head `bh` that it comes with: it keeps it, or takes one from the
-- list that is better than all that are unused.
pub data Picked (s : Cache) (bh : HeadPtr) (xs : List HeadPtr) : HeadPtr → Type 0 where
  keeps :
      All (λ x. s.b_count x ≡ 0 → (bh ≢ 0) × (badness s bh ≤ badness s x)) xs → Picked s bh xs bh
  takes :
      (b : HeadPtr)
      → In b xs
      → s.b_count b ≡ 0
      → (bh ≢ 0 → badness s b < badness s bh)
      → All (λ x. s.b_count x ≡ 0 → badness s b ≤ badness s x) xs
      → Picked s bh xs b

All-zero :
    (s : Cache) (b : HeadPtr) (xs : List HeadPtr)
    → badness s b ≡ 0
    → All (λ x. s.b_count x ≡ 0 → badness s b ≤ badness s x) xs
All-zero s b [] z = tt
All-zero s b (x ∷ xs) z = (λ c. omega arith, All-zero s b xs z)

drop_first :
    (s : Cache) (b : HeadPtr) (xs : List HeadPtr)
    → All (λ x. s.b_count x ≡ 0 → (b ≢ 0) × (badness s b ≤ badness s x)) xs
    → All (λ x. s.b_count x ≡ 0 → badness s b ≤ badness s x) xs
drop_first s b [] all = tt
drop_first s b (x ∷ xs) all = (λ c. (all.0 c).1, drop_first s b xs all.1)

Picked-taken :
    (s : Cache) (x bh b : HeadPtr) (xs : List HeadPtr)
    → is_better s x bh ≡ true
    → x ≢ 0
    → Picked s x xs b
    → Picked s bh (x ∷ xs) b
Picked-taken s x bh b xs t nz (keeps all) =
    takes x (inl refl) (ground arith) (λ ne. ground arith) (λ c. omega arith, drop_first s x xs all)
Picked-taken s x bh b xs t nz (takes c mem unused less all) =
    takes c (inr mem) unused (λ ne. ground (arith, less nz)) (λ u. omega (arith, less nz), all)

Picked-passed :
    (s : Cache) (x bh b : HeadPtr) (xs : List HeadPtr)
    → is_better s x bh ≡ false
    → Picked s bh xs b
    → Picked s bh (x ∷ xs) b
Picked-passed s x bh b xs t (keeps all) = keeps (λ c. ground arith, all)
Picked-passed s x bh b xs t (takes c mem unused less all) =
    takes c (inr mem) unused less (λ u. ground (arith, less), all)

-- the head that the search goes on with after `x`
abbrev chosen : Cache → (x bh : HeadPtr) → HeadPtr
chosen s x bh = if is_better s x bh then x else bh

Picked-cons :
    (s : Cache) (x bh b : HeadPtr) (xs : List HeadPtr)
    → x ≢ 0
    → Picked s (chosen s x bh) xs b
    → Picked s bh (x ∷ xs) b
Picked-cons s x bh b xs nz p = elim (Bool-cases (is_better s x bh)) [
  | inl e ↦ Picked-taken s x bh b xs e nz (subst (λ c. Picked s c xs b) (rw e refl) p)
  | inr e ↦ Picked-passed s x bh b xs e (subst (λ c. Picked s c xs b) (rw e refl) p)
]

-- A head of no badness ends the search.
Picked-stop :
    (s : Cache) (x bh : HeadPtr) (xs : List HeadPtr)
    → x ≢ 0
    → (is_better s x bh && badness s x == 0) ≡ true
    → Picked s bh (x ∷ xs) x
Picked-stop s x bh xs nz e =
    takes x (inl refl) (ground arith) (λ ne. ground arith) (All-zero s x (x ∷ xs) (ground arith))

pick-Picked :
    (s : Cache) (f x bh : HeadPtr) (xs : List HeadPtr)
    → s.free_list ≡ f
    → Links s x xs f
    → All (λ y. y ≢ 0) (x ∷ xs)
    → Without f xs
    → (b : HeadPtr) × (pick (length (x ∷ xs)) x bh s ≡ some b) × Picked s bh (x ∷ xs) b
unfolding pick
pick-Picked s f x bh [] head links nz out =
    elim (Bool-cases (is_better s x bh && badness s x == 0)) [
      | inl e ↦ (x, rw e refl, Picked-stop s x bh [] nz.0 e)
      | inr e ↦ (
        chosen s x bh,
        rw (e, eq→== _ s.free_list (links.0 ∙ sym head)) refl,
        Picked-cons s x bh _ [] nz.0 (keeps tt),
      )
    ]
pick-Picked s f x bh (y ∷ ys) head links nz out =
    let (b, eq, p) = pick-Picked s f y (chosen s x bh) ys head links.1 nz.1 out.1 in
    let next : s.b_next_free x ≡ y = links.0.0 in
    let on : (s.b_next_free x == s.free_list) ≡ false = ground (arith, head, next, out.0) in
    elim (Bool-cases (is_better s x bh && badness s x == 0)) [
      | inl e ↦ (x, rw e refl, Picked-stop s x bh (y ∷ ys) nz.0 e)
      | inr e ↦ (
        b,
        rw (e, on) (subst (λ n. pick (length (y ∷ ys)) n (chosen s x bh) s ≡ some b) (sym next) eq),
        Picked-cons s x bh b (y ∷ ys) nz.0 p,
      )
    ]

-- What the search finds in the ring: NULL if all heads are in use, and else an unused one that
-- is no worse than any other unused one.
pub data Choice (s : Cache) (xs : List HeadPtr) : HeadPtr → Type 0 where
  all_used : All (λ x. s.b_count x ≢ 0) xs → Choice s xs 0
  least :
      (b : HeadPtr)
      → In b xs
      → s.b_count b ≡ 0
      → All (λ x. s.b_count x ≡ 0 → badness s b ≤ badness s x) xs
      → Choice s xs b

none_unused :
    (s : Cache) (xs : List HeadPtr)
    → All (λ x. s.b_count x ≡ 0 → (◌≢◌ {A = HeadPtr} 0 0) × (badness s 0 ≤ badness s x)) xs
    → All (λ x. s.b_count x ≢ 0) xs
none_unused s [] all = tt
none_unused s (x ∷ xs) all = (λ e. (all.0 e).0 refl, none_unused s xs all.1)

Picked-Choice : {s : Cache} {xs : List HeadPtr} {b : HeadPtr} → Picked s 0 xs b → Choice s xs b
Picked-Choice {s} {xs} (keeps all) = all_used (none_unused s xs all)
Picked-Choice (takes b mem unused less all) = least b mem unused all

-- For a ring of heads without repetition of the first and without NULL, one round for each head is
-- enough for the search of `getblk`. It gives NULL exactly when every head is in use, and
-- otherwise an unused head of the ring with the least badness.
pub pick-Choice :
    (s : Cache) (f : HeadPtr) (xs : List HeadPtr)
    → IsRing s f xs
    → All (λ y. y ≢ 0) (f ∷ xs)
    → Without f xs
    → (b : HeadPtr) × (pick (length (f ∷ xs)) s.free_list 0 s ≡ some b) × Choice s (f ∷ xs) b
pick-Choice s f xs r nz out =
    let (b, e, p) = pick-Picked s f f 0 xs r.head r.links nz out in
    (b, subst (λ h. pick (length (f ∷ xs)) h 0 s ≡ some b) (sym r.head) e, Picked-Choice p)

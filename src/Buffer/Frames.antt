-- ===== src/Buffer/Frames.antt =====
-- Which part of a cache each step of `getblk` leaves alone: the ring or the hash queues.
use mockos.Prelude.{
  false, ℕ, ◌≡◌, ◌≢◌, refl, sym, ap, subst, ◌∙◌, arith, ◌==◌, List, [], ◌∷◌, ◌++◌, All, inl, inr,
  Distinct, eq→==,
}
use mockos.Buffer.{
  HeadPtr, Cache, remove_from_hash, remove_from_free, insert_into_hash, insert_into_free,
}
use mockos.Buffer.Ring.{
  IsRing, Links, In, Without, remove_from_free-IsRing, remove_from_free_first-IsRing,
}
use mockos.Buffer.Hash.{Queue}
use mockos.Buffer.Hashed.{InPlace, IsHashed, erase, In-Split}
use mockos.Buffer.Getblk.{set_block}

-- The fields that the ring is made of.
pub IsRing-same :
    (s t : Cache) (f : HeadPtr) (xs : List HeadPtr)
    → t.b_next_free ≡ s.b_next_free
    → t.b_prev_free ≡ s.b_prev_free
    → t.free_list ≡ s.free_list
    → IsRing s f xs
    → IsRing t f xs
IsRing-same s t f xs a b c r = record { head = c ∙ r.head; links = links f xs r.links }
  where
    links : (x : HeadPtr) (ys : List HeadPtr) → Links s x ys f → Links t x ys f
    links x [] l = (ap (λ g. g x) a ∙ l.0, ap (λ g. g f) b ∙ l.1)
    links x (y ∷ ys) l = ((ap (λ g. g x) a ∙ l.0.0, ap (λ g. g y) b ∙ l.0.1), links y ys l.1)

pub remove_from_hash-IsRing :
    (s : Cache) (bh f : HeadPtr) (xs : List HeadPtr)
    → IsRing s f xs
    → IsRing (remove_from_hash bh s) f xs
unfolding remove_from_hash
remove_from_hash-IsRing s bh f xs = IsRing-same s _ f xs refl refl refl

-- The head in front of the end of a path is no NULL.
prev_exists :
    (s : Cache) (x e : HeadPtr) (xs : List HeadPtr)
    → All (λ y. y ≢ 0) (x ∷ xs)
    → Links s x xs e
    → s.b_prev_free e ≢ 0
prev_exists s x e [] nz l z = nz.0 (sym l.1 ∙ z)
prev_exists s x e (y ∷ ys) nz l z = prev_exists s y e ys nz.1 l.1 z

prev_inside :
    (s : Cache) (b x e : HeadPtr) (xs : List HeadPtr)
    → All (λ y. y ≢ 0) (x ∷ xs)
    → In b xs
    → Links s x xs e
    → s.b_prev_free b ≢ 0
prev_inside s b x e [] nz i l z = absurd i
prev_inside s b x e (y ∷ ys) nz (inl q) l z = nz.0 (sym l.0.1 ∙ ap s.b_prev_free (sym q) ∙ z)
prev_inside s b x e (y ∷ ys) nz (inr i) l z = prev_inside s b y e ys nz.1 i l.1 z

-- Each head of a ring has one in front of it.
pub IsRing-prev :
    (s : Cache) (b f : HeadPtr) (xs : List HeadPtr)
    → All (λ y. y ≢ 0) (f ∷ xs)
    → In b (f ∷ xs)
    → IsRing s f xs
    → s.b_prev_free b ≢ 0
IsRing-prev s b f xs nz (inl e) r =
    λ z. prev_exists s f f xs nz r.links (ap s.b_prev_free (sym e) ∙ z)
IsRing-prev s b f xs nz (inr i) r = prev_inside s b f f xs nz i r.links

-- A head leaves the free list, a ring of two or more without repetition, from any place: the others
-- are a ring in the order that they had.
pub remove_from_free-erase :
    (s : Cache) (b f z : HeadPtr) (zs : List HeadPtr)
    → Distinct (f ∷ z ∷ zs)
    → In b (f ∷ z ∷ zs)
    → IsRing s f (z ∷ zs)
    → (g : HeadPtr) × (ws : List HeadPtr) × (erase b (f ∷ z ∷ zs) ≡ g ∷ ws)
      × IsRing (remove_from_free b s) g ws
remove_from_free-erase s b f z zs d (inl e) r = (
  z,
  zs,
  rw (eq→== f b (sym e)) refl,
  subst (λ c. IsRing (remove_from_free c s) z zs) (sym e)
      (remove_from_free_first-IsRing s f z zs d.0.0 d.0.1 r),
)
remove_from_free-erase s b f z zs d (inr i) r =
    let p = In-Split b (z ∷ zs) i d.1 in
    let ne : f ≢ b = other (z ∷ zs) i d.0 in
    let no_hit : (f == b) ≡ false = ground (arith, ne) in
    (
      f,
      p.before ++ p.behind,
      rw no_hit (ap (λ l. f ∷ l) p.erased),
      remove_from_free-IsRing s b f p.before p.behind ne p.without (subst (IsRing s f) p.whole r),
    )
  where
    other : (ys : List HeadPtr) → In b ys → Without f ys → f ≢ b
    other [] i out q = i
    other (y ∷ ys) (inl e) out q = out.0 (sym e ∙ sym q)
    other (y ∷ ys) (inr i) out q = other ys i out.1 q

Queue-fields :
    (s t : Cache) (p h : HeadPtr) (xs : List HeadPtr)
    → t.b_prev ≡ s.b_prev
    → t.b_next ≡ s.b_next
    → Queue s p h xs
    → Queue t p h xs
Queue-fields s t p h [] a b q = q
Queue-fields s t p h (x ∷ xs) a b q = (
  q.0,
  q.1,
  ap (λ g. g x) a ∙ q.2,
  subst (λ n. Queue t x n xs) (sym (ap (λ g. g x) b)) (Queue-fields s t x (s.b_next x) xs a b q.3),
)

-- The fields that the hash queues are made of.
pub IsHashed-same :
    (s t : Cache) (q : ℕ → List HeadPtr)
    → t.b_prev ≡ s.b_prev
    → t.b_next ≡ s.b_next
    → t.hash_table ≡ s.hash_table
    → ((i : ℕ) → All (InPlace s i) (q i) → All (InPlace t i) (q i))
    → IsHashed s q
    → IsHashed t q
IsHashed-same s t q a b c place h = record {
  queue = λ i.
      subst (λ k. Queue t 0 k (q i)) (sym (ap (λ g. g i) c))
        (Queue-fields s t 0 _ (q i) a b (h.queue i));
  in_place = λ i. place i (h.in_place i);
  distinct = h.distinct;
}

set_block-InPlace :
    (s : Cache) (bh dev block i : ℕ) (xs : List HeadPtr)
    → Without bh xs
    → All (InPlace s i) xs
    → All (InPlace (set_block bh dev block s) i) xs
set_block-InPlace s bh dev block i [] out all = tt
set_block-InPlace s bh dev block i (x ∷ xs) out all =
    (ground (arith, all.0, out.0), set_block-InPlace s bh dev block i xs out.1 all.1)

-- A head outside the queues gets another block.
pub set_block-IsHashed :
    (s : Cache) (q : ℕ → List HeadPtr) (bh dev block : ℕ)
    → ((i : ℕ) → Without bh (q i))
    → IsHashed s q
    → IsHashed (set_block bh dev block s) q
set_block-IsHashed s q bh dev block out =
    IsHashed-same s (set_block bh dev block s) q refl refl refl
      (λ i. set_block-InPlace s bh dev block i (q i) (out i))

pub remove_from_free-IsHashed :
    (s : Cache) (q : ℕ → List HeadPtr) (bh : HeadPtr)
    → IsHashed s q
    → IsHashed (remove_from_free bh s) q
unfolding remove_from_free
remove_from_free-IsHashed s q bh = IsHashed-same s _ q refl refl refl (λ i all. all)

pub insert_into_free-IsHashed :
    (s : Cache) (q : ℕ → List HeadPtr) (bh : HeadPtr)
    → IsHashed s q
    → IsHashed (insert_into_free bh s) q
unfolding insert_into_free
insert_into_free-IsHashed s q bh = IsHashed-same s _ q refl refl refl (λ i all. all)

pub insert_into_hash-IsRing :
    (s : Cache) (bh f : HeadPtr) (xs : List HeadPtr)
    → IsRing s f xs
    → IsRing (insert_into_hash bh s) f xs
unfolding insert_into_hash
insert_into_hash-IsRing s bh f xs =
    IsRing-same s _ f xs (ground arith) (ground arith) (ground arith)

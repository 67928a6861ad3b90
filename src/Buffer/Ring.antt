-- ===== src/Buffer/Ring.antt =====
-- The free list of fs/buffer.c: a ring of heads through `b_next_free` and `b_prev_free`.
use mockos.Prelude.{◌⊎◌, ◌≡◌, ◌≢◌, refl, arith, List, [], ◌∷◌, ◌++◌, All}
use mockos.Buffer.{HeadPtr, Cache, remove_from_free, insert_into_free}

-- `b` follows `a`.
abbrev pub Linked : Cache → HeadPtr → HeadPtr → Type 0
Linked s a b = (s.b_next_free a ≡ b) × (s.b_prev_free b ≡ a)

-- From `x` the links lead through `xs` to `e`.
abbrev pub Links : Cache → HeadPtr → List HeadPtr → HeadPtr → Type 0
Links s x [] e = Linked s x e
Links s x (y ∷ ys) e = Linked s x y × Links s y ys e

-- The free list is the ring of `f` and `xs`, in this order.
pub record IsRing (s : Cache) (f : HeadPtr) (xs : List HeadPtr) : Type 0 where
  pub head : s.free_list ≡ f
  pub links : Links s f xs f

abbrev pub In : HeadPtr → List HeadPtr → Type 0
In b [] = ⊥
In b (x ∷ xs) = (b ≡ x) ⊎ In b xs

abbrev pub Without : HeadPtr → List HeadPtr → Type 0
Without b = All (λ x. x ≢ b)

-- What the removal of `bh` keeps of the links, and what it makes of its two neighbours.
module _ (bh : HeadPtr) (s : Cache) where
  Linked-kept :
      (a b x y : HeadPtr)
      → Linked s a bh
      → Linked s bh b
      → x ≢ bh
      → y ≢ bh
      → Linked s x y
      → Linked (remove_from_free bh s) x y
  unfolding remove_from_free
  Linked-kept a b x y la lb nx ny l = ground (arith, la, lb, l)

  Linked-joined :
      (a b : HeadPtr) → Linked s a bh → Linked s bh b → a ≢ bh → Linked (remove_from_free bh s) a b
  unfolding remove_from_free
  Linked-joined a b la lb na = ground (arith, la, lb)

neighbours :
    (s : Cache) (bh x e : HeadPtr) (ys zs : List HeadPtr)
    → Links s x (ys ++ bh ∷ zs) e
    → Linked s (s.b_prev_free bh) bh × Linked s bh (s.b_next_free bh)
neighbours s bh x e [] [] l = ((cc, refl), (refl, cc))
neighbours s bh x e [] (z ∷ zs) l = ((cc, refl), (refl, cc))
neighbours s bh x e (y ∷ ys) zs l = neighbours s bh y e ys zs l.1

module _ (bh : HeadPtr) (s : Cache) (la : Linked s (s.b_prev_free bh) bh)
    (lb : Linked s bh (s.b_next_free bh)) where
  Links-kept :
      (x e : HeadPtr) (xs : List HeadPtr)
      → x ≢ bh
      → Without bh xs
      → e ≢ bh
      → Links s x xs e
      → Links (remove_from_free bh s) x xs e
  Links-kept x e [] nx out ne l = Linked-kept bh s _ _ x e la lb nx ne l
  Links-kept x e (y ∷ ys) nx out ne l =
      (Linked-kept bh s _ _ x y la lb nx out.0 l.0, Links-kept y e ys out.0 out.1 ne l.1)

  joined :
      (x y : HeadPtr) → x ≢ bh → Linked s x bh → Linked s bh y → Linked (remove_from_free bh s) x y
  joined x y nx l r = Linked-joined bh s x y l r nx

  Links-removed :
      (x e : HeadPtr) (ys zs : List HeadPtr)
      → x ≢ bh
      → Without bh (ys ++ zs)
      → e ≢ bh
      → Links s x (ys ++ bh ∷ zs) e
      → Links (remove_from_free bh s) x (ys ++ zs) e
  Links-removed x e [] [] nx out ne l = joined x e nx l.0 l.1
  Links-removed x e [] (z ∷ zs) nx out ne l =
      (joined x z nx l.0 l.1.0, Links-kept z e zs out.0 out.1 ne l.1.1)
  Links-removed x e (y ∷ ys) zs nx out ne l =
      (Linked-kept bh s _ _ x y la lb nx out.0 l.0, Links-removed y e ys zs out.0 out.1 ne l.1)

  -- A path that ended at `bh` ends at the head behind it.
  Links-cut :
      (x c : HeadPtr) (xs : List HeadPtr)
      → x ≢ bh
      → Without bh xs
      → Linked s bh c
      → Links s x xs bh
      → Links (remove_from_free bh s) x xs c
  Links-cut x c [] nx out r l = joined x c nx l r
  Links-cut x c (y ∷ ys) nx out r l =
      (Linked-kept bh s _ _ x y la lb nx out.0 l.0, Links-cut y c ys out.0 out.1 r l.1)

-- A head behind the first leaves the ring.
pub remove_from_free-IsRing :
    (s : Cache) (bh f : HeadPtr) (ys zs : List HeadPtr)
    → f ≢ bh
    → Without bh (ys ++ zs)
    → IsRing s f (ys ++ bh ∷ zs)
    → IsRing (remove_from_free bh s) f (ys ++ zs)
unfolding remove_from_free
remove_from_free-IsRing s bh f ys zs ne out r =
    let (la, lb) = neighbours s bh f f ys zs r.links in
    record {
      head = ground (arith, r.head);
      links = Links-removed bh s la lb f f ys zs ne out ne r.links;
    }

ends :
    (s : Cache) (x e : HeadPtr) (xs : List HeadPtr) → Links s x xs e → Linked s (s.b_prev_free e) e
ends s x e [] l = (cc, refl)
ends s x e (y ∷ ys) l = ends s y e ys l.1

-- The first head leaves a ring with others: the ring then starts at the next.
pub remove_from_free_first-IsRing :
    (s : Cache) (f z : HeadPtr) (zs : List HeadPtr)
    → z ≢ f
    → Without f zs
    → IsRing s f (z ∷ zs)
    → IsRing (remove_from_free f s) z zs
unfolding remove_from_free
remove_from_free_first-IsRing s f z zs ne out r =
    let la = ends s f f (z ∷ zs) r.links in
    record {
      head = ground (arith, r.head, r.links.0, la);
      links = Links-cut f s la (refl, cc) z z zs ne out r.links.0 r.links.1;
    }

-- The head `bh` goes behind the last of a ring that it is not in.
module _ (s : Cache) (bh f : HeadPtr) (here : s.free_list ≡ f) (new : f ≢ bh) where
  Linked-inserted :
      (x y : HeadPtr)
      → x ≢ bh
      → y ≢ bh
      → y ≢ f
      → Linked s (s.b_prev_free f) f
      → Linked s x y
      → Linked (insert_into_free bh s) x y
  unfolding insert_into_free
  Linked-inserted x y nx ny nf last l = ground (arith, here, last, l)

  Linked-last :
      (x : HeadPtr)
      → x ≢ bh
      → Linked s x f
      → Linked (insert_into_free bh s) x bh × Linked (insert_into_free bh s) bh f
  unfolding insert_into_free
  Linked-last x nx l = ground (arith, here, l)

  Links-inserted :
      (x : HeadPtr) (xs : List HeadPtr)
      → x ≢ bh
      → Without bh xs
      → Without f xs
      → Links s x xs f
      → Links (insert_into_free bh s) x (xs ++ bh ∷ []) f
  Links-inserted x [] nx out dis l = Linked-last x nx l
  Links-inserted x (y ∷ ys) nx out dis l = (
    Linked-inserted x y nx out.0 dis.0 (ends s y f ys l.1) l.0,
    Links-inserted y ys out.0 out.1 dis.1 l.1,
  )

-- A head that is in no ring goes behind the last head of a ring without repetition.
pub insert_into_free-IsRing :
    (s : Cache) (bh f : HeadPtr) (xs : List HeadPtr)
    → f ≢ bh
    → Without bh xs
    → Without f xs
    → IsRing s f xs
    → IsRing (insert_into_free bh s) f (xs ++ bh ∷ [])
unfolding insert_into_free
insert_into_free-IsRing s bh f xs ne out dis r = record {
  head = r.head;
  links = Links-inserted s bh f r.head ne f xs ne out dis r.links;
}

-- ===== src/Fork/Links.antt =====
-- The links between a new task and its relatives that `copy_process` of kernel/fork.c stores.
use mockos.Prelude.{◌≡◌, ◌≢◌, refl, sym, ap, ◌∙◌, inl, inr, arith, ◌==◌, false, Bool-cases, eq→==}
use mockos.Sched.{TaskPtr}
use mockos.Fork.Task.{Task}
use mockos.Fork.Change.{
  store, set_parent, set_older, set_younger, set_youngest, link_older, link_tasks,
}

module _ (m : TaskPtr → Task) (p : TaskPtr) (t : Task) where
  pub store-same : store m p t p ≡ t
  unfolding store
  store-same = rw (eq→== p p refl) refl

  pub store-other : {q : TaskPtr} → q ≢ p → store m p t q ≡ m q
  unfolding store
  store-other {q} ne = let e : (p == q) ≡ false = ground arith in rw e refl

module _ (c p older : TaskPtr) (m : TaskPtr → Task) where
  link_older-child : p ≢ c → p ≢ older → link_older c p older m p ≡ m p
  unfolding link_older
  link_older-child ne apart = elim (Bool-cases (older == 0)) [
    | inl e ↦ rw e (store-other _ _ _ ne)
    | inr e ↦ rw e (store-other _ _ _ ne ∙ store-other m _ _ apart)
  ]

  link_older-parent : c ≢ older → link_older c p older m c ≡ set_youngest p (m c)
  unfolding link_older
  link_older-parent ne = elim (Bool-cases (older == 0)) [
    | inl e ↦ rw e (store-same _ _ _)
    | inr e ↦ rw e (store-same _ _ _ ∙ ap (set_youngest p) (store-other m _ _ ne))
  ]

  link_older-sibling :
      older ≢ 0 → older ≢ c → link_older c p older m older ≡ set_younger p (m older)
  unfolding link_older
  link_older-sibling exists ne =
      let e : (older == 0) ≡ false = ground arith in rw e (store-other _ _ _ ne ∙ store-same m _ _)

  link_older-other : (q : TaskPtr) → q ≢ c → q ≢ older → link_older c p older m q ≡ m q
  unfolding link_older
  link_older-other q ne apart = elim (Bool-cases (older == 0)) [
    | inl e ↦ rw e (store-other _ _ _ ne)
    | inr e ↦ rw e (store-other _ _ _ ne ∙ store-other m _ _ apart)
  ]

-- For a parent `c` other than the child `p`.
module _ (c p : TaskPtr) (m : TaskPtr → Task) (ne : p ≢ c) where
  abbrev with_parent : TaskPtr → Task
  with_parent = store m p (set_parent c (m p))

  abbrev with_older : TaskPtr → Task
  with_older = store with_parent p (set_older (with_parent c).p_cptr (with_parent p))

  with_parent-c : with_parent c ≡ m c
  with_parent-c = store-other m _ _ (λ e. ne (sym e))

  with_older-child : with_older p ≡ set_older (m c).p_cptr (set_parent c (m p))
  with_older-child =
      store-same with_parent _ _
      ∙ (ap (λ t. set_older t.p_cptr (with_parent p)) with_parent-c
          ∙ ap (set_older (m c).p_cptr) (store-same m _ _))

  with_older-other : (q : TaskPtr) → q ≢ p → with_older q ≡ m q
  with_older-other q n = store-other with_parent _ _ n ∙ store-other m _ _ n

  older_lem : (with_older p).p_osptr ≡ (m c).p_cptr
  unfolding set_older
  older_lem = ap (λ t. t.p_osptr) with_older-child

  link_tasks-link_older : link_tasks c p m ≡ link_older c p (m c).p_cptr with_older
  unfolding link_tasks
  link_tasks-link_older = ap (λ o. link_older c p o with_older) older_lem

  at : (q : TaskPtr) → link_tasks c p m q ≡ link_older c p (m c).p_cptr with_older q
  at q = ap (λ f. f q) link_tasks-link_older

  pub link_tasks-child :
      p ≢ (m c).p_cptr → link_tasks c p m p ≡ set_older (m c).p_cptr (set_parent c (m p))
  link_tasks-child apart = at p ∙ (link_older-child c p _ with_older ne apart ∙ with_older-child)

  pub link_tasks-parent : c ≢ (m c).p_cptr → link_tasks c p m c ≡ set_youngest p (m c)
  link_tasks-parent apart =
      at c
      ∙ (link_older-parent c p _ with_older apart
          ∙ ap (set_youngest p) (with_older-other c (λ e. ne (sym e))))

  pub link_tasks-sibling :
      (m c).p_cptr ≢ 0
      → (m c).p_cptr ≢ c
      → (m c).p_cptr ≢ p
      → link_tasks c p m (m c).p_cptr ≡ set_younger p (m (m c).p_cptr)
  link_tasks-sibling exists loop apart =
      at _
      ∙ (link_older-sibling c p _ with_older exists loop
          ∙ ap (set_younger p) (with_older-other _ apart))

  pub link_tasks-other : (q : TaskPtr) → q ≢ p → q ≢ c → q ≢ (m c).p_cptr → link_tasks c p m q ≡ m q
  link_tasks-other q n other apart =
      at q ∙ (link_older-other c p _ with_older q other apart ∙ with_older-other q n)

-- ===== src/Fork/Return.antt =====
-- The tasks and the counts at the end of `copy_process` of kernel/fork.c, from what `copy_mem` leaves.
use mockos.Mm.Protect.{un_wp_page, lin2phy}
use mockos.Segment.{get_base}
use mockos.Prelude.{
  ◌-◌, ◌<◌, ◌+◌, ◌%◌, ◌^◌, ◌≡◌, ◌≢◌, refl, sym, ap, ◌∙◌, ◌==◌, Bool-cases, inl, inr, ℕ,
}
use mockos.Fork.Child.{
  child_page, IsForkable, child, set_saved, prepare-child, prepare-other, prepared, moved, result,
  parent,
}
use mockos.Sched.{TaskPtr}
use mockos.Fork.Task.{Task}
use mockos.Fork.Links.{
  store-same, store-other, link_tasks-child, link_tasks-parent, link_tasks-sibling,
  link_tasks-other,
}
use mockos.Mm.FreePage.{get_free_page}
use mockos.Fork.Copy.{
  add_files, add_use, round_page, Machine, task_base, save_math, finish_fork, unshare_stack,
  share_files, set_descs, prepare,
}
use mockos.Fork.Change.{
  Regs, store, move_task, start_task, set_math, set_running, set_older, set_parent, set_youngest,
  set_younger, link_tasks,
}
use mockos.Fork.Counts.{uses, inode_uses, stack_page, add_files-uses, add_inodes-uses}

-- The tasks at the return of `copy_mem`.
module _ (nr : ℕ) (r : Regs) (s : Machine) (f : IsForkable nr s) where
  abbrev at_return : TaskPtr → Task
  at_return = (moved nr (child_page s) f.goes_on.0 (prepared nr r s)).tasks

  at_return-child :
      at_return (child_page s)
      ≡ move_task
          (task_base nr)
          (set_saved s (start_task nr (child_page s) s.last_pid s.jiffies r (parent s)))
  at_return-child =
      store-same (prepared nr r s).tasks (child_page s) _
      ∙ ap (move_task (task_base nr))
          (prepare-child nr (child_page s) r (record s { mem = (get_free_page s.mem).1 }))

  at_return-other : (q : TaskPtr) → q ≢ child_page s → at_return q ≡ s.tasks q
  at_return-other q ne =
      store-other (prepared nr r s).tasks (child_page s) _ ne
      ∙ prepare-other nr (child_page s) r (record s { mem = (get_free_page s.mem).1 }) q ne

  abbrev linked : TaskPtr → Task
  linked = link_tasks s.current (child_page s) at_return

  result-tasks :
      (result nr r s f).tasks ≡ store linked (child_page s) (set_running (linked (child_page s)))
  unfolding finish_fork unshare_stack share_files set_descs prepare save_math
  result-tasks = refl

  -- The fields of the child, put together.
  child_fields :
      set_running (
        set_older (parent s).p_cptr (
          set_parent s.current (
            move_task
              (task_base nr)
              (set_saved s (start_task nr (child_page s) s.last_pid s.jiffies r (parent s))))))
      ≡ child nr r s
  unfolding set_running set_older set_parent move_task set_math start_task
  child_fields = elim (Bool-cases (s.last_task_used_math == s.current)) [
    | inl e ↦ rw e refl
    | inr e ↦ rw e refl
  ]

  cptr_lem : (at_return s.current).p_cptr ≡ (parent s).p_cptr
  cptr_lem = ap (λ t. t.p_cptr) (at_return-other s.current f.page_apart)

  abbrev page_ne : child_page s ≢ s.current
  page_ne e = f.page_apart (sym e)

  -- The tasks at the end, one by one.
  at_end : (q : TaskPtr) → q ≢ child_page s → (result nr r s f).tasks q ≡ linked q
  at_end q ne = ap (λ m. m q) result-tasks ∙ store-other linked (child_page s) _ ne

  pub result-child : (result nr r s f).tasks (child_page s) ≡ child nr r s
  result-child =
      ap (λ m. m (child_page s)) result-tasks
      ∙ (store-same linked (child_page s) _
          ∙ (ap set_running (
                link_tasks-child s.current (child_page s) at_return page_ne
                  (λ e. f.child_apart (sym (e ∙ cptr_lem))))
              ∙ (ap
                    (λ o.
                      set_running (set_older o (set_parent s.current (at_return (child_page s)))))
                    cptr_lem
                  ∙ (ap (λ t. set_running (set_older (parent s).p_cptr (set_parent s.current t)))
                        at_return-child
                      ∙ child_fields))))

  pub result-parent :
      (result nr r s f).tasks s.current ≡ record (parent s) { p_cptr = child_page s }
  unfolding set_youngest
  result-parent =
      at_end s.current f.page_apart
      ∙ (link_tasks-parent s.current (child_page s) at_return page_ne
            (λ e. f.no_loop (sym (e ∙ cptr_lem)))
          ∙ ap (set_youngest (child_page s)) (at_return-other s.current f.page_apart))

  pub result-sibling :
      (parent s).p_cptr ≢ 0
      → (result nr r s f).tasks (parent s).p_cptr
        ≡ record (s.tasks (parent s).p_cptr) { p_ysptr = child_page s }
  unfolding set_younger
  result-sibling exists =
      at_end (parent s).p_cptr f.child_apart
      ∙ (ap linked (sym cptr_lem)
          ∙ (link_tasks-sibling s.current (child_page s) at_return page_ne
                (λ e. exists (sym cptr_lem ∙ e)) (λ e. f.no_loop (sym cptr_lem ∙ e))
                (λ e. f.child_apart (sym cptr_lem ∙ e))
              ∙ (ap (λ q. set_younger (child_page s) (at_return q)) cptr_lem
                  ∙ ap (set_younger (child_page s))
                      (at_return-other (parent s).p_cptr f.child_apart))))

  pub result-other :
      (q : TaskPtr)
      → q ≢ child_page s
      → q ≢ s.current
      → q ≢ (parent s).p_cptr
      → (result nr r s f).tasks q ≡ s.tasks q
  result-other q ne other apart =
      at_end q ne
      ∙ (link_tasks-other s.current (child_page s) at_return page_ne q ne other
            (λ e. apart (e ∙ cptr_lem))
          ∙ at_return-other q ne)

  -- What the rest of the call reads of the child and of the parent.
  child-ldt : (at_return (child_page s)).ldt 2 ≡ (child nr r s).ldt 2
  unfolding set_running set_older set_parent
  child-ldt = ap (λ t. t.ldt 2) at_return-child ∙ ap (λ t. t.ldt 2) child_fields

  child-filp : (at_return (child_page s)).filp ≡ (parent s).filp
  unfolding set_running set_older set_parent
  child-filp = ap (λ t. t.filp) at_return-child ∙ ap (λ t. t.filp) child_fields

  pub result-mem :
      (result nr r s f).mem
      ≡ un_wp_page (lin2phy f.goes_on.0 (stack_page r.esp (child nr r s))) f.goes_on.0
  unfolding finish_fork unshare_stack share_files set_descs
  result-mem =
      ap
        (λ d.
          un_wp_page
            (lin2phy f.goes_on.0 ((round_page r.esp + get_base d + 2 ^ 32 - 4096) % 2 ^ 32))
            f.goes_on.0)
        child-ldt

  pub result-files :
      (q : ℕ)
      → q ≢ 0
      → s.f_count q < 2 ^ 16
      → (result nr r s f).f_count q ≡ (s.f_count q + uses q (parent s).filp 20 0) % 2 ^ 16
  unfolding finish_fork unshare_stack share_files set_descs prepare save_math
  result-files q exists small =
      ap (λ filp. add_files 20 0 filp s.f_count q) child-filp
      ∙ add_files-uses 20 0 (parent s).filp s.f_count q exists small

  pub result-inodes :
      (q : ℕ)
      → q ≢ 0
      → s.i_count q < 2 ^ 16
      → (result nr r s f).i_count q ≡ (s.i_count q + inode_uses q (parent s)) % 2 ^ 16
  unfolding finish_fork unshare_stack share_files set_descs prepare save_math
  result-inodes q exists small =
      ap
        (λ c. add_use c.library (add_use c.executable (add_use c.root (add_use c.pwd s.i_count))) q)
        (at_return-other s.current f.page_apart)
      ∙ add_inodes-uses (parent s).library (parent s).executable (parent s).root (parent s).pwd
          s.i_count q exists small

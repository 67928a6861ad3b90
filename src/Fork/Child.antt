-- ===== src/Fork/Child.antt =====
-- What `copy_process` of kernel/fork.c leaves: the child and its relatives.
use mockos.Fork.Links.{store-same, store-other, store-same, store-other}
use mockos.Prelude.{
  subst, ltb, ℕ, ◌+◌, ◌*◌, ◌%◌, ◌^◌, ◌≤◌, ◌≡◌, ◌≢◌, ◌⊎◌, inl, inr, refl, sym, ap, ◌∙◌, arith, ◌==◌,
  ltb, true, false, if◌then◌else◌, Bool-cases,
}
use mockos.Mm.State.{Mem}
use mockos.Mm.FreePage.{get_free_page, get_free_page-ne-zero}
use mockos.Mm.Tables.{Outcome, copied, out_of_memory, copy_page_tables}
use mockos.Sched.{TaskPtr, running}
use mockos.Segment.{get_base, set_base}
use mockos.Fork.Task.{Task}
use mockos.Fork.Copy.{
  edit, went_on, edit, Machine, get_limit, went_on, task_base, copy_mem, save_math, forked,
  finish_fork, after_copy_mem, prepare, copy_process,
}
use mockos.Fork.Change.{move_task, store, set_math, Regs, move_task, start_task}

-- The page that `copy_process` takes for the child, and the memory after that.
abbrev pub child_page : Machine → TaskPtr
child_page s = (get_free_page s.mem).0

abbrev pub parent : Machine → Task
parent s = s.tasks s.current

-- What the copying of the page tables gives.
abbrev pub copied_tables : ℕ → Machine → Outcome
copied_tables nr s =
    copy_page_tables (get_base ((parent s).ldt 2)) (task_base nr) (get_limit ((parent s).ldt 2))
      (get_free_page s.mem).1

-- No call of `panic` is on the way, and the child's page holds neither the parent nor the parent's
-- youngest child.
pub record IsForkable (nr : ℕ) (s : Machine) : Type 0 where
  pub one_space : get_base ((parent s).ldt 2) ≡ get_base ((parent s).ldt 1)
  pub fits : get_limit ((parent s).ldt 1) ≤ get_limit ((parent s).ldt 2)
  pub goes_on :
      (m : Mem) × ((copied_tables nr s ≡ copied m) ⊎ (copied_tables nr s ≡ out_of_memory m))
  pub page_apart : s.current ≢ child_page s
  pub child_apart : (parent s).p_cptr ≢ child_page s
  pub no_loop : (parent s).p_cptr ≢ s.current

-- The child, as a change of its parent: all that is not named is inherited.
abbrev pub child : ℕ → Regs → Machine → Task
child nr r s = record (parent s) {
  state = running;
  counter = (parent s).priority;
  signal = 0;
  start_code = task_base nr;
  pid = s.last_pid;
  leader = 0;
  p_pptr = s.current;
  p_cptr = 0;
  p_ysptr = 0;
  p_osptr = (parent s).p_cptr;
  alarm = 0;
  utime = 0;
  stime = 0;
  cutime = 0;
  cstime = 0;
  start_time = s.jiffies;
  ldt = λ i.
      if 2 == i
      then set_base ((parent s).ldt 2) (task_base nr)
      else if 1 == i
      then set_base ((parent s).ldt 1) (task_base nr)
      else (parent s).ldt i;
  tss = record (parent s).tss {
    back_link = 0;
    esp0 = (4096 + child_page s) % 2 ^ 32;
    ss0 = 16;
    eip = r.eip;
    eflags = r.eflags;
    eax = 0;
    ecx = r.ecx;
    edx = r.edx;
    ebx = r.ebx;
    esp = r.esp;
    ebp = r.ebp;
    esi = r.esi;
    edi = r.edi;
    es = r.es % 2 ^ 16;
    cs = r.cs % 2 ^ 16;
    ss = r.ss % 2 ^ 16;
    ds = r.ds % 2 ^ 16;
    fs = r.fs % 2 ^ 16;
    gs = r.gs % 2 ^ 16;
    ldt = nr * 16 + 40;
    trace_bitmap = 2 ^ 31;
    i387 = if s.last_task_used_math == s.current then s.math else (parent s).tss.i387;
  };
}

-- The child at the point where `copy_mem` is called.
abbrev pub set_saved : Machine → Task → Task
set_saved s t = if s.last_task_used_math == s.current then set_math s.math t else t

pub prepare-child :
    (nr : ℕ) (p : TaskPtr) (r : Regs) (s : Machine)
    → (prepare nr p r s).tasks p ≡ set_saved s (start_task nr p s.last_pid s.jiffies r (parent s))
unfolding prepare save_math
prepare-child nr p r s = elim (Bool-cases (s.last_task_used_math == s.current)) [
  | inl e ↦ rw e (store-same _ p _ ∙ ap (set_math s.math) (started s))
  | inr e ↦ rw e (started s)
]
  where
    started :
        (s : Machine)
        → store
            (store s.tasks p (parent s))
            p
            (start_task nr p s.last_pid s.jiffies r (store s.tasks p (parent s) p))
            p
          ≡ start_task nr p s.last_pid s.jiffies r (parent s)
    started s =
        store-same _ p _
        ∙ ap (start_task nr p s.last_pid s.jiffies r) (store-same s.tasks p (parent s))

pub prepare-other :
    (nr : ℕ) (p : TaskPtr) (r : Regs) (s : Machine) (q : TaskPtr)
    → q ≢ p
    → (prepare nr p r s).tasks q ≡ s.tasks q
unfolding prepare save_math
prepare-other nr p r s q ne = elim (Bool-cases (s.last_task_used_math == s.current)) [
  | inl e ↦ rw e (store-other _ p _ ne ∙ (store-other _ p _ ne ∙ store-other _ p _ ne))
  | inr e ↦ rw e (store-other _ p _ ne ∙ store-other _ p _ ne)
]

-- The state that `copy_mem` leaves when it returns, with the memory `m`.
abbrev pub moved : ℕ → TaskPtr → Mem → Machine → Machine
moved nr p m s = record (edit p (move_task (task_base nr)) s) { mem = m }

copy_mem-went_on :
    (nr : ℕ) (p : TaskPtr) (m : Mem) (s : Machine)
    → get_base ((parent s).ldt 2) ≡ get_base ((parent s).ldt 1)
    → get_limit ((parent s).ldt 1) ≤ get_limit ((parent s).ldt 2)
    → let o =
        copy_page_tables
          (get_base ((parent s).ldt 2))
          (task_base nr)
          (get_limit ((parent s).ldt 2))
          s.mem in
      (o ≡ copied m) ⊎ (o ≡ out_of_memory m) → copy_mem nr p s ≡ went_on (moved nr p m s)
unfolding copy_mem
copy_mem-went_on nr p m s base fits goes =
    let e : (get_base ((parent s).ldt 2) == get_base ((parent s).ldt 1)) ≡ true = ground arith in
    let f : ltb (get_limit ((parent s).ldt 2)) (get_limit ((parent s).ldt 1)) ≡ false =
      ground arith in
    rw (e, f) (elim goes [ inl h ↦ rw h refl | inr h ↦ rw h refl ])

-- The state at the call of `copy_mem`.
abbrev pub prepared : ℕ → Regs → Machine → Machine
prepared nr r s = prepare nr (child_page s) r (record s { mem = (get_free_page s.mem).1 })

pub prepared-parent :
    (nr : ℕ) (r : Regs) (s : Machine)
    → s.current ≢ child_page s
    → parent (prepared nr r s) ≡ parent s
unfolding prepare save_math
prepared-parent nr r s ne =
    prepare-other nr (child_page s) r (record s { mem = (get_free_page s.mem).1 }) s.current ne

copy_mem-prepared :
    (nr : ℕ) (r : Regs) (s : Machine) (f : IsForkable nr s)
    → copy_mem nr (child_page s) (prepared nr r s)
      ≡ went_on (moved nr (child_page s) f.goes_on.0 (prepared nr r s))
unfolding prepare save_math
copy_mem-prepared nr r s f =
    let e = prepared-parent nr r s f.page_apart in
    copy_mem-went_on nr (child_page s) f.goes_on.0 (prepared nr r s)
      (subst (λ t. get_base (t.ldt 2) ≡ get_base (t.ldt 1)) (sym e) f.one_space)
      (subst (λ t. get_limit (t.ldt 1) ≤ get_limit (t.ldt 2)) (sym e) f.fits)
      (subst
        (λ t.
          let o =
            copy_page_tables (get_base (t.ldt 2)) (task_base nr) (get_limit (t.ldt 2))
              (get_free_page s.mem).1 in
          (o ≡ copied f.goes_on.0) ⊎ (o ≡ out_of_memory f.goes_on.0))
        (sym e) f.goes_on.1)

abbrev pub result : (nr : ℕ) (r : Regs) (s : Machine) → IsForkable nr s → Machine
result nr r s f =
    finish_fork nr (child_page s) r (moved nr (child_page s) f.goes_on.0 (prepared nr r s))

pub copy_process-result :
    (nr : ℕ) (r : Regs) (s : Machine) (f : IsForkable nr s)
    → copy_process nr r s ≡ forked s.last_pid (result nr r s f)
unfolding copy_process prepare save_math
copy_process-result nr r s f =
    let e : (child_page s == 0) ≡ false = ground (arith, get_free_page-ne-zero s.mem) in
    rw e (ap (after_copy_mem nr (child_page s) r) (copy_mem-prepared nr r s f))

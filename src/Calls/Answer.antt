-- ===== src/Calls/Answer.antt =====
-- `fork()` of init/main.c: the wrapper of include/unistd.h, the call through the table, and `sys_fork`.
use mockos.Prelude.{ap, ℕ, ◌-◌, ◌^◌, ◌<◌, ◌≡◌, refl, ◌∙◌, arith, Option, none, some, ltb, true}
use mockos.Calls.{Call, nr, stub, Registers, call_function, system_call, wrapped, answer, syscall0}
use mockos.Calls.Table.{sys_call_table-nr}
use mockos.Fork.Copy.{Machine, Forked, retry, forked, panicked}
use mockos.Fork.Change.{Regs}
use mockos.Fork.Child.{parent}
use mockos.Fork.System.{sys_fork}
use mockos.Fork.Spawn.{CanFork, Ends, born, table_full, sys_fork-Ends}
use mockos.Fork.Table.{Spawns, entry, entries, after, Ends-Spawns}

-- The number in `eax` behind `sys_fork`, -EAGAIN for `retry`; a panic does not return.
abbrev pub fork_result : Forked → Option (ℕ × Machine)
fork_result (retry s) = some (2 ^ 32 - 11, s)
fork_result (forked p s) = some (p, s)
fork_result (panicked e s) = none

-- The calls on the machine: `frame` are the arguments of `copy_process` that the entry has pushed, and
-- `others` the calls but fork.
unfoldable pub machine_call :
    (others : Call → Registers → Machine → Option (ℕ × Machine)) (frame : Regs)
    → Call
    → Registers
    → Machine
    → Option (ℕ × Machine)
machine_call others frame Call.sys_fork regs s = elim (sys_fork frame s) [
  | none ↦ none
  | some f ↦ fork_result f
]
machine_call others frame c regs s = others c regs s

-- A call by its number is the call of the function.
system_call-nr :
    {S : Type 0} (bodies : Call → Registers → S → Option (ℕ × S)) (c : Call) (regs : Registers)
    (s : S)
    → system_call bodies (nr c) regs s ≡ call_function bodies c regs s
unfolding system_call
system_call-nr {S} bodies c regs s = ap called (sys_call_table-nr.0 c)
  where
    called : Option Call → Option (ℕ × S)
    called o = elim o [ none ↦ none | some d ↦ call_function bodies d regs s ]

fork-answer :
    (others : Call → Registers → Machine → Option (ℕ × Machine)) (frame : Regs) (regs : Registers)
    (errno : ℕ) (s : Machine) (f : Forked)
    → sys_fork frame s ≡ some f
    → syscall0 (machine_call others frame) Call.sys_fork regs errno s ≡ answer errno (fork_result f)
unfolding syscall0 call_function machine_call stub
fork-answer others frame regs errno s f e =
    ap (answer errno)
      (system_call-nr (machine_call others frame) Call.sys_fork regs s ∙ ap result e)
  where
    result : Option Forked → Option (ℕ × Machine)
    result o = elim o [ none ↦ none | some g ↦ fork_result g ]

-- What the caller of `fork()` gets, and the table behind the call: the number of a new process with
-- `errno` kept, or -1 with `errno` EAGAIN and no new process.
pub data Answers (s t : Machine) (errno : ℕ) : (value errno' : ℕ) → Type 0 where
  child :
      (p : ℕ)
      → Spawns (entries s) (entry (parent s)) (entries t) (some p)
      → Answers s t errno p errno
  refused :
      Spawns (entries s) (entry (parent s)) (entries t) none → Answers s t errno (2 ^ 32 - 1) 11

Ends-Answers :
    (frame : Regs) (errno : ℕ) (s : Machine) (f : Forked)
    → CanFork s
    → Ends frame s f
    → (value errno' : ℕ) × (answer errno (fork_result f) ≡ some (value, errno', after f))
      × Answers s (after f) errno value errno'
unfolding wrapped
Ends-Answers frame errno s _ can (born nr p t lo hi empty before pos small unborne b) =
    let e : ltb p (2 ^ 31) ≡ true = ground arith in
    (
      p,
      errno,
      rw e refl,
      child p (
          Ends-Spawns frame s (forked p t) can
            (born nr p t lo hi empty before pos small unborne b)),
    )
Ends-Answers frame errno s _ can (table_full p small unborne all) = (
  2 ^ 32 - 1,
  11,
  refl,
  refused (
      Ends-Spawns frame s (retry (record s { last_pid = p })) can (table_full p small unborne all)),
)

-- Under the conditions of a fork and from a `last_pid` below 2 ^ 31, a user's call of `fork()` returns. Either
-- its value is the number of a new process in the first free slot, as fork is to make it, and `errno`
-- is kept; or all slots from 1 on are taken, no entry of the table changes, the value is -1 and
-- `errno` is EAGAIN, 11.
pub fork-Answers :
    (others : Call → Registers → Machine → Option (ℕ × Machine)) (frame : Regs) (regs : Registers)
    (errno : ℕ) (s : Machine)
    → CanFork s
    → s.last_pid < 2 ^ 31
    → (value errno' : ℕ) × (t : Machine) × (syscall0
          (machine_call others frame)
          Call.sys_fork
          regs
          errno
          s
        ≡ some (value, errno', t))
      × Answers s t errno value errno'
fork-Answers others frame regs errno s can small =
    let (f, e, ends) = sys_fork-Ends frame s can small in
    let (value, errno', ran, answered) = Ends-Answers frame errno s f can ends in
    (value, errno', after f, fork-answer others frame regs errno s f e ∙ ran, answered)

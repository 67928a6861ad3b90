-- ===== src/Tests/Calls.antt =====
-- System calls through the wrappers of include/unistd.h, with a counter of the calls as the state.
use mockos.Prelude.{ℕ, ◌+◌, ◌-◌, ◌^◌, ◌≡◌, refl, Option, none, some}
use mockos.Calls.{
  Call, sys_klock, sys_fork, sys_write, Registers, nr, stub, call_function, system_call, wrapped,
  syscall0, syscall1,
}

-- The calls that are no stubs fail with -11, but for `sys_klock`, which returns its argument.
abbrev bodies : Call → Registers → ℕ → Option (ℕ × ℕ)
bodies sys_klock regs n = some (regs.ebx, n + 1)
bodies c regs n = some (2 ^ 32 - 11, n + 1)

abbrev no_registers : Registers
no_registers = record { ebx = 0; ecx = 0; edx = 0 }

fork_fails : syscall0 bodies sys_fork no_registers 2 0 ≡ some (2 ^ 32 - 1, 11, 1)
unfolding syscall0 system_call call_function nr stub wrapped
fork_fails = refl

klock_returns : syscall1 bodies sys_klock 5 no_registers 2 0 ≡ some (5, 2, 1)
unfolding syscall1 system_call call_function nr stub wrapped
klock_returns = refl

write_is_stub : syscall0 bodies sys_write no_registers 2 0 ≡ some (0, 2, 0)
unfolding syscall0 system_call call_function nr stub wrapped
write_is_stub = refl

-- A number behind the table.
behind_table : system_call bodies 90 no_registers 0 ≡ none
unfolding system_call
behind_table = refl

-- ===== src/Calls/Basic.antt =====
-- zeos/sys.c: `check_fd`, `sys_ni_syscall`, `sys_gettime`, `sys_getpid` and `ret_from_fork`.
use zeos_soa.Prelude.{ℕ, not, ◌==◌, if◌then◌else◌}
use zeos_soa.Prelude.Int.{ℤ, pos, neg, eq_ℤ}
use zeos_soa.Kernel.{Kernel}

-- `ESCRIPTURA`
abbrev pub escriptura : ℕ
escriptura = 1

-- -9 is `-EBADF` and -13 is `-EACCES`.
unfoldable pub check_fd : (fd : ℤ) → (permissions : ℕ) → ℤ
check_fd fd permissions =
    if not (eq_ℤ fd (pos 1))
    then neg 9
    else if not (permissions == escriptura)
    then neg 13
    else pos 0

unfoldable pub sys_ni_syscall : ℤ
sys_ni_syscall = neg 38

unfoldable pub sys_gettime : Kernel → ℕ
sys_gettime k = k.zeos_ticks

unfoldable pub sys_getpid : Kernel → ℤ
sys_getpid k = (k.tasks k.current).pid

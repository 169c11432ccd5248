-- ===== src/Syscalls.antt =====
-- tb/prog/syscalls.c, the C library's system calls for the RV32 test programs, and tb/prog/test.c.
--
-- `int`, `long` and `off_t` results are signed integers, pointers are numbers below 2 ^ 32, and
-- `char` is unsigned, as on RISC-V. A store through a `volatile` pointer is a pair of address and
-- word in `stores`, the oldest first. The linker's symbols `__heap_start` and `__heap_end` are
-- parameters of the calls that read them.
pub mod Console
pub mod Heap
pub mod Stubs
mod Tests
use jtag_debug_module_for_ri.Common.{
  ℕ, zero, suc, ◌+◌, ◌%◌, ◌^◌, ◌≡◌, Bool, true, Option, some, none, List, [], ◌∷◌, ◌++◌, map, ltb,
  ◌==◌, if◌then◌else◌,
}
use jtag_debug_module_for_ri.Common.Int.{ℤ, pos, negsuc, to_word, of_word}

abbrev pub stdout_reg : ℕ
stdout_reg = 0x10000000

abbrev pub exit_reg : ℕ
exit_reg = 0x20000004

abbrev pub stdout_fileno : ℕ
stdout_fileno = 1

-- errno.h and sys/stat.h of newlib
abbrev pub enoent : ℕ
enoent = 2

abbrev pub echild : ℕ
echild = 10

abbrev pub eagain : ℕ
eagain = 11

abbrev pub enomem : ℕ
enomem = 12

abbrev pub einval : ℕ
einval = 22

abbrev pub emlink : ℕ
emlink = 31

abbrev pub enosys : ℕ
enosys = 88

abbrev pub s_ifchr : ℕ
s_ifchr = 0o20000

abbrev pub minus_one : ℤ
minus_one = negsuc 0

-- `-n` for a positive constant
abbrev pub negated : ℕ → ℤ
negated zero = pos 0
negated (suc n) = negsuc n

pub record Sys : Type 0 where
  pub errno : ℤ
  pub brk : ℕ
  pub stores : List (ℕ × ℕ)
  -- set by `wfi`: the core sleeps until an interrupt
  pub waiting : Bool

pub store_word : ℕ → ℕ → Sys → Sys
store_word addr v s = record s { stores = s.stores ++ (addr, v) ∷ [] }

-- `errno = e; return -1;`
pub refuse : ℤ → Sys → ℤ × Sys
refuse e s = (minus_one, record s { errno = e })

-- The calls that take no part of the machine but `errno`, by the name of the C function without
-- its underscore. What they are passed is never read.
pub data Stub : Type 0 where
  nanosleep access chdir chmod chown close execve faccessat fork fstatat ftime getcwd : Stub
  getpid gettimeofday kill link lseek lstat open_file openat read sysconf times : Stub
  unlink utime wait : Stub

unfoldable pub call : Stub → Sys → ℤ × Sys
unfolding refuse
call nanosleep s = refuse (pos enosys) s
call access s = refuse (pos enosys) s
call chdir s = refuse (pos enosys) s
call chmod s = refuse (pos enosys) s
call chown s = refuse (pos enosys) s
call close s = (minus_one, s)
call execve s = refuse (pos enomem) s
call faccessat s = refuse (pos enosys) s
call fork s = refuse (pos eagain) s
call fstatat s = refuse (pos enosys) s
call ftime s = refuse (pos enosys) s
call getcwd s = (pos 0, record s { errno = negated enosys })
call getpid s = (pos 1, s)
call gettimeofday s = refuse (negated enosys) s
call kill s = refuse (pos einval) s
call link s = refuse (pos emlink) s
call lseek s = (pos 0, s)
call lstat s = refuse (pos enosys) s
call open_file s = (minus_one, s)
call openat s = refuse (pos enosys) s
call read s = (pos 0, s)
call sysconf s = (minus_one, s)
call times s = (minus_one, s)
call unlink s = refuse (pos enoent) s
call utime s = refuse (pos enosys) s
call wait s = refuse (pos echild) s

-- `_fstat` and `_stat`: the result, and what `st->st_mode` is set to.
unfoldable pub fstat : ℤ → ℤ × ℕ
fstat file = (pos 0, s_ifchr)

unfoldable pub stat : ℤ × ℕ
stat = (pos 0, s_ifchr)

-- `file == n`
abbrev pub is_file : ℤ → ℕ → Bool
is_file file n = to_word file == n

unfoldable pub isatty : ℤ → ℤ
isatty file = pos (if is_file file stdout_fileno then 1 else 0)

unfoldable pub exit : ℤ → Sys → Sys
unfolding store_word
exit exit_status s = record (store_word exit_reg (to_word exit_status) s) { waiting = true }

-- `while (*p) *STDOUT_REG = *(p++);` over the bytes from `p` on; `none` is a read past them.
pub print : List ℕ → Sys → Option Sys
print [] s = none
print (c ∷ p) s = let rest = print p (store_word stdout_reg c s) in if c == 0 then some s else rest

-- `ptr != eptr` runs until the pointers meet, so the loop takes fuel; `mem` is the memory by byte.
pub write_loop : (ℕ → ℕ) → ℕ → ℕ → ℕ → Sys → Option Sys
write_loop mem zero ptr eptr s = none
write_loop mem (suc fuel) ptr eptr s =
    let rest = write_loop mem fuel ((ptr + 1) % 2 ^ 32) eptr (store_word stdout_reg (mem ptr) s) in
    if ptr == eptr then some s else rest

pub write : (ℕ → ℕ) → ℤ → ℕ → ℕ → Sys → Option (ℤ × Sys)
write mem file ptr len s =
    if is_file file stdout_fileno
    then elim (write_loop mem (suc len) ptr ((ptr + len) % 2 ^ 32) s) [
      | some t ↦ some (of_word len, t)
      | none ↦ none
    ]
    else some (refuse (pos enosys) s)

unfoldable pub brk : ℕ → Sys → ℤ × Sys
brk addr s = (pos 0, record s { brk = addr })

-- `p + incr` on a `char *`
abbrev pub ptr_add : ℕ → ℤ → ℕ
ptr_add p incr = (p + to_word incr) % 2 ^ 32

-- `if ((brk += incr) < __heap_end) brk += incr; else brk = __heap_end;`
abbrev pub moved : ℕ → ℤ → ℕ → ℕ
moved heap_end incr old =
    if ltb (ptr_add old incr) heap_end then ptr_add (ptr_add old incr) incr else heap_end

unfoldable pub sbrk : ℕ → ℕ → ℤ → Sys → ℕ × Sys
sbrk heap_start heap_end incr s =
    if heap_start == heap_end then (0, s) else (s.brk, record s { brk = moved heap_end incr s.brk })

-- `while (msg[i]) i++;` of test.c, over the bytes from `msg + i` on; `none` is a read past them.
pub count_from : List ℕ → ℕ → Option ℕ
count_from [] i = none
count_from (c ∷ msg) i = let rest = count_from msg (i + 1) in if c == 0 then some i else rest

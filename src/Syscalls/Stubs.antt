-- ===== src/Syscalls/Stubs.antt =====
-- The calls of tb/prog/syscalls.c that are not implemented.
use jtag_debug_module_for_ri.Common.{ℕ, ◌-◌, ◌≡◌, refl, List, [], ◌∷◌, map}
use jtag_debug_module_for_ri.Common.Int.{ℤ, pos, negsuc}
use jtag_debug_module_for_ri.Syscalls.{
  Sys, Stub, close, execve, fork, getcwd, getpid, gettimeofday, kill, link, lseek, open_file, read,
  sysconf, times, unlink, wait, call,
}

-- How a stub tells its caller that it does nothing.
pub data Reply : Type 0 where
  -- A result, and `errno` as it was.
  result : ℤ → Reply
  -- The result -1, and this error number.
  error : ℕ → Reply
  -- A result, and the error number that POSIX calls for with its sign changed.
  negative_error : ℤ → ℕ → Reply

-- The calls by their reply, with newlib's error numbers; every call without a row of its own is
-- refused as not implemented (ENOSYS, 88).
abbrev pub reply : Stub → Reply
reply getpid = result (pos 1)
reply lseek = result (pos 0)
reply read = result (pos 0)
reply close = result (negsuc 0)
reply open_file = result (negsuc 0)
reply sysconf = result (negsuc 0)
reply times = result (negsuc 0)
reply unlink = error 2
reply wait = error 10
reply fork = error 11
reply execve = error 12
reply kill = error 22
reply link = error 31
reply getcwd = negative_error (pos 0) 88
reply gettimeofday = negative_error (negsuc 0) 88
reply _ = error 88

abbrev pub result_of : Reply → ℤ
result_of (result r) = r
result_of (error e) = negsuc 0
result_of (negative_error r e) = r

-- `errno` after a reply, from `errno` before it.
abbrev pub errno_of : Reply → ℤ → ℤ
errno_of (result r) old = old
errno_of (error e) old = pos e
errno_of (negative_error r e) old = negsuc (e - 1)

-- A stub replies as the table says, and leaves the break, the output and the core alone.
pub call-reply :
    (c : Stub) (s : Sys)
    → call c s ≡ (result_of (reply c), record s { errno = errno_of (reply c) s.errno })
unfolding call
call-reply getcwd s = refl
call-reply close s = refl
call-reply _ s = refl

-- Stubs called one after the other, with the results in order.
abbrev pub calls : List Stub → Sys → List ℤ × Sys
calls [] s = ([], s)
calls (c ∷ cs) s = let (r, t) = call c s in let (rs, u) = calls cs t in (r ∷ rs, u)

-- `errno` after replies in a row: the last one that gives an error number decides.
abbrev pub last_errno : List Reply → ℤ → ℤ
last_errno [] e = e
last_errno (r ∷ rs) e = last_errno rs (errno_of r e)

-- Over any row of calls that are not implemented, each gives the result of its row in the table:
-- 1 for `_getpid`, 0 for `_lseek` and `_read`, NULL for `_getcwd`, and -1 for all others. `errno` is
-- the number of the last call that stores one: the table's number as it is, but with its sign
-- changed for `_getcwd` and `_gettimeofday`; the calls that succeed, and `_close`, `_open`,
-- `_sysconf` and `_times`, store none. The break, the output and the core are left alone.
pub calls-reply :
    (cs : List Stub) (s : Sys)
    → calls cs s
      ≡ (map (λ c. result_of (reply c)) cs, record s { errno = last_errno (map reply cs) s.errno })
calls-reply [] s = refl
calls-reply (c ∷ cs) s =
    rw (call-reply c s, calls-reply cs (record s { errno = errno_of (reply c) s.errno })) refl

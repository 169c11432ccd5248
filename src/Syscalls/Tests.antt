-- ===== src/Syscalls/Tests.antt =====
-- The theorems on syscalls.c and test.c at concrete inputs.
use jtag_debug_module_for_ri.Common.{
  ℕ, ◌+◌, ◌*◌, ◌<◌, ◌≡◌, refl, true, false, some, List, [], ◌∷◌, ◌++◌, arith, ltb, if◌then◌else◌,
}
use jtag_debug_module_for_ri.Common.Int.{pos, negsuc}
use jtag_debug_module_for_ri.Syscalls.{
  Sys, stdout_reg, exit_reg, getcwd, getpid, kill, minus_one, print, write, brk, sbrk, count_from,
  fstat, stat, isatty, exit, s_ifchr,
}
use jtag_debug_module_for_ri.Syscalls.Console.{
  show, write_lem, print-show, count_from-length, AllNonzero,
}
use jtag_debug_module_for_ri.Syscalls.Heap.{
  IsWithin, sbrk_grow, sbrk_overrun, sbrks, sbrks-twice_apart,
}
use jtag_debug_module_for_ri.Syscalls.Stubs.{calls, calls-reply}

-- A heap of 0x400 bytes, as link.ld has it.
abbrev heap_start : ℕ
heap_start = 0x2000

abbrev heap_end : ℕ
heap_end = 0x2400

abbrev boot : Sys
boot = record { errno = pos 0; brk = heap_start; stores = []; waiting = false }

boot-IsWithin : IsWithin heap_start heap_end boot
boot-IsWithin = omega arith

sbrk_grow_example : sbrk heap_start heap_end (pos 16) boot ≡ (
  heap_start,
  record boot { brk = if ltb (heap_start + 16) heap_end then heap_start + 2 * 16 else heap_end },
)
sbrk_grow_example = sbrk_grow heap_start heap_end 16 boot boot-IsWithin (omega arith) (omega arith)

-- 0x300 bytes of the 0x400 are asked for, and the break lands 0x200 bytes past the end.
sbrk_overrun_example :
    let (p, t) = sbrk heap_start heap_end (pos 0x300) boot in (p ≡ heap_start) × (heap_end < t.brk)
sbrk_overrun_example =
    sbrk_overrun heap_start heap_end 0x300 boot boot-IsWithin (omega arith) (omega arith)
      (omega arith)

sbrks-twice_apart_once :
    sbrks heap_start heap_end (16 ∷ 32 ∷ []) boot
    ≡ (0x2000 ∷ 0x2020 ∷ [], record boot { brk = 0x2060 })
sbrks-twice_apart_once =
    sbrks-twice_apart heap_start heap_end (16 ∷ 32 ∷ []) boot boot-IsWithin (omega arith)

abbrev grown : Sys
grown = record boot { brk = 0x2060 }

abbrev byte_of : ℕ → ℕ
byte_of a = if ltb a 0x101 then b'h' else b'i'

write_lem_example :
    write byte_of (pos 1) 0x100 2 boot
    ≡ some (pos 2, record boot { stores = (stdout_reg, b'h') ∷ (stdout_reg, b'i') ∷ [] })
write_lem_example = write_lem byte_of (pos 1) 0x100 2 boot (omega arith) (omega arith)

abbrev hello : List ℕ
hello = b'H' ∷ b'e' ∷ b'l' ∷ b'l' ∷ b'o' ∷ b'!' ∷ []

hello_nonzero : AllNonzero hello
hello_nonzero = omega arith

print-hello : print (hello ++ 0 ∷ []) boot ≡ some (show hello boot)
print-hello = print-show hello [] boot hello_nonzero

-- `main` of test.c
count_hello : count_from (hello ++ 0 ∷ []) 0 ≡ some 6
count_hello = count_from-length hello [] 0 hello_nonzero

calls-reply_example :
    calls (kill ∷ getcwd ∷ getpid ∷ []) boot
    ≡ (negsuc 0 ∷ pos 0 ∷ pos 1 ∷ [], record boot { errno = negsuc 87 })
calls-reply_example = calls-reply (kill ∷ getcwd ∷ getpid ∷ []) boot

small_calls :
    (fstat (pos 0) ≡ (pos 0, s_ifchr))
    × (stat ≡ (pos 0, s_ifchr))
    × (isatty (pos 1) ≡ pos 1)
    × (isatty (pos 2) ≡ pos 0)
    × (exit minus_one boot ≡ record boot { stores = (exit_reg, 0xffff_ffff) ∷ []; waiting = true })
    × (brk 0x2100 boot ≡ (pos 0, record boot { brk = 0x2100 }))
unfolding fstat stat isatty exit brk
small_calls = (refl, refl, refl, refl, refl, refl)

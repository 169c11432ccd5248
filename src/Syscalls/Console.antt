-- ===== src/Syscalls/Console.antt =====
-- The output loops of tb/prog/syscalls.c (`_write`, `unimplemented_syscall`) and the length loop
-- of tb/prog/test.c.
use jtag_debug_module_for_ri.Common.{
  ℕ, zero, suc, ◌+◌, ◌%◌, ◌^◌, ◌<◌, ◌≡◌, refl, sym, ◌≢◌, ap, ◌∙◌, true, false, some, List, [], ◌∷◌,
  ◌++◌, map, append_assoc, append-nil, arith, ◌==◌, ==_iff, if◌then◌else◌, length, Bool-cases, inl,
  inr,
}
use jtag_debug_module_for_ri.Common.Int.{ℤ, pos, of_word}
use jtag_debug_module_for_ri.Syscalls.{
  Sys, stdout_reg, enosys, minus_one, store_word, refuse, is_file, print, write_loop, write,
  count_from, stdout_fileno,
}

-- The words that the bytes of a text are stored as.
abbrev pub shown : List ℕ → List (ℕ × ℕ)
shown cs = map (λ c. (stdout_reg, c)) cs

-- The `len` bytes from `ptr` on, round the end of the address space.
abbrev pub bytes_at : (ℕ → ℕ) → ℕ → ℕ → List ℕ
bytes_at mem ptr zero = []
bytes_at mem ptr (suc len) = mem ptr ∷ bytes_at mem ((ptr + 1) % 2 ^ 32) len

abbrev pub show : List ℕ → Sys → Sys
show cs s = record s { stores = s.stores ++ shown cs }

show-store_word :
    (c : ℕ) (cs : List ℕ) (s : Sys) → show cs (store_word stdout_reg c s) ≡ show (c ∷ cs) s
unfolding store_word
show-store_word c cs s = simp append_assoc

show-nil : (s : Sys) → show [] s ≡ s
show-nil s = simp append-nil

-- The loop ends when the pointer has gone `len` bytes, whatever fuel beyond `len` it is given.
write_loop-show :
    (mem : ℕ → ℕ) (len fuel ptr eptr : ℕ) (s : Sys)
    → ptr < 2 ^ 32
    → len < 2 ^ 32
    → len < fuel
    → eptr ≡ (ptr + len) % 2 ^ 32
    → write_loop mem fuel ptr eptr s ≡ some (show (bytes_at mem ptr len) s)
unfolding write_loop
write_loop-show mem len zero ptr eptr s hp hl hf e = absurd (omega arith)
write_loop-show mem zero (suc fuel) ptr eptr s hp hl hf e =
    let same : (ptr == eptr) ≡ true = (==_iff ptr eptr).1 (omega arith) in
    rw same (ap some (sym (show-nil s)))
write_loop-show mem (suc len) (suc fuel) ptr eptr s hp hl hf e =
    let apart : (ptr == eptr) ≡ false = ground arith in
    rw apart (
      write_loop-show mem len fuel ((ptr + 1) % 2 ^ 32) eptr _ (omega arith) (omega arith)
        (omega arith) (omega arith)
      ∙ ap some (show-store_word (mem ptr) (bytes_at mem ((ptr + 1) % 2 ^ 32) len) s))

-- `_write` always returns. On standard output it stores exactly the `len` bytes from `ptr` on, in
-- order, to the output register, and gives `len` back as a signed word; on any other file it
-- stores nothing and fails with ENOSYS.
pub write_lem :
    (mem : ℕ → ℕ) (file : ℤ) (ptr len : ℕ) (s : Sys)
    → ptr < 2 ^ 32
    → len < 2 ^ 32
    → write mem file ptr len s
      ≡ some (
          if is_file file stdout_fileno
          then (of_word len, show (bytes_at mem ptr len) s)
          else (minus_one, record s { errno = pos enosys }))
unfolding write refuse
write_lem mem file ptr len s hp hl = elim (Bool-cases (is_file file stdout_fileno)) [
  | inl out ↦ rw (out, write_loop-show mem len (suc len) ptr _ s hp hl (omega arith) refl)
  | inr other ↦ rw other
]

abbrev pub AllNonzero : List ℕ → Type 0
AllNonzero [] = Unit {0}
AllNonzero (c ∷ cs) = (c ≢ 0) × AllNonzero cs

-- `unimplemented_syscall` stores the bytes of its message up to the NUL, in order, and reads
-- nothing beyond it.
pub print-show :
    (cs rest : List ℕ) (s : Sys) → AllNonzero cs → print (cs ++ 0 ∷ rest) s ≡ some (show cs s)
unfolding print
print-show [] rest s h = ap some (sym (show-nil s))
print-show (c ∷ cs) rest s h =
    let more : (c == 0) ≡ false = ground (arith, h.0) in
    rw more (print-show cs rest (store_word stdout_reg c s) h.1 ∙ ap some (show-store_word c cs s))

-- The test program counts the bytes before the first NUL, and reads nothing beyond it.
pub count_from-length :
    (cs rest : List ℕ) (i : ℕ)
    → AllNonzero cs
    → count_from (cs ++ 0 ∷ rest) i ≡ some (i + length cs)
unfolding count_from
count_from-length [] rest i h = ap some (omega arith)
count_from-length (c ∷ cs) rest i h =
    let more : (c == 0) ≡ false = ground (arith, h.0) in
    rw more (count_from-length cs rest (i + 1) h.1 ∙ ap some (omega arith))

-- ===== src/Verilator/Dump.antt =====
-- The memory dump of tb/tb_top_verilator.cpp.
use jtag_debug_module_for_ri.Common.{
  ℕ, zero, suc, ◌+◌, ◌-◌, ◌*◌, ◌/◌, ◌%◌, ◌^◌, ◌<◌, ◌≡◌, refl, ◌∙◌, ap₂, Bool, true, false, not,
  ◌&&◌, List, [], ◌∷◌, ◌++◌, ltb, arith, map, take, if◌then◌else◌, Bool-cases, inl, inr,
}
use jtag_debug_module_for_ri.Verilator.{
  hex_digit, hex, pad, line, dump_from, dump_size, dump_memory, finished_dumping, exception_writing,
}

-- The number that hexadecimal digits stand for, most significant first.
abbrev digit_value : ℕ → ℕ
digit_value c = if ltb c b'a' then c - b'0' else c - b'a' + 10

value_from : ℕ → List ℕ → ℕ
value_from acc [] = acc
value_from acc (c ∷ cs) = value_from (acc * 16 + digit_value c) cs

pub hex_value : List ℕ → ℕ
hex_value cs = value_from 0 cs

digit_value-hex_digit : (d : ℕ) → d < 16 → digit_value (hex_digit d) ≡ d
digit_value-hex_digit d h = ground arith

value_from-append :
    (acc : ℕ) (cs : List ℕ) (c : ℕ)
    → value_from acc (cs ++ c ∷ []) ≡ value_from acc cs * 16 + digit_value c
unfolding value_from
value_from-append acc [] c = refl
value_from-append acc (b ∷ cs) c = value_from-append (acc * 16 + digit_value b) cs c

-- `fuel + 1` digits hold a number below 16 to their count.
abbrev pub limit : ℕ → ℕ
limit zero = 16
limit (suc fuel) = 16 * limit fuel

hex_value-hex : (fuel v : ℕ) → v < limit fuel → hex_value (hex fuel v) ≡ v
unfolding hex hex_value value_from
hex_value-hex zero v h = omega (arith, digit_value-hex_digit (v % 16) (omega arith))
hex_value-hex (suc fuel) v h = elim (Bool-cases (ltb v 16)) [
  | inl small ↦ rw small (omega (arith, digit_value-hex_digit v (ground arith)))
  | inr large ↦ rw large (
      value_from-append 0 (hex fuel (v / 16)) (hex_digit (v % 16))
      ∙ omega (
        arith,
        digit_value-hex_digit (v % 16) (omega arith),
        hex_value-hex fuel (v / 16) (omega arith),
      ))
]

hex_value-pad : (cs : List ℕ) → hex_value (pad cs) ≡ hex_value cs
unfolding hex_value value_from
hex_value-pad [] = refl
hex_value-pad (c ∷ []) = refl
hex_value-pad (c ∷ d ∷ cs) = refl

hex_value-line : (v : ℕ) → hex_value (line v) ≡ v % 2 ^ 32
unfolding line
hex_value-line v = hex_value-pad (hex 7 (v % 2 ^ 32)) ∙ hex_value-hex 7 (v % 2 ^ 32) (omega arith)

-- What `n` bytes from address `i` on are, as 32-bit words.
pub bytes_from : ℕ → ℕ → (ℕ → ℕ) → List ℕ
bytes_from zero i read_byte = []
bytes_from (suc n) i read_byte = read_byte i % 2 ^ 32 ∷ bytes_from n (i + 1) read_byte

dump_from-bytes :
    (n i room : ℕ) (read_byte : ℕ → ℕ)
    → (map hex_value (dump_from n i room read_byte).0 ≡ take room (bytes_from n i read_byte))
      × ((dump_from n i room read_byte).1 ≡ ltb room n)
unfolding dump_from bytes_from
dump_from-bytes zero i zero read_byte = (refl, refl)
dump_from-bytes zero i (suc room) read_byte = (refl, ground arith)
dump_from-bytes (suc n) i zero read_byte = (refl, ground arith)
dump_from-bytes (suc n) i (suc room) read_byte =
    let (same, thrown) = dump_from-bytes n (i + 1) room read_byte in
    (ap₂ ◌∷◌ (hex_value-line (read_byte i)) same, ground (arith, thrown))

-- Whatever the memory holds and however much the file takes: if the file can be opened, the lines
-- of the dump, read as hexadecimal numbers, are the bytes in order, each as a 32-bit word, as far as
-- the file takes lines, and if not there are none; and the program says that it has finished exactly
-- if the file could be opened, took every line and could be closed.
pub dump_memory_lem :
    (opens closes : Bool) (room : ℕ) (read_byte : ℕ → ℕ)
    → (map hex_value (dump_memory opens closes room read_byte).0
        ≡ take (if opens then room else 0) (bytes_from dump_size 0 read_byte))
      × ((dump_memory opens closes room read_byte).1 ≡ (
          if opens && (not (ltb room dump_size) && closes)
          then finished_dumping
          else exception_writing))
unfolding dump_memory
dump_memory_lem true closes room read_byte =
    let (same, thrown) = dump_from-bytes dump_size 0 room read_byte in
    (same, ground (arith, thrown))
dump_memory_lem false closes room read_byte = (refl, refl)

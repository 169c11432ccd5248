-- ===== src/DebugRom/Encoding/Row.antt =====
-- One line of the instruction table of debug_rom/encoding.h: `MATCH_X` and `MASK_X`.
use Prim.Native.String.{String}
use jtag_debug_module_for_ri.Common.{ℕ, Bool, bit_and, ◌==◌}

pub record Opcode : Type 0 where
  pub name : String
  pub match_bits : ℕ
  pub mask : ℕ

abbrev pub insn : String → ℕ → ℕ → Opcode
insn name match_bits mask = record { name = name; match_bits = match_bits; mask = mask }

-- The instruction is this one: `(w & MASK_X) == MATCH_X`.
abbrev pub fits : ℕ → Opcode → Bool
fits w o = bit_and w o.mask == o.match_bits

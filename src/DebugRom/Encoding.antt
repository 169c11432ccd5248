-- ===== src/DebugRom/Encoding.antt =====
-- debug_rom/encoding.h: the table of instruction encodings.
mod Row
mod Integer
mod System
mod Float
mod Custom
mod Compressed
mod Declared
pub use Row.{Opcode, insn, fits}
use Compressed.{compressed_opcodes}
use Integer.{integer_opcodes}
use System.{system_opcodes}
use Float.{float_opcodes}
use Custom.{custom_opcodes}
pub use Declared.{first_declared, second_declared}
use text.Mathlib.Text.{◌==◌ as str_eq}
use Prim.Native.String.{String}
use jtag_debug_module_for_ri.Common.{ℕ, List, [], ◌∷◌, ◌++◌, Option, none, some, if◌then◌else◌}

abbrev pub opcodes : List Opcode
opcodes = integer_opcodes ++ (system_opcodes ++ (float_opcodes ++ custom_opcodes))

-- The first row that a word fits.
unfoldable pub find : ℕ → List Opcode → Option String
find w [] = none
find w (o ∷ rest) = let later = find w rest in if fits w o then some o.name else later

-- The whole table in the file's order, the compressed instructions included.
abbrev pub all_opcodes : List Opcode
all_opcodes =
    integer_opcodes ++ (system_opcodes ++ (float_opcodes ++ (compressed_opcodes ++ custom_opcodes)))

-- The `MATCH_` and `MASK_` of a name.
pub row_named : String → List Opcode → Option Opcode
row_named name [] = none
row_named name (o ∷ rest) =
    let later = row_named name rest in if str_eq o.name name then some o else later

-- What the DECLARE_INSN list expands to with the macros before it.
unfoldable pub expand : List String → Option (List Opcode)
unfolding row_named
expand [] = some []
expand (name ∷ names) = elim (row_named name all_opcodes) [
  | none ↦ none
  | some o ↦ elim (expand names) [ none ↦ none | some rest ↦ some (o ∷ rest) ]
]

pub find_in : ℕ → Option (List Opcode) → Option String
find_in w none = none
find_in w (some rows) = find w rows

-- A disassembler that includes the list: the name of the first line that the word fits.
unfoldable pub disassemble : ℕ → Option String
unfolding find_in
disassemble w = find_in w (expand (first_declared ++ second_declared))

-- ===== src/DebugRom/Decode.antt =====
-- The instructions that the debug ROM and the programs of abstract commands are made of, read from their words with the masks of
-- debug_rom/encoding.h. A word whose mnemonic stands in the table but not here is refused.
use Prim.Native.String.{String}
use text.Mathlib.Text.{◌==◌ as str_eq}
use jtag_debug_module_for_ri.Common.{
  ℕ, ◌+◌, ◌-◌, ◌*◌, ◌/◌, ◌%◌, ◌^◌, ◌≡◌, refl, Option, some, none, ltb, if◌then◌else◌,
}
use jtag_debug_module_for_ri.DebugRom.Encoding.{opcodes, find}

-- Offsets and immediates are 32-bit words, sign-extended.
pub data Insn : Type 0 where
  jal : ℕ → ℕ → Insn
  bne : ℕ → ℕ → ℕ → Insn
  auipc : ℕ → ℕ → Insn
  addi : ℕ → ℕ → ℕ → Insn
  andi : ℕ → ℕ → ℕ → Insn
  slli : ℕ → ℕ → ℕ → Insn
  srli : ℕ → ℕ → ℕ → Insn
  add : ℕ → ℕ → ℕ → Insn
  lbu : ℕ → ℕ → ℕ → Insn
  lw : ℕ → ℕ → ℕ → Insn
  sw : ℕ → ℕ → ℕ → Insn
  csrrw : ℕ → ℕ → ℕ → Insn
  csrrs : ℕ → ℕ → ℕ → Insn
  fence : Insn
  ebreak : Insn
  dret : Insn

-- bits `lo` to `lo + n - 1` of a word
abbrev pub field : ℕ → ℕ → ℕ → ℕ
field w lo n = w / 2 ^ lo % 2 ^ n

-- An `n`-bit number with its sign extended to 32 bits.
abbrev pub sign_extend : ℕ → ℕ → ℕ
sign_extend n x = if ltb x (2 ^ (n - 1)) then x else x + 2 ^ 32 - 2 ^ n

abbrev rd : ℕ → ℕ
rd w = field w 7 5

abbrev rs1 : ℕ → ℕ
rs1 w = field w 15 5

abbrev rs2 : ℕ → ℕ
rs2 w = field w 20 5

abbrev imm_i : ℕ → ℕ
imm_i w = sign_extend 12 (field w 20 12)

abbrev imm_s : ℕ → ℕ
imm_s w = sign_extend 12 (field w 25 7 * 2 ^ 5 + field w 7 5)

abbrev imm_b : ℕ → ℕ
imm_b w =
    sign_extend 13
      (field w 31 1 * 2 ^ 12 + field w 7 1 * 2 ^ 11 + field w 25 6 * 2 ^ 5 + field w 8 4 * 2)

abbrev imm_j : ℕ → ℕ
imm_j w =
    sign_extend 21
      (field w 31 1 * 2 ^ 20 + field w 12 8 * 2 ^ 12 + field w 20 1 * 2 ^ 11 + field w 21 10 * 2)

operands : String → ℕ → Option Insn
operands name w =
    if str_eq name "jal"
    then some (jal (rd w) (imm_j w))
    else if str_eq name "bne"
    then some (bne (rs1 w) (rs2 w) (imm_b w))
    else if str_eq name "auipc"
    then some (auipc (rd w) (field w 12 20 * 2 ^ 12))
    else if str_eq name "addi"
    then some (addi (rd w) (rs1 w) (imm_i w))
    else if str_eq name "andi"
    then some (andi (rd w) (rs1 w) (imm_i w))
    else if str_eq name "slli"
    then some (slli (rd w) (rs1 w) (field w 20 5))
    else if str_eq name "srli"
    then some (srli (rd w) (rs1 w) (field w 20 5))
    else if str_eq name "add"
    then some (add (rd w) (rs1 w) (rs2 w))
    else if str_eq name "lbu"
    then some (lbu (rd w) (rs1 w) (imm_i w))
    else if str_eq name "lw"
    then some (lw (rd w) (rs1 w) (imm_i w))
    else if str_eq name "sw"
    then some (sw (rs2 w) (rs1 w) (imm_s w))
    else if str_eq name "csrrw"
    then some (csrrw (rd w) (field w 20 12) (rs1 w))
    else if str_eq name "csrrs"
    then some (csrrs (rd w) (field w 20 12) (rs1 w))
    else if str_eq name "fence"
    then some fence
    else if str_eq name "ebreak"
    then some ebreak
    else if str_eq name "dret"
    then some dret
    else none

unfoldable pub decode : ℕ → Option Insn
unfolding operands find
decode w = elim (find w opcodes) [ none ↦ none | some name ↦ operands name w ]

park_word : decode 0xfd5ff06f ≡ some (jal 0 0xffff_ffd4)
unfolding decode
park_word = refl

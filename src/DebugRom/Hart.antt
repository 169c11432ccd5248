-- ===== src/DebugRom/Hart.antt =====
-- A hart in debug mode that runs the debug ROM (debug_rom/debug_rom.S and the words of
-- debug_rom/debug_rom.h). The instructions have their RISC-V meaning.
--
-- The program counter is an offset from the debug module's base, since the ROM is position
-- independent and stays in its page; addresses of data are whole. Every load is a read of the
-- debug module, which may change what it gives at any time: it takes the head of a script. Loads
-- and stores are recorded, the newest first.
use jtag_debug_module_for_ri.Common.{
  ℕ, zero, suc, ◌+◌, ◌-◌, ◌*◌, ◌/◌, ◌%◌, ◌^◌, Bool, Option, some, none, List, [], ◌∷◌, bit_and,
  ◌==◌, if◌then◌else◌, get_elem?,
}
use jtag_debug_module_for_ri.DebugRom.Rom.{rom}
use jtag_debug_module_for_ri.DebugRom.Decode.{
  Insn, jal, bne, auipc, addi, andi, slli, srli, add, lbu, lw, sw, csrrw, csrrs, fence, ebreak,
  dret, decode,
}
use jtag_debug_module_for_ri.DebugRom.Csrs.{csr_dscratch0, csr_dscratch1, csr_mhartid}
use jtag_debug_module_for_ri.DebugRom.Assembly.{halt_address}

pub data Access : Type 0 where
  stored : ℕ → ℕ → Access
  loaded : ℕ → Access

-- `resumed` by `dret`, back at the start by `ebreak`, or `lost`: no instruction, a register that
-- does not exist, or a load with no answer.
pub data Mode : Type 0 where
  parked resumed trapped lost : Mode

pub record Hart : Type 0 where
  pub mode : Mode
  pub pc : ℕ
  pub regs : ℕ → ℕ
  pub dscratch0 : ℕ
  pub dscratch1 : ℕ
  pub mhartid : ℕ
  pub flags : List ℕ
  pub accesses : List Access

-- Register 0 reads as 0, and a write to it is lost.
abbrev pub visible : (ℕ → ℕ) → ℕ → ℕ
visible regs r = if r == 0 then 0 else regs r

abbrev pub reg : Hart → ℕ → ℕ
reg h r = visible h.regs r

abbrev pub set_reg : ℕ → ℕ → (ℕ → ℕ) → ℕ → ℕ
set_reg rd v regs r = if rd == 0 then regs r else if r == rd then v else regs r

abbrev pub to_u32 : ℕ → ℕ
to_u32 n = n % 2 ^ 32

-- Writes a register and goes on to the next instruction.
abbrev pub set_next : ℕ → ℕ → Hart → Hart
set_next rd v h = record h { pc = to_u32 (h.pc + 4); regs = set_reg rd v h.regs }

abbrev pub read_csr : ℕ → Hart → Option ℕ
read_csr csr h =
    if csr == csr_dscratch0
    then some h.dscratch0
    else if csr == csr_dscratch1
    then some h.dscratch1
    else if csr == csr_mhartid
    then some h.mhartid
    else none

abbrev pub write_csr : ℕ → ℕ → Hart → Option Hart
write_csr csr v h =
    if csr == csr_dscratch0
    then some (record h { dscratch0 = v })
    else if csr == csr_dscratch1
    then some (record h { dscratch1 = v })
    else none

abbrev pub lose : Hart → Hart
lose h = record h { mode = lost }

abbrev load : ℕ → List ℕ → ℕ → ℕ → Hart → Hart
load bits [] rd addr h = lose h
load bits (f ∷ rest) rd addr h =
    set_next rd (f % 2 ^ bits) (record h { flags = rest; accesses = loaded addr ∷ h.accesses })

-- `base` is the address of the debug module.
unfoldable pub exec : ℕ → Insn → Hart → Hart
exec base (jal rd off) h = record h {
  pc = to_u32 (h.pc + off);
  regs = set_reg rd (to_u32 (base + h.pc + 4)) h.regs;
}
exec base (bne a b off) h = record h {
  pc = to_u32 (if reg h a == reg h b then h.pc + 4 else h.pc + off);
}
exec base (auipc rd imm) h = set_next rd (to_u32 (base + h.pc + imm)) h
exec base (addi rd a imm) h = set_next rd (to_u32 (reg h a + imm)) h
exec base (andi rd a imm) h = set_next rd (bit_and (reg h a) imm) h
exec base (slli rd a n) h = set_next rd (to_u32 (reg h a * 2 ^ n)) h
exec base (srli rd a n) h = set_next rd (reg h a / 2 ^ n) h
exec base (add rd a b) h = set_next rd (to_u32 (reg h a + reg h b)) h
exec base (lbu rd a imm) h = load 8 h.flags rd (to_u32 (reg h a + imm)) h
exec base (lw rd a imm) h = load 32 h.flags rd (to_u32 (reg h a + imm)) h
exec base (sw s a imm) h = record h {
  pc = to_u32 (h.pc + 4);
  accesses = stored (to_u32 (reg h a + imm)) (reg h s) ∷ h.accesses;
}
exec base (csrrw rd csr a) h = elim (read_csr csr h) [
  | none ↦ lose h
  | some old ↦ elim (write_csr csr (reg h a) h) [ none ↦ lose h | some t ↦ set_next rd old t ]
]
-- The ROM only reads by `csrrs`, with register 0 for the bits to set.
exec base (csrrs rd csr a) h = elim (read_csr csr h) [
  | none ↦ lose h
  | some old ↦ if a == 0 then set_next rd old h else lose h
]
exec base fence h = record h { pc = to_u32 (h.pc + 4) }
exec base ebreak h = record h { mode = trapped; pc = halt_address }
exec base dret h = record h { mode = resumed }

-- The instruction at a program counter.
unfoldable pub fetch : Bool → ℕ → Option Insn
fetch b pc =
    if bit_and pc 3 == 0
    then elim (get_elem? (rom b) ((pc - halt_address) / 4)) [ none ↦ none | some w ↦ decode w ]
    else none

-- One instruction of a parked hart; a hart that has left the ROM's loop takes no more of them.
step_parked : Mode → Bool → ℕ → Hart → Hart
unfolding exec fetch rom decode
step_parked parked b base h = elim (fetch b h.pc) [ none ↦ lose h | some i ↦ exec base i h ]
step_parked _ b base h = h

unfoldable pub step : Bool → ℕ → Hart → Hart
unfolding step_parked
step b base h = step_parked h.mode b base h

unfoldable pub steps : Bool → ℕ → ℕ → Hart → Hart
steps b base zero h = h
steps b base (suc n) h = steps b base n (step b base h)

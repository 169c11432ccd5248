-- ===== src/DebugRom/Assembly.antt =====
-- debug_rom/debug_rom.S, in both builds (with and without SND_SCRATCH), with an assembler for the
-- few forms that it uses, to set beside the words of debug_rom.h and debug_rom_one_scratch.h.
use jtag_debug_module_for_ri.Common.{
  ℕ, ◌+◌, ◌-◌, ◌%◌, ◌^◌, ◌≡◌, refl, Bool, true, false, Option, some, List, [], ◌∷◌, ◌++◌, ◌==◌,
  if◌then◌else◌,
}
use jtag_debug_module_for_ri.DebugRom.Rom.{rom}
use jtag_debug_module_for_ri.DebugRom.Csrs.{csr_dscratch0, csr_dscratch1, csr_mhartid}
use jtag_debug_module_for_ri.DebugRom.Decode.{
  Insn, jal, bne, auipc, addi, andi, slli, srli, add, lbu, sw, csrrw, csrrs, fence, ebreak, dret,
  decode,
}

pub data Label : Type 0 where
  entry resume exception start entry_loop on_exception going on_resume whereto : Label

-- A label, an instruction, or a jump to a label.
pub data Line : Type 0 where
  label : Label → Line
  op : Insn → Line
  jump : Label → Line
  bnez : ℕ → Label → Line

-- registers and CSRs by number
abbrev pub zero_reg : ℕ
zero_reg = 0

abbrev pub s0 : ℕ
s0 = 8

abbrev pub a0 : ℕ
a0 = 10

-- the addresses in the debug module, from its base
abbrev pub halted_offset : ℕ
halted_offset = 0x100

abbrev pub going_offset : ℕ
going_offset = 0x108

abbrev pub resuming_offset : ℕ
resuming_offset = 0x110

abbrev pub exception_offset : ℕ
exception_offset = 0x118

abbrev pub flags_offset : ℕ
flags_offset = 0x400

abbrev nop : Line
nop = op (addi 0 0 0)

abbrev csrw : ℕ → ℕ → Line
csrw csr rs = op (csrrw zero_reg csr rs)

abbrev csrr : ℕ → ℕ → Line
csrr rd csr = op (csrrs rd csr zero_reg)

-- `auipc a0, 0; srli a0, a0, 12; slli a0, a0, 12`
abbrev load_base : List Line
load_base = op (auipc a0 0) ∷ op (srli a0 a0 12) ∷ op (slli a0 a0 12) ∷ []

-- `#ifdef SND_SCRATCH`
abbrev ifdef : Bool → List Line → List Line → List Line
ifdef true yes_lines no_lines = yes_lines
ifdef false yes_lines no_lines = no_lines

-- the register that the debug module's addresses are taken from
abbrev base_reg : Bool → ℕ
base_reg true = a0
base_reg false = zero_reg

abbrev source : Bool → List Line
source b =
    label entry
    ∷ jump start
    ∷ nop
    ∷ label resume
    ∷ jump on_resume
    ∷ nop
    ∷ label exception
    ∷ jump on_exception
    ∷ nop
    ∷ label start
    ∷ op fence
    ∷ csrw csr_dscratch0 s0
    ∷ (ifdef b (csrw csr_dscratch1 a0 ∷ load_base) []
        ++ (label entry_loop
            ∷ csrr s0 csr_mhartid
            ∷ op (sw s0 (base_reg b) halted_offset)
            ∷ (ifdef b (op (add s0 s0 a0) ∷ []) []
                ++ (op (lbu s0 s0 flags_offset)
                    ∷ op (andi s0 s0 1)
                    ∷ bnez s0 going
                    ∷ csrr s0 csr_mhartid
                    ∷ (ifdef b (op (add s0 s0 a0) ∷ []) []
                        ++ (op (lbu s0 s0 flags_offset)
                            ∷ op (andi s0 s0 2)
                            ∷ bnez s0 resume
                            ∷ jump entry_loop
                            ∷ label on_exception
                            ∷ (ifdef b load_base []
                                ++ (op (sw zero_reg (base_reg b) exception_offset)
                                    ∷ (ifdef b (csrr a0 csr_dscratch1 ∷ []) []
                                        ++ (csrr s0 csr_dscratch0
                                            ∷ op ebreak
                                            ∷ label going
                                            ∷ op (sw zero_reg (base_reg b) going_offset)
                                            ∷ (ifdef b (csrr a0 csr_dscratch1 ∷ []) []
                                                ++ (csrr s0 csr_dscratch0
                                                    ∷ jump whereto
                                                    ∷ label on_resume
                                                    ∷ csrr s0 csr_mhartid
                                                    ∷ op (sw s0 (base_reg b) resuming_offset)
                                                    ∷ (ifdef b (csrr a0 csr_dscratch1 ∷ []) []
                                                        ++ (csrr s0 csr_dscratch0
                                                            ∷ op dret
                                                            ∷ []))))))))))))))

abbrev label_index : Label → ℕ
label_index entry = 0
label_index resume = 1
label_index exception = 2
label_index start = 3
label_index entry_loop = 4
label_index on_exception = 5
label_index going = 6
label_index on_resume = 7
label_index whereto = 8

-- link.ld puts `whereto` at 0x300 and the program at 0x800.
abbrev pub whereto_address : ℕ
whereto_address = 0x300

abbrev pub halt_address : ℕ
halt_address = 0x800

-- Where a label stands, in lines that start at `pc`; instructions take four bytes (`.option norvc`).
address_from : ℕ → List Line → Label → ℕ
address_from pc [] l = whereto_address
address_from pc (label m ∷ rest) l =
    let later = address_from pc rest l in if label_index m == label_index l then pc else later
address_from pc (_ ∷ rest) l = address_from (pc + 4) rest l

assemble_from : (Label → ℕ) → ℕ → List Line → List (Option Insn)
assemble_from at pc [] = []
assemble_from at pc (label l ∷ rest) = assemble_from at pc rest
assemble_from at pc (op i ∷ rest) = some i ∷ assemble_from at (pc + 4) rest
assemble_from at pc (jump l ∷ rest) =
    some (jal zero_reg ((at l + 2 ^ 32 - pc) % 2 ^ 32)) ∷ assemble_from at (pc + 4) rest
assemble_from at pc (bnez r l ∷ rest) =
    some (bne r zero_reg ((at l + 2 ^ 32 - pc) % 2 ^ 32)) ∷ assemble_from at (pc + 4) rest

pub assembled : Bool → List (Option Insn)
unfolding assemble_from address_from
assembled b = assemble_from (address_from halt_address (source b)) halt_address (source b)

pub decode_all : List ℕ → List (Option Insn)
decode_all [] = []
decode_all (w ∷ l) = decode w ∷ decode_all l

-- In both builds the words of the C header, decoded with the masks of encoding.h, are the program
-- of debug_rom.S with every label at its address.
pub rom-assembled : (b : Bool) → decode_all (rom b) ≡ assembled b
unfolding decode_all rom decode assembled
rom-assembled true = refl
rom-assembled false = refl

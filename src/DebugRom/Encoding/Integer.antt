-- ===== src/DebugRom/Encoding/Integer.antt =====
-- debug_rom/encoding.h: the integer instructions, with those on memory up to the first atomics.
use jtag_debug_module_for_ri.Common.{List, [], ◌∷◌}
use jtag_debug_module_for_ri.DebugRom.Encoding.Row.{Opcode, insn}

abbrev pub integer_opcodes : List Opcode
integer_opcodes =
    insn "beq" 0x63 0x707f
    ∷ insn "bne" 0x1063 0x707f
    ∷ insn "blt" 0x4063 0x707f
    ∷ insn "bge" 0x5063 0x707f
    ∷ insn "bltu" 0x6063 0x707f
    ∷ insn "bgeu" 0x7063 0x707f
    ∷ insn "jalr" 0x67 0x707f
    ∷ insn "jal" 0x6f 0x7f
    ∷ insn "lui" 0x37 0x7f
    ∷ insn "auipc" 0x17 0x7f
    ∷ insn "addi" 0x13 0x707f
    ∷ insn "slli" 0x1013 0xfc00707f
    ∷ insn "slti" 0x2013 0x707f
    ∷ insn "sltiu" 0x3013 0x707f
    ∷ insn "xori" 0x4013 0x707f
    ∷ insn "srli" 0x5013 0xfc00707f
    ∷ insn "srai" 0x40005013 0xfc00707f
    ∷ insn "ori" 0x6013 0x707f
    ∷ insn "andi" 0x7013 0x707f
    ∷ insn "add" 0x33 0xfe00707f
    ∷ insn "sub" 0x40000033 0xfe00707f
    ∷ insn "sll" 0x1033 0xfe00707f
    ∷ insn "slt" 0x2033 0xfe00707f
    ∷ insn "sltu" 0x3033 0xfe00707f
    ∷ insn "xor" 0x4033 0xfe00707f
    ∷ insn "srl" 0x5033 0xfe00707f
    ∷ insn "sra" 0x40005033 0xfe00707f
    ∷ insn "or" 0x6033 0xfe00707f
    ∷ insn "and" 0x7033 0xfe00707f
    ∷ insn "addiw" 0x1b 0x707f
    ∷ insn "slliw" 0x101b 0xfe00707f
    ∷ insn "srliw" 0x501b 0xfe00707f
    ∷ insn "sraiw" 0x4000501b 0xfe00707f
    ∷ insn "addw" 0x3b 0xfe00707f
    ∷ insn "subw" 0x4000003b 0xfe00707f
    ∷ insn "sllw" 0x103b 0xfe00707f
    ∷ insn "srlw" 0x503b 0xfe00707f
    ∷ insn "sraw" 0x4000503b 0xfe00707f
    ∷ insn "lb" 0x3 0x707f
    ∷ insn "lh" 0x1003 0x707f
    ∷ insn "lw" 0x2003 0x707f
    ∷ insn "ld" 0x3003 0x707f
    ∷ insn "lbu" 0x4003 0x707f
    ∷ insn "lhu" 0x5003 0x707f
    ∷ insn "lwu" 0x6003 0x707f
    ∷ insn "sb" 0x23 0x707f
    ∷ insn "sh" 0x1023 0x707f
    ∷ insn "sw" 0x2023 0x707f
    ∷ insn "sd" 0x3023 0x707f
    ∷ insn "fence" 0xf 0x707f
    ∷ insn "fence_i" 0x100f 0x707f
    ∷ insn "mul" 0x2000033 0xfe00707f
    ∷ insn "mulh" 0x2001033 0xfe00707f
    ∷ insn "mulhsu" 0x2002033 0xfe00707f
    ∷ insn "mulhu" 0x2003033 0xfe00707f
    ∷ insn "div" 0x2004033 0xfe00707f
    ∷ insn "divu" 0x2005033 0xfe00707f
    ∷ insn "rem" 0x2006033 0xfe00707f
    ∷ insn "remu" 0x2007033 0xfe00707f
    ∷ insn "mulw" 0x200003b 0xfe00707f
    ∷ insn "divw" 0x200403b 0xfe00707f
    ∷ insn "divuw" 0x200503b 0xfe00707f
    ∷ insn "remw" 0x200603b 0xfe00707f
    ∷ insn "remuw" 0x200703b 0xfe00707f
    ∷ insn "amoadd_w" 0x202f 0xf800707f
    ∷ insn "amoxor_w" 0x2000202f 0xf800707f
    ∷ insn "amoor_w" 0x4000202f 0xf800707f
    ∷ insn "amoand_w" 0x6000202f 0xf800707f
    ∷ insn "amomin_w" 0x8000202f 0xf800707f
    ∷ insn "amomax_w" 0xa000202f 0xf800707f
    ∷ insn "amominu_w" 0xc000202f 0xf800707f
    ∷ insn "amomaxu_w" 0xe000202f 0xf800707f
    ∷ []

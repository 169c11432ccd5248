-- ===== src/DebugRom/Encoding/Custom.antt =====
-- debug_rom/encoding.h: the encodings left for extensions.
use jtag_debug_module_for_ri.Common.{List, [], ◌∷◌}
use jtag_debug_module_for_ri.DebugRom.Encoding.Row.{Opcode, insn}

abbrev pub custom_opcodes : List Opcode
custom_opcodes =
    insn "custom0" 0xb 0x707f
    ∷ insn "custom0_rs1" 0x200b 0x707f
    ∷ insn "custom0_rs1_rs2" 0x300b 0x707f
    ∷ insn "custom0_rd" 0x400b 0x707f
    ∷ insn "custom0_rd_rs1" 0x600b 0x707f
    ∷ insn "custom0_rd_rs1_rs2" 0x700b 0x707f
    ∷ insn "custom1" 0x2b 0x707f
    ∷ insn "custom1_rs1" 0x202b 0x707f
    ∷ insn "custom1_rs1_rs2" 0x302b 0x707f
    ∷ insn "custom1_rd" 0x402b 0x707f
    ∷ insn "custom1_rd_rs1" 0x602b 0x707f
    ∷ insn "custom1_rd_rs1_rs2" 0x702b 0x707f
    ∷ insn "custom2" 0x5b 0x707f
    ∷ insn "custom2_rs1" 0x205b 0x707f
    ∷ insn "custom2_rs1_rs2" 0x305b 0x707f
    ∷ insn "custom2_rd" 0x405b 0x707f
    ∷ insn "custom2_rd_rs1" 0x605b 0x707f
    ∷ insn "custom2_rd_rs1_rs2" 0x705b 0x707f
    ∷ insn "custom3" 0x7b 0x707f
    ∷ insn "custom3_rs1" 0x207b 0x707f
    ∷ insn "custom3_rs1_rs2" 0x307b 0x707f
    ∷ insn "custom3_rd" 0x407b 0x707f
    ∷ insn "custom3_rd_rs1" 0x607b 0x707f
    ∷ insn "custom3_rd_rs1_rs2" 0x707b 0x707f
    ∷ []

-- ===== src/DebugRom/Encoding/System.antt =====
-- debug_rom/encoding.h: the other atomics, the system instructions and floating point.
use jtag_debug_module_for_ri.Common.{List, [], ◌∷◌}
use jtag_debug_module_for_ri.DebugRom.Encoding.Row.{Opcode, insn}

abbrev pub system_opcodes : List Opcode
system_opcodes =
    insn "amoswap_w" 0x800202f 0xf800707f
    ∷ insn "lr_w" 0x1000202f 0xf9f0707f
    ∷ insn "sc_w" 0x1800202f 0xf800707f
    ∷ insn "amoadd_d" 0x302f 0xf800707f
    ∷ insn "amoxor_d" 0x2000302f 0xf800707f
    ∷ insn "amoor_d" 0x4000302f 0xf800707f
    ∷ insn "amoand_d" 0x6000302f 0xf800707f
    ∷ insn "amomin_d" 0x8000302f 0xf800707f
    ∷ insn "amomax_d" 0xa000302f 0xf800707f
    ∷ insn "amominu_d" 0xc000302f 0xf800707f
    ∷ insn "amomaxu_d" 0xe000302f 0xf800707f
    ∷ insn "amoswap_d" 0x800302f 0xf800707f
    ∷ insn "lr_d" 0x1000302f 0xf9f0707f
    ∷ insn "sc_d" 0x1800302f 0xf800707f
    ∷ insn "ecall" 0x73 0xffffffff
    ∷ insn "ebreak" 0x100073 0xffffffff
    ∷ insn "uret" 0x200073 0xffffffff
    ∷ insn "sret" 0x10200073 0xffffffff
    ∷ insn "mret" 0x30200073 0xffffffff
    ∷ insn "dret" 0x7b200073 0xffffffff
    ∷ insn "sfence_vma" 0x12000073 0xfe007fff
    ∷ insn "wfi" 0x10500073 0xffffffff
    ∷ insn "csrrw" 0x1073 0x707f
    ∷ insn "csrrs" 0x2073 0x707f
    ∷ insn "csrrc" 0x3073 0x707f
    ∷ insn "csrrwi" 0x5073 0x707f
    ∷ insn "csrrsi" 0x6073 0x707f
    ∷ insn "csrrci" 0x7073 0x707f
    ∷ insn "fadd_s" 0x53 0xfe00007f
    ∷ insn "fsub_s" 0x8000053 0xfe00007f
    ∷ insn "fmul_s" 0x10000053 0xfe00007f
    ∷ insn "fdiv_s" 0x18000053 0xfe00007f
    ∷ insn "fsgnj_s" 0x20000053 0xfe00707f
    ∷ insn "fsgnjn_s" 0x20001053 0xfe00707f
    ∷ insn "fsgnjx_s" 0x20002053 0xfe00707f
    ∷ insn "fmin_s" 0x28000053 0xfe00707f
    ∷ insn "fmax_s" 0x28001053 0xfe00707f
    ∷ insn "fsqrt_s" 0x58000053 0xfff0007f
    ∷ insn "fadd_d" 0x2000053 0xfe00007f
    ∷ insn "fsub_d" 0xa000053 0xfe00007f
    ∷ insn "fmul_d" 0x12000053 0xfe00007f
    ∷ insn "fdiv_d" 0x1a000053 0xfe00007f
    ∷ insn "fsgnj_d" 0x22000053 0xfe00707f
    ∷ insn "fsgnjn_d" 0x22001053 0xfe00707f
    ∷ insn "fsgnjx_d" 0x22002053 0xfe00707f
    ∷ insn "fmin_d" 0x2a000053 0xfe00707f
    ∷ insn "fmax_d" 0x2a001053 0xfe00707f
    ∷ insn "fcvt_s_d" 0x40100053 0xfff0007f
    ∷ insn "fcvt_d_s" 0x42000053 0xfff0007f
    ∷ insn "fsqrt_d" 0x5a000053 0xfff0007f
    ∷ insn "fadd_q" 0x6000053 0xfe00007f
    ∷ insn "fsub_q" 0xe000053 0xfe00007f
    ∷ insn "fmul_q" 0x16000053 0xfe00007f
    ∷ insn "fdiv_q" 0x1e000053 0xfe00007f
    ∷ insn "fsgnj_q" 0x26000053 0xfe00707f
    ∷ insn "fsgnjn_q" 0x26001053 0xfe00707f
    ∷ insn "fsgnjx_q" 0x26002053 0xfe00707f
    ∷ insn "fmin_q" 0x2e000053 0xfe00707f
    ∷ insn "fmax_q" 0x2e001053 0xfe00707f
    ∷ insn "fcvt_s_q" 0x40300053 0xfff0007f
    ∷ insn "fcvt_q_s" 0x46000053 0xfff0007f
    ∷ insn "fcvt_d_q" 0x42300053 0xfff0007f
    ∷ insn "fcvt_q_d" 0x46100053 0xfff0007f
    ∷ insn "fsqrt_q" 0x5e000053 0xfff0007f
    ∷ insn "fle_s" 0xa0000053 0xfe00707f
    ∷ insn "flt_s" 0xa0001053 0xfe00707f
    ∷ insn "feq_s" 0xa0002053 0xfe00707f
    ∷ insn "fle_d" 0xa2000053 0xfe00707f
    ∷ insn "flt_d" 0xa2001053 0xfe00707f
    ∷ insn "feq_d" 0xa2002053 0xfe00707f
    ∷ insn "fle_q" 0xa6000053 0xfe00707f
    ∷ insn "flt_q" 0xa6001053 0xfe00707f
    ∷ []

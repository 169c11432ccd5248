-- ===== src/DebugRom/Encoding/Declared.antt =====
-- debug_rom/encoding.h: the DECLARE_INSN list, by the names that it gives. The other two arguments of
-- a line are the MATCH and MASK of the same name.
use Prim.Native.String.{String}
use jtag_debug_module_for_ri.Common.{List, [], ◌∷◌}

abbrev pub first_declared : List String
first_declared =
    "beq" ∷ "bne" ∷ "blt" ∷ "bge" ∷ "bltu" ∷ "bgeu" ∷ "jalr" ∷ "jal" ∷ "lui" ∷ "auipc" ∷ "addi"
    ∷ "slli" ∷ "slti" ∷ "sltiu" ∷ "xori" ∷ "srli" ∷ "srai" ∷ "ori" ∷ "andi" ∷ "add" ∷ "sub" ∷ "sll"
    ∷ "slt" ∷ "sltu" ∷ "xor" ∷ "srl" ∷ "sra" ∷ "or" ∷ "and" ∷ "addiw" ∷ "slliw" ∷ "srliw" ∷ "sraiw"
    ∷ "addw" ∷ "subw" ∷ "sllw" ∷ "srlw" ∷ "sraw" ∷ "lb" ∷ "lh" ∷ "lw" ∷ "ld" ∷ "lbu" ∷ "lhu" ∷ "lwu"
    ∷ "sb" ∷ "sh" ∷ "sw" ∷ "sd" ∷ "fence" ∷ "fence_i" ∷ "mul" ∷ "mulh" ∷ "mulhsu" ∷ "mulhu" ∷ "div"
    ∷ "divu" ∷ "rem" ∷ "remu" ∷ "mulw" ∷ "divw" ∷ "divuw" ∷ "remw" ∷ "remuw" ∷ "amoadd_w"
    ∷ "amoxor_w" ∷ "amoor_w" ∷ "amoand_w" ∷ "amomin_w" ∷ "amomax_w" ∷ "amominu_w" ∷ "amomaxu_w"
    ∷ "amoswap_w" ∷ "lr_w" ∷ "sc_w" ∷ "amoadd_d" ∷ "amoxor_d" ∷ "amoor_d" ∷ "amoand_d" ∷ "amomin_d"
    ∷ "amomax_d" ∷ "amominu_d" ∷ "amomaxu_d" ∷ "amoswap_d" ∷ "lr_d" ∷ "sc_d" ∷ "ecall" ∷ "ebreak"
    ∷ "uret" ∷ "sret" ∷ "mret" ∷ "dret" ∷ "sfence_vma" ∷ "wfi" ∷ "csrrw" ∷ "csrrs" ∷ "csrrc"
    ∷ "csrrwi" ∷ "csrrsi" ∷ "csrrci" ∷ "fadd_s" ∷ "fsub_s" ∷ "fmul_s" ∷ "fdiv_s" ∷ "fsgnj_s"
    ∷ "fsgnjn_s" ∷ "fsgnjx_s" ∷ "fmin_s" ∷ "fmax_s" ∷ "fsqrt_s" ∷ "fadd_d" ∷ "fsub_d" ∷ "fmul_d"
    ∷ "fdiv_d" ∷ "fsgnj_d" ∷ "fsgnjn_d" ∷ "fsgnjx_d" ∷ "fmin_d" ∷ "fmax_d" ∷ "fcvt_s_d" ∷ "fcvt_d_s"
    ∷ "fsqrt_d" ∷ "fadd_q" ∷ "fsub_q" ∷ "fmul_q" ∷ "fdiv_q" ∷ "fsgnj_q" ∷ "fsgnjn_q" ∷ "fsgnjx_q"
    ∷ "fmin_q" ∷ "fmax_q" ∷ []

abbrev pub second_declared : List String
second_declared =
    "fcvt_s_q" ∷ "fcvt_q_s" ∷ "fcvt_d_q" ∷ "fcvt_q_d" ∷ "fsqrt_q" ∷ "fle_s" ∷ "flt_s" ∷ "feq_s"
    ∷ "fle_d" ∷ "flt_d" ∷ "feq_d" ∷ "fle_q" ∷ "flt_q" ∷ "feq_q" ∷ "fcvt_w_s" ∷ "fcvt_wu_s"
    ∷ "fcvt_l_s" ∷ "fcvt_lu_s" ∷ "fmv_x_w" ∷ "fclass_s" ∷ "fcvt_w_d" ∷ "fcvt_wu_d" ∷ "fcvt_l_d"
    ∷ "fcvt_lu_d" ∷ "fmv_x_d" ∷ "fclass_d" ∷ "fcvt_w_q" ∷ "fcvt_wu_q" ∷ "fcvt_l_q" ∷ "fcvt_lu_q"
    ∷ "fmv_x_q" ∷ "fclass_q" ∷ "fcvt_s_w" ∷ "fcvt_s_wu" ∷ "fcvt_s_l" ∷ "fcvt_s_lu" ∷ "fmv_w_x"
    ∷ "fcvt_d_w" ∷ "fcvt_d_wu" ∷ "fcvt_d_l" ∷ "fcvt_d_lu" ∷ "fmv_d_x" ∷ "fcvt_q_w" ∷ "fcvt_q_wu"
    ∷ "fcvt_q_l" ∷ "fcvt_q_lu" ∷ "fmv_q_x" ∷ "flw" ∷ "fld" ∷ "flq" ∷ "fsw" ∷ "fsd" ∷ "fsq"
    ∷ "fmadd_s" ∷ "fmsub_s" ∷ "fnmsub_s" ∷ "fnmadd_s" ∷ "fmadd_d" ∷ "fmsub_d" ∷ "fnmsub_d"
    ∷ "fnmadd_d" ∷ "fmadd_q" ∷ "fmsub_q" ∷ "fnmsub_q" ∷ "fnmadd_q" ∷ "c_nop" ∷ "c_addi16sp" ∷ "c_jr"
    ∷ "c_jalr" ∷ "c_ebreak" ∷ "c_ld" ∷ "c_sd" ∷ "c_addiw" ∷ "c_ldsp" ∷ "c_sdsp" ∷ "c_addi4spn"
    ∷ "c_fld" ∷ "c_lw" ∷ "c_flw" ∷ "c_fsd" ∷ "c_sw" ∷ "c_fsw" ∷ "c_addi" ∷ "c_jal" ∷ "c_li"
    ∷ "c_lui" ∷ "c_srli" ∷ "c_srai" ∷ "c_andi" ∷ "c_sub" ∷ "c_xor" ∷ "c_or" ∷ "c_and" ∷ "c_subw"
    ∷ "c_addw" ∷ "c_j" ∷ "c_beqz" ∷ "c_bnez" ∷ "c_slli" ∷ "c_fldsp" ∷ "c_lwsp" ∷ "c_flwsp" ∷ "c_mv"
    ∷ "c_add" ∷ "c_fsdsp" ∷ "c_swsp" ∷ "c_fswsp" ∷ "custom0" ∷ "custom0_rs1" ∷ "custom0_rs1_rs2"
    ∷ "custom0_rd" ∷ "custom0_rd_rs1" ∷ "custom0_rd_rs1_rs2" ∷ "custom1" ∷ "custom1_rs1"
    ∷ "custom1_rs1_rs2" ∷ "custom1_rd" ∷ "custom1_rd_rs1" ∷ "custom1_rd_rs1_rs2" ∷ "custom2"
    ∷ "custom2_rs1" ∷ "custom2_rs1_rs2" ∷ "custom2_rd" ∷ "custom2_rd_rs1" ∷ "custom2_rd_rs1_rs2"
    ∷ "custom3" ∷ "custom3_rs1" ∷ "custom3_rs1_rs2" ∷ "custom3_rd" ∷ "custom3_rd_rs1"
    ∷ "custom3_rd_rs1_rs2" ∷ []

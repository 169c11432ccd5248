-- ===== src/AbstractCmd/Words.antt =====
-- The instruction helpers of rtl/DM_Pkg.sv: the words of single instructions, as the concatenations
-- that the package writes. Every argument is below its width.
use jtag_debug_module_for_ri.Common.{ℕ, ◌+◌, ◌*◌, ◌/◌, ◌%◌, ◌^◌}

-- `{imm[20], imm[10:1], imm[11], imm[19:12], rd, opcode}`
abbrev u_j_word : ℕ → ℕ → ℕ → ℕ
u_j_word rd imm opcode =
    imm / 2 ^ 20 % 2 * 2 ^ 31
    + imm / 2 % 2 ^ 10 * 2 ^ 21
    + imm / 2 ^ 11 % 2 * 2 ^ 20
    + imm / 2 ^ 12 % 2 ^ 8 * 2 ^ 12
    + rd * 2 ^ 7
    + opcode

abbrev pub jal : ℕ → ℕ → ℕ
jal rd imm = u_j_word rd imm 0x6f

abbrev pub auipc : ℕ → ℕ → ℕ
auipc rd imm = u_j_word rd imm 0x17

-- `{imm[11:0], rs1, funct3, rd, opcode}`
abbrev i_word : ℕ → ℕ → ℕ → ℕ → ℕ → ℕ
i_word imm rs1 funct3 rd opcode =
    imm * 2 ^ 20 + rs1 * 2 ^ 15 + funct3 * 2 ^ 12 + rd * 2 ^ 7 + opcode

abbrev pub slli : ℕ → ℕ → ℕ → ℕ
slli rd rs1 shamt = i_word shamt rs1 1 rd 0x13

abbrev pub srli : ℕ → ℕ → ℕ → ℕ
srli rd rs1 shamt = i_word shamt rs1 5 rd 0x13

abbrev pub load : ℕ → ℕ → ℕ → ℕ → ℕ
load size dest base offset = i_word offset base size dest 0x03

abbrev pub float_load : ℕ → ℕ → ℕ → ℕ → ℕ
float_load size dest base offset = i_word offset base size dest 0x07

-- `{offset[11:5], src, base, size, offset[4:0], opcode}`
abbrev s_word : ℕ → ℕ → ℕ → ℕ → ℕ → ℕ
s_word size src base offset opcode =
    offset / 2 ^ 5 * 2 ^ 25
    + src * 2 ^ 20
    + base * 2 ^ 15
    + size * 2 ^ 12
    + offset % 2 ^ 5 * 2 ^ 7
    + opcode

abbrev pub store : ℕ → ℕ → ℕ → ℕ → ℕ
store size src base offset = s_word size src base offset 0x23

abbrev pub float_store : ℕ → ℕ → ℕ → ℕ → ℕ
float_store size src base offset = s_word size src base offset 0x27

abbrev pub csrw : ℕ → ℕ → ℕ
csrw csr rs1 = i_word csr rs1 1 0 0x73

abbrev pub csrr : ℕ → ℕ → ℕ
csrr csr dest = i_word csr 0 2 dest 0x73

abbrev pub ebreak : ℕ
ebreak = 0x0010_0073

abbrev pub nop : ℕ
nop = 0x13

abbrev pub illegal : ℕ
illegal = 0

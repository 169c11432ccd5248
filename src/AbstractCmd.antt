-- ===== src/AbstractCmd.antt =====
-- rtl/AbstractCmd_Decoder.sv and rtl/AbstractCmd_ROM.sv: an abstract command of the debugger, and the
-- instructions that the hart runs for it. BusWidth is 32, as DM_Datapath.sv has it; `snd` is
-- HasSndScratch.
pub mod Words
pub mod Decoding
pub mod Run
pub mod Transfer
mod Refusal
mod Tests
use jtag_debug_module_for_ri.Common.{
  ℕ, ◌+◌, ◌*◌, ◌/◌, ◌%◌, ◌^◌, Bool, true, false, not, ◌&&◌, ◌||◌, List, [], ◌∷◌, ◌++◌, ◌==◌, ltb,
  leb, if◌then◌else◌, replicate,
}
use jtag_debug_module_for_ri.DebugRom.Csrs.{csr_dscratch0, csr_dscratch1}
use Words.{
  auipc, slli, srli, load, float_load, store, float_store, csrw, csrr, ebreak, nop, illegal,
}

pub record Command : Type 0 where
  pub cmd_type : ℕ
  pub aarsize : ℕ
  pub aarpostincrement : Bool
  pub postexec : Bool
  pub transfer : Bool
  pub write : Bool
  pub regno : ℕ

abbrev bit_of : ℕ → ℕ → Bool
bit_of w i = w / 2 ^ i % 2 == 1

-- The fields of `command_t`, by the decoder's assignments.
unfoldable pub decoded : ℕ → Command
decoded w = record {
  cmd_type = w / 2 ^ 24 % 2 ^ 8;
  aarsize = w / 2 ^ 20 % 2 ^ 3;
  aarpostincrement = bit_of w 19;
  postexec = bit_of w 18;
  transfer = bit_of w 17;
  write = bit_of w 16;
  regno = w % 2 ^ 16;
}

abbrev pub access_register : ℕ
access_register = 0

abbrev pub max_aar : ℕ
max_aar = 3

-- `regno[15:14] != '0`
abbrev pub is_reserved : ℕ → Bool
is_reserved regno = not (regno / 2 ^ 14 % 2 ^ 2 == 0)

unfoldable pub unsupported_command : Command → Bool
unsupported_command c =
    if c.cmd_type == access_register
    then (if ltb c.aarsize max_aar && (c.transfer && is_reserved c.regno)
        then true
        else leb max_aar c.aarsize || c.aarpostincrement)
    else true

abbrev pub a0 : ℕ
a0 = 10

abbrev pub s0 : ℕ
s0 = 8

abbrev pub load_base_addr : Bool → ℕ
load_base_addr snd = if snd then a0 else 0

abbrev pub data_addr : ℕ
data_addr = 0x380

abbrev snd_else_nop : Bool → ℕ → ℕ
snd_else_nop snd w = if snd then w else nop

-- The words that the cases set: the first, and the two pairs at indices 2 and 3.
pub record Body : Type 0 where
  pub first : ℕ
  pub lo2 : ℕ
  pub hi2 : ℕ
  pub lo3 : ℕ
  pub hi3 : ℕ

abbrev only : ℕ → Body
only w = record { first = w; lo2 = nop; hi2 = nop; lo3 = nop; hi3 = nop }

-- `regno_i[12] && !regno_i[5] && regno_i[4:0] == 10`
abbrev pub is_a0 : ℕ → Bool
is_a0 regno = bit_of regno 12 && (not (bit_of regno 5) && regno % 2 ^ 5 == a0)

abbrev pub write_body : Bool → Command → Body
write_body snd c =
    let base = load_base_addr snd in
    let saved = only (snd_else_nop snd (csrw csr_dscratch1 a0)) in
    let through = λ (csr : ℕ). record saved {
      lo2 = csrw csr_dscratch0 s0;
      hi2 = load c.aarsize s0 base data_addr;
      lo3 = csrw csr s0;
      hi3 = csrr csr_dscratch0 s0;
    } in
    if is_reserved c.regno
    then record saved { first = ebreak }
    else if snd && is_a0 c.regno
    then through csr_dscratch1
    else if bit_of c.regno 12
    then (if bit_of c.regno 5
        then record saved { lo2 = float_load c.aarsize (c.regno % 2 ^ 5) base data_addr }
        else record saved { lo2 = load c.aarsize (c.regno % 2 ^ 5) base data_addr })
    else through (c.regno % 2 ^ 12)

abbrev pub read_body : Bool → Command → Body
read_body snd c =
    let base = load_base_addr snd in
    let saved = only (snd_else_nop snd (csrw csr_dscratch1 base)) in
    let through = λ (csr : ℕ). record saved {
      lo2 = csrw csr_dscratch0 s0;
      hi2 = csrr csr s0;
      lo3 = store c.aarsize s0 base data_addr;
      hi3 = csrr csr_dscratch0 s0;
    } in
    if is_reserved c.regno
    then record saved { first = ebreak }
    else if snd && is_a0 c.regno
    then through csr_dscratch1
    else if bit_of c.regno 12
    then (if bit_of c.regno 5
        then record saved { lo2 = float_store c.aarsize (c.regno % 2 ^ 5) base data_addr }
        else record saved { lo2 = store c.aarsize (c.regno % 2 ^ 5) base data_addr })
    else through (c.regno % 2 ^ 12)

abbrev pub body : Bool → Command → Body
body snd c =
    if c.cmd_type == access_register
    then (if ltb c.aarsize max_aar && (c.transfer && c.write)
        then write_body snd c
        else if ltb c.aarsize max_aar && (c.transfer && not c.write)
        then read_body snd c
        else if leb max_aar c.aarsize || c.aarpostincrement
        then only ebreak
        else only illegal)
    else only ebreak

-- The last word of the program: on to the program buffer, or back to the park loop.
abbrev pub ending : Command → ℕ
ending c =
    if c.cmd_type == access_register && (c.postexec && not (unsupported_command c))
    then nop
    else ebreak

-- `abstract_cmd` as 32-bit words, the lower half of each first.
unfoldable pub abstract_cmd : Bool → Command → List ℕ
unfolding unsupported_command
abstract_cmd snd c =
    let b = body snd c in
    b.first
    ∷ snd_else_nop snd (auipc a0 0)
    ∷ snd_else_nop snd (srli a0 a0 12)
    ∷ snd_else_nop snd (slli a0 a0 12)
    ∷ b.lo2
    ∷ b.hi2
    ∷ b.lo3
    ∷ b.hi3
    ∷ snd_else_nop snd (csrr csr_dscratch1 a0)
    ∷ ending c
    ∷ replicate 6 0

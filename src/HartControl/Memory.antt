-- ===== src/HartControl/Memory.antt =====
-- The data of rtl/DM_Mem.sv: what a read of the hart brings in the next cycle, and what a write does
-- to the debugger's data words. The ROM is debug_rom/debug_rom.sv, by rtl/DM_ROM.sv.
--
-- A 64-bit word is its lower and its upper half. The hart's byte of flags is an input here.
use jtag_debug_module_for_ri.Common.{
  ℕ, ◌+◌, ◌-◌, ◌*◌, ◌/◌, ◌%◌, ◌^◌, Bool, true, false, not, ◌&&◌, List, [], ◌==◌, leb, ltb,
  if◌then◌else◌, get_or,
}
use jtag_debug_module_for_ri.HartControl.{
  Access, no_access, write_at, read_at, Strobe, wr_data, rd_where, rd_data, rd_prog, rd_abs_cmd,
  rd_flags, strobe, data_base, prog_base, abs_cmd_base,
}
use jtag_debug_module_for_ri.DebugRom.Rom.{mem, push_all}
use jtag_debug_module_for_ri.AbstractCmd.Words.{jal}
use jtag_debug_module_for_ri.Registers.Csrs.{set_at}
use jtag_debug_module_for_ri.Registers.Words.{bit_of}

pub record MemInputs : Type 0 where
  pub req : Bool
  pub we : Bool
  pub addr : ℕ
  pub wdata : ℕ
  pub be : ℕ
  pub resumereq : Bool
  pub cmdbusy : Bool
  pub access_register : Bool
  pub transfer : Bool
  pub postexec : Bool
  pub flag_byte : ℕ
  pub abstract_cmd : List ℕ
  pub progbuf : List ℕ
  pub words : List ℕ

-- `rdata_q`, `fwd_rom_q`, `word_enable32_q`, and the address register of the ROM
pub record Bank : Type 0 where
  pub rdata_lo : ℕ
  pub rdata_hi : ℕ
  pub fwd_rom : Bool
  pub word_enable32 : Bool
  pub rom_addr : ℕ

abbrev pub access_of : MemInputs → Access
access_of i = if i.req then (if i.we then write_at i.addr else read_at i.addr) else no_access

-- `addr[11:0]` and `addr[11:3]`
abbrev pub low_addr : MemInputs → ℕ
low_addr i = i.addr % 2 ^ 12

abbrev pub row_of : MemInputs → ℕ
row_of i = low_addr i / 8

-- `21'(to) - 21'(from)`
abbrev offset_to : ℕ → ℕ → ℕ
offset_to from to = (to + 2 ^ 21 - from) % 2 ^ 21

abbrev pub where_to : ℕ
where_to = 0x300

abbrev pub resume_address : ℕ
resume_address = 0x808

-- The jump that a hart finds at `where_to`, or 0.
unfoldable pub where_word : MemInputs → ℕ
where_word i =
    if i.cmdbusy
    then (if i.access_register && (not i.transfer && i.postexec)
        then jal 0 (offset_to where_to prog_base)
        else jal 0 (offset_to where_to abs_cmd_base))
    else if i.resumereq
    then jal 0 (offset_to where_to resume_address)
    else 0

-- Row `k` of an array of 64-bit words.
abbrev pub row_at : List ℕ → ℕ → ℕ × ℕ
row_at l k = (get_or l (2 * k) 0, get_or l (2 * k + 1) 0)

-- `rdata_d` of a read; the index of a data word has one bit, the other indices three.
abbrev pub rdata_of : Strobe → MemInputs → ℕ × ℕ → ℕ × ℕ
rdata_of rd_where i old = (where_word i, 0)
rdata_of rd_data i old =
    let k = (row_of i - data_base / 8) * 2 in
    (get_or i.words (k % 2) 0, get_or i.words ((k + 1) % 2) 0)
rdata_of rd_prog i old = row_at i.progbuf ((row_of i - prog_base / 8) % 2 ^ 3)
rdata_of rd_abs_cmd i old = row_at i.abstract_cmd ((row_of i - abs_cmd_base / 8) % 2 ^ 3)
rdata_of rd_flags i old = (if row_of i * 8 == 0x400 then i.flag_byte else 0, 0)
rdata_of _ i old = old

-- The rows of the ROM, the lowest first.
abbrev pub rom_rows : List ℕ
rom_rows = push_all (mem true) []

abbrev pub rom_size : ℕ
rom_size = 20

unfoldable pub rom_word : ℕ → ℕ
unfolding mem
rom_word k = if ltb k rom_size then get_or rom_rows k 0 else 0

-- One edge of the clock.
unfoldable pub bank_edge : MemInputs → Bank → Bank
unfolding strobe
bank_edge i q =
    let (lo, hi) = rdata_of (strobe (access_of i)) i (q.rdata_lo, q.rdata_hi) in
    record {
      rdata_lo = lo;
      rdata_hi = hi;
      fwd_rom = leb 0x800 (low_addr i);
      word_enable32 = i.addr / 4 % 2 == 1;
      rom_addr = if i.req then i.addr / 8 % 2 ^ 5 else q.rom_addr;
    }

-- The lower half of `rdata_o`; its upper half is 0.
unfoldable pub rdata_o : Bank → ℕ
rdata_o q =
    let word = rom_word q.rom_addr in
    if q.fwd_rom
    then (if q.word_enable32 then word / 2 ^ 32 else word % 2 ^ 32)
    else if q.word_enable32
    then q.rdata_hi
    else q.rdata_lo

-- A byte of a word.
abbrev pub byte_of : ℕ → ℕ → ℕ
byte_of k w = w / 2 ^ (8 * k) % 2 ^ 8

abbrev lane : ℕ → ℕ → ℕ → ℕ → ℕ
lane be old new k = (if bit_of be k then byte_of k new else byte_of k old) * 2 ^ (8 * k)

-- The word with the bytes written that are enabled.
abbrev pub merged : ℕ → ℕ → ℕ → ℕ
merged be old new = lane be old new 0 + lane be old new 1 + lane be old new 2 + lane be old new 3

-- `data_o` and `data_valid_o`
abbrev pub word_index : MemInputs → ℕ
word_index i = low_addr i / 4 - data_base / 4

abbrev pub data_after : Strobe → MemInputs → List ℕ × Bool
data_after wr_data i =
    let k = word_index i in (set_at i.words k (merged i.be (get_or i.words k 0) i.wdata), true)
data_after _ i = (i.words, false)

unfoldable pub data_out : MemInputs → List ℕ × Bool
unfolding strobe
data_out i = data_after (strobe (access_of i)) i

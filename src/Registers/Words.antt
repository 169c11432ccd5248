-- ===== src/Registers/Words.antt =====
-- The packed structs of rtl/DM_Pkg.sv that DM_CSRS.sv keeps or shows: `dmcontrol_t`, `sbcs_t`,
-- `abstractauto_t`, `abstractcs_t` and `dmstatus_t`.
use jtag_debug_module_for_ri.Common.{
  ℕ, ◌+◌, ◌*◌, ◌/◌, ◌%◌, ◌^◌, Bool, not, ◌&&◌, ◌==◌, if◌then◌else◌,
}

abbrev pub bit_of : ℕ → ℕ → Bool
bit_of w i = w / 2 ^ i % 2 == 1

abbrev pub to_bit : Bool → ℕ
to_bit b = if b then 1 else 0

abbrev pub field_of : ℕ → ℕ → ℕ → ℕ
field_of w lo n = w / 2 ^ lo % 2 ^ n

pub record Dmcontrol : Type 0 where
  pub haltreq : Bool
  pub resumereq : Bool
  pub hartreset : Bool
  pub ackhavereset : Bool
  pub zero1 : Bool
  pub hasel : Bool
  pub hartsello : ℕ
  pub hartselhi : ℕ
  pub zero0 : ℕ
  pub setresethaltreq : Bool
  pub clrresethaltreq : Bool
  pub ndmreset : Bool
  pub dmactive : Bool

abbrev pub dmcontrol_of : ℕ → Dmcontrol
dmcontrol_of w = record {
  haltreq = bit_of w 31;
  resumereq = bit_of w 30;
  hartreset = bit_of w 29;
  ackhavereset = bit_of w 28;
  zero1 = bit_of w 27;
  hasel = bit_of w 26;
  hartsello = field_of w 16 10;
  hartselhi = field_of w 6 10;
  zero0 = field_of w 4 2;
  setresethaltreq = bit_of w 3;
  clrresethaltreq = bit_of w 2;
  ndmreset = bit_of w 1;
  dmactive = bit_of w 0;
}

abbrev pub dmcontrol_word : Dmcontrol → ℕ
dmcontrol_word c =
    to_bit c.haltreq * 2 ^ 31
    + to_bit c.resumereq * 2 ^ 30
    + to_bit c.hartreset * 2 ^ 29
    + to_bit c.ackhavereset * 2 ^ 28
    + to_bit c.zero1 * 2 ^ 27
    + to_bit c.hasel * 2 ^ 26
    + c.hartsello * 2 ^ 16
    + c.hartselhi * 2 ^ 6
    + c.zero0 * 2 ^ 4
    + to_bit c.setresethaltreq * 2 ^ 3
    + to_bit c.clrresethaltreq * 2 ^ 2
    + to_bit c.ndmreset * 2
    + to_bit c.dmactive

pub record Sbcs : Type 0 where
  pub sbversion : ℕ
  pub reserved : ℕ
  pub sbbusyerror : Bool
  pub sbbusy : Bool
  pub sbreadonaddr : Bool
  pub sbaccess : ℕ
  pub sbautoincrement : Bool
  pub sbreadondata : Bool
  pub sberror : ℕ
  pub sbasize : ℕ
  pub sbaccess128 : Bool
  pub sbaccess64 : Bool
  pub sbaccess32 : Bool
  pub sbaccess16 : Bool
  pub sbaccess8 : Bool

abbrev pub sbcs_of : ℕ → Sbcs
sbcs_of w = record {
  sbversion = field_of w 29 3;
  reserved = field_of w 23 6;
  sbbusyerror = bit_of w 22;
  sbbusy = bit_of w 21;
  sbreadonaddr = bit_of w 20;
  sbaccess = field_of w 17 3;
  sbautoincrement = bit_of w 16;
  sbreadondata = bit_of w 15;
  sberror = field_of w 12 3;
  sbasize = field_of w 5 7;
  sbaccess128 = bit_of w 4;
  sbaccess64 = bit_of w 3;
  sbaccess32 = bit_of w 2;
  sbaccess16 = bit_of w 1;
  sbaccess8 = bit_of w 0;
}

abbrev pub sbcs_word : Sbcs → ℕ
sbcs_word s =
    s.sbversion * 2 ^ 29
    + s.reserved * 2 ^ 23
    + to_bit s.sbbusyerror * 2 ^ 22
    + to_bit s.sbbusy * 2 ^ 21
    + to_bit s.sbreadonaddr * 2 ^ 20
    + s.sbaccess * 2 ^ 17
    + to_bit s.sbautoincrement * 2 ^ 16
    + to_bit s.sbreadondata * 2 ^ 15
    + s.sberror * 2 ^ 12
    + s.sbasize * 2 ^ 5
    + to_bit s.sbaccess128 * 2 ^ 4
    + to_bit s.sbaccess64 * 2 ^ 3
    + to_bit s.sbaccess32 * 2 ^ 2
    + to_bit s.sbaccess16 * 2
    + to_bit s.sbaccess8

-- `'{default: '0, sbaccess: 3'd2}`
abbrev pub sbcs_reset : Sbcs
sbcs_reset = sbcs_of (2 * 2 ^ 17)

pub record Abstractauto : Type 0 where
  pub autoexecprogbuf : ℕ
  pub autoexecdata : ℕ

abbrev pub abstractauto_word : Abstractauto → ℕ
abstractauto_word a = a.autoexecprogbuf * 2 ^ 16 + a.autoexecdata

-- The fields that are set; the others of `abstractcs` are 0, `busy` among them.
abbrev pub abstractcs_word : ℕ → ℕ
abstractcs_word cmderr = 8 * 2 ^ 24 + cmderr * 2 ^ 8 + 2

abbrev both : Bool → ℕ → ℕ
both b lo = to_bit b * 2 ^ (lo + 1) + to_bit b * 2 ^ lo

-- The all- and any- flags of one hart are the same.
abbrev pub dmstatus_word : Bool → Bool → Bool → Bool → Bool → ℕ
dmstatus_word havereset resumeack nonexistent unavailable halted =
    both havereset 18
    + both resumeack 16
    + both nonexistent 14
    + both unavailable 12
    + both (not halted && not unavailable) 10
    + both (halted && not unavailable) 8
    + 2 ^ 7
    + 2

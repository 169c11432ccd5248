-- ===== src/Registers/Bounds/Widths.antt =====
-- The widths of the registers of rtl/DM_CSRS.sv, and of the words that their fields make.

use jtag_debug_module_for_ri.Common.{
  ℕ, zero, suc, ◌^◌, ◌<◌, ◌≤◌, ◌≡◌, refl, Bool, true, false, not, ◌&&◌, List, [], ◌∷◌, arith,
  get_or, replicate,
}
use jtag_debug_module_for_ri.Registers.{data_count, prog_size}
use jtag_debug_module_for_ri.Registers.Words.{
  Dmcontrol, Sbcs, dmcontrol_word, sbcs_word, dmstatus_word, to_bit,
}
use jtag_debug_module_for_ri.Registers.Csrs.{
  Regs, Op, no_op, read_op, write_op, Inputs, set_at, cleared,
}

-- `n` words of 32 bits
abbrev pub Words32 : ℕ → List ℕ → Type 0
Words32 n [] = n ≡ 0
Words32 n (w ∷ ws) = (w < 2 ^ 32) × (m : ℕ) × (n ≡ suc m) × Words32 m ws

abbrev pub SbcsFits : Sbcs → Type 0
SbcsFits s =
    (s.sbversion < 2 ^ 3)
    × (s.reserved < 2 ^ 6)
    × (s.sbaccess < 2 ^ 3)
    × (s.sberror < 2 ^ 3)
    × (s.sbasize < 2 ^ 7)

-- All but `dmcontrol`
abbrev pub Contents : Regs → Type 0
Contents s =
    (s.command < 2 ^ 32)
    × (s.abstractauto.autoexecprogbuf < 2 ^ prog_size)
    × (s.abstractauto.autoexecdata < 2 ^ data_count)
    × Words32 prog_size s.progbuf
    × Words32 data_count s.words
    × SbcsFits s.sbcs
    × (s.sbaddr_lo < 2 ^ 32)
    × (s.sbaddr_hi < 2 ^ 32)
    × (s.sbdata_lo < 2 ^ 32)
    × (s.sbdata_hi < 2 ^ 32)

-- The only hart is hart 0.
pub record Fits (s : Regs) : Type 0 where
  pub hartsello : s.dmcontrol.hartsello ≡ 0
  pub hartselhi : s.dmcontrol.hartselhi ≡ 0
  pub zero0 : s.dmcontrol.zero0 ≡ 0
  pub contents : Contents s

abbrev pub OpFits : Op → Type 0
OpFits no_op = Unit {0}
OpFits (read_op r) = Unit {0}
OpFits (write_op r w) = w < 2 ^ 32

-- The widths of what is driven.
pub record InputsFit (i : Inputs) : Type 0 where
  pub op : OpFits i.op
  pub cmderr : i.cmderr < 2 ^ 3
  pub next_dm_addr : i.next_dm_addr < 2 ^ 32
  pub hartinfo : i.hartinfo < 2 ^ 32
  pub data_in : Words32 data_count i.data_in
  pub sbaddress : i.sbaddress < 2 ^ 32
  pub sbdata : i.sbdata < 2 ^ 32
  pub sberror : i.sberror < 2 ^ 3

pub set_at-Words32 :
    (n : ℕ) (xs : List ℕ) (k w : ℕ) → Words32 n xs → w < 2 ^ 32 → Words32 n (set_at xs k w)
set_at-Words32 n [] k w h f = h
set_at-Words32 n (x ∷ xs) zero w (hx, m, e, hs) f = (f, m, e, hs)
set_at-Words32 n (x ∷ xs) (suc k) w (hx, m, e, hs) f = (hx, m, e, set_at-Words32 m xs k w hs f)

pub get_or-Words32 : (n : ℕ) (xs : List ℕ) (k : ℕ) → Words32 n xs → get_or xs k 0 < 2 ^ 32
get_or-Words32 n [] k h = omega arith
get_or-Words32 n (x ∷ xs) zero (hx, m, e, hs) = hx
get_or-Words32 n (x ∷ xs) (suc k) (hx, m, e, hs) = get_or-Words32 m xs k hs

to_bit-le : (b : Bool) → to_bit b ≤ 1
to_bit-le true = omega arith
to_bit-le false = omega arith

pub zero_words : (n : ℕ) → Words32 n (replicate n 0)
zero_words zero = refl
zero_words (suc n) = (omega arith, n, refl, zero_words n)

pub cleared-Fits : (a h : Bool) → Fits (cleared a h)
cleared-Fits a h = record {
  hartsello = refl;
  hartselhi = refl;
  zero0 = refl;
  contents = (
    omega arith,
    omega arith,
    omega arith,
    zero_words 8,
    zero_words 2,
    (omega arith, omega arith, omega arith, omega arith, omega arith),
    omega arith,
    omega arith,
    omega arith,
    omega arith,
  );
}

pub dmcontrol_word_lt :
    (c : Dmcontrol) → c.hartsello ≡ 0 → c.hartselhi ≡ 0 → c.zero0 ≡ 0 → dmcontrol_word c < 2 ^ 32
dmcontrol_word_lt c lo hi z = omega (
  arith,
  lo,
  hi,
  z,
  to_bit-le c.haltreq,
  to_bit-le c.resumereq,
  to_bit-le c.hartreset,
  to_bit-le c.ackhavereset,
  to_bit-le c.zero1,
  to_bit-le c.hasel,
  to_bit-le c.setresethaltreq,
  to_bit-le c.clrresethaltreq,
  to_bit-le c.ndmreset,
  to_bit-le c.dmactive,
)

pub sbcs_word_lt : (s : Sbcs) → SbcsFits s → sbcs_word s < 2 ^ 32
sbcs_word_lt s f = omega (
  arith,
  f,
  to_bit-le s.sbbusyerror,
  to_bit-le s.sbbusy,
  to_bit-le s.sbreadonaddr,
  to_bit-le s.sbautoincrement,
  to_bit-le s.sbreadondata,
  to_bit-le s.sbaccess128,
  to_bit-le s.sbaccess64,
  to_bit-le s.sbaccess32,
  to_bit-le s.sbaccess16,
  to_bit-le s.sbaccess8,
)

pub status_word_lt : (a b c d e : Bool) → dmstatus_word a b c d e < 2 ^ 32
status_word_lt a b c d e = omega (
  arith,
  to_bit-le a,
  to_bit-le b,
  to_bit-le c,
  to_bit-le d,
  to_bit-le (not e && not d),
  to_bit-le (e && not d),
)

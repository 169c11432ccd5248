-- ===== src/Registers/Bounds.antt =====
-- The widths of the registers of rtl/DM_CSRS.sv: what they hold between edges, and the word of a
-- response.
pub mod Widths
mod Kept
use native.Mathlib.Nat.{mod-lt}
use jtag_debug_module_for_ri.Common.{
  ℕ, zero, suc, ◌^◌, ◌<◌, ◌≤◌, ◌≡◌, refl, Bool, true, false, not, ◌&&◌, List, [], ◌∷◌,
  if◌then◌else◌, arith, get_or, replicate,
}
use jtag_debug_module_for_ri.Registers.{
  Reg, data_reg, prog_reg, dmcontrol, dmstatus, hartinfo, abstractcs, command, abstractauto, nextdm,
  haltsum0, haltsum1, haltsum2, haltsum3, sbcs, sbaddress0, sbaddress1, sbdata0, sbdata1, unnamed,
  data_count, prog_size,
}
use jtag_debug_module_for_ri.Registers.Words.{
  Dmcontrol, Sbcs, dmcontrol_word, sbcs_word, dmstatus_word, to_bit,
}
use jtag_debug_module_for_ri.Registers.Csrs.{
  Regs, Op, no_op, read_op, write_op, Inputs, set_at, defaults, with_busyerror, written_sbcs,
  read_data, is_sb, sb_refused, write_refused, read_csr, accepted, write_csr, access, reports, next,
  tick, outputs, cleared, power_on,
}
use jtag_debug_module_for_ri.Registers.Bounds.Widths.{
  Words32, SbcsFits, Contents, Fits, OpFits, InputsFit, set_at-Words32, get_or-Words32,
  cleared-Fits, dmcontrol_word_lt, sbcs_word_lt, status_word_lt, zero_words,
}
use jtag_debug_module_for_ri.Registers.Bounds.Kept.{
  defaults-Contents, access-Contents, reports-Contents, both_ways,
}

pub tick-Fits : (i : Inputs) (s : Regs) → InputsFit i → Fits s → Fits (tick i s)
unfolding tick
tick-Fits i s f h =
    let d : Regs = access i.op i s (defaults i s) in
    both_ways Fits s.dmcontrol.dmactive (next i s)
      (cleared (next i s).dmcontrol.dmactive (next i s).havereset)
      (record {
        hartsello = refl;
        hartselhi = refl;
        zero0 = refl;
        contents = reports-Contents i d f (
            access-Contents i.op i s (defaults i s) f.op h.contents
              (defaults-Contents i s f h.contents));
      })
      (cleared-Fits (next i s).dmcontrol.dmactive (next i s).havereset)

-- Any number of edges.
abbrev pub ticks : List Inputs → Regs → Regs
ticks [] s = s
ticks (i ∷ r) s = ticks r (tick i s)

abbrev pub AllFit : List Inputs → Type 0
AllFit [] = Unit {0}
AllFit (i ∷ r) = InputsFit i × AllFit r

ticks-Fits : (r : List Inputs) (s : Regs) → AllFit r → Fits s → Fits (ticks r s)
ticks-Fits [] s a h = h
ticks-Fits (i ∷ r) s (f, a) h = ticks-Fits r (tick i s) a (tick-Fits i s f h)

read_data_lt : (i : Inputs) (s : Regs) (r : Reg) → InputsFit i → Fits s → read_data i s r < 2 ^ 32
read_data_lt i s (data_reg k) f h = get_or-Words32 data_count s.words k h.contents.4
read_data_lt i s (prog_reg k) f h = get_or-Words32 prog_size s.progbuf k h.contents.3
read_data_lt i s dmcontrol f h = dmcontrol_word_lt s.dmcontrol h.hartsello h.hartselhi h.zero0
read_data_lt i s dmstatus f h = status_word_lt _ _ _ _ _
read_data_lt i s hartinfo f h = f.hartinfo
read_data_lt i s abstractcs f h = omega (arith, f.cmderr)
read_data_lt i s command f h = omega arith
read_data_lt i s abstractauto f h = omega (arith, h.contents.1, h.contents.2)
read_data_lt i s nextdm f h = f.next_dm_addr
read_data_lt i s haltsum0 f h = ground arith
read_data_lt i s haltsum1 f h = ground arith
read_data_lt i s haltsum2 f h = ground arith
read_data_lt i s haltsum3 f h = ground arith
read_data_lt i s sbcs f h = sbcs_word_lt s.sbcs h.contents.5
read_data_lt i s sbaddress0 f h = h.contents.6
read_data_lt i s sbaddress1 f h = h.contents.7
read_data_lt i s sbdata0 f h = ground (arith, h.contents.8)
read_data_lt i s sbdata1 f h = ground (arith, h.contents.9)
read_data_lt i s unnamed f h = omega arith

response_lt :
    (o : Op) (i : Inputs) (s : Regs)
    → i.op ≡ o
    → InputsFit i
    → Fits s
    → (outputs i s).dmi_data < 2 ^ 32
unfolding outputs
response_lt no_op i s e f h = rw e (omega arith)
response_lt (read_op r) i s e f h = rw e (read_data_lt i s r f h)
response_lt (write_op r w) i s e f h = rw e (omega arith)

-- From power-on, after any number of edges at which everything that is driven has its width, each
-- register has its width, the program buffer eight words and the data two, the selected hart is
-- hart 0, and the word of the next response has 32 bits.
pub outputs-ticks :
    (r : List Inputs) (i : Inputs)
    → AllFit r
    → InputsFit i
    → Fits (ticks r power_on) × ((outputs i (ticks r power_on)).dmi_data < 2 ^ 32)
outputs-ticks r i a f =
    let h = ticks-Fits r power_on a (cleared-Fits false true) in
    (h, response_lt i.op i (ticks r power_on) refl f h)

-- ===== src/Registers/Bus.antt =====
-- rtl/DM_CSRS.sv and rtl/DM_SBA.sv together, as rtl/DM_Datapath.sv connects them: the debugger's
-- registers start accesses to the system bus, and take the answers.
pub mod Waiting
pub mod Reading
use jtag_debug_module_for_ri.Common.{
  ℕ, ◌+◌, ◌*◌, ◌/◌, ◌%◌, ◌^◌, ◌<◌, ◌≡◌, refl, sym, ◌∙◌, ap, Bool, true, false, ltb, List, [], ◌∷◌,
  ◌++◌, if◌then◌else◌, arith,
}
use mathlib.Core.Path.{subst}
use jtag_debug_module_for_ri.Sba as Sba
use jtag_debug_module_for_ri.Sba.{
  idle, read, wait_read, too_wide, misaligned, answer_error, answered,
}
use jtag_debug_module_for_ri.Sba.Access.{
  legal, ask_waits, ask_granted, answer_waits, answered_shows,
}
use jtag_debug_module_for_ri.Registers.{sbaddress0, sbdata0}
use jtag_debug_module_for_ri.Registers.Csrs.{
  Regs, no_op, read_op, write_op, Inputs, Outputs, tick, outputs, success,
}

-- What the bus drives.
pub record Answer : Type 0 where
  pub gnt : Bool
  pub r_valid : Bool
  pub r_err : Bool
  pub r_other_err : Bool
  pub r_rdata : ℕ

pub record System : Type 0 where
  pub sba : Sba.State
  pub regs : Regs

-- The registers' outputs to the bus's state machine. The last three start an access.
abbrev pub to_sba : Answer → Regs → Bool → Bool → Bool → Sba.Inputs
to_sba b s address_write data_read data_write = record {
  gnt = b.gnt;
  r_valid = b.r_valid;
  r_err = b.r_err;
  r_other_err = b.r_other_err;
  r_rdata = b.r_rdata;
  sbaddress = s.sbaddr_lo;
  sbaddress_write_valid = address_write;
  sbreadonaddr = s.sbcs.sbreadonaddr;
  sbautoincrement = s.sbcs.sbautoincrement;
  sbaccess = s.sbcs.sbaccess;
  sbreadondata = s.sbcs.sbreadondata;
  sbdata = s.sbdata_lo;
  sbdata_read_valid = data_read;
  sbdata_write_valid = data_write;
}

-- What the state machine drives does not depend on the starts.
abbrev pub driven : Answer → System → Sba.Outputs
driven b t = Sba.outputs (to_sba b t.regs false false false) t.sba

-- The registers' inputs, with what comes from the bus in place.
abbrev pub from_sba : Sba.Outputs → Inputs → Inputs
from_sba o n = record n {
  sbaddress = o.sbaddress_o;
  sbdata = o.sbdata_o;
  sbdata_valid = o.sbdata_valid;
  sbbusy = o.sbbusy;
  sberror_valid = o.sberror_valid;
  sberror = o.sberror;
}

unfoldable pub system_edge : Answer → Inputs → System → System
system_edge b n t =
    let i = from_sba (driven b t) n in
    let c = outputs i t.regs in
    record {
      sba =
          Sba.step
            (to_sba b t.regs c.sbaddress_write_valid c.sbdata_read_valid c.sbdata_write_valid)
            t.sba;
      regs = tick i t.regs;
    }

-- The response to the debugger in the same cycle.
unfoldable pub system_outputs : Answer → Inputs → System → Outputs
system_outputs b n t = outputs (from_sba (driven b t) n) t.regs

unfoldable pub system_edges : List (Answer × Inputs) → System → System
system_edges [] t = t
system_edges ((b, n) ∷ r) t = system_edges r (system_edge b n t)

-- ===== src/Transport.antt =====
-- rtl/DTM_top.sv with the JTAG port (rtl/DTM_JTAG_TAP.sv) that it instantiates: the port's state and
-- instruction select what the transport module's registers do at an edge of TCK, and the port shows
-- their lowest bits on TDO. The clock domain crossing (rtl/DTM_CDC.sv) is an input.
pub mod Periods
pub mod Scan
pub mod Whole
pub mod Registers
pub mod Waiting
pub mod Reading
mod Tests
use jtag_debug_module_for_ri.Common.{ℕ, Bool, true, false, List, [], ◌∷◌}
use jtag_debug_module_for_ri.Tap as Tap
use jtag_debug_module_for_ri.Tap.{
  State, test_logic_reset, capture_dr, shift_dr, update_dr, Tap, Selected, dtmcs_select, dmi_select,
  bit0, select, cycle,
}
use jtag_debug_module_for_ri.Dtm as Dtm
use jtag_debug_module_for_ri.Dtm.{Dtm, step}

-- The signals of the crossing on the side of TCK.
pub record Crossing : Type 0 where
  pub req_ready : Bool
  pub resp_valid : Bool
  pub resp_data : List Bool
  pub resp : ℕ

-- One period of TCK: the pins, and the crossing at its rising edge.
pub record Period : Type 0 where
  pub tms : Bool
  pub td : Bool
  pub crossing : Crossing

pub record Port : Type 0 where
  pub tap : Tap
  pub dtm : Dtm

-- `capture_dr`, `shift_dr`, `update_dr` and `test_logic_reset` of `p_tap_fsm`
abbrev pub captures : State → Bool
captures capture_dr = true
captures _ = false

abbrev pub shifts : State → Bool
shifts shift_dr = true
shifts _ = false

abbrev pub updates : State → Bool
updates update_dr = true
updates _ = false

abbrev pub clears : State → Bool
clears test_logic_reset = true
clears _ = false

-- `p_data_reg_sel`
abbrev pub selects_dtmcs : Selected → Bool
selects_dtmcs dtmcs_select = true
selects_dtmcs _ = false

abbrev pub selects_dmi : Selected → Bool
selects_dmi dmi_select = true
selects_dmi _ = false

-- What the transport module reads at a rising edge, by the port's state and selection before it.
abbrev pub inputs_in : State → Selected → Period → Dtm.Inputs
inputs_in s sel q = record {
  tdi = q.td;
  capture = captures s;
  shift = shifts s;
  update = updates s;
  dtmcs_select = selects_dtmcs sel;
  dmi_select = selects_dmi sel;
  jtag_dmi_clear = clears s;
  req_ready = q.crossing.req_ready;
  resp_valid = q.crossing.resp_valid;
  resp_data = q.crossing.resp_data;
  resp = q.crossing.resp;
}

abbrev pub dtm_inputs : Period → Tap → Dtm.Inputs
dtm_inputs q t = inputs_in t.tap_state (select t.jtag_ir) q

-- What the port reads: the pins, and `dtmcs_q[0]` and `dr_q[0]` of the transport module.
abbrev pub tap_inputs : Period → Dtm → Tap.Inputs
tap_inputs q d = record { tms = q.tms; td = q.td; dtmcs_tdo = bit0 d.dtmcs; dmi_tdo = bit0 d.dr }

-- One period of TCK: both modules take the rising edge with the values before it, and the port the
-- falling edge with the values after. The port's rising edge does not read the transport module.
unfoldable pub period : List Bool → Period → Port → Port
period idcode_value q p =
    let d = step (dtm_inputs q p.tap) p.dtm in
    record { tap = cycle idcode_value (tap_inputs q d) p.tap; dtm = d }

unfoldable pub periods : List Bool → List Period → Port → Port
periods idcode_value [] p = p
periods idcode_value (q ∷ qs) p = periods idcode_value qs (period idcode_value q p)

-- TDO before each period of a row, and the port after them.
unfoldable pub scan : List Bool → List Period → Port → List Bool × Port
scan idcode_value [] p = ([], p)
scan idcode_value (q ∷ qs) p =
    let (outs, u) = scan idcode_value qs (period idcode_value q p) in (p.tap.td_o ∷ outs, u)

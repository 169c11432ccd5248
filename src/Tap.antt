-- ===== src/Tap.antt =====
-- rtl/DTM_JTAG_TAP.sv: the JTAG test access port, at its module's parameters IrLength = 5 and any
-- IdcodeValue.
--
-- A packed vector is a list of its bits, bit 0 first, so that a shift drops the head and appends
-- TDI. The two clock edges are two functions, `posedge` and `negedge`, with the values that the
-- combinational blocks have at that edge; the test-mode clock multiplexer is left out, with
-- `testmode_i` low. An asynchronous reset is `reset`.
pub mod Fsm
pub mod Scan
mod Tests
use jtag_debug_module_for_ri.Common.{
  ℕ, ◌+◌, ◌*◌, ◌≡◌, Bool, true, false, ◌||◌, List, [], ◌∷◌, ◌++◌, ◌==◌, if◌then◌else◌, replicate,
}

pub data State : Type 0 where
  test_logic_reset run_test_idle select_dr_scan capture_dr shift_dr exit1_dr pause_dr : State
  exit2_dr update_dr select_ir_scan capture_ir shift_ir exit1_ir pause_ir exit2_ir : State
  update_ir : State

-- The value of a vector, and its bit 0.
abbrev pub value : List Bool → ℕ
value [] = 0
value (true ∷ l) = 1 + 2 * value l
value (false ∷ l) = 2 * value l

abbrev pub bit0 : List Bool → Bool
bit0 [] = false
bit0 (b ∷ l) = b

-- `{td, q[n-1:1]}`
abbrev pub shift_in : Bool → List Bool → List Bool
shift_in td [] = []
shift_in td (b ∷ l) = l ++ td ∷ []

pub record Tap : Type 0 where
  pub tap_state : State
  pub jtag_ir_shift : List Bool
  pub jtag_ir : List Bool
  pub idcode : List Bool
  pub bypass : Bool
  pub td_o : Bool
  pub tdo_oe : Bool

-- What the port reads at an edge: TMS, TDI, and the two registers of the DTM that end in TDO.
pub record Inputs : Type 0 where
  pub tms : Bool
  pub td : Bool
  pub dtmcs_tdo : Bool
  pub dmi_tdo : Bool

-- the `tap_state_d` of `p_tap_fsm`
unfoldable pub next_state : State → Bool → State
next_state test_logic_reset tms = if tms then test_logic_reset else run_test_idle
next_state run_test_idle tms = if tms then select_dr_scan else run_test_idle
next_state select_dr_scan tms = if tms then select_ir_scan else capture_dr
next_state capture_dr tms = if tms then exit1_dr else shift_dr
next_state shift_dr tms = if tms then exit1_dr else shift_dr
next_state exit1_dr tms = if tms then update_dr else pause_dr
next_state pause_dr tms = if tms then exit2_dr else pause_dr
next_state exit2_dr tms = if tms then update_dr else shift_dr
next_state update_dr tms = if tms then select_dr_scan else run_test_idle
next_state select_ir_scan tms = if tms then test_logic_reset else capture_ir
next_state capture_ir tms = if tms then exit1_ir else shift_ir
next_state shift_ir tms = if tms then exit1_ir else shift_ir
next_state exit1_ir tms = if tms then update_ir else pause_ir
next_state pause_ir tms = if tms then exit2_ir else pause_ir
next_state exit2_ir tms = if tms then update_ir else shift_ir
next_state update_ir tms = if tms then select_dr_scan else run_test_idle

-- The register that the instruction selects.
pub data Selected : Type 0 where
  bypass_select idcode_select dtmcs_select dmi_select : Selected

unfoldable pub select : List Bool → Selected
select ir =
    if value ir == 0x0
    then bypass_select
    else if value ir == 0x1f
    then bypass_select
    else if value ir == 0x1
    then idcode_select
    else if value ir == 0x10
    then dtmcs_select
    else if value ir == 0x11
    then dmi_select
    else bypass_select

abbrev pub ir_idcode : List Bool
ir_idcode = true ∷ false ∷ false ∷ false ∷ false ∷ []

-- `IrLength'(4'b0101)`
abbrev pub ir_captured : List Bool
ir_captured = true ∷ false ∷ true ∷ false ∷ false ∷ []

-- `p_jtag` at the rising edge
abbrev pub ir_shift_d : State → Bool → List Bool → List Bool
ir_shift_d shift_ir td q = shift_in td q
ir_shift_d capture_ir td q = ir_captured
ir_shift_d test_logic_reset td q = replicate 5 false
ir_shift_d _ td q = q

abbrev pub ir_d : State → List Bool → List Bool → List Bool
ir_d update_ir shifted q = shifted
ir_d test_logic_reset shifted q = ir_idcode
ir_d _ shifted q = q

-- the data registers at the rising edge
abbrev pub idcode_d : List Bool → State → Selected → Bool → List Bool → List Bool
idcode_d idcode_value test_logic_reset sel td q = idcode_value
idcode_d idcode_value capture_dr idcode_select td q = idcode_value
idcode_d idcode_value shift_dr idcode_select td q = shift_in td q
idcode_d idcode_value _ _ td q = q

abbrev pub bypass_d : State → Selected → Bool → Bool → Bool
bypass_d test_logic_reset sel td q = false
bypass_d capture_dr bypass_select td q = false
bypass_d shift_dr bypass_select td q = td
bypass_d _ _ td q = q

unfoldable pub posedge : List Bool → Inputs → Tap → Tap
unfolding next_state
posedge idcode_value i t = record t {
  tap_state = next_state t.tap_state i.tms;
  jtag_ir_shift = ir_shift_d t.tap_state i.td t.jtag_ir_shift;
  jtag_ir = ir_d t.tap_state t.jtag_ir_shift t.jtag_ir;
  idcode = idcode_d idcode_value t.tap_state (select t.jtag_ir) i.td t.idcode;
  bypass = bypass_d t.tap_state (select t.jtag_ir) i.td t.bypass;
}

-- `tdo_mux` of `p_out_sel`; all but the three registers named there go through `bypass_q`.
abbrev pub tdo_of : Selected → Inputs → Tap → Bool
tdo_of idcode_select i t = bit0 t.idcode
tdo_of dtmcs_select i t = i.dtmcs_tdo
tdo_of dmi_select i t = i.dmi_tdo
tdo_of bypass_select i t = t.bypass

abbrev pub tdo_mux : State → Inputs → Tap → Bool
tdo_mux shift_ir i t = bit0 t.jtag_ir_shift
tdo_mux _ i t = tdo_of (select t.jtag_ir) i t

abbrev pub shifting : State → Bool
shifting shift_ir = true
shifting shift_dr = true
shifting _ = false

unfoldable pub negedge : Inputs → Tap → Tap
negedge i t = record t { td_o = tdo_mux t.tap_state i t; tdo_oe = shifting t.tap_state }

-- One period of TCK, for the instruction register and the port's own data registers.
unfoldable pub cycle : List Bool → Inputs → Tap → Tap
unfolding posedge negedge
cycle idcode_value i t = negedge i (posedge idcode_value i t)

unfoldable pub reset : List Bool → Tap
reset idcode_value = record {
  tap_state = test_logic_reset;
  jtag_ir_shift = replicate 5 false;
  jtag_ir = ir_idcode;
  idcode = idcode_value;
  bypass = false;
  td_o = false;
  tdo_oe = false;
}

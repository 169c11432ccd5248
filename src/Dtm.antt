-- ===== src/Dtm.antt =====
-- rtl/DTM_top.sv: the debug transport module between the JTAG port and the debug module's interface
-- (DMI), at one rising edge of TCK. The types are those of rtl/DM_Pkg.sv.
--
-- A packed vector is a list of its bits, bit 0 first; a packed struct is its fields, the last
-- first. The variable `dmi` is declared with an initial value and no process or continuous
-- assignment drives it. In a simulator that initialises a variable once (IEEE 1800, 6.8) it keeps
-- one value, and in a tool that takes the declaration as a net it follows `dr_q`, as in the session
-- of tb/openocd_log.txt: the field `dmi` says which, and every edge keeps it. What comes from the
-- port (DTM_JTAG_TAP.sv) and from the clock domain crossing (DTM_CDC.sv) at the edge is the record
-- `Inputs`. The state machine's `default` branch needs an encoding that the enumeration does not
-- have, and is left out.
pub mod Laws
pub mod Transactions
pub mod Requests
mod Tests
use jtag_debug_module_for_ri.Common.{
  ℕ, zero, suc, ◌+◌, ◌*◌, ◌/◌, ◌%◌, ◌≡◌, Bool, true, false, not, ◌&&◌, ◌||◌, List, [], ◌∷◌, ◌++◌,
  ◌==◌, if◌then◌else◌, replicate, take, drop, get_or,
}
use jtag_debug_module_for_ri.Tap.{value, bit0, shift_in}

-- The low `n` bits of a number.
abbrev pub bits : ℕ → ℕ → List Bool
bits zero v = []
bits (suc n) v = (v % 2 == 1) ∷ bits n (v / 2)

-- `dmi_error_e`
pub data DmiError : Type 0 where
  no_error reserved_error op_failed dmi_busy : DmiError

abbrev pub error_code : DmiError → List Bool
error_code no_error = false ∷ false ∷ []
error_code reserved_error = true ∷ false ∷ []
error_code op_failed = false ∷ true ∷ []
error_code dmi_busy = true ∷ true ∷ []

-- `state_e`
pub data State : Type 0 where
  idle read wait_read_valid write wait_write_valid : State

-- `dtm_op_e` and `dtm_op_status_e` of DM_Pkg.sv
abbrev pub dtm_read : ℕ
dtm_read = 1

abbrev pub dtm_write : ℕ
dtm_write = 2

abbrev pub dtm_success : ℕ
dtm_success = 0

abbrev pub dtm_err : ℕ
dtm_err = 2

abbrev pub dtm_busy : ℕ
dtm_busy = 3

-- The declaration `dmi_t dmi = dmi_t'(dr_q)`: the bits that the variable got once, or `dr_q`.
pub data Variable : Type 0 where
  once : List Bool → Variable
  follows : Variable

pub record Dtm : Type 0 where
  pub dtmcs : List Bool
  pub dr : List Bool
  pub state : State
  pub address : List Bool
  pub data_reg : List Bool
  pub error : DmiError
  pub dmi : Variable

pub record Inputs : Type 0 where
  pub tdi : Bool
  pub capture : Bool
  pub shift : Bool
  pub update : Bool
  pub dtmcs_select : Bool
  pub dmi_select : Bool
  pub jtag_dmi_clear : Bool
  pub req_ready : Bool
  pub resp_valid : Bool
  pub resp_data : List Bool
  pub resp : ℕ

-- The DMI request that the module shows, `dmi_req` with `dmi_req_valid`.
pub record Request : Type 0 where
  pub valid : Bool
  pub addr : List Bool
  pub req_data : List Bool
  pub op : ℕ

abbrev pub requesting : State → Bool
requesting read = true
requesting write = true
requesting _ = false

abbrev pub req_op : State → ℕ
req_op write = dtm_write
req_op _ = dtm_read

abbrev pub is_no_error : DmiError → Bool
is_no_error no_error = true
is_no_error _ = false

abbrev pub is_busy_error : DmiError → Bool
is_busy_error dmi_busy = true
is_busy_error _ = false

abbrev pub is_idle : State → Bool
is_idle idle = true
is_idle _ = false

abbrev pub is_reading : State → Bool
is_reading read = true
is_reading wait_read_valid = true
is_reading _ = false

-- `{zero1, dmihardreset, dmireset, zero0, idle, dmistat, abits, version}`
abbrev pub dtmcs_captured : DmiError → List Bool
dtmcs_captured e = bits 4 1 ++ (bits 6 7 ++ (error_code e ++ (bits 3 1 ++ replicate 17 false)))

abbrev pub dmireset : Dtm → Bool
dmireset d = get_or d.dtmcs 16 false

abbrev pub dmihardreset : Dtm → Bool
dmihardreset d = get_or d.dtmcs 17 false

abbrev pub dmi_clear : Inputs → Dtm → Bool
dmi_clear i d = i.jtag_dmi_clear || (i.dtmcs_select && (i.update && dmihardreset d))

unfoldable pub dtmcs_d : Inputs → Dtm → List Bool
dtmcs_d i d =
    let captured = if i.capture && i.dtmcs_select then dtmcs_captured d.error else d.dtmcs in
    if i.shift && i.dtmcs_select then shift_in i.tdi d.dtmcs else captured

-- the fields of `dmi_t`, `{address, data, op}`
abbrev pub dmi_op : List Bool → ℕ
dmi_op dr = value (take 2 dr)

abbrev pub dmi_data : List Bool → List Bool
dmi_data dr = take 32 (drop 2 dr)

abbrev pub dmi_address : List Bool → List Bool
dmi_address dr = drop 34 dr

abbrev pub dmi_of : List Bool → List Bool → DmiError → List Bool
dmi_of address data_reg e = error_code e ++ (data_reg ++ address)

-- The value of `dmi`, by that of `dr_q`.
abbrev pub dmi_value : Variable → List Bool → List Bool
dmi_value (once l) dr = l
dmi_value follows dr = dr

-- What the state machine alone decides, before the common part of `p_fsm`.
pub record Next : Type 0 where
  pub state_d : State
  pub address_d : List Bool
  pub data_d : List Bool
  pub error_dmi_busy : Bool
  pub error_dmi_op_failed : Bool

-- The response's data, or the word that stands for its failure.
abbrev pub resp_word : ℕ → List Bool → List Bool
resp_word r w =
    if r == dtm_success
    then w
    else if r == dtm_err
    then bits 32 0xDEAD_BEEF
    else if r == dtm_busy
    then bits 32 0xB051_B051
    else bits 32 0xBAAD_C0DE

abbrev pub op_state : ℕ → State
op_state op = if op == dtm_read then read else if op == dtm_write then write else idle

unfoldable pub fsm : State → Inputs → Dtm → Next
fsm idle i d =
    if i.dmi_select && (i.update && is_no_error d.error)
    then record {
      state_d = op_state (dmi_op (dmi_value d.dmi d.dr));
      address_d = dmi_address (dmi_value d.dmi d.dr);
      data_d = dmi_data (dmi_value d.dmi d.dr);
      error_dmi_busy = false;
      error_dmi_op_failed = false;
    }
    else record {
      state_d = idle;
      address_d = d.address;
      data_d = d.data_reg;
      error_dmi_busy = false;
      error_dmi_op_failed = false;
    }
fsm read i d = record {
  state_d = if i.req_ready then wait_read_valid else read;
  address_d = d.address;
  data_d = d.data_reg;
  error_dmi_busy = false;
  error_dmi_op_failed = false;
}
fsm wait_read_valid i d = record {
  state_d = if i.resp_valid then idle else wait_read_valid;
  address_d = d.address;
  data_d = if i.resp_valid then resp_word i.resp i.resp_data else d.data_reg;
  error_dmi_busy = i.resp_valid && i.resp == dtm_busy;
  error_dmi_op_failed = i.resp_valid && i.resp == dtm_err;
}
fsm write i d = record {
  state_d = if i.req_ready then wait_write_valid else write;
  address_d = d.address;
  data_d = d.data_reg;
  error_dmi_busy = false;
  error_dmi_op_failed = false;
}
fsm wait_write_valid i d = record {
  state_d = if i.resp_valid then idle else wait_write_valid;
  address_d = d.address;
  data_d = d.data_reg;
  error_dmi_busy = i.resp_valid && i.resp == dtm_busy;
  error_dmi_op_failed = i.resp_valid && i.resp == dtm_err;
}

-- `error_dmi_busy` at the end of `p_fsm`, where `dmi_clear` is low
abbrev pub busy_now : Inputs → Dtm → Bool → Bool
busy_now i d busy =
    busy || ((i.update && not (is_idle d.state)) || (i.capture && is_reading d.state))

abbrev pub error_d : Inputs → Dtm → Bool → Bool → DmiError
error_d i d busy failed =
    let marked = if busy && is_no_error d.error then dmi_busy else d.error in
    let settled = if failed && is_no_error d.error then op_failed else marked in
    if i.update && (dmireset d && i.dtmcs_select) then no_error else settled

-- `p_shift`, where `dmi_clear` is low
abbrev pub dr_d : Inputs → Dtm → Bool → List Bool
dr_d i d busy =
    let captured =
      if is_no_error d.error && not busy
      then dmi_of d.address d.data_reg no_error
      else if is_busy_error d.error || busy
      then dmi_of d.address d.data_reg dmi_busy
      else d.dr in
    let held = if i.capture && i.dmi_select then captured else d.dr in
    if i.shift && i.dmi_select then shift_in i.tdi d.dr else held

pub cleared : Inputs → Dtm → Dtm
cleared i d = record d {
  dtmcs = dtmcs_d i d;
  dr = replicate 41 false;
  state = idle;
  address = replicate 7 false;
  data_reg = replicate 32 false;
  error = no_error;
}

pub running : Inputs → Dtm → Dtm
unfolding fsm
running i d =
    let n = fsm d.state i d in
    let busy = busy_now i d n.error_dmi_busy in
    record d {
      dtmcs = dtmcs_d i d;
      dr = dr_d i d busy;
      state = n.state_d;
      address = n.address_d;
      data_reg = n.data_d;
      error = error_d i d busy n.error_dmi_op_failed;
    }

-- One rising edge of TCK.
unfoldable pub step : Inputs → Dtm → Dtm
unfolding cleared running dtmcs_d
step i d = if dmi_clear i d then cleared i d else running i d

-- The request on the DMI before the edge; it is withdrawn in a period with `dmi_clear`.
abbrev pub request : Inputs → Dtm → Request
request i d = record {
  valid = not (dmi_clear i d) && requesting d.state;
  addr = d.address;
  req_data = d.data_reg;
  op = req_op d.state;
}

-- `trst_ni` low; the reset does not assign `dmi`.
unfoldable pub reset : Dtm → Dtm
reset d = record d {
  dtmcs = replicate 32 false;
  dr = replicate 41 false;
  state = idle;
  address = replicate 7 false;
  data_reg = replicate 32 false;
  error = no_error;
}

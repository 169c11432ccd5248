-- ===== src/Sba.antt =====
-- rtl/DM_SBA.sv: the debugger's accesses to the system bus.
--
-- The only register is the state. The debugger's registers (DM_CSRS.sv) and the bus are the record
-- `Inputs`, and `outputs` is what the combinational blocks drive at an edge. Addresses and data are
-- numbers of 32 bits, and the byte enables a list, byte 0 first. The state machine's `default`
-- branch needs an encoding that the enumeration does not have.
pub mod Access
pub mod Lanes
mod Tests
use jtag_debug_module_for_ri.Common.{
  ℕ, ◌+◌, ◌-◌, ◌*◌, ◌/◌, ◌%◌, ◌^◌, Bool, true, false, not, ◌&&◌, ◌||◌, List, [], ◌∷◌, ◌==◌, ltb,
  leb, if◌then◌else◌,
}

-- `sba_state_e` of DM_Pkg.sv
pub data State : Type 0 where
  idle read write wait_read wait_write : State

pub record Inputs : Type 0 where
  pub gnt : Bool
  pub r_valid : Bool
  pub r_err : Bool
  pub r_other_err : Bool
  pub r_rdata : ℕ
  pub sbaddress : ℕ
  pub sbaddress_write_valid : Bool
  pub sbreadonaddr : Bool
  pub sbautoincrement : Bool
  pub sbaccess : ℕ
  pub sbreadondata : Bool
  pub sbdata : ℕ
  pub sbdata_read_valid : Bool
  pub sbdata_write_valid : Bool

pub record Outputs : Type 0 where
  pub req : Bool
  pub add : ℕ
  pub we : Bool
  pub wdata : ℕ
  pub be : List Bool
  pub sbaddress_o : ℕ
  pub sbdata_o : ℕ
  pub sbdata_valid : Bool
  pub sbbusy : Bool
  pub sberror_valid : Bool
  pub sberror : ℕ

abbrev pub is_idle : State → Bool
is_idle idle = true
is_idle _ = false

-- `sbaddress[1:0]`
abbrev pub be_idx : Inputs → ℕ
be_idx i = i.sbaddress % 4

-- `be_idx & sbaccess_mask[1:0]`: the mask clears the bits below `sbaccess`.
abbrev pub be_idx_masked : Inputs → ℕ
be_idx_masked i = be_idx i / 2 ^ i.sbaccess * 2 ^ i.sbaccess

-- `p_be_mask`
abbrev pub be_mask : Inputs → List Bool
be_mask i =
    let k = be_idx i in
    if i.sbaccess == 0
    then (k == 0) ∷ (k == 1) ∷ (k == 2) ∷ (k == 3) ∷ []
    else if i.sbaccess == 1
    then (if leb 2 k then false ∷ false ∷ true ∷ true ∷ [] else true ∷ true ∷ false ∷ false ∷ [])
    else if i.sbaccess == 2
    then true ∷ true ∷ true ∷ true ∷ []
    else false ∷ false ∷ false ∷ false ∷ []

abbrev pub none_enabled : List Bool
none_enabled = false ∷ false ∷ false ∷ false ∷ []

-- `sbaccess_i > BeIdxWidth`
abbrev pub too_wide : Inputs → Bool
too_wide i = ltb 2 i.sbaccess

-- `|(sbaddress_i & ~sbaccess_mask)`
abbrev pub misaligned : Inputs → Bool
misaligned i = not (i.sbaddress % 2 ^ i.sbaccess == 0)

-- What the case on the state decides, before the two checks at the end of `p_fsm`.
abbrev pub next_state : State → Inputs → State
next_state idle i =
    if i.sbaddress_write_valid && i.sbreadonaddr
    then read
    else if i.sbdata_write_valid
    then write
    else if i.sbdata_read_valid && i.sbreadondata
    then read
    else idle
next_state read i = if i.gnt then wait_read else read
next_state write i = if i.gnt then wait_write else write
next_state wait_read i = if i.r_valid then idle else wait_read
next_state wait_write i = if i.r_valid then idle else wait_write

abbrev pub requesting : State → Bool
requesting read = true
requesting write = true
requesting _ = false

abbrev pub writing : State → Bool
writing write = true
writing _ = false

abbrev pub answered : State → Inputs → Bool
answered wait_read i = i.r_valid
answered wait_write i = i.r_valid
answered _ i = false

-- `sberror_o` of an answer
abbrev pub answer_error : Inputs → ℕ
answer_error i = if i.r_other_err then 7 else if i.r_err then 2 else 0

unfoldable pub outputs : Inputs → State → Outputs
outputs i s =
    let busy = not (is_idle s) in
    let wide = too_wide i && busy in
    let skew = misaligned i && busy in
    let done = answered s i in
    record {
      req = requesting s && not (wide || skew);
      add = i.sbaddress;
      we = writing s;
      wdata = (i.sbdata * 2 ^ (8 * be_idx_masked i)) % 2 ^ 32;
      be = if requesting s then be_mask i else none_enabled;
      sbaddress_o =
          (i.sbaddress + (if done && i.sbautoincrement then 2 ^ i.sbaccess % 2 ^ 32 else 0))
          % 2 ^ 32;
      sbdata_o = i.r_rdata / 2 ^ (8 * be_idx_masked i);
      sbdata_valid = i.r_valid;
      sbbusy = busy;
      sberror_valid = skew || (wide || (done && (i.r_other_err || i.r_err)));
      sberror = if skew then 3 else if wide then 4 else if done then answer_error i else 0;
    }

-- One edge of the clock.
unfoldable pub step : Inputs → State → State
step i s = if (too_wide i || misaligned i) && not (is_idle s) then idle else next_state s i

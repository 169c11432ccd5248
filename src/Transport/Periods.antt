-- ===== src/Transport/Periods.antt =====
-- Single periods of TCK in rtl/DTM_top.sv while no transaction runs, by the state of its JTAG port
-- (rtl/DTM_JTAG_TAP.sv).
use jtag_debug_module_for_ri.Common.{
  ◌≡◌, refl, sym, Bool, true, false, not, ◌&&◌, List, [], ◌∷◌, ◌++◌, arith, if◌then◌else◌, drop,
  take, get_or,
}
use jtag_debug_module_for_ri.Tap.{
  State, capture_dr, shift_dr, update_dr, Selected, dtmcs_select, dmi_select, shift_in,
}
use jtag_debug_module_for_ri.Dtm as Dtm
use jtag_debug_module_for_ri.Dtm.{
  Dtm, no_error, dmi_busy, idle, read, write, step, is_no_error, is_busy_error, dmi_of, dmi_op,
  dmi_address, dmi_data, dmi_value, op_state, dtmcs_captured, dmireset, dmihardreset, reset,
}
use jtag_debug_module_for_ri.Transport.{Period, inputs_in, captures, shifts, updates, clears}

-- What a capture puts into the DMI register, by the error that stands: with a failed operation it
-- keeps what was there.
abbrev pub captured : Dtm → List Bool
captured d =
    if is_no_error d.error
    then false ∷ false ∷ (d.data_reg ++ d.address)
    else if is_busy_error d.error
    then true ∷ true ∷ (d.data_reg ++ d.address)
    else d.dr

-- The operation that 41 bits ask for by their two lowest: 1 is a read and 2 a write.
abbrev pub asks : List Bool → Dtm.State
asks l =
    let low = get_or l 0 false in
    let high = get_or l 1 false in
    if low && not high then read else if high && not low then write else idle

asks-op_state : (l : List Bool) → op_state (dmi_op l) ≡ asks l
asks-op_state [] = refl
asks-op_state (true ∷ []) = refl
asks-op_state (false ∷ []) = refl
asks-op_state (true ∷ true ∷ l) = refl
asks-op_state (true ∷ false ∷ l) = refl
asks-op_state (false ∷ true ∷ l) = refl
asks-op_state (false ∷ false ∷ l) = refl

-- What an update of the DMI register leaves: where no error stands the request is taken from `dmi`,
-- which is the scan register or the bits that the variable got once.
abbrev pub requested : Dtm → Dtm
requested d =
    if is_no_error d.error
    then record d {
      state = asks (dmi_value d.dmi d.dr);
      address = drop 34 (dmi_value d.dmi d.dr);
      data_reg = take 32 (drop 2 (dmi_value d.dmi d.dr));
    }
    else d

-- What `dmihardreset` leaves.
abbrev pub hard_reset : Dtm → Dtm
hard_reset d = record (reset d) { dtmcs = d.dtmcs }

module _ (q : Period) (d : Dtm) (at_rest : d.state ≡ idle) where
  -- The port is in none of the states that the transport module follows.
  pub edge-quiet :
      (s : State) (sel : Selected)
      → captures s ≡ false
      → shifts s ≡ false
      → updates s ≡ false
      → clears s ≡ false
      → step (inputs_in s sel q) d ≡ d
  unfolding step
  edge-quiet s sel c h u j = ground arith

  pub edge-capture_dmi : step (inputs_in capture_dr dmi_select q) d ≡ record d { dr = captured d }
  unfolding step
  edge-capture_dmi = ground arith

  pub edge-shift_dmi :
      step (inputs_in shift_dr dmi_select q) d ≡ record d { dr = shift_in q.td d.dr }
  unfolding step
  edge-shift_dmi = ground arith

  pub edge-update_dmi : step (inputs_in update_dr dmi_select q) d ≡ requested d
  unfolding step
  edge-update_dmi = rw (sym (asks-op_state (dmi_value d.dmi d.dr))) (ground arith)

  pub edge-capture_dtmcs :
      step (inputs_in capture_dr dtmcs_select q) d ≡ record d { dtmcs = dtmcs_captured d.error }
  unfolding step
  edge-capture_dtmcs = ground arith

  pub edge-shift_dtmcs :
      step (inputs_in shift_dr dtmcs_select q) d ≡ record d { dtmcs = shift_in q.td d.dtmcs }
  unfolding step
  edge-shift_dtmcs = ground arith

  -- An update of DTMCS clears the module's DMI, clears its error, or does nothing, by two bits.
  pub edge-update_dtmcs : step (inputs_in update_dr dtmcs_select q) d ≡ (
      if dmihardreset d
      then hard_reset d
      else if dmireset d
      then record d { error = no_error }
      else d)
  unfolding step reset
  edge-update_dtmcs = ground arith

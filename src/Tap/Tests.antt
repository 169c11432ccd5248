-- ===== src/Tap/Tests.antt =====
-- The theorems on the JTAG port at concrete inputs.
use jtag_debug_module_for_ri.Common.{◌≡◌, refl, Bool, true, false, List, [], ◌∷◌, ◌++◌, inl}
use jtag_debug_module_for_ri.Tap.{
  pause_ir, shift_ir, run_test_idle, Tap, Inputs, reset, select, ir_captured, idcode_select,
}
use jtag_debug_module_for_ri.Tap.Fsm.{cycles, cycles-reset}
use jtag_debug_module_for_ri.Tap.Scan.{
  scan, shifted, IsShifting, to_shift_dr, ir_scan, with_pins, scan_queue, scan_idcode,
  cycles-ir_scan,
}

abbrev high : Inputs
high = record { tms = true; td = false; dtmcs_tdo = false; dmi_tdo = true }

abbrev low : Inputs
low = record high { tms = false }

abbrev low_one : Inputs
low_one = record low { td = true }

-- A short identification code.
abbrev code : List Bool
code = true ∷ false ∷ true ∷ true ∷ []

abbrev pausing : Tap
pausing = record (reset code) { tap_state = pause_ir; bypass = true; idcode = [] }

abbrev at_idle : Tap
at_idle = record (reset code) { tap_state = run_test_idle; idcode = true ∷ [] }

abbrev in_shift_ir : Tap
in_shift_ir = record (reset code) { tap_state = shift_ir; jtag_ir_shift = ir_captured; td_o = true }

cycles-reset_example :
    cycles code (high ∷ high ∷ high ∷ high ∷ high ∷ high ∷ []) pausing
    ≡ record (reset code) { td_o = true }
cycles-reset_example =
    cycles-reset code high high high high high high [] pausing
      (refl, (refl, (refl, (refl, (refl, (refl, tt))))))

in_shift_ir-IsShifting : IsShifting shift_ir in_shift_ir
unfolding reset
in_shift_ir-IsShifting = record {
  in_state = refl;
  own = inl refl;
  nonempty = λ e. cc;
  showing = refl;
}

scan_queue_example :
    let (outs, u) = scan code (low_one ∷ low ∷ low_one ∷ []) in_shift_ir in
    (outs ++ shifted shift_ir u ≡ ir_captured ++ (true ∷ false ∷ true ∷ [])) × IsShifting shift_ir u
scan_queue_example =
    scan_queue code shift_ir (low_one ∷ low ∷ low_one ∷ []) in_shift_ir in_shift_ir-IsShifting
      (refl, (refl, (refl, tt)))

at_idle-idcode : select at_idle.jtag_ir ≡ idcode_select
unfolding select reset
at_idle-idcode = refl

at_idle-run_test_idle : at_idle.tap_state ≡ run_test_idle
at_idle-run_test_idle = refl

scan_idcode_once :
    (scan code (low ∷ low ∷ low ∷ low ∷ []) (cycles code (to_shift_dr low low low) at_idle)).0
    ≡ code
scan_idcode_once =
    scan_idcode code low low low (low ∷ low ∷ low ∷ low ∷ []) at_idle (λ e. cc) refl at_idle-idcode
      (refl, (refl, (refl, (refl, tt)))) refl

cycles-ir_scan_once :
    let u = cycles code (with_pins low (ir_scan true false false false true)) at_idle in
    (u.tap_state ≡ run_test_idle)
    × (u.jtag_ir ≡ true ∷ false ∷ false ∷ false ∷ true ∷ [])
    × (u.idcode ≡ true ∷ [])
    × (u.bypass ≡ false)
unfolding reset
cycles-ir_scan_once = cycles-ir_scan code low true false false false true at_idle refl

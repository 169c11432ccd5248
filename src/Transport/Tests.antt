-- ===== src/Transport/Tests.antt =====
-- The theorems on the scans of rtl/DTM_top.sv at concrete inputs.
use jtag_debug_module_for_ri.Common.{
  ℕ, ◌≡◌, refl, Bool, true, false, List, [], ◌∷◌, ◌++◌, map, replicate,
}
use jtag_debug_module_for_ri.Tap.{run_test_idle, Tap}
use jtag_debug_module_for_ri.Tap as Tap
use jtag_debug_module_for_ri.Dtm as Dtm
use jtag_debug_module_for_ri.Dtm.{follows, Dtm, bits, no_error, dmi_busy, error_code}
use jtag_debug_module_for_ri.Dtm.Laws.{IsWide}
use jtag_debug_module_for_ri.Transport.{Crossing, Period, Port, periods}
use jtag_debug_module_for_ri.Transport.Scan.{Bits, IsAt}
use jtag_debug_module_for_ri.Transport.Whole.{enter, leave, dr_scan}
use jtag_debug_module_for_ri.Transport.Registers.{dmi_register, dtmcs_register, dtmcs_scan}
use jtag_debug_module_for_ri.Transport.Waiting.{IsAnswered, waiting}
use jtag_debug_module_for_ri.Transport.Reading.{read_scans}

abbrev code : List Bool
code = true ∷ false ∷ true ∷ true ∷ []

abbrev nothing : Crossing
nothing = record { req_ready = false; resp_valid = false; resp_data = []; resp = 0 }

abbrev q : Period
q = record { tms = false; td = true; crossing = nothing }

abbrev taking : Period
taking = record q { crossing = record nothing { req_ready = true } }

abbrev answering : Period
answering = record q {
  crossing = record { req_ready = false; resp_valid = true; resp_data = bits 32 77; resp = 0 };
}

-- DTMCS and DMIACCESS
abbrev tap_at : ℕ → Tap
tap_at ir = record (Tap.reset code) { tap_state = run_test_idle; jtag_ir = bits 5 ir }

-- `dmi` follows the scan register; an error stands.
abbrev dtm_failed : Dtm
dtm_failed = record {
  dtmcs = replicate 32 false;
  dr = replicate 41 false;
  state = Dtm.idle;
  address = replicate 7 false;
  data_reg = replicate 32 false;
  error = dmi_busy;
  dmi = follows;
}

abbrev dtm_fine : Dtm
dtm_fine = record dtm_failed { error = no_error }

-- Bit 16 alone.
abbrev dmireset_bits : Bits
dmireset_bits = replicate 16 (false, nothing) ++ ((true, nothing) ∷ replicate 15 (false, nothing))

abbrev at_dtmcs : Port
at_dtmcs = record { tap = tap_at 0x10; dtm = dtm_failed }

at_dtmcs-IsAt : IsAt code dtmcs_register run_test_idle at_dtmcs
unfolding Tap.reset Tap.select
at_dtmcs-IsAt = record { in_state = refl; chosen = refl; at_rest = refl }

dtmcs_scan_example :
    let (outs, u) = dr_scan code (enter q q q) dmireset_bits (leave q q) at_dtmcs in
    (outs ≡ bits 32 0x1c71)
    × (u.dtm ≡ record dtm_failed { dtmcs = bits 32 0x10000; error = no_error })
    × (u.tap.tap_state ≡ run_test_idle)
    × (u.tap.jtag_ir ≡ bits 5 0x10)
unfolding Tap.reset
dtmcs_scan_example = dtmcs_scan code q q q dmireset_bits q q at_dtmcs at_dtmcs-IsAt refl

-- A read of address 0x11.
abbrev read_bits : Bits
read_bits = map (λ b. (b, nothing)) (true ∷ false ∷ (replicate 32 false ++ bits 7 0x11))

abbrev at_dmi : Port
at_dmi = record { tap = tap_at 0x11; dtm = dtm_fine }

at_dmi-IsAt : IsAt code dmi_register run_test_idle at_dmi
unfolding Tap.reset Tap.select
at_dmi-IsAt = record { in_state = refl; chosen = refl; at_rest = refl }

dtm_fine-IsWide : IsWide dtm_fine
dtm_fine-IsWide = record {
  dtmcs_width = refl;
  dr_width = refl;
  address_width = refl;
  data_width = refl;
  dmi_width = tt;
}

answered : IsAnswered (q ∷ q ∷ []) taking (q ∷ []) answering
answered = record {
  untaken = (refl, refl, (refl, refl, tt));
  taken_low = refl;
  takes = refl;
  unanswered = (refl, refl, tt);
  answer_low = refl;
  answers = refl;
}

read_scans_example :
    let (_, p1) = dr_scan code (enter q q q) read_bits (leave q q) at_dmi in
    let p2 = periods code (waiting (q ∷ q ∷ []) taking (q ∷ []) answering) p1 in
    let (outs, u) = dr_scan code (enter q q q) read_bits (leave q q) p2 in
    (outs ≡ error_code no_error ++ (bits 32 77 ++ bits 7 0x11))
    × (u.tap.tap_state ≡ run_test_idle)
    × (u.tap.jtag_ir ≡ bits 5 0x11)
unfolding Tap.reset
read_scans_example =
    read_scans code q q q q q q q q q q read_bits read_bits (q ∷ q ∷ []) taking (q ∷ []) answering
      at_dmi at_dmi-IsAt dtm_fine-IsWide refl refl refl refl answered refl

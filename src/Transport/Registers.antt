-- ===== src/Transport/Registers.antt =====
-- Scans of the two registers of rtl/DTM_top.sv by the debugger, through the JTAG port
-- (rtl/DTM_JTAG_TAP.sv).
use jtag_debug_module_for_ri.Common.{
  ◌≡◌, refl, ◌∙◌, true, false, List, [], ◌∷◌, ◌++◌, replicate, get_or, arith, length, if◌then◌else◌,
  sym, Bool,
}
use jtag_debug_module_for_ri.Tap.{run_test_idle, dtmcs_select, dmi_select}
use jtag_debug_module_for_ri.Dtm as Dtm
use jtag_debug_module_for_ri.Dtm.{
  DmiError, no_error, reserved_error, op_failed, dmi_busy, idle, Dtm, dtmcs_captured,
}
use jtag_debug_module_for_ri.Dtm.Laws.{IsWide, length-dmi_of, length-dtmcs_captured}
use jtag_debug_module_for_ri.Transport.{Period, Port}
use jtag_debug_module_for_ri.Transport.Periods.{
  captured, requested, edge-capture_dmi, edge-shift_dmi, edge-update_dmi, edge-capture_dtmcs,
  edge-shift_dtmcs, edge-update_dtmcs,
}
use jtag_debug_module_for_ri.Transport.Scan.{ScanRegister, Bits, tdis, IsAt}
use jtag_debug_module_for_ri.Transport.Whole.{with_tms, enter, leave, dr_scan, dr_scan_lem}

abbrev pub dmi_register : ScanRegister
dmi_register = record {
  selected = dmi_select;
  get = λ d. d.dr;
  put = λ l d. record d { dr = l };
  load = captured;
  get-put = λ l d. refl;
  put-put = λ l m d. refl;
  state-put = λ l d. refl;
  shifts_in = λ q d e. edge-shift_dmi q d e;
  loads = λ q d e. edge-capture_dmi q d e;
  shown = λ q d t. refl;
}

abbrev pub dtmcs_register : ScanRegister
dtmcs_register = record {
  selected = dtmcs_select;
  get = λ d. d.dtmcs;
  put = λ l d. record d { dtmcs = l };
  load = λ d. dtmcs_captured d.error;
  get-put = λ l d. refl;
  put-put = λ l m d. refl;
  state-put = λ l d. refl;
  shifts_in = λ q d e. edge-shift_dtmcs q d e;
  loads = λ q d e. edge-capture_dtmcs q d e;
  shown = λ q d t. refl;
}

-- The status of an error in DTMCS and DMI, lowest bit first.
abbrev pub status : DmiError → List Bool
status no_error = false ∷ false ∷ []
status reserved_error = true ∷ false ∷ []
status op_failed = false ∷ true ∷ []
status dmi_busy = true ∷ true ∷ []

-- DTMCS with version 1, addresses of 7 bits, this status, and one idle cycle.
abbrev pub dtmcs_fields : List Bool → List Bool
dtmcs_fields s =
    (true ∷ false ∷ false ∷ false ∷ [])
    ++ ((true ∷ true ∷ true ∷ false ∷ false ∷ false ∷ [])
        ++ (s ++ (true ∷ false ∷ false ∷ replicate 17 false)))

dtmcs_captured-fields : (e : DmiError) → dtmcs_captured e ≡ dtmcs_fields (status e)
dtmcs_captured-fields no_error = refl
dtmcs_captured-fields reserved_error = refl
dtmcs_captured-fields op_failed = refl
dtmcs_captured-fields dmi_busy = refl

-- Every register but DTMCS, and `dmi`, as out of reset.
abbrev pub cleared_dmi : Dtm → Dtm
cleared_dmi d = record {
  dtmcs = d.dtmcs;
  dr = replicate 41 false;
  state = idle;
  address = replicate 7 false;
  data_reg = replicate 32 false;
  error = no_error;
  dmi = d.dmi;
}

pub length-captured : (d : Dtm) → IsWide d → length (captured d) ≡ 41
length-captured d w = ground (
  arith,
  length-dmi_of d.address d.data_reg no_error w.address_width w.data_width,
  length-dmi_of d.address d.data_reg dmi_busy w.address_width w.data_width,
  w.dr_width,
)

module _ (v : List Bool) (a b c : Period) (bs : Bits) (y z : Period) (p : Port) where
  -- From Run-Test/Idle with DMIACCESS selected and no transaction running, a scan of 41 bits reads
  -- at TDO, by the error that stands, the status 0 or 3 with the data register and the address, or,
  -- after a failed operation, the bits of the scan before. It leaves its own bits in the scan
  -- register, and returns to Run-Test/Idle with the same instruction. Where no error stands the
  -- module takes a request: from the bits of this scan if the variable `dmi` follows the scan
  -- register, and from the bits that the variable got once if not.
  pub dmi_scan :
      IsAt v dmi_register run_test_idle p
      → IsWide p.dtm
      → length bs ≡ 41
      → let (outs, u) = dr_scan v (enter a b c) bs (leave y z) p in
        (outs ≡ captured p.dtm)
        × (u.dtm ≡ requested (record p.dtm { dr = tdis bs }))
        × (u.tap.tap_state ≡ run_test_idle)
        × (u.tap.jtag_ir ≡ p.tap.jtag_ir)
  dmi_scan h w len =
      let (outs_lem, dtm_lem, there, ir) =
        dr_scan_lem v dmi_register a b c bs y z p h (omega (arith, len))
          (len ∙ sym (length-captured p.dtm w)) in
      (
        outs_lem,
        dtm_lem ∙ edge-update_dmi (with_tms false z) (record p.dtm { dr = tdis bs }) h.at_rest,
        there,
        ir,
      )

  -- From Run-Test/Idle with DTMCS selected and no transaction running, a scan of 32 bits reads at
  -- TDO, lowest bit first, the version 1 in four bits, the width 7 of an address in six, the status
  -- of the error that stands (0 for none, 2 for a failed operation, 3 for busy) in two, the idle
  -- hint 1 in three, and then zeros. The bits scanned in act by two of them: bit 17 clears the
  -- transport module's registers but DTMCS as a reset does, bit 16 the error alone, and without
  -- them nothing but DTMCS changes.
  pub dtmcs_scan :
      IsAt v dtmcs_register run_test_idle p
      → length bs ≡ 32
      → let (outs, u) = dr_scan v (enter a b c) bs (leave y z) p in
        let d = record p.dtm { dtmcs = tdis bs } in
        (outs ≡ dtmcs_fields (status p.dtm.error))
        × (u.dtm ≡ (
            if get_or (tdis bs) 17 false
            then cleared_dmi d
            else if get_or (tdis bs) 16 false
            then record d { error = no_error }
            else d))
        × (u.tap.tap_state ≡ run_test_idle)
        × (u.tap.jtag_ir ≡ p.tap.jtag_ir)
  unfolding Dtm.reset
  dtmcs_scan h len =
      let (outs_lem, dtm_lem, there, ir) =
        dr_scan_lem v dtmcs_register a b c bs y z p h (omega (arith, len))
          (len ∙ sym (length-dtmcs_captured p.dtm.error)) in
      (
        outs_lem ∙ dtmcs_captured-fields p.dtm.error,
        dtm_lem ∙ edge-update_dtmcs (with_tms false z) (record p.dtm { dtmcs = tdis bs }) h.at_rest,
        there,
        ir,
      )

-- ===== src/Transport/Whole.antt =====
-- Whole scans through a register of rtl/DTM_top.sv behind its JTAG port (rtl/DTM_JTAG_TAP.sv): from
-- Run-Test/Idle over the capture, the shift and the update, and back.
use jtag_debug_module_for_ri.Common.{
  ◌<◌, ◌≡◌, refl, sym, ◌∙◌, ap, Bool, true, false, List, [], ◌∷◌, ◌++◌, arith, length,
}
use jtag_debug_module_for_ri.Tap.{
  State, run_test_idle, select_dr_scan, capture_dr, shift_dr, exit1_dr, update_dr, Tap, Inputs,
  bit0, posedge, cycle, select, tdo_of,
}
use jtag_debug_module_for_ri.Tap.Scan.{append_prefix}
use jtag_debug_module_for_ri.Dtm.{Dtm, idle, step}
use jtag_debug_module_for_ri.Transport.{
  Period, Port, captures, shifts, updates, clears, inputs_in, tap_inputs, period, periods, scan,
}
use jtag_debug_module_for_ri.Transport.Periods.{edge-quiet}
use jtag_debug_module_for_ri.Transport.Scan.{ScanRegister, Bits, bits_in, tdis, IsAt, scan-bits_in}

abbrev pub with_tms : Bool → Period → Period
with_tms b q = record q { tms = b }

-- The way from Run-Test/Idle to the shift, and back by the update.
abbrev pub enter : Period → Period → Period → List Period
enter a b c = with_tms true a ∷ with_tms false b ∷ with_tms false c ∷ []

abbrev pub leave : Period → Period → List Period
leave a b = with_tms true a ∷ with_tms false b ∷ []

-- A whole scan: what the debugger reads at TDO, and the port after it.
unfoldable pub dr_scan : List Bool → List Period → Bits → List Period → Port → List Bool × Port
dr_scan v before bs after p =
    let (outs, u) = scan v (bits_in bs) (periods v before p) in (outs, periods v after u)

module _ (v : List Bool) (r : ScanRegister) where
  -- One period in another state of the path of a data register.
  tap-run_test_idle :
      (i : Inputs) (t : Tap)
      → t.tap_state ≡ run_test_idle
      → i.tms ≡ true
      → ((cycle v i t).tap_state ≡ select_dr_scan) × ((cycle v i t).jtag_ir ≡ t.jtag_ir)
  unfolding cycle
  tap-run_test_idle i t e high = rw (e, high) (refl, refl)

  tap-select_dr_scan :
      (i : Inputs) (t : Tap)
      → t.tap_state ≡ select_dr_scan
      → i.tms ≡ false
      → ((cycle v i t).tap_state ≡ capture_dr) × ((cycle v i t).jtag_ir ≡ t.jtag_ir)
  unfolding cycle
  tap-select_dr_scan i t e low = rw (e, low) (refl, refl)

  tap-capture_dr :
      (i : Inputs) (t : Tap)
      → t.tap_state ≡ capture_dr
      → i.tms ≡ false
      → ((cycle v i t).tap_state ≡ shift_dr)
        × ((cycle v i t).jtag_ir ≡ t.jtag_ir)
        × ((cycle v i t).td_o ≡ tdo_of (select t.jtag_ir) i (posedge v i t))
  unfolding cycle
  tap-capture_dr i t e low = rw (e, low) (refl, refl, refl)

  tap-exit1_dr :
      (i : Inputs) (t : Tap)
      → t.tap_state ≡ exit1_dr
      → i.tms ≡ true
      → ((cycle v i t).tap_state ≡ update_dr) × ((cycle v i t).jtag_ir ≡ t.jtag_ir)
  unfolding cycle
  tap-exit1_dr i t e high = rw (e, high) (refl, refl)

  tap-update_dr :
      (i : Inputs) (t : Tap)
      → t.tap_state ≡ update_dr
      → i.tms ≡ false
      → ((cycle v i t).tap_state ≡ run_test_idle) × ((cycle v i t).jtag_ir ≡ t.jtag_ir)
  unfolding cycle
  tap-update_dr i t e low = rw (e, low) (refl, refl)

  -- A period in which the transport module does nothing.
  quiet :
      (s : State) (q : Period) (p : Port)
      → IsAt v r s p
      → captures s ≡ false
      → shifts s ≡ false
      → updates s ≡ false
      → clears s ≡ false
      → (period v q p).dtm ≡ p.dtm
  unfolding period
  quiet s q p h c sh u j =
      rw h.in_state (edge-quiet q p.dtm h.at_rest s (select p.tap.jtag_ir) c sh u j)

  tap-period :
      (q : Period) (p : Port) → (period v q p).tap ≡ cycle v (tap_inputs q (period v q p).dtm) p.tap
  unfolding period
  tap-period q p = refl

  moved_IsAt :
      {s s' : State} (q : Period) (p : Port)
      → IsAt v r s p
      → (period v q p).dtm.state ≡ idle
      → ((i : Inputs)
          → i.tms ≡ q.tms
          → ((cycle v i p.tap).tap_state ≡ s') × ((cycle v i p.tap).jtag_ir ≡ p.tap.jtag_ir))
      → IsAt v r s' (period v q p) × ((period v q p).tap.jtag_ir ≡ p.tap.jtag_ir)
  moved_IsAt q p h rests goes =
      let (there, kept) = goes (tap_inputs q (period v q p).dtm) refl in
      let ir : (period v q p).tap.jtag_ir ≡ p.tap.jtag_ir =
        ap (λ (t : Tap). t.jtag_ir) (tap-period q p) ∙ kept in
      (
        record {
          in_state = ap (λ (t : Tap). t.tap_state) (tap-period q p) ∙ there;
          chosen = rw ir h.chosen;
          at_rest = rests;
        },
        ir,
      )

  updated :
      (q : Period) (p : Port)
      → IsAt v r update_dr p
      → (period v q p).dtm ≡ step (inputs_in update_dr r.selected q) p.dtm
  unfolding period
  updated q p h = rw (h.in_state, h.chosen) refl

  -- The capture: the register is loaded, and TDO shows its lowest bit.
  capture_period :
      (q : Period) (p : Port)
      → IsAt v r capture_dr p
      → q.tms ≡ false
      → let u = period v q p in
        (u.dtm ≡ r.put (r.load p.dtm) p.dtm) × (u.tap.td_o ≡ bit0 (r.get u.dtm))
  unfolding period
  capture_period q p h low =
      let d : Dtm = (period v q p).dtm in
      (
        rw (h.in_state, h.chosen) (r.loads q p.dtm h.at_rest),
        (tap-capture_dr (tap_inputs q d) p.tap h.in_state low).2
            ∙ ap (λ s. tdo_of s (tap_inputs q d) (posedge v (tap_inputs q d) p.tap)) h.chosen
            ∙ r.shown q d (posedge v (tap_inputs q d) p.tap),
      )

  -- From Run-Test/Idle to the shift: the register holds what a capture loads, and TDO shows its
  -- lowest bit.
  entered :
      (a b c : Period) (p : Port)
      → IsAt v r run_test_idle p
      → let u = periods v (enter a b c) p in
        IsAt v r shift_dr u
        × (u.dtm ≡ r.put (r.load p.dtm) p.dtm)
        × (u.tap.jtag_ir ≡ p.tap.jtag_ir)
        × (u.tap.td_o ≡ bit0 (r.get u.dtm))
  unfolding periods
  entered a b c p h =
      let q1 : Period = with_tms true a in
      let q2 : Period = with_tms false b in
      let q3 : Period = with_tms false c in
      let p1 : Port = period v q1 p in
      let p2 : Port = period v q2 p1 in
      let still1 : p1.dtm ≡ p.dtm = quiet run_test_idle q1 p h refl refl refl refl in
      let (at1, ir1) =
        moved_IsAt {s' = select_dr_scan} q1 p h (rw still1 h.at_rest)
          (λ i e. tap-run_test_idle i p.tap h.in_state e) in
      let still2 : p2.dtm ≡ p1.dtm = quiet select_dr_scan q2 p1 at1 refl refl refl refl in
      let (at2, ir2) =
        moved_IsAt {s' = capture_dr} q2 p1 at1 (rw still2 at1.at_rest)
          (λ i e. tap-select_dr_scan i p1.tap at1.in_state e) in
      let (loaded, shows) = capture_period q3 p2 at2 refl in
      let rests : (period v q3 p2).dtm.state ≡ idle =
        ap (λ (d : Dtm). d.state) loaded ∙ r.state-put _ _ ∙ at2.at_rest in
      let (at3, ir3) =
        moved_IsAt {s' = shift_dr} q3 p2 at2 rests
          (λ i e. let (there, kept, _) = tap-capture_dr i p2.tap at2.in_state e in (there, kept)) in
      (at3, loaded ∙ ap (λ (d : Dtm). r.put (r.load d) d) (still2 ∙ still1), ir3 ∙ ir2 ∙ ir1, shows)

  left :
      (a b : Period) (p : Port)
      → IsAt v r exit1_dr p
      → let u = periods v (leave a b) p in
        (u.dtm ≡ step (inputs_in update_dr r.selected (with_tms false b)) p.dtm)
        × (u.tap.tap_state ≡ run_test_idle)
        × (u.tap.jtag_ir ≡ p.tap.jtag_ir)
  unfolding periods
  left a b p h =
      let q1 : Period = with_tms true a in
      let q2 : Period = with_tms false b in
      let p1 : Port = period v q1 p in
      let still : p1.dtm ≡ p.dtm = quiet exit1_dr q1 p h refl refl refl refl in
      let (at1, ir1) =
        moved_IsAt {s' = update_dr} q1 p h (rw still h.at_rest)
          (λ i e. tap-exit1_dr i p.tap h.in_state e) in
      let (there, kept) =
        tap-update_dr (tap_inputs q2 (period v q2 p1).dtm) p1.tap at1.in_state refl in
      (
        updated q2 p1 at1 ∙ ap (step (inputs_in update_dr r.selected q2)) still,
        ap (λ (t : Tap). t.tap_state) (tap-period q2 p1) ∙ there,
        ap (λ (t : Tap). t.jtag_ir) (tap-period q2 p1) ∙ kept ∙ ir1,
      )

  tails :
      (reg bits outs held : List Bool)
      → length outs ≡ length reg
      → outs ++ held ≡ reg ++ bits
      → held ≡ bits
  tails [] bits [] held len e = e
  tails [] bits (o ∷ outs) held len e = absurd (omega arith)
  tails (x ∷ reg) bits [] held len e = absurd (omega arith)
  tails (x ∷ reg) bits (o ∷ outs) held len e = tails reg bits outs held (omega arith) (cc)

  -- A scan of as many bits as the register has reads what the capture loads and leaves the new bits
  -- there for the update.
  pub dr_scan_lem :
      (a b c : Period) (bs : Bits) (y z : Period) (p : Port)
      → IsAt v r run_test_idle p
      → 0 < length bs
      → length bs ≡ length (r.load p.dtm)
      → let (outs, u) = dr_scan v (enter a b c) bs (leave y z) p in
        (outs ≡ r.load p.dtm)
        × (u.dtm ≡ step (inputs_in update_dr r.selected (with_tms false z)) (r.put (tdis bs) p.dtm))
        × (u.tap.tap_state ≡ run_test_idle)
        × (u.tap.jtag_ir ≡ p.tap.jtag_ir)
  unfolding dr_scan
  dr_scan_lem a b c bs y z p h some_bits len =
      let p1 : Port = periods v (enter a b c) p in
      let (at1, loaded, ir1, shows) = entered a b c p h in
      let held1 : r.get p1.dtm ≡ r.load p.dtm = ap r.get loaded ∙ r.get-put _ _ in
      let u : Port = (scan v (bits_in bs) p1).1 in
      let (queue, moved, went, ir2, count) =
        scan-bits_in v r bs p1 at1 (λ e. absurd (omega (arith, ap length (sym held1 ∙ e)))) shows
          (λ e. absurd (omega (arith, ap length e))) in
      let queue' = queue ∙ ap (λ l. l ++ tdis bs) held1 in
      let same_count = count ∙ len in
      let held2 : r.get u.dtm ≡ tdis bs = tails (r.load p.dtm) (tdis bs) _ _ same_count queue' in
      let dtm2 : u.dtm ≡ r.put (tdis bs) p.dtm =
        moved ∙ ap (λ l. r.put l p1.dtm) held2 ∙ ap (r.put (tdis bs)) loaded ∙ r.put-put _ _ _ in
      let at2 : IsAt v r exit1_dr u = record {
        in_state = went;
        chosen = rw ir2 at1.chosen;
        at_rest = ap (λ (d : Dtm). d.state) dtm2 ∙ r.state-put _ _ ∙ h.at_rest;
      } in
      let (updated_dtm, there, ir3) = left y z u at2 in
      (
        append_prefix _ _ _ _ same_count queue',
        updated_dtm ∙ ap (step (inputs_in update_dr r.selected (with_tms false z))) dtm2,
        there,
        ir3 ∙ ir2 ∙ ir1,
      )

-- ===== src/Transport/Scan.antt =====
-- The shift of a register of rtl/DTM_top.sv behind its JTAG port (rtl/DTM_JTAG_TAP.sv), for a
-- register that shifts as those of the transport module do.
use jtag_debug_module_for_ri.Common.{
  suc, ◌≡◌, refl, sym, ◌∙◌, ap, ap₂, ◌≢◌, Bool, true, false, List, [], ◌∷◌, ◌++◌, append-nil, map,
  length,
}
use jtag_debug_module_for_ri.Tap.{
  State, capture_dr, shift_dr, exit1_dr, Tap, Inputs, Selected, bit0, shift_in, posedge, cycle,
  select, next_state, tdo_of,
}
use jtag_debug_module_for_ri.Tap.Scan.{shift_in-nonempty, queue_step}
use jtag_debug_module_for_ri.Dtm.{Dtm, idle, step}
use jtag_debug_module_for_ri.Transport.{Crossing, Period, Port, inputs_in, tap_inputs, period, scan}

-- A register of the transport module: what it loads at a capture, that it shifts, and that TDO
-- shows its lowest bit, while no transaction runs.
pub record ScanRegister : Type 0 where
  pub selected : Selected
  pub get : Dtm → List Bool
  pub put : List Bool → Dtm → Dtm
  pub load : Dtm → List Bool
  pub get-put : (l : List Bool) (d : Dtm) → get (put l d) ≡ l
  pub put-put : (l m : List Bool) (d : Dtm) → put l (put m d) ≡ put l d
  pub state-put : (l : List Bool) (d : Dtm) → (put l d).state ≡ d.state
  pub shifts_in :
      (q : Period) (d : Dtm)
      → d.state ≡ idle
      → step (inputs_in shift_dr selected q) d ≡ put (shift_in q.td (get d)) d
  pub loads :
      (q : Period) (d : Dtm)
      → d.state ≡ idle
      → step (inputs_in capture_dr selected q) d ≡ put (load d) d
  pub shown : (q : Period) (d : Dtm) (t : Tap) → tdo_of selected (tap_inputs q d) t ≡ bit0 (get d)

abbrev pub Bits : Type 0
Bits = List (Bool × Crossing)

-- The bits of a scan at TDI, with TMS high at the last.
abbrev pub bits_in : Bits → List Period
bits_in [] = []
bits_in ((b, c) ∷ []) = record { tms = true; td = b; crossing = c } ∷ []
bits_in ((b, c) ∷ x ∷ l) = record { tms = false; td = b; crossing = c } ∷ bits_in (x ∷ l)

abbrev pub tdis : Bits → List Bool
tdis bs = map (λ (x : Bool × Crossing). x.0) bs

module _ (v : List Bool) (r : ScanRegister) where
  -- The port is in a state with the register selected, and nothing runs.
  pub record IsAt (s : State) (p : Port) : Type 0 where
    pub in_state : p.tap.tap_state ≡ s
    pub chosen : select p.tap.jtag_ir ≡ r.selected
    pub at_rest : p.dtm.state ≡ idle

  -- A period of a shift, whatever TMS.
  record Shifted (q : Period) (p u : Port) : Type 0 where
    moved : u.dtm ≡ r.put (shift_in q.td (r.get p.dtm)) p.dtm
    went : u.tap.tap_state ≡ next_state shift_dr q.tms
    kept : u.tap.jtag_ir ≡ p.tap.jtag_ir

  tap-shift_dr :
      (i : Inputs) (t : Tap)
      → t.tap_state ≡ shift_dr
      → ((cycle v i t).tap_state ≡ next_state shift_dr i.tms) × ((cycle v i t).jtag_ir ≡ t.jtag_ir)
  unfolding cycle
  tap-shift_dr i t e = rw e (refl, refl)

  period-Shifted : (q : Period) (p : Port) → IsAt shift_dr p → Shifted q p (period v q p)
  unfolding period
  period-Shifted q p h =
      let d : Dtm = (period v q p).dtm in
      let (went, kept) = tap-shift_dr (tap_inputs q d) p.tap h.in_state in
      record {
        moved = rw (h.in_state, h.chosen) (r.shifts_in q p.dtm h.at_rest);
        went = went;
        kept = kept;
      }

  tdo-shift_dr :
      (i : Inputs) (t : Tap)
      → t.tap_state ≡ shift_dr
      → i.tms ≡ false
      → (cycle v i t).td_o ≡ tdo_of (select t.jtag_ir) i (posedge v i t)
  unfolding cycle
  tdo-shift_dr i t e low = rw (e, low) refl

  tdo-Shifted :
      (q : Period) (p : Port)
      → IsAt shift_dr p
      → q.tms ≡ false
      → (period v q p).tap.td_o ≡ bit0 (r.get (period v q p).dtm)
  unfolding period
  tdo-Shifted q p h low =
      let d : Dtm = (period v q p).dtm in
      tdo-shift_dr (tap_inputs q d) p.tap h.in_state low
      ∙ ap (λ s. tdo_of s (tap_inputs q d) (posedge v (tap_inputs q d) p.tap)) h.chosen
      ∙ r.shown q d (posedge v (tap_inputs q d) p.tap)

  -- A shift of one bit or more is a queue and leaves the shift, and only the register moves.
  pub scan-bits_in :
      (bs : Bits) (p : Port)
      → IsAt shift_dr p
      → r.get p.dtm ≢ []
      → p.tap.td_o ≡ bit0 (r.get p.dtm)
      → bs ≢ []
      → let (outs, u) = scan v (bits_in bs) p in
        (outs ++ r.get u.dtm ≡ r.get p.dtm ++ tdis bs)
        × (u.dtm ≡ r.put (r.get u.dtm) p.dtm)
        × (u.tap.tap_state ≡ exit1_dr)
        × (u.tap.jtag_ir ≡ p.tap.jtag_ir)
        × (length outs ≡ length bs)
  unfolding scan
  scan-bits_in [] p h full shows some_bits = absurd (some_bits refl)
  scan-bits_in ((b, c) ∷ []) p h full shows some_bits =
      let q : Period = record { tms = true; td = b; crossing = c } in
      let once = period-Shifted q p h in
      let u : Port = period v q p in
      let held : r.get u.dtm ≡ shift_in b (r.get p.dtm) = ap r.get once.moved ∙ r.get-put _ _ in
      (
        ap₂ ◌∷◌ shows (held ∙ sym (append-nil (shift_in b (r.get p.dtm))))
            ∙ queue_step b (r.get p.dtm) [] full,
        once.moved ∙ sym (ap (λ l. r.put l p.dtm) held),
        once.went ∙ (unfold next_state in refl),
        once.kept,
        refl,
      )
  scan-bits_in ((b, c) ∷ x ∷ l) p h full shows some_bits =
      let q : Period = record { tms = false; td = b; crossing = c } in
      let once = period-Shifted q p h in
      let u : Port = period v q p in
      let held : r.get u.dtm ≡ shift_in b (r.get p.dtm) = ap r.get once.moved ∙ r.get-put _ _ in
      let at : IsAt shift_dr u = record {
        in_state = once.went ∙ (unfold next_state in refl);
        chosen = rw once.kept h.chosen;
        at_rest = ap (λ (d : Dtm). d.state) once.moved ∙ r.state-put _ _ ∙ h.at_rest;
      } in
      let (queue, moved, went, kept, len) =
        scan-bits_in (x ∷ l) u at (rw held (shift_in-nonempty b (r.get p.dtm) full))
          (tdo-Shifted q p h refl) (λ e. cc) in
      let w : Port = (scan v (bits_in (x ∷ l)) u).1 in
      (
        ap₂ ◌∷◌ shows (queue ∙ ap (λ y. y ++ tdis (x ∷ l)) held)
            ∙ queue_step b (r.get p.dtm) (tdis (x ∷ l)) full,
        moved ∙ ap (r.put (r.get w.dtm)) once.moved ∙ r.put-put _ _ _,
        went,
        kept ∙ once.kept,
        ap suc len,
      )

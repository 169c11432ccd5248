-- ===== src/Transport/Waiting.antt =====
-- Periods of rtl/DTM_top.sv with its port in Run-Test/Idle, in which the debug module takes a request
-- and answers it.
use jtag_debug_module_for_ri.Common.{
  ◌≡◌, refl, ◌∙◌, ap, Bool, true, false, List, [], ◌∷◌, ◌++◌, map,
}
use mathlib.Core.List.{map-append}
use jtag_debug_module_for_ri.Tap.{run_test_idle, Tap, Inputs, cycle, select}
use jtag_debug_module_for_ri.Dtm as Dtm
use jtag_debug_module_for_ri.Dtm.{
  DmiError, no_error, op_failed, dmi_busy, idle, read, Dtm, step, is_no_error, dmi_of, dmi_op,
  dmi_address, error_code, resp_word, dtm_read, dtm_success, dtm_err, dtm_busy, bits,
}
use jtag_debug_module_for_ri.Dtm.Transactions.{
  IsQuiet, steps, AllBusy, AllPending, error_after, read_transaction,
}
use jtag_debug_module_for_ri.Transport.{Period, Port, inputs_in, tap_inputs, period, periods}

-- Periods with TMS low in which the debug module does not take a request, or does not answer.
abbrev pub AllUntaken : List Period → Type 0
AllUntaken [] = Unit {0}
AllUntaken (q ∷ qs) = (q.tms ≡ false) × (q.crossing.req_ready ≡ false) × AllUntaken qs

abbrev pub AllUnanswered : List Period → Type 0
AllUnanswered [] = Unit {0}
AllUnanswered (q ∷ qs) = (q.tms ≡ false) × (q.crossing.resp_valid ≡ false) × AllUnanswered qs

-- The debug module takes a request and answers it.
pub record IsAnswered (busy : List Period) (taken : Period) (pending : List Period)
    (answer : Period) : Type 0 where
  pub untaken : AllUntaken busy
  pub taken_low : taken.tms ≡ false
  pub takes : taken.crossing.req_ready ≡ true
  pub unanswered : AllUnanswered pending
  pub answer_low : answer.tms ≡ false
  pub answers : answer.crossing.resp_valid ≡ true

abbrev pub waiting : List Period → Period → List Period → Period → List Period
waiting busy taken pending answer = busy ++ (taken ∷ (pending ++ (answer ∷ [])))

-- What the transport module reads in Run-Test/Idle.
abbrev pub resting : List Bool → Period → Dtm.Inputs
resting ir q = inputs_in run_test_idle (select ir) q

resting-IsQuiet : (ir : List Bool) (q : Period) → IsQuiet (resting ir q)
resting-IsQuiet ir q = record {
  no_capture = refl;
  no_shift = refl;
  no_update = refl;
  no_clear = refl;
}

AllBusy-map : (ir : List Bool) (qs : List Period) → AllUntaken qs → AllBusy (map (resting ir) qs)
AllBusy-map ir [] h = tt
AllBusy-map ir (q ∷ qs) h = (resting-IsQuiet ir q, h.1, AllBusy-map ir qs h.2)

AllPending-map :
    (ir : List Bool) (qs : List Period) → AllUnanswered qs → AllPending (map (resting ir) qs)
AllPending-map ir [] h = tt
AllPending-map ir (q ∷ qs) h = (resting-IsQuiet ir q, h.1, AllPending-map ir qs h.2)

abbrev AllLow : List Period → Type 0
AllLow [] = Unit {0}
AllLow (q ∷ qs) = (q.tms ≡ false) × AllLow qs

AllLow-append : (qs rs : List Period) → AllLow qs → AllLow rs → AllLow (qs ++ rs)
AllLow-append [] rs h k = k
AllLow-append (q ∷ qs) rs h k = (h.0, AllLow-append qs rs h.1 k)

AllLow-untaken : (qs : List Period) → AllUntaken qs → AllLow qs
AllLow-untaken [] h = tt
AllLow-untaken (q ∷ qs) h = (h.0, AllLow-untaken qs h.2)

AllLow-unanswered : (qs : List Period) → AllUnanswered qs → AllLow qs
AllLow-unanswered [] h = tt
AllLow-unanswered (q ∷ qs) h = (h.0, AllLow-unanswered qs h.2)

AllLow-waiting :
    (busy : List Period) (taken : Period) (pending : List Period) (answer : Period)
    → IsAnswered busy taken pending answer
    → AllLow (waiting busy taken pending answer)
AllLow-waiting busy taken pending answer h =
    let rest =
      AllLow-append pending (answer ∷ []) (AllLow-unanswered pending h.unanswered)
        (h.answer_low, tt) in
    AllLow-append busy (taken ∷ (pending ++ (answer ∷ []))) (AllLow-untaken busy h.untaken)
      (h.taken_low, rest)

tap-resting :
    (v : List Bool) (i : Inputs) (t : Tap)
    → t.tap_state ≡ run_test_idle
    → i.tms ≡ false
    → ((cycle v i t).tap_state ≡ run_test_idle) × ((cycle v i t).jtag_ir ≡ t.jtag_ir)
unfolding cycle
tap-resting v i t e low = rw (e, low) (refl, refl)

period-resting :
    (v : List Bool) (q : Period) (p : Port)
    → p.tap.tap_state ≡ run_test_idle
    → q.tms ≡ false
    → let u = period v q p in
      (u.dtm ≡ step (resting p.tap.jtag_ir q) p.dtm)
      × (u.tap.tap_state ≡ run_test_idle)
      × (u.tap.jtag_ir ≡ p.tap.jtag_ir)
unfolding period
period-resting v q p e low =
    let (there, kept) = tap-resting v (tap_inputs q (period v q p).dtm) p.tap e low in
    (rw e refl, there, kept)

-- The port rests, and the transport module takes its edges.
periods-resting :
    (v : List Bool) (qs : List Period) (p : Port)
    → p.tap.tap_state ≡ run_test_idle
    → AllLow qs
    → let u = periods v qs p in
      (u.dtm ≡ steps (map (resting p.tap.jtag_ir) qs) p.dtm)
      × (u.tap.tap_state ≡ run_test_idle)
      × (u.tap.jtag_ir ≡ p.tap.jtag_ir)
unfolding periods steps
periods-resting v [] p e low = (refl, e, refl)
periods-resting v (q ∷ qs) p e low =
    let (dtm1, there1, ir1) = period-resting v q p e low.0 in
    let (dtm2, there2, ir2) = periods-resting v qs (period v q p) there1 low.1 in
    (
      dtm2
          ∙ ap (λ ir. steps (map (resting ir) qs) (period v q p).dtm) ir1
          ∙ ap (steps (map (resting p.tap.jtag_ir) qs)) dtm1,
      there2,
      ir2 ∙ ir1,
    )

map-waiting :
    (ir : List Bool) (busy : List Period) (taken : Period) (pending : List Period) (answer : Period)
    → map (resting ir) (waiting busy taken pending answer)
      ≡ map (resting ir) busy
        ++ (resting ir taken ∷ (map (resting ir) pending ++ (resting ir answer ∷ [])))
map-waiting ir busy taken pending answer = simp map-append

-- The wait for an answer, in the transport module.
pub waited :
    (v : List Bool) (busy : List Period) (taken : Period) (pending : List Period) (answer : Period)
    (p : Port)
    → IsAnswered busy taken pending answer
    → p.tap.tap_state ≡ run_test_idle
    → p.dtm.state ≡ read
    → let u = periods v (waiting busy taken pending answer) p in
      (u.dtm ≡ record p.dtm {
        state = idle;
        data_reg = resp_word answer.crossing.resp answer.crossing.resp_data;
        error = error_after answer.crossing.resp p.dtm.error;
      })
      × (u.tap.tap_state ≡ run_test_idle)
      × (u.tap.jtag_ir ≡ p.tap.jtag_ir)
waited v busy taken pending answer p h e asks =
    let ir : List Bool = p.tap.jtag_ir in
    let (dtm_lem, there, kept) =
      periods-resting v (waiting busy taken pending answer) p e
        (AllLow-waiting busy taken pending answer h) in
    (
      dtm_lem
          ∙ ap (λ is. steps is p.dtm) (map-waiting ir busy taken pending answer)
          ∙ read_transaction (map (resting ir) busy) (map (resting ir) pending) (resting ir taken)
              (resting ir answer) p.dtm asks (AllBusy-map ir busy h.untaken)
              (resting-IsQuiet ir taken) h.takes (AllPending-map ir pending h.unanswered)
              (resting-IsQuiet ir answer) h.answers,
      there,
      kept,
    )

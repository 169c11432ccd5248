-- ===== src/Transport/Reading.antt =====
-- A debugger's whole read over rtl/DTM_top.sv: a scan that asks, periods in Run-Test/Idle in which the
-- debug module answers, and a scan that brings the answer.
use jtag_debug_module_for_ri.Common.{
  ℕ, ◌≡◌, refl, ◌∙◌, ap, Bool, true, List, [], ◌∷◌, ◌++◌, arith, length, suc, drop, false,
  if◌then◌else◌, ◌==◌,
}
use jtag_debug_module_for_ri.Tap.{run_test_idle}
use jtag_debug_module_for_ri.Dtm.{idle, read, Dtm, is_no_error, dmi_value, resp_word, bits}
use jtag_debug_module_for_ri.Dtm.Laws.{IsWide, length-drop, length-dmi_value, length-resp_word}
use jtag_debug_module_for_ri.Dtm.Transactions.{error_after}
use jtag_debug_module_for_ri.Transport.{Period, Port, periods}
use jtag_debug_module_for_ri.Transport.Periods.{captured, asks, requested}
use jtag_debug_module_for_ri.Transport.Scan.{Bits, tdis, IsAt}
use jtag_debug_module_for_ri.Transport.Whole.{enter, leave, dr_scan}
use jtag_debug_module_for_ri.Transport.Waiting.{IsAnswered, waiting, waited}
use jtag_debug_module_for_ri.Transport.Registers.{dmi_register, dmi_scan}

-- What a scan after the answer reads, lowest bit first: the status, the word and the address, or,
-- where the operation failed, the bits of the scan that asked. A response is 0 for success, 2 for a
-- failure and 3 for busy.
abbrev pub answer_shown : ℕ → List Bool → List Bool → List Bool → List Bool
answer_shown resp word address asked =
    if resp == 0
    then false ∷ false ∷ (word ++ address)
    else if resp == 2
    then asked
    else if resp == 3
    then true ∷ true ∷ (bits 32 0xB051_B051 ++ address)
    else false ∷ false ∷ (bits 32 0xBAAD_C0DE ++ address)

captured-answered :
    (d : Dtm) (asked word : List Bool) (resp : ℕ)
    → is_no_error d.error ≡ true
    → captured (record (requested (record d { dr = asked })) {
      state = idle;
      data_reg = resp_word resp word;
      error = error_after resp (requested (record d { dr = asked })).error;
    })
      ≡ answer_shown resp word (drop 34 (dmi_value d.dmi asked)) asked
captured-answered d asked word resp fine = ground (arith, fine)

requested-IsWide :
    (d : Dtm) (asked word : List Bool) (resp : ℕ)
    → IsWide d
    → is_no_error d.error ≡ true
    → length asked ≡ 41
    → length word ≡ 32
    → IsWide (record (requested (record d { dr = asked })) {
      state = idle;
      data_reg = resp_word resp word;
      error = error_after resp (requested (record d { dr = asked })).error;
    })
requested-IsWide d asked word resp w fine len wide = rw fine (record {
  dtmcs_width = w.dtmcs_width;
  dr_width = len;
  address_width = omega (
    arith,
    length-drop 34 (dmi_value d.dmi asked),
    length-dmi_value (record d { dr = asked })
        (record {
          dtmcs_width = w.dtmcs_width;
          dr_width = len;
          address_width = w.address_width;
          data_width = w.data_width;
          dmi_width = w.dmi_width;
        }),
  );
  data_width = length-resp_word resp word wide;
  dmi_width = w.dmi_width;
})

length-tdis : (bs : Bits) → length (tdis bs) ≡ length bs
length-tdis [] = refl
length-tdis (x ∷ bs) = ap suc (length-tdis bs)

is_read :
    (d : Dtm)
    → is_no_error d.error ≡ true
    → (asked : List Bool) → asks (dmi_value d.dmi asked) ≡ read
    → (requested (record d { dr = asked })).state ≡ read
is_read d fine asked reads = rw (fine, reads) refl

-- A debugger's read, from Run-Test/Idle with DMIACCESS selected, no transaction running and no error
-- standing: a first scan of 41 bits, any number of periods in which the debug module does not take
-- the request, its taking, any number of periods without an answer, the answer, and a second scan.
-- The module takes its request from the variable `dmi`: where that follows the scan register, the
-- first scan's bits ask, and where it was initialised once, the bits that it got then; the condition
-- is that those bits ask for a read. The second scan reads the word under the address of those bits
-- with the status 0 if the response reports success, a word that stands for the failure if it is busy (with the status 3) or
-- reserved, and, if the operation failed, the bits that the first scan put in. The port is back
-- where it was.
pub read_scans :
    (v : List Bool) (a b c y z a' b' c' y' z' : Period) (first second : Bits) (busy : List Period)
    (taken : Period) (pending : List Period) (answer : Period) (p : Port)
    → IsAt v dmi_register run_test_idle p
    → IsWide p.dtm
    → is_no_error p.dtm.error ≡ true
    → asks (dmi_value p.dtm.dmi (tdis first)) ≡ read
    → length first ≡ 41
    → length second ≡ 41
    → IsAnswered busy taken pending answer
    → length answer.crossing.resp_data ≡ 32
    → let (_, p1) = dr_scan v (enter a b c) first (leave y z) p in
      let p2 = periods v (waiting busy taken pending answer) p1 in
      let (outs, u) = dr_scan v (enter a' b' c') second (leave y' z') p2 in
      (outs
        ≡ answer_shown answer.crossing.resp answer.crossing.resp_data
            (drop 34 (dmi_value p.dtm.dmi (tdis first)))
            (tdis first))
      × (u.tap.tap_state ≡ run_test_idle)
      × (u.tap.jtag_ir ≡ p.tap.jtag_ir)
read_scans v a b c y z a' b' c' y' z' first second busy taken pending answer p h w fine reads len
      len' answered wide =
    let asked : List Bool = tdis first in
    let resp : ℕ = answer.crossing.resp in
    let word : List Bool = answer.crossing.resp_data in
    let p1 : Port = (dr_scan v (enter a b c) first (leave y z) p).1 in
    let (_, dtm1, there1, ir1) = dmi_scan v a b c first y z p h w len in
    let reading : p1.dtm.state ≡ read =
      ap (λ (d : Dtm). d.state) dtm1 ∙ is_read p.dtm fine asked reads in
    let p2 : Port = periods v (waiting busy taken pending answer) p1 in
    let (dtm2, there2, ir2) = waited v busy taken pending answer p1 answered there1 reading in
    let d2 : Dtm = record (requested (record p.dtm { dr = asked })) {
      state = idle;
      data_reg = resp_word resp word;
      error = error_after resp (requested (record p.dtm { dr = asked })).error;
    } in
    let now : p2.dtm ≡ d2 =
      dtm2
      ∙ ap
          (λ (d : Dtm). record d {
            state = idle;
            data_reg = resp_word resp word;
            error = error_after resp d.error;
          })
          dtm1 in
    let ir : p2.tap.jtag_ir ≡ p.tap.jtag_ir = ir2 ∙ ir1 in
    let at2 : IsAt v dmi_register run_test_idle p2 = record {
      in_state = there2;
      chosen = rw ir h.chosen;
      at_rest = ap (λ (d : Dtm). d.state) now;
    } in
    let wide2 : IsWide p2.dtm =
      rw now (requested-IsWide p.dtm asked word resp w fine (length-tdis first ∙ len) wide) in
    let (outs_lem, _, there3, ir3) = dmi_scan v a' b' c' second y' z' p2 at2 wide2 len' in
    (outs_lem ∙ ap captured now ∙ captured-answered p.dtm asked word resp fine, there3, ir3 ∙ ir)

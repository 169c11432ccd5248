-- ===== src/Dtm/Transactions.antt =====
-- Whole DMI transactions of rtl/DTM_top.sv: from the request to the response, however long either
-- side waits.
use jtag_debug_module_for_ri.Common.{
  ℕ, ◌≡◌, refl, ◌∙◌, ap, true, false, List, [], ◌∷◌, ◌++◌, arith, ◌==◌, if◌then◌else◌,
}
use jtag_debug_module_for_ri.Dtm.{
  DmiError, no_error, op_failed, dmi_busy, idle, read, wait_read_valid, write, wait_write_valid,
  Dtm, Inputs, dmi_clear, resp_word, dtm_err, dtm_busy, step, is_no_error, dmi_of, error_code,
  dtm_success,
}

-- An edge at which the port does nothing to the DTM's registers.
pub record IsQuiet (i : Inputs) : Type 0 where
  pub no_capture : i.capture ≡ false
  pub no_shift : i.shift ≡ false
  pub no_update : i.update ≡ false
  pub no_clear : i.jtag_dmi_clear ≡ false

read_waits :
    (i : Inputs) (d : Dtm) → IsQuiet i → d.state ≡ read → i.req_ready ≡ false → step i d ≡ d
unfolding step
read_waits i d q s w = ground arith

read_taken :
    (i : Inputs) (d : Dtm)
    → IsQuiet i
    → d.state ≡ read
    → i.req_ready ≡ true
    → step i d ≡ record d { state = wait_read_valid }
unfolding step
read_taken i d q s w = ground arith

response_waits :
    (i : Inputs) (d : Dtm)
    → IsQuiet i
    → d.state ≡ wait_read_valid
    → i.resp_valid ≡ false
    → step i d ≡ d
unfolding step
response_waits i d q s w = ground arith

-- The error after a response: the first one sticks.
abbrev pub error_after : ℕ → DmiError → DmiError
error_after r e =
    if is_no_error e
    then (if r == dtm_err then op_failed else if r == dtm_busy then dmi_busy else e)
    else e

response_taken :
    (i : Inputs) (d : Dtm)
    → IsQuiet i
    → d.state ≡ wait_read_valid
    → i.resp_valid ≡ true
    → step i d ≡ record d {
      state = idle;
      data_reg = resp_word i.resp i.resp_data;
      error = error_after i.resp d.error;
    }
unfolding step
response_taken i d q s w = ground arith

write_waits :
    (i : Inputs) (d : Dtm) → IsQuiet i → d.state ≡ write → i.req_ready ≡ false → step i d ≡ d
unfolding step
write_waits i d q s w = ground arith

write_taken :
    (i : Inputs) (d : Dtm)
    → IsQuiet i
    → d.state ≡ write
    → i.req_ready ≡ true
    → step i d ≡ record d { state = wait_write_valid }
unfolding step
write_taken i d q s w = ground arith

acknowledge_waits :
    (i : Inputs) (d : Dtm)
    → IsQuiet i
    → d.state ≡ wait_write_valid
    → i.resp_valid ≡ false
    → step i d ≡ d
unfolding step
acknowledge_waits i d q s w = ground arith

acknowledged :
    (i : Inputs) (d : Dtm)
    → IsQuiet i
    → d.state ≡ wait_write_valid
    → i.resp_valid ≡ true
    → step i d ≡ record d { state = idle; error = error_after i.resp d.error }
unfolding step
acknowledged i d q s w = ground arith

-- Edges in a row.
unfoldable pub steps : List Inputs → Dtm → Dtm
steps [] d = d
steps (i ∷ is) d = steps is (step i d)

steps-append : (is js : List Inputs) (d : Dtm) → steps (is ++ js) d ≡ steps js (steps is d)
unfolding steps
steps-append [] js d = refl
steps-append (i ∷ is) js d = steps-append is js (step i d)

abbrev pub AllBusy : List Inputs → Type 0
AllBusy [] = Unit {0}
AllBusy (i ∷ is) = IsQuiet i × (i.req_ready ≡ false) × AllBusy is

abbrev pub AllPending : List Inputs → Type 0
AllPending [] = Unit {0}
AllPending (i ∷ is) = IsQuiet i × (i.resp_valid ≡ false) × AllPending is

steps-read_waits : (is : List Inputs) (d : Dtm) → AllBusy is → d.state ≡ read → steps is d ≡ d
unfolding steps
steps-read_waits [] d h s = refl
steps-read_waits (i ∷ is) d h s = rw (read_waits i d h.0 s h.1) (steps-read_waits is d h.2 s)

steps-write_waits : (is : List Inputs) (d : Dtm) → AllBusy is → d.state ≡ write → steps is d ≡ d
unfolding steps
steps-write_waits [] d h s = refl
steps-write_waits (i ∷ is) d h s = rw (write_waits i d h.0 s h.1) (steps-write_waits is d h.2 s)

steps-response_waits :
    (is : List Inputs) (d : Dtm) → AllPending is → d.state ≡ wait_read_valid → steps is d ≡ d
unfolding steps
steps-response_waits [] d h s = refl
steps-response_waits (i ∷ is) d h s =
    rw (response_waits i d h.0 s h.1) (steps-response_waits is d h.2 s)

steps-acknowledge_waits :
    (is : List Inputs) (d : Dtm) → AllPending is → d.state ≡ wait_write_valid → steps is d ≡ d
unfolding steps
steps-acknowledge_waits [] d h s = refl
steps-acknowledge_waits (i ∷ is) d h s =
    rw (acknowledge_waits i d h.0 s h.1) (steps-acknowledge_waits is d h.2 s)

-- However long the debug module lets the request wait, and then the response, a read ends idle
-- with the response's word in the data register, and with the error that the response reports
-- unless an earlier one stands. The scan register, the address and DTMCS are as they were.
pub read_transaction :
    (busy pending : List Inputs) (taken answer : Inputs) (d : Dtm)
    → d.state ≡ read
    → AllBusy busy
    → IsQuiet taken
    → taken.req_ready ≡ true
    → AllPending pending
    → IsQuiet answer
    → answer.resp_valid ≡ true
    → steps (busy ++ (taken ∷ (pending ++ (answer ∷ [])))) d ≡ record d {
      state = idle;
      data_reg = resp_word answer.resp answer.resp_data;
      error = error_after answer.resp d.error;
    }
unfolding steps
read_transaction busy pending taken answer d s hb qt ht hp qa ha =
    let d1 : Dtm = record d { state = wait_read_valid } in
    let rest : List Inputs = pending ++ (answer ∷ []) in
    steps-append busy (taken ∷ rest) d
    ∙ ap (steps (taken ∷ rest)) (steps-read_waits busy d hb s)
    ∙ ap (steps rest) (read_taken taken d qt s ht)
    ∙ steps-append pending (answer ∷ []) d1
    ∙ ap (step answer) (steps-response_waits pending d1 hp refl)
    ∙ response_taken answer d1 qa refl ha

-- However long the debug module lets the request wait, and then the acknowledgement, a write ends
-- idle, with the error that the response reports unless an earlier one stands, and with every
-- register as it was.
pub write_transaction :
    (busy pending : List Inputs) (taken answer : Inputs) (d : Dtm)
    → d.state ≡ write
    → AllBusy busy
    → IsQuiet taken
    → taken.req_ready ≡ true
    → AllPending pending
    → IsQuiet answer
    → answer.resp_valid ≡ true
    → steps (busy ++ (taken ∷ (pending ++ (answer ∷ [])))) d
      ≡ record d { state = idle; error = error_after answer.resp d.error }
unfolding steps
write_transaction busy pending taken answer d s hb qt ht hp qa ha =
    let d1 : Dtm = record d { state = wait_write_valid } in
    let rest : List Inputs = pending ++ (answer ∷ []) in
    steps-append busy (taken ∷ rest) d
    ∙ ap (steps (taken ∷ rest)) (steps-write_waits busy d hb s)
    ∙ ap (steps rest) (write_taken taken d qt s ht)
    ∙ steps-append pending (answer ∷ []) d1
    ∙ ap (step answer) (steps-acknowledge_waits pending d1 hp refl)
    ∙ acknowledged answer d1 qa refl ha

-- An edge that captures the DMI register while nothing runs and no error stands puts there the
-- address, the data register and the status 0.
capture_shows :
    (i : Inputs) (d : Dtm)
    → d.state ≡ idle
    → is_no_error d.error ≡ true
    → i.capture ≡ true
    → i.dmi_select ≡ true
    → i.shift ≡ false
    → i.update ≡ false
    → dmi_clear i d ≡ false
    → (step i d).dr ≡ dmi_of d.address d.data_reg no_error
unfolding step
capture_shows i d s e c sel sh u calm = rw (calm, s, e, c, sel, sh, u) refl

-- What a read brings is what the next capture of the DMI register shows, under the address read
-- and the status 0, where no error stood and the response reports success.
pub read_captured :
    (busy pending : List Inputs) (taken answer look : Inputs) (d : Dtm)
    → d.state ≡ read
    → is_no_error d.error ≡ true
    → AllBusy busy
    → IsQuiet taken
    → taken.req_ready ≡ true
    → AllPending pending
    → IsQuiet answer
    → answer.resp_valid ≡ true
    → answer.resp ≡ dtm_success
    → look.capture ≡ true
    → look.dmi_select ≡ true
    → look.shift ≡ false
    → look.update ≡ false
    → look.jtag_dmi_clear ≡ false
    → (step look (steps (busy ++ (taken ∷ (pending ++ (answer ∷ [])))) d)).dr
      ≡ error_code no_error ++ (answer.resp_data ++ d.address)
read_captured busy pending taken answer look d s e hb qt ht hp qa ha ok c sel sh u j =
    let done : Dtm = record d {
      state = idle;
      data_reg = resp_word answer.resp answer.resp_data;
      error = error_after answer.resp d.error;
    } in
    let calm : dmi_clear look done ≡ false = ground arith in
    let fine : is_no_error done.error ≡ true = rw (e, ok) e in
    ap (λ x. (step look x).dr) (read_transaction busy pending taken answer d s hb qt ht hp qa ha)
    ∙ capture_shows look done refl fine c sel sh u calm
    ∙ rw ok refl

-- ===== src/Dtm/Requests.antt =====
-- When rtl/DTM_top.sv starts a request, and what the request carries: it takes them from the variable
-- `dmi`.
use jtag_debug_module_for_ri.Common.{
  ◌⊎◌, ◌≡◌, refl, Bool-cases, inl, inr, Bool, true, false, not, ◌&&◌, List, [], ◌∷◌, arith, ◌==◌,
}
use jtag_debug_module_for_ri.Dtm.{
  idle, Dtm, Inputs, requesting, dmi_clear, fsm, step, request, Variable, once, follows, dmi_value,
  req_op, is_no_error, dmi_op, dmi_data, dmi_address, op_state, dtm_read, dtm_write,
}
use jtag_debug_module_for_ri.Dtm.Transactions.{steps}

-- The operation that `dmi` asks for.
abbrev pub IsOperation : List Bool → Type 0
IsOperation dmi = (dmi_op dmi ≡ dtm_read) ⊎ (dmi_op dmi ≡ dtm_write)

started :
    (i : Inputs) (d : Dtm)
    → d.state ≡ idle
    → is_no_error d.error ≡ true
    → i.dmi_select ≡ true
    → i.update ≡ true
    → dmi_clear i d ≡ false
    → ((step i d).state ≡ op_state (dmi_op (dmi_value d.dmi d.dr)))
      × ((step i d).address ≡ dmi_address (dmi_value d.dmi d.dr))
      × ((step i d).data_reg ≡ dmi_data (dmi_value d.dmi d.dr))
unfolding step
started i d s e sel u calm = rw (calm, s, sel, u, e) (refl, refl, refl)

operation-valid :
    (dmi : List Bool)
    → IsOperation dmi
    → (requesting (op_state (dmi_op dmi)) ≡ true) × (req_op (op_state (dmi_op dmi)) ≡ dmi_op dmi)
operation-valid dmi (inl r) = rw r (refl, refl)
operation-valid dmi (inr w) = rw w (refl, refl)

-- An update of the DMI register while the module is idle, no error stands and the DMI is not being
-- cleared shows, in the next period, the request that `dmi` asks for, where that is a read or a
-- write: its operation, its address and its data.
pub request_started :
    (i j : Inputs) (d : Dtm)
    → d.state ≡ idle
    → is_no_error d.error ≡ true
    → i.dmi_select ≡ true
    → i.update ≡ true
    → dmi_clear i d ≡ false
    → IsOperation (dmi_value d.dmi d.dr)
    → dmi_clear j (step i d) ≡ false
    → request j (step i d) ≡ record {
      valid = true;
      addr = dmi_address (dmi_value d.dmi d.dr);
      req_data = dmi_data (dmi_value d.dmi d.dr);
      op = dmi_op (dmi_value d.dmi d.dr);
    }
request_started i j d s e sel u calm asks going =
    let (next, at, word) = started i d s e sel u calm in
    let (shown, same) = operation-valid (dmi_value d.dmi d.dr) asks in
    rw (going, next, at, word, shown, same) refl

-- `dmi` was initialised once, and asks for nothing: its operation is neither a read nor a write.
abbrev pub asks_nothing : Variable → Bool
asks_nothing (once l) = not (dmi_op l == dtm_read) && not (dmi_op l == dtm_write)
asks_nothing follows = false

no_operation :
    (m : Variable) (dr : List Bool)
    → asks_nothing m ≡ true
    → op_state (dmi_op (dmi_value m dr)) ≡ idle
no_operation (once l) dr h = ground arith
no_operation follows dr h = cc

fsm_idle : (i : Inputs) (d : Dtm) → asks_nothing d.dmi ≡ true → (fsm idle i d).state_d ≡ idle
unfolding fsm
fsm_idle i d h = rw (no_operation d.dmi d.dr h) (ground arith)

step_idle :
    (i : Inputs) (d : Dtm)
    → d.state ≡ idle
    → asks_nothing d.dmi ≡ true
    → ((step i d).state ≡ idle) × ((step i d).dmi ≡ d.dmi)
unfolding step
step_idle i d s h = elim (Bool-cases (dmi_clear i d)) [
  | inl clear ↦ rw clear (refl, refl)
  | inr going ↦ rw (going, s) (fsm_idle i d h, refl)
]

-- Where `dmi` is initialised once, and with no operation, as it is from a cleared scan register, no
-- request ever leaves an idle module, whatever the debugger scans and the debug module answers.
pub steps_silent :
    (is : List Inputs) (i : Inputs) (d : Dtm)
    → d.state ≡ idle
    → asks_nothing d.dmi ≡ true
    → (request i (steps is d)).valid ≡ false
unfolding steps
steps_silent [] i d s h = rw s (ground arith)
steps_silent (k ∷ is) i d s h =
    let (still, kept) = step_idle k d s h in steps_silent is i (step k d) still (rw kept h)

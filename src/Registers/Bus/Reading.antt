-- ===== src/Registers/Bus/Reading.antt =====
-- Whole reads of the system bus by the debugger (rtl/DM_CSRS.sv, rtl/DM_SBA.sv).
use jtag_debug_module_for_ri.Common.{
  ℕ, ◌+◌, ◌*◌, ◌/◌, ◌%◌, ◌^◌, ◌<◌, ◌≡◌, refl, ◌∙◌, true, false, ltb, List, [], ◌∷◌, ◌++◌,
  if◌then◌else◌,
}
use jtag_debug_module_for_ri.Sba as Sba
use jtag_debug_module_for_ri.Sba.{
  idle, read, wait_read, too_wide, misaligned, answer_error, answered,
}
use jtag_debug_module_for_ri.Registers.{sbaddress0, sbdata0}
use jtag_debug_module_for_ri.Registers.Csrs.{
  Regs, no_op, read_op, write_op, Inputs, outputs, success,
}
use jtag_debug_module_for_ri.Registers.Bus.{
  Answer, System, system_edge, system_edges, system_outputs,
}
use jtag_debug_module_for_ri.Registers.Bus.Waiting.{
  AllUngranted, AllUnanswered, edges_append, start_edge, ungranted, granted-At, unanswered,
  answer-At,
}

-- A read of the system bus may begin at the address `a`.
pub record Ready (a : ℕ) (s : Regs) : Type 0 where
  pub active : s.dmcontrol.dmactive ≡ true
  pub readonaddr : s.sbcs.sbreadonaddr ≡ true
  pub no_error : s.sbcs.sberror ≡ 0
  pub no_busyerror : s.sbcs.sbbusyerror ≡ false
  pub legal_size : ltb 2 s.sbcs.sbaccess ≡ false
  pub address_fits : a < 2 ^ 32
  pub aligned : a % 2 ^ s.sbcs.sbaccess ≡ 0

-- The edges from the write of the address to the answer.
abbrev pub read_edges :
    Answer × Inputs
    → List (Answer × Inputs)
    → Answer × Inputs
    → List (Answer × Inputs)
    → Answer × Inputs
    → List (Answer × Inputs)
read_edges start waits granted pends answer =
    start ∷ (waits ++ (granted ∷ (pends ++ (answer ∷ []))))

read_idle :
    (b : Answer) (n : Inputs) (t : System)
    → n.op ≡ read_op sbdata0
    → t.sba ≡ idle
    → t.regs.sbcs.sbbusyerror ≡ false
    → ((system_outputs b n t).dmi_resp ≡ success)
      × ((system_outputs b n t).dmi_data ≡ t.regs.sbdata_lo)
unfolding system_outputs outputs Sba.outputs
read_idle b n t o i q = (rw (o, i, q) refl, rw (o, i, q) refl)

-- A read of the system bus by the debugger: it writes a legal address while the bus is idle, with
-- `sbreadonaddr` set and no error outstanding, and makes no request until the bus has answered. The
-- bus takes any number of edges to grant, and any number more to answer without an error. Then the
-- state machine is idle, the address has moved on by the access's size where auto-increment is set,
-- and a read of `sbdata0` is answered at once with the answer's word, from the addressed lane up.
pub system_read :
    (a : ℕ) (s : Regs) (b : Answer) (start : Inputs) (waits : List (Answer × Inputs)) (gb : Answer)
    (gn : Inputs) (pends : List (Answer × Inputs)) (ab : Answer) (an : Inputs) (rb : Answer)
    (rn : Inputs)
    → Ready a s
    → start.op ≡ write_op sbaddress0 a
    → AllUngranted waits
    → gn.op ≡ no_op
    → gb.gnt ≡ true
    → AllUnanswered pends
    → an.op ≡ no_op
    → ab.r_valid ≡ true
    → ab.r_err ≡ false
    → ab.r_other_err ≡ false
    → rn.op ≡ read_op sbdata0
    → let size = s.sbcs.sbaccess in
      let t =
        system_edges
          (read_edges (b, start) waits (gb, gn) pends (ab, an))
          (record { sba = idle; regs = s }) in
      (t.sba ≡ idle)
      × (t.regs.sbaddr_lo ≡ (a + (if s.sbcs.sbautoincrement then 2 ^ size else 0)) % 2 ^ 32)
      × ((system_outputs rb rn t).dmi_resp ≡ success)
      × ((system_outputs rb rn t).dmi_data ≡ ab.r_rdata / 2 ^ (8 * (a % 4 / 2 ^ size * 2 ^ size)))
unfolding system_edges
system_read a s b start waits gb gn pends ab an rb rn ready o uw go gg up ao av ae aoe ro =
    let size = s.sbcs.sbaccess in
    let inc = s.sbcs.sbautoincrement in
    let began =
      start_edge a b start s ready.active ready.readonaddr ready.no_error ready.no_busyerror o in
    let t0 : System = system_edge b start (record { sba = idle; regs = s }) in
    let t1 : System = system_edges waits t0 in
    let at1 =
      ungranted a size inc ready.address_fits ready.legal_size ready.aligned waits t0 uw began in
    let t2 : System = system_edge gb gn t1 in
    let at2 =
      granted-At a size inc ready.address_fits ready.legal_size ready.aligned gb gn t1 go gg at1 in
    let t3 : System = system_edges pends t2 in
    let at3 =
      unanswered a size inc ready.address_fits ready.legal_size ready.aligned pends t2 up at2 in
    let t4 : System = system_edge ab an t3 in
    let (rest, word, address, _, quiet) =
      answer-At a size inc ready.address_fits ready.legal_size ready.aligned ab an t3 at3 ao av ae
        aoe in
    let whole : system_edges (read_edges (b, start) waits (gb, gn) pends (ab, an))
          (record { sba = idle; regs = s })
        ≡ t4 =
      edges_append waits _ t0 ∙ edges_append pends ((ab, an) ∷ []) t2 in
    let (answer, shows) = read_idle rb rn t4 ro rest quiet in
    rw whole (rest, address, answer, shows ∙ word)

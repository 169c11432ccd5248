-- ===== src/Registers/Bus/Waiting.antt =====
-- A read of the system bus under way (rtl/DM_SBA.sv), edge by edge, with the registers that started it.
use jtag_debug_module_for_ri.Common.{
  ℕ, ◌+◌, ◌*◌, ◌/◌, ◌%◌, ◌^◌, ◌<◌, ◌≡◌, refl, sym, ◌∙◌, ap, Bool, true, false, ltb, List, [], ◌∷◌,
  ◌++◌, if◌then◌else◌, arith,
}
use mathlib.Core.Path.{subst}
use jtag_debug_module_for_ri.Sba as Sba
use jtag_debug_module_for_ri.Sba.{
  idle, read, wait_read, too_wide, misaligned, answer_error, answered,
}
use jtag_debug_module_for_ri.Sba.Access.{
  legal, ask_waits, ask_granted, answer_waits, answered_shows,
}
use jtag_debug_module_for_ri.Registers.{sbaddress0}
use jtag_debug_module_for_ri.Registers.Csrs.{Regs, no_op, write_op, Inputs, tick, outputs}
use jtag_debug_module_for_ri.Registers.Bus.{
  Answer, System, to_sba, driven, from_sba, system_edge, system_edges,
}

-- An access at an address is under way, without an error so far.
pub record UnderWay (a size : ℕ) (increment : Bool) (s : Regs) : Type 0 where
  pub active : s.dmcontrol.dmactive ≡ true
  pub address : s.sbaddr_lo ≡ a
  pub access : s.sbcs.sbaccess ≡ size
  pub autoincrement : s.sbcs.sbautoincrement ≡ increment
  pub no_error : s.sbcs.sberror ≡ 0
  pub no_busyerror : s.sbcs.sbbusyerror ≡ false

-- The state machine with an access of a legal size and alignment, at an edge without the answer.
pending :
    (j : Sba.Inputs) (st : Sba.State)
    → legal j ≡ true
    → answered st j ≡ false
    → j.sbaddress < 2 ^ 32
    → ((Sba.outputs j st).sberror_valid ≡ false) × ((Sba.outputs j st).sbaddress_o ≡ j.sbaddress)
unfolding Sba.outputs
pending j st l a h = (ground arith, ground arith)

stepped :
    (b : Answer) (n : Inputs) (t : System)
    → (p q r : Bool) × ((system_edge b n t).sba ≡ Sba.step (to_sba b t.regs p q r) t.sba)
unfolding system_edge
stepped b n t = (_, _, _, refl)

-- Edges without a request of the debugger, at which the bus does not grant, or does not answer.
abbrev pub AllUngranted : List (Answer × Inputs) → Type 0
AllUngranted [] = Unit {0}
AllUngranted ((b, n) ∷ r) = (n.op ≡ no_op) × (b.gnt ≡ false) × AllUngranted r

abbrev pub AllUnanswered : List (Answer × Inputs) → Type 0
AllUnanswered [] = Unit {0}
AllUnanswered ((b, n) ∷ r) = (n.op ≡ no_op) × (b.r_valid ≡ false) × AllUnanswered r

pub edges_append :
    (xs ys : List (Answer × Inputs)) (t : System)
    → system_edges (xs ++ ys) t ≡ system_edges ys (system_edges xs t)
unfolding system_edges
edges_append [] ys t = refl
edges_append ((b, n) ∷ xs) ys t = edges_append xs ys (system_edge b n t)

-- A write of the address on an idle bus, with `sbreadonaddr` set and no error.
pub start_edge :
    (a : ℕ) (b : Answer) (n : Inputs) (s : Regs)
    → s.dmcontrol.dmactive ≡ true
    → s.sbcs.sbreadonaddr ≡ true
    → s.sbcs.sberror ≡ 0
    → s.sbcs.sbbusyerror ≡ false
    → n.op ≡ write_op sbaddress0 a
    → ((system_edge b n (record { sba = idle; regs = s })).sba ≡ read)
      × UnderWay a s.sbcs.sbaccess s.sbcs.sbautoincrement
          (system_edge b n (record { sba = idle; regs = s })).regs
unfolding system_edge Sba.step Sba.outputs tick outputs
start_edge a b n s act onaddr err berr o = (
  ground arith,
  record {
    active = ground arith;
    address = ground arith;
    access = ground arith;
    autoincrement = ground arith;
    no_error = ground arith;
    no_busyerror = ground arith;
  },
)

module _ (a size : ℕ) (increment : Bool) (small : a < 2 ^ 32) (legal_size : ltb 2 size ≡ false)
    (aligned : a % 2 ^ size ≡ 0) where
  quiet_tick :
      (i : Inputs) (s : Regs)
      → UnderWay a size increment s
      → i.op ≡ no_op
      → i.sberror_valid ≡ false
      → i.sbaddress ≡ a
      → UnderWay a size increment (tick i s)
  unfolding tick
  quiet_tick i s u q e d = record {
    active = ground (arith, u.active);
    address = ground (arith, u.active);
    access = ground (arith, u.active, u.access);
    autoincrement = ground (arith, u.active, u.autoincrement);
    no_error = ground (arith, u.active, u.no_error);
    no_busyerror = ground (arith, u.active, u.no_busyerror);
  }

  UnderWay-legal :
      (b : Answer) (s : Regs) (p q r : Bool)
      → UnderWay a size increment s
      → legal (to_sba b s p q r) ≡ true
  UnderWay-legal b s p q r u = rw (u.access, u.address, legal_size, aligned) refl

  -- An edge without the answer keeps the access under way; the state machine moves on as it does alone.
  pending_edge :
      (b : Answer) (n : Inputs) (st : Sba.State) (s : Regs)
      → UnderWay a size increment s
      → n.op ≡ no_op
      → answered st (to_sba b s false false false) ≡ false
      → UnderWay a size increment (system_edge b n (record { sba = st; regs = s })).regs
  unfolding system_edge
  pending_edge b n st s u q none =
      let (quiet, same) =
        pending (to_sba b s false false false) st (UnderWay-legal b s false false false u) none
          (rw u.address small) in
      quiet_tick (from_sba (driven b (record { sba = st; regs = s })) n) s u q quiet
        (same ∙ u.address)

  -- Where the state machine is in an access.
  abbrev pub At : Sba.State → System → Type 0
  At st t = (t.sba ≡ st) × UnderWay a size increment t.regs

  -- The state machine's own step, at what the registers drive.
  pending-At :
      (st st' : Sba.State) (b : Answer) (n : Inputs) (t : System)
      → At st t
      → n.op ≡ no_op
      → answered st (to_sba b t.regs false false false) ≡ false
      → ((p q r : Bool)
          → legal (to_sba b t.regs p q r) ≡ true
          → Sba.step (to_sba b t.regs p q r) st ≡ st')
      → At st' (system_edge b n t)
  pending-At st st' b n t (e, u) quiet none moves =
      let (p, q, r, moved) = stepped b n t in
      let here : answered t.sba (to_sba b t.regs false false false) ≡ false = rw e none in
      (
        moved
            ∙ ap (Sba.step (to_sba b t.regs p q r)) e
            ∙ moves p q r (UnderWay-legal b t.regs p q r u),
        pending_edge b n t.sba t.regs u quiet here,
      )

  pub ungranted :
      (r : List (Answer × Inputs)) (t : System)
      → AllUngranted r
      → At read t
      → At read (system_edges r t)
  unfolding system_edges
  ungranted [] t h w = w
  ungranted ((b, n) ∷ r) t h w = ungranted r (system_edge b n t) h.2 (
      pending-At read read b n t w h.0 refl
        (λ p q r l. ask_waits false (to_sba b t.regs p q r) l h.1))

  pub granted-At :
      (b : Answer) (n : Inputs) (t : System)
      → n.op ≡ no_op
      → b.gnt ≡ true
      → At read t
      → At wait_read (system_edge b n t)
  granted-At b n t o g w =
      pending-At read wait_read b n t w o refl
        (λ p q r l. ask_granted false (to_sba b t.regs p q r) l g)

  pub unanswered :
      (r : List (Answer × Inputs)) (t : System)
      → AllUnanswered r
      → At wait_read t
      → At wait_read (system_edges r t)
  unfolding system_edges
  unanswered [] t h w = w
  unanswered ((b, n) ∷ r) t h w = unanswered r (system_edge b n t) h.2 (
      pending-At wait_read wait_read b n t w h.0 h.1
        (λ p q r l. answer_waits false (to_sba b t.regs p q r) l h.1))

  answer_tick :
      (i : Inputs) (s : Regs)
      → UnderWay a size increment s
      → i.op ≡ no_op
      → i.sbdata_valid ≡ true
      → ((tick i s).sbdata_lo ≡ i.sbdata)
        × ((tick i s).sbaddr_lo ≡ i.sbaddress)
        × ((tick i s).sbcs.sberror ≡ (if i.sberror_valid then i.sberror else 0))
        × ((tick i s).sbcs.sbbusyerror ≡ false)
  unfolding tick
  answer_tick i s u q v = (
    ground (arith, u.active),
    ground (arith, u.active),
    ground (arith, u.active, u.no_error),
    ground (arith, u.active, u.no_busyerror),
  )

  -- `sbdata_o` of the answer
  abbrev pub lane_data : ℕ → ℕ
  lane_data w = w / 2 ^ (8 * (a % 4 / 2 ^ size * 2 ^ size))

  -- The access is over without an error, with the answer in `sbdata` and the address moved on.
  abbrev pub Fetched : ℕ → System → Type 0
  Fetched w t =
      (t.sba ≡ idle)
      × (t.regs.sbdata_lo ≡ lane_data w)
      × (t.regs.sbaddr_lo ≡ (a + (if increment then 2 ^ size else 0)) % 2 ^ 32)
      × (t.regs.sbcs.sberror ≡ 0)
      × (t.regs.sbcs.sbbusyerror ≡ false)

  shown :
      (b : Answer) (s : Regs)
      → UnderWay a size increment s
      → b.r_valid ≡ true
      → let o = Sba.outputs (to_sba b s false false false) wait_read in
        (o.sbdata_valid ≡ true) × (o.sbdata_o ≡ lane_data b.r_rdata)
  unfolding Sba.outputs
  shown b s u v = (v, rw (u.address, u.access) refl)

  answer_edge :
      (b : Answer) (n : Inputs) (s : Regs)
      → UnderWay a size increment s
      → n.op ≡ no_op
      → b.r_valid ≡ true
      → b.r_err ≡ false
      → b.r_other_err ≡ false
      → Fetched b.r_rdata (system_edge b n (record { sba = wait_read; regs = s }))
  answer_edge b n s u q v x y =
      let t : System = record { sba = wait_read; regs = s } in
      let (p1, p2, p3, moved) = stepped b n t in
      let l = UnderWay-legal b s in
      let (ended, _, _, _) = answered_shows false (to_sba b s p1 p2 p3) (l p1 p2 p3 u) v in
      let (_, moved_on, marked, _) =
        answered_shows false (to_sba b s false false false) (l false false false u) v in
      let (valid, lane) = shown b s u v in
      let (word, address, error, quiet) = answer_tick (from_sba (driven b t) n) s u q valid in
      (
        moved ∙ ended,
        unfold system_edge in (word ∙ lane),
        unfold system_edge in (address ∙ moved_on ∙ rw (u.address, u.access, u.autoincrement) refl),
        unfold system_edge in (error ∙ rw (marked, x, y) refl),
        unfold system_edge in quiet,
      )

  pub answer-At :
      (b : Answer) (n : Inputs) (t : System)
      → At wait_read t
      → n.op ≡ no_op
      → b.r_valid ≡ true
      → b.r_err ≡ false
      → b.r_other_err ≡ false
      → Fetched b.r_rdata (system_edge b n t)
  answer-At b n t (e, u) q v x y =
      subst (λ st. Fetched b.r_rdata (system_edge b n (record { sba = st; regs = t.regs }))) (sym e)
        (answer_edge b n t.regs u q v x y)

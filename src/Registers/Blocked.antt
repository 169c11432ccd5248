-- ===== src/Registers/Blocked.antt =====
-- Errors of the system bus (`sberror` and `sbbusyerror` of `sbcs`): rtl/DM_CSRS.sv with rtl/DM_SBA.sv.
use jtag_debug_module_for_ri.Common.{
  ◌≡◌, refl, sym, ◌∙◌, Bool, true, false, not, ◌||◌, ◌==◌, List, [], ◌∷◌, arith,
}
use mathlib.Core.Path.{subst}
use jtag_debug_module_for_ri.Sba as Sba
use jtag_debug_module_for_ri.Sba.{idle, is_idle}
use jtag_debug_module_for_ri.Registers.{sbcs, dmcontrol}
use jtag_debug_module_for_ri.Registers.Csrs.{Regs, Op, write_op, Inputs, tick, outputs}
use jtag_debug_module_for_ri.Registers.Bus.{Answer, System, system_edge, system_edges}

-- An error is outstanding.
abbrev pub has_error : Regs → Bool
has_error s = not (s.sbcs.sberror == 0) || s.sbcs.sbbusyerror

-- A request that writes `sbcs`, which alone clears errors, or `dmcontrol`, which may end it all.
abbrev pub clears_errors : Op → Bool
clears_errors (write_op sbcs w) = true
clears_errors (write_op dmcontrol w) = true
clears_errors _ = false

blocked_edge :
    (b : Answer) (n : Inputs) (s : Regs)
    → has_error s ≡ true
    → s.dmcontrol.dmactive ≡ true
    → clears_errors n.op ≡ false
    → let t = system_edge b n (record { sba = idle; regs = s }) in
      (t.sba ≡ idle)
      × (t.regs.dmcontrol.dmactive ≡ true)
      × (t.regs.sbcs.sberror ≡ s.sbcs.sberror)
      × ((s.sbcs.sbbusyerror || t.regs.sbcs.sbbusyerror) ≡ t.regs.sbcs.sbbusyerror)
unfolding system_edge Sba.step Sba.outputs tick outputs
blocked_edge b n s e a c = (ground arith, ground arith, ground arith, ground arith)

-- The bus is idle, with an error outstanding.
abbrev pub Blocked : System → Type 0
Blocked t = (t.sba ≡ idle) × (has_error t.regs ≡ true) × (t.regs.dmcontrol.dmactive ≡ true)

-- The error number is the same in `u` as in `t`, and `sbbusyerror` is set in `u` if it is in `t`.
pub record ErrorsKept (t u : System) : Type 0 where
  pub sberror_same : u.regs.sbcs.sberror ≡ t.regs.sbcs.sberror
  pub sbbusyerror_kept :
      (t.regs.sbcs.sbbusyerror || u.regs.sbcs.sbbusyerror) ≡ u.regs.sbcs.sbbusyerror

or_same : (b : Bool) → (b || b) ≡ b
or_same true = refl
or_same false = refl

or_trans : (a b c : Bool) → (a || b) ≡ b → (b || c) ≡ c → (a || c) ≡ c
or_trans true true c h k = k
or_trans true false c h k = cc
or_trans false b c h k = refl

ErrorsKept-trans : (t u w : System) → ErrorsKept t u → ErrorsKept u w → ErrorsKept t w
ErrorsKept-trans t u w h k = record {
  sberror_same = k.sberror_same ∙ h.sberror_same;
  sbbusyerror_kept =
      or_trans t.regs.sbcs.sbbusyerror u.regs.sbcs.sbbusyerror w.regs.sbcs.sbbusyerror
        h.sbbusyerror_kept k.sbbusyerror_kept;
}

has_error-kept :
    (s u : Regs)
    → has_error s ≡ true
    → u.sbcs.sberror ≡ s.sbcs.sberror
    → (s.sbcs.sbbusyerror || u.sbcs.sbbusyerror) ≡ u.sbcs.sbbusyerror
    → has_error u ≡ true
has_error-kept s u e same kept = ground (arith, e, same, kept)

Blocked-step :
    (b : Answer) (n : Inputs) (t : System)
    → Blocked t
    → clears_errors n.op ≡ false
    → Blocked (system_edge b n t) × ErrorsKept t (system_edge b n t)
Blocked-step b n t (i, e, a) c =
    let from_idle : System = record { sba = idle; regs = t.regs } in
    let (rests, active, same, kept) = blocked_edge b n t.regs e a c in
    subst
      (λ st.
        Blocked (system_edge b n (record { sba = st; regs = t.regs }))
        × ErrorsKept t (system_edge b n (record { sba = st; regs = t.regs })))
      (sym i)
      (
        (rests, has_error-kept t.regs (system_edge b n from_idle).regs e same kept, active),
        record { sberror_same = same; sbbusyerror_kept = kept },
      )

abbrev pub NoneClears : List (Answer × Inputs) → Type 0
NoneClears [] = Unit {0}
NoneClears ((b, n) ∷ r) = (clears_errors n.op ≡ false) × NoneClears r

-- Once an error of the system bus is outstanding on an idle bus, no request starts an access: the
-- bus stays idle, over any number of edges, until the debugger writes `sbcs` (or `dmcontrol`). The
-- error number stays exactly what it was, and `sbbusyerror` stays set if it was set.
pub system_edges-Blocked :
    (r : List (Answer × Inputs)) (t : System)
    → Blocked t
    → NoneClears r
    → Blocked (system_edges r t) × ErrorsKept t (system_edges r t)
unfolding system_edges
system_edges-Blocked [] t h c =
    (h, record { sberror_same = refl; sbbusyerror_kept = or_same t.regs.sbcs.sbbusyerror })
system_edges-Blocked ((b, n) ∷ r) t h c =
    let u : System = system_edge b n t in
    let (blocked, kept) = Blocked-step b n t h c.0 in
    let (still, kept') = system_edges-Blocked r u blocked c.1 in
    (still, ErrorsKept-trans t u (system_edges r u) kept kept')

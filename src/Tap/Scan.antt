-- ===== src/Tap/Scan.antt =====
-- Scans through the registers of rtl/DTM_JTAG_TAP.sv.
use jtag_debug_module_for_ri.Common.{
  suc, ◌≡◌, refl, sym, ◌∙◌, ap, ap₂, ◌≢◌, Bool, true, false, List, [], ◌∷◌, ◌++◌, arith,
  append_assoc, append-nil, map, length, ◌⊎◌, inl, inr,
}
use jtag_debug_module_for_ri.Tap.{
  State, run_test_idle, shift_dr, shift_ir, Tap, Inputs, Selected, bypass_select, idcode_select,
  bit0, shift_in, cycle, select,
}
use jtag_debug_module_for_ri.Tap.Fsm.{cycles}

-- TDO before each period of a row, and the port after them.
pub scan : List Bool → List Inputs → Tap → List Bool × Tap
scan idcode_value [] t = ([], t)
scan idcode_value (i ∷ is) t =
    let (outs, u) = scan idcode_value is (cycle idcode_value i t) in (t.td_o ∷ outs, u)

-- The bits at TDI, and TMS low throughout.
abbrev pub tdis : List Inputs → List Bool
tdis is = map (λ (i : Inputs). i.td) is

abbrev pub AllLow : List Inputs → Type 0
AllLow [] = Unit {0}
AllLow (i ∷ is) = (i.tms ≡ false) × AllLow is

-- The register that shifts in a state, of those that the port itself holds.
abbrev pub data_register : Selected → Tap → List Bool
data_register idcode_select t = t.idcode
data_register bypass_select t = t.bypass ∷ []
data_register _ t = []

abbrev pub shifted : State → Tap → List Bool
shifted shift_ir t = t.jtag_ir_shift
shifted shift_dr t = data_register (select t.jtag_ir) t
shifted _ t = []

-- One period of a shift: the register drops bit 0 and takes TDI at its end, TDO shows its new bit
-- 0, and the port stays in its state with its instruction.
record Shifted (s : State) (i : Inputs) (t u : Tap) : Type 0 where
  state_kept : u.tap_state ≡ s
  ir_kept : u.jtag_ir ≡ t.jtag_ir
  moved : shifted s u ≡ shift_in i.td (shifted s t)
  shown : u.td_o ≡ bit0 (shifted s u)

shift_ir-Shifted :
    (v : List Bool) (i : Inputs) (t : Tap)
    → t.tap_state ≡ shift_ir
    → i.tms ≡ false
    → Shifted shift_ir i t (cycle v i t)
unfolding cycle
shift_ir-Shifted v i t e low =
    rw (e, low) (record { state_kept = refl; ir_kept = refl; moved = refl; shown = refl })

idcode-Shifted :
    (v : List Bool) (i : Inputs) (t : Tap)
    → t.tap_state ≡ shift_dr
    → select t.jtag_ir ≡ idcode_select
    → i.tms ≡ false
    → Shifted shift_dr i t (cycle v i t)
unfolding cycle
idcode-Shifted v i t e sel low =
    rw (e, low)
      (record { state_kept = refl; ir_kept = refl; moved = rw sel refl; shown = rw sel refl })

bypass-Shifted :
    (v : List Bool) (i : Inputs) (t : Tap)
    → t.tap_state ≡ shift_dr
    → select t.jtag_ir ≡ bypass_select
    → i.tms ≡ false
    → Shifted shift_dr i t (cycle v i t)
unfolding cycle
bypass-Shifted v i t e sel low =
    rw (e, low)
      (record { state_kept = refl; ir_kept = refl; moved = rw sel refl; shown = rw sel refl })

-- The port is in a shift state, at a register of its own, and TDO shows bit 0 of that register.
pub record IsShifting (s : State) (t : Tap) : Type 0 where
  pub in_state : t.tap_state ≡ s
  pub own :
      (s ≡ shift_ir)
      ⊎ (s ≡ shift_dr) × ((select t.jtag_ir ≡ idcode_select) ⊎ (select t.jtag_ir ≡ bypass_select))
  pub nonempty : shifted s t ≢ []
  pub showing : t.td_o ≡ bit0 (shifted s t)

own-Shifted :
    (v : List Bool) (s : State) (i : Inputs) (t : Tap)
    → IsShifting s t
    → i.tms ≡ false
    → Shifted s i t (cycle v i t)
own-Shifted v s i t h low = elim h.own [
  | inl ir ↦ rw ir (shift_ir-Shifted v i t (h.in_state ∙ ir) low)
  | inr (dr, inl sel) ↦ rw dr (idcode-Shifted v i t (h.in_state ∙ dr) sel low)
  | inr (dr, inr sel) ↦ rw dr (bypass-Shifted v i t (h.in_state ∙ dr) sel low)
]

pub shift_in-nonempty : (td : Bool) (reg : List Bool) → reg ≢ [] → shift_in td reg ≢ []
shift_in-nonempty td [] h = absurd (h refl)
shift_in-nonempty td (a ∷ []) h = λ e. cc
shift_in-nonempty td (a ∷ b ∷ l) h = λ e. cc

cycle-IsShifting :
    (v : List Bool) (s : State) (i : Inputs) (t : Tap)
    → IsShifting s t
    → i.tms ≡ false
    → IsShifting s (cycle v i t)
cycle-IsShifting v s i t h low =
    let step = own-Shifted v s i t h low in
    record {
      in_state = step.state_kept;
      own = rw step.ir_kept h.own;
      nonempty = rw step.moved (shift_in-nonempty i.td (shifted s t) h.nonempty);
      showing = step.shown;
    }

pub queue_step :
    (td : Bool) (reg bs : List Bool)
    → reg ≢ []
    → bit0 reg ∷ (shift_in td reg ++ bs) ≡ reg ++ (td ∷ bs)
queue_step td [] bs h = absurd (h refl)
queue_step td (b ∷ l) bs h = ap (λ x. b ∷ x) (append_assoc l (td ∷ []) bs)

-- A shift is a queue: over any number of periods with TMS low, in the instruction register or in
-- the identification or bypass register, the bits that come out at TDO followed by what the
-- register holds at the end are what it held at the start followed by the bits that went in, and
-- the port is still shifting there.
pub scan_queue :
    (v : List Bool) (s : State) (is : List Inputs) (t : Tap)
    → IsShifting s t
    → AllLow is
    → let (outs, u) = scan v is t in (outs ++ shifted s u ≡ shifted s t ++ tdis is) × IsShifting s u
unfolding scan
scan_queue v s [] t h low = (sym (append-nil (shifted s t)), h)
scan_queue v s (i ∷ is) t h low =
    let (queue, shifting) =
      scan_queue v s is (cycle v i t) (cycle-IsShifting v s i t h low.0) low.1 in
    let step = own-Shifted v s i t h low.0 in
    (
      ap₂ ◌∷◌ h.showing (queue ∙ ap (λ x. x ++ tdis is) step.moved)
          ∙ queue_step i.td (shifted s t) (tdis is) h.nonempty,
      shifting,
    )

-- The way from Run-Test/Idle to the shift of a data register.
abbrev pub to_shift_dr : Inputs → Inputs → Inputs → List Inputs
to_shift_dr a b c =
    record a { tms = true } ∷ record b { tms = false } ∷ record c { tms = false } ∷ []

length-scan : (v : List Bool) (is : List Inputs) (t : Tap) → length (scan v is t).0 ≡ length is
unfolding scan
length-scan v [] t = refl
length-scan v (i ∷ is) t = ap suc (length-scan v is (cycle v i t))

pub append_prefix : (a c b d : List Bool) → length a ≡ length c → a ++ b ≡ c ++ d → a ≡ c
append_prefix [] [] b d len e = refl
append_prefix [] (y ∷ c) b d len e = absurd (omega arith)
append_prefix (x ∷ a) [] b d len e = absurd (omega arith)
append_prefix (x ∷ a) (y ∷ c) b d len e =
    let tails : a ++ b ≡ c ++ d = cc in
    let rest : a ≡ c = append_prefix a c b d (omega arith) tails in cc

enter_idcode :
    (v : List Bool) (a b c : Inputs) (t : Tap)
    → t.tap_state ≡ run_test_idle
    → select t.jtag_ir ≡ idcode_select
    → let u = cycles v (to_shift_dr a b c) t in
      (u.tap_state ≡ shift_dr)
      × (select u.jtag_ir ≡ idcode_select)
      × (shifted shift_dr u ≡ v)
      × (u.td_o ≡ bit0 v)
unfolding cycles cycle
enter_idcode v a b c t e sel = rw (e, sel) (refl, refl, refl, refl)

-- From Run-Test/Idle with IDCODE selected, a scan of as many bits as the identification code has
-- reads that code at TDO, bit 0 first, whatever the register held before.
pub scan_idcode :
    (v : List Bool) (a b c : Inputs) (is : List Inputs) (t : Tap)
    → v ≢ []
    → t.tap_state ≡ run_test_idle
    → select t.jtag_ir ≡ idcode_select
    → AllLow is
    → length is ≡ length v
    → (scan v is (cycles v (to_shift_dr a b c) t)).0 ≡ v
scan_idcode v a b c is t full e sel low len =
    let u : Tap = cycles v (to_shift_dr a b c) t in
    let (there, still, held, shows) = enter_idcode v a b c t e sel in
    let (queue, rest) =
      scan_queue v shift_dr is u
        (record {
          in_state = there;
          own = inr (refl, inl still);
          nonempty = rw held full;
          showing = shows ∙ ap bit0 (sym held);
        })
        low in
    append_prefix (scan v is u).0 v _ _ (length-scan v is u ∙ len)
      (queue ∙ ap (λ x. x ++ tdis is) held)

-- An instruction scan from Run-Test/Idle: in, five bits with TMS high at the last, update, and back.
abbrev pub ir_scan : Bool → Bool → Bool → Bool → Bool → List (Bool × Bool)
ir_scan b0 b1 b2 b3 b4 =
    (true, false)
    ∷ (true, false)
    ∷ (false, false)
    ∷ (false, false)
    ∷ (false, b0)
    ∷ (false, b1)
    ∷ (false, b2)
    ∷ (false, b3)
    ∷ (true, b4)
    ∷ (true, false)
    ∷ (false, false)
    ∷ []

-- TMS and TDI for the port, beside any levels of the other two inputs.
abbrev pub with_pins : Inputs → List (Bool × Bool) → List Inputs
with_pins i l = map (λ (p : Bool × Bool). record i { tms = p.0; td = p.1 }) l

-- An instruction scan of any five bits selects that instruction, returns to Run-Test/Idle, and
-- leaves the data registers as they were.
pub cycles-ir_scan :
    (v : List Bool) (i : Inputs) (b0 b1 b2 b3 b4 : Bool) (t : Tap)
    → t.tap_state ≡ run_test_idle
    → let u = cycles v (with_pins i (ir_scan b0 b1 b2 b3 b4)) t in
      (u.tap_state ≡ run_test_idle)
      × (u.jtag_ir ≡ b0 ∷ b1 ∷ b2 ∷ b3 ∷ b4 ∷ [])
      × (u.idcode ≡ t.idcode)
      × (u.bypass ≡ t.bypass)
unfolding cycles cycle
cycles-ir_scan v i b0 b1 b2 b3 b4 t e = rw e (refl, refl, refl, refl)

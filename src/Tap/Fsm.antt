-- ===== src/Tap/Fsm.antt =====
-- The state machine of rtl/DTM_JTAG_TAP.sv (`p_tap_fsm`): how TMS moves the port through its states,
-- and the reset by TMS alone.
use jtag_debug_module_for_ri.Common.{◌≡◌, refl, Bool, true, List, [], ◌∷◌}
use jtag_debug_module_for_ri.Tap.{
  State, test_logic_reset, Tap, Inputs, next_state, bit0, cycle, reset, select,
}

-- The state after a row of TMS levels.
pub walk : List Bool → State → State
walk [] s = s
walk (tms ∷ l) s = walk l (next_state s tms)

abbrev five_high : List Bool
five_high = true ∷ true ∷ true ∷ true ∷ true ∷ []

pub walk-five_high : (s : State) → walk five_high s ≡ test_logic_reset
unfolding walk next_state
walk-five_high test_logic_reset = refl
walk-five_high _ = refl

-- Periods of TCK in a row.
unfoldable pub cycles : List Bool → List Inputs → Tap → Tap
cycles idcode_value [] t = t
cycles idcode_value (i ∷ is) t = cycles idcode_value is (cycle idcode_value i t)

abbrev pub AllHigh : List Inputs → Type 0
AllHigh [] = Unit {0}
AllHigh (i ∷ is) = (i.tms ≡ true) × AllHigh is

tap_state-cycle :
    (idcode_value : List Bool) (i : Inputs) (t : Tap)
    → (cycle idcode_value i t).tap_state ≡ next_state t.tap_state i.tms
unfolding cycle
tap_state-cycle idcode_value i t = refl

-- What a reset by TMS leaves: the state of a reset by TRST, but for TDO.
abbrev pub reset_by_tms : List Bool → Tap
reset_by_tms idcode_value = record (reset idcode_value) { td_o = bit0 idcode_value }

cycle-reset :
    (idcode_value : List Bool) (i : Inputs) (t : Tap)
    → t.tap_state ≡ test_logic_reset
    → i.tms ≡ true
    → cycle idcode_value i t ≡ reset_by_tms idcode_value
unfolding cycle reset select
cycle-reset idcode_value i t e h = rw (e, h)

cycles_stay_reset :
    (idcode_value : List Bool) (is : List Inputs)
    → AllHigh is
    → cycles idcode_value is (reset_by_tms idcode_value) ≡ reset_by_tms idcode_value
unfolding cycles reset
cycles_stay_reset idcode_value [] high = refl
cycles_stay_reset idcode_value (i ∷ is) high =
    rw (cycle-reset idcode_value i (reset_by_tms idcode_value) refl high.0)
      (cycles_stay_reset idcode_value is high.1)

-- Six or more periods with TMS high, whatever TDI is, leave the port from any state as a reset by
-- TRST leaves it, with IDCODE selected, but that TDO shows bit 0 of the identification code.
pub cycles-reset :
    (idcode_value : List Bool) (a b c d e f : Inputs) (more : List Inputs) (t : Tap)
    → AllHigh (a ∷ b ∷ c ∷ d ∷ e ∷ f ∷ more)
    → cycles idcode_value (a ∷ b ∷ c ∷ d ∷ e ∷ f ∷ more) t
      ≡ record (reset idcode_value) { td_o = bit0 idcode_value }
unfolding cycles
cycles-reset v a b c d e f more t (ha, (hb, (hc, (hd, (he, (hf, high)))))) =
    let t5 : Tap = cycle v e (cycle v d (cycle v c (cycle v b (cycle v a t)))) in
    let there : t5.tap_state ≡ test_logic_reset =
      simp (tap_state-cycle, ha, hb, hc, hd, he) (unfold walk in walk-five_high t.tap_state) in
    rw (cycle-reset v f t5 there hf) (cycles_stay_reset v more high)

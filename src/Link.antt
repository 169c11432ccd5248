-- ===== src/Link.antt =====
-- The pins of the server (tb/remote_bitbang) on the JTAG port (rtl/DTM_JTAG_TAP.sv), joined by
-- tb/SimJTAG.sv: a change of TCK between two ticks is an edge of the port's clock, with the other
-- pins as they are after it, and a low TRST resets the port.
pub mod Session
pub mod Bench
mod Divider
pub mod Served
mod Scanned
mod Tests
use jtag_debug_module_for_ri.Common.{
  ℕ, Bool, true, false, not, ◌&&◌, List, [], ◌∷◌, ◌==◌, if◌then◌else◌,
}
use jtag_debug_module_for_ri.Bitbang.{Pins}
use jtag_debug_module_for_ri.Tap.{Tap, Inputs, posedge, negedge, reset}

-- A level that the C code stores in a `char`, as the simulator's bit.
abbrev pub is_high : ℕ → Bool
is_high n = not (n == 0)

-- The port's inputs, beside the two that the transport module drives.
abbrev pub pin_inputs : Inputs → Pins → Inputs
pin_inputs i q = record i { tms = is_high q.tms; td = is_high q.tdi }

-- The port from one tick to the next; `tck` is the level of TCK before.
unfoldable pub on_pins : List Bool → Inputs → Bool → Pins → Tap → Tap
on_pins v i tck q t =
    if not (is_high q.trstn)
    then reset v
    else if is_high q.tck && not tck
    then posedge v (pin_inputs i q) t
    else if not (is_high q.tck) && tck
    then negedge (pin_inputs i q) t
    else t

-- The port over the pins of a row of ticks.
unfoldable pub over_ticks : List Bool → Inputs → Bool → List Pins → Tap → Tap
unfolding on_pins
over_ticks v i tck [] t = t
over_ticks v i tck (q ∷ qs) t = over_ticks v i (is_high q.tck) qs (on_pins v i tck q t)

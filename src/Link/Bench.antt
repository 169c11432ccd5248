-- ===== src/Link/Bench.antt =====
-- tb/SimJTAG.sv with the server (tb/remote_bitbang) on one side and the transport module with its port
-- (rtl/DTM_top.sv) on the other: the pins that a tick of the server leaves are what the port sees
-- until the next, and the level of TDO that a tick reads is the port's. The delays of SimJTAG.sv are
-- left out, and a tick is a step, however many clocks are between two: the port has settled at each.
use jtag_debug_module_for_ri.Common.{Bool, not, ◌&&◌, List, [], ◌∷◌, if◌then◌else◌}
use jtag_debug_module_for_ri.Bitbang.{◌>>=◌, Server, Outcome, ok, Pins, rbs_tick}
use jtag_debug_module_for_ri.Bitbang.Commands.{bit}
use jtag_debug_module_for_ri.Tap as Tap
use jtag_debug_module_for_ri.Tap.{posedge, negedge}
use jtag_debug_module_for_ri.Dtm as Dtm
use jtag_debug_module_for_ri.Dtm.{Dtm, step}
use jtag_debug_module_for_ri.Transport.{Crossing, Period, Port, dtm_inputs, tap_inputs}
use jtag_debug_module_for_ri.Link.{is_high}

-- The rising and the falling edge of TCK.
unfoldable pub port_posedge : List Bool → Period → Port → Port
port_posedge v q p = record {
  tap = posedge v (tap_inputs q p.dtm) p.tap;
  dtm = step (dtm_inputs q p.tap) p.dtm;
}

unfoldable pub port_negedge : Period → Port → Port
port_negedge q p = record p { tap = negedge (tap_inputs q p.dtm) p.tap }

-- A low TRST, which the transport module and its port both take.
unfoldable pub port_reset : List Bool → Port → Port
port_reset v p = record { tap = Tap.reset v; dtm = Dtm.reset p.dtm }

abbrev pub pin_period : Crossing → Pins → Period
pin_period c q = record { tms = is_high q.tms; td = is_high q.tdi; crossing = c }

-- The port from one tick to the next; `tck` is the level of TCK before.
unfoldable pub on_port : List Bool → Crossing → Bool → Pins → Port → Port
on_port v c tck q p =
    if not (is_high q.trstn)
    then port_reset v p
    else if is_high q.tck && not tck
    then port_posedge v (pin_period c q) p
    else if not (is_high q.tck) && tck
    then port_negedge (pin_period c q) p
    else p

-- What is not the server's or the port's at a tick: the clock domain crossing, and the bit that TDO
-- shows while the port does not drive it.
pub record Tick : Type 0 where
  pub crossing : Crossing
  pub random : Bool

pub record Bench : Type 0 where
  pub server : Server
  pub tck : Bool
  pub port : Port

-- `__jtag_TDO`
abbrev pub tdo_seen : Bool → Port → Bool
tdo_seen random p = if p.tap.tdo_oe then p.tap.td_o else random

unfoldable pub bench_tick : List Bool → Tick → Bench → Outcome Bench
bench_tick v k b = rbs_tick (bit (tdo_seen k.random b.port)) b.server >>= λ r.
    ok
      (record { server = r.1; tck = is_high r.0.tck; port = on_port v k.crossing b.tck r.0 b.port })

unfoldable pub bench_ticks : List Bool → List Tick → Bench → Outcome Bench
bench_ticks v [] b = ok b
bench_ticks v (k ∷ ks) b = bench_tick v k b >>= bench_ticks v ks

-- ===== src/Link/Tests.antt =====
-- The theorems on the server and the port together at concrete sessions.
mod Scanning
use jtag_debug_module_for_ri.Common.{
  ◌≡◌, refl, Bool, true, false, List, [], ◌∷◌, ◌++◌, map, replicate, ℕ, zero, suc, length,
}
use jtag_debug_module_for_ri.Common.Int.{pos}
use jtag_debug_module_for_ri.Bitbang.{Server, Setup, Pins, ok, ret, read_fail, byte, eagain}
use jtag_debug_module_for_ri.Bitbang.Commands.{Port, write, drive}
use jtag_debug_module_for_ri.Bitbang.Session.{
  Live, final, ticks, quiet, wait, next, idle, retry, take, Script, codes, to_send, Delivers, Takes,
}
use jtag_debug_module_for_ri.Tap as Tap
use jtag_debug_module_for_ri.Tap.{Tap, run_test_idle}
use jtag_debug_module_for_ri.Dtm as Dtm
use jtag_debug_module_for_ri.Dtm.{once, no_error, bits}
use jtag_debug_module_for_ri.Transport as Transport
use jtag_debug_module_for_ri.Transport.{Crossing, periods}
use jtag_debug_module_for_ri.Link.Bench.{Tick, Bench, bench_ticks}
use jtag_debug_module_for_ri.Link.Served.{
  ClientBit, session, ticks_of, period_of, tdo_read, bench_ticks-periods,
}
use jtag_debug_module_for_ri.Tap.Fsm.{cycles}
use jtag_debug_module_for_ri.Tap.Scan.{with_pins}
use jtag_debug_module_for_ri.Transport.Scan.{IsAt}
use jtag_debug_module_for_ri.Transport.Registers.{dmi_register}
use jtag_debug_module_for_ri.Transport.Periods.{captured, requested}
use jtag_debug_module_for_ri.Dtm.Laws.{IsWide}
use jtag_debug_module_for_ri.Link.Scanned.{scan_bits, char, bench_ticks-dmi_scan}
use jtag_debug_module_for_ri.Link.{over_ticks}
use jtag_debug_module_for_ri.Link.Divider.{Inputs, Adapter, Frame}
use jtag_debug_module_for_ri.Link.Session.{Bit, clocked, ticks-cycles}

-- TCK low, the other pins high.
abbrev pub low : Port
low = record { tck = false; tms = true; tdi = true; trstn = true }

abbrev pub connected : Server
connected = record {
  rbs_err = 0;
  tck = 0;
  tms = 1;
  tdi = 1;
  trstn = 1;
  tdo = 0;
  quit = 0;
  socket_fd = 3;
  client_fd = pos 7;
  recv_start = 0;
  recv_end = 0;
  accepts = [];
  reads = byte b'2' ∷ read_fail eagain ∷ byte b'6' ∷ byte b'0' ∷ [];
  writes = [];
  bound_port = 9823;
  sent = [];
  closed = [];
}

-- One bit with TMS high and TDI low.
abbrev one_bit : List Bit
one_bit = record { tms = true; tdi = false; tdo_low = 0; tdo_high = 1 } ∷ []

connected-Live : Live low (clocked one_bit 0) connected
connected-Live = record {
  shown = record { tck_shown = refl; tms_shown = refl; tdi_shown = refl; trstn_shown = refl };
  connected = refl;
  serving = refl;
  pending = next (wait eagain refl (next (next (quiet []))));
  willing = idle [];
}

abbrev others : Tap.Inputs
others = record { tms = false; td = false; dtmcs_tdo = false; dmi_tdo = false }

ticks-cycles_once :
    (ps : List Pins) × ((u : Server) × (ticks (0 ∷ 1 ∷ 0 ∷ []) connected ≡ ok (ps, u))
      × Live (final low (clocked one_bit 0)) [] u)
    × ((t : Tap)
        → over_ticks (true ∷ []) others false ps t
          ≡ cycles (true ∷ []) (with_pins others ((true, false) ∷ [])) t)
ticks-cycles_once = ticks-cycles (true ∷ []) others one_bit 0 low connected refl refl connected-Live

abbrev quiet_crossing : Crossing
quiet_crossing = record { req_ready = false; resp_valid = false; resp_data = []; resp = 0 }

abbrev pub tick_of : Bool → Tick
tick_of random = record { crossing = quiet_crossing; random = random }

-- A bit with TMS high and TDI low; TDO is not driven, and reads as high.
abbrev one_client_bit : List ClientBit
one_client_bit =
    record {
      tms = true;
      tdi = false;
      at_low = tick_of false;
      at_sample = tick_of true;
      at_high = tick_of false;
    }
    ∷ []

-- The client is ready to take one byte, after an empty write.
abbrev asked : Server
asked = record connected {
  reads = byte b'2' ∷ read_fail eagain ∷ byte b'R' ∷ byte b'6' ∷ byte b'0' ∷ [];
  writes = ret 0 ∷ ret 1 ∷ [];
}

asked-Live : Live low (session one_client_bit) asked
asked-Live = record {
  shown = record { tck_shown = refl; tms_shown = refl; tdi_shown = refl; trstn_shown = refl };
  connected = refl;
  serving = refl;
  pending = next (wait eagain refl (next (next (next (quiet [])))));
  willing = retry (take 0 (idle []));
}

-- Run-Test/Idle, after a reset of the transport module.
abbrev port_idle : Transport.Port
port_idle = record {
  tap = record (Tap.reset (true ∷ [])) { tap_state = run_test_idle };
  dtm = Dtm.reset (record {
    dtmcs = replicate 32 false;
    dr = replicate 41 false;
    state = Dtm.idle;
    address = replicate 7 false;
    data_reg = replicate 32 false;
    error = no_error;
    dmi = once (replicate 41 false);
  });
}

abbrev bench_idle : Bench
bench_idle = record { server = asked; tck = false; port = port_idle }

bench_ticks-periods_example :
    (d : Bench) × (bench_ticks (true ∷ []) (ticks_of one_client_bit (tick_of false)) bench_idle
      ≡ ok d)
    × (d.tck ≡ false)
    × (d.port ≡ periods (true ∷ []) (map period_of one_client_bit) port_idle)
    × (d.server.sent ≡ [] ++ tdo_read (true ∷ []) one_client_bit port_idle)
    × Live (drive (write false false false) low) [] d.server
bench_ticks-periods_example =
    bench_ticks-periods (true ∷ []) one_client_bit (tick_of false) low bench_idle refl refl
      asked-Live

-- The byte that the client gets.
bench_idle-char : tdo_read (true ∷ []) one_client_bit port_idle ≡ b'1' ∷ []
unfolding Tap.reset
bench_idle-char = refl

-- An enabled edge.
abbrev on : Inputs
on = record { reset = false; enable = true; init_done = true; tdo = false }

-- Two rows of two edges: `TICK_DELAY` is 1.
abbrev two_frames : List Frame
two_frames =
    record { before = on ∷ []; last = record on { tdo = true } }
    ∷ record { before = on ∷ []; last = on }
    ∷ []

abbrev power_up : Adapter
power_up = record {
  tick_counter = 9;
  r_reset = false;
  init_done_sticky = false;
  exit = 5;
  pins = record { tck = 0; tms = 1; tdi = 1; trstn = 1 };
  sim = record { init = 1; rbs = asked };
}

abbrev no_setup : Setup
no_setup = record {
  socket = ret 3;
  setsockopt = ret 0;
  bind = ret 0;
  listen = ret 0;
  getsockname = ret 0;
}

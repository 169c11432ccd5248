-- ===== src/Link/Tests/Scanning.antt =====
-- A scan of the DMI register from the socket at a concrete session of 41 bits.
use jtag_debug_module_for_ri.Common.{
  ◌≡◌, refl, true, false, List, [], ◌∷◌, ◌++◌, map, replicate, ℕ, zero, suc, length,
}
use jtag_debug_module_for_ri.Bitbang.{Server, ok, ret, byte}
use jtag_debug_module_for_ri.Bitbang.Commands.{write, drive}
use jtag_debug_module_for_ri.Bitbang.Session.{
  Live, quiet, next, idle, take, Script, codes, to_send, Delivers, Takes,
}
use jtag_debug_module_for_ri.Tap as Tap
use jtag_debug_module_for_ri.Tap.{Tap, run_test_idle}
use jtag_debug_module_for_ri.Dtm as Dtm
use jtag_debug_module_for_ri.Dtm.{follows, no_error, bits}
use jtag_debug_module_for_ri.Transport as Transport
use jtag_debug_module_for_ri.Transport.{Crossing, periods}
use jtag_debug_module_for_ri.Link.Bench.{Tick, Bench, bench_ticks}
use jtag_debug_module_for_ri.Link.Served.{ClientBit, session, ticks_of}
use jtag_debug_module_for_ri.Transport.Scan.{IsAt}
use jtag_debug_module_for_ri.Transport.Registers.{dmi_register}
use jtag_debug_module_for_ri.Transport.Periods.{captured}
use jtag_debug_module_for_ri.Dtm.Laws.{IsWide}
use jtag_debug_module_for_ri.Link.Scanned.{scan_bits, char, bench_ticks-dmi_scan}
use jtag_debug_module_for_ri.Link.Tests.{low, connected, tick_of}

-- A client that scans a read of address 0x11 into the DMI register, with its commands in the socket.
abbrev scan_bit : ClientBit
scan_bit = record {
  tms = false;
  tdi = true;
  at_low = tick_of false;
  at_sample = tick_of false;
  at_high = tick_of false;
}

abbrev read_bits : List ClientBit
read_bits =
    map (λ b. record scan_bit { tdi = b }) (true ∷ false ∷ (replicate 32 false ++ bits 7 0x11))

abbrev scan_script : Script
scan_script = session (scan_bits scan_bit scan_bit scan_bit read_bits scan_bit scan_bit)

abbrev scanning : Server
scanning = record connected {
  reads = map byte (codes scan_script);
  writes = replicate (to_send scan_script) (ret 1);
}

byte-Delivers : (cs : List ℕ) → Delivers (map byte cs) cs
byte-Delivers [] = quiet []
byte-Delivers (c ∷ cs) = next (byte-Delivers cs)

replicate-Takes : (n : ℕ) → Takes (replicate n (ret 1)) n
replicate-Takes zero = idle []
replicate-Takes (suc n) = take 0 (replicate-Takes n)

scanning-Live : Live low scan_script scanning
scanning-Live = record {
  shown = record { tck_shown = refl; tms_shown = refl; tdi_shown = refl; trstn_shown = refl };
  connected = refl;
  serving = refl;
  pending = byte-Delivers (codes scan_script);
  willing = replicate-Takes (to_send scan_script);
}

-- Run-Test/Idle with DMIACCESS selected; no error stands.
abbrev dmi_idle : Transport.Port
dmi_idle = record {
  tap = record (Tap.reset (true ∷ [])) { tap_state = run_test_idle; jtag_ir = bits 5 0x11 };
  dtm = record {
    dtmcs = replicate 32 false;
    dr = replicate 41 false;
    state = Dtm.idle;
    address = bits 7 0x10;
    data_reg = bits 32 77;
    error = no_error;
    dmi = follows;
  };
}

dmi_idle-IsAt : IsAt (true ∷ []) dmi_register run_test_idle dmi_idle
unfolding Tap.select
dmi_idle-IsAt = record { in_state = refl; chosen = refl; at_rest = refl }

dmi_idle-IsWide : IsWide dmi_idle.dtm
dmi_idle-IsWide = record {
  dtmcs_width = refl;
  dr_width = refl;
  address_width = refl;
  data_width = refl;
  dmi_width = tt;
}

abbrev bench_scanning : Bench
bench_scanning = record { server = scanning; tck = false; port = dmi_idle }

abbrev scan_ticks : List Tick
scan_ticks =
    ticks_of (scan_bits scan_bit scan_bit scan_bit read_bits scan_bit scan_bit) (tick_of false)

bench_ticks-dmi_scan_example :
    (u : Bench) × (bench_ticks (true ∷ []) scan_ticks bench_scanning ≡ ok u)
    × ((first : List ℕ) × (after : List ℕ) × (length first ≡ 3)
        × (length after ≡ 2)
        × (u.server.sent ≡ [] ++ (first ++ map char (captured dmi_idle.dtm) ++ after)))
    × (u.port.dtm ≡ record dmi_idle.dtm {
      dr = true ∷ false ∷ (replicate 32 false ++ bits 7 0x11);
      state = Dtm.read;
      address = bits 7 0x11;
      data_reg = replicate 32 false;
    })
    × (u.port.tap.tap_state ≡ run_test_idle)
    × (u.port.tap.jtag_ir ≡ bits 5 0x11)
    × Live (drive (write false false false) low) [] u.server
unfolding Tap.reset
bench_ticks-dmi_scan_example =
    bench_ticks-dmi_scan (true ∷ []) scan_bit scan_bit scan_bit read_bits scan_bit scan_bit
      (tick_of false) low bench_scanning refl refl dmi_idle-IsAt dmi_idle-IsWide refl scanning-Live

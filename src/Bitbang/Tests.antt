-- ===== src/Bitbang/Tests.antt =====
-- Runs of the remote bitbang server (remote_bitbang.c), and its theorems at concrete inputs.
use jtag_debug_module_for_ri.Common.{◌≡◌, refl, ◌↔◌, true, false, [], ◌∷◌, arith, map}
use jtag_debug_module_for_ri.Common.Int.{pos}
use jtag_debug_module_for_ri.Bitbang.{
  Server, Setup, pins, fail, ret, read_fail, byte, eof, eagain, ok, aborted, blocked, read_loop,
  send_loop, perform, rbs_init, rbs_tick,
}
use jtag_debug_module_for_ri.Bitbang.Commands.{
  write, sample, leave, code, Port, drive, answer, Shows, perform-code, ask_quit,
}
use jtag_debug_module_for_ri.Bitbang.Loops.{
  All, read_loop-blocked, send_loop-blocked, Sending, send_loop_lem,
}
use jtag_debug_module_for_ri.Bitbang.Invariant.{IsValid, rbs_tick-IsValid}
use jtag_debug_module_for_ri.Bitbang.Session.{
  ticks, Script, trace, final, port_pins, quiet, wait, next, idle, retry, take, Live, ticks-trace,
}
use jtag_debug_module_for_ri.Bitbang.Quit.{Left, rbs_tick-Left}

abbrev blank : Server
blank = record {
  rbs_err = 0;
  tck = 0;
  tms = 0;
  tdi = 0;
  trstn = 0;
  tdo = 0;
  quit = 0;
  socket_fd = 0;
  client_fd = pos 0;
  recv_start = 0;
  recv_end = 0;
  accepts = fail eagain ∷ ret 7 ∷ [];
  reads = read_fail eagain ∷ byte b'6' ∷ byte b'R' ∷ [];
  writes = ret 0 ∷ ret 1 ∷ [];
  bound_port = 0;
  sent = [];
  closed = [];
}

abbrev all_fine : Setup
all_fine = record {
  socket = ret 3;
  setsockopt = ret 0;
  bind = ret 0;
  listen = ret 0;
  getsockname = ret 0;
}

abbrev set_up : Server
set_up = record blank { socket_fd = 3; bound_port = 9823; tck = 1; tms = 1; tdi = 1; trstn = 1 }

abbrev linked : Server
linked = record set_up { accepts = []; client_fd = pos 7 }

abbrev high : Port
high = record { tck = true; tms = true; tdi = true; trstn = true }

-- Set up, wait for a client, drive the pins, and read TDO.
whole_run :
    rbs_init all_fine 9823 blank ≡ ok set_up × (rbs_tick 0 set_up ≡ ok (pins set_up, linked))
unfolding rbs_init rbs_tick
whole_run = (refl, refl)

abbrev script : Script
script = (write true true false, 0) ∷ (sample, 1) ∷ []

high-Live : Live high script linked
high-Live = record {
  shown = record { tck_shown = refl; tms_shown = refl; tdi_shown = refl; trstn_shown = refl };
  connected = refl;
  serving = refl;
  pending = wait eagain refl (next (next (quiet [])));
  willing = retry (take 0 (idle []));
}

ticks-trace_example :
    (t : Server) × (ticks (0 ∷ 1 ∷ []) linked ≡ ok (map port_pins (trace high script), t))
    × (t.sent ≡ b'1' ∷ [])
    × Live (final high script) [] t
ticks-trace_example = ticks-trace script high linked (refl, (refl, tt)) high-Live

perform-code_once :
    Shows (drive leave high) (perform (code leave) linked).0
    × ((perform (code leave) linked).1 ≡ answer leave 0)
    × ((perform (code leave) linked).0.quit ≡ ask_quit leave 0)
perform-code_once = perform-code leave high linked high-Live.shown

linked-IsValid : IsValid linked
linked-IsValid = ground arith

abbrev after_one : Server
after_one = record linked { tdi = 0; reads = byte b'R' ∷ [] }

rbs_tick-IsValid_example : IsValid after_one × (pins after_one ≡ pins after_one)
unfolding rbs_tick
rbs_tick-IsValid_example = rbs_tick-IsValid 0 linked linked-IsValid refl

read_loop-blocked_example :
    (read_loop (read_fail 5 ∷ []) blank ≡ blocked)
    ↔ All (λ r. r ≡ read_fail eagain) (read_fail 5 ∷ [])
read_loop-blocked_example = read_loop-blocked (read_fail 5 ∷ []) blank

send_waits : (send_loop (ret 0 ∷ []) b'1' blank ≡ blocked) ↔ All (λ r. r ≡ ret 0) (ret 0 ∷ [])
send_waits = send_loop-blocked (ret 0 ∷ []) b'1' blank

send_loop_lem_example : Sending b'1' blank (ret 0 ∷ fail eagain ∷ ret 1 ∷ []) aborted
unfolding send_loop
send_loop_lem_example = send_loop_lem (ret 0 ∷ fail eagain ∷ ret 1 ∷ []) b'1' blank

-- A client that was accepted after another one had left.
abbrev second : Server
second = record linked { quit = 1; reads = byte b'6' ∷ byte b'5' ∷ [] }

abbrev dropped : Server
dropped = record second { tdi = 0; reads = byte b'5' ∷ []; closed = pos 7 ∷ []; client_fd = pos 0 }

rbs_tick-Left_once : Left b'6' second dropped
unfolding rbs_tick
rbs_tick-Left_once = rbs_tick-Left 0 b'6' (b'5' ∷ []) second refl (next (next (quiet []))) refl

abbrev hung_up : Server
hung_up = record linked { reads = eof ∷ eof ∷ []; accepts = ret 8 ∷ [] }

-- ===== src/SimJtag/Tests.antt =====
-- The theorems on sim_jtag.c and rbs_test.c at concrete inputs.
use jtag_debug_module_for_ri.Common.{ℕ, ◌<◌, ◌≡◌, ◌≢◌, refl, inr, [], ◌∷◌, arith}
use jtag_debug_module_for_ri.Common.Int.{pos, negsuc}
use jtag_debug_module_for_ri.Bitbang.{
  ◌>>=◌, Server, Setup, pins, ret, byte, ok, rbs_init, rbs_accept, rbs_tick,
}
use jtag_debug_module_for_ri.Bitbang.Invariant.{IsValid}
use jtag_debug_module_for_ri.SimJtag.{Sim, to_u16, jtag_tick, exit_value, main}
use jtag_debug_module_for_ri.SimJtag.Laws.{jtag_tick-exit, jtag_tick_first, main-running}

abbrev blank : Server
blank = record {
  rbs_err = 0;
  tck = 0;
  tms = 0;
  tdi = 0;
  trstn = 0;
  tdo = 0;
  quit = 0;
  socket_fd = 0;
  client_fd = pos 0;
  recv_start = 0;
  recv_end = 0;
  accepts = ret 7 ∷ [];
  reads = byte b'Q' ∷ [];
  writes = [];
  bound_port = 0;
  sent = [];
  closed = [];
}

abbrev all_fine : Setup
all_fine = record {
  socket = ret 3;
  setsockopt = ret 0;
  bind = ret 0;
  listen = ret 0;
  getsockname = ret 0;
}

abbrev fresh : Sim
fresh = record { init = 0; rbs = blank }

abbrev linked : Server
linked = record blank {
  socket_fd = 3;
  bound_port = 4;
  tck = 1;
  tms = 1;
  tdi = 1;
  trstn = 1;
  client_fd = pos 7;
  accepts = [];
}

abbrev gone : Server
gone = record linked { quit = 1; reads = []; client_fd = pos 0; closed = pos 7 ∷ [] }

first_tick :
    jtag_tick all_fine (pos 65540) 0 fresh ≡ ok (0, pins linked, record { init = 1; rbs = linked })
unfolding jtag_tick rbs_init rbs_tick
first_tick = refl

jtag_tick-exit_once :
    ◌≡◌ {A = ℕ} 1 1 × (1 < 2) × (pins gone ≡ pins gone) × IsValid gone × (◌≢◌ {A = ℕ} 1 0)
unfolding jtag_tick rbs_init rbs_tick
jtag_tick-exit_once =
    jtag_tick-exit all_fine (pos 65540) 0 (record { init = 1; rbs = linked }) (inr (ground arith))
      refl

jtag_tick_first_once : jtag_tick all_fine (negsuc 0) 0 fresh ≡ (
    rbs_init all_fine (to_u16 (negsuc 0)) blank >>= λ r.
    rbs_accept r >>= λ t. ok (exit_value t, pins t, record { init = 1; rbs = t }))
jtag_tick_first_once = jtag_tick_first all_fine (negsuc 0) 0 fresh refl

main_prints : ◌≡◌ {A = ℕ} 0 0
unfolding main rbs_init rbs_tick
main_prints = main-running all_fine blank {d = 0} {t = record linked { bound_port = 0 }} refl

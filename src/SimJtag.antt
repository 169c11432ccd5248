-- ===== src/SimJtag.antt =====
-- tb/remote_bitbang/sim_jtag.c, the function that SimJTAG.sv calls through the DPI at each tick of
-- the simulated debugger, and rbs_test.c, the stand-alone trial of the server.
pub mod Laws
mod Tests
use jtag_debug_module_for_ri.Common.{ℕ, ◌+◌, ◌*◌, ◌%◌, ◌^◌, ◌≡◌, Bool, bit_or, ◌==◌, if◌then◌else◌}
use jtag_debug_module_for_ri.Common.Int.{ℤ, to_word}
use jtag_debug_module_for_ri.Bitbang.{
  ◌>>=◌, Outcome, ok, Server, Setup, Pins, rbs_init, rbs_tick, rbs_done, rbs_exit_code,
}

-- The file's `init`, and the globals of remote_bitbang.c.
pub record Sim : Type 0 where
  pub init : ℕ
  pub rbs : Server

-- An `int` argument for a `uint16_t` parameter.
abbrev pub to_u16 : ℤ → ℕ
to_u16 i = to_word i % 2 ^ 16

-- `if (!init) init = rbs_init(port);`, where a call that returns gives 1. A port out of range gets
-- a message on stderr only.
pub ensure_init : Setup → ℤ → Sim → Outcome Sim
ensure_init os port m =
    if m.init == 0
    then (do r ← rbs_init os (to_u16 port) m.rbs; ok (record { init = 1; rbs = r }))
    else ok m

-- `rbs_done() ? (rbs_exit_code() << 1 | 1) : 0`
pub exit_value : Server → ℕ
unfolding rbs_done rbs_exit_code
exit_value r = if rbs_done r == 0 then 0 else bit_or (rbs_exit_code r * 2) 1

unfoldable pub jtag_tick : Setup → ℤ → ℕ → Sim → Outcome (ℕ × Pins × Sim)
unfolding ensure_init exit_value
jtag_tick os port jtag_tdo m = do
  n ← ensure_init os port m
  (p, r) ← rbs_tick jtag_tdo n.rbs
  ok (exit_value r, p, record n { rbs = r })

-- `main` of rbs_test.c; the result is the number that its last line prints.
unfoldable pub main : Setup → Server → Outcome (ℕ × Server)
unfolding rbs_done
main os s = do r ← rbs_init os 0 s; (p, t) ← rbs_tick 0 r; ok (rbs_done t, t)

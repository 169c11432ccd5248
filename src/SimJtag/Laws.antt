-- ===== src/SimJtag/Laws.antt =====
-- What a call of `jtag_tick` of sim_jtag.c returns, and what the first one does.
use jtag_debug_module_for_ri.Common.{ℕ, ◌<◌, ◌≡◌, ◌==◌, arith, Bool-cases, inl, inr, ◌≢◌, ◌⊎◌}
use jtag_debug_module_for_ri.Common.Int.{ℤ}
use jtag_debug_module_for_ri.Bitbang.{
  ◌>>=◌, >>=-eq-ok, ok, Server, Setup, Pins, pins, rbs_accept, rbs_init, rbs_tick,
}
use jtag_debug_module_for_ri.Bitbang.Invariant.{IsValid, rbs_init-IsValid, rbs_tick-IsValid}
use jtag_debug_module_for_ri.Bitbang.Quit.{rbs_tick_alone}
use jtag_debug_module_for_ri.SimJtag.{Sim, to_u16, ensure_init, exit_value, jtag_tick, main}

-- Between two calls the server is valid, once it is set up.
abbrev pub IsReady : Sim → Type 0
IsReady m = (m.init ≡ 0) ⊎ IsValid m.rbs

ensure_init-IsReady :
    (os : Setup) (port : ℤ) (m : Sim) {n : Sim}
    → IsReady m
    → ensure_init os port m ≡ ok n
    → IsValid n.rbs × (n.init ≢ 0)
unfolding ensure_init
ensure_init-IsReady os port m {n = n} v h = elim (Bool-cases (m.init == 0)) [
  | inl first ↦
      let (r, started, done) =
        >>=-eq-ok (rbs_init os (to_u16 port) m.rbs) (λ r. ok (record { init = 1; rbs = r }))
          (rw first at h) in
      let valid = rbs_init-IsValid os (to_u16 port) m.rbs started in ground (arith, valid.0)
  | inr later ↦ let same = rw later at h in ground (arith, v)
]

exit_value-quit : (r : Server) → IsValid r → exit_value r ≡ r.quit
unfolding exit_value
exit_value-quit r v = ground arith

-- A call that returns gives 1 if the debugger has asked to leave and 0 if not, since no error code
-- is ever set. It hands back the server's four pins, and leaves the server set up and valid.
pub jtag_tick-exit :
    (os : Setup) (port : ℤ) (tdo : ℕ) (m : Sim) {e : ℕ} {p : Pins} {n : Sim}
    → IsReady m
    → jtag_tick os port tdo m ≡ ok (e, p, n)
    → (e ≡ n.rbs.quit) × (n.rbs.quit < 2) × (p ≡ pins n.rbs) × IsValid n.rbs × (n.init ≢ 0)
unfolding jtag_tick
jtag_tick-exit os port tdo m {e = e} {p = p} {n = n} v h =
    let (k, begun, more) = >>=-eq-ok (ensure_init os port m) _ h in
    let (valid, set_up) = ensure_init-IsReady os port m v begun in
    let (r, ticked, done) = >>=-eq-ok (rbs_tick tdo k.rbs) _ more in
    let (valid', shown) = rbs_tick-IsValid tdo k.rbs valid ticked in
    ground (arith, valid', shown, exit_value-quit r.1 valid')

-- The first call sets the server up on the port's low 16 bits, out of range or not, and then only
-- waits for a client: it never reads a command, whatever TDO is.
pub jtag_tick_first :
    (os : Setup) (port : ℤ) (tdo : ℕ) (m : Sim)
    → m.init ≡ 0
    → jtag_tick os port tdo m ≡ (
        rbs_init os (to_u16 port) m.rbs >>= λ r.
        rbs_accept r >>= λ t. ok (exit_value t, pins t, record { init = 1; rbs = t }))
unfolding jtag_tick rbs_init rbs_tick
jtag_tick_first os port tdo m first = ground arith

-- The trial program of rbs_test.c, where its one tick returns, prints that the server is not done.
pub main-running : (os : Setup) (s : Server) {d : ℕ} {t : Server} → main os s ≡ ok (d, t) → d ≡ 0
unfolding main
main-running os s h =
    let (r, begun, more) = >>=-eq-ok (rbs_init os 0 s) _ h in
    let (u, ticked, done) = >>=-eq-ok (rbs_tick 0 r) _ more in
    let (valid, high, free, fresh, port) = rbs_init-IsValid os 0 s begun in
    let same = rbs_tick_alone 0 r (rw free) ticked in ground (arith, same, fresh)

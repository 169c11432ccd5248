-- ===== src/Verilator/Clock.antt =====
-- The clock, the reset and the time of tb/tb_top_verilator.cpp.
use jtag_debug_module_for_ri.Common.{
  ℕ, zero, suc, ◌+◌, ◌-◌, ◌*◌, ◌%◌, ◌^◌, ◌≡◌, refl, Bool, true, false, List, [], ◌∷◌, ltb, ◌==◌,
  some, arith, get_elem?,
}
use jtag_debug_module_for_ri.Verilator.{Top, start, driven, advanced, rounds, main}

-- The inputs before round `k`, as numbers of the round alone.
record InRound (k : ℕ) (top : Top) : Type 0 where
  enabled : top.fetch_enable_i ≡ true
  level : top.clk_i ≡ (k % 2 == 1)
  held : top.rst_ni ≡ ltb 9 k
  clock : top.t ≡ (5 * k) % 2 ^ 64

driven-InRound :
    (k : ℕ) (top : Top)
    → InRound k top
    → (InRound (suc k) (advanced (driven top)))
      × ((driven top).rst_ni ≡ ltb 8 k)
      × ((driven top).clk_i ≡ (k % 2 == 0))
unfolding driven
driven-InRound k top h = ground arith

rounds-get :
    (finish : List Bool) (k n : ℕ) (top : Top) {u : Top}
    → InRound k top
    → get_elem? (rounds finish top).0 n ≡ some u
    → (u.fetch_enable_i ≡ true)
      × (u.clk_i ≡ ((k + n) % 2 == 0))
      × (u.rst_ni ≡ ltb 8 (k + n))
      × (u.t ≡ (5 * (k + n)) % 2 ^ 64)
unfolding rounds
rounds-get [] k n top h e = cc
rounds-get (true ∷ finish) k n top h e = cc
rounds-get (false ∷ finish) k zero top {u = u} h e =
    let same : driven top ≡ u = cc in
    let (_, held, level) = driven-InRound k top h in
    rw (← same) (h.enabled, ground arith, ground arith, omega (arith, h.clock))
rounds-get (false ∷ finish) k (suc n) top h e =
    let (next, _, _) = driven-InRound k top h in
    let ih = rounds-get finish (suc k) n (advanced (driven top)) next e in ground (arith, ih)

-- The inputs of every evaluation, the `n`-th from 0, however long the simulation runs: the clock is
-- high at the odd ones, the reset is held for the first ten and never again, the time is five for
-- each round, wrapped at 64 bits, and fetching is enabled throughout.
pub main-get :
    (finish : List Bool) (n : ℕ) {u : Top}
    → get_elem? (main finish).0 n ≡ some u
    → (u.fetch_enable_i ≡ true)
      × (u.clk_i ≡ (n % 2 == 1))
      × (u.rst_ni ≡ ltb 9 n)
      × (u.t ≡ (5 * (n - 1)) % 2 ^ 64)
unfolding main
main-get finish zero {u = u} e = let same : start ≡ u = cc in rw (← same) (refl, refl, refl, refl)
main-get finish (suc n) e =
    let first : InRound 0 start = record {
      enabled = refl;
      level = refl;
      held = refl;
      clock = refl;
    } in
    ground (arith, rounds-get finish 0 n start first e)

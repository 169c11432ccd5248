-- ===== src/Link/Divider.antt =====
-- SimJTAG of tb/SimJTAG.sv at the edges of the simulation's clock: the counter that spaces the calls of
-- `jtag_tick`, and its reset and start. The delays of 0.1 are left out.
use jtag_debug_module_for_ri.Common.{
  ℕ, suc, zero, ◌-◌, ◌≡◌, Bool, true, false, not, ◌&&◌, ◌||◌, List, [], ◌∷◌, ◌++◌, ◌==◌,
  if◌then◌else◌,
}
use jtag_debug_module_for_ri.Common.Int.{ℤ}
use jtag_debug_module_for_ri.Bitbang.{◌>>=◌, Outcome, ok, Setup, Pins}
use jtag_debug_module_for_ri.Bitbang.Commands.{bit}
use jtag_debug_module_for_ri.SimJtag.{Sim, jtag_tick}

-- What SimJTAG reads at a rising edge of its clock.
pub record Inputs : Type 0 where
  pub reset : Bool
  pub enable : Bool
  pub init_done : Bool
  pub tdo : Bool

-- The registers, with the globals of the C side.
pub record Adapter : Type 0 where
  pub tick_counter : ℕ
  pub r_reset : Bool
  pub init_done_sticky : Bool
  pub exit : ℕ
  pub pins : Pins
  pub sim : Sim

-- `TICK_DELAY` is the first argument, and `tickCounterNxt` the counter's next value.
abbrev pub counter_next : ℕ → ℕ → ℕ
counter_next delay n = if n == 0 then delay else n - 1

-- `jtag_tick`, with `PORT` and what the calls to the operating system of the first tick return.
unfoldable pub call_tick : Setup → ℤ → Bool → Adapter → Outcome Adapter
call_tick os port tdo a =
    jtag_tick os port (bit tdo) a.sim >>= λ r. ok (record a { exit = r.0; pins = r.1; sim = r.2 })

unfoldable pub adapter_edge : ℕ → Setup → ℤ → Inputs → Adapter → Outcome Adapter
adapter_edge delay os port i a =
    let n : Adapter = record a {
      r_reset = i.reset;
      init_done_sticky = i.init_done || a.init_done_sticky;
    } in
    let m : Adapter = record n { tick_counter = counter_next delay a.tick_counter } in
    if i.reset || a.r_reset
    then ok
        (record a { r_reset = i.reset; exit = 0; tick_counter = delay; init_done_sticky = false })
    else if not (i.enable && a.init_done_sticky)
    then ok n
    else if a.tick_counter == 0
    then call_tick os port i.tdo m
    else ok m

unfoldable pub adapter_edges : ℕ → Setup → ℤ → List Inputs → Adapter → Outcome Adapter
adapter_edges delay os port [] a = ok a
adapter_edges delay os port (i ∷ is) a =
    adapter_edge delay os port i a >>= adapter_edges delay os port is

-- Calls of `jtag_tick` in a row, and nothing else.
unfoldable pub calls : Setup → ℤ → List Bool → Adapter → Outcome Adapter
calls os port [] a = ok a
calls os port (tdo ∷ tdos) a = call_tick os port tdo a >>= calls os port tdos

-- Edges at which the adapter is enabled.
pub data Enabled : ℕ → List Inputs → Type 0 where
  stop : Enabled zero []
  more :
      {n : ℕ} {is : List Inputs} (i : Inputs)
      → i.reset ≡ false
      → i.enable ≡ true
      → Enabled n is
      → Enabled (suc n) (i ∷ is)

-- The edges of one count down to 0, and the edge that calls.
pub record Frame : Type 0 where
  pub before : List Inputs
  pub last : Inputs

abbrev pub edges_of : List Frame → List Inputs
edges_of [] = []
edges_of (f ∷ fs) = f.before ++ f.last ∷ edges_of fs

abbrev pub AllFrames : ℕ → List Frame → Type 0
AllFrames delay [] = Unit {0}
AllFrames delay (f ∷ fs) =
    Enabled delay f.before × (f.last.reset ≡ false) × (f.last.enable ≡ true) × AllFrames delay fs

abbrev pub started : ℕ → ℕ → Pins → Sim → Adapter
started n e p m = record {
  tick_counter = n;
  r_reset = false;
  init_done_sticky = true;
  exit = e;
  pins = p;
  sim = m;
}

-- ===== src/Link/Session.antt =====
-- A client's bits on their way through the server to the JTAG port: OpenOCD clocks each
-- by TCK low and then high, with TMS and TDI in place.
use jtag_debug_module_for_ri.Common.{
  ℕ, ◌≡◌, refl, sym, ◌∙◌, ap, Bool, true, false, List, [], ◌∷◌, map,
}
use jtag_debug_module_for_ri.Bitbang.{ok, Server, Pins}
use jtag_debug_module_for_ri.Bitbang.Commands.{bit, write, Port, drive}
use jtag_debug_module_for_ri.Bitbang.Session.{
  Script, Live, AllStaying, levels, trace, final, port_pins, ticks, ticks-trace,
}
use jtag_debug_module_for_ri.Tap.{
  State, shift_ir, Tap, Inputs, Selected, idcode_select, select, tdo_of, tdo_mux, posedge, negedge,
  cycle,
}
use jtag_debug_module_for_ri.Tap.Fsm.{cycles}
use jtag_debug_module_for_ri.Tap.Scan.{with_pins}
use jtag_debug_module_for_ri.Link.{is_high, on_pins, over_ticks}

-- One bit that the client clocks, and the levels of TDO at its two ticks.
pub record Bit : Type 0 where
  pub tms : Bool
  pub tdi : Bool
  pub tdo_low : ℕ
  pub tdo_high : ℕ

-- The client's commands for a row of bits, and TCK low at the end.
abbrev pub clocked : List Bit → ℕ → Script
clocked [] z = (write false false false, z) ∷ []
clocked (b ∷ bs) z =
    (write false b.tms b.tdi, b.tdo_low) ∷ (write true b.tms b.tdi, b.tdo_high) ∷ clocked bs z

abbrev pub bits_of : List Bit → List (Bool × Bool)
bits_of bs = map (λ (b : Bit). (b.tms, b.tdi)) bs

tdo_of-pins :
    (s : Selected) (i : Inputs) (a b : Bool) (t : Tap)
    → tdo_of s (record i { tms = a; td = b }) t ≡ tdo_of s i t
tdo_of-pins idcode_select i a b t = refl
tdo_of-pins _ i a b t = refl

tdo_mux-pins :
    (s : State) (i : Inputs) (a b : Bool) (t : Tap)
    → tdo_mux s (record i { tms = a; td = b }) t ≡ tdo_mux s i t
tdo_mux-pins shift_ir i a b t = refl
tdo_mux-pins _ i a b t = tdo_of-pins (select t.jtag_ir) i a b t

-- The falling edge does not read TMS or TDI.
pub negedge-pins :
    (i : Inputs) (a b : Bool) (t : Tap) → negedge (record i { tms = a; td = b }) t ≡ negedge i t
unfolding negedge
negedge-pins i a b t =
    ap (λ x. record t { td_o = x; tdo_oe = (negedge i t).tdo_oe })
      (tdo_mux-pins t.tap_state i a b t)

pub is_high-bit : (b : Bool) → is_high (bit b) ≡ b
is_high-bit true = refl
is_high-bit false = refl

falls :
    (v : List Bool) (i : Inputs) (p : Port) (a b : Bool) (t : Tap)
    → p.trstn ≡ true
    → on_pins v i true (port_pins (drive (write false a b) p)) t ≡ negedge i t
unfolding on_pins
falls v i p a b t h = rw (h, is_high-bit a, is_high-bit b) (negedge-pins i a b t)

stays_low :
    (v : List Bool) (i : Inputs) (p : Port) (a b : Bool) (t : Tap)
    → p.trstn ≡ true
    → on_pins v i false (port_pins (drive (write false a b) p)) t ≡ t
unfolding on_pins
stays_low v i p a b t h = rw h refl

rises :
    (v : List Bool) (i : Inputs) (p : Port) (a b : Bool) (t : Tap)
    → p.trstn ≡ true
    → on_pins v i false (port_pins (drive (write true a b) p)) t
      ≡ posedge v (record i { tms = a; td = b }) t
unfolding on_pins
rises v i p a b t h = rw (h, is_high-bit a, is_high-bit b) refl

abbrev pub ports_of : Port → Script → List Pins
ports_of p r = map port_pins (trace p r)

-- From TCK high, the first falling edge belongs to the bit before.
over_ticks-high :
    (v : List Bool) (i : Inputs) (bs : List Bit) (z : ℕ) (p : Port) (t : Tap)
    → p.trstn ≡ true
    → over_ticks v i true (ports_of p (clocked bs z)) t
      ≡ cycles v (with_pins i (bits_of bs)) (negedge i t)
unfolding over_ticks cycles
over_ticks-high v i [] z p t h = falls v i p false false t h
over_ticks-high v i (b ∷ bs) z p t h =
    let low : Port = drive (write false b.tms b.tdi) p in
    let high : Port = drive (write true b.tms b.tdi) low in
    let more : List Pins = ports_of high (clocked bs z) in
    let j : Inputs = record i { tms = b.tms; td = b.tdi } in
    let risen : Tap = posedge v j (negedge i t) in
    ap (λ x. over_ticks v i true more (on_pins v i false (port_pins high) x))
      (falls v i p b.tms b.tdi t h)
    ∙ ap (over_ticks v i true more) (rises v i low b.tms b.tdi (negedge i t) h)
    ∙ over_ticks-high v i bs z high risen h
    ∙ ap (cycles v (with_pins i (bits_of bs)))
        (sym (negedge-pins i b.tms b.tdi risen) ∙ (unfold cycle in refl))

over_ticks-low :
    (v : List Bool) (i : Inputs) (bs : List Bit) (z : ℕ) (p : Port) (t : Tap)
    → p.trstn ≡ true
    → over_ticks v i false (ports_of p (clocked bs z)) t ≡ cycles v (with_pins i (bits_of bs)) t
unfolding over_ticks cycles
over_ticks-low v i [] z p t h = stays_low v i p false false t h
over_ticks-low v i (b ∷ bs) z p t h =
    let low : Port = drive (write false b.tms b.tdi) p in
    let high : Port = drive (write true b.tms b.tdi) low in
    let more : List Pins = ports_of high (clocked bs z) in
    let j : Inputs = record i { tms = b.tms; td = b.tdi } in
    let risen : Tap = posedge v j t in
    ap (λ x. over_ticks v i true more (on_pins v i false (port_pins high) x))
      (stays_low v i p b.tms b.tdi t h)
    ∙ ap (over_ticks v i true more) (rises v i low b.tms b.tdi t h)
    ∙ over_ticks-high v i bs z high risen h
    ∙ ap (cycles v (with_pins i (bits_of bs)))
        (sym (negedge-pins i b.tms b.tdi risen) ∙ (unfold cycle in refl))

clocked-AllStaying : (bs : List Bit) (z : ℕ) → AllStaying (clocked bs z)
clocked-AllStaying [] z = (refl, tt)
clocked-AllStaying (b ∷ bs) z = (refl, (refl, clocked-AllStaying bs z))

-- From the socket to the port: over a client's commands that clock a row of bits, with any number
-- of EAGAINs and empty writes in between, from TCK low and TRST not asserted, every tick returns,
-- and the pins of the ticks take the port through exactly one period of TCK for each bit, with the
-- bit's TMS and TDI. The server stays connected.
pub ticks-cycles :
    (v : List Bool) (i : Inputs) (bs : List Bit) (z : ℕ) (p : Port) (s : Server)
    → p.tck ≡ false
    → p.trstn ≡ true
    → Live p (clocked bs z) s
    → (ps : List Pins) × ((u : Server) × (ticks (levels (clocked bs z)) s ≡ ok (ps, u))
        × Live (final p (clocked bs z)) [] u)
      × ((t : Tap) → over_ticks v i p.tck ps t ≡ cycles v (with_pins i (bits_of bs)) t)
ticks-cycles v i bs z p s low h live =
    let (u, ticked, sent, live') = ticks-trace (clocked bs z) p s (clocked-AllStaying bs z) live in
    (
      ports_of p (clocked bs z),
      (u, ticked, live'),
      λ t.
          ap (λ x. over_ticks v i x (ports_of p (clocked bs z)) t) low
          ∙ over_ticks-low v i bs z p t h,
    )

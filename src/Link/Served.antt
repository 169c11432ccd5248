-- ===== src/Link/Served.antt =====
-- The closed loop of tb/remote_bitbang, tb/SimJTAG.sv and rtl/DTM_top.sv: a client that clocks bits and
-- reads TDO before each, as OpenOCD does, works the transport module's port.
use jtag_debug_module_for_ri.Common.{
  ℕ, ◌≡◌, refl, ◌∙◌, ap, Bool, true, false, List, [], ◌∷◌, ◌++◌, append_assoc, append-nil, map,
  if◌then◌else◌,
}
use jtag_debug_module_for_ri.Bitbang.{ok, Server}
use jtag_debug_module_for_ri.Bitbang.Commands.{Command, write, sample, bit, Port, drive, answer}
use jtag_debug_module_for_ri.Bitbang.Session.{
  Script, Live, to_list, staying, port_pins, rbs_tick-Live,
}
use jtag_debug_module_for_ri.Tap.{Tap, negedge, posedge, cycle}
use jtag_debug_module_for_ri.Dtm.{Dtm, step}
use jtag_debug_module_for_ri.Transport as Transport
use jtag_debug_module_for_ri.Transport.{Crossing, Period, period, periods, tap_inputs, dtm_inputs}
use jtag_debug_module_for_ri.Link.{is_high}
use jtag_debug_module_for_ri.Link.Session.{negedge-pins, is_high-bit}
use jtag_debug_module_for_ri.Link.Bench.{
  Tick, Bench, on_port, port_posedge, port_negedge, tdo_seen, bench_tick, bench_ticks,
}

-- One bit that the client clocks, and what the three ticks of it find.
pub record ClientBit : Type 0 where
  pub tms : Bool
  pub tdi : Bool
  pub at_low : Tick
  pub at_sample : Tick
  pub at_high : Tick

-- For each bit TCK low, a request for TDO, and TCK high; TCK low at the end.
abbrev pub session : List ClientBit → Script
session [] = (write false false false, 0) ∷ []
session (b ∷ bs) =
    (write false b.tms b.tdi, 0) ∷ (sample, 0) ∷ (write true b.tms b.tdi, 0) ∷ session bs

abbrev pub ticks_of : List ClientBit → Tick → List Tick
ticks_of [] last = last ∷ []
ticks_of (b ∷ bs) last = b.at_low ∷ b.at_sample ∷ b.at_high ∷ ticks_of bs last

abbrev pub period_of : ClientBit → Period
period_of b = record { tms = b.tms; td = b.tdi; crossing = b.at_high.crossing }

-- The characters of TDO before each period.
abbrev pub tdo_read : List Bool → List ClientBit → Transport.Port → List ℕ
tdo_read v [] p = []
tdo_read v (b ∷ bs) p =
    (if tdo_seen b.at_sample.random p then b'1' else b'0')
    ∷ tdo_read v bs (period v (period_of b) p)

-- The bytes and the answers of a script are there whatever levels TDO is given.
Live-level :
    (c : Command) (m n : ℕ) (r : Script) (p : Port) (s : Server)
    → Live p ((c, m) ∷ r) s
    → Live p ((c, n) ∷ r) s
Live-level sample m n r p s h = record {
  shown = h.shown;
  connected = h.connected;
  serving = h.serving;
  pending = h.pending;
  willing = h.willing;
}
Live-level _ m n r p s h = record {
  shown = h.shown;
  connected = h.connected;
  serving = h.serving;
  pending = h.pending;
  willing = h.willing;
}

-- What a tick that serves a command leaves of the bench.
record Ticked (v : List Bool) (c : Command) (k : Tick) (r : Script) (p : Port) (b d : Bench)
    : Type 0 where
  low_or_high : d.tck ≡ (drive c p).tck
  port_edge : d.port ≡ on_port v k.crossing b.tck (port_pins (drive c p)) b.port
  answered : d.server.sent ≡ b.server.sent ++ to_list (answer c (bit (tdo_seen k.random b.port)))
  live : Live (drive c p) r d.server

bench_tick-Ticked :
    (v : List Bool) (c : Command) (k : Tick) (z : ℕ) (r : Script) (p : Port) (b : Bench)
    → staying c ≡ true
    → Live p ((c, z) ∷ r) b.server
    → (d : Bench) × (bench_tick v k b ≡ ok d) × Ticked v c k r p b d
unfolding bench_tick
bench_tick-Ticked v c k z r p b stays h =
    let tdo : ℕ = bit (tdo_seen k.random b.port) in
    let (t, ticked, sent, live) =
      rbs_tick-Live c tdo r p b.server stays (Live-level c z tdo r p b.server h) in
    let q = port_pins (drive c p) in
    let port : Transport.Port = on_port v k.crossing b.tck q b.port in
    (
      record { server = t; tck = is_high q.tck; port = port },
      rw ticked refl,
      record {
        low_or_high = is_high-bit (drive c p).tck;
        port_edge = refl;
        answered = sent;
        live = live;
      },
    )

-- The rising edge of the port does not read the transport module.
posedge-dtm :
    (v : List Bool) (q : Period) (d e : Dtm) (t : Tap)
    → posedge v (tap_inputs q d) t ≡ posedge v (tap_inputs q e) t
unfolding posedge
posedge-dtm v q d e t = refl

module _ (v : List Bool) where
  on_port-low :
      (c : Crossing) (p : Port) (a b : Bool) (t : Transport.Port)
      → p.trstn ≡ true
      → on_port v c false (port_pins (drive (write false a b) p)) t ≡ t
  unfolding on_port
  on_port-low c p a b t h = rw h refl

  on_port-still :
      (c : Crossing) (p : Port) (t : Transport.Port)
      → p.trstn ≡ true
      → p.tck ≡ false
      → on_port v c false (port_pins (drive sample p)) t ≡ t
  unfolding on_port
  on_port-still c p t h low = rw (h, low) refl

  on_port-rises :
      (c : Crossing) (p : Port) (a b : Bool) (t : Transport.Port)
      → p.trstn ≡ true
      → on_port v c false (port_pins (drive (write true a b) p)) t
        ≡ port_posedge v (record { tms = a; td = b; crossing = c }) t
  unfolding on_port
  on_port-rises c p a b t h = rw (h, is_high-bit a, is_high-bit b) refl

  -- The falling edge ends the period, whatever the pins are by then.
  on_port-falls :
      (q : Period) (c : Crossing) (p : Port) (a b : Bool) (t : Transport.Port)
      → p.trstn ≡ true
      → on_port v c true (port_pins (drive (write false a b) p)) (port_posedge v q t) ≡ period v q t
  unfolding on_port port_posedge port_negedge period cycle
  on_port-falls q c p a b t h =
      let d : Dtm = step (dtm_inputs q t.tap) t.dtm in
      let risen : Tap = posedge v (tap_inputs q t.dtm) t.tap in
      let edge : negedge
            (tap_inputs (record { tms = is_high (bit a); td = is_high (bit b); crossing = c }) d)
            risen
          ≡ negedge (tap_inputs q d) (posedge v (tap_inputs q d) t.tap) =
        negedge-pins (tap_inputs q d) (is_high (bit a)) (is_high (bit b)) risen
        ∙ ap (negedge (tap_inputs q d)) (posedge-dtm v q t.dtm d t.tap) in
      rw h (ap (λ (x : Tap). record t { tap = x; dtm = d }) edge)

  -- What the three ticks of a bit leave, from a bench that TCK low takes to `x`.
  record Clocked (c : ClientBit) (r : Script) (p : Port) (x : Transport.Port) (b d : Bench)
      : Type 0 where
    high : d.tck ≡ true
    risen : d.port ≡ port_posedge v (period_of c) x
    answered : d.server.sent ≡ b.server.sent ++ tdo_read v (c ∷ []) x
    live : Live (drive (write true c.tms c.tdi) p) r d.server

  -- TCK low takes the port to `x`, by a falling edge or because it is low.
  abbrev FallsTo : Port → Bench → Transport.Port → Type 0
  FallsTo p b x =
      (c : Crossing) (m n : Bool)
      → on_port v c b.tck (port_pins (drive (write false m n) p)) b.port ≡ x

  char_read : (t : Bool) → to_list (answer sample (bit t)) ≡ (if t then b'1' else b'0') ∷ []
  char_read true = refl
  char_read false = refl

  bits-Clocked :
      (c : ClientBit) (r : Script) (ks : List Tick) (p : Port) (x : Transport.Port) (b : Bench)
      → p.trstn ≡ true
      → FallsTo p b x
      → Live p
          ((write false c.tms c.tdi, 0) ∷ (sample, 0) ∷ (write true c.tms c.tdi, 0) ∷ r)
          b.server
      → (d : Bench) × (bench_ticks v (c.at_low ∷ c.at_sample ∷ c.at_high ∷ ks) b
          ≡ bench_ticks v ks d)
        × Clocked c r p x b d
  unfolding bench_ticks
  bits-Clocked c r ks p x b h falls live =
      let p1 : Port = drive (write false c.tms c.tdi) p in
      let (b1, ran1, t1) =
        bench_tick-Ticked v (write false c.tms c.tdi) c.at_low 0
          ((sample, 0) ∷ (write true c.tms c.tdi, 0) ∷ r) p b refl live in
      let at1 : b1.port ≡ x = t1.port_edge ∙ falls c.at_low.crossing c.tms c.tdi in
      let (b2, ran2, t2) =
        bench_tick-Ticked v sample c.at_sample 0 ((write true c.tms c.tdi, 0) ∷ r) p1 b1 refl
          t1.live in
      let at2 : b2.port ≡ x =
        t2.port_edge ∙ rw (t1.low_or_high, at1) (on_port-still c.at_sample.crossing p1 x h refl) in
      let (b3, ran3, t3) =
        bench_tick-Ticked v (write true c.tms c.tdi) c.at_high 0 r p1 b2 refl t2.live in
      (
        b3,
        rw (ran1, ran2, ran3) refl,
        record {
          high = t3.low_or_high;
          risen =
              t3.port_edge
              ∙ rw (t2.low_or_high, at2) (on_port-rises c.at_high.crossing p1 c.tms c.tdi x h);
          answered =
              t3.answered
              ∙ append-nil b2.server.sent
              ∙ t2.answered
              ∙ ap (λ z. z ++ to_list (answer sample (bit (tdo_seen c.at_sample.random b1.port))))
                  (t1.answered ∙ append-nil b.server.sent)
              ∙ ap (λ z. b.server.sent ++ z)
                  (char_read (tdo_seen c.at_sample.random b1.port)
                    ∙ ap (λ z. (if tdo_seen c.at_sample.random z then b'1' else b'0') ∷ []) at1);
          live = t3.live;
        },
      )

  serve_bits :
      (bs : List ClientBit) (last : Tick) (p : Port) (x : Transport.Port) (b : Bench)
      → p.trstn ≡ true
      → FallsTo p b x
      → Live p (session bs) b.server
      → (d : Bench) × (bench_ticks v (ticks_of bs last) b ≡ ok d)
        × (d.tck ≡ false)
        × (d.port ≡ periods v (map period_of bs) x)
        × (d.server.sent ≡ b.server.sent ++ tdo_read v bs x)
        × Live (drive (write false false false) p) [] d.server
  unfolding bench_ticks periods
  serve_bits [] last p x b h falls live =
      let (d, ran, t) = bench_tick-Ticked v (write false false false) last 0 [] p b refl live in
      (
        d,
        rw ran refl,
        t.low_or_high,
        t.port_edge ∙ falls last.crossing false false,
        t.answered,
        t.live,
      )
  serve_bits (c ∷ bs) last p x b h falls live =
      let (b3, ran, t) = bits-Clocked c (session bs) (ticks_of bs last) p x b h falls live in
      let p3 : Port = drive (write true c.tms c.tdi) p in
      let ends : FallsTo p3 b3 (period v (period_of c) x) =
        λ k m n. rw (t.high, t.risen) (on_port-falls (period_of c) k p3 m n x h) in
      let (d, rest, low, port, sent, live') =
        serve_bits bs last p3 (period v (period_of c) x) b3 h ends t.live in
      (d, ran ∙ rest, low, port, sent ∙ rw (t.answered, append_assoc), live')

-- The closed loop: over a client's commands that clock a row of bits and ask for TDO before each,
-- with any number of EAGAINs and empty writes in between, from TCK low and TRST not asserted, every
-- tick returns, the transport module and its port go through exactly one period of TCK for each
-- bit, with the bit's TMS and TDI and the clock domain crossing of its rising edge, the client is
-- sent exactly the levels of TDO before each period, in order, and the server stays connected.
pub bench_ticks-periods :
    (v : List Bool) (bs : List ClientBit) (last : Tick) (p : Port) (b : Bench)
    → b.tck ≡ false
    → p.trstn ≡ true
    → Live p (session bs) b.server
    → (d : Bench) × (bench_ticks v (ticks_of bs last) b ≡ ok d)
      × (d.tck ≡ false)
      × (d.port ≡ periods v (map period_of bs) b.port)
      × (d.server.sent ≡ b.server.sent ++ tdo_read v bs b.port)
      × Live (drive (write false false false) p) [] d.server
bench_ticks-periods v bs last p b low h live =
    serve_bits v bs last p b.port b h (λ c m n. rw low (on_port-low v c p m n b.port h)) live

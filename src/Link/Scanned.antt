-- ===== src/Link/Scanned.antt =====
-- A debugger's scan of the DMI register of rtl/DTM_top.sv from the socket of tb/remote_bitbang: the
-- bytes of the client, and the characters that it gets back.
use jtag_debug_module_for_ri.Common.{
  ℕ, ◌≡◌, refl, ◌∙◌, ap, ap₂, Bool, true, false, List, [], ◌∷◌, ◌++◌, map, length, if◌then◌else◌,
}
use jtag_debug_module_for_ri.Bitbang.{ok}
use jtag_debug_module_for_ri.Bitbang.Commands.{write, drive}
use jtag_debug_module_for_ri.Bitbang.Commands as Commands
use jtag_debug_module_for_ri.Bitbang.Session.{Live}
use jtag_debug_module_for_ri.Tap.{run_test_idle, shift_dr, next_state, shifting, cycle}
use jtag_debug_module_for_ri.Dtm.Laws.{IsWide}
use jtag_debug_module_for_ri.Transport.{Period, Port, period, periods, scan}
use jtag_debug_module_for_ri.Transport.Periods.{captured, requested}
use jtag_debug_module_for_ri.Transport.Scan.{Bits, bits_in, tdis, IsAt}
use jtag_debug_module_for_ri.Transport.Whole.{with_tms, enter, leave, dr_scan}
use jtag_debug_module_for_ri.Transport.Registers.{dmi_register, dmi_scan}
use jtag_debug_module_for_ri.Link.Bench.{Tick, Bench, bench_ticks, tdo_seen}
use jtag_debug_module_for_ri.Link.Served.{
  ClientBit, session, ticks_of, period_of, tdo_read, bench_ticks-periods,
}

abbrev pub char : Bool → ℕ
char t = if t then b'1' else b'0'

abbrev pub bit_with : Bool → ClientBit → ClientBit
bit_with tms b = record b { tms = tms }

-- The client's bits of a shift, with TMS high at the last.
abbrev pub shift_bits : List ClientBit → List ClientBit
shift_bits [] = []
shift_bits (b ∷ []) = bit_with true b ∷ []
shift_bits (b ∷ x ∷ l) = bit_with false b ∷ shift_bits (x ∷ l)

-- The way to the shift, the shift, and the way back over the update.
abbrev pub scan_bits :
    ClientBit → ClientBit → ClientBit → List ClientBit → ClientBit → ClientBit → List ClientBit
scan_bits a b c ms y z =
    bit_with true a
    ∷ bit_with false b
    ∷ bit_with false c
    ∷ (shift_bits ms ++ bit_with true y ∷ bit_with false z ∷ [])

abbrev pub scanned : List ClientBit → Bits
scanned ms = map (λ (b : ClientBit). (b.tdi, b.at_high.crossing)) ms

length-scanned : (ms : List ClientBit) → length (scanned ms) ≡ length ms
length-scanned [] = refl
length-scanned (m ∷ ms) = rw (length-scanned ms)

tdis-scanned : (ms : List ClientBit) → tdis (scanned ms) ≡ map (λ (m : ClientBit). m.tdi) ms
tdis-scanned [] = refl
tdis-scanned (m ∷ ms) = ap (λ l. m.tdi ∷ l) (tdis-scanned ms)

module _ (v : List Bool) where
  -- The port's state after a period, and whether it drives TDO.
  period-states :
      (q : Period) (p : Port)
      → ((period v q p).tap.tap_state ≡ next_state p.tap.tap_state q.tms)
        × ((period v q p).tap.tdo_oe ≡ shifting (next_state p.tap.tap_state q.tms))
  unfolding period cycle
  period-states q p = (refl, refl)

  driven-char :
      (random : Bool) (p : Port)
      → p.tap.tdo_oe ≡ true
      → (if tdo_seen random p then b'1' else b'0') ≡ char p.tap.td_o
  driven-char random p h = rw h refl

  -- Over a shift the client reads the scan, and the port is where the scan takes it.
  record Reads (ms rest : List ClientBit) (p : Port) : Type 0 where
    chars :
        let (outs, u) = scan v (bits_in (scanned ms)) p in
        tdo_read v (shift_bits ms ++ rest) p ≡ map char outs ++ tdo_read v rest u
    port_after :
        periods v (map period_of (shift_bits ms ++ rest)) p
        ≡ periods v (map period_of rest) (scan v (bits_in (scanned ms)) p).1

  shift-Reads :
      (ms rest : List ClientBit) (p : Port)
      → p.tap.tap_state ≡ shift_dr
      → p.tap.tdo_oe ≡ true
      → Reads ms rest p
  unfolding scan periods
  shift-Reads [] rest p h oe = record { chars = refl; port_after = refl }
  shift-Reads (b ∷ []) rest p h oe = record {
    chars =
        ap (λ z. z ∷ tdo_read v rest (period v (period_of (bit_with true b)) p))
          (driven-char b.at_sample.random p oe);
    port_after = refl;
  }
  shift-Reads (b ∷ x ∷ l) rest p h oe =
      let u : Port = period v (period_of (bit_with false b)) p in
      let (goes, drives) = period-states (period_of (bit_with false b)) p in
      let more =
        shift-Reads (x ∷ l) rest u
          (goes ∙ ap (λ s. next_state s false) h ∙ (unfold next_state in refl))
          (drives ∙ ap (λ s. shifting (next_state s false)) h ∙ (unfold next_state in refl)) in
      record {
        chars = ap₂ ◌∷◌ (driven-char b.at_sample.random p oe) more.chars;
        port_after = more.port_after;
      }

  record ScanReads (a b c : ClientBit) (ms : List ClientBit) (y z : ClientBit) (p : Port)
      : Type 0 where
    first : List ℕ
    after : List ℕ
    three : length first ≡ 3
    two : length after ≡ 2
    chars :
        tdo_read v (scan_bits a b c ms y z) p
        ≡ first
          ++ map char
              (dr_scan v
                (enter (period_of a) (period_of b) (period_of c))
                (scanned ms)
                (leave (period_of y) (period_of z))
                p).0
          ++ after
    port_after :
        periods v (map period_of (scan_bits a b c ms y z)) p
        ≡ (dr_scan v
            (enter (period_of a) (period_of b) (period_of c))
            (scanned ms)
            (leave (period_of y) (period_of z))
            p).1

  scan-Reads :
      (a b c : ClientBit) (ms : List ClientBit) (y z : ClientBit) (p : Port)
      → p.tap.tap_state ≡ run_test_idle
      → ScanReads a b c ms y z p
  unfolding periods dr_scan
  scan-Reads a b c ms y z p h =
      let before : List ClientBit = bit_with true a ∷ bit_with false b ∷ bit_with false c ∷ [] in
      let rest : List ClientBit = bit_with true y ∷ bit_with false z ∷ [] in
      let p1 : Port = period v (with_tms true (period_of a)) p in
      let p2 : Port = period v (with_tms false (period_of b)) p1 in
      let p3 : Port = period v (with_tms false (period_of c)) p2 in
      let u : Port = (scan v (bits_in (scanned ms)) p3).1 in
      let (goes1, _) = period-states (with_tms true (period_of a)) p in
      let (goes2, _) = period-states (with_tms false (period_of b)) p1 in
      let (goes3, drives) = period-states (with_tms false (period_of c)) p2 in
      let there : next_state p2.tap.tap_state false ≡ shift_dr =
        rw (goes2, goes1, h) (unfold next_state in refl) in
      let reads = shift-Reads ms rest p3 (goes3 ∙ there) (drives ∙ ap shifting there) in
      record {
        first = tdo_read v before p;
        after = tdo_read v rest u;
        three = refl;
        two = refl;
        chars = ap (λ l. tdo_read v before p ++ l) reads.chars;
        port_after = reads.port_after;
      }

  -- A scan of the DMI register from the socket, with any number of EAGAINs and empty writes in
  -- between: from Run-Test/Idle with DMIACCESS selected, no transaction running, TCK low and TRST
  -- not asserted, every tick for a client that scans 41 bits returns. After three characters the
  -- client is sent the 41 bits that the error standing calls for, lowest first, and then two more.
  -- The client's bits are in the scan register, and where no error stands the transport module has
  -- taken a request: the one that the client's bits ask for, if the variable `dmi` follows the scan
  -- register, and the one of the bits that the variable got once, if it was initialised once. The
  -- port is back in Run-Test/Idle with the same instruction, and the server stays connected.
  pub bench_ticks-dmi_scan :
      (a b c : ClientBit) (ms : List ClientBit) (y z : ClientBit) (last : Tick) (p : Commands.Port)
      (d : Bench)
      → d.tck ≡ false
      → p.trstn ≡ true
      → IsAt v dmi_register run_test_idle d.port
      → IsWide d.port.dtm
      → length ms ≡ 41
      → Live p (session (scan_bits a b c ms y z)) d.server
      → (u : Bench) × (bench_ticks v (ticks_of (scan_bits a b c ms y z) last) d ≡ ok u)
        × ((first : List ℕ) × (after : List ℕ) × (length first ≡ 3)
            × (length after ≡ 2)
            × (u.server.sent ≡ d.server.sent ++ (first ++ map char (captured d.port.dtm) ++ after)))
        × (u.port.dtm ≡ requested (record d.port.dtm { dr = map (λ (m : ClientBit). m.tdi) ms }))
        × (u.port.tap.tap_state ≡ run_test_idle)
        × (u.port.tap.jtag_ir ≡ d.port.tap.jtag_ir)
        × Live (drive (write false false false) p) [] u.server
  bench_ticks-dmi_scan a b c ms y z last p d low high at wide len live =
      let (u, ran, _, port, sent, live') =
        bench_ticks-periods v (scan_bits a b c ms y z) last p d low high live in
      let reads = scan-Reads a b c ms y z d.port at.in_state in
      let (outs, dtm, there, ir) =
        dmi_scan v (period_of a) (period_of b) (period_of c) (scanned ms) (period_of y)
          (period_of z) d.port at wide (length-scanned ms ∙ len) in
      let now = port ∙ reads.port_after in
      (
        u,
        ran,
        (
          reads.first,
          reads.after,
          reads.three,
          reads.two,
          sent
              ∙ ap (λ l. d.server.sent ++ l)
                  (reads.chars ∙ ap (λ l. reads.first ++ map char l ++ reads.after) outs),
        ),
        ap (λ (q : Port). q.dtm) now
            ∙ dtm
            ∙ ap (λ l. requested (record d.port.dtm { dr = l })) (tdis-scanned ms),
        ap (λ (q : Port). q.tap.tap_state) now ∙ there,
        ap (λ (q : Port). q.tap.jtag_ir) now ∙ ir,
        live',
      )

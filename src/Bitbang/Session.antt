-- ===== src/Bitbang/Session.antt =====
-- A whole session of remote_bitbang.c: ticks of the server against the protocol alone.
use jtag_debug_module_for_ri.Common.{
  ℕ, zero, suc, ◌≡◌, refl, ◌∙◌, Bool, true, false, Option, some, none, List, [], ◌∷◌, ◌++◌, map,
  sym, append_assoc, append-nil, arith,
}
use jtag_debug_module_for_ri.Common.Int.{is_positive}
use jtag_debug_module_for_ri.Bitbang.{
  ◌>>=◌, Server, Outcome, Pins, pins, Ret, ret, Received, read_fail, byte, eagain, ok, read_loop,
  send_loop, send, perform, close_if_quit, obey, rbs_tick, rbs_execute_command,
}
use jtag_debug_module_for_ri.Bitbang.Commands.{
  Command, bit, leave, code, Port, drive, answer, Shows, perform-code, ask_quit, perform-SameLink,
}

-- Ticks in a row, each with the level of TDO at its start; the pins after each.
unfoldable pub ticks : List ℕ → Server → Outcome (List Pins × Server)
ticks [] s = ok ([], s)
ticks (tdo ∷ tdos) s = do (p, t) ← rbs_tick tdo s; (ps, u) ← ticks tdos t; ok (p ∷ ps, u)

-- The socket gives these bytes, with any number of EAGAINs before each.
pub data Delivers : List Received → List ℕ → Type 0 where
  quiet : (l : List Received) → Delivers l []
  wait :
      {l : List Received} {cs : List ℕ} (e : ℕ)
      → e ≡ eagain
      → Delivers l cs
      → Delivers (read_fail e ∷ l) cs
  next : {l : List Received} {c : ℕ} {cs : List ℕ} → Delivers l cs → Delivers (byte c ∷ l) (c ∷ cs)

-- The socket takes this many bytes, with any number of empty writes before each.
pub data Takes : List Ret → ℕ → Type 0 where
  idle : (l : List Ret) → Takes l zero
  retry : {l : List Ret} {n : ℕ} → Takes l n → Takes (ret 0 ∷ l) n
  take : {l : List Ret} {n : ℕ} (k : ℕ) → Takes l n → Takes (ret (suc k) ∷ l) (suc n)

pub read_loop-Delivers :
    {l : List Received} {c : ℕ} {cs : List ℕ} (s : Server)
    → Delivers l (c ∷ cs)
    → (rest : List Received) × (read_loop l s ≡ ok (some c, record s { reads = rest }))
      × Delivers rest cs
unfolding read_loop
read_loop-Delivers s (wait e again d) = rw again (read_loop-Delivers s d)
read_loop-Delivers s (next {l = l} d) = (l, refl, d)

send_loop-Takes :
    {l : List Ret} {n : ℕ} (b : ℕ) (s : Server)
    → Takes l (suc n)
    → (rest : List Ret) × (send_loop l b s
        ≡ ok (record s { writes = rest; sent = s.sent ++ b ∷ [] }))
      × Takes rest n
unfolding send_loop
send_loop-Takes b s (retry t) = send_loop-Takes b s t
send_loop-Takes b s (take {l = l} k t) = (l, ground arith, t)

-- The answers, as bytes.
abbrev pub to_list : Option ℕ → List ℕ
to_list none = []
to_list (some b) = b ∷ []

-- One more byte to send, if there is an answer.
abbrev pub add_answer : Option ℕ → ℕ → ℕ
add_answer none n = n
add_answer (some b) n = suc n

send-Takes :
    (o : Option ℕ) (n : ℕ) (s : Server)
    → Takes s.writes (add_answer o n)
    → (rest : List Ret) × (send o s ≡ ok (record s { writes = rest; sent = s.sent ++ to_list o }))
      × Takes rest n
unfolding send
send-Takes none n s t = (s.writes, ground (arith, append-nil s.sent), t)
send-Takes (some b) n s t = send_loop-Takes b s t

abbrev pub staying : Command → Bool
staying leave = false
staying c = true

-- What the client asks for, with the level of TDO at the tick that serves it.
abbrev pub Script : Type 0
Script = List (Command × ℕ)

abbrev pub codes : Script → List ℕ
codes [] = []
codes ((c, tdo) ∷ r) = code c ∷ codes r

abbrev pub levels : Script → List ℕ
levels [] = []
levels ((c, tdo) ∷ r) = tdo ∷ levels r

-- The protocol alone: the port after each command, the port at the end, and the answers.
abbrev pub trace : Port → Script → List Port
trace p [] = []
trace p ((c, tdo) ∷ r) = drive c p ∷ trace (drive c p) r

abbrev pub final : Port → Script → Port
final p [] = p
final p ((c, tdo) ∷ r) = final (drive c p) r

abbrev pub answers : Script → List ℕ
answers [] = []
answers ((c, tdo) ∷ r) = to_list (answer c tdo) ++ answers r

abbrev pub to_send : Script → ℕ
to_send [] = 0
to_send ((c, tdo) ∷ r) = add_answer (answer c tdo) (to_send r)

abbrev pub AllStaying : Script → Type 0
AllStaying [] = Unit {0}
AllStaying ((c, tdo) ∷ r) = (staying c ≡ true) × AllStaying r

abbrev pub port_pins : Port → Pins
port_pins p = record { tck = bit p.tck; tms = bit p.tms; tdi = bit p.tdi; trstn = bit p.trstn }

-- A connected server that shows `p`, has not been asked to quit, and whose socket will give the
-- script's bytes and take its answers.
pub record Live (p : Port) (r : Script) (s : Server) : Type 0 where
  pub shown : Shows p s
  pub connected : is_positive s.client_fd ≡ true
  pub serving : s.quit ≡ 0
  pub pending : Delivers s.reads (codes r)
  pub willing : Takes s.writes (to_send r)

-- What serving a command leaves: a server that is still connected and serving.
record Served (c : Command) (n : ℕ) (p : Port) (s t : Server) : Type 0 where
  shown : Shows (drive c p) t
  serving : t.quit ≡ 0
  answered : t.sent ≡ s.sent ++ to_list (answer c s.tdo)
  willing : Takes t.writes n
  reads_same : t.reads ≡ s.reads
  client_same : t.client_fd ≡ s.client_fd

quit_unasked : (c : Command) (q : ℕ) → staying c ≡ true → ask_quit c q ≡ q
quit_unasked leave q h = cc
quit_unasked _ q h = refl

obey-Served :
    (c : Command) (n : ℕ) (p : Port) (s : Server)
    → staying c ≡ true
    → Shows p s
    → s.quit ≡ 0
    → Takes s.writes (add_answer (answer c s.tdo) n)
    → (t : Server) × (obey (some (code c)) s ≡ ok t) × Served c n p s t
unfolding obey close_if_quit
obey-Served c n p s stays shows serving takes =
    let (shown, asked, quit) = perform-code c p s shows in
    let same = perform-SameLink (code c) s in
    let u : Server = (perform (code c) s).0 in
    let (rest, sends, more) = send-Takes (answer c s.tdo) n u (rw same.writes_same takes) in
    let t : Server = record u { writes = rest; sent = u.sent ++ to_list (answer c s.tdo) } in
    let still : u.quit ≡ 0 = quit ∙ quit_unasked c s.quit stays ∙ serving in
    (
      t,
      rw (asked, sends, still),
      record {
        shown = ground (arith, shown);
        serving = still;
        answered = rw same.sent_same;
        willing = more;
        reads_same = same.reads_same;
        client_same = same.client_same;
      },
    )

-- One tick serves one command.
pub rbs_tick-Live :
    (c : Command) (tdo : ℕ) (r : Script) (p : Port) (s : Server)
    → staying c ≡ true
    → Live p ((c, tdo) ∷ r) s
    → (t : Server) × (rbs_tick tdo s ≡ ok (port_pins (drive c p), t))
      × (t.sent ≡ s.sent ++ to_list (answer c tdo))
      × Live (drive c p) r t
unfolding rbs_tick rbs_execute_command
rbs_tick-Live c tdo r p s stays live =
    let s0 : Server = record s { tdo = tdo } in
    let (rest, got, more) = read_loop-Delivers s0 live.pending in
    let s1 : Server = record s0 { reads = rest } in
    let (t, obeyed, served) =
      obey-Served c (to_send r) p s1 stays (ground (arith, live.shown)) live.serving live.willing in
    let shows : pins t ≡ port_pins (drive c p) = ground (arith, served.shown) in
    (
      t,
      rw (live.connected, got, obeyed, shows),
      served.answered,
      record {
        shown = served.shown;
        connected = rw served.client_same live.connected;
        serving = served.serving;
        pending = rw served.reads_same more;
        willing = served.willing;
      },
    )

-- The server refines the protocol: over any script of commands that does not ask to leave, with
-- any number of EAGAINs and empty writes in between, one tick for each command returns, the pins
-- after each tick are the protocol's, the bytes sent are its answers in order, and the server is
-- still connected and shows the protocol's last port.
pub ticks-trace :
    (r : Script) (p : Port) (s : Server)
    → AllStaying r
    → Live p r s
    → (t : Server) × (ticks (levels r) s ≡ ok (map port_pins (trace p r), t))
      × (t.sent ≡ s.sent ++ answers r)
      × Live (final p r) [] t
unfolding ticks
ticks-trace [] p s stays live = (s, refl, sym (append-nil s.sent), live)
ticks-trace ((c, tdo) ∷ r) p s stays live =
    let (t, ticked, sent, live') = rbs_tick-Live c tdo r p s stays.0 live in
    let (u, rest, sent', live'') = ticks-trace r (drive c p) t stays.1 live' in
    (u, rw (ticked, rest), sent' ∙ rw (sent, append_assoc), live'')

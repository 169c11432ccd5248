-- ===== src/Bitbang/Quit.antt =====
-- The two ways a client of remote_bitbang.c goes away: the command to leave, and a closed socket.
use jtag_debug_module_for_ri.Common.{
  ℕ, ◌≡◌, true, false, Option, some, none, List, [], ◌∷◌, ◌++◌, arith, ◌==◌, if◌then◌else◌,
}
use jtag_debug_module_for_ri.Common.Int.{pos, negsuc, is_positive}
use jtag_debug_module_for_ri.Bitbang.{
  >>=-eq-ok, Server, Pins, pins, Ret, fail, ret, Received, read_fail, byte, eof, ok, accept_loop,
  rbs_accept, read_loop, send_loop, send, perform, close_if_quit, obey, rbs_tick,
  rbs_execute_command,
}
use jtag_debug_module_for_ri.Bitbang.Session.{Delivers, read_loop-Delivers}

send_loop-quit :
    (l : List Ret) (b : ℕ) (s : Server) {t : Server}
    → send_loop l b s ≡ ok t
    → (t.quit ≡ s.quit) × (t.client_fd ≡ s.client_fd) × (t.closed ≡ s.closed)
unfolding send_loop
send_loop-quit [] b s h = cc
send_loop-quit (fail e ∷ l) b s h = cc
send_loop-quit (ret n ∷ l) b s {t = t} h = ground (arith, send_loop-quit l b s {t = t})

send-quit :
    (o : Option ℕ) (s : Server) {t : Server}
    → send o s ≡ ok t
    → (t.quit ≡ s.quit) × (t.client_fd ≡ s.client_fd) × (t.closed ≡ s.closed)
unfolding send
send-quit none s h = ground arith
send-quit (some b) s h = send_loop-quit s.writes b s h

perform-quit :
    (c : ℕ) (s : Server)
    → ((perform c s).0.quit ≡ (if c == b'Q' then 1 else s.quit))
      × ((perform c s).0.client_fd ≡ s.client_fd)
      × ((perform c s).0.closed ≡ s.closed)
unfolding perform
perform-quit c s = ground arith

-- What a command leaves of the connection.
pub record Left (c : ℕ) (s t : Server) : Type 0 where
  pub quit_asked : t.quit ≡ (if c == b'Q' then 1 else s.quit)
  pub client_left : t.client_fd ≡ (if t.quit == 0 then s.client_fd else pos 0)
  pub closed_left : t.closed ≡ (if t.quit == 0 then s.closed else s.closed ++ s.client_fd ∷ [])

obey-Left : (c : ℕ) (s : Server) {t : Server} → obey (some c) s ≡ ok t → Left c s t
unfolding obey close_if_quit
obey-Left c s {t = t} h =
    let (u, sends, closes) =
      >>=-eq-ok (send (perform c s).1 (perform c s).0) (λ u. ok (close_if_quit u)) h in
    let (q, f, d) = send-quit _ _ sends in let (q', f', d') = perform-quit c s in ground arith

-- A tick that reads command `c` from a connected client leaves `quit` set if it was, or if `c` is
-- the command to leave; and where it is set, it closes the client and forgets it. So once one
-- client has left, every later client is dropped after its first command.
pub rbs_tick-Left :
    (tdo c : ℕ) (cs : List ℕ) (s : Server) {p : Pins} {t : Server}
    → is_positive s.client_fd ≡ true
    → Delivers s.reads (c ∷ cs)
    → rbs_tick tdo s ≡ ok (p, t)
    → Left c s t
unfolding rbs_tick rbs_execute_command
rbs_tick-Left tdo c cs s {t = t} connected gives h =
    let s0 : Server = record s { tdo = tdo } in
    let (rest, got, more) = read_loop-Delivers s0 gives in
    let s1 : Server = record s0 { reads = rest } in
    let (u, ran, done) =
      >>=-eq-ok (obey (some c) s1) (λ u. ok (pins u, u)) (rw (connected, got) at h) in
    let left = obey-Left c s1 ran in ground (arith, left)

accept_loop-quit :
    (l : List Ret) (s : Server) {t : Server} → accept_loop l s ≡ ok t → t.quit ≡ s.quit
unfolding accept_loop
accept_loop-quit [] s h = cc
accept_loop-quit (ret fd ∷ l) s h = ground arith
accept_loop-quit (fail e ∷ l) s {t = t} h =
    ground (arith, accept_loop-quit l (record s { client_fd = negsuc 0 }) {t = t})

-- A tick with no client leaves `quit` as it was.
pub rbs_tick_alone :
    (tdo : ℕ) (s : Server) {p : Pins} {t : Server}
    → is_positive s.client_fd ≡ false
    → rbs_tick tdo s ≡ ok (p, t)
    → t.quit ≡ s.quit
unfolding rbs_tick rbs_accept
rbs_tick_alone tdo s alone h =
    let (u, ran, done) = >>=-eq-ok (rbs_accept s) (λ u. ok (pins u, u)) (rw alone at h) in
    let same = accept_loop-quit s.accepts s ran in ground (arith, same)

read_loop-quit :
    (l : List Received) (s : Server) {c : Option ℕ} {t : Server}
    → read_loop l s ≡ ok (c, t)
    → t.quit ≡ s.quit
unfolding read_loop
read_loop-quit [] s h = cc
read_loop-quit (byte c ∷ l) s h = ground arith
read_loop-quit (eof ∷ l) s h = ground arith
read_loop-quit (read_fail e ∷ l) s {c = c} {t = t} h =
    ground (arith, read_loop-quit l s {c = c} {t = t})

obey-quit : (c : Option ℕ) (s : Server) {t : Server} → s.quit ≡ 1 → obey c s ≡ ok t → t.quit ≡ 1
unfolding obey
obey-quit none s q h = ground arith
obey-quit (some c) s q h = let left = obey-Left c s h in ground (arith, left.quit_asked)

-- ===== src/Bitbang/Invariant.antt =====
-- What holds of the globals of remote_bitbang.c between two ticks.
use jtag_debug_module_for_ri.Common.{
  ℕ, ◌≡◌, ◌<◌, Bool, true, false, Option, some, none, List, [], ◌∷◌, arith, Bool-cases, inl, inr,
}
use jtag_debug_module_for_ri.Common.Int.{ℤ, pos, negsuc, is_positive}
use jtag_debug_module_for_ri.Bitbang.{
  Server, Setup, Pins, pins, Ret, fail, ret, Received, read_fail, byte, eof, ok, accept_loop,
  read_loop, send_loop, perform, send, close_if_quit, obey, rbs_init, rbs_tick, rbs_execute_command,
  rbs_accept, >>=-eq-ok,
}

abbrev pub is_negative : ℤ → Bool
is_negative (pos n) = false
is_negative (negsuc n) = true

-- Every pin is a level, no error code is ever set, and the client's descriptor is none or real.
pub record IsValid (s : Server) : Type 0 where
  pub tck_bit : s.tck < 2
  pub tms_bit : s.tms < 2
  pub tdi_bit : s.tdi < 2
  pub trstn_bit : s.trstn < 2
  pub quit_bit : s.quit < 2
  pub no_error : s.rbs_err ≡ 0
  pub client_real : is_negative s.client_fd ≡ false

-- `rbs_init`, where no call fails, leaves a valid server with every pin high, no client, no
-- request to quit, and the port that it was given.
pub rbs_init-IsValid :
    (os : Setup) (port : ℕ) (s : Server) {t : Server}
    → rbs_init os port s ≡ ok t
    → IsValid t
      × (pins t ≡ record { tck = 1; tms = 1; tdi = 1; trstn = 1 })
      × (t.client_fd ≡ pos 0)
      × (t.quit ≡ 0)
      × (t.bound_port ≡ port)
unfolding rbs_init
rbs_init-IsValid os port s h = ground arith

-- The descriptor is -1 while the loop waits, so the loop needs the rest of the invariant only.
accept_loop-IsValid :
    (l : List Ret) (s : Server) {t : Server}
    → IsValid (record s { client_fd = pos 0 })
    → accept_loop l s ≡ ok t
    → IsValid t
unfolding accept_loop
accept_loop-IsValid [] s v h = cc
accept_loop-IsValid (ret fd ∷ l) s v h = ground arith
accept_loop-IsValid (fail e ∷ l) s {t = t} v h =
    ground (arith, accept_loop-IsValid l (record s { client_fd = negsuc 0 }) {t = t} v)

read_loop-IsValid :
    (l : List Received) (s : Server) {c : Option ℕ} {t : Server}
    → IsValid s
    → read_loop l s ≡ ok (c, t)
    → IsValid t
unfolding read_loop
read_loop-IsValid [] s v h = cc
read_loop-IsValid (byte c ∷ l) s v h = ground arith
read_loop-IsValid (eof ∷ l) s v h = ground arith
read_loop-IsValid (read_fail e ∷ l) s {c = c} {t = t} v h =
    ground (arith, read_loop-IsValid l s {c = c} {t = t} v)

send_loop-IsValid :
    (l : List Ret) (b : ℕ) (s : Server) {t : Server}
    → IsValid s
    → send_loop l b s ≡ ok t
    → IsValid t
unfolding send_loop
send_loop-IsValid [] b s v h = cc
send_loop-IsValid (fail e ∷ l) b s v h = cc
send_loop-IsValid (ret n ∷ l) b s {t = t} v h = ground (arith, send_loop-IsValid l b s {t = t} v)

perform-IsValid : (c : ℕ) (s : Server) → IsValid s → IsValid (perform c s).0
unfolding perform
perform-IsValid c s v = ground arith

close_if_quit-IsValid : (s : Server) → IsValid s → IsValid (close_if_quit s)
unfolding close_if_quit
close_if_quit-IsValid s v = ground arith

send-IsValid : (o : Option ℕ) (s : Server) {t : Server} → IsValid s → send o s ≡ ok t → IsValid t
unfolding send
send-IsValid none s v h = ground arith
send-IsValid (some b) s v h = send_loop-IsValid s.writes b s v h

obey-IsValid : (c : Option ℕ) (s : Server) {t : Server} → IsValid s → obey c s ≡ ok t → IsValid t
unfolding obey
obey-IsValid none s v h = ground arith
obey-IsValid (some c) s {t = t} v h =
    let (u, sent, closed) =
      >>=-eq-ok (send (perform c s).1 (perform c s).0) (λ u. ok (close_if_quit u)) h in
    let valid = close_if_quit-IsValid u (send-IsValid _ _ (perform-IsValid c s v) sent) in
    ground (arith, valid)

rbs_execute_command-IsValid :
    (s : Server) {t : Server} → IsValid s → rbs_execute_command s ≡ ok t → IsValid t
unfolding rbs_execute_command
rbs_execute_command-IsValid s v h =
    let (r, got, obeyed) = >>=-eq-ok (read_loop s.reads s) (λ r. obey r.0 r.1) h in
    obey-IsValid r.0 r.1 (read_loop-IsValid s.reads s v got) obeyed

rbs_accept-IsValid : (s : Server) {t : Server} → IsValid s → rbs_accept s ≡ ok t → IsValid t
unfolding rbs_accept
rbs_accept-IsValid s v h = accept_loop-IsValid s.accepts s (ground arith) h

-- A tick of a valid server that returns leaves a valid server, and its outputs are the four pins.
pub rbs_tick-IsValid :
    (tdo : ℕ) (s : Server) {p : Pins} {t : Server}
    → IsValid s
    → rbs_tick tdo s ≡ ok (p, t)
    → IsValid t × (p ≡ pins t)
unfolding rbs_tick
rbs_tick-IsValid tdo s {p = p} {t = t} v h = elim (Bool-cases (is_positive s.client_fd)) [
  | inl connected ↦
      let (u, ran, done) =
        >>=-eq-ok (rbs_execute_command (record s { tdo = tdo })) (λ u. ok (pins u, u))
          (rw connected at h) in
      let valid = rbs_execute_command-IsValid (record s { tdo = tdo }) (ground arith) ran in
      ground (arith, valid)
  | inr alone ↦
      let (u, ran, done) = >>=-eq-ok (rbs_accept s) (λ u. ok (pins u, u)) (rw alone at h) in
      let valid = rbs_accept-IsValid s v ran in ground (arith, valid)
]

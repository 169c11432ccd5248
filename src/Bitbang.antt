-- ===== src/Bitbang.antt =====
-- tb/remote_bitbang/remote_bitbang.c and remote_bitbang.h: the server that lets OpenOCD drive the
-- pins of a simulated JTAG port over a socket, one command byte in each tick.
--
-- The operating system is not part of the program. What it will answer stands in three scripts,
-- one for each call that the server repeats (`accept`, `read`, `write`); a call takes the head of
-- its script, and a script that has run out means that the C code is still in its loop (`blocked`).
-- The messages on stderr and the `fcntl` calls, whose results the code ignores, are left out.
pub mod Commands
pub mod Loops
pub mod Invariant
pub mod Session
pub mod Quit
mod Tests
use jtag_debug_module_for_ri.Common.{
  ℕ, ◌≡◌, refl, Bool, Option, none, some, List, [], ◌∷◌, ◌++◌, ◌==◌, if◌then◌else◌,
}
use jtag_debug_module_for_ri.Common.Int.{ℤ, pos, negsuc, is_positive}

-- `errno` after a call that gave -1, or the value of a call that did not.
pub data Ret : Type 0 where
  fail : ℕ → Ret
  ret : ℕ → Ret

-- The same for `read` of one byte: -1, 0, or 1 with the byte.
pub data Received : Type 0 where
  read_fail : ℕ → Received
  eof : Received
  byte : ℕ → Received

-- `EAGAIN` of the host
abbrev pub eagain : ℕ
eagain = 11

-- A call returns, ends in `abort()`, or is still waiting for the operating system.
pub data Outcome (A : Type 0) : Type 0 where
  ok : A → Outcome A
  aborted : Outcome A
  blocked : Outcome A

infixl 5 ◌>>=◌
abbrev pub ◌>>=◌ : {A B : Type 0} → Outcome A → (A → Outcome B) → Outcome B
ok a >>= f = f a
aborted >>= f = aborted
blocked >>= f = blocked

-- A chain of two calls that returns, taken apart.
pub >>=-eq-ok :
    {A B : Type 0} (call : Outcome A) (next : A → Outcome B) {result : B}
    → (call >>= next) ≡ ok result
    → (mid : A) × (call ≡ ok mid) × (next mid ≡ ok result)
>>=-eq-ok blocked next returned = cc
>>=-eq-ok aborted next returned = cc
>>=-eq-ok (ok mid) next returned = (mid, refl, returned)

pub record Server : Type 0 where
  -- the globals of the file; each pin is an `unsigned char`
  pub rbs_err : ℕ
  pub tck : ℕ
  pub tms : ℕ
  pub tdi : ℕ
  pub trstn : ℕ
  pub tdo : ℕ
  pub quit : ℕ
  pub socket_fd : ℕ
  pub client_fd : ℤ
  pub recv_start : ℕ
  pub recv_end : ℕ
  -- what the operating system will answer, and what it has been told
  pub accepts : List Ret
  pub reads : List Received
  pub writes : List Ret
  pub bound_port : ℕ
  pub sent : List ℕ
  pub closed : List ℤ

-- What the five calls of `rbs_init` that are checked give.
pub record Setup : Type 0 where
  pub socket : Ret
  pub setsockopt : Ret
  pub bind : Ret
  pub listen : Ret
  pub getsockname : Ret

-- `if (call == -1) abort();`
abbrev pub checked : Ret → Outcome ℕ
checked (ret n) = ok n
checked (fail e) = aborted

pub init_globals : ℕ → ℕ → Server → Server
init_globals fd port s = record s {
  socket_fd = fd;
  client_fd = pos 0;
  recv_start = 0;
  recv_end = 0;
  rbs_err = 0;
  bound_port = port;
  tck = 1;
  tms = 1;
  tdi = 1;
  trstn = 1;
  quit = 0;
}

-- `port` is a `uint16_t`. The result 1 of every call that returns stands in `Sim.jtag_tick`.
unfoldable pub rbs_init : Setup → ℕ → Server → Outcome Server
unfolding init_globals
rbs_init os port s = do
  fd ← checked os.socket
  opt ← checked os.setsockopt
  bound ← checked os.bind
  listening ← checked os.listen
  named ← checked os.getsockname
  ok (init_globals fd port s)

-- `while (again != 0)` of `rbs_accept`, over the answers of `accept`
pub accept_loop : List Ret → Server → Outcome Server
accept_loop [] s = blocked
accept_loop (ret fd ∷ rest) s = ok (record s { client_fd = pos fd; accepts = rest })
accept_loop (fail e ∷ rest) s =
    let again = accept_loop rest (record s { client_fd = negsuc 0 }) in
    if e == eagain then again else aborted

pub rbs_accept : Server → Outcome Server
rbs_accept s = accept_loop s.accepts s

pub rbs_reset : Server → Server
rbs_reset s = record s { trstn = 0 }

pub rbs_set : Server → Server
rbs_set s = record s { trstn = 1 }

pub rbs_set_pins : ℕ → ℕ → ℕ → Server → Server
rbs_set_pins a b c s = record s { tck = a; tms = b; tdi = c }

-- `while (again)` of `rbs_execute_command`; `none` is the early return at the end of the stream
pub read_loop : List Received → Server → Outcome (Option ℕ × Server)
read_loop [] s = blocked
read_loop (byte c ∷ rest) s = ok (some c, record s { reads = rest })
read_loop (eof ∷ rest) s = ok (none, record s { reads = rest })
read_loop (read_fail e ∷ rest) s =
    let again = read_loop rest s in if e == eagain then again else aborted

-- The `switch` on the command; beside the state, `tosend` where `dosend` is set.
pub perform : ℕ → Server → Server × Option ℕ
unfolding rbs_set rbs_reset rbs_set_pins
perform c s =
    if c == b'B'
    then (s, none)
    else if c == b'b'
    then (s, none)
    else if c == b'r'
    then (rbs_set s, none)
    else if c == b's'
    then (rbs_set s, none)
    else if c == b't'
    then (rbs_reset s, none)
    else if c == b'u'
    then (rbs_reset s, none)
    else if c == b'0'
    then (rbs_set_pins 0 0 0 s, none)
    else if c == b'1'
    then (rbs_set_pins 0 0 1 s, none)
    else if c == b'2'
    then (rbs_set_pins 0 1 0 s, none)
    else if c == b'3'
    then (rbs_set_pins 0 1 1 s, none)
    else if c == b'4'
    then (rbs_set_pins 1 0 0 s, none)
    else if c == b'5'
    then (rbs_set_pins 1 0 1 s, none)
    else if c == b'6'
    then (rbs_set_pins 1 1 0 s, none)
    else if c == b'7'
    then (rbs_set_pins 1 1 1 s, none)
    else if c == b'R'
    then (s, some (if s.tdo == 0 then b'0' else b'1'))
    else if c == b'Q'
    then (record s { quit = 1 }, none)
    else (s, none)

-- `while (1)` round `write`
pub send_loop : List Ret → ℕ → Server → Outcome Server
send_loop [] b s = blocked
send_loop (fail e ∷ rest) b s = aborted
send_loop (ret n ∷ rest) b s =
    let again = send_loop rest b s in
    if n == 0 then again else ok (record s { writes = rest; sent = s.sent ++ b ∷ [] })

pub send : Option ℕ → Server → Outcome Server
send none s = ok s
send (some b) s = send_loop s.writes b s

-- the last `if (quit)` of `rbs_execute_command`
pub close_if_quit : Server → Server
close_if_quit s =
    if s.quit == 0 then s else record s { closed = s.closed ++ s.client_fd ∷ []; client_fd = pos 0 }

-- what `rbs_execute_command` does after its first loop
pub obey : Option ℕ → Server → Outcome Server
unfolding perform
obey none s = ok s
obey (some c) s = do let (s', tosend) = perform c s; t ← send tosend s'; ok (close_if_quit t)

unfoldable pub rbs_execute_command : Server → Outcome Server
unfolding read_loop obey send send_loop close_if_quit
rbs_execute_command s = do (c, t) ← read_loop s.reads s; obey c t

-- What `rbs_tick` writes through its four pointers.
pub record Pins : Type 0 where
  pub tck : ℕ
  pub tms : ℕ
  pub tdi : ℕ
  pub trstn : ℕ

abbrev pub pins : Server → Pins
pins s = record { tck = s.tck; tms = s.tms; tdi = s.tdi; trstn = s.trstn }

unfoldable pub rbs_tick : ℕ → Server → Outcome (Pins × Server)
unfolding rbs_execute_command rbs_accept accept_loop
rbs_tick jtag_tdo s = do
  t ←
      if is_positive s.client_fd
      then rbs_execute_command (record s { tdo = jtag_tdo })
      else rbs_accept s
  ok (pins t, t)

unfoldable pub rbs_done : Server → ℕ
rbs_done s = s.quit

unfoldable pub rbs_exit_code : Server → ℕ
rbs_exit_code s = s.rbs_err

-- ===== src/Bitbang/Commands.antt =====
-- The command bytes of the remote bitbang protocol (remote_bitbang.c), as OpenOCD's description of
-- the protocol has them, and what the `switch` of `rbs_execute_command` does on each.
use jtag_debug_module_for_ri.Common.{
  ℕ, ◌+◌, ◌*◌, ◌≡◌, refl, Bool, true, false, Option, none, some, arith, ◌==◌, if◌then◌else◌,
}
use jtag_debug_module_for_ri.Bitbang.{Server, perform}

abbrev pub bit : Bool → ℕ
bit true = 1
bit false = 0

-- What a client can ask for. A reset request gives the levels of TRST and SRST, `true` for
-- asserted; the simulated port has no SRST.
pub data Command : Type 0 where
  blink : Bool → Command
  reset : Bool → Bool → Command
  write : Bool → Bool → Bool → Command
  sample : Command
  leave : Command

abbrev pub code : Command → ℕ
code (blink true) = b'B'
code (blink false) = b'b'
code (reset trst srst) = b'r' + 2 * bit trst + bit srst
code (write tck tms tdi) = b'0' + 4 * bit tck + 2 * bit tms + bit tdi
code sample = b'R'
code leave = b'Q'

-- The four output pins, each high or low.
pub record Port : Type 0 where
  pub tck : Bool
  pub tms : Bool
  pub tdi : Bool
  pub trstn : Bool

abbrev pub drive : Command → Port → Port
drive (reset trst srst) p = record p { trstn = if trst then false else true }
drive (write a b c) p = record p { tck = a; tms = b; tdi = c }
drive _ p = p

abbrev pub answer : Command → ℕ → Option ℕ
answer sample tdo = some (if tdo == 0 then b'0' else b'1')
answer _ tdo = none

abbrev pub ask_quit : Command → ℕ → ℕ
ask_quit leave q = 1
ask_quit _ q = q

-- The server's pins show the port.
pub record Shows (p : Port) (s : Server) : Type 0 where
  pub tck_shown : s.tck ≡ bit p.tck
  pub tms_shown : s.tms ≡ bit p.tms
  pub tdi_shown : s.tdi ≡ bit p.tdi
  pub trstn_shown : s.trstn ≡ bit p.trstn

-- For a server whose pins show a port, each command of the protocol drives the pins as the
-- protocol says, answers a sample request with the level of TDO and nothing else, and sets `quit`
-- exactly on the command to leave.
pub perform-code :
    (c : Command) (p : Port) (s : Server)
    → Shows p s
    → Shows (drive c p) (perform (code c) s).0
      × ((perform (code c) s).1 ≡ answer c s.tdo)
      × ((perform (code c) s).0.quit ≡ ask_quit c s.quit)
unfolding perform
perform-code (blink true) p s h = (h, refl, refl)
perform-code (blink false) p s h = (h, refl, refl)
perform-code (reset true true) p s h = (ground arith, refl, refl)
perform-code (reset true false) p s h = (ground arith, refl, refl)
perform-code (reset false true) p s h = (ground arith, refl, refl)
perform-code (reset false false) p s h = (ground arith, refl, refl)
perform-code (write true true true) p s h = (ground arith, refl, refl)
perform-code (write true true false) p s h = (ground arith, refl, refl)
perform-code (write true false true) p s h = (ground arith, refl, refl)
perform-code (write true false false) p s h = (ground arith, refl, refl)
perform-code (write false true true) p s h = (ground arith, refl, refl)
perform-code (write false true false) p s h = (ground arith, refl, refl)
perform-code (write false false true) p s h = (ground arith, refl, refl)
perform-code (write false false false) p s h = (ground arith, refl, refl)
perform-code sample p s h = (h, refl, refl)
perform-code leave p s h = (ground arith, refl, refl)

-- What the `switch` never touches.
pub record SameLink (s t : Server) : Type 0 where
  pub rbs_err_same : t.rbs_err ≡ s.rbs_err
  pub client_same : t.client_fd ≡ s.client_fd
  pub accepts_same : t.accepts ≡ s.accepts
  pub reads_same : t.reads ≡ s.reads
  pub writes_same : t.writes ≡ s.writes
  pub sent_same : t.sent ≡ s.sent
  pub closed_same : t.closed ≡ s.closed

pub perform-SameLink : (c : ℕ) (s : Server) → SameLink s (perform c s).0
unfolding perform
perform-SameLink c s = ground arith

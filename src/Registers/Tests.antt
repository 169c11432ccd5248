-- ===== src/Registers/Tests.antt =====
-- The registers and their requests at concrete inputs.
use jtag_debug_module_for_ri.Common.{
  ◌+◌, ◌*◌, ◌^◌, ◌<◌, ◌≡◌, ◌↔◌, refl, inr, Bool, true, false, [], ◌∷◌, arith,
}
use jtag_debug_module_for_ri.Sba.{idle}
use jtag_debug_module_for_ri.Registers.{dmcontrol, sbcs, sbaddress0, sbdata0}
use jtag_debug_module_for_ri.Registers.Words.{sbcs_of}
use jtag_debug_module_for_ri.Registers.Requests as Requests
use jtag_debug_module_for_ri.Registers.Requests.{Errors, edge}
use jtag_debug_module_for_ri.Registers.Csrs.{
  Regs, Inputs, Op, no_op, read_op, write_op, tick, outputs, cleared, power_on, success,
}
use jtag_debug_module_for_ri.Registers.Block.{
  Env, Block, to_requests, to_csrs, block_edge, block_outputs,
}
use jtag_debug_module_for_ri.Registers.Errors.{Starting, cmderr_kept, edge-starts}
use jtag_debug_module_for_ri.Registers.Store.{
  Taken, reading, writing, block_write_read, inactive_tick,
}
use jtag_debug_module_for_ri.Registers.Bounds.Widths.{Fits, InputsFit}
use jtag_debug_module_for_ri.Registers.Bounds.{ticks, outputs-ticks}
use jtag_debug_module_for_ri.Registers.Bus.{Answer, System, system_edges, system_outputs}
use jtag_debug_module_for_ri.Registers.Bus.Reading.{Ready, read_edges, system_read}
use jtag_debug_module_for_ri.Registers.Blocked.{Blocked, ErrorsKept, system_edges-Blocked}

-- An active module with the bus set up for whole words.
abbrev regs : Regs
regs = record (cleared true false) { sbcs = sbcs_of (2 ^ 20 + 2 * 2 ^ 17 + 2 ^ 16) }

abbrev env : Bool → Env
env running = record {
  queue_full = false;
  queue_empty = true;
  resp_ready = true;
  cmderror_valid = false;
  cmderror = 0;
  cmdbusy = running;
  next_dm_addr = 0;
  hartinfo = 0;
  ndmreset_ack = false;
  unavailable = false;
  resumeack = false;
  halted = true;
  data_valid = false;
  data_in = 0 ∷ 0 ∷ [];
  sbaddress = 0;
  sbdata = 0;
  sbdata_valid = false;
  sbbusy = false;
  sberror_valid = false;
  sberror = 0;
}

abbrev block : Block
block = record { errors = record { cmderr = 0; cmd_valid = false }; regs = regs }

abbrev failed : Errors
failed = record { cmderr = 3; cmd_valid = false }

-- A write of `command` (0x17) while a command runs.
abbrev late : Requests.Inputs
late = to_requests (writing 0x17 0) (env true) block

cmderr_kept_example : (edge late failed).cmderr ≡ 3
cmderr_kept_example = cmderr_kept late failed (omega arith) refl (inr (inr refl))

edge-starts_example :
    ((edge (to_requests (writing 0x17 0) (env false) block) failed).cmd_valid ≡ true)
    ↔ ((false ≡ false) × Starting (to_requests (writing 0x17 0) (env false) block))
edge-starts_example =
    edge-starts (to_requests (writing 0x17 0) (env false) block) failed (omega arith)

taken : Taken (env false) block
taken = record {
  room = refl;
  active = refl;
  idle = refl;
  no_data = refl;
  words_there = refl;
  progbuf_there = refl;
}

block_write_read_example :
    (block_outputs
      (reading 0x22)
      (env false)
      (block_edge (writing 0x22 0xbeef) (env false) block)).dmi_data
    ≡ 0xbeef
block_write_read_example =
    block_write_read 0x22 0x22 0xbeef (env false) (env false) block refl refl taken refl

abbrev inputs : Op → Inputs
inputs o = record (to_csrs (reading 0) (env false) block) { op = o }

inactive_tick_once : tick (inputs (write_op dmcontrol (2 ^ 28 + 1))) power_on ≡ cleared true false
inactive_tick_once = inactive_tick (inputs (write_op dmcontrol (2 ^ 28 + 1))) power_on refl

fit : InputsFit (inputs (read_op sbcs))
fit = record {
  op = tt;
  cmderr = omega arith;
  next_dm_addr = omega arith;
  hartinfo = omega arith;
  data_in = (omega arith, 1, refl, (omega arith, 0, refl, refl));
  sbaddress = omega arith;
  sbdata = omega arith;
  sberror = omega arith;
}

outputs-ticks_example :
    Fits (ticks (inputs (read_op sbcs) ∷ []) power_on)
    × ((outputs (inputs (read_op sbcs)) (ticks (inputs (read_op sbcs) ∷ []) power_on)).dmi_data
        < 2 ^ 32)
outputs-ticks_example =
    outputs-ticks (inputs (read_op sbcs) ∷ []) (inputs (read_op sbcs)) (fit, tt) fit

abbrev answer : Bool → Bool → Answer
answer g v = record {
  gnt = g;
  r_valid = v;
  r_err = false;
  r_other_err = false;
  r_rdata = 0x1234_5678;
}

ready : Ready 0x8000_0004 regs
ready = record {
  active = refl;
  readonaddr = refl;
  no_error = refl;
  no_busyerror = refl;
  legal_size = refl;
  address_fits = omega arith;
  aligned = refl;
}

abbrev session : System
session =
    system_edges
      (read_edges (answer false false, inputs (write_op sbaddress0 0x8000_0004))
        ((answer false false, inputs no_op) ∷ []) (answer true false, inputs no_op) []
        (answer false true, inputs no_op))
      (record { sba = idle; regs = regs })

system_read_example :
    (session.sba ≡ idle)
    × (session.regs.sbaddr_lo ≡ 0x8000_0008)
    × ((system_outputs (answer false false) (inputs (read_op sbdata0)) session).dmi_resp ≡ success)
    × ((system_outputs (answer false false) (inputs (read_op sbdata0)) session).dmi_data
        ≡ 0x1234_5678)
system_read_example =
    system_read 0x8000_0004 regs (answer false false) (inputs (write_op sbaddress0 0x8000_0004))
      ((answer false false, inputs no_op) ∷ []) (answer true false) (inputs no_op) []
      (answer false true) (inputs no_op) (answer false false) (inputs (read_op sbdata0)) ready refl
      (refl, refl, tt) refl refl tt refl refl refl refl refl

abbrev in_error : Regs
in_error = record regs { sbcs = sbcs_of (2 ^ 20 + 2 * 2 ^ 17 + 2 * 2 ^ 12) }

abbrev in_error_later : System
in_error_later =
    system_edges ((answer true true, inputs (write_op sbaddress0 4)) ∷ [])
      (record { sba = idle; regs = in_error })

system_edges-Blocked_example :
    Blocked in_error_later × ErrorsKept (record { sba = idle; regs = in_error }) in_error_later
system_edges-Blocked_example =
    system_edges-Blocked ((answer true true, inputs (write_op sbaddress0 4)) ∷ [])
      (record { sba = idle; regs = in_error }) (refl, refl, refl) (refl, tt)

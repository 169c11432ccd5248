-- ===== src/Debugger/Tests.antt =====
-- Register accesses of a debugger at concrete inputs.
use jtag_debug_module_for_ri.Common.{
  ℕ, ◌+◌, ◌≡◌, refl, true, false, [], ◌∷◌, arith, replicate, if◌then◌else◌, some, get_or,
}
use jtag_debug_module_for_ri.DebugRom.Hart.{stored, loaded, set_reg}
use jtag_debug_module_for_ri.DebugRom.Runs.{at}
use jtag_debug_module_for_ri.AbstractCmd.{decoded, abstract_cmd, unsupported_command}
use jtag_debug_module_for_ri.HartControl.{st_idle, st_go, no_access, strobe}
use jtag_debug_module_for_ri.Debugger.Module.{Module, module_edge}
use jtag_debug_module_for_ri.Sba as Sba
use jtag_debug_module_for_ri.DebugRom.Decode.{jal, decode}
use jtag_debug_module_for_ri.Debugger.Chip.{Chip, Slave, Outside, chip_outputs, slave_rdata}
use jtag_debug_module_for_ri.Debugger.Steps.{Step}
use jtag_debug_module_for_ri.Debugger.Schedule.{
  Schedule, IsSchedule, IsEnd, edge_at, told_to_go, at_work, finished,
}
use jtag_debug_module_for_ri.Debugger.Whole.{chip_register, chip_register_write}
use jtag_debug_module_for_ri.Debugger.Commands.{Resting, module_edge-command}
use jtag_debug_module_for_ri.AbstractCmd.Transfer.{Finished, write_word, read_word}
use jtag_debug_module_for_ri.HartControl.Memory.{MemInputs, Bank, data_out, bank_edge, rdata_o}
use jtag_debug_module_for_ri.HartControl.Writes.{Stores}
use jtag_debug_module_for_ri.Registers.{reg_of}
use jtag_debug_module_for_ri.Registers.Requests.{read_enable, write_enable}
use jtag_debug_module_for_ri.Registers.Csrs.{cleared, tick}
use jtag_debug_module_for_ri.Registers.Block.{Request, Env, Block, block_edge, block_outputs}
use jtag_debug_module_for_ri.Registers.Store.{reading, writing}
use jtag_debug_module_for_ri.Debugger.{Free, block_edge-register, block_edge-bank_edge}

abbrev env : Env
env = record {
  queue_full = false;
  queue_empty = true;
  resp_ready = true;
  cmderror_valid = false;
  cmderror = 0;
  cmdbusy = false;
  next_dm_addr = 0;
  hartinfo = 0;
  ndmreset_ack = false;
  unavailable = false;
  resumeack = false;
  halted = true;
  data_valid = false;
  data_in = 0 ∷ 0 ∷ [];
  sbaddress = 0;
  sbdata = 0;
  sbdata_valid = false;
  sbbusy = false;
  sberror_valid = false;
  sberror = 0;
}

-- An active module, with a word for the hart.
abbrev block : Block
block = record {
  errors = record { cmderr = 0; cmd_valid = false };
  regs = record (cleared true false) { words = 0xcafe ∷ 0 ∷ [] };
}

abbrev free : Free env block
free = record { room = refl; active = refl; idle = refl }

abbrev hart_regs : ℕ → ℕ
hart_regs r = 100 + r

-- The hart's store of register 5.
abbrev store_access : MemInputs
store_access = record {
  req = true;
  we = true;
  addr = 0x1380;
  wdata = 105;
  be = 15;
  resumereq = false;
  cmdbusy = true;
  access_register = true;
  transfer = true;
  postexec = false;
  flag_byte = 0;
  abstract_cmd = [];
  progbuf = replicate 8 0;
  words = 0xcafe ∷ 0 ∷ [];
}

abbrev taken : Env
taken = record env { data_valid = true; data_in = 105 ∷ 0 ∷ [] }

stores : Stores store_access 0 105
stores = record {
  requested = refl;
  is_write = refl;
  address = refl;
  data_word = omega arith;
  all_lanes = refl;
  word = refl;
  fits = omega arith;
}

block_edge-register_once :
    let v = block_edge (writing 0x17 (read_word 5)) env block in
    (v.errors.cmd_valid ≡ true)
    × Finished
        (abstract_cmd true (decoded v.regs.command))
        0x1000
        (at 0x338 hart_regs 1 2 0 [] [])
        0
        []
        (stored 0x1380 105 ∷ [])
        hart_regs
    × ((block_outputs (reading 0x04) env (block_edge (reading 0x11) taken block)).dmi_data ≡ 105)
unfolding data_out
block_edge-register_once =
    block_edge-register 5 0x1000 hart_regs 1 2 0 [] [] env block store_access (reading 0x11) taken
      env block free (omega arith) refl (omega arith) refl stores refl refl refl refl refl refl

abbrev load_access : MemInputs
load_access = record store_access { we = false }

abbrev bank : Bank
bank = record { rdata_lo = 0; rdata_hi = 0; fwd_rom = false; word_enable32 = false; rom_addr = 0 }

words_there : load_access.words ≡ (block_edge (writing 0x17 (write_word 10)) env block).regs.words
unfolding block_edge tick read_enable write_enable reg_of
words_there = refl

block_edge-bank_edge_once :
    let v = block_edge (writing 0x17 (write_word 10)) env block in
    (v.errors.cmd_valid ≡ true)
    × Finished
        (abstract_cmd true (decoded v.regs.command))
        0x1000
        (at 0x338 hart_regs 1 2 0 (rdata_o (bank_edge load_access bank) ∷ []) [])
        0
        []
        (loaded 0x1380 ∷ [])
        (set_reg 10 0xcafe hart_regs)
block_edge-bank_edge_once =
    block_edge-bank_edge 10 0x1000 hart_regs 1 2 0 [] [] env block load_access bank free refl
      (omega arith) refl (omega arith) (record { requested = refl; no_write = refl }) refl
      words_there

-- A halted hart, nothing under way.
abbrev module_at_rest : Module
module_at_rest = record {
  block = block;
  control = record { state = st_idle; halted = true; resuming = false };
}

resting : Resting module_at_rest
resting = record {
  state = refl;
  halted = refl;
  active = refl;
  no_resume = refl;
  no_reset = refl;
  no_command = refl;
  no_error = refl;
}

abbrev nothing_asked : Request
nothing_asked = record { valid = false; addr = 0; op = 0; wdata = 0 }

-- A memory access, which the decoder refuses.
module_edge-command_example :
    let refuses = unsupported_command (decoded 0x0222_0000) in
    let v =
      module_edge nothing_asked env no_access
        (module_edge (writing 0x17 0x0222_0000) env no_access module_at_rest) in
    (v.control.state ≡ (if refuses then st_idle else st_go))
    × (v.control.halted ≡ true)
    × (v.block.errors.cmderr ≡ (if refuses then 2 else 0))
module_edge-command_example =
    module_edge-command 0x0222_0000 env env nothing_asked module_at_rest resting refl refl

abbrev no_bus : Slave
no_bus = record { req = false; we = false; addr = 0; wdata = 0; be = 0 }

abbrev outside : Outside
outside = record {
  queue_full = false;
  queue_empty = true;
  resp_ready = true;
  next_dm_addr = 0;
  hartinfo = 0;
  ndmreset_ack = false;
  unavailable = false;
  master = record { gnt = false; r_valid = false; r_err = false; r_other_err = false; r_rdata = 0 };
}

abbrev chip : Chip
chip = record {
  top = module_at_rest;
  bank = record {
    rdata_lo = 0;
    rdata_hi = 0;
    fwd_rom = false;
    word_enable32 = false;
    rom_addr = 0;
  };
  sba = Sba.idle;
}

abbrev quiet : Step
quiet = record { request = nothing_asked; outside = outside; slave = no_bus }

abbrev reads_at : ℕ → Step
reads_at a = record quiet { slave = record no_bus { req = true; addr = a } }

abbrev writes_at : ℕ → ℕ → Step
writes_at a v = record quiet {
  slave = record { req = true; we = true; addr = a; wdata = v; be = 15 };
}

-- The hart polls, goes, fetches, stores register 5 and comes back.
abbrev schedule : Schedule
schedule = record {
  outside = outside;
  slave = no_bus;
  first = quiet;
  waits = reads_at 0x1400 ∷ quiet ∷ [];
  goes = writes_at 0x1108 0;
  works = reads_at 0x1300 ∷ reads_at 0x1338 ∷ [];
}

schedule-IsSchedule : IsSchedule schedule 0x1000
unfolding strobe
schedule-IsSchedule = record {
  room = refl;
  no_slave = refl;
  first_silent = refl;
  no_first_slave = refl;
  waits_going = (
    record {
      silent = refl;
      works = record { stays = refl; no_exception = refl };
      no_data = refl;
      no_event = refl;
    },
    (
      record {
        silent = refl;
        works = record { stays = refl; no_exception = refl };
        no_data = refl;
        no_event = refl;
      },
      tt,
    ),
  );
  says_going = record { silent = refl; access = refl };
  works_on = (
    record {
      silent = refl;
      works = record { stays = refl; no_exception = refl };
      no_data = refl;
      no_event = refl;
    },
    (
      record {
        silent = refl;
        works = record { stays = refl; no_exception = refl };
        no_data = refl;
        no_event = refl;
      },
      tt,
    ),
  );
}

read_ends : IsEnd (writes_at 0x1380 105) [] (writes_at 0x1100 0) 0x1000 105
read_ends = record {
  stores_silent = refl;
  stores_word = record {
    requested = refl;
    is_write = refl;
    address = refl;
    all_lanes = refl;
    word = refl;
  };
  works_more = tt;
  says_halted = record { silent = refl; access = refl };
}

abbrev read_done : Chip
read_done =
    finished (writes_at 0x1380 105) [] (writes_at 0x1100 0) (at_work schedule (read_word 5) chip)

chip_register_example :
    let w = read_word 5 in
    (slave_rdata (edge_at (reads_at 0x1400) (told_to_go schedule w chip)) ≡ 1)
    × (decode (slave_rdata (edge_at (reads_at 0x1300) (at_work schedule w chip)))
        ≡ some (jal 0 0x38))
    × (slave_rdata (edge_at (reads_at 0x133c) (at_work schedule w chip))
        ≡ get_or (abstract_cmd true (decoded w)) 1 0)
    × Finished
        (abstract_cmd true (decoded w))
        0x1000
        (at 0x338 hart_regs 0 0 0 [] [])
        0
        []
        (stored 0x1380 105 ∷ [])
        hart_regs
    × (read_done.top.control.state ≡ st_idle)
    × (read_done.top.block.errors.cmderr ≡ 0)
    × ((chip_outputs (reading 0x04) outside no_bus read_done).dmi_data ≡ 105)
chip_register_example =
    chip_register 5 0x1000 hart_regs 0 0 0 [] [] schedule (reads_at 0x1400) (reads_at 0x1300)
      (reads_at 0x133c) 1 (writes_at 0x1380 105) [] (writes_at 0x1100 0) outside no_bus chip
      (omega arith) refl (omega arith) (omega arith) resting refl schedule-IsSchedule
      (record { requested = refl; no_write = refl; address = refl })
      (record { requested = refl; no_write = refl; address = refl }) (omega arith)
      (record { requested = refl; no_write = refl; address = refl }) read_ends refl

chip_register_write_example :
    let w = write_word 10 in
    let shown = slave_rdata (edge_at (reads_at 0x1380) (at_work schedule w chip)) in
    let u = edge_at (writes_at 0x1100 0) (at_work schedule w chip) in
    (slave_rdata (edge_at (reads_at 0x1400) (told_to_go schedule w chip)) ≡ 1)
    × (decode (slave_rdata (edge_at (reads_at 0x1300) (at_work schedule w chip)))
        ≡ some (jal 0 0x38))
    × (slave_rdata (edge_at (reads_at 0x133c) (at_work schedule w chip))
        ≡ get_or (abstract_cmd true (decoded w)) 1 0)
    × Finished
        (abstract_cmd true (decoded w))
        0x1000
        (at 0x338 hart_regs 0 0 0 (shown ∷ []) [])
        0
        []
        (loaded 0x1380 ∷ [])
        (set_reg 10 0xcafe hart_regs)
    × (u.top.control.state ≡ st_idle)
    × (u.top.block.errors.cmderr ≡ 0)
chip_register_write_example =
    chip_register_write 10 0x1000 hart_regs 0 0 0 [] [] schedule (reads_at 0x1400) (reads_at 0x1300)
      (reads_at 0x133c) 1 (reads_at 0x1380) (writes_at 0x1100 0) chip (omega arith) refl
      (omega arith) resting schedule-IsSchedule
      (record { requested = refl; no_write = refl; address = refl })
      (record { requested = refl; no_write = refl; address = refl }) (omega arith)
      (record { requested = refl; no_write = refl; address = refl })
      (record { requested = refl; no_write = refl; address = refl })
      (record { silent = refl; access = refl })

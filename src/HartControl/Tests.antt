-- ===== src/HartControl/Tests.antt =====
-- The theorems on the hart's control at concrete inputs.
use jtag_debug_module_for_ri.Common.{ℕ, ◌+◌, ◌≡◌, refl, some, true, false, ◌&&◌, [], ◌∷◌, arith}
use jtag_debug_module_for_ri.HartControl.{
  st_idle, st_go, st_exec, no_access, write_at, read_at, Inputs, Control, excepting, strobe,
  outputs, step, flags,
}
use jtag_debug_module_for_ri.HartControl.Laws.{flags-outputs, command_ignored}
use jtag_debug_module_for_ri.HartControl.Commands.{
  steps, IsCalm, AsksCommand, AsksResume, IsReady, command_runs,
}
use jtag_debug_module_for_ri.HartControl.Resume.{resume_runs}
use jtag_debug_module_for_ri.HartControl.Dispatch.{go_dispatches}
use jtag_debug_module_for_ri.HartControl.Memory.{MemInputs, Bank, bank_edge, rdata_o}
use jtag_debug_module_for_ri.HartControl.Reads.{bank_edge-arrays, bank_edge-fetch, where_jumps}
use jtag_debug_module_for_ri.DebugRom.Decode.{jal, decode}
use jtag_debug_module_for_ri.DebugRom.Hart
use jtag_debug_module_for_ri.DebugRom.Hart.{fetch, stored, visible}
use jtag_debug_module_for_ri.DebugRom.Runs.{at}
use jtag_debug_module_for_ri.DebugRom.ParkLoop.{
  go_flag, resume_flag, Rounds, IsPlaced, announced, polled,
}

abbrev rest : Inputs
rest = record {
  cmd_valid = false;
  unsupported_cmd = false;
  resumereq = false;
  haltreq = false;
  ndmreset = false;
  clear_resumeack = false;
  access = no_access;
}

abbrev base : ℕ
base = 0x1a11_0000

abbrev command : Inputs
command = record rest { cmd_valid = true }

abbrev resume : Inputs
resume = record rest { resumereq = true }

abbrev says_going : Inputs
says_going = record rest { access = write_at (base + 0x108) }

abbrev says_halted : Inputs
says_halted = record rest { access = write_at (base + 0x100) }

abbrev says_resuming : Inputs
says_resuming = record rest { access = write_at (base + 0x110) }

abbrev reads_flags : Inputs
reads_flags = record rest { access = read_at (base + 0x400) }

abbrev ready : Control
ready = record { state = st_idle; halted = true; resuming = false }

abbrev going : Control
going = record ready { state = st_go }

abbrev running : Control
running = record ready { halted = false }

rest-IsCalm : IsCalm rest
unfolding strobe
rest-IsCalm = record { no_reset = refl; no_ack = refl; no_leaving = refl }

reads_flags-IsCalm : IsCalm reads_flags
unfolding strobe
reads_flags-IsCalm = record { no_reset = refl; no_ack = refl; no_leaving = refl }

says_going-IsCalm : IsCalm says_going
unfolding strobe
says_going-IsCalm = record { no_reset = refl; no_ack = refl; no_leaving = refl }

says_halted-IsCalm : IsCalm says_halted
unfolding strobe
says_halted-IsCalm = record { no_reset = refl; no_ack = refl; no_leaving = refl }

command-IsCalm : IsCalm command
unfolding strobe
command-IsCalm = record { no_reset = refl; no_ack = refl; no_leaving = refl }

resume-IsCalm : IsCalm resume
unfolding strobe
resume-IsCalm = record { no_reset = refl; no_ack = refl; no_leaving = refl }

command-AsksCommand : AsksCommand command
command-AsksCommand = record { command_given = refl; supported = refl; no_resume = refl }

resume-AsksResume : AsksResume resume
resume-AsksResume = record { resume_asked = refl; no_halt = refl }

ready-IsReady : IsReady ready
ready-IsReady = record { at_rest = refl; is_halted = refl }

command_runs_example :
    steps
      (command ∷ (says_halted ∷ (reads_flags ∷ (says_going ∷ (rest ∷ (says_halted ∷ []))))))
      ready
    ≡ ready
unfolding strobe
command_runs_example =
    command_runs base (says_halted ∷ reads_flags ∷ []) (rest ∷ []) command says_going says_halted
      ready refl ready-IsReady command-IsCalm command-AsksCommand
      (says_halted-IsCalm, refl, (reads_flags-IsCalm, refl, tt)) says_going-IsCalm refl
      (rest-IsCalm, refl, tt) says_halted-IsCalm refl

resume_runs_example :
    steps (resume ∷ (says_halted ∷ (says_resuming ∷ (rest ∷ [])))) ready
    ≡ record { state = st_idle; halted = false; resuming = true }
unfolding strobe
resume_runs_example =
    resume_runs base (says_halted ∷ []) resume says_resuming rest ready refl ready-IsReady refl
      resume-IsCalm resume-AsksResume (says_halted-IsCalm, refl, tt) refl refl refl rest-IsCalm refl

flags-outputs_once :
    (go_flag (flags reads_flags going) ≡ (outputs reads_flags going).go)
    × (resume_flag (flags reads_flags going) ≡ (outputs reads_flags going).resume)
    × (((outputs reads_flags going).resume && (outputs reads_flags going).go) ≡ false)
flags-outputs_once = flags-outputs reads_flags going

command_ignored_once :
    ((step command running).state ≡ st_idle)
    × ((outputs command running).cmderror_valid ≡ excepting (strobe no_access))
command_ignored_once = command_ignored command running refl refl

abbrev regs : ℕ → ℕ
regs r = 100 + r

placed : IsPlaced base 0
placed = omega arith

abbrev once : Rounds
once = (0, 0) ∷ []

go_dispatches_example :
    (regs' : ℕ → ℕ) × (Hart.steps true base 29
        (at 0x800 regs 0 0 0 (0 ∷ 0 ∷ flags reads_flags going ∷ 7 ∷ []) [])
      ≡ at 0x300 regs' 108 110 0
          (7 ∷ [])
          (stored (base + 0x108) 0 ∷ announced base 0 (polled base 0 once [])))
    × (visible regs' ≡ visible regs)
    × ((step says_going going).state ≡ st_exec)
go_dispatches_example =
    go_dispatches base regs placed once 0 0 (7 ∷ []) reads_flags says_going going (refl, refl, tt)
      refl refl refl refl

-- A read of the second word of the program buffer.
abbrev fetching : ℕ → MemInputs
fetching a = record {
  req = true;
  we = false;
  addr = a;
  wdata = 0;
  be = 15;
  resumereq = false;
  cmdbusy = true;
  access_register = true;
  transfer = true;
  postexec = false;
  flag_byte = 0;
  abstract_cmd = [];
  progbuf = 1 ∷ 2 ∷ 3 ∷ 4 ∷ 5 ∷ 6 ∷ 7 ∷ 8 ∷ [];
  words = 0 ∷ 0 ∷ [];
}

abbrev bank : Bank
bank = record { rdata_lo = 0; rdata_hi = 0; fwd_rom = false; word_enable32 = false; rom_addr = 0 }

bank_edge-arrays_example : rdata_o (bank_edge (fetching 0x1a11_0364) bank) ≡ 2
bank_edge-arrays_example =
    bank_edge-arrays (fetching 0x1a11_0364) bank (record { requested = refl; no_write = refl }) refl

bank_edge-fetch_example :
    decode (rdata_o (bank_edge (fetching 0x1a11_0804) bank)) ≡ fetch true 0x804
bank_edge-fetch_example =
    bank_edge-fetch (fetching 0x1a11_0804) bank 1 (record { requested = refl; no_write = refl })
      refl (omega arith)

where_jumps_once : decode (rdata_o (bank_edge (fetching 0x1a11_0300) bank)) ≡ some (jal 0 0x38)
where_jumps_once =
    where_jumps (fetching 0x1a11_0300) bank (record { requested = refl; no_write = refl }) refl refl

-- ===== src/Debugger/Module.antt =====
-- The registers with their control unit (rtl/DM_CSRS.sv, rtl/DM_ControlUnit1.sv) and the command
-- machine with the hart's state (rtl/DM_ControlUnit2.sv, rtl/DM_Mem.sv), as rtl/DM_ControlUnit.sv and
-- rtl/DM_top.sv connect them.
use jtag_debug_module_for_ri.Common.{ℕ, Bool, false}
use jtag_debug_module_for_ri.AbstractCmd.{decoded, unsupported_command}
use jtag_debug_module_for_ri.HartControl as Hart
use jtag_debug_module_for_ri.HartControl.{
  Access, Control, CmdErr, no_cmderr, busy, not_supported, exception, halt_resume, bus, other,
}
use jtag_debug_module_for_ri.Registers.Csrs.{Outputs}
use jtag_debug_module_for_ri.Registers.Block.{Request, Env, Block, block_edge, block_outputs}

pub record Module : Type 0 where
  pub block : Block
  pub control : Control

-- The number of a `cmderr_e`.
abbrev pub cmderr_code : CmdErr → ℕ
cmderr_code no_cmderr = 0
cmderr_code busy = 1
cmderr_code not_supported = 2
cmderr_code exception = 3
cmderr_code halt_resume = 4
cmderr_code bus = 5
cmderr_code other = 7

-- The inputs of the command machine, with the pulse that clears the acknowledgement.
abbrev pub to_control : Access → Bool → Module → Hart.Inputs
to_control access clear t = record {
  cmd_valid = t.block.errors.cmd_valid;
  unsupported_cmd = unsupported_command (decoded t.block.regs.command);
  resumereq = t.block.regs.dmcontrol.resumereq;
  haltreq = t.block.regs.dmcontrol.haltreq;
  ndmreset = t.block.regs.dmcontrol.ndmreset;
  clear_resumeack = clear;
  access = access;
}

-- What the command machine shows, which the pulse does not change.
abbrev pub machine_outputs : Access → Module → Hart.Outputs
machine_outputs access t = Hart.outputs (to_control access false t) t.control

abbrev pub to_block : Env → Access → Module → Env
to_block n access t =
    let o = machine_outputs access t in
    record n {
      cmderror_valid = o.cmderror_valid;
      cmderror = cmderr_code o.cmderror;
      cmdbusy = o.cmdbusy;
      resumeack = t.control.resuming;
      halted = t.control.halted;
    }

unfoldable pub module_outputs : Request → Env → Access → Module → Outputs
module_outputs r n access t = block_outputs r (to_block n access t) t.block

-- One edge of the clock, with a request of the debugger and an access of the hart.
unfoldable pub module_edge : Request → Env → Access → Module → Module
unfolding module_outputs
module_edge r n access t = record {
  block = block_edge r (to_block n access t) t.block;
  control = Hart.step (to_control access (module_outputs r n access t).clear_resumeack t) t.control;
}

-- ===== src/Debugger/Chip.antt =====
-- rtl/DM_top.sv: the whole debug module. Beside the registers and the command machine it has the data
-- of the hart's accesses (rtl/DM_Mem.sv), the program of the command (rtl/AbstractCmd_ROM.sv) and the
-- system bus access (rtl/DM_SBA.sv), each driven by the others as rtl/DM_Datapath.sv and
-- rtl/DM_ControlUnit.sv connect them.
use jtag_debug_module_for_ri.Common.{ℕ, Bool, true, false, ◌==◌, if◌then◌else◌}
use jtag_debug_module_for_ri.AbstractCmd.{decoded, abstract_cmd, access_register}
use jtag_debug_module_for_ri.HartControl as Hart
use jtag_debug_module_for_ri.HartControl.Memory.{MemInputs, Bank, bank_edge, rdata_o, data_out}
use jtag_debug_module_for_ri.Sba as Sba
use jtag_debug_module_for_ri.Registers.Csrs.{Outputs}
use jtag_debug_module_for_ri.Registers.Block.{Request, Env}
use jtag_debug_module_for_ri.Registers.Bus.{Answer, to_sba}
use jtag_debug_module_for_ri.Debugger.Module.{
  Module, to_control, machine_outputs, module_edge, module_outputs,
}

pub record Chip : Type 0 where
  pub top : Module
  pub bank : Bank
  pub sba : Sba.State

-- The hart's access, `slave_req_i` and the others.
pub record Slave : Type 0 where
  pub req : Bool
  pub we : Bool
  pub addr : ℕ
  pub wdata : ℕ
  pub be : ℕ

-- What the queue of responses, the configuration and the system bus drive.
pub record Outside : Type 0 where
  pub queue_full : Bool
  pub queue_empty : Bool
  pub resp_ready : Bool
  pub next_dm_addr : ℕ
  pub hartinfo : ℕ
  pub ndmreset_ack : Bool
  pub unavailable : Bool
  pub master : Answer

abbrev pub access_on : Slave → Hart.Access
access_on x =
    if x.req then (if x.we then Hart.write_at x.addr else Hart.read_at x.addr) else Hart.no_access

-- The inputs of `u_dm_mem`, with the hart's byte of flags.
abbrev pub mem_inputs : Slave → Chip → MemInputs
mem_inputs x t =
    let c = decoded t.top.block.regs.command in
    record {
      req = x.req;
      we = x.we;
      addr = x.addr;
      wdata = x.wdata;
      be = x.be;
      resumereq = t.top.block.regs.dmcontrol.resumereq;
      cmdbusy = (machine_outputs (access_on x) t.top).cmdbusy;
      access_register = c.cmd_type == access_register;
      transfer = c.transfer;
      postexec = c.postexec;
      flag_byte = Hart.flags (to_control (access_on x) false t.top) t.top.control;
      abstract_cmd = abstract_cmd true c;
      progbuf = t.top.block.regs.progbuf;
      words = t.top.block.regs.words;
    }

-- What the bus access shows, which does not depend on the starts.
abbrev pub bus_shown : Outside → Chip → Sba.Outputs
bus_shown o t = Sba.outputs (to_sba o.master t.top.block.regs false false false) t.sba

-- The inputs of the registers, but for those that the command machine drives.
abbrev pub env_of : Outside → Slave → Chip → Env
env_of o x t =
    let stored = data_out (mem_inputs x t) in
    let bus = bus_shown o t in
    record {
      queue_full = o.queue_full;
      queue_empty = o.queue_empty;
      resp_ready = o.resp_ready;
      cmderror_valid = false;
      cmderror = 0;
      cmdbusy = false;
      next_dm_addr = o.next_dm_addr;
      hartinfo = o.hartinfo;
      ndmreset_ack = o.ndmreset_ack;
      unavailable = o.unavailable;
      resumeack = false;
      halted = false;
      data_valid = stored.1;
      data_in = stored.0;
      sbaddress = bus.sbaddress_o;
      sbdata = bus.sbdata_o;
      sbdata_valid = bus.sbdata_valid;
      sbbusy = bus.sbbusy;
      sberror_valid = bus.sberror_valid;
      sberror = bus.sberror;
    }

unfoldable pub chip_outputs : Request → Outside → Slave → Chip → Outputs
chip_outputs r o x t = module_outputs r (env_of o x t) (access_on x) t.top

-- One edge of the clock.
unfoldable pub chip_edge : Request → Outside → Slave → Chip → Chip
unfolding chip_outputs
chip_edge r o x t =
    let c = chip_outputs r o x t in
    record {
      top = module_edge r (env_of o x t) (access_on x) t.top;
      bank = bank_edge (mem_inputs x t) t.bank;
      sba =
          Sba.step
            (to_sba o.master t.top.block.regs c.sbaddress_write_valid c.sbdata_read_valid
              c.sbdata_write_valid)
            t.sba;
    }

-- What the hart reads, in the cycle after its request.
abbrev pub slave_rdata : Chip → ℕ
slave_rdata t = rdata_o t.bank

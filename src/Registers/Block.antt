-- ===== src/Registers/Block.antt =====
-- The control unit and the registers as rtl/DM_Datapath.sv and rtl/DM_top.sv connect them: one request of the
-- debugger goes to both, and each drives the other.
use jtag_debug_module_for_ri.Common.{ℕ, Bool, List, if◌then◌else◌}
use jtag_debug_module_for_ri.Registers.{reg_of}
use jtag_debug_module_for_ri.Registers.Requests.{
  Inputs as RequestInputs, Errors, read_enable, write_enable, edge,
}
use jtag_debug_module_for_ri.Registers.Csrs.{
  Inputs, Outputs, Regs, Op, no_op, read_op, write_op, tick, outputs,
}

pub record Request : Type 0 where
  pub valid : Bool
  pub addr : ℕ
  pub op : ℕ
  pub wdata : ℕ

-- What the rest of the module drives at an edge.
pub record Env : Type 0 where
  pub queue_full : Bool
  pub queue_empty : Bool
  pub resp_ready : Bool
  pub cmderror_valid : Bool
  pub cmderror : ℕ
  pub cmdbusy : Bool
  pub next_dm_addr : ℕ
  pub hartinfo : ℕ
  pub ndmreset_ack : Bool
  pub unavailable : Bool
  pub resumeack : Bool
  pub halted : Bool
  pub data_valid : Bool
  pub data_in : List ℕ
  pub sbaddress : ℕ
  pub sbdata : ℕ
  pub sbdata_valid : Bool
  pub sbbusy : Bool
  pub sberror_valid : Bool
  pub sberror : ℕ

pub record Block : Type 0 where
  pub errors : Errors
  pub regs : Regs

abbrev pub to_requests : Request → Env → Block → RequestInputs
to_requests r n u = record {
  queue_full = n.queue_full;
  queue_empty = n.queue_empty;
  req_valid = r.valid;
  addr = r.addr;
  op = r.op;
  req_data = r.wdata;
  resp_ready = n.resp_ready;
  cmderror_valid = n.cmderror_valid;
  cmderror = n.cmderror;
  cmdbusy = n.cmdbusy;
  autoexecdata = u.regs.abstractauto.autoexecdata;
  autoexecprogbuf = u.regs.abstractauto.autoexecprogbuf;
}

-- `dm_csr_sel_o`, `dm_csrs_re_o` and `dm_csrs_we_o`
abbrev pub op_of : RequestInputs → Op
op_of i =
    if read_enable i
    then read_op (reg_of i.addr)
    else if write_enable i
    then write_op (reg_of i.addr) i.req_data
    else no_op

abbrev pub to_csrs : Request → Env → Block → Inputs
to_csrs r n u = record {
  op = op_of (to_requests r n u);
  cmdbusy = n.cmdbusy;
  cmderr = u.errors.cmderr;
  next_dm_addr = n.next_dm_addr;
  hartinfo = n.hartinfo;
  ndmreset_ack = n.ndmreset_ack;
  unavailable = n.unavailable;
  resumeack = n.resumeack;
  halted = n.halted;
  data_valid = n.data_valid;
  data_in = n.data_in;
  sbaddress = n.sbaddress;
  sbdata = n.sbdata;
  sbdata_valid = n.sbdata_valid;
  sbbusy = n.sbbusy;
  sberror_valid = n.sberror_valid;
  sberror = n.sberror;
}

unfoldable pub block_edge : Request → Env → Block → Block
block_edge r n u = record {
  errors = edge (to_requests r n u) u.errors;
  regs = tick (to_csrs r n u) u.regs;
}

-- What is driven in the same cycle, the word and the status of the response among it.
unfoldable pub block_outputs : Request → Env → Block → Outputs
block_outputs r n u = outputs (to_csrs r n u) u.regs

-- ===== src/HartControl.antt =====
-- rtl/DM_ControlUnit2.sv, rtl/DM_ControlUnit3.sv and the part of rtl/DM_Mem.sv that keeps a hart's
-- state: how the debug module runs a command on the hart in the ROM's park loop, and resumes it.
--
-- One step is one rising edge of the module's clock. At each the hart may read or write one address
-- (the bus port); the requests of the debugger (dmcontrol and command, DM_CSRS.sv) are the other
-- fields of `Inputs`. Of a read's data this file has the hart's byte of flags; Memory has the rest,
-- and the writes to the data words.
pub mod Memory
pub mod Reads
pub mod Writes
pub mod Laws
pub mod Commands
pub mod Resume
pub mod Dispatch
mod Tests
use jtag_debug_module_for_ri.Common.{
  ℕ, ◌+◌, ◌-◌, ◌*◌, ◌/◌, ◌%◌, ◌^◌, ◌≡◌, Bool, true, false, not, ◌&&◌, ◌||◌, ◌==◌, leb,
  if◌then◌else◌,
}

-- `state_t`
pub data State : Type 0 where
  st_idle st_go st_res st_exec : State

-- `cmderr_e` of DM_Pkg.sv
pub data CmdErr : Type 0 where
  no_cmderr busy not_supported exception halt_resume bus other : CmdErr

-- `req_i`, `we_i` and `addr_i`
pub data Access : Type 0 where
  no_access : Access
  write_at : ℕ → Access
  read_at : ℕ → Access

pub record Inputs : Type 0 where
  pub cmd_valid : Bool
  pub unsupported_cmd : Bool
  pub resumereq : Bool
  pub haltreq : Bool
  pub ndmreset : Bool
  pub clear_resumeack : Bool
  pub access : Access

-- The registers: the state of the command, and `halted_q` and `resuming_q` of DM_Mem.sv.
pub record Control : Type 0 where
  pub state : State
  pub halted : Bool
  pub resuming : Bool

-- What an access means to the rest of the module.
pub data Strobe : Type 0 where
  nothing wr_halted wr_going wr_resuming wr_exception wr_data : Strobe
  rd_where rd_data rd_prog rd_abs_cmd rd_flags : Strobe

abbrev pub data_base : ℕ
data_base = 0x380

-- `DataBaseAddr + 4*DataCount - 1`, with two data words
abbrev pub data_end : ℕ
data_end = data_base + 4 * 2 - 1

-- eight words of program buffer below the data
abbrev pub prog_base : ℕ
prog_base = data_base - 4 * 8

abbrev pub abs_cmd_base : ℕ
abs_cmd_base = prog_base - 4 * 10

abbrev pub between : ℕ → ℕ → ℕ → Bool
between lo hi a = leb lo a && leb a hi

abbrev pub write_strobe : ℕ → Strobe
write_strobe a =
    if a == 0x100
    then wr_halted
    else if a == 0x108
    then wr_going
    else if a == 0x110
    then wr_resuming
    else if a == 0x118
    then wr_exception
    else if between data_base data_end a
    then wr_data
    else nothing

abbrev pub read_strobe : ℕ → Strobe
read_strobe a =
    if a == 0x300
    then rd_where
    else if between data_base data_end a
    then rd_data
    else if between prog_base (data_base - 1) a
    then rd_prog
    else if between abs_cmd_base (prog_base - 1) a
    then rd_abs_cmd
    else if between 0x400 0x7ff a
    then rd_flags
    else nothing

-- The low 12 bits of the address decide.
unfoldable pub strobe : Access → Strobe
strobe no_access = nothing
strobe (write_at a) = write_strobe (a % 2 ^ 12)
strobe (read_at a) = read_strobe (a % 2 ^ 12)

abbrev pub halting : Strobe → Bool
halting wr_halted = true
halting _ = false

abbrev pub going : Strobe → Bool
going wr_going = true
going _ = false

abbrev pub leaving : Strobe → Bool
leaving wr_resuming = true
leaving _ = false

abbrev pub excepting : Strobe → Bool
excepting wr_exception = true
excepting _ = false

pub record Outputs : Type 0 where
  pub go : Bool
  pub resume : Bool
  pub cmdbusy : Bool
  pub cmderror_valid : Bool
  pub cmderror : CmdErr
  pub debug_req : Bool

-- The outputs of a command under way.
abbrev at_work : Bool → Bool → Inputs → Outputs
at_work go resume i = record {
  go = go;
  resume = resume;
  cmdbusy = true;
  cmderror_valid = false;
  cmderror = no_cmderr;
  debug_req = i.haltreq;
}

abbrev pub refused : Inputs → Control → Bool
refused i c = i.cmd_valid && (c.halted && i.unsupported_cmd)

-- What the command machine shows in a state, before exceptions and resets.
abbrev pub shown : State → Inputs → Control → Outputs
shown st_idle i c = record {
  go = false;
  resume = false;
  cmdbusy = false;
  cmderror_valid = refused i c;
  cmderror = if refused i c then not_supported else no_cmderr;
  debug_req = i.haltreq;
}
shown st_go i c = at_work true false i
shown st_res i c = at_work false true i
shown st_exec i c = at_work false false i

unfoldable pub outputs : Inputs → Control → Outputs
outputs i c =
    let o = shown c.state i c in
    let e = excepting (strobe i.access) in
    record o {
      go = o.go && not i.ndmreset;
      resume = o.resume && not i.ndmreset;
      cmderror_valid = o.cmderror_valid || e;
      cmderror = if e then exception else o.cmderror;
    }

abbrev pub idle_next : Inputs → Control → State
idle_next i c =
    let started = if i.cmd_valid && (c.halted && not i.unsupported_cmd) then st_go else st_idle in
    if i.resumereq && (not c.resuming && (not i.haltreq && c.halted)) then st_res else started

abbrev pub next : State → Inputs → Control → State
next st_idle i c = idle_next i c
next st_go i c = if going (strobe i.access) then st_exec else st_go
next st_res i c = if c.resuming then st_idle else st_res
next st_exec i c = if halting (strobe i.access) then st_idle else st_exec

-- `halted_d` and `resuming_d` of DM_Mem.sv
abbrev pub halted_d : Inputs → Control → Bool
halted_d i c =
    not i.ndmreset && (halting (strobe i.access) || (c.halted && not (leaving (strobe i.access))))

abbrev pub resuming_d : Inputs → Control → Bool
resuming_d i c =
    not i.clear_resumeack && (not i.ndmreset && (leaving (strobe i.access) || c.resuming))

unfoldable pub step : Inputs → Control → Control
step i c = record {
  state = if i.ndmreset then st_idle else next c.state i c;
  halted = halted_d i c;
  resuming = resuming_d i c;
}

-- The byte that a read of the hart's flags brings, `{6'b0, resume_i, go_i}`; the hart is number 0.
unfoldable pub flags : Inputs → Control → ℕ
unfolding outputs
flags i c = let o = outputs i c in (if o.resume then 2 else 0) + (if o.go then 1 else 0)

-- `rst_ni` low
abbrev pub reset : Control
reset = record { state = st_idle; halted = false; resuming = false }

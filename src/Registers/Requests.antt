-- ===== src/Registers/Requests.antt =====
-- rtl/DM_ControlUnit1.sv: which requests reach the registers, the error of abstract commands, and
-- when a command starts. The queue of responses (`fifo_v2`) is two inputs, full and empty.
use jtag_debug_module_for_ri.Common.{
  ℕ, ◌+◌, ◌*◌, ◌/◌, ◌%◌, ◌^◌, Bool, true, false, not, ◌&&◌, ◌==◌, if◌then◌else◌,
}
use jtag_debug_module_for_ri.Registers.{
  Reg, data_reg, prog_reg, dmstatus, hartinfo, nextdm, abstractcs, command, abstractauto, reg_of,
}
use jtag_debug_module_for_ri.Registers.Words.{bit_of, field_of}

pub record Inputs : Type 0 where
  pub queue_full : Bool
  pub queue_empty : Bool
  pub req_valid : Bool
  pub addr : ℕ
  pub op : ℕ
  pub req_data : ℕ
  pub resp_ready : Bool
  pub cmderror_valid : Bool
  pub cmderror : ℕ
  pub cmdbusy : Bool
  pub autoexecdata : ℕ
  pub autoexecprogbuf : ℕ

-- The two registers of the unit. A `cmderr_e` is its number.
pub record Errors : Type 0 where
  pub cmderr : ℕ
  pub cmd_valid : Bool

-- `DTM_READ` and `DTM_WRITE`
abbrev pub op_read : ℕ
op_read = 1

abbrev pub op_write : ℕ
op_write = 2

abbrev pub illegal_target : Reg → Bool
illegal_target dmstatus = true
illegal_target hartinfo = true
illegal_target nextdm = true
illegal_target _ = false

abbrev pub req_ready : Inputs → Bool
req_ready i = not i.queue_full

unfoldable pub write_enable : Inputs → Bool
write_enable i =
    not (i.op == op_write && illegal_target (reg_of i.addr))
    && (i.op == op_write && (i.req_valid && req_ready i))

unfoldable pub read_enable : Inputs → Bool
read_enable i = i.op == op_read && (i.req_valid && req_ready i)

unfoldable pub queue_push : Inputs → Bool
queue_push i = i.req_valid && req_ready i

unfoldable pub queue_pop : Inputs → Bool
queue_pop i = i.resp_ready && not i.queue_empty

-- What a case on the register decides: an access that a running command makes an error, one that
-- may start a command, and a write to the error field.
pub data Effect : Type 0 where
  none_of_them : Effect
  guarded : Effect
  starts : Bool → Effect
  clears : ℕ → Effect

-- `autoexecprogbuf_i[{1'b1, dmi_req_addr_i[3:0]}]`: an index from 16 of 16 bits, which reads as 0 here.
abbrev pub prog_starts : Inputs → Bool
prog_starts i = bit_of i.autoexecprogbuf (16 + i.addr % 2 ^ 4)

abbrev read_effect : Inputs → Reg → Effect
read_effect i (data_reg k) = starts (bit_of i.autoexecdata k)
read_effect i (prog_reg k) = starts (prog_starts i)
read_effect i _ = none_of_them

-- `a_abstractcs.cmderr` of a write
abbrev write_effect : Inputs → Reg → Effect
write_effect i (data_reg k) = starts (bit_of i.autoexecdata k)
write_effect i (prog_reg k) = starts (prog_starts i)
write_effect i abstractcs = clears (field_of i.req_data 8 3)
write_effect i command = starts true
write_effect i abstractauto = guarded
write_effect i _ = none_of_them

unfoldable pub effect : Inputs → Effect
effect i =
    if read_enable i
    then read_effect i (reg_of i.addr)
    else if write_enable i
    then write_effect i (reg_of i.addr)
    else none_of_them

-- `~w & e` of two numbers of three bits
abbrev pub clear_bits : ℕ → ℕ → ℕ
clear_bits w e =
    (if bit_of w 2 then 0 else e / 4 % 2 * 4)
    + (if bit_of w 1 then 0 else e / 2 % 2 * 2)
    + (if bit_of w 0 then 0 else e % 2)

-- `if (cmderr_q == DM::None) cmderr_d = DM::Busy`, over what the command itself reported.
abbrev busy_error : Inputs → Errors → ℕ
busy_error i e = if e.cmderr == 0 then 1 else if i.cmderror_valid then i.cmderror else e.cmderr

abbrev reported : Inputs → Errors → ℕ
reported i e = if i.cmderror_valid then i.cmderror else e.cmderr

abbrev after : Effect → Inputs → Errors → Errors
after none_of_them i e = record { cmderr = reported i e; cmd_valid = false }
after guarded i e = record {
  cmderr = if i.cmdbusy then busy_error i e else reported i e;
  cmd_valid = false;
}
after (starts b) i e = record {
  cmderr = if i.cmdbusy then busy_error i e else reported i e;
  cmd_valid = not i.cmdbusy && b;
}
after (clears w) i e = record {
  cmderr = if i.cmdbusy then busy_error i e else clear_bits w e.cmderr;
  cmd_valid = false;
}

-- One edge of the clock.
unfoldable pub edge : Inputs → Errors → Errors
unfolding effect
edge i e = after (effect i) i e

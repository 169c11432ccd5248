-- ===== src/Registers.antt =====
-- rtl/DM_ControlUnit1.sv and rtl/DM_CSRS.sv: the registers of the debug module, and the unit that
-- takes the requests of the debugger to them. One hart, a 32-bit bus, as rtl/DM_Datapath.sv has it.
--
-- This file decodes addresses: `dm_csr_e` of DM_Pkg.sv, as the two units read it. Words holds the
-- layouts of the registers, Requests the control unit, Csrs the registers' state, and Block the two
-- together.
pub mod Words
pub mod Requests
pub mod Csrs
pub mod Block
pub mod Errors
pub mod Store
pub mod Bounds
pub mod Bus
mod Blocked
mod Tests
use jtag_debug_module_for_ri.Common.{ℕ, ◌-◌, Bool, true, false, ◌&&◌, ◌==◌, leb, ltb, if◌then◌else◌}

-- The registers that one of the units names; an address of none of them is `unnamed`.
pub data Reg : Type 0 where
  data_reg : ℕ → Reg
  prog_reg : ℕ → Reg
  dmcontrol dmstatus hartinfo : Reg
  abstractcs command abstractauto nextdm : Reg
  haltsum0 haltsum1 haltsum2 haltsum3 : Reg
  sbcs sbaddress0 sbaddress1 sbdata0 sbdata1 : Reg
  unnamed : Reg

-- `DataCount` and `ProgBufSize`
abbrev pub data_count : ℕ
data_count = 2

abbrev pub prog_size : ℕ
prog_size = 8

abbrev single : ℕ → Reg
single a =
    if a == 0x10
    then dmcontrol
    else if a == 0x11
    then dmstatus
    else if a == 0x12
    then hartinfo
    else if a == 0x13
    then haltsum1
    else if a == 0x16
    then abstractcs
    else if a == 0x17
    then command
    else if a == 0x18
    then abstractauto
    else if a == 0x1d
    then nextdm
    else if a == 0x34
    then haltsum2
    else if a == 0x35
    then haltsum3
    else if a == 0x38
    then sbcs
    else if a == 0x39
    then sbaddress0
    else if a == 0x3a
    then sbaddress1
    else if a == 0x3c
    then sbdata0
    else if a == 0x3d
    then sbdata1
    else if a == 0x40
    then haltsum0
    else unnamed

-- `[Data0:DataEnd]` and `[ProgBuf0:ProgBufEnd]`, with the index in the range.
unfoldable pub reg_of : ℕ → Reg
reg_of a =
    if leb 0x04 a && ltb (a - 0x04) data_count
    then data_reg (a - 0x04)
    else if leb 0x20 a && ltb (a - 0x20) prog_size
    then prog_reg (a - 0x20)
    else single a

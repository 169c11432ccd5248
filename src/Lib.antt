-- ===== src/Lib.antt =====
-- Verification of the JTAG debug module for a RISC-V SoC: the C code that drives it in simulation,
-- the program that its debug ROM holds, and the hardware that faces the debugger.
--
-- The parts, and how they meet:
-- - tb/remote_bitbang/remote_bitbang.c serves OpenOCD's remote bitbang protocol on a socket and
--   drives the four JTAG pins of the simulated chip; tb/remote_bitbang/sim_jtag.c is the function
--   that the simulator calls at each tick, and rbs_test.c a trial of the server alone.
-- - tb/tb_top_verilator.cpp is the simulation's main program: the clock, the reset, a memory dump.
-- - debug_rom/debug_rom.S is the program that a halted hart runs. debug_rom.h and
--   debug_rom_one_scratch.h hold its words in its two builds, and encoding.h the match and mask of
--   every instruction. It talks to the debug module by loads and stores.
-- - rtl/DTM_JTAG_TAP.sv is the JTAG port that the pins lead to, and rtl/DTM_top.sv the transport
--   module behind it, which turns scans into requests to the debug module and back.
-- - rtl/DM_ControlUnit2.sv runs the debugger's commands on the hart, which answers by the ROM's
--   stores (decoded by rtl/DM_ControlUnit3.sv) and polls a byte of flags (rtl/DM_Mem.sv).
-- - rtl/DM_ControlUnit1.sv takes the requests of the transport module to the debug module's
--   registers (rtl/DM_CSRS.sv), and starts commands.
-- - rtl/AbstractCmd_Decoder.sv reads a command's fields, and rtl/AbstractCmd_ROM.sv shows the hart a
--   program for it.
-- - rtl/DM_SBA.sv reads and writes the system bus for the debugger, past the hart.
-- - tb/prog/syscalls.c gives the C library of the test programs its system calls, and test.c is
--   such a program.
--
-- Which file models what:
-- - Common: numbers, lists, signed integers and the laws of `&` that the others share.
-- - Bitbang: the server's globals are the record `Server`, with the scripts of what the operating
--   system will answer. Each C function is a function of its name; a loop inside one is a function
--   of its own (`accept_loop`, `read_loop`, `send_loop`), and so are the switch (`perform`) and the
--   close at the end (`close_if_quit`). `abort()` and an endless wait are outcomes. Commands has
--   the protocol, Loops the waiting loops, Invariant the globals between ticks, Session whole
--   sessions, Quit the ways a client leaves.
-- - SimJtag: `jtag_tick` and the trial program's `main`.
-- - Syscalls: the record `Sys` holds errno, the break, the stores to the output registers and
--   whether the core sleeps. The calls that are not implemented are the cases of `call`. Console
--   has the output loops, Heap the break, Stubs the rest.
-- - DebugRom: Encoding is the table of encoding.h, Rom the images, Decode and Assembly read words
--   and source as instructions, Hart runs them, Runs and ParkLoop step through the program, and
--   Dispatch has the ways out; OneScratch has the same for the build with one scratch register. Csrs
--   is the table of control and status registers, Fields the masks of their fields, Values the named
--   values of the fields, Causes the exceptions, Macros the functions for a program. Unique, Csrs and
--   Causes also take the lists that name the rows of the tables again.
-- - Tap: the registers of the port are the record `Tap`, its two clock edges `posedge` and
--   `negedge`. Fsm has the states and the reset by TMS, Scan the scans.
-- - Dtm: the registers of DTM_top.sv are the record `Dtm`, and `step` is one edge of TCK. Laws has
--   what every edge keeps, Transactions whole reads and writes, Requests what starts them.
--   The declaration of the variable `dmi` with an initial value is a field, `Variable`: initialised
--   once, as the language's standard has it, or following the scan register, as in the session of
--   tb/openocd_log.txt.
-- - Transport: the module with its port in one state, `Port`, and a period of TCK as `period`. Periods
--   has the edges by the port's state, Scan and Whole the scan of any register that shifts as theirs,
--   Registers the scans of the two, Waiting and Reading a read over the port.
-- - Link: the server's pins (tb/SimJTAG.sv) as the clock and the inputs of the port. Bench is the loop
--   of the server with the transport module and its port, one tick as `bench_tick`; Served takes a
--   client's bits around it, and Scanned a scan of the DMI register from the socket. Divider is the
--   clocked counter of SimJTAG, which spaces the ticks.
-- - HartControl: the registers of the command machine and of the hart's state are the record
--   `Control`, `step` is one clock edge, and the hart's accesses are among its inputs. Commands and
--   Resume have whole commands and resumes, Laws the flags and the errors, Dispatch the machine
--   together with the ROM. Memory is the data of the hart's accesses: `bank_edge` and `rdata_o` a
--   read, `data_out` a write. Reads has the addresses, Writes the way of a word to the debugger.
-- - Sba: the system bus access of rtl/DM_SBA.sv. Access has whole accesses and the refused ones,
--   Lanes the byte lanes.
-- - Verilator: the inputs of the generated model are the record `Top`; Clock has the evaluations of
--   the loop, Dump the lines of the memory dump.
-- - AbstractCmd: `decoded` and `unsupported_command` are the decoder, `abstract_cmd` the program's
--   words, made by the helpers in Words. Run is a hart in the program, by the instructions of
--   DebugRom/Hart. Transfer has the commands for general registers, Refusal the refused ones.
-- - Registers: Requests is the control unit, Csrs the registers (`tick` is an edge, `outputs` what a
--   request drives), Words their layouts, and Block the two together. Errors has the error of
--   commands and their start, Store what requests leave, Bounds the widths. Bus joins the registers
--   and Sba, and Blocked has the errors of the bus.
-- - Debugger: whole register accesses, over Registers, AbstractCmd and HartControl/Memory. Module
--   joins Registers and HartControl in one state, `module_edge` being its edge; Commands has the
--   start of a command and its errors. Chip is rtl/DM_top.sv: `Chip` adds HartControl/Memory and Sba
--   to the state, and `chip_edge` drives each part by the others. Silent and Steps have its edges
--   while the debugger waits, Schedule the edges of a transfer, Shown what they show, and Whole the
--   register transfers.
--
-- Bounds and fuel. The loop of `_write` has one unit of fuel for each byte that it is given and
-- one for the test that ends it. The server's loops recur on the scripts, whose end means that the
-- code is still waiting. Machine words wrap by `%`; pointers of the test programs have 32 bits. The
-- debug ROM is run by a count of instructions that the theorems state.
--
-- Not modelled: the clock domain crossing in rtl/ (its two halves are not in the repository), the
-- wiring of rtl/top.sv, the debug module's queue of responses (fifo_v2 is not in the repository; its
-- flags are inputs), the copy of rtl/ in ci/src/, the test benches in SystemVerilog, the scripts, the
-- trace files, and the messages on stderr. The operating system, the debug module's answers to the
-- transport module, and the linker's symbols are arguments.
pub mod Common
pub mod Bitbang
pub mod SimJtag
pub mod Syscalls
pub mod DebugRom
pub mod Tap
pub mod Dtm
pub mod HartControl
pub mod Transport
pub mod Link
pub mod Sba
pub mod Verilator
pub mod AbstractCmd
pub mod Registers
pub mod Debugger

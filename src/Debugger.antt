-- ===== src/Debugger.antt =====
-- What a debugger gets of the whole debug module: a register access from the write of `command`
-- (rtl/DM_ControlUnit1.sv, rtl/DM_CSRS.sv) over the program that the hart runs for it
-- (rtl/AbstractCmd_ROM.sv) to the data word (rtl/DM_Mem.sv).
pub mod Module
pub mod Chip
pub mod Commands
pub mod Silent
pub mod Steps
pub mod Schedule
pub mod Shown
pub mod Whole
mod Tests
use jtag_debug_module_for_ri.Common.{
  ℕ, ◌+◌, ◌*◌, ◌/◌, ◌%◌, ◌^◌, ◌<◌, ◌≤◌, ◌≡◌, refl, ◌∙◌, ap, true, false, List, [], ◌∷◌, arith,
  length, get_or, if◌then◌else◌, ◌==◌,
}
use jtag_debug_module_for_ri.DebugRom.Hart.{Access, stored, loaded, visible, set_reg}
use jtag_debug_module_for_ri.DebugRom.Runs.{at}
use jtag_debug_module_for_ri.AbstractCmd.{decoded, abstract_cmd}
use jtag_debug_module_for_ri.AbstractCmd.Transfer.{
  Finished, write_word, read_word, transfer_write, transfer_read,
}
use jtag_debug_module_for_ri.HartControl.Memory.{
  MemInputs, Bank, low_addr, bank_edge, rdata_o, data_out,
}
use jtag_debug_module_for_ri.HartControl.Reads.{Reading, bank_edge-arrays}
use jtag_debug_module_for_ri.HartControl.Writes.{Stores, block_edge-stored}
use jtag_debug_module_for_ri.Registers.{command, reg_of}
use jtag_debug_module_for_ri.Registers.Requests.{edge, effect, read_enable, write_enable}
use jtag_debug_module_for_ri.Registers.Csrs.{Regs, Inputs, write_op, tick}
use jtag_debug_module_for_ri.Registers.Block.{
  Request, Env, Block, to_requests, to_csrs, op_of, block_edge, block_outputs,
}
use jtag_debug_module_for_ri.Registers.Store.{reading, writing}

-- A request is taken: there is room for its response, the module is active and no command runs.
pub record Free (n : Env) (u : Block) : Type 0 where
  pub room : n.queue_full ≡ false
  pub active : u.regs.dmcontrol.dmactive ≡ true
  pub idle : n.cmdbusy ≡ false

pub command_op :
    (w : ℕ) (n : Env) (u : Block)
    → n.queue_full ≡ false
    → op_of (to_requests (writing 0x17 w) n u) ≡ write_op command w
unfolding read_enable write_enable reg_of
command_op w n u room = rw room refl

command_tick :
    (i : Inputs) (s : Regs) (w : ℕ)
    → i.op ≡ write_op command w
    → s.dmcontrol.dmactive ≡ true
    → i.cmdbusy ≡ false
    → (tick i s).command ≡ w
unfolding tick
command_tick i s w o act free = ground arith

-- A write of `command` puts the word there, and starts the command at the next edge.
pub command_written :
    (w : ℕ) (n : Env) (u : Block)
    → Free n u
    → let v = block_edge (writing 0x17 w) n u in (v.regs.command ≡ w) × (v.errors.cmd_valid ≡ true)
unfolding block_edge edge effect read_enable write_enable reg_of
command_written w n u f = (
  command_tick (to_csrs (writing 0x17 w) n u) u.regs w (command_op w n u f.room) f.active f.idle,
  rw (f.room, f.idle) refl,
)

-- A register read. The debugger writes `command` while no command runs: the command starts at the
-- next edge, and the program that the ROM shows for it takes the hart, in ten instructions, back to
-- the debug ROM with its registers as before, and one store. When that store, of a whole word, is on
-- the module's bus, whatever the debugger requests at that edge, its next read of the first data
-- word brings the register.
pub block_edge-register :
    (r base : ℕ) (regs : ℕ → ℕ) (d0 d1 id : ℕ) (flags : List ℕ) (acc : List Access) (n : Env)
    (u : Block) (i : MemInputs) (q : Request) (k m : Env) (later : Block)
    → Free n u
    → r < 32
    → base % 4096 ≡ 0
    → base + 4096 ≤ 2 ^ 32
    → i.addr ≡ base + 0x380
    → Stores i 0 (visible regs r)
    → later.regs.dmcontrol.dmactive ≡ true
    → length later.regs.words ≡ 2
    → i.words ≡ later.regs.words
    → k.data_valid ≡ (data_out i).1
    → k.data_in ≡ (data_out i).0
    → m.queue_full ≡ false
    → let v = block_edge (writing 0x17 (read_word r)) n u in
      (v.errors.cmd_valid ≡ true)
      × Finished
          (abstract_cmd true (decoded v.regs.command))
          base
          (at 0x338 regs d0 d1 id flags acc)
          id
          flags
          (stored i.addr i.wdata ∷ acc)
          regs
      × ((block_outputs (reading 0x04) m (block_edge q k later)).dmi_data ≡ visible regs r)
block_edge-register r base regs d0 d1 id flags acc n u i q k m later f lt al ad addr s act len same
      valid given room =
    let (put, starts) = command_written (read_word r) n u f in
    (
      starts,
      rw (put, addr, s.word) (transfer_read base al ad regs d0 d1 id acc r flags lt),
      block_edge-stored i 0 0 (visible regs r) q k m later s (omega arith) act len same valid given
          room,
    )

command_keeps :
    (i : Inputs) (s : Regs) (w : ℕ)
    → i.op ≡ write_op command w
    → s.dmcontrol.dmactive ≡ true
    → i.data_valid ≡ false
    → (tick i s).words ≡ s.words
unfolding tick
command_keeps i s w o act quiet = ground arith

pub words_kept :
    (w : ℕ) (n : Env) (u : Block)
    → Free n u
    → n.data_valid ≡ false
    → (block_edge (writing 0x17 w) n u).regs.words ≡ u.regs.words
unfolding block_edge
words_kept w n u f quiet =
    command_keeps (to_csrs (writing 0x17 w) n u) u.regs w (command_op w n u f.room) f.active quiet

-- A register write. The debugger, which has put a word in the first data word, writes `command`
-- while no command runs: the command starts at the next edge, and the program that the ROM shows for
-- it takes the hart, in ten instructions, back to the debug ROM with one load, of the data word as
-- the module shows it. The register then holds the debugger's word, and the others are as before.
pub block_edge-bank_edge :
    (r base : ℕ) (regs : ℕ → ℕ) (d0 d1 id : ℕ) (rest : List ℕ) (acc : List Access) (n : Env)
    (u : Block) (i : MemInputs) (q : Bank)
    → Free n u
    → n.data_valid ≡ false
    → r < 32
    → base % 4096 ≡ 0
    → base + 4096 ≤ 2 ^ 32
    → Reading i
    → i.addr ≡ base + 0x380
    → i.words ≡ (block_edge (writing 0x17 (write_word r)) n u).regs.words
    → let v = block_edge (writing 0x17 (write_word r)) n u in
      (v.errors.cmd_valid ≡ true)
      × Finished
          (abstract_cmd true (decoded v.regs.command))
          base
          (at 0x338 regs d0 d1 id (rdata_o (bank_edge i q) ∷ rest) acc)
          id
          rest
          (loaded i.addr ∷ acc)
          (set_reg r (get_or u.regs.words 0 0 % 2 ^ 32) regs)
block_edge-bank_edge r base regs d0 d1 id rest acc n u i q f quiet lt al ad reads addr same =
    let (put, starts) = command_written (write_word r) n u f in
    let there : low_addr i ≡ 0x380 = omega (arith, addr, al) in
    let shown : rdata_o (bank_edge i q) ≡ get_or u.regs.words 0 0 =
      bank_edge-arrays i q reads (rw there refl)
      ∙ rw there (ap (λ l. get_or l 0 0) (same ∙ words_kept (write_word r) n u f quiet)) in
    (
      starts,
      rw (put, shown, addr)
          (transfer_write base al ad regs d0 d1 id acc r (get_or u.regs.words 0 0) rest lt),
    )

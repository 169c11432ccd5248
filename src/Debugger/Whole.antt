-- ===== src/Debugger/Whole.antt =====
-- Whole register transfers in the debug module (rtl/DM_top.sv): from the debugger's write of
-- `command` over the hart's accesses, in the order of its program, to the module at rest again.
use jtag_debug_module_for_ri.Common.{
  ℕ, ◌+◌, ◌*◌, ◌%◌, ◌^◌, ◌<◌, ◌≤◌, ◌≡◌, refl, Bool, true, false, not, List, ◌∷◌, some, ◌&&◌, arith,
  length, get_or,
}
use jtag_debug_module_for_ri.Common.Pairs.{try_below, try_below_lem}
use jtag_debug_module_for_ri.DebugRom.Decode.{jal, decode}
use jtag_debug_module_for_ri.DebugRom.Hart.{Access, stored, loaded, visible, set_reg}
use jtag_debug_module_for_ri.DebugRom.Runs.{at}
use jtag_debug_module_for_ri.AbstractCmd.{decoded, abstract_cmd, unsupported_command}
use jtag_debug_module_for_ri.AbstractCmd.Transfer.{
  Finished, read_word, write_word, transfer_read, transfer_write,
}
use jtag_debug_module_for_ri.HartControl.{st_idle, st_exec}
use jtag_debug_module_for_ri.Registers.Store.{reading}
use jtag_debug_module_for_ri.Debugger.Commands.{Resting}
use jtag_debug_module_for_ri.Debugger.Chip.{Chip, Slave, Outside, chip_outputs, slave_rdata}
use jtag_debug_module_for_ri.Debugger.Steps.{Step}
use jtag_debug_module_for_ri.Debugger.Schedule.{
  Schedule, Says, IsSchedule, IsEnd, edge_at, told_to_go, at_work, finished, back_edge,
  told_to_go-Holds, at_work-Holds, finished-Holds,
}
use jtag_debug_module_for_ri.Debugger.Shown.{
  ReadsAt, word_read, fetched, loaded_word, polled_flags, jumps_there,
}

-- The commands of the transfers are supported, and transfer.
simple : ℕ → Bool
simple w = not (unsupported_command (decoded w)) && (decoded w).transfer

simple_all :
    (try_below (λ r. simple (read_word r)) 32 ≡ true)
    × (try_below (λ r. simple (write_word r)) 32 ≡ true)
unfolding try_below simple unsupported_command decoded
simple_all = (refl, refl)

read_simple : (r : ℕ) → r < 32 → simple (read_word r) ≡ true
read_simple r h = try_below_lem (λ n. simple (read_word n)) 32 simple_all.0 r h

write_simple : (r : ℕ) → r < 32 → simple (write_word r) ≡ true
write_simple r h = try_below_lem (λ n. simple (write_word n)) 32 simple_all.1 r h

simple-supported : (w : ℕ) → simple w ≡ true → unsupported_command (decoded w) ≡ false
unfolding simple
simple-supported w h = ground arith

simple-transfer : (w : ℕ) → simple w ≡ true → (decoded w).transfer ≡ true
unfolding simple
simple-transfer w h = ground arith

-- A whole register read. The debugger writes `command` on a module at rest and waits. From then on,
-- whatever else the hart reads, its byte of flags tells it to go; once it has said that it goes, it
-- finds a jump to the program of the command, and reads that program word by word; it takes the hart
-- in ten instructions back to the debug ROM, with its registers as before and one store, of the
-- register, to the first data word; and when that store and, after any other accesses that change
-- nothing, its word that it is back have been on the module's bus, the module is idle again with no
-- error, and the debugger's read of the first data word brings the register.
pub chip_register :
    (r base : ℕ) (regs : ℕ → ℕ) (d0 d1 id : ℕ) (flags : List ℕ) (acc : List Access) (s : Schedule)
    (polls jumps fetches : Step) (k : ℕ) (stores : Step) (more : List Step) (back : Step)
    (o : Outside) (x : Slave) (t : Chip)
    → r < 32
    → base % 4096 ≡ 0
    → base + 4096 ≤ 2 ^ 32
    → visible regs r < 2 ^ 32
    → Resting t.top
    → length t.top.block.regs.words ≡ 2
    → IsSchedule s base
    → ReadsAt polls.slave (base + 0x400)
    → ReadsAt jumps.slave (base + 0x300)
    → k < 10
    → ReadsAt fetches.slave (base + 0x338 + 4 * k)
    → IsEnd stores more back base (visible regs r)
    → o.queue_full ≡ false
    → let w = read_word r in
      let u = finished stores more back (at_work s w t) in
      (slave_rdata (edge_at polls (told_to_go s w t)) ≡ 1)
      × (decode (slave_rdata (edge_at jumps (at_work s w t))) ≡ some (jal 0 0x38))
      × (slave_rdata (edge_at fetches (at_work s w t)) ≡ get_or (abstract_cmd true (decoded w)) k 0)
      × Finished
          (abstract_cmd true (decoded w))
          base
          (at 0x338 regs d0 d1 id flags acc)
          id
          flags
          (stored (base + 0x380) (visible regs r) ∷ acc)
          regs
      × (u.top.control.state ≡ st_idle)
      × (u.top.block.errors.cmderr ≡ 0)
      × ((chip_outputs (reading 0x04) o x u).dmi_data ≡ visible regs r)
chip_register r base regs d0 d1 id flags acc s polls jumps fetches k stores more back o x t lt al ad
      fits rests len sched polling jumping small fetching ends room =
    let w : ℕ = read_word r in
    let fine = simple-supported w (read_simple r lt) in
    let told = told_to_go-Holds s w base t rests al sched fine in
    let works = at_work-Holds s w base t rests al sched fine in
    let done = finished-Holds w base _ _ stores more back _ al works ends fits in
    (
      polled_flags w _ polls base _ told al polling,
      jumps_there w _ jumps base _ (simple-transfer w (read_simple r lt)) works al jumping,
      fetched w _ st_exec fetches base k _ works al small fetching,
      transfer_read base al ad regs d0 d1 id acc r flags lt,
      done.state,
      done.no_error,
      word_read w _ t.top.block.regs.words o x _ done len room,
    )

-- A whole register write. The debugger, which has put a word in the first data word, writes
-- `command` on a module at rest and waits. As for a read the hart is told to go, finds the jump and
-- reads the program; a load of the data word brings the debugger's word; and with that load the
-- program takes the hart in ten instructions back to the debug ROM with the word in the register and
-- the others as before. When the hart has said that it is back, the module is idle again with no
-- error.
pub chip_register_write :
    (r base : ℕ) (regs : ℕ → ℕ) (d0 d1 id : ℕ) (rest : List ℕ) (acc : List Access) (s : Schedule)
    (polls jumps fetches : Step) (k : ℕ) (loads back : Step) (t : Chip)
    → r < 32
    → base % 4096 ≡ 0
    → base + 4096 ≤ 2 ^ 32
    → Resting t.top
    → IsSchedule s base
    → ReadsAt polls.slave (base + 0x400)
    → ReadsAt jumps.slave (base + 0x300)
    → k < 10
    → ReadsAt fetches.slave (base + 0x338 + 4 * k)
    → ReadsAt loads.slave (base + 0x380)
    → Says back (base + 0x100)
    → let w = write_word r in
      let shown = slave_rdata (edge_at loads (at_work s w t)) in
      let u = edge_at back (at_work s w t) in
      (slave_rdata (edge_at polls (told_to_go s w t)) ≡ 1)
      × (decode (slave_rdata (edge_at jumps (at_work s w t))) ≡ some (jal 0 0x38))
      × (slave_rdata (edge_at fetches (at_work s w t)) ≡ get_or (abstract_cmd true (decoded w)) k 0)
      × Finished
          (abstract_cmd true (decoded w))
          base
          (at 0x338 regs d0 d1 id (shown ∷ rest) acc)
          id
          rest
          (loaded (base + 0x380) ∷ acc)
          (set_reg r (get_or t.top.block.regs.words 0 0 % 2 ^ 32) regs)
      × (u.top.control.state ≡ st_idle)
      × (u.top.block.errors.cmderr ≡ 0)
chip_register_write r base regs d0 d1 id rest acc s polls jumps fetches k loads back t lt al ad
      rests sched polling jumping small fetching loading says =
    let w : ℕ = write_word r in
    let fine = simple-supported w (write_simple r lt) in
    let told = told_to_go-Holds s w base t rests al sched fine in
    let works = at_work-Holds s w base t rests al sched fine in
    let done = back_edge w _ back base _ al says works in
    let shown = loaded_word w _ st_exec loads base (at_work s w t) works al loading in
    (
      polled_flags w _ polls base _ told al polling,
      jumps_there w _ jumps base _ (simple-transfer w (write_simple r lt)) works al jumping,
      fetched w _ st_exec fetches base k _ works al small fetching,
      rw shown (
          transfer_write base al ad regs d0 d1 id acc r (get_or t.top.block.regs.words 0 0) rest
            lt),
      done.state,
      done.no_error,
    )

-- ===== src/HartControl/Dispatch.antt =====
-- The debug module's command machine (rtl/DM_ControlUnit2.sv) and the hart's program
-- (debug_rom/debug_rom.S) together.
use jtag_debug_module_for_ri.Common.{
  ℕ, ◌+◌, ◌*◌, ◌≡◌, refl, ◌∙◌, true, false, List, [], ◌∷◌, arith, length,
}
use jtag_debug_module_for_ri.HartControl.{
  st_go, st_exec, Access, write_at, read_at, Inputs, Control, strobe, going, outputs, step, flags,
}
use jtag_debug_module_for_ri.HartControl.Laws.{flags-outputs}
use jtag_debug_module_for_ri.HartControl.Commands.{strobe-rom}
use jtag_debug_module_for_ri.DebugRom.Hart
use jtag_debug_module_for_ri.DebugRom.Hart.{stored, loaded, resumed, visible, Mode}
use jtag_debug_module_for_ri.DebugRom.Runs.{at}
use jtag_debug_module_for_ri.DebugRom.ParkLoop.{
  go_flag, Rounds, AllIdle, flags_of, IsPlaced, announced, polled,
}
use jtag_debug_module_for_ri.DebugRom.Dispatch.{park-go}

-- A hart's access on the module's bus.
abbrev pub bus_of : Hart.Access → Access
bus_of (stored a v) = write_at a
bus_of (loaded a) = read_at a

go_shown :
    (i : Inputs) (c : Control) → c.state ≡ st_go → i.ndmreset ≡ false → (outputs i c).go ≡ true
unfolding outputs
go_shown i c s n = ground arith

go_leads :
    (i : Inputs) (c : Control)
    → c.state ≡ st_go
    → i.ndmreset ≡ false
    → going (strobe i.access) ≡ true
    → (step i c).state ≡ st_exec
unfolding step
go_leads i c s n g = ground arith

-- A hart that enters the ROM and polls its flags, after any number of idle rounds, where the module
-- has a command to run, reaches the abstract command with its registers restored, and its last
-- access, once it is on the bus, tells the module that the command runs.
pub go_dispatches :
    (base : ℕ) (orig : ℕ → ℕ) (placed : IsPlaced base 0) (r : Rounds) (d0 d1 : ℕ) (rest : List ℕ)
    (i said : Inputs) (c : Control)
    → AllIdle r
    → c.state ≡ st_go
    → i.ndmreset ≡ false
    → said.ndmreset ≡ false
    → said.access ≡ bus_of (stored (base + 0x108) 0)
    → (regs : ℕ → ℕ) × (Hart.steps true base
          (7 + 12 * length r + 10)
          (at 0x800 orig d0 d1 0 (flags_of r (flags i c ∷ rest)) [])
        ≡ at 0x300 regs
            (orig 8)
            (orig 10)
            0
            rest
            (stored (base + 0x108) 0 ∷ announced base 0 (polled base 0 r [])))
      × (visible regs ≡ visible orig)
      × ((step said c).state ≡ st_exec)
go_dispatches base orig placed r d0 d1 rest i said c idle s n m a =
    let set : go_flag (flags i c) ≡ true = (flags-outputs i c).0 ∙ go_shown i c s n in
    let (regs, ran, kept) = park-go base 0 orig placed r (flags i c) d0 d1 rest idle set in
    let heard : going (strobe said.access) ≡ true =
      rw (a, (strobe-rom base placed.aligned).1) refl in
    (regs, ran, kept, go_leads said c s m heard)

-- ===== src/AbstractCmd/Tests.antt =====
-- Abstract commands at concrete inputs.
use jtag_debug_module_for_ri.Common.{ℕ, ◌+◌, ◌≡◌, refl, true, false, [], ◌∷◌, arith}
use jtag_debug_module_for_ri.DebugRom.Hart.{trapped, loaded, stored, set_reg}
use jtag_debug_module_for_ri.DebugRom.Runs.{at}
use jtag_debug_module_for_ri.AbstractCmd.{decoded, abstract_cmd, unsupported_command, body}
use jtag_debug_module_for_ri.AbstractCmd.Run.{runs}
use jtag_debug_module_for_ri.AbstractCmd.Refusal.{refused_stops}
use jtag_debug_module_for_ri.AbstractCmd.Transfer.{
  Finished, write_word, read_word, transfer_write, transfer_read,
}

abbrev regs : ℕ → ℕ
regs r = 100 + r

transfer_write_once :
    Finished
      (abstract_cmd true (decoded (write_word 10)))
      0x1000
      (at 0x338 regs 1 2 0 (0xcafe ∷ []) [])
      0
      []
      (loaded 0x1380 ∷ [])
      (set_reg 10 0xcafe regs)
transfer_write_once =
    transfer_write 0x1000 refl (omega arith) regs 1 2 0 [] 10 0xcafe [] (omega arith)

transfer_read_once :
    Finished
      (abstract_cmd true (decoded (read_word 5)))
      0x1000
      (at 0x338 regs 1 2 0 [] [])
      0
      []
      (stored 0x1380 105 ∷ [])
      regs
transfer_read_once = transfer_read 0x1000 refl (omega arith) regs 1 2 0 [] 5 [] (omega arith)

-- Memory access is no command of this module.
memory_access : unsupported_command (decoded 0x0222_0000) ≡ true
unfolding unsupported_command decoded
memory_access = refl

-- A transfer with aarpostincrement is refused by the decoder, and the ROM shows its program all the same: the hart
-- that ran it would write the register.
postincrement_word :
    (unsupported_command (decoded 0x002b_1005) ≡ true)
    × ((body true (decoded 0x002b_1005)).lo2 ≡ (body true (decoded 0x0023_1005)).lo2)
unfolding unsupported_command decoded
postincrement_word = (refl, refl)

refused_stops_once :
    runs (abstract_cmd false (decoded 0x0222_0000)) 0 1 (at 0x338 regs 1 2 0 [] [])
    ≡ record (at 0x800 regs 1 2 0 [] []) { mode = trapped }
unfolding decoded
refused_stops_once = refused_stops false (decoded 0x0222_0000) 0 regs 1 2 0 [] [] memory_access refl

-- ===== src/DebugRom/Tests.antt =====
-- The theorems on the debug ROM at concrete inputs.
use jtag_debug_module_for_ri.Common.{
  ◌⊎◌, ℕ, some, bit_and, ◌+◌, ◌≡◌, refl, true, false, [], ◌∷◌, arith, length, ◌≢◌, ◌==◌,
  if◌then◌else◌,
}
use jtag_debug_module_for_ri.DebugRom.Csrs.{csr_dscratch, csr_name, csr_name-number}
use jtag_debug_module_for_ri.DebugRom.Encoding.{disassemble}
use jtag_debug_module_for_ri.DebugRom.Fields.{mstatus, fields_apart}
use jtag_debug_module_for_ri.DebugRom.Unique.{disassemble-fits}
use jtag_debug_module_for_ri.DebugRom.Rom.{rom, mem, pack, push_all, rom-mem}
use jtag_debug_module_for_ri.DebugRom.Assembly.{assembled, decode_all, rom-assembled}
use jtag_debug_module_for_ri.DebugRom.Hart.{
  stored, loaded, resumed, trapped, steps, visible, set_reg,
}
use jtag_debug_module_for_ri.DebugRom.Runs.{at}
use jtag_debug_module_for_ri.DebugRom.ParkLoop.{Rounds, IsPlaced, announced, polled}
use jtag_debug_module_for_ri.DebugRom.Dispatch.{park-go, park-resume, exception-restores}
use jtag_debug_module_for_ri.DebugRom.OneScratch.{
  park-go_one_scratch, park-resume_one_scratch, exception-restores_one_scratch,
}
use jtag_debug_module_for_ri.DebugRom.Macros.{
  Word, Csrs, AllFalse, bits_and, bits_and_not, read_csr, write_csr, set_csr, clear_csr,
  set_csr-clear_csr,
}

-- The park loop's jump.
disassemble-fits_example : disassemble 0xfd5ff06f ≡ some "jal"
disassemble-fits_example = disassemble-fits 0xfd5ff06f 7 refl refl refl

dscratch1_named : (csr_name 0x7b3 ≡ some "dscratch1") ⊎ (◌≡◌ {A = ℕ} 0x7b3 csr_dscratch)
dscratch1_named = csr_name-number 85 refl

fields_apart_once : (◌≡◌ {A = ℕ} 0 1) ⊎ (bit_and (bit_and 0xff 1) 2 ≡ 0)
fields_apart_once = fields_apart mstatus true 0 1 0xff refl refl

rom-mem_once : (length (rom true) ≡ 40) × (push_all (mem true) [] ≡ pack (rom true))
rom-mem_once = rom-mem true

rom-assembled_example : decode_all (rom false) ≡ assembled false
rom-assembled_example = rom-assembled false

abbrev base : ℕ
base = 0x1a11_0000

placed : IsPlaced base 3
placed = omega arith

abbrev regs : ℕ → ℕ
regs r = 100 + r

abbrev once : Rounds
once = (0, 0) ∷ []

park-go_example :
    (regs' : ℕ → ℕ) × (steps true base 29 (at 0x800 regs 0 0 3 (0 ∷ 0 ∷ 1 ∷ []) [])
      ≡ at 0x300 regs' 108 110 3 []
          (stored (base + 0x108) 0 ∷ announced base 3 (polled base 3 once [])))
    × (visible regs' ≡ visible regs)
park-go_example = park-go base 3 regs placed once 1 0 0 [] (refl, refl, tt) refl

park-resume_example :
    (regs' : ℕ → ℕ) × (steps true base 36 (at 0x800 regs 0 0 3 (0 ∷ 0 ∷ 0 ∷ 2 ∷ []) [])
      ≡ record (at 0x89c regs' 108 110 3 [] (
          stored (base + 0x110) 3
          ∷ loaded (base + 0x400 + 3)
          ∷ announced base 3 (polled base 3 once []))) { mode = resumed })
    × (visible regs' ≡ visible regs)
park-resume_example = park-resume base 3 regs placed once 0 2 0 0 [] (refl, refl, tt) refl refl

exception-restores_once :
    (regs' : ℕ → ℕ) × (steps true base 8 (at 0x810 regs 8 10 3 [] [])
      ≡ record (at 0x800 regs' 8 10 3 [] (stored (base + 0x118) 0 ∷ [])) { mode = trapped })
    × (visible regs' ≡ visible (set_reg 8 8 (set_reg 10 10 regs)))
exception-restores_once = exception-restores base 3 regs 8 10 [] [] placed

park-go_one_scratch_example :
    (regs' : ℕ → ℕ) × (steps false base 21 (at 0x800 regs 0 7 3 (0 ∷ 0 ∷ 1 ∷ []) [])
      ≡ at 0x300 regs' 108 7 3 [] (stored 0x108 0 ∷ announced 0 3 (polled 0 3 once [])))
    × (visible regs' ≡ visible regs)
park-go_one_scratch_example =
    park-go_one_scratch base 3 regs 7 (omega arith) once 1 0 [] (refl, refl, tt) refl

park-resume_one_scratch_once :
    (regs' : ℕ → ℕ) × (steps false base 27 (at 0x800 regs 0 7 3 (0 ∷ 0 ∷ 0 ∷ 2 ∷ []) [])
      ≡ record (at 0x86c regs' 108 7 3 []
          (stored 0x110 3 ∷ loaded (0x400 + 3) ∷ announced 0 3 (polled 0 3 once []))) {
            mode = resumed;
          })
    × (visible regs' ≡ visible regs)
park-resume_one_scratch_once =
    park-resume_one_scratch base 3 regs 7 (omega arith) once 0 2 0 [] (refl, refl, tt) refl refl

exception-restores_one_scratch_once :
    (regs' : ℕ → ℕ) × (steps false base 4 (at 0x810 regs 8 10 3 [] [])
      ≡ record (at 0x800 regs' 8 10 3 [] (stored 0x118 0 ∷ [])) { mode = trapped })
    × (visible regs' ≡ visible (set_reg 8 8 regs))
exception-restores_one_scratch_once = exception-restores_one_scratch base 3 regs 8 10 [] []

-- A register whose other bits the section leaves, and one that it writes.
abbrev file : Csrs
file r = if r == 0x300 then true ∷ true ∷ false ∷ [] else []

abbrev in_section : Csrs
in_section r = if r == 0x300 then true ∷ false ∷ false ∷ [] else true ∷ []

set_csr-clear_csr_once :
    let mask : Word = false ∷ true ∷ true ∷ [] in
    let (old, inside) = clear_csr 0x300 mask file in
    (old ≡ true ∷ true ∷ false ∷ [])
    × AllFalse (bits_and (read_csr 0x300 inside) mask)
    × (bits_and_not (read_csr 0x300 inside) mask ≡ true ∷ false ∷ false ∷ [])
    × ((r : ℕ) → r ≢ 0x300 → read_csr r inside ≡ file r)
    × ((set_csr 0x300 (bits_and old mask) in_section).1
        ≡ write_csr 0x300 (true ∷ true ∷ false ∷ []) in_section)
set_csr-clear_csr_once =
    set_csr-clear_csr 0x300 (false ∷ true ∷ true ∷ []) file in_section refl
      (unfold clear_csr in refl)

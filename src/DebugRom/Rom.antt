-- ===== src/DebugRom/Rom.antt =====
-- The images of the debug ROM: debug_rom/debug_rom.h and debug_rom/debug_rom_one_scratch.h, and the
-- same as 64-bit words in debug_rom/debug_rom.sv and debug_rom/debug_rom_one_scratch.sv.
use jtag_debug_module_for_ri.Common.{
  ℕ, ◌+◌, ◌*◌, ◌^◌, ◌≡◌, refl, Bool, true, false, List, [], ◌∷◌, length,
}

-- `reset_vec` of debug_rom.h
abbrev two_scratch_words : List ℕ
two_scratch_words =
    0x0180006f ∷ 0x00000013 ∷ 0x0840006f ∷ 0x00000013 ∷ 0x0500006f ∷ 0x00000013 ∷ 0x0ff0000f
    ∷ 0x7b241073 ∷ 0x7b351073 ∷ 0x00000517 ∷ 0x00c55513 ∷ 0x00c51513 ∷ 0xf1402473 ∷ 0x10852023
    ∷ 0x00a40433 ∷ 0x40044403 ∷ 0x00147413 ∷ 0x02041c63 ∷ 0xf1402473 ∷ 0x00a40433 ∷ 0x40044403
    ∷ 0x00247413 ∷ 0xfa0418e3 ∷ 0xfd5ff06f ∷ 0x00000517 ∷ 0x00c55513 ∷ 0x00c51513 ∷ 0x10052c23
    ∷ 0x7b302573 ∷ 0x7b202473 ∷ 0x00100073 ∷ 0x10052423 ∷ 0x7b302573 ∷ 0x7b202473 ∷ 0xa79ff06f
    ∷ 0xf1402473 ∷ 0x10852823 ∷ 0x7b302573 ∷ 0x7b202473 ∷ 0x7b200073 ∷ []

-- `reset_vec` of debug_rom_one_scratch.h
abbrev one_scratch_words : List ℕ
one_scratch_words =
    0x0180006f ∷ 0x00000013 ∷ 0x0580006f ∷ 0x00000013 ∷ 0x0380006f ∷ 0x00000013 ∷ 0x0ff0000f
    ∷ 0x7b241073 ∷ 0xf1402473 ∷ 0x10802023 ∷ 0x40044403 ∷ 0x00147413 ∷ 0x02041263 ∷ 0xf1402473
    ∷ 0x40044403 ∷ 0x00247413 ∷ 0xfc0414e3 ∷ 0xfddff06f ∷ 0x10002c23 ∷ 0x7b202473 ∷ 0x00100073
    ∷ 0x10002423 ∷ 0x7b202473 ∷ 0xaa5ff06f ∷ 0xf1402473 ∷ 0x10802823 ∷ 0x7b202473 ∷ 0x7b200073 ∷ []

-- `mem` of debug_rom.sv, the highest word first
abbrev two_scratch_mem : List ℕ
two_scratch_mem =
    0x7b200073_7b202473 ∷ 0x7b302573_10852823 ∷ 0xf1402473_a79ff06f ∷ 0x7b202473_7b302573
    ∷ 0x10052423_00100073 ∷ 0x7b202473_7b302573 ∷ 0x10052c23_00c51513 ∷ 0x00c55513_00000517
    ∷ 0xfd5ff06f_fa0418e3 ∷ 0x00247413_40044403 ∷ 0x00a40433_f1402473 ∷ 0x02041c63_00147413
    ∷ 0x40044403_00a40433 ∷ 0x10852023_f1402473 ∷ 0x00c51513_00c55513 ∷ 0x00000517_7b351073
    ∷ 0x7b241073_0ff0000f ∷ 0x00000013_0500006f ∷ 0x00000013_0840006f ∷ 0x00000013_0180006f ∷ []

-- `mem` of debug_rom_one_scratch.sv, the highest word first
abbrev one_scratch_mem : List ℕ
one_scratch_mem =
    0x7b200073_7b202473 ∷ 0x10802823_f1402473 ∷ 0xaa5ff06f_7b202473 ∷ 0x10002423_00100073
    ∷ 0x7b202473_10002c23 ∷ 0xfddff06f_fc0414e3 ∷ 0x00247413_40044403 ∷ 0xf1402473_02041263
    ∷ 0x00147413_40044403 ∷ 0x10802023_f1402473 ∷ 0x7b241073_0ff0000f ∷ 0x00000013_0380006f
    ∷ 0x00000013_0580006f ∷ 0x00000013_0180006f ∷ []

-- The two builds, with and without a second scratch register.
unfoldable pub rom : Bool → List ℕ
rom true = two_scratch_words
rom false = one_scratch_words

unfoldable pub mem : Bool → List ℕ
mem true = two_scratch_mem
mem false = one_scratch_mem

abbrev pub reset_vec_size : Bool → ℕ
reset_vec_size true = 40
reset_vec_size false = 28

-- Each 64-bit word holds two instructions, the earlier one in its low half.
unfoldable pub pack : List ℕ → List ℕ
pack [] = []
pack (a ∷ []) = a ∷ []
pack (a ∷ b ∷ l) = (a + b * 2 ^ 32) ∷ pack l

abbrev pub push_all : List ℕ → List ℕ → List ℕ
push_all [] acc = acc
push_all (x ∷ l) acc = push_all l (x ∷ acc)

-- In both builds the C array has as many words as it says, and the ROM of the hardware holds the
-- same words, two to a line.
pub rom-mem :
    (b : Bool) → (length (rom b) ≡ reset_vec_size b) × (push_all (mem b) [] ≡ pack (rom b))
unfolding rom mem pack
rom-mem true = (refl, refl)
rom-mem false = (refl, refl)

-- ===== src/DebugRom/Runs.antt =====
-- The straight runs of the debug ROM with a second scratch register (debug_rom/debug_rom.h).
use jtag_debug_module_for_ri.Common.{
  ℕ, ◌+◌, ◌*◌, ◌/◌, ◌%◌, ◌^◌, ◌≡◌, refl, true, List, ◌∷◌, arith, bit_and, ◌==◌, if◌then◌else◌, ◌≢◌,
}
use jtag_debug_module_for_ri.DebugRom.Hart.{
  Hart, Access, stored, loaded, parked, resumed, trapped, step, steps, to_u32,
}

-- A parked hart, by its parts.
abbrev pub at : ℕ → (ℕ → ℕ) → ℕ → ℕ → ℕ → List ℕ → List Access → Hart
at pc regs d0 d1 id flags acc = record {
  mode = parked;
  pc = pc;
  regs = regs;
  dscratch0 = d0;
  dscratch1 = d1;
  mhartid = id;
  flags = flags;
  accesses = acc;
}

-- The straight runs of the program, each up to the next branch or join.
module _ (base : ℕ) (regs : ℕ → ℕ) (d0 d1 id : ℕ) (acc : List Access) where
  pub enter_run :
      (flags : List ℕ)
      → let h = steps true base 7 (at 0x800 regs d0 d1 id flags acc) in
        (h ≡ at 0x830 h.regs (regs 8) (regs 10) id flags acc)
        × (h.regs 10 ≡ to_u32 (to_u32 (base + 0x824 + 0) / 4096 * 4096))
        × ((r : ℕ) → r ≢ 0 → r ≢ 10 → h.regs r ≡ regs r)
  unfolding steps step
  enter_run flags = (refl, refl, λ r z n. ground arith)

  pub poll_run :
      (f : ℕ) (rest : List ℕ)
      → let h = steps true base 6 (at 0x830 regs d0 d1 id (f ∷ rest) acc) in
        (h
          ≡ at (to_u32 (if bit_and (f % 256) 1 == 0 then 0x848 else 0x87c)) h.regs d0 d1 id rest (
              loaded (to_u32 (to_u32 (id + regs 10) + 0x400))
              ∷ stored (to_u32 (regs 10 + 0x100)) id
              ∷ acc))
        × ((r : ℕ) → r ≢ 8 → h.regs r ≡ regs r)
  unfolding steps step
  poll_run f rest = (refl, λ r n. ground arith)

  pub poll_again_run :
      (g : ℕ) (rest : List ℕ)
      → let h = steps true base 5 (at 0x848 regs d0 d1 id (g ∷ rest) acc) in
        (h
          ≡ at
              (to_u32 (if bit_and (g % 256) 2 == 0 then 0x85c else 0x808 + 2 ^ 32))
              h.regs
              d0
              d1
              id
              rest
              (loaded (to_u32 (to_u32 (id + regs 10) + 0x400)) ∷ acc))
        × ((r : ℕ) → r ≢ 8 → h.regs r ≡ regs r)
  unfolding steps step
  poll_again_run g rest = (refl, λ r n. ground arith)

  -- `set_reg 0` stands for the link register of a plain jump.
  pub loop_run :
      (flags : List ℕ)
      → let h = steps true base 1 (at 0x85c regs d0 d1 id flags acc) in
        (h ≡ at 0x830 h.regs d0 d1 id flags acc) × ((r : ℕ) → r ≢ 0 → h.regs r ≡ regs r)
  unfolding steps step
  loop_run flags = (refl, λ r n. ground arith)

  pub go_run :
      (flags : List ℕ)
      → let h = steps true base 4 (at 0x87c regs d0 d1 id flags acc) in
        (h ≡ at 0x300 h.regs d0 d1 id flags (stored (to_u32 (regs 10 + 0x108)) 0 ∷ acc))
        × (h.regs 8 ≡ d0)
        × (h.regs 10 ≡ d1)
        × ((r : ℕ) → r ≢ 0 → r ≢ 8 → r ≢ 10 → h.regs r ≡ regs r)
  unfolding steps step
  go_run flags = (refl, refl, refl, λ r z n m. ground arith)

  pub resume_run :
      (flags : List ℕ)
      → let h = steps true base 6 (at 0x808 regs d0 d1 id flags acc) in
        (h ≡ record (at 0x89c h.regs d0 d1 id flags (stored (to_u32 (regs 10 + 0x110)) id ∷ acc)) {
          mode = resumed;
        })
        × (h.regs 8 ≡ d0)
        × (h.regs 10 ≡ d1)
        × ((r : ℕ) → r ≢ 0 → r ≢ 8 → r ≢ 10 → h.regs r ≡ regs r)
  unfolding steps step
  resume_run flags = (refl, refl, refl, λ r z n m. ground arith)

  pub except_run :
      (flags : List ℕ)
      → let h = steps true base 8 (at 0x810 regs d0 d1 id flags acc) in
        (h
          ≡ record (at 0x800 h.regs d0 d1 id flags (
              stored (to_u32 (to_u32 (to_u32 (base + 0x860 + 0) / 4096 * 4096) + 0x118)) 0 ∷ acc)) {
                mode = trapped;
              })
        × (h.regs 8 ≡ d0)
        × (h.regs 10 ≡ d1)
        × ((r : ℕ) → r ≢ 0 → r ≢ 8 → r ≢ 10 → h.regs r ≡ regs r)
  unfolding steps step
  except_run flags = (refl, refl, refl, λ r z n m. ground arith)

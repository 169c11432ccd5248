-- ===== src/DebugRom/OneScratch.antt =====
-- The debug ROM with one scratch register (debug_rom/debug_rom_one_scratch.h): its straight runs,
-- its loop and the ways out. Its loads and stores take their addresses from register 0, so that it
-- serves a debug module at address 0.
use jtag_debug_module_for_ri.Common.{
  ℕ, suc, ◌+◌, ◌*◌, ◌%◌, ◌^◌, ◌<◌, ◌≡◌, refl, ◌∙◌, false, List, [], ◌∷◌, arith, bit_and, ◌==◌,
  if◌then◌else◌, ◌≢◌, length, true,
}
use jtag_debug_module_for_ri.DebugRom.Hart.{
  Hart, Access, stored, loaded, resumed, trapped, step, steps, to_u32, visible, set_reg,
}
use jtag_debug_module_for_ri.DebugRom.Runs.{at}
use jtag_debug_module_for_ri.DebugRom.ParkLoop.{
  steps-add, go_flag, resume_flag, Rounds, AllIdle, flags_of, announced, polled,
}
use jtag_debug_module_for_ri.DebugRom.Dispatch.{visible_eq}

-- The straight runs, each up to the next branch or join.
module _ (base : ℕ) (regs : ℕ → ℕ) (d0 d1 id : ℕ) (acc : List Access) where
  enter_run :
      (flags : List ℕ)
      → let h = steps false base 3 (at 0x800 regs d0 d1 id flags acc) in
        (h ≡ at 0x820 h.regs (regs 8) d1 id flags acc) × ((r : ℕ) → r ≢ 0 → h.regs r ≡ regs r)
  unfolding steps step
  enter_run flags = (refl, λ r z. ground arith)

  poll_run :
      (f : ℕ) (rest : List ℕ)
      → let h = steps false base 5 (at 0x820 regs d0 d1 id (f ∷ rest) acc) in
        (h
          ≡ at
              (to_u32 (if bit_and (f % 256) 1 == 0 then 0x834 else 0x854))
              h.regs
              d0
              d1
              id
              rest
              (loaded (to_u32 (id + 0x400)) ∷ stored 0x100 id ∷ acc))
        × ((r : ℕ) → r ≢ 8 → h.regs r ≡ regs r)
  unfolding steps step
  poll_run f rest = (refl, λ r n. ground arith)

  poll_again_run :
      (g : ℕ) (rest : List ℕ)
      → let h = steps false base 4 (at 0x834 regs d0 d1 id (g ∷ rest) acc) in
        (h
          ≡ at
              (to_u32 (if bit_and (g % 256) 2 == 0 then 0x844 else 0x808 + 2 ^ 32))
              h.regs
              d0
              d1
              id
              rest
              (loaded (to_u32 (id + 0x400)) ∷ acc))
        × ((r : ℕ) → r ≢ 8 → h.regs r ≡ regs r)
  unfolding steps step
  poll_again_run g rest = (refl, λ r n. ground arith)

  loop_run :
      (flags : List ℕ)
      → let h = steps false base 1 (at 0x844 regs d0 d1 id flags acc) in
        (h ≡ at 0x820 h.regs d0 d1 id flags acc) × ((r : ℕ) → r ≢ 0 → h.regs r ≡ regs r)
  unfolding steps step
  loop_run flags = (refl, λ r n. ground arith)

  go_run :
      (flags : List ℕ)
      → let h = steps false base 3 (at 0x854 regs d0 d1 id flags acc) in
        (h ≡ at 0x300 h.regs d0 d1 id flags (stored 0x108 0 ∷ acc))
        × (h.regs 8 ≡ d0)
        × ((r : ℕ) → r ≢ 0 → r ≢ 8 → h.regs r ≡ regs r)
  unfolding steps step
  go_run flags = (refl, refl, λ r z n. ground arith)

  resume_run :
      (flags : List ℕ)
      → let h = steps false base 5 (at 0x808 regs d0 d1 id flags acc) in
        (h ≡ record (at 0x86c h.regs d0 d1 id flags (stored 0x110 id ∷ acc)) { mode = resumed })
        × (h.regs 8 ≡ d0)
        × ((r : ℕ) → r ≢ 0 → r ≢ 8 → h.regs r ≡ regs r)
  unfolding steps step
  resume_run flags = (refl, refl, λ r z n. ground arith)

  except_run :
      (flags : List ℕ)
      → let h = steps false base 4 (at 0x810 regs d0 d1 id flags acc) in
        (h ≡ record (at 0x800 h.regs d0 d1 id flags (stored 0x118 0 ∷ acc)) { mode = trapped })
        × (h.regs 8 ≡ d0)
        × ((r : ℕ) → r ≢ 0 → r ≢ 8 → h.regs r ≡ regs r)
  unfolding steps step
  except_run flags = (refl, refl, λ r z n. ground arith)

module _ (base id : ℕ) (orig : ℕ → ℕ) (d1 : ℕ) (small : id < 1024) where
  -- All registers but s0 are as they were.
  abbrev OthersKept : (ℕ → ℕ) → Type 0
  OthersKept regs = (r : ℕ) → r ≢ 0 → r ≢ 8 → regs r ≡ orig r

  -- The hart at an instruction, with s0 saved in its scratch register.
  abbrev halted : ℕ → (ℕ → ℕ) → List ℕ → List Access → Hart
  halted pc regs flags acc = at pc regs (orig 8) d1 id flags acc

  flags_address : to_u32 (id + 0x400) ≡ 0x400 + id
  flags_address = omega (arith, small)

  poll :
      (regs : ℕ → ℕ) (f : ℕ) (rest : List ℕ) (acc : List Access)
      → OthersKept regs
      → (regs' : ℕ → ℕ) × (steps false base 5 (halted 0x820 regs (f ∷ rest) acc)
          ≡ halted (if go_flag f then 0x854 else 0x834) regs' rest (announced 0 id acc))
        × OthersKept regs'
  poll regs f rest acc inv =
      let (ran, kept) = poll_run base regs (orig 8) d1 id acc f rest in
      let there : to_u32 (if bit_and (f % 256) 1 == 0 then 0x834 else 0x854)
          ≡ (if go_flag f then 0x854 else 0x834) =
        ground arith in
      (_, ran ∙ rw (there, flags_address), λ r z e. kept r e ∙ inv r z e)

  poll_again :
      (regs : ℕ → ℕ) (g : ℕ) (rest : List ℕ) (acc : List Access)
      → OthersKept regs
      → (regs' : ℕ → ℕ) × (steps false base 4 (halted 0x834 regs (g ∷ rest) acc)
          ≡ halted (if resume_flag g then 0x808 else 0x844) regs' rest (loaded (0x400 + id) ∷ acc))
        × OthersKept regs'
  poll_again regs g rest acc inv =
      let (ran, kept) = poll_again_run base regs (orig 8) d1 id acc g rest in
      let there : to_u32 (if bit_and (g % 256) 2 == 0 then 0x844 else 0x808 + 2 ^ 32)
          ≡ (if resume_flag g then 0x808 else 0x844) =
        ground arith in
      (_, ran ∙ rw (there, flags_address), λ r z e. kept r e ∙ inv r z e)

  -- Rounds with neither flag set, and then the loop once more.
  idle_rounds :
      (r : Rounds) (regs : ℕ → ℕ) (rest : List ℕ) (acc : List Access)
      → AllIdle r
      → OthersKept regs
      → (regs' : ℕ → ℕ) × (steps false base
            (10 * length r)
            (halted 0x820 regs (flags_of r rest) acc)
          ≡ halted 0x820 regs' rest (polled 0 id r acc))
        × OthersKept regs'
  idle_rounds [] regs rest acc idle inv = (regs, unfold steps in refl, inv)
  idle_rounds ((f, g) ∷ r) regs rest acc idle inv =
      let (regs1, polled1, inv1) = poll regs f (g ∷ flags_of r rest) acc inv in
      let acc1 : List Access = announced 0 id acc in
      let (regs2, polled2, inv2) = poll_again regs1 g (flags_of r rest) acc1 inv1 in
      let acc2 : List Access = loaded (0x400 + id) ∷ acc1 in
      let (back, kept) = loop_run base regs2 (orig 8) d1 id acc2 (flags_of r rest) in
      let (regs4, more, inv4) = idle_rounds r _ rest acc2 idle.2 (λ n z e. kept n z ∙ inv2 n z e) in
      let count : 10 * suc (length r) ≡ 5 + (4 + (1 + 10 * length r)) = omega arith in
      (
        regs4,
        rw count (
            steps-add false base 5 (4 + (1 + 10 * length r)) _
            ∙ rw (polled1, idle.0)
                (steps-add false base 4 (1 + 10 * length r) _
                  ∙ rw (polled2, idle.1)
                      (steps-add false base 1 (10 * length r) _ ∙ rw back more))),
        inv4,
      )

  entered :
      (r : Rounds) (d0 : ℕ) (rest : List ℕ)
      → AllIdle r
      → (regs : ℕ → ℕ) × (steps false base
            (3 + 10 * length r)
            (at 0x800 orig d0 d1 id (flags_of r rest) [])
          ≡ halted 0x820 regs rest (polled 0 id r []))
        × OthersKept regs
  entered r d0 rest idle =
      let (began, kept) = enter_run base orig d0 d1 id [] (flags_of r rest) in
      let (regs, waited, inv) = idle_rounds r _ rest [] idle (λ n z e. kept n z) in
      (regs, steps-add false base 3 (10 * length r) _ ∙ rw began waited, inv)

  restored :
      {regs regs' : ℕ → ℕ}
      → OthersKept regs
      → regs' 8 ≡ orig 8
      → ((r : ℕ) → r ≢ 0 → r ≢ 8 → regs' r ≡ regs r)
      → visible regs' ≡ visible orig
  restored {regs} {regs'} inv e8 kept =
      let others : OthersKept regs' = λ r z s. kept r z s ∙ inv r z s in
      visible_eq regs' orig e8 (others 10 (omega arith) (omega arith)) (λ r z s t. others r z s)

  -- In the build with one scratch register, a hart that enters the ROM and finds its go flag set,
  -- after any number of rounds with neither flag set, is at the abstract command within 10
  -- instructions for each round and 11 more. Its registers are as they were when it was halted, and
  -- its second scratch register was not touched. Its accesses are those of the build with two, to a
  -- debug module at address 0.
  pub park-go_one_scratch :
      (r : Rounds) (f d0 : ℕ) (rest : List ℕ)
      → AllIdle r
      → go_flag f ≡ true
      → (regs : ℕ → ℕ) × (steps false base
            (3 + 10 * length r + 8)
            (at 0x800 orig d0 d1 id (flags_of r (f ∷ rest)) [])
          ≡ at 0x300 regs (orig 8) d1 id rest (stored 0x108 0 ∷ announced 0 id (polled 0 id r [])))
        × (visible regs ≡ visible orig)
  park-go_one_scratch r f d0 rest idle go =
      let acc : List Access = polled 0 id r [] in
      let (regs, waited, inv) = entered r d0 (f ∷ rest) idle in
      let (regs', seen, inv') = poll regs f rest acc inv in
      let (left, e8, kept) = go_run base regs' (orig 8) d1 id (announced 0 id acc) rest in
      (
        _,
        steps-add false base (3 + 10 * length r) 8 _
            ∙ rw waited (steps-add false base 5 3 _ ∙ rw (seen, go) left),
        restored inv' e8 kept,
      )

  -- In the build with one scratch register, a hart that finds its go flag clear and its resume flag
  -- set, after any number of rounds with neither flag set, resumes within 10 instructions for each
  -- round and 17 more, with its registers as they were when it was halted and its second scratch
  -- register not touched, and has told the debug module at address 0 its id on the way out.
  pub park-resume_one_scratch :
      (r : Rounds) (f g d0 : ℕ) (rest : List ℕ)
      → AllIdle r
      → go_flag f ≡ false
      → resume_flag g ≡ true
      → (regs : ℕ → ℕ) × (steps false base
            (3 + 10 * length r + 14)
            (at 0x800 orig d0 d1 id (flags_of r (f ∷ g ∷ rest)) [])
          ≡ record (at 0x86c regs
              (orig 8)
              d1
              id
              rest
              (stored 0x110 id ∷ loaded (0x400 + id) ∷ announced 0 id (polled 0 id r []))) {
                mode = resumed;
              })
        × (visible regs ≡ visible orig)
  park-resume_one_scratch r f g d0 rest idle no_go resume =
      let acc : List Access = polled 0 id r [] in
      let (regs, waited, inv) = entered r d0 (f ∷ g ∷ rest) idle in
      let (regs1, seen, inv1) = poll regs f (g ∷ rest) acc inv in
      let acc1 : List Access = announced 0 id acc in
      let (regs2, asked, inv2) = poll_again regs1 g rest acc1 inv1 in
      let (left, e8, kept) =
        resume_run base regs2 (orig 8) d1 id (loaded (0x400 + id) ∷ acc1) rest in
      (
        _,
        steps-add false base (3 + 10 * length r) 14 _
            ∙ rw waited (
                steps-add false base 5 9 _
                ∙ rw (seen, no_go) (steps-add false base 4 5 _ ∙ rw (asked, resume) left)),
        restored inv2 e8 kept,
      )

-- An exception in debug mode is told to the debug module at address 0, and leaves s0 as it was saved
-- and every other register alone: a0 too, which a program that uses it must restore by itself.
pub exception-restores_one_scratch :
    (base id : ℕ) (regs : ℕ → ℕ) (d0 d1 : ℕ) (flags : List ℕ) (acc : List Access)
    → (regs' : ℕ → ℕ) × (steps false base 4 (at 0x810 regs d0 d1 id flags acc)
        ≡ record (at 0x800 regs' d0 d1 id flags (stored 0x118 0 ∷ acc)) { mode = trapped })
      × (visible regs' ≡ visible (set_reg 8 d0 regs))
exception-restores_one_scratch base id regs d0 d1 flags acc =
    let (ran, e8, kept) = except_run base regs d0 d1 id acc flags in
    (
      _,
      ran,
      visible_eq _ _ e8 (kept 10 (omega arith) (omega arith))
          (λ r z s _. kept r z s ∙ ground (arith, z, s)),
    )

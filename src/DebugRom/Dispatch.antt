-- ===== src/DebugRom/Dispatch.antt =====
-- How a hart leaves the loop of the debug ROM with a second scratch register
-- (debug_rom/debug_rom.h): to the abstract command, to the resumption, or after an exception.
use jtag_debug_module_for_ri.Common.{
  ℕ, ◌+◌, ◌*◌, ◌/◌, ◌≡◌, ap, ◌∙◌, true, false, List, [], ◌∷◌, arith, ◌≢◌, length, ◌==◌,
  if◌then◌else◌,
}
use mathlib.Core.Path.{fun_ext}
use native.Mathlib.Decide.{ℕ_discrete}
use jtag_debug_module_for_ri.DebugRom.Hart.{
  Access, stored, loaded, resumed, trapped, steps, to_u32, visible, set_reg,
}
use jtag_debug_module_for_ri.DebugRom.Runs.{at, go_run, resume_run, except_run}
use jtag_debug_module_for_ri.DebugRom.ParkLoop.{
  steps-add, go_flag, resume_flag, Rounds, AllIdle, flags_of, IsPlaced, announced, polled, InLoop,
  halted, enter_InLoop, poll, poll_again, idle_rounds,
}

-- Registers that agree on s0, on a0 and on the others.
pub visible_eq :
    (regs regs' : ℕ → ℕ)
    → regs 8 ≡ regs' 8
    → regs 10 ≡ regs' 10
    → ((r : ℕ) → r ≢ 0 → r ≢ 8 → r ≢ 10 → regs r ≡ regs' r)
    → visible regs ≡ visible regs'
visible_eq regs regs' e8 e10 others = fun_ext λ r. elim (ℕ_discrete r 0) [
  | yes z ↦ rw z
  | no z ↦ elim (ℕ_discrete r 8) [
    | yes s ↦ rw s e8
    | no s ↦ elim (ℕ_discrete r 10) [
      | yes t ↦ rw t e10
      | no t ↦ ap (λ v. if r == 0 then 0 else v) (others r z s t)
    ]
  ]
]

module _ (base id : ℕ) (orig : ℕ → ℕ) (placed : IsPlaced base id) where
  restored :
      {regs regs' : ℕ → ℕ}
      → InLoop base id orig placed regs
      → regs' 8 ≡ orig 8
      → regs' 10 ≡ orig 10
      → ((r : ℕ) → r ≢ 0 → r ≢ 8 → r ≢ 10 → regs' r ≡ regs r)
      → visible regs' ≡ visible orig
  restored {regs} {regs'} inv e8 e10 kept =
      visible_eq regs' orig e8 e10 (λ r z s t. kept r z s t ∙ inv.others_kept r z s t)

  entered :
      (r : Rounds) (d0 d1 : ℕ) (rest : List ℕ)
      → AllIdle r
      → (regs : ℕ → ℕ) × (steps true base
            (7 + 12 * length r)
            (at 0x800 orig d0 d1 id (flags_of r rest) [])
          ≡ halted base id orig placed 0x830 regs rest (polled base id r []))
        × InLoop base id orig placed regs
  entered r d0 d1 rest idle =
      let (regs, began, inv) = enter_InLoop base id orig placed d0 d1 (flags_of r rest) in
      let (regs', waited, inv') = idle_rounds base id orig placed r regs rest [] idle inv in
      (regs', steps-add true base 7 (12 * length r) _ ∙ rw began waited, inv')

  -- A hart that enters the ROM and finds its go flag set, after any number of rounds with neither
  -- flag set, is at the abstract command within 12 instructions for each round and 17 more. Its
  -- registers are as they were when it was halted. It has told the debug module its id in every
  -- round, read its own byte of flags twice in a round and once at the end, and then said that it
  -- is going.
  pub park-go :
      (r : Rounds) (f d0 d1 : ℕ) (rest : List ℕ)
      → AllIdle r
      → go_flag f ≡ true
      → (regs : ℕ → ℕ) × (steps true base
            (7 + 12 * length r + 10)
            (at 0x800 orig d0 d1 id (flags_of r (f ∷ rest)) [])
          ≡ at 0x300 regs
              (orig 8)
              (orig 10)
              id
              rest
              (stored (base + 0x108) 0 ∷ announced base id (polled base id r [])))
        × (visible regs ≡ visible orig)
  park-go r f d0 d1 rest idle go =
      let acc : List Access = polled base id r [] in
      let (regs, waited, inv) = entered r d0 d1 (f ∷ rest) idle in
      let (regs', seen, inv') = poll base id orig placed regs f rest acc inv in
      let (left, e8, e10, kept) =
        go_run base regs' (orig 8) (orig 10) id (announced base id acc) rest in
      let said : to_u32 (regs' 10 + 0x108) ≡ base + 0x108 =
        omega (arith, inv'.base_known, placed) in
      (
        _,
        steps-add true base (7 + 12 * length r) 10 _
            ∙ rw waited (steps-add true base 6 4 _ ∙ rw (seen, go) (left ∙ rw said)),
        restored inv' e8 e10 kept,
      )

  -- A hart that finds its go flag clear and its resume flag set, after any number of rounds with
  -- neither flag set, resumes within 12 instructions for each round and 24 more, with its registers
  -- as they were when it was halted, and has told the debug module its id on the way out.
  pub park-resume :
      (r : Rounds) (f g d0 d1 : ℕ) (rest : List ℕ)
      → AllIdle r
      → go_flag f ≡ false
      → resume_flag g ≡ true
      → (regs : ℕ → ℕ) × (steps true base
            (7 + 12 * length r + 17)
            (at 0x800 orig d0 d1 id (flags_of r (f ∷ g ∷ rest)) [])
          ≡ record (at 0x89c regs (orig 8) (orig 10) id rest (
              stored (base + 0x110) id
              ∷ loaded (base + 0x400 + id)
              ∷ announced base id (polled base id r []))) { mode = resumed })
        × (visible regs ≡ visible orig)
  park-resume r f g d0 d1 rest idle no_go resume =
      let acc : List Access = polled base id r [] in
      let (regs, waited, inv) = entered r d0 d1 (f ∷ g ∷ rest) idle in
      let (regs1, seen, inv1) = poll base id orig placed regs f (g ∷ rest) acc inv in
      let acc1 : List Access = announced base id acc in
      let (regs2, asked, inv2) = poll_again base id orig placed regs1 g rest acc1 inv1 in
      let (left, e8, e10, kept) =
        resume_run base regs2 (orig 8) (orig 10) id (loaded (base + 0x400 + id) ∷ acc1) rest in
      let said : to_u32 (regs2 10 + 0x110) ≡ base + 0x110 =
        omega (arith, inv2.base_known, placed) in
      (
        _,
        steps-add true base (7 + 12 * length r) 17 _
            ∙ rw waited (
                steps-add true base 6 11 _
                ∙ rw (seen, no_go)
                    (steps-add true base 5 6 _ ∙ rw (asked, resume) (left ∙ rw said))),
        restored inv2 e8 e10 kept,
      )

-- An exception in debug mode, whatever s0 and a0 hold, is told to the debug module, and leaves
-- s0 and a0 as they were saved and every other register alone.
pub exception-restores :
    (base id : ℕ) (regs : ℕ → ℕ) (d0 d1 : ℕ) (flags : List ℕ) (acc : List Access)
    → IsPlaced base id
    → (regs' : ℕ → ℕ) × (steps true base 8 (at 0x810 regs d0 d1 id flags acc)
        ≡ record (at 0x800 regs' d0 d1 id flags (stored (base + 0x118) 0 ∷ acc)) { mode = trapped })
      × (visible regs' ≡ visible (set_reg 8 d0 (set_reg 10 d1 regs)))
exception-restores base id regs d0 d1 flags acc placed =
    let (ran, e8, e10, kept) = except_run base regs d0 d1 id acc flags in
    let said : to_u32 (to_u32 (to_u32 (base + 0x860 + 0) / 4096 * 4096) + 0x118) ≡ base + 0x118 =
      omega (arith, placed) in
    (_, ran ∙ rw said, visible_eq _ _ e8 e10 (λ r z s t. kept r z s t ∙ ground (arith, z, s, t)))

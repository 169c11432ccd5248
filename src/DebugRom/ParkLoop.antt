-- ===== src/DebugRom/ParkLoop.antt =====
-- The loop in which the debug ROM with a second scratch register (debug_rom/debug_rom.h) holds a
-- hart: entry, one poll of each flag, and any number of idle rounds.
use jtag_debug_module_for_ri.Common.{
  ℕ, zero, suc, ◌+◌, ◌*◌, ◌%◌, ◌^◌, ◌<◌, ◌≤◌, ◌≡◌, refl, ◌∙◌, Bool, true, false, List, [], ◌∷◌,
  arith, bit_and, ◌==◌, if◌then◌else◌, ◌≢◌, length,
}
use native.Mathlib.Nat.{zero-add, suc-add}
use jtag_debug_module_for_ri.DebugRom.Hart.{Hart, Access, stored, loaded, step, steps, to_u32}
use jtag_debug_module_for_ri.DebugRom.Runs.{at, enter_run, poll_run, poll_again_run, loop_run}

pub steps-add :
    (b : Bool) (base m n : ℕ) (h : Hart)
    → steps b base (m + n) h ≡ steps b base n (steps b base m h)
unfolding steps
steps-add b base zero n h = rw zero-add
steps-add b base (suc m) n h = rw suc-add (steps-add b base m n (step b base h))

-- The two flags of a hart's byte.
abbrev pub go_flag : ℕ → Bool
go_flag f = if bit_and (f % 256) 1 == 0 then false else true

abbrev pub resume_flag : ℕ → Bool
resume_flag f = if bit_and (f % 256) 2 == 0 then false else true

-- One round of the loop reads the byte twice, for the one flag and for the other.
abbrev pub Rounds : Type 0
Rounds = List (ℕ × ℕ)

abbrev pub AllIdle : Rounds → Type 0
AllIdle [] = Unit {0}
AllIdle ((f, g) ∷ r) = (go_flag f ≡ false) × (resume_flag g ≡ false) × AllIdle r

-- The script of flags that the rounds read, before `rest`.
abbrev pub flags_of : Rounds → List ℕ → List ℕ
flags_of [] rest = rest
flags_of ((f, g) ∷ r) rest = f ∷ g ∷ flags_of r rest

-- The debug module stands at the start of a page, and the hart's byte of flags in that page.
pub record IsPlaced (base id : ℕ) : Type 0 where
  pub aligned : base % 4096 ≡ 0
  pub addressable : base + 4096 ≤ 2 ^ 32
  pub has_flags : id < 1024

module _ (base id : ℕ) where
  abbrev pub announced : List Access → List Access
  announced acc = loaded (base + 0x400 + id) ∷ stored (base + 0x100) id ∷ acc

  -- What the idle rounds access, the newest first.
  abbrev pub polled : Rounds → List Access → List Access
  polled [] acc = acc
  polled (_ ∷ r) acc = polled r (loaded (base + 0x400 + id) ∷ announced acc)

module _ (base id : ℕ) (orig : ℕ → ℕ) (placed : IsPlaced base id) where
  -- In the loop register a0 holds the base, and all but s0 and a0 are as they were.
  pub record InLoop (regs : ℕ → ℕ) : Type 0 where
    pub base_known : regs 10 ≡ base
    pub others_kept : (r : ℕ) → r ≢ 0 → r ≢ 8 → r ≢ 10 → regs r ≡ orig r

  -- The hart at an instruction, with s0 and a0 saved in its scratch registers.
  abbrev pub halted : ℕ → (ℕ → ℕ) → List ℕ → List Access → Hart
  halted pc regs flags acc = at pc regs (orig 8) (orig 10) id flags acc

  flags_address : {a : ℕ} → a ≡ base → to_u32 (to_u32 (id + a) + 0x400) ≡ base + 0x400 + id
  flags_address e = omega arith

  pub enter_InLoop :
      (d0 d1 : ℕ) (flags : List ℕ)
      → (regs : ℕ → ℕ) × (steps true base 7 (at 0x800 orig d0 d1 id flags [])
          ≡ halted 0x830 regs flags [])
        × InLoop regs
  enter_InLoop d0 d1 flags =
      let (ran, base_reg, kept) = enter_run base orig d0 d1 id [] flags in
      (_, ran, record { base_known = base_reg ∙ omega arith; others_kept = λ r z e t. kept r z t })

  pub kept_InLoop :
      {regs regs' : ℕ → ℕ} → InLoop regs → ((r : ℕ) → r ≢ 8 → regs' r ≡ regs r) → InLoop regs'
  kept_InLoop inv kept = record {
    base_known = kept 10 (omega arith) ∙ inv.base_known;
    others_kept = λ r z e t. kept r e ∙ inv.others_kept r z e t;
  }

  pub poll :
      (regs : ℕ → ℕ) (f : ℕ) (rest : List ℕ) (acc : List Access)
      → InLoop regs
      → (regs' : ℕ → ℕ) × (steps true base 6 (halted 0x830 regs (f ∷ rest) acc)
          ≡ halted (if go_flag f then 0x87c else 0x848) regs' rest (announced base id acc))
        × InLoop regs'
  poll regs f rest acc inv =
      let (ran, kept) = poll_run base regs (orig 8) (orig 10) id acc f rest in
      let there : to_u32 (if bit_and (f % 256) 1 == 0 then 0x848 else 0x87c)
          ≡ (if go_flag f then 0x87c else 0x848) =
        ground arith in
      let said : to_u32 (regs 10 + 0x100) ≡ base + 0x100 = omega (arith, inv.base_known) in
      (_, ran ∙ rw (there, flags_address inv.base_known, said), kept_InLoop inv kept)

  pub poll_again :
      (regs : ℕ → ℕ) (g : ℕ) (rest : List ℕ) (acc : List Access)
      → InLoop regs
      → (regs' : ℕ → ℕ) × (steps true base 5 (halted 0x848 regs (g ∷ rest) acc)
          ≡ halted
              (if resume_flag g then 0x808 else 0x85c)
              regs'
              rest
              (loaded (base + 0x400 + id) ∷ acc))
        × InLoop regs'
  poll_again regs g rest acc inv =
      let (ran, kept) = poll_again_run base regs (orig 8) (orig 10) id acc g rest in
      let there : to_u32 (if bit_and (g % 256) 2 == 0 then 0x85c else 0x808 + 2 ^ 32)
          ≡ (if resume_flag g then 0x808 else 0x85c) =
        ground arith in
      (_, ran ∙ rw (there, flags_address inv.base_known), kept_InLoop inv kept)

  go_back :
      (regs : ℕ → ℕ) (flags : List ℕ) (acc : List Access)
      → InLoop regs
      → (regs' : ℕ → ℕ) × (steps true base 1 (halted 0x85c regs flags acc)
          ≡ halted 0x830 regs' flags acc)
        × InLoop regs'
  go_back regs flags acc inv =
      let (ran, kept) = loop_run base regs (orig 8) (orig 10) id acc flags in
      (
        _,
        ran,
        record {
          base_known = kept 10 (omega arith) ∙ inv.base_known;
          others_kept = λ r z e t. kept r z ∙ inv.others_kept r z e t;
        },
      )

  -- A round with neither flag set comes back to the loop.
  idle_round :
      (regs : ℕ → ℕ) (f g : ℕ) (rest : List ℕ) (acc : List Access)
      → InLoop regs
      → go_flag f ≡ false
      → resume_flag g ≡ false
      → (regs' : ℕ → ℕ) × (steps true base 12 (halted 0x830 regs (f ∷ g ∷ rest) acc)
          ≡ halted 0x830 regs' rest (loaded (base + 0x400 + id) ∷ announced base id acc))
        × InLoop regs'
  idle_round regs f g rest acc inv no_go no_resume =
      let (regs1, polled1, inv1) = poll regs f (g ∷ rest) acc inv in
      let (regs2, polled2, inv2) = poll_again regs1 g rest (announced base id acc) inv1 in
      let (regs3, back, inv3) =
        go_back regs2 rest (loaded (base + 0x400 + id) ∷ announced base id acc) inv2 in
      (
        regs3,
        steps-add true base 6 6 _
            ∙ rw (polled1, no_go) (steps-add true base 5 1 _ ∙ rw (polled2, no_resume) back),
        inv3,
      )

  -- Idle rounds, and then the loop once more.
  pub idle_rounds :
      (r : Rounds) (regs : ℕ → ℕ) (rest : List ℕ) (acc : List Access)
      → AllIdle r
      → InLoop regs
      → (regs' : ℕ → ℕ) × (steps true base (12 * length r) (halted 0x830 regs (flags_of r rest) acc)
          ≡ halted 0x830 regs' rest (polled base id r acc))
        × InLoop regs'
  idle_rounds [] regs rest acc idle inv = (regs, unfold steps in refl, inv)
  idle_rounds ((f, g) ∷ r) regs rest acc idle inv =
      let (regs1, once, inv1) = idle_round regs f g (flags_of r rest) acc inv idle.0 idle.1 in
      let (regs2, more, inv2) =
        idle_rounds r regs1 rest (loaded (base + 0x400 + id) ∷ announced base id acc) idle.2 inv1 in
      let count : 12 * suc (length r) ≡ 12 + 12 * length r = omega arith in
      (regs2, rw count (steps-add true base 12 (12 * length r) _ ∙ rw once more), inv2)

-- ===== src/HartControl/Resume.antt =====
-- A whole resume of rtl/DM_ControlUnit2.sv and rtl/DM_Mem.sv.
use jtag_debug_module_for_ri.Common.{
  ℕ, ◌+◌, ◌%◌, ◌≡◌, refl, ◌∙◌, ap, Bool, true, false, List, [], ◌∷◌, ◌++◌, arith,
}
use jtag_debug_module_for_ri.HartControl.{
  st_idle, st_res, Strobe, write_at, Inputs, Control, strobe, halting, leaving, step,
}
use jtag_debug_module_for_ri.HartControl.Commands.{
  steps, steps-append, IsCalm, AllBefore, AsksResume, IsReady, strobe-rom,
}

resume_starts :
    (i : Inputs) (c : Control)
    → IsCalm i
    → AsksResume i
    → IsReady c
    → c.resuming ≡ false
    → step i c ≡ record c { state = st_res }
unfolding step
resume_starts i c q a r n = ground arith

resume_waits :
    (i : Inputs) (c : Control)
    → IsCalm i
    → c.state ≡ st_res
    → c.halted ≡ true
    → c.resuming ≡ false
    → step i c ≡ c
unfolding step
resume_waits i c q s h n = ground arith

resume_said :
    (i : Inputs) (c : Control)
    → i.ndmreset ≡ false
    → i.clear_resumeack ≡ false
    → leaving (strobe i.access) ≡ true
    → c.state ≡ st_res
    → c.resuming ≡ false
    → step i c ≡ record { state = st_res; halted = false; resuming = true }
unfolding step
resume_said i c q a l s n = ground arith

resume_ends :
    (i : Inputs)
    → IsCalm i
    → halting (strobe i.access) ≡ false
    → step i (record { state = st_res; halted = false; resuming = true })
      ≡ record { state = st_idle; halted = false; resuming = true }
unfolding step
resume_ends i q n = ground arith

abbrev pub never : Strobe → Bool
never _ = false

steps-resume_waits :
    (is : List Inputs) (c : Control)
    → AllBefore never is
    → c.state ≡ st_res
    → c.halted ≡ true
    → c.resuming ≡ false
    → steps is c ≡ c
unfolding steps
steps-resume_waits [] c a s h n = refl
steps-resume_waits (i ∷ is) c a s h n =
    ap (steps is) (resume_waits i c a.0 s h n) ∙ steps-resume_waits is c a.2 s h n

-- A resume of a halted hart, once asked for, ends with the module idle, the hart not halted and
-- its acknowledgement up, whatever the hart accesses before it says that it resumes, by the store of
-- the ROM at `base`, and where it does not halt at once; the debugger neither resets the hart nor
-- clears the acknowledgement meanwhile.
pub resume_runs :
    (base : ℕ) (waits : List Inputs) (start leaves after : Inputs) (c : Control)
    → base % 4096 ≡ 0
    → IsReady c
    → c.resuming ≡ false
    → IsCalm start
    → AsksResume start
    → AllBefore never waits
    → leaves.ndmreset ≡ false
    → leaves.clear_resumeack ≡ false
    → leaves.access ≡ write_at (base + 0x110)
    → IsCalm after
    → halting (strobe after.access) ≡ false
    → steps (start ∷ (waits ++ (leaves ∷ (after ∷ [])))) c
      ≡ record { state = st_idle; halted = false; resuming = true }
unfolding steps
resume_runs base waits start leaves after c p r n qs a hw nr na la qa ha =
    let said : leaving (strobe leaves.access) ≡ true = rw (la, (strobe-rom base p).2) refl in
    let c1 : Control = record c { state = st_res } in
    ap (steps (waits ++ (leaves ∷ (after ∷ [])))) (resume_starts start c qs a r n)
    ∙ steps-append waits (leaves ∷ (after ∷ [])) c1
    ∙ ap (steps (leaves ∷ (after ∷ []))) (steps-resume_waits waits c1 hw refl r.is_halted n)
    ∙ ap (step after) (resume_said leaves c1 nr na said refl n)
    ∙ resume_ends after qa ha

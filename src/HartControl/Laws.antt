-- ===== src/HartControl/Laws.antt =====
-- What rtl/DM_ControlUnit2.sv shows to the hart and to the debugger at every edge.
use jtag_debug_module_for_ri.Common.{◌+◌, ◌≡◌, refl, Bool, true, false, ◌&&◌, arith, if◌then◌else◌}
use jtag_debug_module_for_ri.HartControl.{
  State, st_idle, st_go, st_res, st_exec, Inputs, Control, strobe, excepting, outputs, step, flags,
}
use jtag_debug_module_for_ri.DebugRom.ParkLoop.{go_flag, resume_flag}

byte-flags :
    (go resume : Bool)
    → (resume && go) ≡ false
    → let f = (if resume then 2 else 0) + (if go then 1 else 0) in
      (go_flag f ≡ go) × (resume_flag f ≡ resume)
byte-flags true true h = cc
byte-flags true false h = (refl, refl)
byte-flags false true h = (refl, refl)
byte-flags false false h = (refl, refl)

apart_in :
    (s : State) (i : Inputs) (h r : Bool)
    → ((outputs i (record { state = s; halted = h; resuming = r })).resume
        && (outputs i (record { state = s; halted = h; resuming = r })).go)
      ≡ false
unfolding outputs
apart_in st_idle i h r = refl
apart_in st_go i h r = refl
apart_in st_res i h r = ground arith
apart_in st_exec i h r = refl

-- The byte of flags that the hart reads tells it, by the ROM's own tests, exactly whether the module
-- wants it to go and whether to resume, and it is never told both.
pub flags-outputs :
    (i : Inputs) (c : Control)
    → (go_flag (flags i c) ≡ (outputs i c).go)
      × (resume_flag (flags i c) ≡ (outputs i c).resume)
      × (((outputs i c).resume && (outputs i c).go) ≡ false)
unfolding flags
flags-outputs i c =
    let apart = apart_in c.state i c.halted c.resuming in
    let (g, r) = byte-flags (outputs i c).go (outputs i c).resume apart in (g, r, apart)

-- A command that comes while the hart is not halted is dropped: it starts nothing and reports no
-- error, but for an exception that the hart reports at the same edge.
pub command_ignored :
    (i : Inputs) (c : Control)
    → c.state ≡ st_idle
    → c.halted ≡ false
    → ((step i c).state ≡ st_idle) × ((outputs i c).cmderror_valid ≡ excepting (strobe i.access))
unfolding step outputs
command_ignored i c s n = ground arith

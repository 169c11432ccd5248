-- ===== src/Debugger/Schedule.antt =====
-- The edges of a register transfer in the debug module (rtl/DM_top.sv), and its state at them.
use jtag_debug_module_for_ri.Common.{ℕ, ◌+◌, ◌%◌, ◌^◌, ◌<◌, ◌≡◌, refl, ap, ◌∙◌, false, List, arith}
use mathlib.Core.Path.{subst}
use jtag_debug_module_for_ri.AbstractCmd.{decoded, unsupported_command}
use jtag_debug_module_for_ri.HartControl.{
  st_idle, st_go, st_exec, strobe, going, halting, write_at, wr_going, wr_halted,
}
use jtag_debug_module_for_ri.HartControl.Commands.{strobe-rom}
use jtag_debug_module_for_ri.Registers.Csrs.{set_at}
use jtag_debug_module_for_ri.Registers.Store.{writing}
use jtag_debug_module_for_ri.Debugger.Commands.{Resting}
use jtag_debug_module_for_ri.Debugger.Chip.{Chip, Slave, Outside, access_on, chip_edge}
use jtag_debug_module_for_ri.Debugger.Silent.{Works, Holds, moves}
use jtag_debug_module_for_ri.Debugger.Steps.{
  Step, chip_edges, AllWait, StoresWord, chip_edge-quiet, chip_edges-wait, chip_edge-stored,
  chip_edge-started, waits_go, waits_exec,
}

-- The edges up to the hart's program at work, in order.
pub record Schedule : Type 0 where
  pub outside : Outside
  pub slave : Slave
  pub first : Step
  pub waits : List Step
  pub goes : Step
  pub works : List Step

-- An edge without a request of the debugger, at which the hart writes an address.
pub record Says (e : Step) (a : ℕ) : Type 0 where
  pub silent : e.request.valid ≡ false
  pub access : access_on e.slave ≡ write_at a

-- The hart says that it goes, with any other accesses before and after that change nothing, and the
-- debugger waits.
pub record IsSchedule (s : Schedule) (base : ℕ) : Type 0 where
  pub room : s.outside.queue_full ≡ false
  pub no_slave : s.slave.req ≡ false
  pub first_silent : s.first.request.valid ≡ false
  pub no_first_slave : s.first.slave.req ≡ false
  pub waits_going : AllWait going s.waits
  pub says_going : Says s.goes (base + 0x108)
  pub works_on : AllWait halting s.works

-- How the program of a read ends: the store of the word `v`, and the hart's word that it is back.
pub record IsEnd (stores : Step) (more : List Step) (back : Step) (base v : ℕ) : Type 0 where
  pub stores_silent : stores.request.valid ≡ false
  pub stores_word : StoresWord stores.slave base 0 v
  pub works_more : AllWait halting more
  pub says_halted : Says back (base + 0x100)

abbrev pub edge_at : Step → Chip → Chip
edge_at e t = chip_edge e.request e.outside e.slave t

-- The module when the hart is told to go, when its program runs, and at the end of a read.
abbrev pub told_to_go : Schedule → ℕ → Chip → Chip
told_to_go s w t =
    chip_edges s.waits (edge_at s.first (chip_edge (writing 0x17 w) s.outside s.slave t))

abbrev pub at_work : Schedule → ℕ → Chip → Chip
at_work s w t = chip_edges s.works (edge_at s.goes (told_to_go s w t))

abbrev pub finished : Step → List Step → Step → Chip → Chip
finished stores more back u = edge_at back (chip_edges more (edge_at stores u))

-- The hart's word that it goes, and its word that it is back.
pub goes_edge :
    (w : ℕ) (l : List ℕ) (e : Step) (base : ℕ) (t : Chip)
    → base % 4096 ≡ 0
    → Says e (base + 0x108)
    → Holds w l st_go t.top
    → Holds w l st_exec (edge_at e t).top
goes_edge w l e base t al says h =
    let seen : strobe (access_on e.slave) ≡ wr_going =
      ap strobe says.access ∙ (strobe-rom base al).1 in
    let works : Works (strobe (access_on e.slave)) = record {
      stays = rw seen refl;
      no_exception = rw seen refl;
    } in
    subst (λ σ. Holds w l (moves st_go σ) (edge_at e t).top) seen
      (chip_edge-quiet w l st_go e t h (λ c. cc) says.silent works (rw seen refl))

pub back_edge :
    (w : ℕ) (l : List ℕ) (e : Step) (base : ℕ) (t : Chip)
    → base % 4096 ≡ 0
    → Says e (base + 0x100)
    → Holds w l st_exec t.top
    → Holds w l st_idle (edge_at e t).top
back_edge w l e base t al says h =
    let seen : strobe (access_on e.slave) ≡ wr_halted =
      ap strobe says.access ∙ (strobe-rom base al).0 in
    let works : Works (strobe (access_on e.slave)) = record {
      stays = rw seen refl;
      no_exception = rw seen refl;
    } in
    subst (λ σ. Holds w l (moves st_exec σ) (edge_at e t).top) seen
      (chip_edge-quiet w l st_exec e t h (λ c. cc) says.silent works (rw seen refl))

-- The module at the three points of a schedule.
module _ (s : Schedule) (w base : ℕ) (t : Chip) (rests : Resting t.top) (al : base % 4096 ≡ 0)
    (sched : IsSchedule s base) (fine : unsupported_command (decoded w) ≡ false) where
  abbrev pub before : List ℕ
  before = t.top.block.regs.words

  pub told_to_go-Holds : Holds w before st_go (told_to_go s w t).top
  told_to_go-Holds =
      chip_edges-wait w before st_go going s.waits _ waits_go (λ c. cc) sched.waits_going
        (chip_edge-started w s.outside s.slave s.first t rests sched.room sched.no_slave
          sched.no_first_slave sched.first_silent fine)

  pub at_work-Holds : Holds w before st_exec (at_work s w t).top
  at_work-Holds =
      chip_edges-wait w before st_exec halting s.works _ waits_exec (λ c. cc) sched.works_on
        (goes_edge w before s.goes base (told_to_go s w t) al sched.says_going told_to_go-Holds)

-- The end of a read.
pub finished-Holds :
    (w base v : ℕ) (before : List ℕ) (stores : Step) (more : List Step) (back : Step) (u : Chip)
    → base % 4096 ≡ 0
    → Holds w before st_exec u.top
    → IsEnd stores more back base v
    → v < 2 ^ 32
    → Holds w (set_at before 0 v) st_idle (finished stores more back u).top
finished-Holds w base v before stores more back u al h ends lt =
    let l : List ℕ = set_at before 0 v in
    back_edge w l back base _ al ends.says_halted (
      chip_edges-wait w l st_exec halting more _ waits_exec (λ c. cc) ends.works_more
        (chip_edge-stored w before stores base 0 v u h ends.stores_silent ends.stores_word al
          (omega arith) lt))

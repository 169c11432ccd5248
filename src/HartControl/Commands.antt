-- ===== src/HartControl/Commands.antt =====
-- Whole commands of rtl/DM_ControlUnit2.sv on a halted hart, which answers by the stores of the debug
-- ROM (debug_rom/debug_rom.S): from the request to the end, however long the hart takes.
use jtag_debug_module_for_ri.Common.{
  ℕ, ◌+◌, ◌%◌, ◌^◌, ◌<◌, ◌≡◌, refl, sym, ◌∙◌, ap, Bool, true, false, List, [], ◌∷◌, ◌++◌, arith,
}
use jtag_debug_module_for_ri.HartControl.{
  st_idle, st_go, st_exec, write_at, Inputs, Control, Strobe, wr_halted, wr_going, wr_resuming,
  write_strobe, strobe, halting, going, leaving, step,
}

-- Edges in a row.
unfoldable pub steps : List Inputs → Control → Control
steps [] c = c
steps (i ∷ is) c = steps is (step i c)

pub steps-append : (is js : List Inputs) (c : Control) → steps (is ++ js) c ≡ steps js (steps is c)
unfolding steps
steps-append [] js c = refl
steps-append (i ∷ is) js c = steps-append is js (step i c)

-- The debugger leaves the module alone, and the hart does not say that it resumes.
pub record IsCalm (i : Inputs) : Type 0 where
  pub no_reset : i.ndmreset ≡ false
  pub no_ack : i.clear_resumeack ≡ false
  pub no_leaving : leaving (strobe i.access) ≡ false

abbrev pub AllBefore : (Strobe → Bool) → List Inputs → Type 0
AllBefore event [] = Unit {0}
AllBefore event (i ∷ is) = IsCalm i × (event (strobe i.access) ≡ false) × AllBefore event is

offset_in_page : (base o : ℕ) → base % 4096 ≡ 0 → o < 4096 → (base + o) % 2 ^ 12 ≡ o
offset_in_page base o aligned small = omega arith

-- What the stores of the ROM mean, where it stands at the start of a page.
pub strobe-rom :
    (base : ℕ)
    → base % 4096 ≡ 0
    → (strobe (write_at (base + 0x100)) ≡ wr_halted)
      × (strobe (write_at (base + 0x108)) ≡ wr_going)
      × (strobe (write_at (base + 0x110)) ≡ wr_resuming)
unfolding strobe
strobe-rom base aligned = (
  ap write_strobe (offset_in_page base 0x100 aligned (omega arith)),
  ap write_strobe (offset_in_page base 0x108 aligned (omega arith)),
  ap write_strobe (offset_in_page base 0x110 aligned (omega arith)),
)

-- The debugger's requests at an edge: to run a command that the module supports, or to resume.
pub record AsksCommand (i : Inputs) : Type 0 where
  pub command_given : i.cmd_valid ≡ true
  pub supported : i.unsupported_cmd ≡ false
  pub no_resume : i.resumereq ≡ false

pub record AsksResume (i : Inputs) : Type 0 where
  pub resume_asked : i.resumereq ≡ true
  pub no_halt : i.haltreq ≡ false

pub record IsReady (c : Control) : Type 0 where
  pub at_rest : c.state ≡ st_idle
  pub is_halted : c.halted ≡ true

command_starts :
    (i : Inputs) (c : Control)
    → IsCalm i
    → AsksCommand i
    → IsReady c
    → step i c ≡ record c { state = st_go }
unfolding step
command_starts i c q a r = ground arith

go_waits :
    (i : Inputs) (c : Control)
    → IsCalm i
    → c.state ≡ st_go
    → c.halted ≡ true
    → going (strobe i.access) ≡ false
    → step i c ≡ c
unfolding step
go_waits i c q s h w = ground arith

go_taken :
    (i : Inputs) (c : Control)
    → IsCalm i
    → c.state ≡ st_go
    → c.halted ≡ true
    → going (strobe i.access) ≡ true
    → step i c ≡ record c { state = st_exec }
unfolding step
go_taken i c q s h w = ground arith

exec_waits :
    (i : Inputs) (c : Control)
    → IsCalm i
    → c.state ≡ st_exec
    → c.halted ≡ true
    → halting (strobe i.access) ≡ false
    → step i c ≡ c
unfolding step
exec_waits i c q s h w = ground arith

exec_ends :
    (i : Inputs) (c : Control)
    → IsCalm i
    → c.state ≡ st_exec
    → c.halted ≡ true
    → halting (strobe i.access) ≡ true
    → step i c ≡ record c { state = st_idle }
unfolding step
exec_ends i c q s h w = ground arith

steps-go_waits :
    (is : List Inputs) (c : Control)
    → AllBefore going is
    → c.state ≡ st_go
    → c.halted ≡ true
    → steps is c ≡ c
unfolding steps
steps-go_waits [] c a s h = refl
steps-go_waits (i ∷ is) c a s h =
    ap (steps is) (go_waits i c a.0 s h a.1) ∙ steps-go_waits is c a.2 s h

steps-exec_waits :
    (is : List Inputs) (c : Control)
    → AllBefore halting is
    → c.state ≡ st_exec
    → c.halted ≡ true
    → steps is c ≡ c
unfolding steps
steps-exec_waits [] c a s h = refl
steps-exec_waits (i ∷ is) c a s h =
    ap (steps is) (exec_waits i c a.0 s h a.1) ∙ steps-exec_waits is c a.2 s h

-- A supported command on a halted hart, once given, ends with the module as it was, whatever the
-- hart accesses before it says that it goes, by the store of the ROM at `base`, and before it is
-- back in the park loop; the debugger neither resets the hart nor clears the resume flag meanwhile.
pub command_runs :
    (base : ℕ) (waits works : List Inputs) (start goes back : Inputs) (c : Control)
    → base % 4096 ≡ 0
    → IsReady c
    → IsCalm start
    → AsksCommand start
    → AllBefore going waits
    → IsCalm goes
    → goes.access ≡ write_at (base + 0x108)
    → AllBefore halting works
    → IsCalm back
    → back.access ≡ write_at (base + 0x100)
    → steps (start ∷ (waits ++ (goes ∷ (works ++ (back ∷ []))))) c ≡ c
unfolding steps
command_runs base waits works start goes back c p r qs a hw qg ag hx qb ab =
    let (halted_seen, going_seen, _) = strobe-rom base p in
    let went : going (strobe goes.access) ≡ true = rw (ag, going_seen) refl in
    let returned : halting (strobe back.access) ≡ true = rw (ab, halted_seen) refl in
    let c1 : Control = record c { state = st_go } in
    let c2 : Control = record c { state = st_exec } in
    let rest : List Inputs = works ++ (back ∷ []) in
    let whole : record c { state = st_idle } ≡ c = λ k. record c { state = sym r.at_rest k } in
    ap (steps (waits ++ (goes ∷ rest))) (command_starts start c qs a r)
    ∙ steps-append waits (goes ∷ rest) c1
    ∙ ap (steps (goes ∷ rest)) (steps-go_waits waits c1 hw refl r.is_halted)
    ∙ ap (steps rest) (go_taken goes c1 qg refl r.is_halted went)
    ∙ steps-append works (back ∷ []) c2
    ∙ ap (step back) (steps-exec_waits works c2 hx refl r.is_halted)
    ∙ exec_ends back c2 qb refl r.is_halted returned
    ∙ whole

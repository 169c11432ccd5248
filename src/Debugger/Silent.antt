-- ===== src/Debugger/Silent.antt =====
-- Edges of the whole debug module (rtl/DM_top.sv) at which the debugger requests nothing, while a
-- command is there to run or runs.
use jtag_debug_module_for_ri.Common.{
  ℕ, ◌≡◌, ◌≢◌, refl, ap, ◌∙◌, Bool, true, false, List, if◌then◌else◌, arith,
}
use jtag_debug_module_for_ri.HartControl as Hart
use jtag_debug_module_for_ri.HartControl.{
  State, st_idle, st_go, st_res, st_exec, Strobe, nothing, wr_halted, wr_going, wr_resuming,
  wr_exception, wr_data, rd_where, rd_data, rd_prog, rd_abs_cmd, rd_flags, Control, strobe, shown,
  excepting, leaving, going, halting,
}
use jtag_debug_module_for_ri.Registers.Requests.{edge, effect, read_enable, write_enable}
use jtag_debug_module_for_ri.Registers.Csrs.{Regs, Inputs, no_op, tick}
use jtag_debug_module_for_ri.Registers.Block.{
  Request, Env, Block, to_requests, to_csrs, op_of, block_edge,
}
use jtag_debug_module_for_ri.Debugger.Module.{
  Module, to_control, to_block, module_edge, module_outputs,
}
use jtag_debug_module_for_ri.Debugger.Commands.{silent_error}

-- The command machine's way without a new command.
abbrev pub moves : State → Strobe → State
moves st_go s = if going s then st_exec else st_go
moves st_exec s = if halting s then st_idle else st_exec
moves state s = state

abbrev pub storing : Strobe → Bool
storing wr_data = true
storing _ = false

-- The hart neither resumes nor reports an exception.
pub record Works (s : Strobe) : Type 0 where
  pub stays : leaving s ≡ false
  pub no_exception : excepting s ≡ false

-- A module with a command in its register and the data words `l`, a halted hart and no error.
pub record Holds (w : ℕ) (l : List ℕ) (s : State) (t : Module) : Type 0 where
  pub state : t.control.state ≡ s
  pub halted : t.control.halted ≡ true
  pub command : t.block.regs.command ≡ w
  pub words : t.block.regs.words ≡ l
  pub active : t.block.regs.dmcontrol.dmactive ≡ true
  pub no_resume : t.block.regs.dmcontrol.resumereq ≡ false
  pub no_reset : t.block.regs.dmcontrol.ndmreset ≡ false
  pub no_command : t.block.errors.cmd_valid ≡ false
  pub no_error : t.block.errors.cmderr ≡ 0

-- The machine's inputs while no command and no other request of the debugger comes.
record Still (i : Hart.Inputs) (c : Control) : Type 0 where
  no_command : i.cmd_valid ≡ false
  no_resume : i.resumereq ≡ false
  no_reset : i.ndmreset ≡ false
  halted : c.halted ≡ true
  works : Works (strobe i.access)

Still-step :
    (s : State) (i : Hart.Inputs) (c : Control)
    → s ≢ st_res
    → c.state ≡ s
    → Still i c
    → ((Hart.step i c).state ≡ moves s (strobe i.access)) × ((Hart.step i c).halted ≡ true)
unfolding Hart.step
Still-step st_idle i c n e h = (ground (arith, e, h), ground (arith, h))
Still-step st_go i c n e h = (ground (arith, e, h), ground (arith, h))
Still-step st_exec i c n e h = (ground (arith, e, h), ground (arith, h))
Still-step st_res i c n e h = absurd (n refl)

unasked_shown :
    (s : State) (i : Hart.Inputs) (c : Control)
    → i.cmd_valid ≡ false
    → (shown s i c).cmderror_valid ≡ false
unasked_shown st_idle i c e = rw e refl
unasked_shown st_go i c e = refl
unasked_shown st_res i c e = refl
unasked_shown st_exec i c e = refl

Still-outputs :
    (i : Hart.Inputs) (c : Control) → Still i c → (Hart.outputs i c).cmderror_valid ≡ false
unfolding Hart.outputs
Still-outputs i c h = rw (unasked_shown c.state i c h.no_command, h.works.no_exception) refl

pub silent_op :
    (r : Request) (n : Env) (u : Block) → r.valid ≡ false → op_of (to_requests r n u) ≡ no_op
unfolding read_enable write_enable
silent_op r n u e = ground (arith, e)

pub silent_command :
    (r : Request) (n : Env) (u : Block)
    → r.valid ≡ false
    → (edge (to_requests r n u) u.errors).cmd_valid ≡ false
unfolding edge effect read_enable write_enable
silent_command r n u e = ground (arith, e)

pub silent_regs :
    (i : Inputs) (s : Regs)
    → i.op ≡ no_op
    → s.dmcontrol.dmactive ≡ true
    → s.dmcontrol.resumereq ≡ false
    → ((tick i s).command ≡ s.command)
      × ((tick i s).words ≡ (if i.data_valid then i.data_in else s.words))
      × ((tick i s).dmcontrol.dmactive ≡ true)
      × ((tick i s).dmcontrol.resumereq ≡ false)
      × ((tick i s).dmcontrol.ndmreset ≡ s.dmcontrol.ndmreset)
unfolding tick
silent_regs i s o act none =
    (ground (arith, o), ground (arith, o), ground (arith, o), ground (arith, o), ground (arith, o))

-- An edge of the registers and the command machine without a request of the debugger.
pub module_edge-silent :
    (w : ℕ) (l : List ℕ) (s : State) (r : Request) (n : Env) (a : Hart.Access) (t : Module)
    → Holds w l s t
    → s ≢ st_res
    → r.valid ≡ false
    → Works (strobe a)
    → Holds w (if n.data_valid then n.data_in else l) (moves s (strobe a)) (module_edge r n a t)
unfolding module_edge block_edge
module_edge-silent w l s r n a t h ne silent works =
    let still = λ (clear : Bool).
      let i : Hart.Inputs = to_control a clear t in
      let st : Still i t.control = record {
        no_command = h.no_command;
        no_resume = h.no_resume;
        no_reset = h.no_reset;
        halted = h.halted;
        works = works;
      } in
      st in
    let m : Env = to_block n a t in
    let clear = (module_outputs r n a t).clear_resumeack in
    let (next_state, halted) =
      Still-step s (to_control a clear t) t.control ne h.state (still clear) in
    let quiet : m.cmderror_valid ≡ false =
      Still-outputs (to_control a false t) t.control (still false) in
    let (command, words, active, no_resume, no_reset) =
      silent_regs (to_csrs r m t.block) t.block.regs (silent_op r m t.block silent) h.active
        h.no_resume in
    record {
      state = next_state;
      halted = halted;
      command = command ∙ h.command;
      words = words ∙ ap (λ x. if n.data_valid then n.data_in else x) h.words;
      active = active;
      no_resume = no_resume;
      no_reset = no_reset ∙ h.no_reset;
      no_command = silent_command r m t.block silent;
      no_error = silent_error r m t.block silent ∙ rw quiet h.no_error;
    }

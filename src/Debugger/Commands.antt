-- ===== src/Debugger/Commands.antt =====
-- The start of a command in the debug module: rtl/DM_ControlUnit1.sv and rtl/DM_ControlUnit2.sv with
-- rtl/AbstractCmd_Decoder.sv.
use jtag_debug_module_for_ri.Common.{
  ℕ, ◌≡◌, refl, ◌∙◌, Bool, true, false, not, ◌&&◌, if◌then◌else◌, arith,
}
use jtag_debug_module_for_ri.AbstractCmd.{decoded, unsupported_command}
use jtag_debug_module_for_ri.HartControl as Hart
use jtag_debug_module_for_ri.HartControl.{
  Control, st_idle, st_go, no_access, strobe, no_cmderr, not_supported, shown, refused,
}
use jtag_debug_module_for_ri.Registers.{command, reg_of}
use jtag_debug_module_for_ri.Registers.Requests.{edge, effect, read_enable, write_enable}
use jtag_debug_module_for_ri.Registers.Csrs.{Regs, Inputs, write_op, tick, outputs}
use jtag_debug_module_for_ri.Registers.Block.{Request, Env, Block, to_requests, to_csrs, block_edge}
use jtag_debug_module_for_ri.Registers.Store.{writing}
use jtag_debug_module_for_ri.Debugger.{Free, command_op, command_written}
use jtag_debug_module_for_ri.Debugger.Module.{
  Module, cmderr_code, to_control, to_block, module_edge, module_outputs,
}

-- The command machine at rest, with a halted hart that makes no access.
pub record AtRest (i : Hart.Inputs) (c : Control) : Type 0 where
  state : c.state ≡ st_idle
  halted : c.halted ≡ true
  no_access : i.access ≡ no_access
  no_resume : i.resumereq ≡ false
  no_reset : i.ndmreset ≡ false

rest_step :
    (i : Hart.Inputs) (c : Control)
    → AtRest i c
    → ((Hart.step i c).state ≡ (if i.cmd_valid && not i.unsupported_cmd then st_go else st_idle))
      × ((Hart.step i c).halted ≡ true)
unfolding Hart.step strobe
rest_step i c r = (ground (arith, r), ground (arith, r))

pub rest_outputs :
    (i : Hart.Inputs) (c : Control)
    → AtRest i c
    → ((Hart.outputs i c).cmdbusy ≡ false)
      × ((Hart.outputs i c).cmderror_valid ≡ (i.cmd_valid && i.unsupported_cmd))
      × (cmderr_code (Hart.outputs i c).cmderror
          ≡ (if i.cmd_valid && i.unsupported_cmd then 2 else 0))
unfolding Hart.outputs strobe
rest_outputs i c r = (ground (arith, r), ground (arith, r), ground (arith, r))

pub command_regs :
    (i : Inputs) (s : Regs) (w : ℕ)
    → i.op ≡ write_op command w
    → s.dmcontrol.dmactive ≡ true
    → s.dmcontrol.resumereq ≡ false
    → i.cmdbusy ≡ false
    → ((tick i s).command ≡ w)
      × ((tick i s).dmcontrol.dmactive ≡ true)
      × ((tick i s).dmcontrol.resumereq ≡ false)
      × ((tick i s).dmcontrol.ndmreset ≡ s.dmcontrol.ndmreset)
unfolding tick
command_regs i s w o act none free = (ground arith, ground arith, ground arith, ground arith)

command_error :
    (w : ℕ) (n : Env) (u : Block)
    → Free n u
    → n.cmderror_valid ≡ false
    → (edge (to_requests (writing 0x17 w) n u) u.errors).cmderr ≡ u.errors.cmderr
unfolding edge effect read_enable write_enable reg_of
command_error w n u f none = rw (f.room, f.idle, none) refl

-- An edge at which the debugger requests nothing.
pub silent_error :
    (r : Request) (n : Env) (u : Block)
    → r.valid ≡ false
    → (edge (to_requests r n u) u.errors).cmderr
      ≡ (if n.cmderror_valid then n.cmderror else u.errors.cmderr)
unfolding edge effect read_enable write_enable
silent_error r n u none = ground (arith, none)

-- A debug module at rest, with a halted hart and no error.
pub record Resting (t : Module) : Type 0 where
  pub state : t.control.state ≡ st_idle
  pub halted : t.control.halted ≡ true
  pub active : t.block.regs.dmcontrol.dmactive ≡ true
  pub no_resume : t.block.regs.dmcontrol.resumereq ≡ false
  pub no_reset : t.block.regs.dmcontrol.ndmreset ≡ false
  pub no_command : t.block.errors.cmd_valid ≡ false
  pub no_error : t.block.errors.cmderr ≡ 0

pub to_rest :
    (t : Module) (clear : Bool)
    → t.control.state ≡ st_idle
    → t.control.halted ≡ true
    → t.block.regs.dmcontrol.resumereq ≡ false
    → t.block.regs.dmcontrol.ndmreset ≡ false
    → AtRest (to_control no_access clear t) t.control
to_rest t clear s h m n = record {
  state = s;
  halted = h;
  no_access = refl;
  no_resume = m;
  no_reset = n;
}

-- The edge that takes the command.
pub taken_edge :
    (w : ℕ) (n : Env) (t : Module)
    → Resting t
    → n.queue_full ≡ false
    → let v = module_edge (writing 0x17 w) n no_access t in
      (v.control.state ≡ st_idle)
      × (v.control.halted ≡ true)
      × (v.block.regs.command ≡ w)
      × (v.block.regs.dmcontrol.resumereq ≡ false)
      × (v.block.regs.dmcontrol.ndmreset ≡ false)
      × (v.block.errors.cmd_valid ≡ true)
      × (v.block.errors.cmderr ≡ 0)
unfolding module_edge block_edge
taken_edge w n t h room =
    let rest = λ (clear : Bool). to_rest t clear h.state h.halted h.no_resume h.no_reset in
    let (free, none, _) = rest_outputs (to_control no_access false t) t.control (rest false) in
    let m : Env = to_block n no_access t in
    let clear = (module_outputs (writing 0x17 w) n no_access t).clear_resumeack in
    let (state, halted) = rest_step (to_control no_access clear t) t.control (rest clear) in
    let f : Free m t.block = record { room = room; active = h.active; idle = free } in
    let (_, starts) = command_written w m t.block f in
    let quiet : m.cmderror_valid ≡ false = none ∙ rw h.no_command refl in
    let (put, _, no_resume, no_reset) =
      command_regs (to_csrs (writing 0x17 w) m t.block) t.block.regs w (command_op w m t.block room)
        h.active h.no_resume free in
    (
      state ∙ rw h.no_command refl,
      halted,
      put,
      no_resume,
      no_reset ∙ h.no_reset,
      starts,
      command_error w m t.block f quiet ∙ h.no_error,
    )

swapped : (b : Bool) → (if true && not b then st_go else st_idle) ≡ (if b then st_idle else st_go)
swapped true = refl
swapped false = refl

twice :
    (b : Bool)
    → ◌≡◌ {A = ℕ} (if true && b then (if true && b then 2 else 0) else 0) (if b then 2 else 0)
twice true = refl
twice false = refl

-- The edge at which the command machine decides.
pub decided_edge :
    (w : ℕ) (m : Env) (r : Request) (v : Module)
    → v.control.state ≡ st_idle
    → v.control.halted ≡ true
    → v.block.regs.command ≡ w
    → v.block.regs.dmcontrol.resumereq ≡ false
    → v.block.regs.dmcontrol.ndmreset ≡ false
    → v.block.errors.cmd_valid ≡ true
    → v.block.errors.cmderr ≡ 0
    → r.valid ≡ false
    → let refuses = unsupported_command (decoded w) in
      let t = module_edge r m no_access v in
      (t.control.state ≡ (if refuses then st_idle else st_go))
      × (t.control.halted ≡ true)
      × (t.block.errors.cmderr ≡ (if refuses then 2 else 0))
unfolding module_edge block_edge
decided_edge w m r v state halted put no_resume no_reset starts no_error silent =
    let rest = λ (clear : Bool). to_rest v clear state halted no_resume no_reset in
    let (_, marked, error) = rest_outputs (to_control no_access false v) v.control (rest false) in
    let clear = (module_outputs r m no_access v).clear_resumeack in
    let (next_state, still) = rest_step (to_control no_access clear v) v.control (rest clear) in
    (
      next_state ∙ rw (starts, put) (swapped (unsupported_command (decoded w))),
      still,
      silent_error r (to_block m no_access v) v.block silent
          ∙ rw (marked, error, no_error, starts, put) (twice (unsupported_command (decoded w))),
    )

-- The debugger writes `command` on a module at rest, and requests nothing at the edge after. If the
-- decoder takes the command, the command machine then tells the hart to go, and there is no error;
-- if not, the machine is idle as before and the error is `not supported`.
pub module_edge-command :
    (w : ℕ) (n m : Env) (r : Request) (t : Module)
    → Resting t
    → n.queue_full ≡ false
    → r.valid ≡ false
    → let refuses = unsupported_command (decoded w) in
      let v = module_edge r m no_access (module_edge (writing 0x17 w) n no_access t) in
      (v.control.state ≡ (if refuses then st_idle else st_go))
      × (v.control.halted ≡ true)
      × (v.block.errors.cmderr ≡ (if refuses then 2 else 0))
module_edge-command w n m r t h room silent =
    let (state, halted, put, no_resume, no_reset, starts, no_error) = taken_edge w n t h room in
    decided_edge w m r (module_edge (writing 0x17 w) n no_access t) state halted put no_resume
      no_reset starts no_error silent

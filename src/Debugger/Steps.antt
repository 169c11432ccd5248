-- ===== src/Debugger/Steps.antt =====
-- Rows of edges of the whole debug module (rtl/DM_top.sv): the start of a command, waits, and a store
-- of the hart to the data words.
use jtag_debug_module_for_ri.Common.{
  ℕ, ◌+◌, ◌*◌, ◌%◌, ◌^◌, ◌<◌, ◌≡◌, ◌≢◌, refl, sym, ap, ◌∙◌, Bool, true, false, List, [], ◌∷◌, ◌++◌,
  if◌then◌else◌, arith,
}
use mathlib.Core.Path.{subst}
use jtag_debug_module_for_ri.AbstractCmd.{decoded, unsupported_command}
use jtag_debug_module_for_ri.HartControl as Hart
use jtag_debug_module_for_ri.HartControl.{
  State, st_idle, st_go, st_res, st_exec, Strobe, nothing, wr_halted, wr_going, wr_resuming,
  wr_exception, wr_data, rd_where, rd_data, rd_prog, rd_abs_cmd, rd_flags, strobe, going, halting,
}
use jtag_debug_module_for_ri.HartControl.Memory.{MemInputs, access_of, data_after, data_out}
use jtag_debug_module_for_ri.HartControl.Writes.{Stores, stored_word, stores_strobe}
use jtag_debug_module_for_ri.Registers.Csrs.{set_at}
use jtag_debug_module_for_ri.Registers.Block.{Request, Env, block_edge, to_csrs}
use jtag_debug_module_for_ri.Registers.Store.{writing}
use jtag_debug_module_for_ri.Debugger.{Free, command_op, words_kept}
use jtag_debug_module_for_ri.Debugger.Module.{Module, to_control, to_block, module_edge}
use jtag_debug_module_for_ri.Debugger.Commands.{
  Resting, to_rest, rest_outputs, command_regs, taken_edge, decided_edge,
}
use jtag_debug_module_for_ri.Debugger.Chip.{
  Chip, Slave, Outside, access_on, mem_inputs, env_of, chip_edge,
}
use jtag_debug_module_for_ri.Debugger.Silent.{
  moves, storing, Works, Holds, silent_regs, silent_op, silent_command, module_edge-silent,
}

quiet_data : (s : Strobe) (i : MemInputs) → storing s ≡ false → (data_after s i).1 ≡ false
quiet_data wr_data i e = cc
quiet_data nothing i e = refl
quiet_data wr_halted i e = refl
quiet_data wr_going i e = refl
quiet_data wr_resuming i e = refl
quiet_data wr_exception i e = refl
quiet_data rd_where i e = refl
quiet_data rd_data i e = refl
quiet_data rd_prog i e = refl
quiet_data rd_abs_cmd i e = refl
quiet_data rd_flags i e = refl

-- An access that is no store to the data words gives the registers no data.
data_out-quiet : (i : MemInputs) → storing (strobe (access_of i)) ≡ false → (data_out i).1 ≡ false
unfolding data_out
data_out-quiet i e = quiet_data (strobe (access_of i)) i e

-- One edge: what the debugger, the surroundings and the hart drive.
pub record Step : Type 0 where
  pub request : Request
  pub outside : Outside
  pub slave : Slave

unfoldable pub chip_edges : List Step → Chip → Chip
chip_edges [] t = t
chip_edges (e ∷ es) t = chip_edges es (chip_edge e.request e.outside e.slave t)

pub chip_edges-append :
    (es fs : List Step) (t : Chip) → chip_edges (es ++ fs) t ≡ chip_edges fs (chip_edges es t)
unfolding chip_edges
chip_edges-append [] fs t = refl
chip_edges-append (e ∷ es) fs t = chip_edges-append es fs (chip_edge e.request e.outside e.slave t)

-- No request, and an access that neither ends a wait for `event` nor stores to the data words.
pub record Waits (event : Strobe → Bool) (e : Step) : Type 0 where
  pub silent : e.request.valid ≡ false
  pub works : Works (strobe (access_on e.slave))
  pub no_data : storing (strobe (access_on e.slave)) ≡ false
  pub no_event : event (strobe (access_on e.slave)) ≡ false

abbrev pub AllWait : (Strobe → Bool) → List Step → Type 0
AllWait event [] = Unit {0}
AllWait event (e ∷ es) = Waits event e × AllWait event es

-- An edge with an access that is no store to the data words.
pub chip_edge-quiet :
    (w : ℕ) (l : List ℕ) (s : State) (e : Step) (t : Chip)
    → Holds w l s t.top
    → s ≢ st_res
    → e.request.valid ≡ false
    → Works (strobe (access_on e.slave))
    → storing (strobe (access_on e.slave)) ≡ false
    → Holds w l (moves s (strobe (access_on e.slave))) (chip_edge e.request e.outside e.slave t).top
unfolding chip_edge
chip_edge-quiet w l s e t h n silent works no_data =
    let quiet : (env_of e.outside e.slave t).data_valid ≡ false =
      data_out-quiet (mem_inputs e.slave t) no_data in
    let once =
      module_edge-silent w l s e.request (env_of e.outside e.slave t) (access_on e.slave) t.top h n
        silent works in
    let same : (if (env_of e.outside e.slave t).data_valid
          then (env_of e.outside e.slave t).data_in
          else l)
        ≡ l =
      rw quiet refl in
    subst
      (λ m.
        Holds w m (moves s (strobe (access_on e.slave)))
          (module_edge e.request (env_of e.outside e.slave t) (access_on e.slave) t.top))
      same once

-- A row of edges in which the machine waits for `event`.
pub chip_edges-wait :
    (w : ℕ) (l : List ℕ) (s : State) (event : Strobe → Bool) (es : List Step) (t : Chip)
    → ((σ : Strobe) → event σ ≡ false → moves s σ ≡ s)
    → s ≢ st_res
    → AllWait event es
    → Holds w l s t.top
    → Holds w l s (chip_edges es t).top
unfolding chip_edges
chip_edges-wait w l s event [] t stays n all h = h
chip_edges-wait w l s event (e ∷ es) t stays n all h =
    let once = chip_edge-quiet w l s e t h n all.0.silent all.0.works all.0.no_data in
    let still : moves s (strobe (access_on e.slave)) ≡ s =
      stays (strobe (access_on e.slave)) all.0.no_event in
    let u : Chip = chip_edge e.request e.outside e.slave t in
    chip_edges-wait w l s event es u stays n all.1 (subst (λ x. Holds w l x u.top) still once)

pub waits_go : (σ : Strobe) → going σ ≡ false → moves st_go σ ≡ st_go
waits_go σ e = rw e refl

pub waits_exec : (σ : Strobe) → halting σ ≡ false → moves st_exec σ ≡ st_exec
waits_exec σ e = rw e refl

-- A hart that stores a whole word.
pub record StoresWord (x : Slave) (base k v : ℕ) : Type 0 where
  pub requested : x.req ≡ true
  pub is_write : x.we ≡ true
  pub address : x.addr ≡ base + 0x380 + 4 * k
  pub all_lanes : x.be ≡ 15
  pub word : x.wdata ≡ v

stores_of :
    (x : Slave) (base k v : ℕ) (t : Chip)
    → StoresWord x base k v
    → base % 4096 ≡ 0
    → k < 2
    → v < 2 ^ 32
    → Stores (mem_inputs x t) k v
stores_of x base k v t s al h lt = record {
  requested = s.requested;
  is_write = s.is_write;
  address = omega (arith, s.address, al, h);
  data_word = h;
  all_lanes = s.all_lanes;
  word = s.word;
  fits = lt;
}

-- The hart's store of a word to the data words, while its program runs.
pub chip_edge-stored :
    (w : ℕ) (l : List ℕ) (e : Step) (base k v : ℕ) (t : Chip)
    → Holds w l st_exec t.top
    → e.request.valid ≡ false
    → StoresWord e.slave base k v
    → base % 4096 ≡ 0
    → k < 2
    → v < 2 ^ 32
    → Holds w (set_at l k v) st_exec (chip_edge e.request e.outside e.slave t).top
unfolding chip_edge
chip_edge-stored w l e base k v t h silent s al small lt =
    let st = stores_of e.slave base k v t s al small lt in
    let seen : strobe (access_on e.slave) ≡ wr_data = stores_strobe (mem_inputs e.slave t) k v st in
    let out = stored_word (mem_inputs e.slave t) k v st in
    let n : Env = env_of e.outside e.slave t in
    let once =
      module_edge-silent w l st_exec e.request n (access_on e.slave) t.top h (λ c. cc) silent
        (record { stays = rw seen refl; no_exception = rw seen refl }) in
    let words : (if n.data_valid then n.data_in else l) ≡ set_at l k v =
      rw out (ap (λ m. set_at m k v) h.words) in
    let still : moves st_exec (strobe (access_on e.slave)) ≡ st_exec = rw seen refl in
    subst (λ x. Holds w x st_exec (module_edge e.request n (access_on e.slave) t.top)) words
      (subst
        (λ x.
          Holds w (if n.data_valid then n.data_in else l) x
            (module_edge e.request n (access_on e.slave) t.top))
        still once)

second_regs :
    (m : Env) (r : Request) (v : Module)
    → v.block.regs.dmcontrol.dmactive ≡ true
    → v.block.regs.dmcontrol.resumereq ≡ false
    → r.valid ≡ false
    → let s = (module_edge r m Hart.no_access v).block.regs in
      (s.command ≡ v.block.regs.command)
      × (s.words ≡ (if m.data_valid then m.data_in else v.block.regs.words))
      × (s.dmcontrol.dmactive ≡ true)
      × (s.dmcontrol.resumereq ≡ false)
      × (s.dmcontrol.ndmreset ≡ v.block.regs.dmcontrol.ndmreset)
unfolding module_edge block_edge
second_regs m r v active no_resume silent =
    let k : Env = to_block m Hart.no_access v in
    silent_regs (to_csrs r k v.block) v.block.regs (silent_op r k v.block silent) active no_resume

second_command :
    (m : Env) (r : Request) (v : Module)
    → r.valid ≡ false
    → (module_edge r m Hart.no_access v).block.errors.cmd_valid ≡ false
unfolding module_edge block_edge
second_command m r v silent = silent_command r (to_block m Hart.no_access v) v.block silent

taken_rest :
    (w : ℕ) (n : Env) (t : Module)
    → Resting t
    → n.queue_full ≡ false
    → n.data_valid ≡ false
    → let v = module_edge (writing 0x17 w) n Hart.no_access t in
      (v.block.regs.dmcontrol.dmactive ≡ true) × (v.block.regs.words ≡ t.block.regs.words)
unfolding module_edge block_edge
taken_rest w n t h room quiet =
    let rest = to_rest t false h.state h.halted h.no_resume h.no_reset in
    let (free, _, _) = rest_outputs (to_control Hart.no_access false t) t.control rest in
    let m : Env = to_block n Hart.no_access t in
    let f : Free m t.block = record { room = room; active = h.active; idle = free } in
    let (_, active, _, _) =
      command_regs (to_csrs (writing 0x17 w) m t.block) t.block.regs w (command_op w m t.block room)
        h.active h.no_resume free in
    (active, unfold block_edge in words_kept w m t.block f quiet)

module_edge-started :
    (w : ℕ) (n m : Env) (r : Request) (t : Module)
    → Resting t
    → n.queue_full ≡ false
    → n.data_valid ≡ false
    → m.data_valid ≡ false
    → r.valid ≡ false
    → unsupported_command (decoded w) ≡ false
    → Holds w t.block.regs.words st_go
        (module_edge r m Hart.no_access (module_edge (writing 0x17 w) n Hart.no_access t))
module_edge-started w n m r t h room quiet quiet' silent fine =
    let v : Module = module_edge (writing 0x17 w) n Hart.no_access t in
    let (state, halted, put, no_resume, no_reset, starts, no_error) = taken_edge w n t h room in
    let (active, words) = taken_rest w n t h room quiet in
    let (went, still, error) =
      decided_edge w m r v state halted put no_resume no_reset starts no_error silent in
    let (put', words', active', no_resume', no_reset') =
      second_regs m r v active no_resume silent in
    record {
      state = went ∙ rw fine refl;
      halted = still;
      command = put' ∙ put;
      words = words' ∙ rw quiet' words;
      active = active';
      no_resume = no_resume';
      no_reset = no_reset' ∙ no_reset;
      no_command = second_command m r v silent;
      no_error = error ∙ rw fine refl;
    }

no_slave : (x : Slave) → x.req ≡ false → access_on x ≡ Hart.no_access
no_slave x e = rw e refl

-- A supported command, written on a module at rest and decided at the edge after: the hart is told to
-- go, and the data words are as before.
pub chip_edge-started :
    (w : ℕ) (o : Outside) (x : Slave) (e : Step) (t : Chip)
    → Resting t.top
    → o.queue_full ≡ false
    → x.req ≡ false
    → e.slave.req ≡ false
    → e.request.valid ≡ false
    → unsupported_command (decoded w) ≡ false
    → Holds w t.top.block.regs.words st_go
        (chip_edge e.request e.outside e.slave (chip_edge (writing 0x17 w) o x t)).top
unfolding chip_edge
chip_edge-started w o x e t h room none none' silent fine =
    let quiet : (env_of o x t).data_valid ≡ false =
      data_out-quiet (mem_inputs x t) (rw (no_slave x none) (unfold strobe in refl)) in
    let v : Chip = chip_edge (writing 0x17 w) o x t in
    let quiet' : (env_of e.outside e.slave v).data_valid ≡ false =
      data_out-quiet (mem_inputs e.slave v) (rw (no_slave e.slave none') (unfold strobe in refl)) in
    let there =
      module_edge-started w (env_of o x t) (env_of e.outside e.slave v) e.request t.top h room quiet
        quiet' silent fine in
    let n : Env = env_of o x t in
    let m : Env = env_of e.outside e.slave v in
    let l : List ℕ = t.top.block.regs.words in
    subst
      (λ a.
        Holds w l st_go
          (module_edge e.request m (access_on e.slave) (module_edge (writing 0x17 w) n a t.top)))
      (sym (no_slave x none))
      (subst
        (λ a.
          Holds w l st_go
            (module_edge e.request m a (module_edge (writing 0x17 w) n Hart.no_access t.top)))
        (sym (no_slave e.slave none')) there)

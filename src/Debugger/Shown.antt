-- ===== src/Debugger/Shown.antt =====
-- What the debug module (rtl/DM_top.sv) shows during a command: to the hart its flags, the jump, the
-- program and the data, and to the debugger the data word.
use jtag_debug_module_for_ri.Common.{
  ℕ, ◌+◌, ◌-◌, ◌*◌, ◌/◌, ◌%◌, ◌^◌, ◌<◌, ◌≡◌, refl, ap, ◌∙◌, true, false, ltb, List, some, arith,
  length, get_or, ◌==◌,
}
use jtag_debug_module_for_ri.DebugRom.Decode.{jal, decode}
use jtag_debug_module_for_ri.AbstractCmd.{decoded, abstract_cmd}
use jtag_debug_module_for_ri.HartControl as Hart
use jtag_debug_module_for_ri.HartControl.{
  State, st_idle, st_go, st_exec, Control, strobe, going, halting, write_at, wr_going, wr_halted,
  rd_flags,
}
use jtag_debug_module_for_ri.HartControl.Memory.{
  MemInputs, Bank, access_of, low_addr, row_of, bank_edge, rdata_o,
}
use jtag_debug_module_for_ri.HartControl.Reads.{
  destination, where_jumps, read_half, bank_edge-arrays,
}
use jtag_debug_module_for_ri.Registers.Csrs.{set_at}
use jtag_debug_module_for_ri.Registers.Store as Store
use jtag_debug_module_for_ri.Registers.Store.{reading, writing, get-set_at_any}
use jtag_debug_module_for_ri.Debugger.Chip.{
  Chip, Slave, Outside, access_on, mem_inputs, env_of, chip_edge, chip_outputs, slave_rdata,
}
use jtag_debug_module_for_ri.Debugger.Module.{to_block, to_control, module_outputs}
use jtag_debug_module_for_ri.Debugger.Silent.{Holds}
use jtag_debug_module_for_ri.Debugger.Steps.{Step}
use jtag_debug_module_for_ri.Debugger.Schedule.{edge_at}

-- A hart that reads an address.
pub record ReadsAt (x : Slave) (a : ℕ) : Type 0 where
  pub requested : x.req ≡ true
  pub no_write : x.we ≡ false
  pub address : x.addr ≡ a

go_flags :
    (i : Hart.Inputs) (c : Control) → c.state ≡ st_go → i.ndmreset ≡ false → Hart.flags i c ≡ 1
unfolding Hart.flags
go_flags i c e n = rw (e, n) refl

access_read : (i : MemInputs) → i.req ≡ true → i.we ≡ false → access_of i ≡ Hart.read_at i.addr
access_read i r n = ground (arith, r, n)

flags_shown :
    (i : MemInputs) (q : Bank)
    → i.req ≡ true
    → i.we ≡ false
    → i.addr % 2 ^ 12 ≡ 0x400
    → rdata_o (bank_edge i q) ≡ i.flag_byte
flags_shown i q r n a =
    let seen : strobe (access_of i) ≡ rd_flags =
      ap strobe (access_read i r n) ∙ (unfold strobe in rw a refl) in
    let even : (low_addr i / 4 % 2 == 1) ≡ false = rw a refl in
    let row : (row_of i * 8 == 0x400) ≡ true = rw a refl in
    let below : ltb (low_addr i) 0x800 ≡ true = rw a refl in
    read_half i q rd_flags seen below ∙ rw (even, row) refl

-- What the debugger reads of the first data word.
pub word_read :
    (w v : ℕ) (l : List ℕ) (o : Outside) (x : Slave) (t : Chip)
    → Holds w (set_at l 0 v) st_idle t.top
    → length l ≡ 2
    → o.queue_full ≡ false
    → (chip_outputs (reading 0x04) o x t).dmi_data ≡ v
unfolding chip_outputs module_outputs
word_read w v l o x t h len room =
    Store.read_word (to_block (env_of o x t) (access_on x) t.top) t.top.block 0x04 refl room
    ∙ ap (λ m. get_or m 0 0) h.words
    ∙ get-set_at_any l 0 0 v (omega (arith, len))

pub fetched :
    (w : ℕ) (l : List ℕ) (st : State) (e : Step) (base k : ℕ) (t : Chip)
    → Holds w l st t.top
    → base % 4096 ≡ 0
    → k < 10
    → ReadsAt e.slave (base + 0x338 + 4 * k)
    → slave_rdata (edge_at e t) ≡ get_or (abstract_cmd true (decoded w)) k 0
unfolding chip_edge
fetched w l st e base k t h al small reads =
    let i : MemInputs = mem_inputs e.slave t in
    let there : low_addr i ≡ 0x338 + 4 * k = omega (arith, reads.address, al, small) in
    let index : (0x338 + 4 * k - 0x338) / 4 ≡ k = omega arith in
    let low : ltb (0x338 + 4 * k) 0x360 ≡ true = ground arith in
    bank_edge-arrays i t.bank (record { requested = reads.requested; no_write = reads.no_write })
      (rw there (ground arith))
    ∙ rw (there, low, index) (ap (λ c. get_or (abstract_cmd true (decoded c)) k 0) h.command)

pub loaded_word :
    (w : ℕ) (l : List ℕ) (st : State) (e : Step) (base : ℕ) (t : Chip)
    → Holds w l st t.top
    → base % 4096 ≡ 0
    → ReadsAt e.slave (base + 0x380)
    → slave_rdata (edge_at e t) ≡ get_or l 0 0
unfolding chip_edge
loaded_word w l st e base t h al reads =
    let i : MemInputs = mem_inputs e.slave t in
    let there : low_addr i ≡ 0x380 = omega (arith, reads.address, al) in
    bank_edge-arrays i t.bank (record { requested = reads.requested; no_write = reads.no_write })
      (rw there refl)
    ∙ rw there (ap (λ m. get_or m 0 0) h.words)

pub polled_flags :
    (w : ℕ) (l : List ℕ) (e : Step) (base : ℕ) (t : Chip)
    → Holds w l st_go t.top
    → base % 4096 ≡ 0
    → ReadsAt e.slave (base + 0x400)
    → slave_rdata (edge_at e t) ≡ 1
unfolding chip_edge
polled_flags w l e base t h al reads =
    flags_shown (mem_inputs e.slave t) t.bank reads.requested reads.no_write
      (omega (arith, reads.address, al))
    ∙ go_flags (to_control (access_on e.slave) false t.top) t.top.control h.state h.no_reset

busy_machine :
    (i : Hart.Inputs) (c : Control) → c.state ≡ st_exec → (Hart.outputs i c).cmdbusy ≡ true
unfolding Hart.outputs
busy_machine i c e = rw e refl

-- The jump that the hart finds once it has said that it goes.
pub jumps_there :
    (w : ℕ) (l : List ℕ) (e : Step) (base : ℕ) (t : Chip)
    → (decoded w).transfer ≡ true
    → Holds w l st_exec t.top
    → base % 4096 ≡ 0
    → ReadsAt e.slave (base + 0x300)
    → decode (slave_rdata (edge_at e t)) ≡ some (jal 0 0x38)
unfolding chip_edge
jumps_there w l e base t moves_data h al reads =
    let i : MemInputs = mem_inputs e.slave t in
    let busy : i.cmdbusy ≡ true =
      busy_machine (to_control (access_on e.slave) false t.top) t.top.control h.state in
    let transfer : i.transfer ≡ true = ap (λ c. (decoded c).transfer) h.command ∙ moves_data in
    let there : destination i ≡ 0x338 = rw (busy, transfer) (ground arith) in
    where_jumps i t.bank (record { requested = reads.requested; no_write = reads.no_write })
      (omega (arith, reads.address, al)) (rw busy refl)
    ∙ ap (λ a. some (jal 0 (a - 0x300))) there

-- ===== src/HartControl/Writes.antt =====
-- A hart's write to the data words (rtl/DM_Mem.sv), and the debugger's read of them
-- (rtl/DM_CSRS.sv).
use jtag_debug_module_for_ri.Common.{
  ℕ, zero, suc, ◌+◌, ◌-◌, ◌*◌, ◌^◌, ◌<◌, ◌≡◌, refl, ap, ◌∙◌, true, false, ◌==◌, ltb, if◌then◌else◌,
  get_or, arith, length,
}
use native.Mathlib.Decide.{ℕ_discrete}
use jtag_debug_module_for_ri.HartControl.{wr_data, strobe}
use jtag_debug_module_for_ri.HartControl.Memory.{
  MemInputs, access_of, low_addr, byte_of, merged, data_out, word_index,
}
use jtag_debug_module_for_ri.Registers.Csrs.{Regs, Inputs, set_at, tick}
use jtag_debug_module_for_ri.Registers.Words.{bit_of}
use jtag_debug_module_for_ri.Registers.Block.{
  Request, Env, Block, to_csrs, block_edge, block_outputs,
}
use jtag_debug_module_for_ri.Registers.Store.{is_word, reading, read_word, get-set_at_any}

lane_value : ℕ → ℕ → ℕ → ℕ → ℕ
lane_value be old new k = if bit_of be k then byte_of k new else byte_of k old

lane_value_lt : (be old new k : ℕ) → lane_value be old new k < 2 ^ 8
unfolding lane_value
lane_value_lt be old new k = ground arith

four_bytes :
    (a b c d : ℕ)
    → a < 2 ^ 8
    → b < 2 ^ 8
    → c < 2 ^ 8
    → d < 2 ^ 8
    → let w = a * 2 ^ (8 * 0) + b * 2 ^ (8 * 1) + c * 2 ^ (8 * 2) + d * 2 ^ (8 * 3) in
      (byte_of 0 w ≡ a) × (byte_of 1 w ≡ b) × (byte_of 2 w ≡ c) × (byte_of 3 w ≡ d)
four_bytes a b c d ha hb hc hd = (omega arith, omega arith, omega arith, omega arith)

-- A write's word has the written byte in each lane that is enabled, and the old byte in the others.
merged_bytes :
    (be old new k : ℕ)
    → k < 4
    → byte_of k (merged be old new) ≡ (if bit_of be k then byte_of k new else byte_of k old)
unfolding lane_value
merged_bytes be old new k h =
    let v = lane_value be old new in
    let lt = lane_value_lt be old new in
    let (a, b, c, d) = four_bytes (v 0) (v 1) (v 2) (v 3) (lt 0) (lt 1) (lt 2) (lt 3) in
    elim (ℕ_discrete k 0) [
      | yes z ↦ rw z a
      | no nz ↦ elim (ℕ_discrete k 1) [
        | yes o ↦ rw o b
        | no no1 ↦ elim (ℕ_discrete k 2) [
          | yes t ↦ rw t c
          | no no2 ↦ let last : k ≡ 3 = omega arith in rw last d
        ]
      ]
    ]

merged_whole : (old new : ℕ) → new < 2 ^ 32 → merged 15 old new ≡ new
merged_whole old new h = omega (arith, h)

-- A write of a whole word.
pub record Stores (i : MemInputs) (k w : ℕ) : Type 0 where
  pub requested : i.req ≡ true
  pub is_write : i.we ≡ true
  pub address : low_addr i ≡ 0x380 + 4 * k
  pub data_word : k < 2
  pub all_lanes : i.be ≡ 15
  pub word : i.wdata ≡ w
  pub fits : w < 2 ^ 32

pub stores_strobe : (i : MemInputs) (k w : ℕ) → Stores i k w → strobe (access_of i) ≡ wr_data
unfolding strobe
stores_strobe i zero w s = rw (s.requested, s.is_write, s.address) refl
stores_strobe i (suc zero) w s = rw (s.requested, s.is_write, s.address) refl
stores_strobe i (suc (suc k)) w s = absurd (omega (arith, s.data_word))

pub stored_word : (i : MemInputs) (k w : ℕ) → Stores i k w → data_out i ≡ (set_at i.words k w, true)
unfolding data_out
stored_word i k w s =
    let index : word_index i ≡ k = omega (arith, s.address) in
    let whole : merged 15 (get_or i.words k 0) w ≡ w = merged_whole (get_or i.words k 0) w s.fits in
    rw (stores_strobe i k w s, index, s.all_lanes, s.word, whole) refl

data_taken :
    (i : Inputs) (s : Regs)
    → s.dmcontrol.dmactive ≡ true
    → i.data_valid ≡ true
    → (tick i s).words ≡ i.data_in
unfolding tick
data_taken i s a v = ground arith

-- The way of a word from the hart to the debugger: when the hart stores a whole word at one of the
-- data addresses, whatever the debugger requests at that edge, a read of that data word in the next
-- cycle brings the word stored, and a read of the other data word what it held before.
pub block_edge-stored :
    (i : MemInputs) (k j w : ℕ) (r : Request) (n m : Env) (u : Block)
    → Stores i k w
    → j < 2
    → u.regs.dmcontrol.dmactive ≡ true
    → length u.regs.words ≡ 2
    → i.words ≡ u.regs.words
    → n.data_valid ≡ (data_out i).1
    → n.data_in ≡ (data_out i).0
    → m.queue_full ≡ false
    → (block_outputs (reading (0x04 + j)) m (block_edge r n u)).dmi_data
      ≡ (if j == k then w else get_or u.regs.words j 0)
unfolding block_edge
block_edge-stored i k j w r n m u s jl act len same valid given room =
    let out = stored_word i k w s in
    let taken : (tick (to_csrs r n u) u.regs).words ≡ set_at u.regs.words k w =
      data_taken (to_csrs r n u) u.regs act (valid ∙ ap (λ p. p.1) out)
      ∙ given
      ∙ ap (λ p. p.0) out
      ∙ ap (λ l. set_at l k w) same in
    let word : is_word (0x04 + j) ≡ true = ground arith in
    let low : ltb (0x04 + j) 0x20 ≡ true = ground arith in
    let index : 0x04 + j - 0x04 ≡ j = omega arith in
    read_word m (block_edge r n u) (0x04 + j) word room
    ∙ rw (low, index, taken) (get-set_at_any u.regs.words j k w (omega (arith, len, s.data_word)))

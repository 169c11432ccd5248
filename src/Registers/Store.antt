-- ===== src/Registers/Store.antt =====
-- What requests leave in the registers of rtl/DM_CSRS.sv: words written and read back, requests while
-- a command runs, and the reset by `dmactive`.
use jtag_debug_module_for_ri.Common.{
  ℕ, zero, suc, ◌<◌, ◌≤◌, ◌≡◌, refl, ◌∙◌, ap, ap₂, ◌≢◌, Bool, true, false, not, ◌&&◌, ◌||◌, ◌==◌,
  List, [], ◌∷◌, Bool-cases, inl, inr, if◌then◌else◌, arith, get_or, length, leb, ltb, ◌-◌,
}
use native.Mathlib.Decide.{ℕ_discrete}
use jtag_debug_module_for_ri.Registers.{
  data_reg, prog_reg, dmcontrol, abstractcs, command, abstractauto, reg_of, data_count, prog_size,
}
use jtag_debug_module_for_ri.Registers.Words.{bit_of}
use jtag_debug_module_for_ri.Registers.Csrs.{
  Regs, Op, read_op, write_op, Inputs, set_at, tick, outputs, cleared, next,
}
use jtag_debug_module_for_ri.Registers.Requests.{read_enable, write_enable}
use jtag_debug_module_for_ri.Registers.Block.{
  Request, Env, Block, to_requests, to_csrs, op_of, block_edge, block_outputs,
}

-- The requests that a running command makes an error.
abbrev pub is_guarded : Op → Bool
is_guarded (read_op (data_reg k)) = true
is_guarded (read_op (prog_reg k)) = true
is_guarded (write_op (data_reg k) w) = true
is_guarded (write_op (prog_reg k) w) = true
is_guarded (write_op abstractcs w) = true
is_guarded (write_op command w) = true
is_guarded (write_op abstractauto w) = true
is_guarded _ = false

-- The registers that hold a command and its program and data.
abbrev pub kept : Regs → ℕ × List ℕ × List ℕ
kept s = (s.command, s.progbuf, s.words)

get-set_at : (xs : List ℕ) (k w : ℕ) → k < length xs → get_or (set_at xs k w) k 0 ≡ w
get-set_at [] k w h = absurd (omega arith)
get-set_at (x ∷ xs) zero w h = refl
get-set_at (x ∷ xs) (suc k) w h = get-set_at xs k w (omega (arith, h))

get-set_at_other : (xs : List ℕ) (j k w : ℕ) → j ≢ k → get_or (set_at xs k w) j 0 ≡ get_or xs j 0
get-set_at_other [] j k w h = refl
get-set_at_other (x ∷ xs) zero zero w h = absurd (h refl)
get-set_at_other (x ∷ xs) zero (suc k) w h = refl
get-set_at_other (x ∷ xs) (suc j) zero w h = refl
get-set_at_other (x ∷ xs) (suc j) (suc k) w h = get-set_at_other xs j k w (λ e. h (ap suc e))

-- The requests of a debugger, at an address.
abbrev pub reading : ℕ → Request
reading a = record { valid = true; addr = a; op = 1; wdata = 0 }

abbrev pub writing : ℕ → ℕ → Request
writing a w = record { valid = true; addr = a; op = 2; wdata = w }

-- The addresses of the data words and of the program buffer.
abbrev pub is_word : ℕ → Bool
is_word a = (leb 0x04 a && ltb a 0x06) || (leb 0x20 a && ltb a 0x28)

abbrev pub word_of : Regs → ℕ → ℕ
word_of s a = if ltb a 0x20 then get_or s.words (a - 0x04) 0 else get_or s.progbuf (a - 0x20) 0

pub read_word :
    (n : Env) (u : Block) (a : ℕ)
    → is_word a ≡ true
    → n.queue_full ≡ false
    → (block_outputs (reading a) n u).dmi_data ≡ word_of u.regs a
unfolding block_outputs outputs read_enable write_enable reg_of
read_word n u a word free = ground arith

write_op_of :
    (n : Env) (u : Block) (a w : ℕ)
    → is_word a ≡ true
    → n.queue_full ≡ false
    → op_of (to_requests (writing a w) n u)
      ≡ write_op (if ltb a 0x20 then data_reg (a - 0x04) else prog_reg (a - 0x20)) w
unfolding read_enable write_enable reg_of
write_op_of n u a w word free = ground arith

data_tick :
    (i : Inputs) (s : Regs) (k w : ℕ)
    → i.op ≡ write_op (data_reg k) w
    → s.dmcontrol.dmactive ≡ true
    → i.cmdbusy ≡ false
    → i.data_valid ≡ false
    → ((tick i s).words ≡ set_at s.words k w) × ((tick i s).progbuf ≡ s.progbuf)
unfolding tick
data_tick i s k w o act free quiet = ground arith

prog_tick :
    (i : Inputs) (s : Regs) (k w : ℕ)
    → i.op ≡ write_op (prog_reg k) w
    → s.dmcontrol.dmactive ≡ true
    → i.cmdbusy ≡ false
    → i.data_valid ≡ false
    → ((tick i s).words ≡ s.words) × ((tick i s).progbuf ≡ set_at s.progbuf k w)
unfolding tick
prog_tick i s k w o act free quiet = ground arith

-- A write that is taken.
pub record Taken (n : Env) (u : Block) : Type 0 where
  pub room : n.queue_full ≡ false
  pub active : u.regs.dmcontrol.dmactive ≡ true
  pub idle : n.cmdbusy ≡ false
  pub no_data : n.data_valid ≡ false
  pub words_there : length u.regs.words ≡ data_count
  pub progbuf_there : length u.regs.progbuf ≡ prog_size

pub get-set_at_any :
    (xs : List ℕ) (j k w : ℕ)
    → k < length xs
    → get_or (set_at xs k w) j 0 ≡ (if j == k then w else get_or xs j 0)
get-set_at_any xs j k w h = elim (ℕ_discrete j k) [
  | yes e ↦ let same : (j == k) ≡ true = ground arith in rw same (rw e (get-set_at xs k w h))
  | no n ↦ let apart : (j == k) ≡ false = ground arith in rw apart (get-set_at_other xs j k w n)
]

same_index : (m a b : ℕ) → m ≤ a → m ≤ b → (b - m == a - m) ≡ (a == b)
same_index m a b ha hb = ground arith

get_data :
    (s t : Regs) (a b w : ℕ)
    → is_word a ≡ true
    → is_word b ≡ true
    → ltb a 0x20 ≡ true
    → length s.words ≡ data_count
    → (t.words ≡ set_at s.words (a - 0x04) w) × (t.progbuf ≡ s.progbuf)
    → word_of t b ≡ (if a == b then w else word_of s b)
get_data s t a b w wa wb low there (e, f) = elim (Bool-cases (ltb b 0x20)) [
  | inl low_b ↦
      rw
        (
          low_b,
          e,
          get-set_at_any s.words (b - 4) (a - 4) w (ground arith),
          same_index 4 a b (ground arith) (ground arith),
        )
        refl
  | inr high_b ↦ let apart : (a == b) ≡ false = ground arith in rw (high_b, f, apart) refl
]

get_prog :
    (s t : Regs) (a b w : ℕ)
    → is_word a ≡ true
    → is_word b ≡ true
    → ltb a 0x20 ≡ false
    → length s.progbuf ≡ prog_size
    → (t.words ≡ s.words) × (t.progbuf ≡ set_at s.progbuf (a - 0x20) w)
    → word_of t b ≡ (if a == b then w else word_of s b)
get_prog s t a b w wa wb high there (e, f) = elim (Bool-cases (ltb b 0x20)) [
  | inl low_b ↦ let apart : (a == b) ≡ false = ground arith in rw (low_b, e, apart) refl
  | inr high_b ↦
      rw
        (
          high_b,
          f,
          get-set_at_any s.progbuf (b - 0x20) (a - 0x20) w (ground arith),
          same_index 0x20 a b (ground arith) (ground arith),
        )
        refl
]

-- The data words and the program buffer are a memory: after a write of `w` at the address `a` has
-- been taken, a read of the address `b` in the next cycle gives `w` if the two are the same, and
-- else what a read of `b` would have given before. A write is taken when there is room for its
-- response, the module is active, no command runs and the hart writes no data at that edge.
pub block_write_read :
    (a b w : ℕ) (n m : Env) (u : Block)
    → is_word a ≡ true
    → is_word b ≡ true
    → Taken n u
    → m.queue_full ≡ false
    → (block_outputs (reading b) m (block_edge (writing a w) n u)).dmi_data
      ≡ (if a == b then w else (block_outputs (reading b) m u).dmi_data)
unfolding block_edge
block_write_read a b w n m u wa wb taken room =
    let o = write_op_of n u a w wa taken.room in
    let s : Regs = tick (to_csrs (writing a w) n u) u.regs in
    let stored : word_of s b ≡ (if a == b then w else word_of u.regs b) =
      elim (Bool-cases (ltb a 0x20)) [
        | inl low ↦ get_data u.regs s a b w wa wb low taken.words_there (
            data_tick (to_csrs (writing a w) n u) u.regs (a - 0x04) w (o ∙ rw low refl) taken.active
              taken.idle taken.no_data)
        | inr high ↦ get_prog u.regs s a b w wa wb high taken.progbuf_there (
            prog_tick (to_csrs (writing a w) n u) u.regs (a - 0x20) w (o ∙ rw high refl)
              taken.active taken.idle taken.no_data)
      ] in
    read_word m (block_edge (writing a w) n u) b wb room
    ∙ stored
    ∙ rw (read_word m u b wb room) refl

-- The bits of a request that writes `dmcontrol`; else a bit is as it was.
abbrev pub written_bit : Op → ℕ → Bool → Bool
written_bit (write_op dmcontrol w) k old = bit_of w k
written_bit _ k old = old

if_false : (b : Bool) (x y : Regs) → b ≡ false → (if b then x else y) ≡ y
if_false b x y h = rw h refl

-- While `dmactive` is 0 every edge leaves the registers as out of reset, whatever is requested or
-- reported, but for two: `dmactive` becomes what a write of `dmcontrol` says, and the record of a
-- reset is set when a reset ends, and is else dropped by a write of `dmcontrol` with `ackhavereset`.
pub inactive_tick :
    (i : Inputs) (s : Regs)
    → s.dmcontrol.dmactive ≡ false
    → tick i s
      ≡ cleared
          (written_bit i.op 0 false)
          (i.ndmreset_ack || (s.havereset && not (written_bit i.op 28 false)))
unfolding tick
inactive_tick i s h =
    let active : (next i s).dmcontrol.dmactive ≡ written_bit i.op 0 false = ground arith in
    let reset : (next i s).havereset
        ≡ (i.ndmreset_ack || (s.havereset && not (written_bit i.op 28 false))) =
      ground arith in
    if_false s.dmcontrol.dmactive _ _ h ∙ ap₂ cleared active reset

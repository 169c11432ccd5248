-- ===== src/AbstractCmd/Transfer.antt =====
-- The abstract commands that move a word between a general register and the debugger's data word:
-- the program of rtl/AbstractCmd_ROM.sv for each, and what a hart that runs it does.
use jtag_debug_module_for_ri.Common.{
  ℕ, ◌+◌, ◌*◌, ◌/◌, ◌%◌, ◌^◌, ◌<◌, ◌≤◌, ◌≡◌, refl, sym, ◌∙◌, Bool, true, false, ◌&&◌, ◌||◌, List,
  [], ◌∷◌, arith, ◌==◌, ◌≢◌, replicate,
}
use jtag_debug_module_for_ri.DebugRom.Csrs.{csr_dscratch1}
use jtag_debug_module_for_ri.DebugRom.Decode.{decode}
use jtag_debug_module_for_ri.DebugRom.Hart.{
  Hart, Access, stored, loaded, trapped, visible, set_reg, to_u32,
}
use jtag_debug_module_for_ri.DebugRom.Runs.{at}
use native.Mathlib.Decide.{ℕ_discrete}
use jtag_debug_module_for_ri.DebugRom.Dispatch.{visible_eq}
use jtag_debug_module_for_ri.AbstractCmd.{decoded, abstract_cmd}
use jtag_debug_module_for_ri.AbstractCmd.Words.{
  auipc, slli, srli, load, store, csrw, csrr, ebreak, nop,
}
use jtag_debug_module_for_ri.Common.Pairs.{try_below, try_below_lem}
use jtag_debug_module_for_ri.AbstractCmd.Decoding.{decode-load, decode-store}
use jtag_debug_module_for_ri.AbstractCmd.Run.{run, runs, runs-add}

-- The command word that writes general register `r` from the data word, and the one that reads it.
abbrev pub write_word : ℕ → ℕ
write_word r = 0x0023_1000 + r

abbrev pub read_word : ℕ → ℕ
read_word r = 0x0022_1000 + r

-- A program with one word in the middle.
abbrev pub around : ℕ → List ℕ
around w =
    csrw csr_dscratch1 10
    ∷ auipc 10 0
    ∷ srli 10 10 12
    ∷ slli 10 10 12
    ∷ w
    ∷ nop
    ∷ nop
    ∷ nop
    ∷ csrr csr_dscratch1 10
    ∷ ebreak
    ∷ replicate 6 0

same_words : List ℕ → List ℕ → Bool
same_words [] [] = true
same_words (a ∷ xs) (b ∷ ys) = a == b && same_words xs ys
same_words _ _ = false

same_words_sound : (xs ys : List ℕ) → same_words xs ys ≡ true → xs ≡ ys
unfolding same_words
same_words_sound [] [] h = refl
same_words_sound (a ∷ xs) (b ∷ ys) h = ground (arith, same_words_sound xs ys)
same_words_sound [] (b ∷ ys) h = cc
same_words_sound (a ∷ xs) [] h = cc

writes :
    try_below
      (λ r.
        r == 10
        || same_words (abstract_cmd true (decoded (write_word r))) (around (load 2 r 10 0x380)))
      32
    ≡ true
unfolding try_below same_words abstract_cmd decoded
writes = refl

reads :
    try_below
      (λ r.
        r == 10
        || same_words (abstract_cmd true (decoded (read_word r))) (around (store 2 r 10 0x380)))
      32
    ≡ true
unfolding try_below same_words abstract_cmd decoded
reads = refl

write_program :
    (r : ℕ)
    → r < 32
    → r ≢ 10
    → abstract_cmd true (decoded (write_word r)) ≡ around (load 2 r 10 0x380)
write_program r h n = same_words_sound _ _ (ground (arith, try_below_lem _ 32 writes r h))

read_program :
    (r : ℕ)
    → r < 32
    → r ≢ 10
    → abstract_cmd true (decoded (read_word r)) ≡ around (store 2 r 10 0x380)
read_program r h n = same_words_sound _ _ (ground (arith, try_below_lem _ 32 reads r h))

module _ (base : ℕ) (regs : ℕ → ℕ) (d0 d1 id : ℕ) (acc : List Access) where
  -- The first four words leave the base in a0.
  enter_cmd :
      (w : ℕ) (flags : List ℕ)
      → let h = runs (around w) base 4 (at 0x338 regs d0 d1 id flags acc) in
        (h ≡ at 0x348 h.regs d0 (regs 10) id flags acc)
        × (h.regs 10 ≡ to_u32 (to_u32 (base + 0x33c + 0) / 4096 * 4096))
        × ((r : ℕ) → r ≢ 0 → r ≢ 10 → h.regs r ≡ regs r)
  unfolding runs run decode
  enter_cmd w flags = (refl, refl, λ r z n. ground arith)

  -- The last five give it back its value.
  leave_cmd :
      (w : ℕ) (flags : List ℕ)
      → let h = runs (around w) base 5 (at 0x34c regs d0 d1 id flags acc) in
        (h ≡ record (at 0x800 h.regs d0 d1 id flags acc) { mode = trapped })
        × (h.regs 10 ≡ d1)
        × ((r : ℕ) → r ≢ 0 → r ≢ 10 → h.regs r ≡ regs r)
  unfolding runs run decode
  leave_cmd w flags = (refl, refl, λ r z n. ground arith)

  load_cmd :
      (r v : ℕ) (rest : List ℕ)
      → r < 32
      → runs (around (load 2 r 10 0x380)) base 1 (at 0x348 regs d0 d1 id (v ∷ rest) acc)
        ≡ at 0x34c
            (set_reg r (v % 2 ^ 32) regs)
            d0
            d1
            id
            rest
            (loaded (to_u32 (visible regs 10 + 0x380)) ∷ acc)
  unfolding runs run
  load_cmd r v rest h = rw (decode-load r h) refl

  store_cmd :
      (r : ℕ) (flags : List ℕ)
      → r < 32
      → runs (around (store 2 r 10 0x380)) base 1 (at 0x348 regs d0 d1 id flags acc)
        ≡ at 0x34c regs d0 d1 id flags
            (stored (to_u32 (visible regs 10 + 0x380)) (visible regs r) ∷ acc)
  unfolding runs run
  store_cmd r flags h = rw (decode-store r h) refl

  -- Register a0 itself goes through s0 and the scratch registers.
  write_a0 :
      (v : ℕ) (rest : List ℕ)
      → let h =
          runs
            (abstract_cmd true (decoded (write_word 10)))
            base
            10
            (at 0x338 regs d0 d1 id (v ∷ rest) acc) in
        (h
          ≡ record (at 0x800 h.regs
              (regs 8)
              (v % 2 ^ 32)
              id
              rest
              (loaded (to_u32 (to_u32 (to_u32 (base + 0x33c + 0) / 4096 * 4096) + 0x380)) ∷ acc)) {
                mode = trapped;
              })
        × (h.regs 10 ≡ v % 2 ^ 32)
        × (h.regs 8 ≡ regs 8)
        × ((r : ℕ) → r ≢ 0 → r ≢ 8 → r ≢ 10 → h.regs r ≡ regs r)
  unfolding runs run decode abstract_cmd decoded
  write_a0 v rest = (refl, refl, refl, λ r z e n. ground arith)

  read_a0 :
      (flags : List ℕ)
      → let h =
          runs
            (abstract_cmd true (decoded (read_word 10)))
            base
            10
            (at 0x338 regs d0 d1 id flags acc) in
        (h
          ≡ record (at 0x800 h.regs (regs 8) (regs 10) id flags (
              stored (to_u32 (to_u32 (to_u32 (base + 0x33c + 0) / 4096 * 4096) + 0x380)) (regs 10)
              ∷ acc)) { mode = trapped })
        × (h.regs 10 ≡ regs 10)
        × (h.regs 8 ≡ regs 8)
        × ((r : ℕ) → r ≢ 0 → r ≢ 8 → r ≢ 10 → h.regs r ≡ regs r)
  unfolding runs run decode abstract_cmd decoded
  read_a0 flags = (refl, refl, refl, λ r z e n. ground arith)

-- What a transfer leaves: the hart back at the start of the debug ROM, with these registers to see.
abbrev pub Finished : List ℕ → ℕ → Hart → ℕ → List ℕ → List Access → (ℕ → ℕ) → Type 0
Finished words base h id flags acc seen =
    (regs' : ℕ → ℕ) × (d0' d1' : ℕ) × (runs words base 10 h
      ≡ record (at 0x800 regs' d0' d1' id flags acc) { mode = trapped })
    × (visible regs' ≡ visible seen)

module _ (base : ℕ) (aligned : base % 4096 ≡ 0) (addressable : base + 4096 ≤ 2 ^ 32) where
  base_found : to_u32 (to_u32 (base + 0x33c + 0) / 4096 * 4096) ≡ base
  base_found = omega (arith, aligned, addressable)

  data_found : {a : ℕ} → a ≡ base → to_u32 (a + 0x380) ≡ base + 0x380
  data_found e = omega (arith, aligned, addressable)

  module _ (regs : ℕ → ℕ) (d0 d1 id : ℕ) (acc : List Access) where
    -- The words around one that, with the base in a0, does not change a0.
    around_one :
        (w : ℕ) (flags flags' : List ℕ) (acc' : List Access) (change : (ℕ → ℕ) → ℕ → ℕ)
        → ((g : ℕ → ℕ)
            → g 10 ≡ base
            → ((r : ℕ) → r ≢ 0 → r ≢ 10 → g r ≡ regs r)
            → (runs (around w) base 1 (at 0x348 g d0 (regs 10) id flags acc)
                ≡ at 0x34c (change g) d0 (regs 10) id flags' acc')
              × ((r : ℕ) → r ≢ 0 → r ≢ 10 → change g r ≡ change regs r))
        → change regs 10 ≡ regs 10
        → Finished (around w) base (at 0x338 regs d0 d1 id flags acc) id flags' acc' (change regs)
    around_one w flags flags' acc' change middle keeps =
        let words = around w in
        let (entered, a0_reg, kept) = enter_cmd base regs d0 d1 id acc w flags in
        let g = (runs words base 4 (at 0x338 regs d0 d1 id flags acc)).regs in
        let (did, same) = middle g (a0_reg ∙ base_found) kept in
        let (left, a0_back, kept') = leave_cmd base (change g) d0 (regs 10) id acc' w flags' in
        let h = runs words base 5 (at 0x34c (change g) d0 (regs 10) id flags' acc') in
        (
          h.regs,
          d0,
          regs 10,
          runs-add words base 4 6 _ ∙ rw entered (runs-add words base 1 5 _ ∙ rw did left),
          visible_eq _ _ (kept' 8 (omega arith) (omega arith) ∙ same 8 (omega arith) (omega arith))
              (a0_back ∙ sym keeps) (λ r z e n. kept' r z n ∙ same r z n),
        )

    -- For each of the 32 general registers, the command that writes it from the data word is done
    -- within ten instructions: the hart is back at the start of the debug ROM, has read the data
    -- word once and accessed nothing else, and its registers are as before but for the one written
    -- (register 0 stays 0).
    pub transfer_write :
        (r v : ℕ) (rest : List ℕ)
        → r < 32
        → Finished
            (abstract_cmd true (decoded (write_word r)))
            base
            (at 0x338 regs d0 d1 id (v ∷ rest) acc)
            id
            rest
            (loaded (base + 0x380) ∷ acc)
            (set_reg r (v % 2 ^ 32) regs)
    transfer_write r v rest lt = elim (ℕ_discrete r 10) [
      | yes a0 ↦
          let (ran, e10, e8, kept) = write_a0 base regs d0 d1 id acc v rest in
          let h =
            runs (abstract_cmd true (decoded (write_word 10))) base 10
              (at 0x338 regs d0 d1 id (v ∷ rest) acc) in
          rw a0 (
            h.regs,
            regs 8,
            v % 2 ^ 32,
            rw (data_found base_found) at ran,
            visible_eq _ _ e8 e10 (λ i z e n. kept i z e n ∙ ground arith),
          )
      | no n ↦ rw (write_program r lt n) (
          around_one (load 2 r 10 0x380) (v ∷ rest) rest (loaded (base + 0x380) ∷ acc)
            (set_reg r (v % 2 ^ 32))
            (λ g found kept. (
              load_cmd base g d0 (regs 10) id acc r v rest lt ∙ rw (data_found found),
              λ i z e. ground (arith, kept i z e),
            ))
            (ground arith))
    ]

    -- For each of the 32 general registers, the command that reads it into the data word is done
    -- within ten instructions: the hart is back at the start of the debug ROM, has stored the
    -- register at the data word once and accessed nothing else, and its registers are as before.
    pub transfer_read :
        (r : ℕ) (flags : List ℕ)
        → r < 32
        → Finished
            (abstract_cmd true (decoded (read_word r)))
            base
            (at 0x338 regs d0 d1 id flags acc)
            id
            flags
            (stored (base + 0x380) (visible regs r) ∷ acc)
            regs
    transfer_read r flags lt = elim (ℕ_discrete r 10) [
      | yes a0 ↦
          let (ran, e10, e8, kept) = read_a0 base regs d0 d1 id acc flags in
          let h =
            runs (abstract_cmd true (decoded (read_word 10))) base 10
              (at 0x338 regs d0 d1 id flags acc) in
          rw a0
            (h.regs, regs 8, regs 10, rw (data_found base_found) at ran, visible_eq _ _ e8 e10 kept)
      | no n ↦ rw (read_program r lt n) (
          around_one (store 2 r 10 0x380) flags flags (stored (base + 0x380) (visible regs r) ∷ acc)
            (λ g. g)
            (λ g found kept.
              let same : visible g r ≡ visible regs r = ground (arith, kept r) in
              (store_cmd base g d0 (regs 10) id acc r flags lt ∙ rw (data_found found, same), kept))
            refl)
    ]

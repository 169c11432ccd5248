-- ===== src/Sba/Lanes.antt =====
-- The byte lanes of rtl/DM_SBA.sv.
use jtag_debug_module_for_ri.Common.{
  ℕ, zero, suc, ltb, leb, ◌+◌, ◌*◌, ◌/◌, ◌%◌, ◌^◌, ◌<◌, ◌≡◌, refl, sym, ap, ◌∙◌, Bool, true, false,
  ◌&&◌, List, [], ◌∷◌, arith,
}
use jtag_debug_module_for_ri.Sba.{read, write, wait_read, Inputs, be_mask, be_idx, outputs}
use jtag_debug_module_for_ri.Sba.Access.{legal}

-- The lanes of `size` bytes from byte `k` of a word on.
abbrev pub lanes : ℕ → ℕ → List Bool
lanes k size =
    let covers = λ (b : ℕ). leb k b && ltb b (k + size) in
    covers 0 ∷ covers 1 ∷ covers 2 ∷ covers 3 ∷ []

enabled :
    (n k : ℕ) (i : Inputs)
    → i.sbaccess ≡ n
    → be_idx i ≡ k
    → ltb 2 n ≡ false
    → k < 4
    → k % 2 ^ n ≡ 0
    → be_mask i ≡ lanes k (2 ^ n)
enabled zero zero i en ek h small al = rw (en, ek) refl
enabled zero (suc zero) i en ek h small al = rw (en, ek) refl
enabled zero (suc (suc zero)) i en ek h small al = rw (en, ek) refl
enabled zero (suc (suc (suc zero))) i en ek h small al = rw (en, ek) refl
enabled zero (suc (suc (suc (suc k)))) i en ek h small al = absurd (omega arith)
enabled (suc zero) zero i en ek h small al = rw (en, ek) refl
enabled (suc zero) (suc zero) i en ek h small al = absurd (omega arith)
enabled (suc zero) (suc (suc zero)) i en ek h small al = rw (en, ek) refl
enabled (suc zero) (suc (suc (suc zero))) i en ek h small al = absurd (omega arith)
enabled (suc zero) (suc (suc (suc (suc k)))) i en ek h small al = absurd (omega arith)
enabled (suc (suc zero)) zero i en ek h small al = rw en refl
enabled (suc (suc zero)) (suc zero) i en ek h small al = absurd (omega arith)
enabled (suc (suc zero)) (suc (suc zero)) i en ek h small al = absurd (omega arith)
enabled (suc (suc zero)) (suc (suc (suc zero))) i en ek h small al = absurd (omega arith)
enabled (suc (suc zero)) (suc (suc (suc (suc k)))) i en ek h small al = absurd (omega arith)
enabled (suc (suc (suc n))) k i en ek h small al = ground arith

aligned_in_word : (n a : ℕ) → ltb 2 n ≡ false → a % 2 ^ n ≡ 0 → (a % 4) % 2 ^ n ≡ 0
aligned_in_word zero a h al = omega arith
aligned_in_word (suc zero) a h al = omega arith
aligned_in_word (suc (suc zero)) a h al = omega arith
aligned_in_word (suc (suc (suc n))) a h al = ground arith

-- Shifted into its lanes and back, a datum has its low bytes.
shifted_back :
    (n k d : ℕ)
    → ltb 2 n ≡ false
    → k < 4
    → k % 2 ^ n ≡ 0
    → ((d * 2 ^ (8 * (k / 2 ^ n * 2 ^ n))) % 2 ^ 32)
        / 2 ^ (8 * (k / 2 ^ n * 2 ^ n))
        % 2 ^ (8 * 2 ^ n)
      ≡ d % 2 ^ (8 * 2 ^ n)
shifted_back zero zero d h small al = omega arith
shifted_back zero (suc zero) d h small al = omega arith
shifted_back zero (suc (suc zero)) d h small al = omega arith
shifted_back zero (suc (suc (suc zero))) d h small al = omega arith
shifted_back zero (suc (suc (suc (suc k)))) d h small al = absurd (omega arith)
shifted_back (suc zero) zero d h small al = omega arith
shifted_back (suc zero) (suc zero) d h small al = omega arith
shifted_back (suc zero) (suc (suc zero)) d h small al = omega arith
shifted_back (suc zero) (suc (suc (suc zero))) d h small al = omega arith
shifted_back (suc zero) (suc (suc (suc (suc k)))) d h small al = absurd (omega arith)
shifted_back (suc (suc zero)) zero d h small al = omega arith
shifted_back (suc (suc zero)) (suc zero) d h small al = omega arith
shifted_back (suc (suc zero)) (suc (suc zero)) d h small al = omega arith
shifted_back (suc (suc zero)) (suc (suc (suc zero))) d h small al = omega arith
shifted_back (suc (suc zero)) (suc (suc (suc (suc k)))) d h small al = absurd (omega arith)
shifted_back (suc (suc (suc n))) k d h small al = ground arith

-- An aligned access starts at its own lane.
lane_start : (n k : ℕ) → ltb 2 n ≡ false → k % 2 ^ n ≡ 0 → k / 2 ^ n * 2 ^ n ≡ k
lane_start zero k h al = omega arith
lane_start (suc zero) k h al = omega arith
lane_start (suc (suc zero)) k h al = omega arith
lane_start (suc (suc (suc n))) k h al = ground arith

-- A legal access, write or read, enables exactly the byte lanes of its size from its address on. A
-- write puts the low bytes of its data on the lanes that start at the address in the word, and a
-- read takes its low bytes from the lanes that start there. So a read at the same place that is
-- answered with the word that the write put on the bus gives, in its low bytes, the data that was
-- written.
pub lanes_carry :
    (i : Inputs)
    → legal i ≡ true
    → ((outputs i write).be ≡ lanes (i.sbaddress % 4) (2 ^ i.sbaccess))
      × ((outputs i read).be ≡ lanes (i.sbaddress % 4) (2 ^ i.sbaccess))
      × ((outputs i write).wdata / 2 ^ (8 * (i.sbaddress % 4)) % 2 ^ (8 * 2 ^ i.sbaccess)
          ≡ i.sbdata % 2 ^ (8 * 2 ^ i.sbaccess))
      × ((outputs i wait_read).sbdata_o % 2 ^ (8 * 2 ^ i.sbaccess)
          ≡ i.r_rdata / 2 ^ (8 * (i.sbaddress % 4)) % 2 ^ (8 * 2 ^ i.sbaccess))
      × ((outputs (record i { r_rdata = (outputs i write).wdata }) wait_read).sbdata_o
            % 2 ^ (8 * 2 ^ i.sbaccess)
          ≡ i.sbdata % 2 ^ (8 * 2 ^ i.sbaccess))
unfolding outputs
lanes_carry i l =
    let k : ℕ = i.sbaddress % 4 in
    let size : ℕ = 2 ^ i.sbaccess in
    let narrow : ltb 2 i.sbaccess ≡ false = ground arith in
    let flat : i.sbaddress % 2 ^ i.sbaccess ≡ 0 = ground arith in
    let al = aligned_in_word i.sbaccess i.sbaddress narrow flat in
    let small : i.sbaddress % 4 < 4 = omega arith in
    let on = enabled i.sbaccess (i.sbaddress % 4) i refl refl narrow small al in
    let start : k / size * size ≡ k = lane_start i.sbaccess k narrow al in
    let back = shifted_back i.sbaccess k i.sbdata narrow small al in
    (
      on,
      on,
      ap (λ m. (i.sbdata * 2 ^ (8 * (k / size * size))) % 2 ^ 32 / 2 ^ (8 * m) % 2 ^ (8 * size))
            (sym start)
          ∙ back,
      ap (λ m. i.r_rdata / 2 ^ (8 * m) % 2 ^ (8 * size)) start,
      back,
    )

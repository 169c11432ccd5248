-- ===== src/DebugRom/Unique.antt =====
-- Words against the rows of the instruction table of debug_rom/encoding.h.
use jtag_debug_module_for_ri.Common.{
  ℕ, zero, suc, inl, inr, ◌≡◌, refl, sym, ap, ◌∙◌, Bool, Bool-cases, true, false, not, ◌&&◌, ◌||◌,
  List, [], ◌∷◌, ◌++◌, some, arith, bit_and, ◌==◌, ==_iff, get_elem?,
}
use jtag_debug_module_for_ri.Common.Bits.{bit_and-right_comm}
use jtag_debug_module_for_ri.Common.Pairs.{test_all, pairwise, pairwise-get}
use jtag_debug_module_for_ri.DebugRom.Encoding.{
  Opcode, fits, opcodes, all_opcodes, expand, find, find_in, disassemble, first_declared,
  second_declared,
}

-- No word fits both rows: they differ on a bit that both masks keep.
clash : Opcode → Opcode → Bool
clash o q = not (bit_and o.match_bits q.mask == bit_and q.match_bits o.mask)

opcodes-clash : pairwise clash opcodes ≡ true
unfolding clash pairwise test_all
opcodes-clash = refl

-- A word that fits two rows refutes their clash.
fits_both : (w : ℕ) (o q : Opcode) → fits w o ≡ true → fits w q ≡ true → clash o q ≡ false
unfolding clash
fits_both w o q ho hq =
    let eo : bit_and w o.mask ≡ o.match_bits = (==_iff _ _).0 ho in
    let eq : bit_and w q.mask ≡ q.match_bits = (==_iff _ _).0 hq in
    rw (← eo, ← eq) (ap not ((==_iff _ _).1 (bit_and-right_comm w o.mask q.mask)))

expand-declared : expand (first_declared ++ second_declared) ≡ some all_opcodes
unfolding expand
expand-declared = refl

-- A row that no word with two ones at its end fits: a compressed instruction.
narrow : Opcode → Bool
narrow o = bit_and 3 o.mask == 3 && not (bit_and o.match_bits 3 == 3)

narrow-fits : (w : ℕ) (o : Opcode) → bit_and w 3 ≡ 3 → fits w o ≡ true → narrow o ≡ false
unfolding narrow
narrow-fits w o wide ho =
    let eo : bit_and w o.mask ≡ o.match_bits = (==_iff _ _).0 ho in
    let low : bit_and o.match_bits 3 ≡ bit_and 3 o.mask =
      ap (λ x. bit_and x 3) (sym eo)
      ∙ bit_and-right_comm w o.mask 3
      ∙ ap (λ x. bit_and x o.mask) wide in
    ground (arith, low)

apart : Opcode → Opcode → Bool
apart o q = narrow o || (narrow q || clash o q)

all_opcodes-apart : pairwise apart all_opcodes ≡ true
unfolding apart narrow clash pairwise test_all
all_opcodes-apart = refl

fits-apart :
    (w : ℕ) (o q : Opcode) → bit_and w 3 ≡ 3 → fits w o ≡ true → fits w q ≡ true → apart o q ≡ false
unfolding apart
fits-apart w o q wide ho hq =
    rw (narrow-fits w o wide ho, narrow-fits w q wide hq) (fits_both w o q ho hq)

-- Two rows that a 32-bit instruction fits are one.
one_row :
    (w i j : ℕ) {o q : Opcode}
    → bit_and w 3 ≡ 3
    → get_elem? all_opcodes i ≡ some o
    → get_elem? all_opcodes j ≡ some q
    → fits w o ≡ true
    → fits w q ≡ true
    → i ≡ j
one_row w i j {o = o} {q = q} wide ei ej ho hq =
    let oq : apart o q ≡ false = fits-apart w o q wide ho hq in
    let qo : apart q o ≡ false = fits-apart w q o wide hq ho in
    elim (pairwise-get apart all_opcodes i j all_opcodes-apart ei ej) [
      | inl same ↦ same
      | inr (inl c) ↦ cc
      | inr (inr c) ↦ cc
    ]

-- The search gives the row that alone fits.
find-get :
    (w : ℕ) (l : List Opcode) (i : ℕ) {o : Opcode}
    → ((j : ℕ) (q : Opcode) → get_elem? l j ≡ some q → fits w q ≡ true → j ≡ i)
    → get_elem? l i ≡ some o
    → fits w o ≡ true
    → find w l ≡ some o.name
unfolding find
find-get w [] i alone e h = cc
find-get w (r ∷ l) zero {o = o} alone e h =
    let same : r ≡ o = cc in let hr : fits w r ≡ true = rw same h in rw (hr, same) refl
find-get w (r ∷ l) (suc i) alone e h = elim (Bool-cases (fits w r)) [
  | inl first ↦ absurd (omega (arith, alone 0 r refl first))
  | inr later ↦ rw later (find-get w l i (λ j q ej hq. omega (arith, alone (suc j) q ej hq)) e h)
]

-- A disassembler made of the DECLARE_INSN list names a 32-bit instruction after the one row whose
-- mask and match it fits: the order of the list does not matter, and no compressed instruction is
-- taken for it.
pub disassemble-fits :
    (w i : ℕ) {o : Opcode}
    → bit_and w 3 ≡ 3
    → get_elem? all_opcodes i ≡ some o
    → fits w o ≡ true
    → disassemble w ≡ some o.name
unfolding disassemble
disassemble-fits w i wide ei ho =
    ap (find_in w) expand-declared
    ∙ (find-get w all_opcodes i (λ j q ej hq. one_row w j i wide ej ei hq ho) ei ho)

-- ===== src/DebugRom/Macros.antt =====
-- debug_rom/encoding.h: the macros with which a program reaches its control and status registers, and
-- the test of a page table's entry. Each of the former is one instruction, with its RISC-V meaning on
-- registers that hold what is written.
--
-- A register is the list of its bits, bit 0 first.
use jtag_debug_module_for_ri.Common.{
  ℕ, ◌+◌, ◌*◌, ◌/◌, ◌^◌, ◌≡◌, ◌≢◌, ap₂, refl, ap, ◌∙◌, Bool, true, false, not, ◌&&◌, ◌||◌, List, [],
  ◌∷◌, arith, bit_and, bit_or, ◌==◌, if◌then◌else◌, length,
}
use mathlib.Core.Path.{fun_ext}
use jtag_debug_module_for_ri.Common.Bits.{bit_and-low_four}
use native.Mathlib.Decide.{ℕ_discrete}
use jtag_debug_module_for_ri.Tap.{value}
use jtag_debug_module_for_ri.DebugRom.Fields.{xlen}
use jtag_debug_module_for_ri.DebugRom.Csrs.{csr_time, csr_cycle, csr_instret}

abbrev pub Word : Type 0
Word = List Bool

-- The registers by their numbers.
abbrev pub Csrs : Type 0
Csrs = ℕ → Word

abbrev pub put : ℕ → Word → Csrs → Csrs
put reg w f r = if r == reg then w else f r

abbrev pub bits_or : Word → Word → Word
bits_or (a ∷ w) (b ∷ m) = (a || b) ∷ bits_or w m
bits_or w m = w

abbrev pub bits_and : Word → Word → Word
bits_and (a ∷ w) (b ∷ m) = (a && b) ∷ bits_and w m
bits_and w m = []

abbrev pub bits_and_not : Word → Word → Word
bits_and_not (a ∷ w) (b ∷ m) = (a && not b) ∷ bits_and_not w m
bits_and_not w m = w

-- `csrr`
unfoldable pub read_csr : ℕ → Csrs → Word
read_csr reg f = f reg

unfoldable pub rdtime : Csrs → Word
unfolding read_csr
rdtime = read_csr csr_time

unfoldable pub rdcycle : Csrs → Word
unfolding read_csr
rdcycle = read_csr csr_cycle

unfoldable pub rdinstret : Csrs → Word
unfolding read_csr
rdinstret = read_csr csr_instret

-- `csrw`
unfoldable pub write_csr : ℕ → Word → Csrs → Csrs
write_csr reg val f = put reg val f

-- `csrrw`, `csrrs` and `csrrc`: what the register held, and the registers after.
unfoldable pub swap_csr : ℕ → Word → Csrs → Word × Csrs
swap_csr reg val f = (f reg, put reg val f)

unfoldable pub set_csr : ℕ → Word → Csrs → Word × Csrs
set_csr reg mask f = (f reg, put reg (bits_or (f reg) mask) f)

unfoldable pub clear_csr : ℕ → Word → Csrs → Word × Csrs
clear_csr reg mask f = (f reg, put reg (bits_and_not (f reg) mask) f)

bits_restored : (w m : Word) → length w ≡ length m → bits_or (bits_and_not w m) (bits_and w m) ≡ w
bits_restored [] m len = refl
bits_restored (a ∷ w) [] len = absurd (omega arith)
bits_restored (true ∷ w) (true ∷ m) len = ap (λ x. true ∷ x) (bits_restored w m (omega arith))
bits_restored (true ∷ w) (false ∷ m) len = ap (λ x. true ∷ x) (bits_restored w m (omega arith))
bits_restored (false ∷ w) (b ∷ m) len = ap (λ x. false ∷ x) (bits_restored w m (omega arith))

bits_and_not_twice : (w m : Word) → bits_and_not (bits_and_not w m) m ≡ bits_and_not w m
bits_and_not_twice [] m = refl
bits_and_not_twice (a ∷ w) [] = refl
bits_and_not_twice (a ∷ w) (true ∷ m) = ap₂ ◌∷◌ (ground arith) (bits_and_not_twice w m)
bits_and_not_twice (a ∷ w) (false ∷ m) = ap₂ ◌∷◌ (ground arith) (bits_and_not_twice w m)

abbrev pub AllFalse : Word → Type 0
AllFalse [] = Unit {0}
AllFalse (b ∷ w) = (b ≡ false) × AllFalse w

bits_cleared : (w m : Word) → AllFalse (bits_and (bits_and_not w m) m)
bits_cleared [] m = tt
bits_cleared (a ∷ w) [] = tt
bits_cleared (true ∷ w) (true ∷ m) = (refl, bits_cleared w m)
bits_cleared (true ∷ w) (false ∷ m) = (refl, bits_cleared w m)
bits_cleared (false ∷ w) (b ∷ m) = (refl, bits_cleared w m)

put_self : (reg : ℕ) (w : Word) (f : Csrs) → put reg w f reg ≡ w
put_self reg w f = ground arith

put_back : (reg : ℕ) (v w : Word) (f : Csrs) → put reg v (put reg w f) ≡ put reg v f
put_back reg v w f = fun_ext λ r. ground arith

put_same : (reg : ℕ) (f : Csrs) → put reg (f reg) f ≡ f
put_same reg f =
    fun_ext
      λ r. elim (ℕ_discrete r reg) [ yes e ↦ rw e (put_self reg (f reg) f) | no ne ↦ ground arith ]

-- A section between `clear_csr` with a mask and `set_csr` with what it gave of that mask: inside,
-- every bit of the mask is clear, the register's other bits are as before, and so are the other
-- registers; whatever the section writes to the other registers, the register is at the end as it
-- was before the section.
pub set_csr-clear_csr :
    (reg : ℕ) (mask : Word) (f g : Csrs)
    → length (f reg) ≡ length mask
    → g reg ≡ (clear_csr reg mask f).1 reg
    → let (old, inside) = clear_csr reg mask f in
      (old ≡ f reg)
      × AllFalse (bits_and (read_csr reg inside) mask)
      × (bits_and_not (read_csr reg inside) mask ≡ bits_and_not (f reg) mask)
      × ((r : ℕ) → r ≢ reg → read_csr r inside ≡ f r)
      × ((set_csr reg (bits_and old mask) g).1 ≡ write_csr reg (f reg) g)
unfolding set_csr clear_csr read_csr write_csr
set_csr-clear_csr reg mask f g len kept =
    let held : put reg (bits_and_not (f reg) mask) f reg ≡ bits_and_not (f reg) mask =
      put_self reg _ f in
    (
      refl,
      rw held (bits_cleared (f reg) mask),
      rw held (bits_and_not_twice (f reg) mask),
      λ r ne. ground (arith, ne),
      ap (λ w. put reg (bits_or w (bits_and (f reg) mask)) g) (kept ∙ held)
          ∙ ap (λ w. put reg w g) (bits_restored (f reg) mask len),
    )

-- `PTE_TABLE`
unfoldable pub pte_table : ℕ → Bool
pte_table pte = bit_and pte (bit_or 0x001 (bit_or 0x002 (bit_or 0x004 0x008))) == 0x001

four : (v r w x : Bool) → (value (v ∷ r ∷ w ∷ x ∷ []) == 1) ≡ (v && not (r || (w || x)))
four v r w true = ground arith
four v r true false = ground arith
four v true false false = ground arith
four true false false false = refl
four false false false false = refl

-- An entry points to a further table exactly if it is valid and may not be read, written or
-- executed itself, whatever its other bits.
pub pte_table_lem :
    (v r w x : Bool) (rest : ℕ)
    → pte_table (value (v ∷ r ∷ w ∷ x ∷ []) + 16 * rest) ≡ (v && not (r || (w || x)))
unfolding pte_table
pte_table_lem v r w x rest =
    let low : bit_and (value (v ∷ r ∷ w ∷ x ∷ []) + 16 * rest) 15 ≡ value (v ∷ r ∷ w ∷ x ∷ []) =
      bit_and-low_four (value (v ∷ r ∷ w ∷ x ∷ []) + 16 * rest) ∙ (ground arith) in
    rw low (four v r w x)

-- `RISCV_PGSHIFT` and `RISCV_PGSIZE`
abbrev pub pgshift : ℕ
pgshift = 12

abbrev pub pgsize : ℕ
pgsize = 1 * 2 ^ pgshift

-- `RISCV_PGLEVEL_BITS`, with 64 or with 32 bits
abbrev pub pglevel_bits : Bool → ℕ
pglevel_bits w = if w then 9 else 10

-- A page holds exactly the entries of one level of a page table, each as wide as a register.
pub pgsize-entries : (w : Bool) → 2 ^ pglevel_bits w * (xlen w / 8) ≡ pgsize
pgsize-entries true = refl
pgsize-entries false = refl

-- ===== src/DebugRom/Csrs.antt =====
-- debug_rom/encoding.h: the table of control and status registers.
mod Row
mod Base
mod Counters
mod Declared
use Row.{Csr, csr}
use Base.{base_csrs}
use Counters.{counter_csrs}
use Declared.{base_declared, counter_declared}
use Prim.Native.String.{String}
use text.Mathlib.Text.{◌==◌ as str_eq}
use jtag_debug_module_for_ri.Common.{
  ℕ, zero, suc, ◌<◌, ◌≡◌, refl, sym, ap, ◌∙◌, ◌⊎◌, inl, inr, Bool, Bool-cases, true, false, not,
  ◌&&◌, ◌||◌, List, [], ◌∷◌, ◌++◌, Option, some, none, arith, ◌==◌, ==_iff, get_elem?, ltb,
  if◌then◌else◌,
}
use jtag_debug_module_for_ri.Common.Pairs.{test_all, pairwise, pairwise-get}

abbrev pub csrs : List Csr
csrs = base_csrs ++ counter_csrs

abbrev pub csr_cycle : ℕ
csr_cycle = 0xc00

abbrev pub csr_time : ℕ
csr_time = 0xc01

abbrev pub csr_instret : ℕ
csr_instret = 0xc02

abbrev pub csr_dscratch : ℕ
csr_dscratch = 0x7b2

abbrev pub csr_dscratch0 : ℕ
csr_dscratch0 = csr_dscratch

abbrev pub csr_dscratch1 : ℕ
csr_dscratch1 = 0x7b3

abbrev pub csr_mhartid : ℕ
csr_mhartid = 0xf14

-- The `CSR_` number of a name.
row_named : String → List Csr → Option Csr
row_named name [] = none
row_named name (r ∷ rest) =
    let later = row_named name rest in if str_eq r.name name then some r else later

-- What the DECLARE_CSR list expands to with the macros before it.
unfoldable pub expand : List String → Option (List Csr)
unfolding row_named
expand [] = some []
expand (name ∷ names) = elim (row_named name csrs) [
  | none ↦ none
  | some r ↦ elim (expand names) [ none ↦ none | some rest ↦ some (r ∷ rest) ]
]

-- The first row of a number.
pub name_of : ℕ → List Csr → Option String
name_of n [] = none
name_of n (r ∷ rest) = let later = name_of n rest in if r.number == n then some r.name else later

name_in : ℕ → Option (List Csr) → Option String
name_in n none = none
name_in n (some rows) = name_of n rows

-- The name that a program which includes the list gives to a number.
unfoldable pub csr_name : ℕ → Option String
unfolding name_in
csr_name n = name_in n (expand (base_declared ++ counter_declared))

-- Both numbers are 12 bits wide, and equal only for `dscratch` under its two names.
compatible : Csr → Csr → Bool
compatible a b =
    (ltb a.number 0x1000 && ltb b.number 0x1000)
    && (not (a.number == b.number) || a.number == csr_dscratch)

csrs-compatible : pairwise compatible csrs ≡ true
unfolding compatible pairwise test_all
csrs-compatible = refl

shared : (a b : Csr) → compatible a b ≡ true → a.number ≡ b.number → a.number ≡ csr_dscratch
unfolding compatible
shared a b h same = ground arith

-- Two rows of a number are one, but for `dscratch`.
one_row :
    (i j : ℕ) {a b : Csr}
    → get_elem? csrs i ≡ some a
    → get_elem? csrs j ≡ some b
    → a.number ≡ b.number
    → (i ≡ j) ⊎ (a.number ≡ csr_dscratch)
one_row i j {a = a} {b = b} ei ej same =
    elim (pairwise-get compatible csrs i j csrs-compatible ei ej) [
      | inl one ↦ inl one
      | inr (inl c) ↦ inr (shared a b c same)
      | inr (inr c) ↦ inr (rw same (shared b a c (sym same)))
    ]

expand-declared : expand (base_declared ++ counter_declared) ≡ some csrs
unfolding expand
expand-declared = refl

-- A row that shares its number with none before it gives the name.
name_of-get :
    (l : List Csr) (i : ℕ) {a : Csr}
    → ((j : ℕ) (b : Csr) → get_elem? l j ≡ some b → b.number ≡ a.number → j ≡ i)
    → get_elem? l i ≡ some a
    → name_of a.number l ≡ some a.name
unfolding name_of
name_of-get [] i alone e = cc
name_of-get (r ∷ l) zero {a = a} alone e =
    let same : r ≡ a = cc in
    let hit : (r.number == a.number) ≡ true = (==_iff _ _).1 (ap (λ (x : Csr). x.number) same) in
    rw hit (ap (λ (x : Csr). some x.name) same)
name_of-get (r ∷ l) (suc i) {a = a} alone e = elim (Bool-cases (r.number == a.number)) [
  | inl first ↦ absurd (omega (arith, alone 0 r refl ((==_iff _ _).0 first)))
  | inr later ↦ rw later (name_of-get l i (λ j b ej hb. omega (arith, alone (suc j) b ej hb)) e)
]

-- The DECLARE_CSR list gives every register of the table its own name under its number, whatever the
-- order of the list, but for `dscratch`, whose number has a second name.
pub csr_name-number :
    (i : ℕ) {a : Csr}
    → get_elem? csrs i ≡ some a
    → (csr_name a.number ≡ some a.name) ⊎ (a.number ≡ csr_dscratch)
unfolding csr_name
csr_name-number i {a = a} e = elim (Bool-cases (a.number == csr_dscratch)) [
  | inl twice ↦ inr ((==_iff _ _).0 twice)
  | inr once ↦ inl (
      ap (name_in a.number) expand-declared
      ∙ name_of-get csrs i
          (λ j b ej hb. elim (one_row j i ej e hb) [
            | inl one ↦ one
            | inr bad ↦ absurd (ground (arith, bad, hb, once))
          ])
          e)
]

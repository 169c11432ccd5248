-- ===== src/Common/Bits.antt =====
-- Laws of `bit_and` at variables, from the recursion on binary digits that it stands for.
use Prim.Native.Nat.{ℕ, zero, suc, ◌+◌, ◌*◌, ◌/◌, ◌%◌, ◌≤◌, min, bit_and, digits, bit_and-bitwise}
use mathlib.Core.Path.{◌≡◌, refl, ◌∙◌, ap}
use native.Mathlib.Nat.{le_refl}
use native.Mathlib.Decide.{dec_le}
use native.Mathlib.Omega.{arith}

-- the recursion, with fuel for its digits
abbrev low_digits : ℕ → ℕ → ℕ → ℕ
low_digits fuel a b = digits (λ _. zero) min fuel a b

-- Any two amounts of fuel that cover the number give the same digits.
low_digits-enough :
    (fuel more x y : ℕ) → x ≤ fuel → x ≤ more → low_digits fuel x y ≡ low_digits more x y
low_digits-enough (suc fuel) (suc more) (suc x) y covers covers' =
    rw (low_digits-enough fuel more (suc x / 2) (y / 2) (omega arith) (omega arith))
low_digits-enough (suc fuel) zero (suc x) y covers covers' = absurd (omega arith)
low_digits-enough zero (suc more) (suc x) y covers covers' = absurd (omega arith)
low_digits-enough zero zero (suc x) y covers covers' = absurd (omega arith)
low_digits-enough (suc fuel) (suc more) zero y covers covers' = refl
low_digits-enough (suc fuel) zero zero y covers covers' = refl
low_digits-enough zero (suc more) zero y covers covers' = refl
low_digits-enough zero zero zero y covers covers' = refl

-- The lowest digit, and the rest.
pub bit_and-halves : (a b : ℕ) → bit_and a b ≡ 2 * bit_and (a / 2) (b / 2) + min (a % 2) (b % 2)
bit_and-halves zero b = omega (arith, bit_and-bitwise 0 b, bit_and-bitwise 0 (b / 2))
bit_and-halves (suc a) b = omega (
  arith,
  bit_and-bitwise (suc a / 2) (b / 2),
  bit_and-bitwise (suc a) b,
  low_digits-enough a (suc a / 2) (suc a / 2) (b / 2) (omega arith) (omega arith),
)

zero-bit_and : (b : ℕ) → bit_and 0 b ≡ 0
zero-bit_and b = bit_and-bitwise 0 b

halves :
    (a b : ℕ)
    → (bit_and a b / 2 ≡ bit_and (a / 2) (b / 2)) × (bit_and a b % 2 ≡ min (a % 2) (b % 2))
halves a b = omega (arith, bit_and-halves a b)

-- Two masks in a row may be applied in either order.
bit_and-right_comm_below : (k a b c : ℕ) → a ≤ k → bit_and (bit_and a b) c ≡ bit_and (bit_and a c) b
bit_and-right_comm_below zero a b c h = let none : a ≡ 0 = omega arith in simp (none, zero-bit_and)
bit_and-right_comm_below (suc k) a b c h = elim (dec_le a 0) [
  | yes small ↦ bit_and-right_comm_below k a b c (omega arith)
  | no large ↦ omega (
    arith,
    bit_and-halves (bit_and a b) c,
    bit_and-halves (bit_and a c) b,
    halves a b,
    halves a c,
    ap (λ x. bit_and x (c / 2)) (halves a b).0,
    ap (λ x. bit_and x (b / 2)) (halves a c).0,
    bit_and-right_comm_below k (a / 2) (b / 2) (c / 2) (omega arith),
  )
]

pub bit_and-right_comm : (a b c : ℕ) → bit_and (bit_and a b) c ≡ bit_and (bit_and a c) b
bit_and-right_comm a b c = bit_and-right_comm_below a a b c (le_refl a)

-- Masks with no bit in common leave nothing of a word that passes the one and then the other.
disjoint_below : (k w a b : ℕ) → w ≤ k → bit_and a b ≡ 0 → bit_and (bit_and w a) b ≡ 0
disjoint_below k zero a b small apart = ap (λ x. bit_and x b) (zero-bit_and a) ∙ zero-bit_and b
disjoint_below zero (suc w) a b small apart = absurd (omega arith)
disjoint_below (suc k) (suc w) a b small apart =
    let (rest, low) = halves a b in
    let rest_apart : bit_and (a / 2) (b / 2) ≡ 0 = omega (arith, rest, apart) in
    let deeper = disjoint_below k (suc w / 2) (a / 2) (b / 2) (omega arith) rest_apart in
    let (upper, lower) = halves (suc w) a in
    omega (
      arith,
      apart,
      low,
      lower,
      bit_and-halves (bit_and (suc w) a) b,
      ap (λ x. bit_and x (b / 2)) upper,
      deeper,
    )

pub bit_and-disjoint : (a b w : ℕ) → bit_and a b ≡ 0 → bit_and (bit_and w a) b ≡ 0
bit_and-disjoint a b w = disjoint_below w w a b (le_refl w)

bit_and-zero_below : (k n : ℕ) → n ≤ k → bit_and n 0 ≡ 0
bit_and-zero_below zero n h = let none : n ≡ 0 = omega arith in rw none (zero-bit_and 0)
bit_and-zero_below (suc k) n h =
    let halved : bit_and n 0 ≡ 2 * bit_and (n / 2) 0 + min (n % 2) 0 = bit_and-halves n 0 in
    let rest : bit_and (n / 2) 0 ≡ 0 = bit_and-zero_below k (n / 2) (omega arith) in omega arith

pub bit_and-low_four : (n : ℕ) → bit_and n 15 ≡ n % 16
bit_and-low_four n =
    let e1 : bit_and n 15 ≡ 2 * bit_and (n / 2) 7 + min (n % 2) 1 = bit_and-halves n 15 in
    let e2 : bit_and (n / 2) 7 ≡ 2 * bit_and (n / 2 / 2) 3 + min (n / 2 % 2) 1 =
      bit_and-halves (n / 2) 7 in
    let e3 : bit_and (n / 2 / 2) 3 ≡ 2 * bit_and (n / 2 / 2 / 2) 1 + min (n / 2 / 2 % 2) 1 =
      bit_and-halves (n / 2 / 2) 3 in
    let e4 : bit_and (n / 2 / 2 / 2) 1
        ≡ 2 * bit_and (n / 2 / 2 / 2 / 2) 0 + min (n / 2 / 2 / 2 % 2) 1 =
      bit_and-halves (n / 2 / 2 / 2) 1 in
    let e5 : bit_and (n / 2 / 2 / 2 / 2) 0 ≡ 0 =
      bit_and-zero_below n (n / 2 / 2 / 2 / 2) (omega arith) in
    omega arith

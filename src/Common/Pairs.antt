-- ===== src/Common/Pairs.antt =====
-- A Boolean test between every two elements of a list, the earlier one first, and a test at every
-- number below a count.
use jtag_debug_module_for_ri.Common.{
  ℕ, zero, suc, ◌≡◌, refl, ap, ◌⊎◌, inl, inr, Bool, true, false, ◌<◌, if◌then◌else◌, ◌&&◌, List, [],
  ◌∷◌, some, arith, get_elem?,
}
use native.Mathlib.Decide.{ℕ_discrete}

module _ {ℓ} {A : Type ℓ} (test : A → A → Bool) where
  unfoldable pub test_all : A → List A → Bool
  test_all a [] = true
  test_all a (b ∷ l) = test a b && test_all a l

  unfoldable pub pairwise : List A → Bool
  unfolding test_all
  pairwise [] = true
  pairwise (a ∷ l) = test_all a l && pairwise l

pub &&-true : {a b : Bool} → (a && b) ≡ true → (a ≡ true) × (b ≡ true)
&&-true h = ground arith

module _ {ℓ} {A : Type ℓ} (test : A → A → Bool) where
  test_all-get :
      (a : A) (l : List A) (j : ℕ) {b : A}
      → test_all test a l ≡ true
      → get_elem? l j ≡ some b
      → test a b ≡ true
  unfolding test_all
  test_all-get a [] j all e = cc
  test_all-get a (c ∷ l) zero {b = b} all e =
      let same : c ≡ b = cc in let kept : test a c ≡ true = (&&-true all).0 in rw (← same) kept
  test_all-get a (c ∷ l) (suc j) all e = test_all-get a l j (&&-true all).1 e

  -- Two elements of a list that passes the test pairwise are at one index, or pass it in their
  -- order.
  pub pairwise-get :
      (l : List A) (i j : ℕ) {a b : A}
      → pairwise test l ≡ true
      → get_elem? l i ≡ some a
      → get_elem? l j ≡ some b
      → (i ≡ j) ⊎ ((test a b ≡ true) ⊎ (test b a ≡ true))
  unfolding pairwise
  pairwise-get [] i j p ei ej = cc
  pairwise-get (c ∷ l) zero zero p ei ej = inl refl
  pairwise-get (c ∷ l) zero (suc j) {a = a} p ei ej =
      let same : c ≡ a = cc in inr (inl (rw (← same) (test_all-get c l j (&&-true p).0 ej)))
  pairwise-get (c ∷ l) (suc i) zero {b = b} p ei ej =
      let same : c ≡ b = cc in inr (inr (rw (← same) (test_all-get c l i (&&-true p).0 ei)))
  pairwise-get (c ∷ l) (suc i) (suc j) p ei ej = elim (pairwise-get l i j (&&-true p).1 ei ej) [
    | inl same ↦ inl (ap suc same)
    | inr apart ↦ inr apart
  ]

-- A test, tried at every number below a count.
unfoldable pub try_below : (ℕ → Bool) → ℕ → Bool
try_below test zero = true
try_below test (suc count) = let lower = try_below test count in if test count then lower else false

pub try_below_lem :
    (test : ℕ → Bool) (count : ℕ)
    → try_below test count ≡ true
    → (x : ℕ) → x < count
    → test x ≡ true
unfolding try_below
try_below_lem test zero tried x small = absurd (omega arith)
try_below_lem test (suc count) tried x small = elim (ℕ_discrete x count) [
  | yes last ↦ rw last (ground arith)
  | no other ↦ try_below_lem test count (ground arith) x (omega arith)
]

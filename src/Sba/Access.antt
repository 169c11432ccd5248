-- ===== src/Sba/Access.antt =====
-- Whole accesses of rtl/DM_SBA.sv, and the accesses that it refuses.
use jtag_debug_module_for_ri.Common.{
  ℕ, zero, suc, ltb, ◌+◌, ◌%◌, ◌^◌, ◌≡◌, refl, ◌∙◌, ap, Bool, true, false, not, ◌||◌, List, [], ◌∷◌,
  ◌++◌, arith, if◌then◌else◌,
}
use jtag_debug_module_for_ri.Sba.{
  State, idle, read, write, wait_read, wait_write, Inputs, too_wide, misaligned, answer_error,
  outputs, step, is_idle,
}

-- The access is of a size that the bus has, at an address of that alignment.
abbrev pub legal : Inputs → Bool
legal i = not (too_wide i || misaligned i)

-- An access that is not legal makes no request and gives up at once, with error 3 for the alignment
-- or else 4 for the size, in every state but `idle`.
pub refused_at_once :
    (i : Inputs) (s : State)
    → legal i ≡ false
    → is_idle s ≡ false
    → ((outputs i s).req ≡ false)
      × (step i s ≡ idle)
      × ((outputs i s).sberror_valid ≡ true)
      × ((outputs i s).sberror ≡ (if misaligned i then 3 else 4))
unfolding outputs step
refused_at_once i s h b = ground arith

-- The states of a write, or of a read.
abbrev pub asking : Bool → State
asking w = if w then write else read

abbrev pub waiting : Bool → State
waiting w = if w then wait_write else wait_read

unfoldable pub steps : List Inputs → State → State
steps [] s = s
steps (i ∷ is) s = steps is (step i s)

steps-append : (is js : List Inputs) (s : State) → steps (is ++ js) s ≡ steps js (steps is s)
unfolding steps
steps-append [] js s = refl
steps-append (i ∷ is) js s = steps-append is js (step i s)

-- Legal edges at which the bus does not grant, or does not answer.
abbrev pub AllUngranted : List Inputs → Type 0
AllUngranted [] = Unit {0}
AllUngranted (i ∷ is) = (legal i ≡ true) × (i.gnt ≡ false) × AllUngranted is

abbrev pub AllUnanswered : List Inputs → Type 0
AllUnanswered [] = Unit {0}
AllUnanswered (i ∷ is) = (legal i ≡ true) × (i.r_valid ≡ false) × AllUnanswered is

pub ask_waits :
    (w : Bool) (i : Inputs) → legal i ≡ true → i.gnt ≡ false → step i (asking w) ≡ asking w
unfolding step
ask_waits true i l g = ground arith
ask_waits false i l g = ground arith

pub ask_granted :
    (w : Bool) (i : Inputs) → legal i ≡ true → i.gnt ≡ true → step i (asking w) ≡ waiting w
unfolding step
ask_granted true i l g = ground arith
ask_granted false i l g = ground arith

pub answer_waits :
    (w : Bool) (i : Inputs) → legal i ≡ true → i.r_valid ≡ false → step i (waiting w) ≡ waiting w
unfolding step
answer_waits true i l g = ground arith
answer_waits false i l g = ground arith

steps-ask_waits : (w : Bool) (is : List Inputs) → AllUngranted is → steps is (asking w) ≡ asking w
unfolding steps
steps-ask_waits w [] a = refl
steps-ask_waits w (i ∷ is) a = ap (steps is) (ask_waits w i a.0 a.1) ∙ steps-ask_waits w is a.2

steps-answer_waits :
    (w : Bool) (is : List Inputs) → AllUnanswered is → steps is (waiting w) ≡ waiting w
unfolding steps
steps-answer_waits w [] a = refl
steps-answer_waits w (i ∷ is) a =
    ap (steps is) (answer_waits w i a.0 a.1) ∙ steps-answer_waits w is a.2

size_small : (n : ℕ) → ltb 2 n ≡ false → 2 ^ n % 2 ^ 32 ≡ 2 ^ n
size_small zero h = refl
size_small (suc zero) h = refl
size_small (suc (suc zero)) h = refl
size_small (suc (suc (suc n))) h = ground arith

not_wide : (i : Inputs) → legal i ≡ true → too_wide i ≡ false
not_wide i l = ground arith

pub answered_shows :
    (w : Bool) (i : Inputs)
    → legal i ≡ true
    → i.r_valid ≡ true
    → (step i (waiting w) ≡ idle)
      × ((outputs i (waiting w)).sbaddress_o
          ≡ (i.sbaddress + (if i.sbautoincrement then 2 ^ i.sbaccess else 0)) % 2 ^ 32)
      × ((outputs i (waiting w)).sberror_valid ≡ (i.r_other_err || i.r_err))
      × ((outputs i (waiting w)).sberror ≡ answer_error i)
unfolding outputs step
answered_shows true i l v =
    let small = size_small i.sbaccess (not_wide i l) in
    (ground arith, rw (v, small) refl, ground arith, ground arith)
answered_shows false i l v =
    let small = size_small i.sbaccess (not_wide i l) in
    (ground arith, rw (v, small) refl, ground arith, ground arith)

-- A legal access, read or write, however long the bus takes to grant it and to answer, is waiting
-- for its answer once granted, and ends at the answer: the module is idle, the address moves on by
-- the size of the access where auto-increment is set, and the error is the one that the bus reports.
pub access_runs :
    (w : Bool) (start granted answer : Inputs) (waits pends : List Inputs)
    → step start idle ≡ asking w
    → AllUngranted waits
    → legal granted ≡ true
    → granted.gnt ≡ true
    → AllUnanswered pends
    → legal answer ≡ true
    → answer.r_valid ≡ true
    → (steps (start ∷ (waits ++ (granted ∷ pends))) idle ≡ waiting w)
      × (step answer (waiting w) ≡ idle)
      × ((outputs answer (waiting w)).sbaddress_o
          ≡ (answer.sbaddress + (if answer.sbautoincrement then 2 ^ answer.sbaccess else 0))
            % 2 ^ 32)
      × ((outputs answer (waiting w)).sberror_valid ≡ (answer.r_other_err || answer.r_err))
      × ((outputs answer (waiting w)).sberror ≡ answer_error answer)
unfolding steps
access_runs w start granted answer waits pends a hw lg g hp la v =
    let (ends, moved, marked, error) = answered_shows w answer la v in
    (
      ap (steps (waits ++ (granted ∷ pends))) a
          ∙ steps-append waits (granted ∷ pends) (asking w)
          ∙ ap (steps (granted ∷ pends)) (steps-ask_waits w waits hw)
          ∙ ap (steps pends) (ask_granted w granted lg g)
          ∙ steps-answer_waits w pends hp,
      ends,
      moved,
      marked,
      error,
    )

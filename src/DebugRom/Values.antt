-- ===== src/DebugRom/Values.antt =====
-- debug_rom/encoding.h: the values that it names for fields of single registers, the interrupts, the
-- privilege levels, and the places of the memory map.
use Prim.Native.String.{String}
use text.Mathlib.Text.{◌==◌ as str_eq}
use jtag_debug_module_for_ri.Common.{
  ℕ, zero, suc, ◌*◌, ◌/◌, ◌%◌, ◌^◌, ◌≡◌, refl, Bool, true, not, false, ◌||◌, List, [], ◌∷◌, ◌++◌,
  map, Option, some, none, bit_and, ◌==◌, if◌then◌else◌,
}
use jtag_debug_module_for_ri.Common.Pairs.{test_all, pairwise}
use jtag_debug_module_for_ri.DebugRom.Fields.{
  Field, Register, mstatus, sstatus, dcsr, mcontrol, mip, satp, pmp, pte, fields,
}

-- A value of a field, by the names of the field and of the value.
pub record Value : Type 0 where
  pub field : String
  pub name : String
  pub code : ℕ

abbrev value : String → String → ℕ → Value
value field name code = record { field = field; name = name; code = code }

-- `PRV_`
abbrev pub prv_values : List Value
prv_values = value "prv" "u" 0 ∷ value "prv" "s" 1 ∷ value "prv" "h" 2 ∷ value "prv" "m" 3 ∷ []

-- `DCSR_CAUSE_`
abbrev pub dcsr_cause_values : List Value
dcsr_cause_values =
    value "cause" "none" 0
    ∷ value "cause" "swbp" 1
    ∷ value "cause" "hwbp" 2
    ∷ value "cause" "debugint" 3
    ∷ value "cause" "step" 4
    ∷ value "cause" "halt" 5
    ∷ []

-- `MCONTROL_TYPE_`, `MCONTROL_ACTION_`, `MCONTROL_MATCH_`
abbrev pub mcontrol_values : List Value
mcontrol_values =
    value "type" "none" 0
    ∷ value "type" "match" 2
    ∷ value "action" "debug_exception" 0
    ∷ value "action" "debug_mode" 1
    ∷ value "action" "trace_start" 2
    ∷ value "action" "trace_stop" 3
    ∷ value "action" "trace_emit" 4
    ∷ value "match" "equal" 0
    ∷ value "match" "napot" 1
    ∷ value "match" "ge" 2
    ∷ value "match" "lt" 3
    ∷ value "match" "mask_low" 4
    ∷ value "match" "mask_high" 5
    ∷ []

-- `SATP_MODE_`: those of a register with 32 bits, and those of one with 64.
abbrev pub satp_mode_values : Bool → List Value
satp_mode_values w =
    if w
    then value "mode" "off" 0
      ∷ value "mode" "sv39" 8
      ∷ value "mode" "sv48" 9
      ∷ value "mode" "sv57" 10
      ∷ value "mode" "sv64" 11
      ∷ []
    else value "mode" "off" 0 ∷ value "mode" "sv32" 1 ∷ []

-- `PMP_TOR`, `PMP_NA4` and `PMP_NAPOT`, which the file gives in their place in the register.
abbrev pub pmp_placed : List (String × ℕ)
pmp_placed = ("tor", 0x08) ∷ ("na4", 0x10) ∷ ("napot", 0x18) ∷ []

-- `IRQ_`
abbrev pub irqs : List (String × ℕ)
irqs =
    ("s_soft", 1)
    ∷ ("h_soft", 2)
    ∷ ("m_soft", 3)
    ∷ ("s_timer", 5)
    ∷ ("h_timer", 6)
    ∷ ("m_timer", 7)
    ∷ ("s_ext", 9)
    ∷ ("h_ext", 10)
    ∷ ("m_ext", 11)
    ∷ ("cop", 12)
    ∷ ("host", 13)
    ∷ []

abbrev pub values : Register → Bool → List Value
values dcsr w = dcsr_cause_values
values mcontrol w = mcontrol_values
values satp w = satp_mode_values w
values _ w = []

pub field_named : String → List Field → Option Field
field_named name [] = none
field_named name (f ∷ l) =
    let later = field_named name l in if str_eq f.name name then some f else later

-- The lowest bit of a mask, of at most as many bits as the fuel.
lowest : ℕ → ℕ → ℕ
lowest zero m = 0
lowest (suc fuel) m = let rest = 2 * lowest fuel (m / 2) in if m % 2 == 1 then 1 else rest

-- What a program reads back from the field of a register that it wrote the value to.
pub read_back : Value → Option Field → Option ℕ
unfolding lowest
read_back v none = none
read_back v (some f) = some (bit_and (v.code * lowest 64 f.mask) f.mask / lowest 64 f.mask)

pub distinct : Value → Value → Bool
distinct a b = not (str_eq a.field b.field) || not (a.code == b.code)

-- At either width each named value goes whole into its field, and no two values of a field are one.
pub values-fields :
    (r : Register) (w : Bool)
    → (map (λ (v : Value). read_back v (field_named v.field (fields r w))) (values r w)
        ≡ map (λ (v : Value). some v.code) (values r w))
      × (pairwise distinct (values r w) ≡ true)
unfolding read_back field_named distinct pairwise test_all
values-fields dcsr w = (refl, refl)
values-fields mcontrol true = (refl, refl)
values-fields mcontrol false = (refl, refl)
values-fields satp true = (refl, refl)
values-fields satp false = (refl, refl)
values-fields mstatus w = (refl, refl)
values-fields sstatus w = (refl, refl)
values-fields mip w = (refl, refl)
values-fields pmp w = (refl, refl)
values-fields pte w = (refl, refl)

-- The bits of mip are those of the interrupts that the file numbers, but the last two.
pub mip-irqs :
    (w : Bool)
    → map (λ (f : Field). f.mask) (fields mip w) ++ 2 ^ 12 ∷ 2 ^ 13 ∷ []
      ≡ map (λ (q : String × ℕ). 2 ^ q.1) irqs
mip-irqs w = refl

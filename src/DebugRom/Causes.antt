-- ===== src/DebugRom/Causes.antt =====
-- debug_rom/encoding.h: the causes of exceptions, CAUSE_X, and the DECLARE_CAUSE list, which names
-- each again with a text.
use Prim.Native.String.{String}
use text.Mathlib.Text.{◌==◌ as str_eq}
use jtag_debug_module_for_ri.Common.{
  ℕ, ◌≡◌, refl, List, [], ◌∷◌, map, Option, some, none, ◌==◌, if◌then◌else◌,
}

-- A cause by a name, the macro's or the text's, and its number.
pub record Cause : Type 0 where
  pub name : String
  pub number : ℕ

abbrev cause : String → ℕ → Cause
cause name number = record { name = name; number = number }

-- the macros, without the `CAUSE_` before each
abbrev pub causes : List Cause
causes =
    cause "MISALIGNED_FETCH" 0x0
    ∷ cause "FETCH_ACCESS" 0x1
    ∷ cause "ILLEGAL_INSTRUCTION" 0x2
    ∷ cause "BREAKPOINT" 0x3
    ∷ cause "MISALIGNED_LOAD" 0x4
    ∷ cause "LOAD_ACCESS" 0x5
    ∷ cause "MISALIGNED_STORE" 0x6
    ∷ cause "STORE_ACCESS" 0x7
    ∷ cause "USER_ECALL" 0x8
    ∷ cause "SUPERVISOR_ECALL" 0x9
    ∷ cause "HYPERVISOR_ECALL" 0xa
    ∷ cause "MACHINE_ECALL" 0xb
    ∷ cause "FETCH_PAGE_FAULT" 0xc
    ∷ cause "LOAD_PAGE_FAULT" 0xd
    ∷ cause "STORE_PAGE_FAULT" 0xf
    ∷ []

-- the lines, the text and then the macro
abbrev pub declared_causes : List (String × String)
declared_causes =
    ("misaligned fetch", "MISALIGNED_FETCH")
    ∷ ("fetch access", "FETCH_ACCESS")
    ∷ ("illegal instruction", "ILLEGAL_INSTRUCTION")
    ∷ ("breakpoint", "BREAKPOINT")
    ∷ ("misaligned load", "MISALIGNED_LOAD")
    ∷ ("load access", "LOAD_ACCESS")
    ∷ ("misaligned store", "MISALIGNED_STORE")
    ∷ ("store access", "STORE_ACCESS")
    ∷ ("user_ecall", "USER_ECALL")
    ∷ ("supervisor_ecall", "SUPERVISOR_ECALL")
    ∷ ("hypervisor_ecall", "HYPERVISOR_ECALL")
    ∷ ("machine_ecall", "MACHINE_ECALL")
    ∷ ("fetch page fault", "FETCH_PAGE_FAULT")
    ∷ ("load page fault", "LOAD_PAGE_FAULT")
    ∷ ("store page fault", "STORE_PAGE_FAULT")
    ∷ []

-- The number of a macro.
number_of : String → List Cause → Option ℕ
number_of name [] = none
number_of name (c ∷ rest) =
    let later = number_of name rest in if str_eq c.name name then some c.number else later

-- What the list expands to: the texts with the numbers.
unfoldable pub expand : List (String × String) → Option (List Cause)
unfolding number_of
expand [] = some []
expand ((text, name) ∷ lines) = elim (number_of name causes) [
  | none ↦ none
  | some n ↦ elim (expand lines) [ none ↦ none | some rest ↦ some (cause text n ∷ rest) ]
]

-- The first text of a number, as a `switch` over the list gives it.
text_of : ℕ → List Cause → Option String
text_of n [] = none
text_of n (c ∷ rest) = let later = text_of n rest in if c.number == n then some c.name else later

abbrev with_rows : {A : Type 0} → (List Cause → Option A) → Option (List Cause) → Option A
with_rows f none = none
with_rows f (some rows) = f rows

unfoldable pub cause_text : ℕ → Option String
unfolding text_of expand
cause_text n = with_rows (text_of n) (expand declared_causes)

unfoldable pub cause_number : String → Option ℕ
unfolding number_of expand
cause_number text = with_rows (number_of text) (expand declared_causes)

-- The number of the text that a number has.
abbrev there_and_back : Option String → Option ℕ
there_and_back none = none
there_and_back (some text) = cause_number text

-- The DECLARE_CAUSE list gives the number of every CAUSE macro a text, and that text leads back to
-- the number.
pub cause_text-number :
    map (λ (c : Cause). there_and_back (cause_text c.number)) causes
    ≡ map (λ (c : Cause). some c.number) causes
unfolding cause_text cause_number
cause_text-number = refl

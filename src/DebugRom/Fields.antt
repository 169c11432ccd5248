-- ===== src/DebugRom/Fields.antt =====
-- debug_rom/encoding.h: the fields of single registers, as masks of the bits that they take.
use Prim.Native.String.{String}
use jtag_debug_module_for_ri.Common.{
  ℕ, ◌-◌, ◌*◌, ◌^◌, ◌≡◌, ◌⊎◌, ◌∙◌, refl, inl, inr, Bool, true, false, List, [], ◌∷◌, some, bit_and,
  ◌==◌, ==_iff, get_elem?, if◌then◌else◌,
}
use jtag_debug_module_for_ri.Common.Bits.{bit_and-right_comm, bit_and-disjoint}
use jtag_debug_module_for_ri.Common.Pairs.{test_all, pairwise, pairwise-get}

pub record Field : Type 0 where
  pub name : String
  pub mask : ℕ

abbrev field : String → ℕ → Field
field name mask = record { name = name; mask = mask }

-- `__riscv_xlen`, 64 or 32
abbrev pub xlen : Bool → ℕ
xlen w = if w then 64 else 32

abbrev pub mstatus_fields : Bool → List Field
mstatus_fields w =
    field "uie" 0x00000001
    ∷ field "sie" 0x00000002
    ∷ field "hie" 0x00000004
    ∷ field "mie" 0x00000008
    ∷ field "upie" 0x00000010
    ∷ field "spie" 0x00000020
    ∷ field "hpie" 0x00000040
    ∷ field "mpie" 0x00000080
    ∷ field "spp" 0x00000100
    ∷ field "hpp" 0x00000600
    ∷ field "mpp" 0x00001800
    ∷ field "fs" 0x00006000
    ∷ field "xs" 0x00018000
    ∷ field "mprv" 0x00020000
    ∷ field "sum" 0x00040000
    ∷ field "mxr" 0x00080000
    ∷ field "tvm" 0x00100000
    ∷ field "tw" 0x00200000
    ∷ field "tsr" 0x00400000
    ∷ field "uxl" 0x0000000300000000
    ∷ field "sxl" 0x0000000C00000000
    ∷ field "sd" (if w then 0x8000000000000000 else 0x80000000)
    ∷ []

abbrev pub sstatus_fields : Bool → List Field
sstatus_fields w =
    field "uie" 0x00000001
    ∷ field "sie" 0x00000002
    ∷ field "upie" 0x00000010
    ∷ field "spie" 0x00000020
    ∷ field "spp" 0x00000100
    ∷ field "fs" 0x00006000
    ∷ field "xs" 0x00018000
    ∷ field "sum" 0x00040000
    ∷ field "mxr" 0x00080000
    ∷ field "uxl" 0x0000000300000000
    ∷ field "sd" (if w then 0x8000000000000000 else 0x80000000)
    ∷ []

abbrev pub dcsr_fields : Bool → List Field
dcsr_fields w =
    field "xdebugver" (3 * 2 ^ 30)
    ∷ field "ndreset" (1 * 2 ^ 29)
    ∷ field "fullreset" (1 * 2 ^ 28)
    ∷ field "ebreakm" (1 * 2 ^ 15)
    ∷ field "ebreakh" (1 * 2 ^ 14)
    ∷ field "ebreaks" (1 * 2 ^ 13)
    ∷ field "ebreaku" (1 * 2 ^ 12)
    ∷ field "stopcycle" (1 * 2 ^ 10)
    ∷ field "stoptime" (1 * 2 ^ 9)
    ∷ field "cause" (7 * 2 ^ 6)
    ∷ field "debugint" (1 * 2 ^ 5)
    ∷ field "halt" (1 * 2 ^ 3)
    ∷ field "step" (1 * 2 ^ 2)
    ∷ field "prv" (3 * 2 ^ 0)
    ∷ []

abbrev pub mcontrol_fields : Bool → List Field
mcontrol_fields w =
    field "type" (0xf * 2 ^ (xlen w - 4))
    ∷ field "dmode" (1 * 2 ^ (xlen w - 5))
    ∷ field "maskmax" (0x3f * 2 ^ (xlen w - 11))
    ∷ field "select" (1 * 2 ^ 19)
    ∷ field "timing" (1 * 2 ^ 18)
    ∷ field "action" (0x3f * 2 ^ 12)
    ∷ field "chain" (1 * 2 ^ 11)
    ∷ field "match" (0xf * 2 ^ 7)
    ∷ field "m" (1 * 2 ^ 6)
    ∷ field "h" (1 * 2 ^ 5)
    ∷ field "s" (1 * 2 ^ 4)
    ∷ field "u" (1 * 2 ^ 3)
    ∷ field "execute" (1 * 2 ^ 2)
    ∷ field "store" (1 * 2 ^ 1)
    ∷ field "load" (1 * 2 ^ 0)
    ∷ []

abbrev pub mip_fields : Bool → List Field
mip_fields w =
    field "ssip" (1 * 2 ^ 1)
    ∷ field "hsip" (1 * 2 ^ 2)
    ∷ field "msip" (1 * 2 ^ 3)
    ∷ field "stip" (1 * 2 ^ 5)
    ∷ field "htip" (1 * 2 ^ 6)
    ∷ field "mtip" (1 * 2 ^ 7)
    ∷ field "seip" (1 * 2 ^ 9)
    ∷ field "heip" (1 * 2 ^ 10)
    ∷ field "meip" (1 * 2 ^ 11)
    ∷ []

abbrev pub satp_fields : Bool → List Field
satp_fields w =
    if w
    then field "mode" 0xF000000000000000
      ∷ field "asid" 0x0FFFF00000000000
      ∷ field "ppn" 0x00000FFFFFFFFFFF
      ∷ []
    else field "mode" 0x80000000 ∷ field "asid" 0x7FC00000 ∷ field "ppn" 0x003FFFFF ∷ []

abbrev pub pmp_fields : Bool → List Field
pmp_fields w =
    field "r" 0x01 ∷ field "w" 0x02 ∷ field "x" 0x04 ∷ field "a" 0x18 ∷ field "l" 0x80 ∷ []

abbrev pub pte_fields : Bool → List Field
pte_fields w =
    field "v" 0x001
    ∷ field "r" 0x002
    ∷ field "w" 0x004
    ∷ field "x" 0x008
    ∷ field "u" 0x010
    ∷ field "g" 0x020
    ∷ field "a" 0x040
    ∷ field "d" 0x080
    ∷ field "soft" 0x300
    ∷ []

-- The registers that the file gives fields for.
pub data Register : Type 0 where
  mstatus sstatus dcsr mcontrol mip satp pmp pte : Register

abbrev pub fields : Register → Bool → List Field
fields mstatus w = mstatus_fields w
fields sstatus w = sstatus_fields w
fields dcsr w = dcsr_fields w
fields mcontrol w = mcontrol_fields w
fields mip w = mip_fields w
fields satp w = satp_fields w
fields pmp w = pmp_fields w
fields pte w = pte_fields w

disjoint : Field → Field → Bool
disjoint f g = bit_and f.mask g.mask == 0

fields-disjoint : (r : Register) (w : Bool) → pairwise disjoint (fields r w) ≡ true
unfolding disjoint pairwise test_all
fields-disjoint mstatus true = refl
fields-disjoint mstatus false = refl
fields-disjoint _ true = refl
fields-disjoint _ false = refl

overlap : (f g : Field) (x : ℕ) → disjoint f g ≡ true → bit_and (bit_and x f.mask) g.mask ≡ 0
unfolding disjoint
overlap f g x h = bit_and-disjoint f.mask g.mask x ((==_iff _ _).0 h)

-- Two fields of a register, at either width, have no bit of any word in common.
pub fields_apart :
    (r : Register) (w : Bool) (i j x : ℕ) {f g : Field}
    → get_elem? (fields r w) i ≡ some f
    → get_elem? (fields r w) j ≡ some g
    → (i ≡ j) ⊎ (bit_and (bit_and x f.mask) g.mask ≡ 0)
fields_apart r w i j x {f = f} {g = g} ei ej =
    elim (pairwise-get disjoint (fields r w) i j (fields-disjoint r w) ei ej) [
      | inl same ↦ inl same
      | inr (inl c) ↦ inr (overlap f g x c)
      | inr (inr c) ↦ inr (bit_and-right_comm x f.mask g.mask ∙ overlap g f x c)
    ]

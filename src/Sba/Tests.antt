-- ===== src/Sba/Tests.antt =====
-- The theorems on the system bus access at concrete inputs.
use jtag_debug_module_for_ri.Common.{◌≡◌, refl, true, false, [], ◌∷◌, ◌%◌, ◌/◌, ◌^◌}
use jtag_debug_module_for_ri.Sba.{idle, read, write, wait_read, wait_write, Inputs, outputs, step}
use jtag_debug_module_for_ri.Sba.Access.{steps, refused_at_once, access_runs}
use jtag_debug_module_for_ri.Sba.Lanes.{lanes_carry}

-- Half-words, at byte 2 of a word, with auto-increment.
abbrev half : Inputs
half = record {
  gnt = false;
  r_valid = false;
  r_err = false;
  r_other_err = false;
  r_rdata = 0x1234_5678;
  sbaddress = 0x1c00_0102;
  sbaddress_write_valid = false;
  sbreadonaddr = false;
  sbautoincrement = true;
  sbaccess = 1;
  sbreadondata = false;
  sbdata = 0xbeef;
  sbdata_read_valid = false;
  sbdata_write_valid = false;
}

abbrev writes : Inputs
writes = record half { sbdata_write_valid = true }

abbrev grants : Inputs
grants = record half { gnt = true }

abbrev fails : Inputs
fails = record half { r_valid = true; r_err = true }

abbrev odd : Inputs
odd = record half { sbaddress = 0x1c00_0101; gnt = true }

access_runs_once :
    (steps (writes ∷ (half ∷ (grants ∷ (half ∷ (half ∷ []))))) idle ≡ wait_write)
    × (step fails wait_write ≡ idle)
    × ((outputs fails wait_write).sbaddress_o ≡ 0x1c00_0104)
    × ((outputs fails wait_write).sberror_valid ≡ true)
    × ((outputs fails wait_write).sberror ≡ 2)
unfolding step
access_runs_once =
    access_runs true writes grants fails (half ∷ []) (half ∷ half ∷ []) refl (refl, refl, tt) refl
      refl (refl, refl, (refl, refl, tt)) refl refl

refused_at_once_once :
    ((outputs odd read).req ≡ false)
    × (step odd read ≡ idle)
    × ((outputs odd read).sberror_valid ≡ true)
    × ((outputs odd read).sberror ≡ 3)
refused_at_once_once = refused_at_once odd read refl refl

lanes_carry_example :
    ((outputs half write).be ≡ false ∷ false ∷ true ∷ true ∷ [])
    × ((outputs half read).be ≡ false ∷ false ∷ true ∷ true ∷ [])
    × ((outputs half write).wdata / 2 ^ 16 % 2 ^ 16 ≡ 0xbeef)
    × ((outputs half wait_read).sbdata_o % 2 ^ 16 ≡ 0x1234)
    × ((outputs (record half { r_rdata = (outputs half write).wdata }) wait_read).sbdata_o % 2 ^ 16
        ≡ 0xbeef)
lanes_carry_example = lanes_carry half refl

-- ===== src/DebugRom/Csrs/Row.antt =====
-- One line of the register table of debug_rom/encoding.h: the name and `CSR_X`.
use Prim.Native.String.{String}
use jtag_debug_module_for_ri.Common.{ℕ}

pub record Csr : Type 0 where
  pub name : String
  pub number : ℕ

abbrev pub csr : String → ℕ → Csr
csr name number = record { name = name; number = number }

-- ===== src/AbstractCmd/Run.antt =====
-- A hart that runs the words of rtl/AbstractCmd_ROM.sv, which the debug module shows at 0x338
-- (`AbstractCmdBaseAddr` of rtl/DM_Mem.sv).
use jtag_debug_module_for_ri.Common.{
  ℕ, zero, suc, ◌+◌, ◌-◌, ◌/◌, ◌≡◌, List, Option, some, none, bit_and, ◌==◌, if◌then◌else◌,
  get_elem?,
}
use native.Mathlib.Nat.{zero-add, suc-add}
use jtag_debug_module_for_ri.DebugRom.Decode.{Insn, decode}
use jtag_debug_module_for_ri.DebugRom.Hart.{Hart, Mode, parked, exec, lose}

abbrev pub abstract_cmd_base : ℕ
abstract_cmd_base = 0x338

-- The instruction at a program counter.
pub fetch_cmd : List ℕ → ℕ → Option Insn
fetch_cmd words pc =
    if bit_and pc 3 == 0
    then elim (get_elem? words ((pc - abstract_cmd_base) / 4)) [ none ↦ none | some w ↦ decode w ]
    else none

pub exec_fetched : ℕ → Option Insn → Hart → Hart
exec_fetched base none h = lose h
exec_fetched base (some i) h = exec base i h

pub run_mode : Mode → List ℕ → ℕ → Hart → Hart
unfolding fetch_cmd exec_fetched exec
run_mode parked words base h = exec_fetched base (fetch_cmd words h.pc) h
run_mode _ words base h = h

-- One instruction of the program.
unfoldable pub run : List ℕ → ℕ → Hart → Hart
unfolding run_mode
run words base h = run_mode h.mode words base h

unfoldable pub runs : List ℕ → ℕ → ℕ → Hart → Hart
runs words base zero h = h
runs words base (suc n) h = runs words base n (run words base h)

pub runs-add :
    (words : List ℕ) (base n m : ℕ) (h : Hart)
    → runs words base (n + m) h ≡ runs words base m (runs words base n h)
unfolding runs
runs-add words base zero m h = rw zero-add
runs-add words base (suc n) m h = rw suc-add (runs-add words base n m (run words base h))

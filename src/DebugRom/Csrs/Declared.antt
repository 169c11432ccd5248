-- ===== src/DebugRom/Csrs/Declared.antt =====
-- debug_rom/encoding.h: the DECLARE_CSR list, by the names that it gives. The other argument of a line
-- is the CSR macro of the same name.
use Prim.Native.String.{String}
use jtag_debug_module_for_ri.Common.{List, [], ◌∷◌}

abbrev pub base_declared : List String
base_declared =
    "fflags" ∷ "frm" ∷ "fcsr" ∷ "cycle" ∷ "time" ∷ "instret" ∷ "hpmcounter3" ∷ "hpmcounter4"
    ∷ "hpmcounter5" ∷ "hpmcounter6" ∷ "hpmcounter7" ∷ "hpmcounter8" ∷ "hpmcounter9" ∷ "hpmcounter10"
    ∷ "hpmcounter11" ∷ "hpmcounter12" ∷ "hpmcounter13" ∷ "hpmcounter14" ∷ "hpmcounter15"
    ∷ "hpmcounter16" ∷ "hpmcounter17" ∷ "hpmcounter18" ∷ "hpmcounter19" ∷ "hpmcounter20"
    ∷ "hpmcounter21" ∷ "hpmcounter22" ∷ "hpmcounter23" ∷ "hpmcounter24" ∷ "hpmcounter25"
    ∷ "hpmcounter26" ∷ "hpmcounter27" ∷ "hpmcounter28" ∷ "hpmcounter29" ∷ "hpmcounter30"
    ∷ "hpmcounter31" ∷ "sstatus" ∷ "sie" ∷ "stvec" ∷ "scounteren" ∷ "sscratch" ∷ "sepc" ∷ "scause"
    ∷ "stval" ∷ "sip" ∷ "satp" ∷ "mstatus" ∷ "misa" ∷ "medeleg" ∷ "mideleg" ∷ "mie" ∷ "mtvec"
    ∷ "mcounteren" ∷ "mscratch" ∷ "mepc" ∷ "mcause" ∷ "mtval" ∷ "mip" ∷ "pmpcfg0" ∷ "pmpcfg1"
    ∷ "pmpcfg2" ∷ "pmpcfg3" ∷ "pmpaddr0" ∷ "pmpaddr1" ∷ "pmpaddr2" ∷ "pmpaddr3" ∷ "pmpaddr4"
    ∷ "pmpaddr5" ∷ "pmpaddr6" ∷ "pmpaddr7" ∷ "pmpaddr8" ∷ "pmpaddr9" ∷ "pmpaddr10" ∷ "pmpaddr11"
    ∷ "pmpaddr12" ∷ "pmpaddr13" ∷ "pmpaddr14" ∷ "pmpaddr15" ∷ "tselect" ∷ "tdata1" ∷ "tdata2"
    ∷ "tdata3" ∷ "dcsr" ∷ "dpc" ∷ "dscratch" ∷ "dscratch0" ∷ "dscratch1" ∷ []

abbrev pub counter_declared : List String
counter_declared =
    "mcycle" ∷ "minstret" ∷ "mhpmcounter3" ∷ "mhpmcounter4" ∷ "mhpmcounter5" ∷ "mhpmcounter6"
    ∷ "mhpmcounter7" ∷ "mhpmcounter8" ∷ "mhpmcounter9" ∷ "mhpmcounter10" ∷ "mhpmcounter11"
    ∷ "mhpmcounter12" ∷ "mhpmcounter13" ∷ "mhpmcounter14" ∷ "mhpmcounter15" ∷ "mhpmcounter16"
    ∷ "mhpmcounter17" ∷ "mhpmcounter18" ∷ "mhpmcounter19" ∷ "mhpmcounter20" ∷ "mhpmcounter21"
    ∷ "mhpmcounter22" ∷ "mhpmcounter23" ∷ "mhpmcounter24" ∷ "mhpmcounter25" ∷ "mhpmcounter26"
    ∷ "mhpmcounter27" ∷ "mhpmcounter28" ∷ "mhpmcounter29" ∷ "mhpmcounter30" ∷ "mhpmcounter31"
    ∷ "mhpmevent3" ∷ "mhpmevent4" ∷ "mhpmevent5" ∷ "mhpmevent6" ∷ "mhpmevent7" ∷ "mhpmevent8"
    ∷ "mhpmevent9" ∷ "mhpmevent10" ∷ "mhpmevent11" ∷ "mhpmevent12" ∷ "mhpmevent13" ∷ "mhpmevent14"
    ∷ "mhpmevent15" ∷ "mhpmevent16" ∷ "mhpmevent17" ∷ "mhpmevent18" ∷ "mhpmevent19" ∷ "mhpmevent20"
    ∷ "mhpmevent21" ∷ "mhpmevent22" ∷ "mhpmevent23" ∷ "mhpmevent24" ∷ "mhpmevent25" ∷ "mhpmevent26"
    ∷ "mhpmevent27" ∷ "mhpmevent28" ∷ "mhpmevent29" ∷ "mhpmevent30" ∷ "mhpmevent31" ∷ "mvendorid"
    ∷ "marchid" ∷ "mimpid" ∷ "mhartid" ∷ "cycleh" ∷ "timeh" ∷ "instreth" ∷ "hpmcounter3h"
    ∷ "hpmcounter4h" ∷ "hpmcounter5h" ∷ "hpmcounter6h" ∷ "hpmcounter7h" ∷ "hpmcounter8h"
    ∷ "hpmcounter9h" ∷ "hpmcounter10h" ∷ "hpmcounter11h" ∷ "hpmcounter12h" ∷ "hpmcounter13h"
    ∷ "hpmcounter14h" ∷ "hpmcounter15h" ∷ "hpmcounter16h" ∷ "hpmcounter17h" ∷ "hpmcounter18h"
    ∷ "hpmcounter19h" ∷ "hpmcounter20h" ∷ "hpmcounter21h" ∷ "hpmcounter22h" ∷ "hpmcounter23h"
    ∷ "hpmcounter24h" ∷ "hpmcounter25h" ∷ "hpmcounter26h" ∷ "hpmcounter27h" ∷ "hpmcounter28h"
    ∷ "hpmcounter29h" ∷ "hpmcounter30h" ∷ "hpmcounter31h" ∷ "mcycleh" ∷ "minstreth"
    ∷ "mhpmcounter3h" ∷ "mhpmcounter4h" ∷ "mhpmcounter5h" ∷ "mhpmcounter6h" ∷ "mhpmcounter7h"
    ∷ "mhpmcounter8h" ∷ "mhpmcounter9h" ∷ "mhpmcounter10h" ∷ "mhpmcounter11h" ∷ "mhpmcounter12h"
    ∷ "mhpmcounter13h" ∷ "mhpmcounter14h" ∷ "mhpmcounter15h" ∷ "mhpmcounter16h" ∷ "mhpmcounter17h"
    ∷ "mhpmcounter18h" ∷ "mhpmcounter19h" ∷ "mhpmcounter20h" ∷ "mhpmcounter21h" ∷ "mhpmcounter22h"
    ∷ "mhpmcounter23h" ∷ "mhpmcounter24h" ∷ "mhpmcounter25h" ∷ "mhpmcounter26h" ∷ "mhpmcounter27h"
    ∷ "mhpmcounter28h" ∷ "mhpmcounter29h" ∷ "mhpmcounter30h" ∷ "mhpmcounter31h" ∷ []

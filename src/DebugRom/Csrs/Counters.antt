-- ===== src/DebugRom/Csrs/Counters.antt =====
-- debug_rom/encoding.h: the numbers of the control and status registers, the machine counters and their events.
use jtag_debug_module_for_ri.Common.{List, [], ◌∷◌}
use jtag_debug_module_for_ri.DebugRom.Csrs.Row.{Csr, csr}

abbrev pub counter_csrs : List Csr
counter_csrs =
    csr "mcycle" 0xb00
    ∷ csr "minstret" 0xb02
    ∷ csr "mhpmcounter3" 0xb03
    ∷ csr "mhpmcounter4" 0xb04
    ∷ csr "mhpmcounter5" 0xb05
    ∷ csr "mhpmcounter6" 0xb06
    ∷ csr "mhpmcounter7" 0xb07
    ∷ csr "mhpmcounter8" 0xb08
    ∷ csr "mhpmcounter9" 0xb09
    ∷ csr "mhpmcounter10" 0xb0a
    ∷ csr "mhpmcounter11" 0xb0b
    ∷ csr "mhpmcounter12" 0xb0c
    ∷ csr "mhpmcounter13" 0xb0d
    ∷ csr "mhpmcounter14" 0xb0e
    ∷ csr "mhpmcounter15" 0xb0f
    ∷ csr "mhpmcounter16" 0xb10
    ∷ csr "mhpmcounter17" 0xb11
    ∷ csr "mhpmcounter18" 0xb12
    ∷ csr "mhpmcounter19" 0xb13
    ∷ csr "mhpmcounter20" 0xb14
    ∷ csr "mhpmcounter21" 0xb15
    ∷ csr "mhpmcounter22" 0xb16
    ∷ csr "mhpmcounter23" 0xb17
    ∷ csr "mhpmcounter24" 0xb18
    ∷ csr "mhpmcounter25" 0xb19
    ∷ csr "mhpmcounter26" 0xb1a
    ∷ csr "mhpmcounter27" 0xb1b
    ∷ csr "mhpmcounter28" 0xb1c
    ∷ csr "mhpmcounter29" 0xb1d
    ∷ csr "mhpmcounter30" 0xb1e
    ∷ csr "mhpmcounter31" 0xb1f
    ∷ csr "mhpmevent3" 0x323
    ∷ csr "mhpmevent4" 0x324
    ∷ csr "mhpmevent5" 0x325
    ∷ csr "mhpmevent6" 0x326
    ∷ csr "mhpmevent7" 0x327
    ∷ csr "mhpmevent8" 0x328
    ∷ csr "mhpmevent9" 0x329
    ∷ csr "mhpmevent10" 0x32a
    ∷ csr "mhpmevent11" 0x32b
    ∷ csr "mhpmevent12" 0x32c
    ∷ csr "mhpmevent13" 0x32d
    ∷ csr "mhpmevent14" 0x32e
    ∷ csr "mhpmevent15" 0x32f
    ∷ csr "mhpmevent16" 0x330
    ∷ csr "mhpmevent17" 0x331
    ∷ csr "mhpmevent18" 0x332
    ∷ csr "mhpmevent19" 0x333
    ∷ csr "mhpmevent20" 0x334
    ∷ csr "mhpmevent21" 0x335
    ∷ csr "mhpmevent22" 0x336
    ∷ csr "mhpmevent23" 0x337
    ∷ csr "mhpmevent24" 0x338
    ∷ csr "mhpmevent25" 0x339
    ∷ csr "mhpmevent26" 0x33a
    ∷ csr "mhpmevent27" 0x33b
    ∷ csr "mhpmevent28" 0x33c
    ∷ csr "mhpmevent29" 0x33d
    ∷ csr "mhpmevent30" 0x33e
    ∷ csr "mhpmevent31" 0x33f
    ∷ csr "mvendorid" 0xf11
    ∷ csr "marchid" 0xf12
    ∷ csr "mimpid" 0xf13
    ∷ csr "mhartid" 0xf14
    ∷ csr "cycleh" 0xc80
    ∷ csr "timeh" 0xc81
    ∷ csr "instreth" 0xc82
    ∷ csr "hpmcounter3h" 0xc83
    ∷ csr "hpmcounter4h" 0xc84
    ∷ csr "hpmcounter5h" 0xc85
    ∷ csr "hpmcounter6h" 0xc86
    ∷ csr "hpmcounter7h" 0xc87
    ∷ csr "hpmcounter8h" 0xc88
    ∷ csr "hpmcounter9h" 0xc89
    ∷ csr "hpmcounter10h" 0xc8a
    ∷ csr "hpmcounter11h" 0xc8b
    ∷ csr "hpmcounter12h" 0xc8c
    ∷ csr "hpmcounter13h" 0xc8d
    ∷ csr "hpmcounter14h" 0xc8e
    ∷ csr "hpmcounter15h" 0xc8f
    ∷ csr "hpmcounter16h" 0xc90
    ∷ csr "hpmcounter17h" 0xc91
    ∷ csr "hpmcounter18h" 0xc92
    ∷ csr "hpmcounter19h" 0xc93
    ∷ csr "hpmcounter20h" 0xc94
    ∷ csr "hpmcounter21h" 0xc95
    ∷ csr "hpmcounter22h" 0xc96
    ∷ csr "hpmcounter23h" 0xc97
    ∷ csr "hpmcounter24h" 0xc98
    ∷ csr "hpmcounter25h" 0xc99
    ∷ csr "hpmcounter26h" 0xc9a
    ∷ csr "hpmcounter27h" 0xc9b
    ∷ csr "hpmcounter28h" 0xc9c
    ∷ csr "hpmcounter29h" 0xc9d
    ∷ csr "hpmcounter30h" 0xc9e
    ∷ csr "hpmcounter31h" 0xc9f
    ∷ csr "mcycleh" 0xb80
    ∷ csr "minstreth" 0xb82
    ∷ csr "mhpmcounter3h" 0xb83
    ∷ csr "mhpmcounter4h" 0xb84
    ∷ csr "mhpmcounter5h" 0xb85
    ∷ csr "mhpmcounter6h" 0xb86
    ∷ csr "mhpmcounter7h" 0xb87
    ∷ csr "mhpmcounter8h" 0xb88
    ∷ csr "mhpmcounter9h" 0xb89
    ∷ csr "mhpmcounter10h" 0xb8a
    ∷ csr "mhpmcounter11h" 0xb8b
    ∷ csr "mhpmcounter12h" 0xb8c
    ∷ csr "mhpmcounter13h" 0xb8d
    ∷ csr "mhpmcounter14h" 0xb8e
    ∷ csr "mhpmcounter15h" 0xb8f
    ∷ csr "mhpmcounter16h" 0xb90
    ∷ csr "mhpmcounter17h" 0xb91
    ∷ csr "mhpmcounter18h" 0xb92
    ∷ csr "mhpmcounter19h" 0xb93
    ∷ csr "mhpmcounter20h" 0xb94
    ∷ csr "mhpmcounter21h" 0xb95
    ∷ csr "mhpmcounter22h" 0xb96
    ∷ csr "mhpmcounter23h" 0xb97
    ∷ csr "mhpmcounter24h" 0xb98
    ∷ csr "mhpmcounter25h" 0xb99
    ∷ csr "mhpmcounter26h" 0xb9a
    ∷ csr "mhpmcounter27h" 0xb9b
    ∷ csr "mhpmcounter28h" 0xb9c
    ∷ csr "mhpmcounter29h" 0xb9d
    ∷ csr "mhpmcounter30h" 0xb9e
    ∷ csr "mhpmcounter31h" 0xb9f
    ∷ []

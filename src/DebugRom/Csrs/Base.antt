-- ===== src/DebugRom/Csrs/Base.antt =====
-- debug_rom/encoding.h: the numbers of the control and status registers, those but the machine counters.
use jtag_debug_module_for_ri.Common.{List, [], ◌∷◌}
use jtag_debug_module_for_ri.DebugRom.Csrs.Row.{Csr, csr}

abbrev pub base_csrs : List Csr
base_csrs =
    csr "fflags" 0x1
    ∷ csr "frm" 0x2
    ∷ csr "fcsr" 0x3
    ∷ csr "cycle" 0xc00
    ∷ csr "time" 0xc01
    ∷ csr "instret" 0xc02
    ∷ csr "hpmcounter3" 0xc03
    ∷ csr "hpmcounter4" 0xc04
    ∷ csr "hpmcounter5" 0xc05
    ∷ csr "hpmcounter6" 0xc06
    ∷ csr "hpmcounter7" 0xc07
    ∷ csr "hpmcounter8" 0xc08
    ∷ csr "hpmcounter9" 0xc09
    ∷ csr "hpmcounter10" 0xc0a
    ∷ csr "hpmcounter11" 0xc0b
    ∷ csr "hpmcounter12" 0xc0c
    ∷ csr "hpmcounter13" 0xc0d
    ∷ csr "hpmcounter14" 0xc0e
    ∷ csr "hpmcounter15" 0xc0f
    ∷ csr "hpmcounter16" 0xc10
    ∷ csr "hpmcounter17" 0xc11
    ∷ csr "hpmcounter18" 0xc12
    ∷ csr "hpmcounter19" 0xc13
    ∷ csr "hpmcounter20" 0xc14
    ∷ csr "hpmcounter21" 0xc15
    ∷ csr "hpmcounter22" 0xc16
    ∷ csr "hpmcounter23" 0xc17
    ∷ csr "hpmcounter24" 0xc18
    ∷ csr "hpmcounter25" 0xc19
    ∷ csr "hpmcounter26" 0xc1a
    ∷ csr "hpmcounter27" 0xc1b
    ∷ csr "hpmcounter28" 0xc1c
    ∷ csr "hpmcounter29" 0xc1d
    ∷ csr "hpmcounter30" 0xc1e
    ∷ csr "hpmcounter31" 0xc1f
    ∷ csr "sstatus" 0x100
    ∷ csr "sie" 0x104
    ∷ csr "stvec" 0x105
    ∷ csr "scounteren" 0x106
    ∷ csr "sscratch" 0x140
    ∷ csr "sepc" 0x141
    ∷ csr "scause" 0x142
    ∷ csr "stval" 0x143
    ∷ csr "sip" 0x144
    ∷ csr "satp" 0x180
    ∷ csr "mstatus" 0x300
    ∷ csr "misa" 0x301
    ∷ csr "medeleg" 0x302
    ∷ csr "mideleg" 0x303
    ∷ csr "mie" 0x304
    ∷ csr "mtvec" 0x305
    ∷ csr "mcounteren" 0x306
    ∷ csr "mscratch" 0x340
    ∷ csr "mepc" 0x341
    ∷ csr "mcause" 0x342
    ∷ csr "mtval" 0x343
    ∷ csr "mip" 0x344
    ∷ csr "pmpcfg0" 0x3a0
    ∷ csr "pmpcfg1" 0x3a1
    ∷ csr "pmpcfg2" 0x3a2
    ∷ csr "pmpcfg3" 0x3a3
    ∷ csr "pmpaddr0" 0x3b0
    ∷ csr "pmpaddr1" 0x3b1
    ∷ csr "pmpaddr2" 0x3b2
    ∷ csr "pmpaddr3" 0x3b3
    ∷ csr "pmpaddr4" 0x3b4
    ∷ csr "pmpaddr5" 0x3b5
    ∷ csr "pmpaddr6" 0x3b6
    ∷ csr "pmpaddr7" 0x3b7
    ∷ csr "pmpaddr8" 0x3b8
    ∷ csr "pmpaddr9" 0x3b9
    ∷ csr "pmpaddr10" 0x3ba
    ∷ csr "pmpaddr11" 0x3bb
    ∷ csr "pmpaddr12" 0x3bc
    ∷ csr "pmpaddr13" 0x3bd
    ∷ csr "pmpaddr14" 0x3be
    ∷ csr "pmpaddr15" 0x3bf
    ∷ csr "tselect" 0x7a0
    ∷ csr "tdata1" 0x7a1
    ∷ csr "tdata2" 0x7a2
    ∷ csr "tdata3" 0x7a3
    ∷ csr "dcsr" 0x7b0
    ∷ csr "dpc" 0x7b1
    ∷ csr "dscratch" 0x7b2
    ∷ csr "dscratch0" 0x7b2
    ∷ csr "dscratch1" 0x7b3
    ∷ []

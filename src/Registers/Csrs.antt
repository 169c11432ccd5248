-- ===== src/Registers/Csrs.antt =====
-- rtl/DM_CSRS.sv: the registers' state, what a read gives, and one edge of the clock.
--
-- An access is one request that the control unit lets through (`dm_csrs_re_i`, `dm_csrs_we_i`), or
-- none. The two 64-bit registers are a lower and an upper half; the bus and its data have 32 bits.
use jtag_debug_module_for_ri.Common.{
  ℕ, zero, suc, ◌+◌, ◌*◌, ◌/◌, ◌^◌, Bool, true, false, not, ◌&&◌, ◌||◌, List, [], ◌∷◌, ◌==◌,
  if◌then◌else◌, get_or, replicate,
}
use jtag_debug_module_for_ri.Registers.{
  Reg, data_reg, prog_reg, dmcontrol, dmstatus, hartinfo, abstractcs, command, abstractauto, nextdm,
  haltsum0, haltsum1, haltsum2, haltsum3, sbcs, sbaddress0, sbaddress1, sbdata0, sbdata1, unnamed,
  data_count, prog_size,
}
use jtag_debug_module_for_ri.Registers.Words.{
  Dmcontrol, dmcontrol_of, dmcontrol_word, Sbcs, sbcs_of, sbcs_word, sbcs_reset, Abstractauto,
  abstractauto_word, abstractcs_word, dmstatus_word, field_of, to_bit,
}

pub record Regs : Type 0 where
  pub dmcontrol : Dmcontrol
  pub command : ℕ
  pub abstractauto : Abstractauto
  pub progbuf : List ℕ
  pub words : List ℕ
  pub sbcs : Sbcs
  pub sbaddr_lo : ℕ
  pub sbaddr_hi : ℕ
  pub sbdata_lo : ℕ
  pub sbdata_hi : ℕ
  pub havereset : Bool

pub data Op : Type 0 where
  no_op : Op
  read_op : Reg → Op
  write_op : Reg → ℕ → Op

-- What the rest of the module drives.
pub record Inputs : Type 0 where
  pub op : Op
  pub cmdbusy : Bool
  pub cmderr : ℕ
  pub next_dm_addr : ℕ
  pub hartinfo : ℕ
  pub ndmreset_ack : Bool
  pub unavailable : Bool
  pub resumeack : Bool
  pub halted : Bool
  pub data_valid : Bool
  pub data_in : List ℕ
  pub sbaddress : ℕ
  pub sbdata : ℕ
  pub sbdata_valid : Bool
  pub sbbusy : Bool
  pub sberror_valid : Bool
  pub sberror : ℕ

-- `DTM_SUCCESS` and `DTM_BUSY`
abbrev pub success : ℕ
success = 0

abbrev pub busy : ℕ
busy = 3

-- What a request drives at once.
pub record Outputs : Type 0 where
  pub dmi_data : ℕ
  pub dmi_resp : ℕ
  pub sbaddress_write_valid : Bool
  pub sbdata_read_valid : Bool
  pub sbdata_write_valid : Bool
  pub clear_resumeack : Bool

-- `{hartselhi, hartsello}`
abbrev pub hartsel : Regs → ℕ
hartsel s = s.dmcontrol.hartselhi * 2 ^ 10 + s.dmcontrol.hartsello

-- The bits of the summary above `lo` select a word of it, and with one hart word 0 alone is there.
abbrev haltsum : ℕ → Inputs → Regs → ℕ
haltsum lo i s = if hartsel s / 2 ^ lo == 0 then to_bit i.halted else 0

-- An access to the bus's address and data that has to wait.
abbrev pub sb_refused : Inputs → Regs → Bool
sb_refused i s = i.sbbusy || s.sbcs.sbbusyerror

abbrev pub status : Inputs → Regs → ℕ
status i s = dmstatus_word s.havereset i.resumeack (not (hartsel s == 0)) i.unavailable i.halted

abbrev pub read_data : Inputs → Regs → Reg → ℕ
read_data i s (data_reg k) = get_or s.words k 0
read_data i s (prog_reg k) = get_or s.progbuf k 0
read_data i s dmcontrol = dmcontrol_word s.dmcontrol
read_data i s dmstatus = status i s
read_data i s hartinfo = i.hartinfo
read_data i s abstractcs = abstractcs_word i.cmderr
read_data i s command = 0
read_data i s abstractauto = abstractauto_word s.abstractauto
read_data i s nextdm = i.next_dm_addr
read_data i s haltsum0 = haltsum 5 i s
read_data i s haltsum1 = haltsum 10 i s
read_data i s haltsum2 = haltsum 15 i s
read_data i s haltsum3 = to_bit i.halted
read_data i s sbcs = sbcs_word s.sbcs
read_data i s sbaddress0 = s.sbaddr_lo
read_data i s sbaddress1 = s.sbaddr_hi
read_data i s sbdata0 = if sb_refused i s then 0 else s.sbdata_lo
read_data i s sbdata1 = if sb_refused i s then 0 else s.sbdata_hi
read_data i s unnamed = 0

abbrev pub is_sb : Reg → Bool
is_sb sbaddress0 = true
is_sb sbaddress1 = true
is_sb sbdata0 = true
is_sb sbdata1 = true
is_sb _ = false

-- Whether a write has to wait for the command, or for the bus.
abbrev pub write_refused : Inputs → Regs → Reg → Bool
write_refused i s abstractcs = i.cmdbusy
write_refused i s command = i.cmdbusy
write_refused i s abstractauto = i.cmdbusy
write_refused i s (data_reg k) = i.cmdbusy
write_refused i s (prog_reg k) = i.cmdbusy
write_refused i s sbcs = i.sbbusy
write_refused i s r = is_sb r && sb_refused i s

abbrev pub read_refused : Inputs → Regs → Reg → Bool
read_refused i s (data_reg k) = i.cmdbusy
read_refused i s (prog_reg k) = i.cmdbusy
read_refused i s sbdata0 = sb_refused i s
read_refused i s sbdata1 = sb_refused i s
read_refused i s _ = false

abbrev pub response : Inputs → Regs → ℕ
response i s = elim i.op [
  | no_op ↦ success
  | read_op r ↦ if read_refused i s r then busy else success
  | write_op r w ↦ if write_refused i s r then busy else success
]

-- The list with one place written.
abbrev pub set_at : List ℕ → ℕ → ℕ → List ℕ
set_at [] k w = []
set_at (x ∷ xs) zero w = w ∷ xs
set_at (x ∷ xs) (suc k) w = x ∷ set_at xs k w

-- The upper half of `sbaddr_d` and `sbdata_d`, and what else every edge takes anew.
abbrev pub defaults : Inputs → Regs → Regs
defaults i s = record s { sbaddr_lo = i.sbaddress; sbaddr_hi = 0 }

abbrev pub with_busyerror : Regs → Regs
with_busyerror s = record s { sbcs = record (s.sbcs) { sbbusyerror = true } }

-- A write to `sbcs` on a free bus: the two error fields are cleared by ones.
abbrev pub written_sbcs : Sbcs → ℕ → Sbcs
written_sbcs old w =
    let new = sbcs_of w in
    record new {
      sbbusyerror = old.sbbusyerror && not new.sbbusyerror;
      sberror = if new.sberror == 0 then old.sberror else 0;
    }

-- The cases of `csr_read_write`, on the registers `d` that the block starts with.
abbrev pub read_csr : Inputs → Regs → Reg → Regs → Regs
read_csr i s sbdata0 d = if sb_refused i s then with_busyerror d else d
read_csr i s sbdata1 d = if sb_refused i s then with_busyerror d else d
read_csr i s _ d = d

abbrev pub accepted : Regs → Reg → ℕ → Regs → Regs
accepted s dmcontrol w d =
    let c = dmcontrol_of w in
    record d { dmcontrol = c; havereset = d.havereset && not c.ackhavereset }
accepted s command w d = record d { command = w }
accepted s abstractauto w d = record d {
  abstractauto = record {
    autoexecprogbuf = field_of w 16 prog_size;
    autoexecdata = field_of w 0 data_count;
  };
}
accepted s (data_reg k) w d = record d { words = set_at d.words k w }
accepted s (prog_reg k) w d = record d { progbuf = set_at d.progbuf k w }
accepted s sbcs w d = record d { sbcs = written_sbcs s.sbcs w }
accepted s sbaddress0 w d = record d { sbaddr_lo = w }
accepted s sbaddress1 w d = record d { sbaddr_hi = w }
accepted s sbdata0 w d = record d { sbdata_lo = w }
accepted s sbdata1 w d = record d { sbdata_hi = w }
accepted s _ w d = d

abbrev pub write_csr : Inputs → Regs → Reg → ℕ → Regs → Regs
write_csr i s sbcs w d = if i.sbbusy then with_busyerror d else accepted s sbcs w d
write_csr i s r w d =
    if write_refused i s r then (if is_sb r then with_busyerror d else d) else accepted s r w d

abbrev pub access : Op → Inputs → Regs → Regs → Regs
access no_op i s d = d
access (read_op r) i s d = read_csr i s r d
access (write_op r w) i s d = write_csr i s r w d

-- After the cases: the data from the hart, the reset that ended, and the bus.
abbrev pub reports : Inputs → Regs → Regs
reports i d = record d {
  words = if i.data_valid then i.data_in else d.words;
  havereset = i.ndmreset_ack || d.havereset;
  sbcs = record (d.sbcs) {
    sberror = if i.sberror_valid then i.sberror else d.sbcs.sberror;
    sbversion = 1;
    sbbusy = i.sbbusy;
    sbasize = 32;
    sbaccess128 = false;
    sbaccess64 = false;
    sbaccess32 = true;
    sbaccess16 = true;
    sbaccess8 = true;
  };
  sbdata_lo = if i.sbdata_valid then i.sbdata else d.sbdata_lo;
  sbdata_hi = if i.sbdata_valid then 0 else d.sbdata_hi;
}

-- What is left of a `dmcontrol`: `hartsel` is masked to 0, and an acknowledged resumption is over.
abbrev pub masked : Inputs → Dmcontrol → Dmcontrol → Dmcontrol
masked i old new = record {
  haltreq = new.haltreq;
  resumereq = not (old.resumereq && i.resumeack) && new.resumereq;
  hartreset = false;
  ackhavereset = false;
  zero1 = false;
  hasel = false;
  hartsello = 0;
  hartselhi = 0;
  zero0 = 0;
  setresethaltreq = false;
  clrresethaltreq = false;
  ndmreset = new.ndmreset;
  dmactive = new.dmactive;
}

-- `csr_read_write`: the registers' inputs.
abbrev pub next : Inputs → Regs → Regs
next i s =
    let d = reports i (access i.op i s (defaults i s)) in
    record d { dmcontrol = masked i s.dmcontrol d.dmcontrol }

-- All registers at 0, but for the width of bus accesses.
abbrev pub cleared : Bool → Bool → Regs
cleared active reset = record {
  dmcontrol = record (dmcontrol_of 0) { dmactive = active };
  command = 0;
  abstractauto = record { autoexecprogbuf = 0; autoexecdata = 0 };
  progbuf = replicate prog_size 0;
  words = replicate data_count 0;
  sbcs = sbcs_reset;
  sbaddr_lo = 0;
  sbaddr_hi = 0;
  sbdata_lo = 0;
  sbdata_hi = 0;
  havereset = reset;
}

abbrev pub power_on : Regs
power_on = cleared false true

-- One edge of the clock out of reset.
unfoldable pub tick : Inputs → Regs → Regs
tick i s =
    let d = next i s in if s.dmcontrol.dmactive then d else cleared d.dmcontrol.dmactive d.havereset

abbrev starts_sb : Inputs → Regs → Bool
starts_sb i s = not (sb_refused i s) && s.sbcs.sberror == 0

-- A resumption begins when `resumereq` rises.
unfoldable pub outputs : Inputs → Regs → Outputs
outputs i s = record {
  dmi_data = elim i.op [ read_op r ↦ read_data i s r | _ ↦ 0 ];
  dmi_resp = response i s;
  sbaddress_write_valid = elim i.op [ write_op sbaddress0 w ↦ starts_sb i s | _ ↦ false ];
  sbdata_read_valid = elim i.op [ read_op sbdata0 ↦ starts_sb i s | _ ↦ false ];
  sbdata_write_valid = elim i.op [ write_op sbdata0 w ↦ starts_sb i s | _ ↦ false ];
  clear_resumeack =
      not s.dmcontrol.resumereq && (access i.op i s (defaults i s)).dmcontrol.resumereq;
}

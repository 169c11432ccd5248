-- ===== src/Registers/Bounds/Kept.antt =====
-- What the parts of an edge of rtl/DM_CSRS.sv do to the registers' widths.
use native.Mathlib.Nat.{mod-lt}
use jtag_debug_module_for_ri.Common.{ℕ, ◌^◌, ◌<◌, Bool, true, false, if◌then◌else◌, arith}
use jtag_debug_module_for_ri.Registers.{
  Reg, data_reg, prog_reg, command, abstractauto, sbcs, sbaddress0, sbaddress1, sbdata0, sbdata1,
  data_count, prog_size,
}
use jtag_debug_module_for_ri.Registers.Words.{Sbcs}
use jtag_debug_module_for_ri.Registers.Csrs.{
  Regs, Op, no_op, read_op, write_op, Inputs, defaults, with_busyerror, written_sbcs, is_sb,
  sb_refused, write_refused, read_csr, accepted, write_csr, access, reports,
}
use jtag_debug_module_for_ri.Registers.Bounds.Widths.{
  Words32, SbcsFits, Contents, OpFits, InputsFit, set_at-Words32,
}

pub defaults-Contents : (i : Inputs) (s : Regs) → InputsFit i → Contents s → Contents (defaults i s)
defaults-Contents i s f (cmd, ap, ad, pb, ws, sb, al, ah, dl, dh) =
    (cmd, ap, ad, pb, ws, sb, f.sbaddress, omega arith, dl, dh)

with_busyerror-Contents : (s : Regs) → Contents s → Contents (with_busyerror s)
with_busyerror-Contents s c = c

written_sbcs-SbcsFits : (s : Sbcs) (w : ℕ) → SbcsFits s → w < 2 ^ 32 → SbcsFits (written_sbcs s w)
written_sbcs-SbcsFits s w (v, z, a, e, n) h = (
  mod-lt _ (omega arith),
  mod-lt _ (omega arith),
  mod-lt _ (omega arith),
  ground (arith, e),
  mod-lt _ (omega arith),
)

accepted-Contents :
    (s : Regs) (r : Reg) (w : ℕ) (d : Regs)
    → w < 2 ^ 32
    → Contents s
    → Contents d
    → Contents (accepted s r w d)
accepted-Contents s command w d h f (cmd, ap, ad, pb, ws, sb, al, ah, dl, dh) =
    (h, ap, ad, pb, ws, sb, al, ah, dl, dh)
accepted-Contents s abstractauto w d h f (cmd, ap, ad, pb, ws, sb, al, ah, dl, dh) =
    (cmd, mod-lt _ (omega arith), mod-lt _ (omega arith), pb, ws, sb, al, ah, dl, dh)
accepted-Contents s (data_reg k) w d h f (cmd, ap, ad, pb, ws, sb, al, ah, dl, dh) =
    (cmd, ap, ad, pb, set_at-Words32 data_count d.words k w ws h, sb, al, ah, dl, dh)
accepted-Contents s (prog_reg k) w d h f (cmd, ap, ad, pb, ws, sb, al, ah, dl, dh) =
    (cmd, ap, ad, set_at-Words32 prog_size d.progbuf k w pb h, ws, sb, al, ah, dl, dh)
accepted-Contents s sbcs w d h f (cmd, ap, ad, pb, ws, sb, al, ah, dl, dh) =
    (cmd, ap, ad, pb, ws, written_sbcs-SbcsFits s.sbcs w f.5 h, al, ah, dl, dh)
accepted-Contents s sbaddress0 w d h f (cmd, ap, ad, pb, ws, sb, al, ah, dl, dh) =
    (cmd, ap, ad, pb, ws, sb, h, ah, dl, dh)
accepted-Contents s sbaddress1 w d h f (cmd, ap, ad, pb, ws, sb, al, ah, dl, dh) =
    (cmd, ap, ad, pb, ws, sb, al, h, dl, dh)
accepted-Contents s sbdata0 w d h f (cmd, ap, ad, pb, ws, sb, al, ah, dl, dh) =
    (cmd, ap, ad, pb, ws, sb, al, ah, h, dh)
accepted-Contents s sbdata1 w d h f (cmd, ap, ad, pb, ws, sb, al, ah, dl, dh) =
    (cmd, ap, ad, pb, ws, sb, al, ah, dl, h)
accepted-Contents s _ w d h f c = c

pub both_ways :
    {A : Type 0} (P : A → Type 0) (b : Bool) (x y : A) → P x → P y → P (if b then x else y)
both_ways P true x y hx hy = hx
both_ways P false x y hx hy = hy

write_csr-Contents :
    (i : Inputs) (s : Regs) (r : Reg) (w : ℕ) (d : Regs)
    → w < 2 ^ 32
    → Contents s
    → Contents d
    → Contents (write_csr i s r w d)
write_csr-Contents i s sbcs w d h f c =
    both_ways Contents i.sbbusy (with_busyerror d) (accepted s sbcs w d) c
      (accepted-Contents s sbcs w d h f c)
write_csr-Contents i s r w d h f c =
    both_ways Contents (write_refused i s r) (if is_sb r then with_busyerror d else d)
      (accepted s r w d) (both_ways Contents (is_sb r) (with_busyerror d) d c c)
      (accepted-Contents s r w d h f c)

read_csr-Contents :
    (i : Inputs) (s : Regs) (r : Reg) (d : Regs) → Contents d → Contents (read_csr i s r d)
read_csr-Contents i s sbdata0 d c = both_ways Contents (sb_refused i s) (with_busyerror d) d c c
read_csr-Contents i s sbdata1 d c = both_ways Contents (sb_refused i s) (with_busyerror d) d c c
read_csr-Contents i s _ d c = c

pub access-Contents :
    (o : Op) (i : Inputs) (s d : Regs)
    → OpFits o
    → Contents s
    → Contents d
    → Contents (access o i s d)
access-Contents no_op i s d f hs c = c
access-Contents (read_op r) i s d f hs c = read_csr-Contents i s r d c
access-Contents (write_op r w) i s d f hs c = write_csr-Contents i s r w d f hs c

pub reports-Contents : (i : Inputs) (d : Regs) → InputsFit i → Contents d → Contents (reports i d)
reports-Contents i d f (cmd, ap, ad, pb, ws, sb, al, ah, dl, dh) = (
  cmd,
  ap,
  ad,
  pb,
  both_ways (Words32 data_count) i.data_valid i.data_in d.words f.data_in ws,
  (omega arith, sb.1, sb.2, ground (arith, sb, f.sberror), omega arith),
  al,
  ah,
  ground (arith, f.sbdata),
  ground arith,
)

-- ===== src/AbstractCmd/Decoding.antt =====
-- The words of rtl/DM_Pkg.sv with a register in them, as instructions.
use jtag_debug_module_for_ri.Common.{
  ℕ, ◌<◌, ◌≡◌, refl, Bool, true, false, ◌&&◌, Option, some, none, arith, ◌==◌,
}
use jtag_debug_module_for_ri.Common.Pairs.{try_below, try_below_lem}
use jtag_debug_module_for_ri.AbstractCmd.Words.{load, store}
use jtag_debug_module_for_ri.DebugRom.Decode.{Insn, lw, sw, decode}

is_lw : ℕ → ℕ → ℕ → Option Insn → Bool
is_lw rd base imm (some (lw a b c)) = a == rd && (b == base && c == imm)
is_lw rd base imm _ = false

is_sw : ℕ → ℕ → ℕ → Option Insn → Bool
is_sw src base imm (some (sw a b c)) = a == src && (b == base && c == imm)
is_sw src base imm _ = false

is_lw_sound :
    (rd base imm : ℕ) (o : Option Insn) → is_lw rd base imm o ≡ true → o ≡ some (lw rd base imm)
unfolding is_lw
is_lw_sound rd base imm none h = cc
is_lw_sound rd base imm (some (lw a b c)) h = ground arith
is_lw_sound rd base imm (some _) h = cc

is_sw_sound :
    (rd base imm : ℕ) (o : Option Insn) → is_sw rd base imm o ≡ true → o ≡ some (sw rd base imm)
unfolding is_sw
is_sw_sound rd base imm none h = cc
is_sw_sound rd base imm (some (sw a b c)) h = ground arith
is_sw_sound rd base imm (some _) h = cc

loads : try_below (λ r. is_lw r 10 0x380 (decode (load 2 r 10 0x380))) 32 ≡ true
unfolding try_below is_lw decode
loads = refl

stores : try_below (λ r. is_sw r 10 0x380 (decode (store 2 r 10 0x380))) 32 ≡ true
unfolding try_below is_sw decode
stores = refl

pub decode-load : (r : ℕ) → r < 32 → decode (load 2 r 10 0x380) ≡ some (lw r 10 0x380)
decode-load r h = is_lw_sound r 10 0x380 (decode (load 2 r 10 0x380)) (try_below_lem _ 32 loads r h)

pub decode-store : (r : ℕ) → r < 32 → decode (store 2 r 10 0x380) ≡ some (sw r 10 0x380)
decode-store r h =
    is_sw_sound r 10 0x380 (decode (store 2 r 10 0x380)) (try_below_lem _ 32 stores r h)

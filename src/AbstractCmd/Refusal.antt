-- ===== src/AbstractCmd/Refusal.antt =====
-- The abstract commands that the decoder of rtl/AbstractCmd_Decoder.sv refuses, and the program that
-- rtl/AbstractCmd_ROM.sv shows for them.
use jtag_debug_module_for_ri.Common.{ℕ, ◌≡◌, refl, Bool, true, false, List, ◌∷◌, arith}
use jtag_debug_module_for_ri.DebugRom.Decode.{decode}
use jtag_debug_module_for_ri.DebugRom.Hart.{Access, trapped}
use jtag_debug_module_for_ri.DebugRom.Runs.{at}
use jtag_debug_module_for_ri.AbstractCmd.{
  Command, body, write_body, read_body, is_reserved, unsupported_command, abstract_cmd,
}
use jtag_debug_module_for_ri.AbstractCmd.Words.{ebreak}
use jtag_debug_module_for_ri.AbstractCmd.Run.{run, runs}

write_reserved :
    (snd : Bool) (c : Command) → is_reserved c.regno ≡ true → (write_body snd c).first ≡ ebreak
write_reserved snd c h = rw h refl

read_reserved :
    (snd : Bool) (c : Command) → is_reserved c.regno ≡ true → (read_body snd c).first ≡ ebreak
read_reserved snd c h = rw h refl

refused_first :
    (snd : Bool) (c : Command)
    → unsupported_command c ≡ true
    → c.aarpostincrement ≡ false
    → (body snd c).first ≡ ebreak
unfolding unsupported_command
refused_first snd c h p = ground (arith, write_reserved snd c, read_reserved snd c)

first_ebreak :
    (w : ℕ) (rest : List ℕ) (base : ℕ) (regs : ℕ → ℕ) (d0 d1 id : ℕ) (flags : List ℕ)
    (acc : List Access)
    → w ≡ ebreak
    → runs (w ∷ rest) base 1 (at 0x338 regs d0 d1 id flags acc)
      ≡ record (at 0x800 regs d0 d1 id flags acc) { mode = trapped }
unfolding runs run decode
first_ebreak w rest base regs d0 d1 id flags acc h = rw h refl

-- A command that the decoder refuses, other than one with aarpostincrement, is a program whose first
-- word takes the hart back to the start of the debug ROM: no register, scratch register or word of
-- memory is touched, with a second scratch register or without.
pub refused_stops :
    (snd : Bool) (c : Command) (base : ℕ) (regs : ℕ → ℕ) (d0 d1 id : ℕ) (flags : List ℕ)
    (acc : List Access)
    → unsupported_command c ≡ true
    → c.aarpostincrement ≡ false
    → runs (abstract_cmd snd c) base 1 (at 0x338 regs d0 d1 id flags acc)
      ≡ record (at 0x800 regs d0 d1 id flags acc) { mode = trapped }
unfolding abstract_cmd
refused_stops snd c base regs d0 d1 id flags acc h p =
    first_ebreak _ _ base regs d0 d1 id flags acc (refused_first snd c h p)

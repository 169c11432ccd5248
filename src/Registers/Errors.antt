-- ===== src/Registers/Errors.antt =====
-- The error of abstract commands (`cmderr` of `abstractcs`) and the start of a command:
-- rtl/DM_ControlUnit1.sv, with the registers of rtl/DM_CSRS.sv where a request meets a running command.
use jtag_debug_module_for_ri.Common.{
  ℕ, ◌+◌, ◌/◌, ◌%◌, ◌^◌, ◌≡◌, refl, ◌<◌, ◌≤◌, ◌≢◌, ◌↔◌, ◌⊎◌, inl, inr, true, false, ◌||◌, arith,
}
use native.Mathlib.Nat.{pow-le-pow_right, div-eq_of_lt}
use jtag_debug_module_for_ri.Registers.{data_reg, abstractcs, command, reg_of}
use jtag_debug_module_for_ri.Registers.Words.{bit_of}
use jtag_debug_module_for_ri.Registers.Requests.{
  Inputs, Errors, read_enable, write_enable, edge, effect,
}

-- Once an error is there, it stays until the command unit reports another or the debugger writes
-- `abstractcs` while no command runs.
pub cmderr_kept :
    (i : Inputs) (e : Errors)
    → e.cmderr ≢ 0
    → i.cmderror_valid ≡ false
    → (write_enable i ≡ false) ⊎ (reg_of i.addr ≢ abstractcs) ⊎ (i.cmdbusy ≡ true)
    → (edge i e).cmderr ≡ e.cmderr
unfolding edge effect
cmderr_kept i e some_error quiet away = ground arith

-- A request starts a command: it writes `command`, or it accesses a data word whose bit of
-- `autoexecdata` is set.
abbrev pub Starting : Inputs → Type 0
Starting i =
    ((write_enable i ≡ true) × (reg_of i.addr ≡ command))
    ⊎ ((k : ℕ) × ((read_enable i || write_enable i) ≡ true)
        × (reg_of i.addr ≡ data_reg k)
        × (bit_of i.autoexecdata k ≡ true))

high_bit_clear : (w k : ℕ) → w < 2 ^ 16 → bit_of w (16 + k) ≡ false
high_bit_clear w k h =
    let grown : 2 ^ 16 ≤ 2 ^ (16 + k) =
      pow-le-pow_right {n = 2} (omega arith) {i = 16} (omega arith) in
    let e : w / 2 ^ (16 + k) ≡ 0 = div-eq_of_lt (omega (arith, h, grown)) in rw e refl

write_not_read : (i : Inputs) → write_enable i ≡ true → read_enable i ≡ false
unfolding write_enable read_enable
write_not_read i w = ground arith

starts_forth :
    (i : Inputs) (e : Errors)
    → i.autoexecprogbuf < 2 ^ 16
    → (edge i e).cmd_valid ≡ true
    → (i.cmdbusy ≡ false) × Starting i
unfolding edge effect
starts_forth i e h started = ground (arith, high_bit_clear i.autoexecprogbuf (i.addr % 2 ^ 4) h)

starts_back :
    (i : Inputs) (e : Errors) → (i.cmdbusy ≡ false) × Starting i → (edge i e).cmd_valid ≡ true
unfolding edge effect
starts_back i e (free, inl (w, r)) = ground (arith, write_not_read i w)
starts_back i e (free, inr (k, a, r, b)) = ground arith

-- A command starts at the next edge exactly when no command runs and a request starts one.
pub edge-starts :
    (i : Inputs) (e : Errors)
    → i.autoexecprogbuf < 2 ^ 16
    → ((edge i e).cmd_valid ≡ true) ↔ ((i.cmdbusy ≡ false) × Starting i)
edge-starts i e h = (starts_forth i e h, starts_back i e)

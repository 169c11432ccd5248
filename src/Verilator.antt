-- ===== src/Verilator.antt =====
-- tb/tb_top_verilator.cpp: the main program of the simulation, which drives the clock and the reset
-- of the generated model and dumps the memory.
--
-- The generated model is not part of the repository: what it answers to `gotFinish` is a script,
-- whose end means that the simulation still runs, and the bytes that `read_byte` gives are a
-- function of the address. The trace files of VCD_TRACE are left out.
pub mod Clock
pub mod Dump
mod Tests
use jtag_debug_module_for_ri.Common.{
  ℕ, zero, suc, ◌+◌, ◌-◌, ◌*◌, ◌/◌, ◌%◌, ◌^◌, Bool, true, false, not, List, [], ◌∷◌, ◌++◌, ltb,
  if◌then◌else◌,
}

-- The inputs of the model that the program drives, and the time `t`.
pub record Top : Type 0 where
  pub fetch_enable_i : Bool
  pub clk_i : Bool
  pub rst_ni : Bool
  pub t : ℕ

-- before the loop
abbrev pub start : Top
start = record { fetch_enable_i = true; clk_i = false; rst_ni = false; t = 0 }

-- The inputs at the `eval` of a round.
unfoldable pub driven : Top → Top
driven top = record top {
  rst_ni = if ltb 40 top.t then true else top.rst_ni;
  clk_i = not top.clk_i;
}

-- `t += 5` on a `vluint64_t`
abbrev pub advanced : Top → Top
advanced top = record top { t = (top.t + 5) % 2 ^ 64 }

-- `while (!gotFinish())`: the evaluations, the state at the end, and whether the loop has ended.
unfoldable pub rounds : List Bool → Top → List Top × Top × Bool
unfolding driven
rounds [] top = ([], top, false)
rounds (true ∷ finish) top = ([], top, true)
rounds (false ∷ finish) top =
    let (evals, last, ended) = rounds finish (advanced (driven top)) in
    (driven top ∷ evals, last, ended)

-- The first `eval` stands before the dump and the loop.
unfoldable pub main : List Bool → List Top × Top × Bool
unfolding rounds
main finish = let (evals, last, ended) = rounds finish start in (start ∷ evals, last, ended)

-- A hexadecimal digit in lower case.
abbrev pub hex_digit : ℕ → ℕ
hex_digit d = if ltb d 10 then b'0' + d else b'a' + (d - 10)

-- `std::hex` of a number with at most `fuel` digits
pub hex : ℕ → ℕ → List ℕ
hex zero v = hex_digit (v % 16) ∷ []
hex (suc fuel) v =
    let more = hex fuel (v / 16) ++ hex_digit (v % 16) ∷ [] in
    if ltb v 16 then hex_digit v ∷ [] else more

-- `setfill('0') << setw(2)`
abbrev pub pad : List ℕ → List ℕ
pad (d ∷ []) = b'0' ∷ d ∷ []
pad ds = ds

-- One line of the file, its newline apart. `val` is a `uint32_t`.
unfoldable pub line : ℕ → List ℕ
unfolding hex
line val = pad (hex 7 (val % 2 ^ 32))

-- What the loop leaves in a file that takes `room` lines before it fails, and whether it threw; the
-- loop goes on from address `i` for `n` bytes.
unfoldable pub dump_from : ℕ → ℕ → ℕ → (ℕ → ℕ) → List (List ℕ) × Bool
unfolding line
dump_from zero i room read_byte = ([], false)
dump_from (suc n) i zero read_byte = ([], true)
dump_from (suc n) i (suc room) read_byte =
    let (lines, thrown) = dump_from n (i + 1) room read_byte in (line (read_byte i) ∷ lines, thrown)

-- How many bytes are dumped.
abbrev pub dump_size : ℕ
dump_size = 1048576

pub data Message : Type 0 where
  finished_dumping exception_writing : Message

-- `opens` and `closes` say whether the calls on the file succeed.
unfoldable pub dump_memory : Bool → Bool → ℕ → (ℕ → ℕ) → List (List ℕ) × Message
dump_memory opens closes room read_byte =
    let (lines, thrown) = dump_from dump_size 0 room read_byte in
    if opens
    then (
      lines,
      if thrown then exception_writing else if closes then finished_dumping else exception_writing,
    )
    else ([], exception_writing)

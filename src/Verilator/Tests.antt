-- ===== src/Verilator/Tests.antt =====
-- The main program of the simulation at concrete inputs.
use jtag_debug_module_for_ri.Common.{ℕ, ◌≡◌, refl, true, false, [], ◌∷◌, ltb, map, take, ◌%◌}
use jtag_debug_module_for_ri.Verilator.{Top, main, dump_size, dump_memory, exception_writing, line}
use jtag_debug_module_for_ri.Verilator.Clock.{main-get}
use jtag_debug_module_for_ri.Verilator.Dump.{hex_value, bytes_from, dump_memory_lem}

line_of_small : line 10 ≡ b'0' ∷ b'a' ∷ []
unfolding line
line_of_small = refl

line_of_minus_one : line 0xffff_ffff ≡ b'f' ∷ b'f' ∷ b'f' ∷ b'f' ∷ b'f' ∷ b'f' ∷ b'f' ∷ b'f' ∷ []
unfolding line
line_of_minus_one = refl

-- The inputs of the third evaluation.
abbrev third : Top
third = record { fetch_enable_i = true; clk_i = false; rst_ni = false; t = 5 }

main-get_example :
    (third.fetch_enable_i ≡ true) × (third.clk_i ≡ false) × (third.rst_ni ≡ ltb 9 2) × (third.t ≡ 5)
unfolding main
main-get_example = main-get (false ∷ false ∷ true ∷ []) 2 {u = third} refl

abbrev low_byte : ℕ → ℕ
low_byte a = a % 256

dump_memory_lem_example :
    (map hex_value (dump_memory true true 3 low_byte).0 ≡ take 3 (bytes_from dump_size 0 low_byte))
    × ((dump_memory true true 3 low_byte).1 ≡ exception_writing)
dump_memory_lem_example = dump_memory_lem true true 3 low_byte

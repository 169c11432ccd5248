-- ===== src/HartControl/Reads.antt =====
-- What the hart reads in the debug module (rtl/DM_Mem.sv), address by address.
use jtag_debug_module_for_ri.Common.{
  ℕ, zero, suc, ◌+◌, ◌-◌, ◌*◌, ◌/◌, ◌%◌, ◌^◌, ◌<◌, ◌≤◌, ◌≡◌, refl, sym, ap, ◌∙◌, Bool, Bool-cases,
  inl, inr, true, false, not, ◌&&◌, ◌||◌, List, ◌==◌, leb, ltb, if◌then◌else◌, get_or, arith, some,
  length, get_elem?, ==_iff, [], ◌∷◌, bit_and,
}
use jtag_debug_module_for_ri.HartControl.{Strobe, rd_where, rd_data, rd_prog, rd_abs_cmd, strobe}
use jtag_debug_module_for_ri.HartControl.Memory.{
  MemInputs, Bank, access_of, low_addr, row_of, where_word, row_at, rdata_of, bank_edge, rdata_o,
  rom_word,
}
use jtag_debug_module_for_ri.Common.Pairs.{try_below, try_below_lem, &&-true}
use jtag_debug_module_for_ri.DebugRom.Rom.{rom, rom-mem}
use jtag_debug_module_for_ri.DebugRom.Hart.{fetch}
use jtag_debug_module_for_ri.DebugRom.Decode.{jal, decode}

-- A list of words from an address on.
abbrev pub from_address : ℕ → List ℕ → ℕ → ℕ
from_address base l a = get_or l ((a - base) / 4) 0

-- The address of a word in one of the three arrays.
abbrev pub in_arrays : ℕ → Bool
in_arrays a = (a % 4 == 0) && (leb 0x338 a && ltb a 0x388)

-- The debug module as the hart sees it: the program of the command, then the program buffer, then
-- the data words.
abbrev pub array_word : MemInputs → ℕ → ℕ
array_word i a =
    if ltb a 0x360
    then from_address 0x338 i.abstract_cmd a
    else if ltb a 0x380
    then from_address 0x360 i.progbuf a
    else from_address 0x380 i.words a

row_half :
    (l : List ℕ) (base a : ℕ) (upper : Bool)
    → a % 4 ≡ 0
    → base % 8 ≡ 0
    → base ≤ a
    → a < base + 64
    → upper ≡ (a / 4 % 2 == 1)
    → (let r = row_at l ((a / 8 - base / 8) % 2 ^ 3) in if upper then r.1 else r.0)
      ≡ from_address base l a
row_half l base a true h b lo hi u =
    let odd : a / 4 % 2 ≡ 1 = ground (arith, u) in
    let index : 2 * ((a / 8 - base / 8) % 2 ^ 3) + 1 ≡ (a - base) / 4 =
      omega (arith, h, b, lo, hi, odd) in
    ap (λ k. get_or l k 0) index
row_half l base a false h b lo hi u =
    let even : a / 4 % 2 ≡ 0 = ground (arith, u) in
    let index : 2 * ((a / 8 - base / 8) % 2 ^ 3) ≡ (a - base) / 4 =
      omega (arith, h, b, lo, hi, even) in
    ap (λ k. get_or l k 0) index

upper_half : (i : MemInputs) → (i.addr / 4 % 2 == 1) ≡ (low_addr i / 4 % 2 == 1)
upper_half i =
    let same : i.addr / 4 % 2 ≡ i.addr % 2 ^ 12 / 4 % 2 = omega arith in ap (λ x. x == 1) same

-- A read at the address.
pub record Reading (i : MemInputs) : Type 0 where
  pub requested : i.req ≡ true
  pub no_write : i.we ≡ false

strobe_arrays :
    (i : MemInputs)
    → Reading i
    → in_arrays (low_addr i) ≡ true
    → strobe (access_of i) ≡ (
        if ltb (low_addr i) 0x360
        then rd_abs_cmd
        else if ltb (low_addr i) 0x380
        then rd_prog
        else rd_data)
unfolding strobe
strobe_arrays i r m = ground (arith, r.requested, r.no_write)

-- What comes back of a read with a known strobe, outside the ROM.
pub read_half :
    (i : MemInputs) (q : Bank) (s : Strobe)
    → strobe (access_of i) ≡ s
    → ltb (low_addr i) 0x800 ≡ true
    → rdata_o (bank_edge i q) ≡ (
        let r = rdata_of s i (q.rdata_lo, q.rdata_hi) in
        if low_addr i / 4 % 2 == 1 then r.1 else r.0)
unfolding rdata_o bank_edge
read_half i q s e low =
    let outside : leb 0x800 (low_addr i) ≡ false = ground arith in
    rw (outside, upper_half i, e) refl

-- The two data words are one row.
data_half :
    (i : MemInputs) (old : ℕ × ℕ)
    → in_arrays (low_addr i) ≡ true
    → ltb (low_addr i) 0x380 ≡ false
    → (let r = rdata_of rd_data i old in if low_addr i / 4 % 2 == 1 then r.1 else r.0)
      ≡ from_address 0x380 i.words (low_addr i)
data_half i old m past =
    let row : row_of i ≡ 0x70 = ground (arith, m) in
    let word : low_addr i % 4 ≡ 0 = ground (arith, m) in
    let half =
      row_half i.words 0x380 (low_addr i) (low_addr i / 4 % 2 == 1) word refl (ground arith)
        (ground (arith, m)) refl in
    rw row (rw row at half)

-- A read of the hart at a word's address in the debug module's arrays brings, in the next cycle, the
-- word of the command's program, of the program buffer or of the data that the address stands for.
pub bank_edge-arrays :
    (i : MemInputs) (q : Bank)
    → Reading i
    → in_arrays (low_addr i) ≡ true
    → rdata_o (bank_edge i q) ≡ array_word i (low_addr i)
bank_edge-arrays i q r m =
    let a = low_addr i in
    let upper = a / 4 % 2 == 1 in
    let word : a % 4 ≡ 0 = ground (arith, m) in
    let s = strobe_arrays i r m in
    let below : ltb a 0x800 ≡ true = ground (arith, m) in
    elim (Bool-cases (ltb a 0x360)) [
      | inl cmd ↦
          read_half i q rd_abs_cmd (s ∙ rw cmd refl) below
          ∙ row_half i.abstract_cmd 0x338 a upper word refl (ground (arith, m)) (ground arith) refl
          ∙ rw cmd refl
      | inr past_cmd ↦ elim (Bool-cases (ltb a 0x380)) [
        | inl prog ↦
            read_half i q rd_prog (s ∙ rw (past_cmd, prog) refl) below
            ∙ row_half i.progbuf 0x360 a upper word refl (ground arith) (ground arith) refl
            ∙ rw (past_cmd, prog) refl
        | inr past_prog ↦
            read_half i q rd_data (s ∙ rw (past_cmd, past_prog) refl) below
            ∙ data_half i (q.rdata_lo, q.rdata_hi) m past_prog
            ∙ rw (past_cmd, past_prog) refl
      ]
    ]

-- Both halves of every row of the ROM, against the words of the C header.
rom_half : ℕ → ℕ
rom_half k = if k % 2 == 1 then rom_word (k / 2) / 2 ^ 32 else rom_word (k / 2) % 2 ^ 32

same_code : ℕ → Bool
same_code k = (bit_and (0x800 + 4 * k) 3 == 0) && (rom_half k == get_or (rom true) k 0)

rom_tried : try_below same_code 40 ≡ true
unfolding try_below same_code rom_half rom_word rom
rom_tried = refl

some-get_or : (l : List ℕ) (k : ℕ) → k < length l → get_elem? l k ≡ some (get_or l k 0)
some-get_or [] k h = absurd (omega arith)
some-get_or (x ∷ l) zero h = refl
some-get_or (x ∷ l) (suc k) h = some-get_or l k (omega arith)

rom_shown :
    (i : MemInputs) (q : Bank) (k : ℕ)
    → i.req ≡ true
    → low_addr i ≡ 0x800 + 4 * k
    → k < 40
    → rdata_o (bank_edge i q) ≡ rom_half k
unfolding rdata_o bank_edge rom_half
rom_shown i q k r e h =
    let inside : leb 0x800 (low_addr i) ≡ true = ground arith in
    let row : i.addr / 8 % 2 ^ 5 ≡ k / 2 = omega arith in
    let half : low_addr i / 4 % 2 ≡ k % 2 = omega arith in
    rw (inside, upper_half i, r, row, half) refl

code_same :
    (k : ℕ)
    → k < 40
    → ((bit_and (0x800 + 4 * k) 3 == 0) ≡ true) × (rom_half k ≡ get_or (rom true) k 0)
unfolding same_code
code_same k h =
    let (aligned, same) =
      &&-true {a = bit_and (0x800 + 4 * k) 3 == 0} (try_below_lem same_code 40 rom_tried k h) in
    (aligned, (==_iff _ _).0 same)

fetch_rom : (k : ℕ) → k < 40 → fetch true (0x800 + 4 * k) ≡ decode (rom_half k)
unfolding fetch
fetch_rom k h =
    let (aligned, same) = code_same k h in
    let index : (0x800 + 4 * k - 0x800) / 4 ≡ k = omega arith in
    let there : get_elem? (rom true) k ≡ some (get_or (rom true) k 0) =
      some-get_or (rom true) k (rw (rom-mem true).0 h) in
    rw (aligned, index, there, same) refl

-- The instruction that the hart's model takes from the C header's words is the one that the hardware
-- shows: a read at the address of any of the ROM's 40 words brings a word that decodes to it.
pub bank_edge-fetch :
    (i : MemInputs) (q : Bank) (k : ℕ)
    → Reading i
    → low_addr i ≡ 0x800 + 4 * k
    → k < 40
    → decode (rdata_o (bank_edge i q)) ≡ fetch true (low_addr i)
bank_edge-fetch i q k r e h =
    ap decode (rom_shown i q k r.requested e h) ∙ sym (ap (fetch true) e ∙ fetch_rom k h)

-- Where a hart that is told to go on is sent: to the program buffer or the command's program by a
-- command, else to the resumption.
abbrev pub destination : MemInputs → ℕ
destination i =
    if i.cmdbusy
    then (if i.access_register && (not i.transfer && i.postexec) then 0x360 else 0x338)
    else 0x808

where_strobe : (i : MemInputs) → Reading i → low_addr i ≡ 0x300 → strobe (access_of i) ≡ rd_where
unfolding strobe
where_strobe i r e = rw (r.requested, r.no_write, e) refl

jump_decoded :
    (i : MemInputs)
    → (i.cmdbusy || i.resumereq) ≡ true
    → decode (where_word i) ≡ some (jal 0 (destination i - 0x300))
unfolding where_word decode
jump_decoded i asked = elim (Bool-cases i.cmdbusy) [
  | inl busy ↦ elim (Bool-cases (i.access_register && (not i.transfer && i.postexec))) [
    | inl direct ↦ rw (busy, direct) refl
    | inr program ↦ rw (busy, program) refl
  ]
  | inr idle ↦ let resume : i.resumereq ≡ true = ground arith in rw (idle, resume) refl
]

-- A hart that fetches at the address 0x300 while a command runs or a resumption is asked for gets
-- a jump to the destination.
pub where_jumps :
    (i : MemInputs) (q : Bank)
    → Reading i
    → low_addr i ≡ 0x300
    → (i.cmdbusy || i.resumereq) ≡ true
    → decode (rdata_o (bank_edge i q)) ≡ some (jal 0 (destination i - 0x300))
where_jumps i q r e busy =
    let at_where : strobe (access_of i) ≡ rd_where = where_strobe i r e in
    ap decode (read_half i q rd_where at_where (ground arith) ∙ rw e refl) ∙ jump_decoded i busy

-- ===== src/Syscalls/Heap.antt =====
-- The heap of tb/prog/syscalls.c: `_sbrk` and rows of its calls.
use jtag_debug_module_for_ri.Common.{
  ℕ, ◌+◌, ◌*◌, ◌^◌, ◌<◌, ◌≤◌, ◌≡◌, List, [], ◌∷◌, arith, ltb, if◌then◌else◌,
}
use jtag_debug_module_for_ri.Common.Int.{pos}
use jtag_debug_module_for_ri.Syscalls.{Sys, sbrk}

abbrev pub sum : List ℕ → ℕ
sum [] = 0
sum (n ∷ ns) = n + sum ns

-- Each block starts where the one before it ends, and as many bytes again behind it are lost.
abbrev pub twice_apart : ℕ → List ℕ → List ℕ
twice_apart p [] = []
twice_apart p (n ∷ ns) = p ∷ twice_apart (p + 2 * n) ns

module _ (heap_start heap_end : ℕ) where
  -- The linker gives a heap of some bytes below the top of the address space, and the break has
  -- not passed its end.
  pub record IsWithin (s : Sys) : Type 0 where
    pub nonempty : heap_start < heap_end
    pub addressable : heap_end < 2 ^ 32
    pub above : heap_start ≤ s.brk
    pub below : s.brk ≤ heap_end

  -- A request for `n` bytes gives the old break, and moves it by twice the request if the first
  -- half of the move stays below the end of the heap, and to the end of the heap if not.
  pub sbrk_grow :
      (n : ℕ) (s : Sys)
      → IsWithin s
      → n < 2 ^ 31
      → s.brk + 2 * n < 2 ^ 32
      → sbrk heap_start heap_end (pos n) s
        ≡ (s.brk, record s { brk = if ltb (s.brk + n) heap_end then s.brk + 2 * n else heap_end })
  unfolding sbrk
  sbrk_grow n s w hn hs = ground arith

  -- The break passes the end of the heap on every request whose first half fits and whose second
  -- half does not, and the call reports no failure.
  pub sbrk_overrun :
      (n : ℕ) (s : Sys)
      → IsWithin s
      → s.brk + n < heap_end
      → heap_end < s.brk + 2 * n
      → s.brk + 2 * n < 2 ^ 32
      → let (p, t) = sbrk heap_start heap_end (pos n) s in (p ≡ s.brk) × (heap_end < t.brk)
  unfolding sbrk
  sbrk_overrun n s w fits not_twice top = ground arith

  -- Requests in a row: the blocks that they give.
  pub sbrks : List ℕ → Sys → List ℕ × Sys
  sbrks [] s = ([], s)
  sbrks (n ∷ ns) s =
      let (p, t) = sbrk heap_start heap_end (pos n) s in let (ps, u) = sbrks ns t in (p ∷ ps, u)

  -- Requests that together take less than half of what the heap has left are all met, by blocks
  -- that do not overlap, and use up twice what was asked for.
  pub sbrks-twice_apart :
      (ns : List ℕ) (s : Sys)
      → IsWithin s
      → s.brk + 2 * sum ns < heap_end
      → sbrks ns s ≡ (twice_apart s.brk ns, record s { brk = s.brk + 2 * sum ns })
  unfolding sbrks
  sbrks-twice_apart [] s w h = ground arith
  sbrks-twice_apart (n ∷ ns) s w h =
      let t : Sys = record s { brk = s.brk + 2 * n } in
      let first : sbrk heap_start heap_end (pos n) s ≡ (s.brk, t) =
        ground (arith, sbrk_grow n s w) in
      rw first (rw (sbrks-twice_apart ns t (ground arith) (omega arith)) (ground arith))

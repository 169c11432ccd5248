-- ===== src/Bitbang/Loops.antt =====
-- The three waiting loops of remote_bitbang.c: when `rbs_accept`, the read of a command and the
-- write of an answer end, and how.
use jtag_debug_module_for_ri.Common.{
  ℕ, zero, suc, ◌≡◌, refl, sym, ◌↔◌, List, [], ◌∷◌, ◌++◌, arith, replicate,
}
use mathlib.Core.Path.{subst}
use jtag_debug_module_for_ri.Bitbang.{
  Server, Ret, fail, ret, Received, read_fail, byte, eof, eagain, Outcome, ok, aborted, blocked,
  read_loop, send_loop,
}

abbrev pub All {ℓ} : {A : Type ℓ} → (A → Type 0) → List A → Type 0
All P [] = Unit {0}
All P (x ∷ xs) = P x × All P xs

-- The loop that waits for a command is still waiting exactly when every answer so far was EAGAIN.
pub read_loop-blocked :
    (l : List Received) (s : Server) → (read_loop l s ≡ blocked) ↔ All (λ r. r ≡ read_fail eagain) l
unfolding read_loop
read_loop-blocked [] s = (λ h. tt, λ h. refl)
read_loop-blocked (byte c ∷ l) s = (λ h. cc, λ h. cc h.0)
read_loop-blocked (eof ∷ l) s = (λ h. cc, λ h. cc h.0)
read_loop-blocked (read_fail e ∷ l) s =
    let ih = read_loop-blocked l s in (λ h. ground (arith, ih), λ h. ground (arith, ih))

-- The loop that sends an answer is still waiting exactly when every `write` so far took no byte.
pub send_loop-blocked :
    (l : List Ret) (b : ℕ) (s : Server) → (send_loop l b s ≡ blocked) ↔ All (λ r. r ≡ ret 0) l
unfolding send_loop
send_loop-blocked [] b s = (λ h. tt, λ h. refl)
send_loop-blocked (fail e ∷ l) b s = (λ h. cc, λ h. cc h.0)
send_loop-blocked (ret n ∷ l) b s =
    let ih = send_loop-blocked l b s in (λ h. ground (arith, ih), λ h. ground (arith, ih))

-- The reader rides out any number of EAGAINs, on the non-blocking client socket; what comes after
-- them decides.
pub read_loop-replicate :
    (n : ℕ) (l : List Received) (s : Server)
    → read_loop (replicate n (read_fail eagain) ++ l) s ≡ read_loop l s
unfolding read_loop
read_loop-replicate zero l s = refl
read_loop-replicate (suc n) l s = read_loop-replicate n l s

-- What the operating system answers to the writes of a byte `b`, and how the sender ends: some
-- number of writes that take no byte, and then nothing, a failure, or a write that takes the byte.
pub data Sending (b : ℕ) (s : Server) : List Ret → Outcome Server → Type 0 where
  waits : (n : ℕ) → Sending b s (replicate n (ret 0)) blocked
  fails : (n e : ℕ) (rest : List Ret) → Sending b s (replicate n (ret 0) ++ fail e ∷ rest) aborted
  takes :
      (n k : ℕ) (rest : List Ret)
      → Sending b s
          (replicate n (ret 0) ++ ret (suc k) ∷ rest)
          (ok (record s { writes = rest; sent = s.sent ++ b ∷ [] }))

one_more :
    (b : ℕ) (s : Server) (l : List Ret) (o : Outcome Server)
    → Sending b s l o
    → Sending b s (ret 0 ∷ l) o
one_more b s _ _ (waits n) = waits (suc n)
one_more b s _ _ (fails n e rest) = fails (suc n) e rest
one_more b s _ _ (takes n k rest) = takes (suc n) k rest

-- Whatever the operating system answers, the sender, which writes to the same socket as the reader,
-- rides out writes of no byte and nothing else: if they are all there is it is still waiting, the
-- first failure after them, EAGAIN included, aborts, and the first write after them that takes a
-- byte has sent exactly this one, with the later answers left.
pub send_loop_lem : (l : List Ret) (b : ℕ) (s : Server) → Sending b s l (send_loop l b s)
unfolding send_loop
send_loop_lem [] b s = waits 0
send_loop_lem (fail e ∷ l) b s = fails 0 e l
send_loop_lem (ret zero ∷ l) b s = one_more b s l (send_loop l b s) (send_loop_lem l b s)
send_loop_lem (ret (suc k) ∷ l) b s =
    let sent : send_loop (ret (suc k) ∷ l) b s
        ≡ ok (record s { writes = l; sent = s.sent ++ b ∷ [] }) =
      ground arith in
    subst (Sending b s (ret (suc k) ∷ l)) (sym sent) (takes 0 k l)

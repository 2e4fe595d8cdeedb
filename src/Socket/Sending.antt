-- ===== src/Socket/Sending.antt =====
-- The send loop puts out a prefix of the bytes, and its count says which.
use sserver.Prelude.{
  ℕ, ◌+◌, ◌-◌, ◌≤◌, ◌<◌, ◌≡◌, refl, sym, ap, ◌∙◌, inl, inr, min, List, [], ◌∷◌, ◌++◌, some, leb,
  length, take, drop, pos, arith, Bool-cases, take-add, length-drop,
}
use sserver.Socket.{Send, Sent, sent, minus_one, before, send_loop, safe_tcp_send_n}

-- What a send loop that has sent `n` of `total` bytes, with `bs` left, may return: a count `k`,
-- where the bytes from the `n`-th to the `k`-th went out, or -1 after a prefix went out.
pub data SendPost (bs : List ℕ) (total n : ℕ) (t : Sent) : Type 0 where
  counted :
      (k : ℕ) → t.ret ≡ pos k → n ≤ k → k ≤ total → t.wire ≡ take (k - n) bs → SendPost bs total n t
  broken : (j : ℕ) → t.ret ≡ minus_one → j ≤ length bs → t.wire ≡ take j bs → SendPost bs total n t

-- The loop returns what it has.
stop :
    (bs : List ℕ) (total n : ℕ) (s : List Send)
    → n ≤ total
    → SendPost bs total n (sent (pos n) [] s)
unfolding sent
stop bs total n s h =
    SendPost.counted n refl (omega arith) h (ap (λ j. take j bs) {x = 0} {y = n - n} (omega arith))

-- The loop goes on after `c` bytes.
extend :
    (bs : List ℕ) (total n c : ℕ) (t : Sent)
    → c ≤ length bs
    → SendPost (drop c bs) total (n + c) t
    → SendPost bs total n (before (take c bs) t)
unfolding before
extend bs total n c t h (SendPost.counted k r g l w) = SendPost.counted k r (omega arith) l (
    ap (λ ys. take c bs ++ ys) w
    ∙ sym (take-add c (k - (n + c)) bs)
    ∙ ap (λ j. take j bs) (omega arith))
extend bs total n c t h (SendPost.broken j r l w) =
    SendPost.broken (c + j) r (omega (arith, length-drop c bs))
      (ap (λ ys. take c bs ++ ys) w ∙ sym (take-add c j bs))

send_loop_lem :
    (s : List Send) (bs : List ℕ) (total n : ℕ)
    → n + length bs ≡ total
    → SendPost bs total n (send_loop s bs total n)
unfolding send_loop
send_loop_lem [] bs total n h = stop bs total n [] (omega arith)
send_loop_lem (Send.takes k ∷ s) bs total n h = elim (Bool-cases (leb total n)) [
  | inl full ↦ rw (full) (stop bs total n (Send.takes k ∷ s) (omega arith))
  | inr room ↦ rw (room) (
      extend bs total n (min k (total - n)) _ (omega arith) (
        send_loop_lem s (drop (min k (total - n)) bs) total (n + min k (total - n))
          (omega (arith, length-drop (min k (total - n)) bs))))
]
send_loop_lem (Send.intr ∷ s) bs total n h = elim (Bool-cases (leb total n)) [
  | inl full ↦ rw (full) (stop bs total n (Send.intr ∷ s) (omega arith))
  | inr room ↦ rw (room) (send_loop_lem s bs total n h)
]
send_loop_lem (Send.again ∷ s) bs total n h = elim (Bool-cases (leb total n)) [
  | inl full ↦ rw (full) (stop bs total n (Send.again ∷ s) (omega arith))
  | inr room ↦ rw (room) (stop bs total n s (omega arith))
]
send_loop_lem (Send.failed ∷ s) bs total n h = elim (Bool-cases (leb total n)) [
  | inl full ↦ rw (full) (stop bs total n (Send.failed ∷ s) (omega arith))
  | inr room ↦ rw (room, sent) (SendPost.broken 0 refl (omega arith) refl)
]

-- `safe_tcp_send_n` of at least one byte returns; a count that it returns is at most the number
-- of bytes, and exactly the first that many went out, in order. Else it returns -1, after a prefix.
pub safe_tcp_send_n_lem :
    (s : List Send) (bs : List ℕ)
    → 0 < length bs
    → (t : Sent) × (safe_tcp_send_n s bs ≡ some t) × SendPost bs (length bs) 0 t
unfolding safe_tcp_send_n
safe_tcp_send_n_lem s bs h =
    (send_loop s bs (length bs) 0, ground arith, send_loop_lem s bs (length bs) 0 (omega arith))

-- ===== src/Socket/Stream.antt =====
-- The loops against the byte streams: nothing is lost, repeated or written out of bounds.
use sserver.Prelude.{
  ℕ, ◌+◌, ◌-◌, ◌≤◌, ◌<◌, ◌≡◌, refl, sym, ap, ap₂, ◌∙◌, ◌⊎◌, inl, inr, List, [], ◌∷◌, ◌++◌, some,
  leb, ◌==◌, length, take, drop, pos, arith, Bool-cases, append_assoc, take-append-drop,
  length-take, take_all, drop_all,
}
use sserver.Mem.{Mem, blit, slice}
use sserver.Mem.Frame.{slice_ext, slice-append, slice-blit_self, blit-outside}
use sserver.Socket.{Recv, Received, minus_one, put_back, recv_loop, safe_tcp_recv_n}

-- The bytes that a script will deliver.
unfoldable pub stream : List Recv → List ℕ
stream [] = []
stream (Recv.delivers bs ∷ s) = bs ++ stream s
stream (Recv.intr ∷ s) = stream s
stream (Recv.again ∷ s) = stream s
stream (Recv.failed ∷ s) = stream s

-- What a receive loop that started with `n` of `total` bytes at `p` leaves when it returns a count
-- `k`: the bytes from the `n`-th to the `k`-th are the next of the stream `w`, and no address
-- outside that room was written.
pub record Reads (w : List ℕ) (m : Mem) (p total n k : ℕ) (r : Received) : Type 0 where
  pub grows : n ≤ k
  pub within : k ≤ total
  pub kept : (a : ℕ) → (a < p + n) ⊎ (p + total ≤ a) → r.mem a ≡ m a
  pub next : w ≡ slice r.mem (p + n) (k - n) ++ stream r.rest

-- A count, 0 at the end of the stream, or -1.
abbrev pub RecvPost : List ℕ → Mem → ℕ → ℕ → ℕ → Received → Type 0
RecvPost w m p total n r =
    ((k : ℕ) × (r.ret ≡ pos k) × Reads w m p total n k r) ⊎ ((r.ret ≡ pos 0) ⊎ (r.ret ≡ minus_one))

stream-put_back :
    (n : ℕ) (bs : List ℕ) (s : List Recv) → stream (put_back n bs s) ≡ drop n bs ++ stream s
unfolding stream put_back
stream-put_back n bs s = elim (Bool-cases (leb (length bs) n)) [
  | inl all ↦ rw (all, drop_all n bs (ground arith))
  | inr part ↦ rw (part)
]

-- The loop returns what it has.
stop :
    (s : List Recv) (m : Mem) (p total n : ℕ)
    → n ≤ total
    → RecvPost (stream s) m p total n (record { ret = pos n; mem = m; rest = s })
unfolding slice
stop s m p total n h = inl (
  n,
  refl,
  record {
    grows = omega arith;
    within = h;
    kept = λ a o. refl;
    next = ap (λ j. slice m (p + n) j ++ stream s) {x = 0} {y = n - n} (omega arith);
  },
)

regroup : (n : ℕ) (bs w : List ℕ) → bs ++ w ≡ take n bs ++ (drop n bs ++ w)
regroup n bs w =
    ap (λ l. l ++ w) (sym (take-append-drop n bs)) ∙ append_assoc (take n bs) (drop n bs) w

-- One delivery covers what is wanted.
cover :
    (bs : List ℕ) (s : List Recv) (m : Mem) (p total n : ℕ)
    → n ≤ total
    → total - n ≤ length bs
    → RecvPost (bs ++ stream s) m p total n (record {
      ret = pos total;
      mem = blit m (p + n) (take (total - n) bs);
      rest = put_back (total - n) bs s;
    })
cover bs s m p total n h c = inl (
  total,
  refl,
  record {
    grows = h;
    within = omega arith;
    kept = λ a o. blit-outside m (p + n) (take want bs) a (omega (arith, size, o));
    next = regroup want bs (stream s) ∙ ap₂ ◌++◌ (sym whole) (sym (stream-put_back want bs s));
  },
)
  where
    want : ℕ
    want = total - n

    size : length (take want bs) ≡ want
    size = omega (arith, length-take want bs)

    whole : slice (blit m (p + n) (take want bs)) (p + n) want ≡ take want bs
    whole =
        ap (slice (blit m (p + n) (take want bs)) (p + n)) (sym size)
        ∙ slice-blit_self m (p + n) (take want bs)

-- One delivery is read whole, and the loop goes on.
extend :
    (bs : List ℕ) (w : List ℕ) (m : Mem) (p total n : ℕ) (r : Received)
    → RecvPost w (blit m (p + n) bs) p total (n + length bs) r
    → RecvPost (bs ++ w) m p total n r
extend bs w m p total n r (inr e) = inr e
extend bs w m p total n r (inl (k, e, g)) = inl (
  k,
  e,
  record {
    grows = omega (arith, g.grows);
    within = g.within;
    kept = λ a o.
        g.kept a (omega (arith, o))
        ∙ blit-outside m (p + n) bs a (omega (arith, g.grows, g.within, o));
    next =
        ap (λ l. bs ++ l) g.next
        ∙ sym (append_assoc bs _ (stream r.rest))
        ∙ ap (λ l. l ++ stream r.rest) (sym joined);
  },
)
  where
    j : ℕ
    j = k - (n + length bs)

    first : slice r.mem (p + n) (length bs) ≡ bs
    first =
        slice_ext r.mem (blit m (p + n) bs) (p + n) (length bs)
          (λ a l u. g.kept a (inl (omega arith)))
        ∙ slice-blit_self m (p + n) bs

    joined : slice r.mem (p + n) (k - n) ≡ bs ++ slice r.mem (p + (n + length bs)) j
    joined =
        ap (slice r.mem (p + n)) {y = length bs + j} (omega (arith, g.grows))
        ∙ slice-append r.mem (p + n) (length bs) j (p + (n + length bs)) (omega arith)
        ∙ ap (λ l. l ++ slice r.mem (p + (n + length bs)) j) first

recv_loop_lem :
    (s : List Recv) (m : Mem) (p total n : ℕ)
    → n ≤ total
    → RecvPost (stream s) m p total n (recv_loop s m p total n)
unfolding recv_loop stream
recv_loop_lem [] m p total n h = stop [] m p total n h
recv_loop_lem (Recv.delivers bs ∷ s) m p total n h = elim (Bool-cases (leb total n)) [
  | inl full ↦ rw (full) (stop (Recv.delivers bs ∷ s) m p total n h)
  | inr room ↦ rw (room) (elim (Bool-cases (length bs == 0)) [
    | inl ended ↦ rw (ended) (inr (inl refl))
    | inr some_bytes ↦ rw (some_bytes) (elim (Bool-cases (leb (total - n) (length bs))) [
      | inl covers ↦ rw (covers) (cover bs s m p total n h (ground arith))
      | inr fewer ↦
          rw (fewer, take_all (total - n) bs (ground arith))
            (extend bs (stream s) m p total n _
              (recv_loop_lem s (blit m (p + n) bs) p total (n + length bs) (ground arith)))
    ])
  ])
]
recv_loop_lem (Recv.intr ∷ s) m p total n h = elim (Bool-cases (leb total n)) [
  | inl full ↦ rw (full) (stop (Recv.intr ∷ s) m p total n h)
  | inr room ↦ rw (room) (recv_loop_lem s m p total n h)
]
recv_loop_lem (Recv.again ∷ s) m p total n h = elim (Bool-cases (leb total n)) [
  | inl full ↦ rw (full) (stop (Recv.again ∷ s) m p total n h)
  | inr room ↦ rw (room) (stop s m p total n h)
]
recv_loop_lem (Recv.failed ∷ s) m p total n h = elim (Bool-cases (leb total n)) [
  | inl full ↦ rw (full) (stop (Recv.failed ∷ s) m p total n h)
  | inr room ↦ rw (room) (inr (inr refl))
]

-- `safe_tcp_recv_n` asked for at least one byte returns; a count that it returns is at most
-- `total`, the memory then holds that many next bytes of the stream and is unchanged outside
-- the buffer, and the rest of the stream is still to come. Else it returns 0 or -1.
pub safe_tcp_recv_n_lem :
    (s : List Recv) (m : Mem) (p total : ℕ)
    → 0 < total
    → (r : Received) × (safe_tcp_recv_n s m p total ≡ some r) × RecvPost (stream s) m p total 0 r
unfolding safe_tcp_recv_n
safe_tcp_recv_n_lem s m p total h =
    (recv_loop s m p total 0, ground arith, recv_loop_lem s m p total 0 (omega arith))

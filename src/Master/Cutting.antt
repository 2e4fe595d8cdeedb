-- ===== src/Master/Cutting.antt =====
-- `handle_cli` against the stream of a client: what its loop hands to the worker's queue.
use sserver.Prelude.{
  ℕ, zero, suc, ◌+◌, ◌-◌, ◌^◌, ◌≤◌, ◌<◌, ◌≡◌, refl, sym, subst, inl, inr, Bool, true, false, List,
  [], ◌∷◌, ◌++◌, append-nil, append_assoc, Option, some, arith, ltb, leb, lt→ltb, ◌==◌,
  if◌then◌else◌, Bool-cases, length,
}
use sserver.Mem.{Mem, slice}
use sserver.Mem.Frame.{length-slice}
use sserver.MemQueue.{MemQueue, Pushed, blk_data}
use sserver.MemQueue.Layout.{Message, block_of, Fits}
use sserver.MemQueue.Fifo.{Holds, Pushes, push_lem}
use sserver.Server.{ServIf}
use sserver.NetUtil.{push_ret}
use sserver.Master.{Framing, raw2blk, want_len, after_push, push_message, frame_round, frame_loop}
use sserver.Master.Stream.{message, messages, ask, Cut, known_after, known_after-zero}

-- `mq_push` of a message as its callers see it.
pub data PushRet (xs : List Message) (x : Message) : Bool × MemQueue → Type 0 where
  done : {q : MemQueue} → Holds q (xs ++ x ∷ []) → PushRet xs x (true, q)
  full : {q : MemQueue} → Holds q xs → PushRet xs x (false, q)

pub push_ret-PushRet :
    (q : MemQueue) (xs : List Message) (x : Message)
    → Fits x
    → Holds q xs
    → PushRet xs x (push_ret q (block_of x) x.bytes)
unfolding push_ret
push_ret-PushRet q xs x f h = ret _ (push_lem q xs x f h)
  where
    ret :
        (r : Pushed)
        → Pushes x xs r
        → PushRet xs x (elim r [
          | Pushed.done q' ↦ (true, q')
          | Pushed.full q' ↦ (false, q')
          | Pushed.spin ↦ (false, q)
        ])
    ret r (Pushes.done h) = PushRet.done h
    ret r (Pushes.full h) = PushRet.full h

Cut-step :
    (so : ServIf) (fd : ℕ) (m : Mem) {known p n q k : ℕ} {bss : List (List ℕ)} (w : ℕ)
    → w ≡ ask so fd m known p n
    → w ≤ n
    → Cut so fd m 0 (p + w) (n - w) bss q k
    → Cut so fd m known p n (slice m p w ∷ bss) q k
Cut-step so fd m {known} {p} {n} {q} {k} {bss} w e =
    subst
      (λ w.
        w ≤ n
        → Cut so fd m 0 (p + w) (n - w) bss q k
        → Cut so fd m known p n (slice m p w ∷ bss) q k)
      (sym e) Cut.cut

-- The block that `raw2blk` makes of `n` bytes is that of their message.
pub block_of-slice :
    (idx fd : ℕ) (m : Mem) (p n : ℕ) → raw2blk idx fd n ≡ block_of (message idx fd (slice m p n))
unfolding raw2blk
block_of-slice idx fd m p n = λ i. record { id = idx; fd = fd; type = blk_data; len = len i }
  where
    len : n + 13 ≡ 13 + length (slice m p n)
    len = rw (length-slice m p n) (omega arith)

-- `mq_push` of the block of `n` bytes at `p`.
raw2blk-PushRet :
    (idx fd : ℕ) (m : Mem) (p n : ℕ) (q : MemQueue) (xs : List Message)
    → idx < 2 ^ 32
    → fd < 2 ^ 32
    → n + 13 < 2 ^ 31
    → Holds q xs
    → PushRet xs (message idx fd (slice m p n)) (push_ret q (raw2blk idx fd n) (slice m p n))
raw2blk-PushRet idx fd m p n q xs i d l h =
    subst (λ b. PushRet xs (message idx fd (slice m p n)) (push_ret q b (slice m p n)))
      (sym (block_of-slice idx fd m p n))
      (push_ret-PushRet q xs (message idx fd (slice m p n))
        (record { type = ground arith; id = i; fd = d; len = omega (arith, l, length-slice m p n) })
        h)

want_len-ask :
    (so : ServIf) (idx fd : ℕ) (m : Mem) (f : Framing)
    → 0 < f.rlen
    → want_len so idx fd m f ≡ ask so fd m f.msglen f.at f.rlen
unfolding want_len
want_len-ask so idx fd m f h = rw (lt→ltb 0 f.rlen h) (ground arith)

want_len-pos :
    (so : ServIf) (idx fd : ℕ) (m : Mem) (f : Framing)
    → ((b : ℕ) (bs : List ℕ) → 0 < so.get_msg_len fd (b ∷ bs))
    → 0 < f.rlen
    → 0 < want_len so idx fd m f
unfolding want_len slice
want_len-pos so idx fd m f pos_len h = rw (lt→ltb 0 f.rlen h) (elim (Bool-cases (f.msglen == 0)) [
  | inl fresh ↦ rw (fresh) (asked f.rlen h)
  | inr known ↦ rw (known) (ground arith)
])
  where
    asked : (n : ℕ) → 0 < n → 0 < so.get_msg_len fd (slice m f.at n)
    asked zero l = absurd (omega arith)
    asked (suc n) l = pos_len (m f.at) (slice m (f.at + 1) n)

module _ (so : ServIf) (idx fd : ℕ) (m : Mem) where
  -- How the loop ends behind the messages `ys` in the queue: with nothing left, with a message that is
  -- not whole, or with one that is whole and that the queue refuses.
  pub data Stop (ys : List Message) (known : ℕ) : Bool × Framing → Type 0 where
    drained : {g : Framing} → g.rlen ≡ 0 → g.msglen ≡ 0 → Stop ys known (true, g)
    partial :
        {g : Framing}
        → g.rlen < g.msglen
        → g.msglen ≡ ask so fd m known g.at g.rlen
        → Stop ys known (true, g)
    refused :
        {g : Framing} (q : MemQueue) (w : ℕ)
        → Holds q ys
        → w ≡ ask so fd m known g.at g.rlen
        → w ≤ g.rlen
        → push_ret q (raw2blk idx fd w) (slice m g.at w) ≡ (false, g.queue)
        → Stop ys known (false, g)

  -- The loop has cut the bytes into these messages, and the queue holds them behind `xs`. It ended
  -- with nothing left, an incomplete message, or one that the queue refuses.
  pub record Framed (xs : List Message) (f : Framing) (r : Bool × Framing) : Type 0 where
    pub bss : List (List ℕ)
    pub cuts : Cut so fd m f.msglen f.at f.rlen bss r.1.at r.1.rlen
    pub holds : Holds r.1.queue (xs ++ messages idx fd bss)
    pub stop : Stop (xs ++ messages idx fd bss) (known_after f.msglen bss) r

  pub data FramePost (xs : List Message) (f : Framing) : Option (Bool × Framing) → Type 0 where
    ends : {r : Bool × Framing} → Framed xs f r → FramePost xs f (some r)

  -- One message and then the others.
  Framed-cut :
      (xs : List Message) (f : Framing) (w : ℕ) (q : MemQueue) {o : Option (Bool × Framing)}
      → w ≡ ask so fd m f.msglen f.at f.rlen
      → w ≤ f.rlen
      → FramePost
          (xs ++ message idx fd (slice m f.at w) ∷ [])
          (record { queue = q; at = f.at + w; rlen = f.rlen - w; msglen = 0 })
          o
      → FramePost xs f o
  Framed-cut xs f w q e h (FramePost.ends {r} t) = FramePost.ends (record {
    bss = slice m f.at w ∷ t.bss;
    cuts = Cut-step so fd m w e h t.cuts;
    holds = subst (λ l. Holds r.1.queue l) (append_assoc xs _ _) t.holds;
    stop =
        subst (λ k. Stop (xs ++ messages idx fd (slice m f.at w ∷ t.bss)) k r)
          (known_after-zero t.bss)
          (subst (λ l. Stop l (known_after 0 t.bss) r) (append_assoc xs _ _) t.stop);
  })

  -- The end of a pass in which the message is whole.
  after_push-FramePost :
      (xs : List Message) (f : Framing) (w : ℕ) {p : Bool × MemQueue}
      (next : Framing → Option (Bool × Framing))
      → w ≡ ask so fd m f.msglen f.at f.rlen
      → w ≤ f.rlen
      → Holds f.queue xs
      → push_ret f.queue (raw2blk idx fd w) (slice m f.at w) ≡ p
      → PushRet xs (message idx fd (slice m f.at w)) p
      → ((g : Framing)
          → 0 < g.rlen
          → g.rlen ≡ f.rlen - w
          → Holds g.queue (xs ++ message idx fd (slice m f.at w) ∷ [])
          → FramePost (xs ++ message idx fd (slice m f.at w) ∷ []) g (next g))
      → FramePost xs f (
          let r = after_push f w p in
          if r.0
          then (if ltb 0 r.1.rlen then next r.1 else some (true, r.1))
          else some (false, r.1))
  unfolding after_push
  after_push-FramePost xs f w next e l b a (PushRet.full h) again = FramePost.ends (record {
    bss = [];
    cuts = Cut.rest;
    holds = rw (append-nil xs) h;
    stop = rw (append-nil xs) (Stop.refused f.queue w b e l a);
  })
  after_push-FramePost xs f w next e l b a (PushRet.done {q} h) again =
      Framed-cut xs f w q e l (elim (Bool-cases (ltb 0 (f.rlen - w))) [
        | inl more ↦ rw (more) (again _ (ground arith) refl h)
        | inr emptied ↦ rw (emptied) (
            FramePost.ends (record {
              bss = [];
              cuts = Cut.rest;
              holds = rw (append-nil (xs ++ message idx fd (slice m f.at w) ∷ [])) h;
              stop = Stop.drained (ground arith) refl;
            }))
      ])

  frame_round-FramePost :
      (xs : List Message) (f : Framing) (w : ℕ) (p : Bool × MemQueue)
      (next : Framing → Option (Bool × Framing))
      → w ≡ ask so fd m f.msglen f.at f.rlen
      → Holds f.queue xs
      → push_ret f.queue (raw2blk idx fd w) (slice m f.at w) ≡ p
      → (w ≤ f.rlen → PushRet xs (message idx fd (slice m f.at w)) p)
      → ((g : Framing)
          → 0 < g.rlen
          → g.rlen ≡ f.rlen - w
          → Holds g.queue (xs ++ message idx fd (slice m f.at w) ∷ [])
          → FramePost (xs ++ message idx fd (slice m f.at w) ∷ []) g (next g))
      → FramePost xs f (frame_round f w (after_push f w p) (next (after_push f w p).1))
  unfolding frame_round
  frame_round-FramePost xs f w p next e h a ret again = elim (Bool-cases (leb w f.rlen)) [
    | inr over ↦ rw (over) (
        FramePost.ends (record {
          bss = [];
          cuts = Cut.rest;
          holds = rw (append-nil xs) h;
          stop = Stop.partial (ground arith) e;
        }))
    | inl whole ↦
        rw (whole)
          (after_push-FramePost xs f w next e (ground arith) h a (ret (ground arith)) again)
  ]

  -- The loop on a buffer with bytes in it ends, if the library never answers with length 0 to some
  -- bytes; then the queue holds the messages that the bytes were cut into, in order.
  pub frame_loop-FramePost :
      (fuel : ℕ) (xs : List Message) (f : Framing)
      → ((b : ℕ) (bs : List ℕ) → 0 < so.get_msg_len fd (b ∷ bs))
      → idx < 2 ^ 32
      → fd < 2 ^ 32
      → f.rlen + 13 < 2 ^ 31
      → 0 < f.rlen
      → f.rlen < fuel
      → Holds f.queue xs
      → FramePost xs f (frame_loop so idx fd m fuel f)
  unfolding frame_loop push_message
  frame_loop-FramePost zero xs f pos_len i d small some_bytes enough h = absurd (omega arith)
  frame_loop-FramePost (suc fuel) xs f pos_len i d small some_bytes enough h =
      frame_round-FramePost xs f (want_len so idx fd m f)
        (push_ret f.queue (raw2blk idx fd (want_len so idx fd m f))
          (slice m f.at (want_len so idx fd m f)))
        (frame_loop so idx fd m fuel) (want_len-ask so idx fd m f some_bytes) h refl
        (λ l. raw2blk-PushRet idx fd m f.at _ f.queue xs i d (omega arith) h)
        (λ g more len k.
          frame_loop-FramePost fuel _ g pos_len i d (omega arith) more
            (omega (arith, want_len-pos so idx fd m f pos_len some_bytes)) k)

-- ===== src/MemQueue/Chain.antt =====
-- Runs of messages laid end to end, and what a push or a padding block does to them.
use sserver.Prelude.{
  ℕ, ◌+◌, ◌-◌, ◌≤◌, ◌<◌, ◌≡◌, refl, sym, subst, ◌∙◌, ◌⊎◌, inl, inr, List, [], ◌∷◌, ◌++◌, arith,
  length-take, leb, Bool-cases,
}
use sserver.Mem.{Mem}
use sserver.Mem.Frame.{blit-outside, blit-head}
use sserver.MemQueue.{
  MemQueue, blk_align, blk_head_len, read_type, set_type, set_len, write_block, pad, append,
}
use sserver.MemQueue.Layout.{
  Message, size, block_of, Fits, Held, Held-blit, Held-append, Held-append-Apart,
}

-- The messages stand one after the other from the offset `p` up to the offset `e`.
abbrev pub Chain : Mem → ℕ → ℕ → List Message → Type 0
Chain m p e [] = p ≡ e
Chain m p e (x ∷ xs) = Held m p x × Fits x × Chain m (p + size x) e xs

pub Chain-le : (m : Mem) (p e : ℕ) (xs : List Message) → Chain m p e xs → p ≤ e
Chain-le m p e [] c = omega arith
Chain-le m p e (x ∷ xs) c = omega (arith, Chain-le m (p + size x) e xs c.2)

pub Chain-snoc :
    (m : Mem) (p e e' : ℕ) (xs : List Message) (x : Message)
    → Chain m p e xs
    → Held m e x
    → Fits x
    → e + size x ≡ e'
    → Chain m p e' (xs ++ x ∷ [])
Chain-snoc m p e e' [] x c h f q = (subst (λ k. Held m k x) (sym c) h, f, omega arith)
Chain-snoc m p e e' (y ∷ ys) x c h f q = (c.0, c.1, Chain-snoc m (p + size y) e e' ys x c.2 h f q)

-- A change of memory that keeps every message in a range keeps the chains in it.
pub Chain-mono :
    (m m' : Mem) (lo hi : ℕ)
    → ((p : ℕ) (x : Message) → lo ≤ p → p + size x ≤ hi → Held m p x → Held m' p x)
    → (p e : ℕ) (xs : List Message) → lo ≤ p
    → e ≤ hi
    → Chain m p e xs
    → Chain m' p e xs
Chain-mono m m' lo hi keep p e [] l h c = c
Chain-mono m m' lo hi keep p e (x ∷ xs) l h c = (
  keep p x l (omega (arith, Chain-le m (p + size x) e xs c.2)) c.0,
  c.1,
  Chain-mono m m' lo hi keep (p + size x) e xs (omega arith) h c.2,
)

module _ (q : MemQueue) (x : Message) where
  -- Messages below the head stay.
  pub Chain-append_below :
      (p e : ℕ) (xs : List Message)
      → e ≤ q.head
      → Chain q.mem p e xs
      → Chain (append q (block_of x) x.bytes).mem p e xs
  Chain-append_below p e xs h =
      Chain-mono q.mem _ 0 q.head (λ r y l u. Held-append-Apart q x y r (inl u)) p e xs
        (omega arith) h

  -- Messages above the new block stay.
  pub Chain-append_above :
      (p e : ℕ) (xs : List Message)
      → q.head + size x ≤ p
      → Chain q.mem p e xs
      → Chain (append q (block_of x) x.bytes).mem p e xs
  Chain-append_above p e xs h =
      Chain-mono q.mem _ (q.head + size x) e (λ r y l u. Held-append-Apart q x y r (inr l)) p e xs h
        (omega arith)

  -- So does a byte above it.
  pub read_type-append :
      (e : ℕ)
      → q.head + size x ≤ e
      → read_type (append q (block_of x) x.bytes).mem e ≡ read_type q.mem e
  unfolding append write_block set_type set_len read_type
  read_type-append e h =
      blit-outside _ (q.head + 13) _ (e + 8) (omega (arith, length-take (size x - 13) x.bytes))
      ∙ blit-outside _ (q.head + 9) _ (e + 8) (omega arith)
      ∙ blit-outside _ (q.head + 8) _ (e + 8) (omega arith)
      ∙ blit-outside _ (q.head + 4) _ (e + 8) (omega arith)
      ∙ blit-outside _ q.head _ (e + 8) (omega arith)

  -- The new message lengthens the chain that ends at the head.
  pub Chain-append :
      (p : ℕ) (xs : List Message)
      → Fits x
      → Chain q.mem p q.head xs
      → Chain (append q (block_of x) x.bytes).mem p (q.head + size x) (xs ++ x ∷ [])
  Chain-append p xs f c =
      Chain-snoc _ p q.head (q.head + size x) xs x (Chain-append_below p q.head xs (omega arith) c)
        (Held-append q x f) f refl

-- Where the blocks of the upper part end: too near the end for a block's head, or at padding.
abbrev pub EndAt : MemQueue → ℕ → Type 0
EndAt q e = (q.len < e + blk_head_len) ⊎ (read_type q.mem e ≡ blk_align)

module _ (q : MemQueue) where
  pub Chain-pad :
      (p e : ℕ) (xs : List Message) → e ≤ q.head → Chain q.mem p e xs → Chain (pad q).mem p e xs
  unfolding pad set_type set_len
  Chain-pad p e xs h c = elim (Bool-cases (leb (q.head + 13) q.len)) [
    | inl fits ↦ rw (fits) (
        Chain-mono q.mem _ 0 q.head
          (λ r y l u k.
            Held-blit _ r y (q.head + 9) _ (inl (omega arith))
              (Held-blit q.mem r y (q.head + 8) _ (inl (omega arith)) k))
          p e xs (omega arith) h c)
    | inr short ↦ rw (short) c
  ]

  pub EndAt-pad : EndAt (pad q) q.head
  unfolding pad set_type set_len read_type
  EndAt-pad = elim (Bool-cases (leb (q.head + 13) q.len)) [
    | inl fits ↦ rw (fits) (
        inr (
          blit-outside _ (q.head + 9) _ (q.head + 8) (omega arith)
          ∙ blit-head q.mem (q.head + 8) blk_align []))
    | inr short ↦ rw (short) (inl (ground arith))
  ]

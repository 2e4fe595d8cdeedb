-- ===== src/Mem/Frame.antt =====
-- What a write leaves alone, and what a read after it finds.
use sserver.Prelude.{
  ℕ, zero, suc, ◌+◌, ◌-◌, ◌^◌, ◌≤◌, ◌<◌, ◌≡◌, refl, ap, ap₂, ◌∙◌, ◌⊎◌, List, [], ◌∷◌, ◌++◌, arith,
  length, drop,
}
use native.Mathlib.Nat.{zero-add, add-zero, suc-add}
use sserver.Mem.{Mem, blit, slice, le32, get32}

-- The `n` addresses from `q` and the `k` addresses from `p` have none in common.
abbrev pub Apart : ℕ → ℕ → ℕ → ℕ → Type 0
Apart q n p k = (q + n ≤ p) ⊎ (p + k ≤ q)

pub blit-outside :
    (m : Mem) (p : ℕ) (bs : List ℕ) (a : ℕ) → (a < p) ⊎ (p + length bs ≤ a) → blit m p bs a ≡ m a
unfolding blit
blit-outside m p [] a h = refl
blit-outside m p (b ∷ bs) a h = ground (arith, blit-outside m (p + 1) bs a)

pub slice-blit-Apart :
    (m : Mem) (p : ℕ) (bs : List ℕ) (q n : ℕ)
    → Apart q n p (length bs)
    → slice (blit m p bs) q n ≡ slice m q n
unfolding slice
slice-blit-Apart m p bs q zero h = refl
slice-blit-Apart m p bs q (suc n) h =
    ap₂ ◌∷◌ (blit-outside m p bs q (omega arith)) (slice-blit-Apart m p bs (q + 1) n (omega arith))

pub blit-head : (m : Mem) (p b : ℕ) (bs : List ℕ) → blit m p (b ∷ bs) p ≡ b
unfolding blit
blit-head m p b bs = ground arith

pub blit-tail :
    (m : Mem) (p b : ℕ) (bs : List ℕ) (a : ℕ) → p < a → blit m p (b ∷ bs) a ≡ blit m (p + 1) bs a
unfolding blit
blit-tail m p b bs a h = ground arith

pub slice-blit_tail :
    (m : Mem) (p b : ℕ) (bs : List ℕ) (q n : ℕ)
    → p < q
    → slice (blit m p (b ∷ bs)) q n ≡ slice (blit m (p + 1) bs) q n
unfolding slice
slice-blit_tail m p b bs q zero h = refl
slice-blit_tail m p b bs q (suc n) h =
    ap₂ ◌∷◌ (blit-tail m p b bs q h) (slice-blit_tail m p b bs (q + 1) n (omega arith))

pub slice-blit_self : (m : Mem) (p : ℕ) (bs : List ℕ) → slice (blit m p bs) p (length bs) ≡ bs
unfolding slice
slice-blit_self m p [] = refl
slice-blit_self m p (b ∷ bs) =
    ap₂ ◌∷◌ (blit-head m p b bs) (
      rw (slice-blit_tail m p b bs (p + 1) (length bs) (omega arith))
        (slice-blit_self m (p + 1) bs))

pub length-slice : (m : Mem) (p n : ℕ) → length (slice m p n) ≡ n
unfolding slice
length-slice m p zero = refl
length-slice m p (suc n) = ap suc (length-slice m (p + 1) n)

pub get32-blit-Apart :
    (m : Mem) (p : ℕ) (bs : List ℕ) (q : ℕ)
    → Apart q 4 p (length bs)
    → get32 (blit m p bs) q ≡ get32 m q
unfolding get32
get32-blit-Apart m p bs q h = omega (
  arith,
  blit-outside m p bs q (omega arith),
  blit-outside m p bs (q + 1) (omega arith),
  blit-outside m p bs (q + 2) (omega arith),
  blit-outside m p bs (q + 3) (omega arith),
)

pub get32-le32 : (m : Mem) (p n : ℕ) → n < 2 ^ 32 → get32 (blit m p (le32 n)) p ≡ n
unfolding get32 blit
get32-le32 m p n h = ground arith

pub slice-append :
    (m : Mem) (p n k q : ℕ) → q ≡ p + n → slice m p (n + k) ≡ slice m p n ++ slice m q k
unfolding slice
slice-append m p zero k q e = rw (e, zero-add, add-zero)
slice-append m p (suc n) k q e =
    rw (suc-add) (ap (λ l. m p ∷ l) (slice-append m (p + 1) n k q (omega arith)))

pub slice_ext :
    (m m' : Mem) (p n : ℕ) → ((a : ℕ) → p ≤ a → a < p + n → m a ≡ m' a) → slice m p n ≡ slice m' p n
unfolding slice
slice_ext m m' p zero h = refl
slice_ext m m' p (suc n) h =
    ap₂ ◌∷◌ (h p (omega arith) (omega arith))
      (slice_ext m m' (p + 1) n (λ a l u. h a (omega arith) (omega arith)))

pub drop-slice : (m : Mem) (p n k : ℕ) → k ≤ n → drop k (slice m p n) ≡ slice m (p + k) (n - k)
unfolding slice
drop-slice m p n zero h = ap₂ (slice m) (omega arith) (omega arith)
drop-slice m p zero (suc k) h = absurd (omega arith)
drop-slice m p (suc n) (suc k) h =
    drop-slice m (p + 1) n k (omega arith) ∙ ap₂ (slice m) (omega arith) (omega arith)

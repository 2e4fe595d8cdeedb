-- ===== src/Client/Echoes.antt =====
-- The packets of the client's loop, sent and read back.
use sserver.Prelude.{
  ℕ, zero, suc, ◌+◌, ◌*◌, ◌/◌, ◌%◌, ◌^◌, ◌≤◌, ◌<◌, ◌≡◌, refl, sym, ap, ap₂, subst, ◌∙◌, List, [],
  ◌∷◌, ◌++◌, append-nil, append_assoc, some, arith, length, length-append, drop, ◌==◌, if-both,
  take, take_all,
}
use sserver.Master.Stream.{joined}
use sserver.Sample.{ProtoPkg}
use sserver.Sample.Echo.{AllWhole}
use sserver.Client.{
  proto_pkg_len, pkg_bytes, make_pkg, Times, erase, insert, Cli, send_pkgs, read_pkgs,
}

-- an int of four bytes, read back
abbrev raw : ℕ → ℕ
raw n =
    n % 256 + 256 * (n / 256 % 256) + 65536 * (n / 65536 % 256) + 16777216 * (n / 16777216 % 256)

raw_lem : (n : ℕ) → n < 2 ^ 32 → raw n ≡ n
raw_lem n l = omega arith

length-pkg_bytes : (p : ProtoPkg) → length (pkg_bytes p) ≡ proto_pkg_len + length p.payload
unfolding pkg_bytes
length-pkg_bytes p = omega arith

drop-append : (xs ys : List ℕ) → drop (length xs) (xs ++ ys) ≡ ys
drop-append [] ys = refl
drop-append (x ∷ xs) ys = drop-append xs ys

-- One packet in front is read, its time is erased, and the others follow.
read_pkgs-cons :
    (behind : List ℕ) (fuel : ℕ) (p : ProtoPkg) (more : List ℕ) (ts : Times)
    → p.len ≡ length (pkg_bytes p)
    → p.len < 2 ^ 32
    → p.seq < 2 ^ 32
    → read_pkgs behind (suc fuel) (pkg_bytes p ++ more) ts
      ≡ read_pkgs behind fuel more (erase p.seq ts)
unfolding read_pkgs pkg_bytes
read_pkgs-cons behind fuel p more ts e l s =
    ap₂ (read_pkgs behind fuel)
      (ap (λ n. drop n (pkg_bytes p ++ more)) (raw_lem p.len l ∙ e)
        ∙ drop-append (pkg_bytes p) more)
      (ap (λ k. erase k ts) (raw_lem p.seq s))

-- Every key is above `lo` and at most `hi`.
abbrev pub Within : ℕ → ℕ → Times → Type 0
Within lo hi [] = Unit {0}
Within lo hi (t ∷ ts) = (lo < t.0) × (t.0 ≤ hi) × Within lo hi ts

Within-empty : (k : ℕ) (ts : Times) → Within k k ts → ts ≡ []
Within-empty k [] w = refl
Within-empty k (t ∷ ts) w = absurd (omega (arith, w.0, w.1))

Within-erase : (k lo hi : ℕ) (ts : Times) → Within lo hi ts → Within lo hi (erase k ts)
unfolding erase
Within-erase k lo hi [] w = tt
Within-erase k lo hi (t ∷ ts) w =
    if-both (Within lo hi) (t.0 == k) (λ e. Within-erase k lo hi ts w.2)
      (λ e. (w.0, w.1, Within-erase k lo hi ts w.2))

Within-erase_first :
    (lo hi : ℕ) (ts : Times) → Within lo hi ts → Within (lo + 1) hi (erase (lo + 1) ts)
unfolding erase
Within-erase_first lo hi [] w = tt
Within-erase_first lo hi (t ∷ ts) w =
    if-both (Within (lo + 1) hi) (t.0 == lo + 1) (λ e. Within-erase_first lo hi ts w.2)
      (λ e. (ground (arith, w.0, e), w.1, Within-erase_first lo hi ts w.2))

Within-more : (lo hi : ℕ) (ts : Times) → Within lo hi ts → Within lo (hi + 1) ts
Within-more lo hi [] w = tt
Within-more lo hi (t ∷ ts) w = (w.0, omega (arith, w.1), Within-more lo hi ts w.2)

-- The packets of `n` rounds of the client's loop.
abbrev pub pkgs : List ℕ → ℕ → ℕ → ℕ → List (List ℕ)
pkgs input zero i seq = []
pkgs input (suc n) i seq = pkg_bytes (make_pkg i (seq + 1) input) ∷ pkgs input n (i + 1) (seq + 1)

-- What the loop that sends leaves.
pub record SentPkgs (lo : ℕ) (input : List ℕ) (n i : ℕ) (c d : Cli) : Type 0 where
  pub sent : d.sent ≡ c.sent ++ pkgs input n i c.seq
  pub times : Within lo (c.seq + n) d.times

-- Each `send` takes its packet whole.
abbrev pub TakesWhole : (ℕ → ℕ) → List ℕ → ℕ → Type 0
TakesWhole taken input m = (j : ℕ) → j < m → length input + 19 ≤ taken j

-- what is put out for a packet that is taken whole
taken_whole :
    (k i seq : ℕ) (input : List ℕ)
    → length input + 19 ≤ k
    → take k (pkg_bytes (make_pkg i seq input)) ≡ pkg_bytes (make_pkg i seq input)
unfolding make_pkg
taken_whole k i seq input l =
    take_all k (pkg_bytes (make_pkg i seq input))
      (omega (arith, length-pkg_bytes (make_pkg i seq input), length-append input (0 ∷ [])))

SentPkgs-next :
    (lo : ℕ) (input : List ℕ) (n i : ℕ) (c d : Cli) (bs : List ℕ) (ts : Times)
    → bs ≡ pkg_bytes (make_pkg i (c.seq + 1) input)
    → SentPkgs lo input n
        (i + 1)
        (record { seq = c.seq + 1; times = ts; sent = c.sent ++ bs ∷ [] })
        d
    → SentPkgs lo input (suc n) i c d
SentPkgs-next lo input n i c d bs ts e h = record {
  sent =
      h.sent ∙ append_assoc c.sent _ _ ∙ ap (λ b. c.sent ++ b ∷ pkgs input n (i + 1) (c.seq + 1)) e;
  times = subst (λ k. Within lo k d.times) (omega arith) h.times;
}

pub send_pkgs-SentPkgs :
    (clock taken : ℕ → ℕ) (input : List ℕ) (m n i lo : ℕ) (c : Cli)
    → TakesWhole taken input m
    → i + n ≤ m
    → lo ≤ c.seq
    → Within lo c.seq c.times
    → SentPkgs lo input n i c (send_pkgs clock taken input n i c)
unfolding send_pkgs insert
send_pkgs-SentPkgs clock taken input m zero i lo c t b l w = record {
  sent = sym (append-nil c.sent);
  times = subst (λ k. Within lo k c.times) (omega arith) w;
}
send_pkgs-SentPkgs clock taken input m (suc n) i lo c t b l w =
    SentPkgs-next lo input n i c _ (take (taken i) (pkg_bytes (make_pkg i (c.seq + 1) input))) _
      (taken_whole (taken i) i (c.seq + 1) input (t i (omega (arith, b))))
      (send_pkgs-SentPkgs clock taken input m n (i + 1) lo
        (record {
          seq = c.seq + 1;
          times = (c.seq + 1, clock i) ∷ erase (c.seq + 1) c.times;
          sent = c.sent ++ take (taken i) (pkg_bytes (make_pkg i (c.seq + 1) input)) ∷ [];
        })
        t (omega (arith, b)) (omega arith)
        (
          omega arith,
          omega arith,
          Within-erase (c.seq + 1) lo (c.seq + 1) c.times (Within-more lo c.seq c.times w),
        ))

-- All the packets, read back, take every time away.
pub read_pkgs-pkgs :
    (behind : List ℕ) (input : List ℕ) (n i seq fuel : ℕ) (ts : Times)
    → length input + 19 < 2 ^ 31
    → seq + n < 2 ^ 31
    → n ≤ fuel
    → Within seq (seq + n) ts
    → read_pkgs behind fuel (joined (pkgs input n i seq)) ts ≡ some []
unfolding make_pkg read_pkgs
read_pkgs-pkgs behind input zero i seq fuel ts a b l w =
    ap some (Within-empty seq ts (subst (λ k. Within seq k ts) (omega arith) w))
read_pkgs-pkgs behind input (suc n) i seq zero ts a b l w = absurd (omega arith)
read_pkgs-pkgs behind input (suc n) i seq (suc fuel) ts a b l w =
    read_pkgs-cons behind fuel (make_pkg i (seq + 1) input)
      (joined (pkgs input n (i + 1) (seq + 1))) ts
      (omega (arith, length-pkg_bytes (make_pkg i (seq + 1) input), length-append input (0 ∷ [])))
      (omega arith) (omega arith)
    ∙ read_pkgs-pkgs behind input n (i + 1) (seq + 1) fuel (erase (seq + 1) ts) a (omega arith)
        (omega arith)
        (Within-erase_first seq (seq + 1 + n) ts (subst (λ k. Within seq k ts) (omega arith) w))

-- Each packet is whole as the sample library takes it.
pub pkgs-AllWhole :
    (input : List ℕ) (n i seq : ℕ) → length input + 19 ≤ 65536 → AllWhole (pkgs input n i seq)
unfolding make_pkg pkg_bytes
pkgs-AllWhole input zero i seq l = tt
pkgs-AllWhole input (suc n) i seq l = (
  record {
    len =
        raw_lem (proto_pkg_len + length input + 1) (omega arith)
        ∙ omega (arith, length-pkg_bytes p, length-append input (0 ∷ []));
    room = omega (arith, length-pkg_bytes p, length-append input (0 ∷ []));
  },
  pkgs-AllWhole input n (i + 1) (seq + 1) l,
)
  where
    p : ProtoPkg
    p = make_pkg i (seq + 1) input

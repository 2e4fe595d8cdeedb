-- ===== src/McastPub/Same.antt =====
-- The copies against mcast.c.
use sserver.Prelude.{
  ℕ, ◌+◌, ◌≡◌, refl, ◌⊎◌, inl, inr, Bool-cases, List, Option, none, some, ltb, ◌==◌, ◌&&◌, length,
  ℤ, pos, negsuc,
}
use sserver.Mcast.{Udp, SentPkg, mcast_pkg_len}
use sserver.McastPub

Option-cases : (o : Option ℕ) → (o ≡ none) ⊎ ((x : ℕ) × (o ≡ some x))
Option-cases none = inl refl
Option-cases (some x) = inr (x, refl)

ℤ-cases : (z : ℤ) → ((n : ℕ) × (z ≡ pos n)) ⊎ ((n : ℕ) × (z ≡ negsuc n))
ℤ-cases (pos n) = inl (n, refl)
ℤ-cases (negsuc n) = inr (n, refl)

-- What the copy gives, the call of mcast.c gives too; where the copy prints through NULL, that call
-- returns -1, or writes behind the array.
pub data Copies : Option SentPkg → Option SentPkg → Type 0 where
  same : {r : SentPkg} → Copies (some r) (some r)
  refused : {r : SentPkg} → r.ret ≡ negsuc 0 → Copies none (some r)
  over : Copies none none

-- For any answers of the system and any packet, `send_pkg_to_mcast` of mcast_pub.c gives what that of
-- mcast.c gives; or prints through NULL where that of mcast.c returns -1; or both write behind their
-- array.
pub send_pkg_to_mcast_lem :
    (u : Udp) (mcast_type : ℕ) (bytes : List ℕ)
    → Copies
        (McastPub.send_pkg_to_mcast u mcast_type bytes)
        (sserver.Mcast.send_pkg_to_mcast u mcast_type bytes)
unfolding McastPub.send_pkg_to_mcast sserver.Mcast.send_pkg_to_mcast
send_pkg_to_mcast_lem u mcast_type bytes = elim (Option-cases u.sockfd) [
  | inl e ↦ rw (e) (Copies.refused refl)
  | inr (fd, e) ↦ rw (e) (elim (Bool-cases (u.ttl_ok && u.loop_ok && u.if_ok)) [
    | inr bad ↦ rw (bad) (Copies.refused refl)
    | inl good ↦ rw (good) (elim (Bool-cases (ltb 1024 n)) [
      | inl long ↦ rw (long) Copies.over
      | inr fits ↦ rw (fits) (elim (ℤ-cases (u.sendto n)) [
        | inl (k, a) ↦ rw (a) (elim (Bool-cases (k == n)) [
          | inl all ↦ rw (all) Copies.same
          | inr part ↦ rw (part) (Copies.refused refl)
        ])
        | inr (k, a) ↦ rw (a) (Copies.refused refl)
      ])
    ])
  ])
]
  where
    n : ℕ
    n = length bytes + mcast_pkg_len

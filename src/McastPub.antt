-- ===== src/McastPub.antt =====
-- test_mcast/mcast_pub.c: the test programs' copies of mcast.c's calls. On a failure they print to
-- the stream 0, which is NULL, where mcast.c logs.
pub mod Same
use sserver.Prelude.{
  ℕ, ◌+◌, ◌≡◌, refl, true, false, Bool, ◌&&◌, List, [], ◌∷◌, Option, none, some, ltb, ◌==◌,
  if◌then◌else◌, length, arith, if-both, some_inj, ℤ, pos, negsuc,
}
use sserver.Mcast.{Udp, SentPkg, mcast_pkg_len, mcast_pkg}

-- `mcast_cli_init`: its value and the descriptors that it left open. `none` is the print through NULL.
unfoldable pub mcast_cli_init : Udp → Option (ℤ × List ℕ)
mcast_cli_init u = elim u.sockfd [
  | none ↦ none
  | some fd ↦
      if u.reuse_ok && u.bind_ok && u.ttl_ok && u.loop_ok && u.join_ok
      then some (pos fd, fd ∷ [])
      else none
]

-- `send_pkg_to_mcast`. `none` is the print through NULL, or a write behind `buff[1024]`.
unfoldable pub send_pkg_to_mcast : Udp → ℕ → List ℕ → Option SentPkg
unfolding mcast_pkg
send_pkg_to_mcast u mcast_type bytes = elim u.sockfd [
  | none ↦ none
  | some fd ↦
      let n = length bytes + mcast_pkg_len in
      if u.ttl_ok && u.loop_ok && u.if_ok
      then (if ltb 1024 n then none else elim (u.sendto n) [
        | negsuc k ↦ none
        | pos k ↦
            if k == n
            then some (record {
              ret = pos 0;
              datagrams = mcast_pkg mcast_type bytes ∷ [];
              left_open = [];
            })
            else none
      ])
      else none
]

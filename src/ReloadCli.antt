-- ===== src/ReloadCli.antt =====
-- test_mcast/reloadso_cli.c: the client that orders a service to load its library again.
pub mod Order
use sserver.Prelude.{
  ℕ, ◌+◌, List, [], ◌∷◌, ◌++◌, Option, none, some, Bool, if◌then◌else◌, ℤ, pos, negsuc,
}
use sserver.Mem.{Mem, blit, slice, le32}
use sserver.Text.{Text, codes}
use sserver.Mcast.{le16, mcast_reload_so}

-- sizeof(mcast_pkg_t) + sizeof(reload_so_t)
abbrev pub reload_len : ℕ
reload_len = 167

-- The packet as `main` writes it into its array, whose first content is `m`: behind the strings of
-- `servname` and `soname` stands what stood there.
unfoldable pub write_order : Mem → ℕ → Text → Text → Mem
write_order m id servname soname =
    blit
      (blit (blit (blit (blit m 0 (le32 reload_len)) 4 (mcast_reload_so ∷ [])) 5 (le16 id)) 7
        (servname ++ 0 ∷ []))
      39 (soname ++ 0 ∷ [])

-- the datagram
unfoldable pub order : Mem → ℕ → Text → Text → List ℕ
unfolding write_order
order m id servname soname = slice (write_order m id servname soname) 0 reload_len

-- How the system calls of `main` answer.
pub record Calls : Type 0 where
  pub sockfd : Option ℕ
  pub if_ok : Bool
  pub sendto : ℕ → ℤ

-- What `main` leaves: its value, what it sent, and the descriptors that it did not close.
pub record Sending : Type 0 where
  pub ret : ℕ
  pub datagrams : List (List ℕ)
  pub left_open : List ℕ

-- `main`: a datagram that is cut short counts as sent.
unfoldable pub main : Calls → Mem → Sending
unfolding order
main c m = elim c.sockfd [
  | none ↦ record { ret = 1; datagrams = []; left_open = [] }
  | some fd ↦
      if c.if_ok
      then (elim (c.sendto reload_len) [
        | negsuc n ↦ record { ret = 1; datagrams = []; left_open = fd ∷ [] }
        | pos n ↦ record {
          ret = 0;
          datagrams =
              order m 1 (codes "online") (codes "/home/houbin/work/sserver/test_sserv/test_serv.so")
              ∷ [];
          left_open = [];
        }
      ])
      else record { ret = 1; datagrams = []; left_open = fd ∷ [] }
]

-- ===== src/Mcast.antt =====
-- mcast.h, mcast.c and work.c's `do_proc_mcast`, `do_syn_serv_addr`: the notices by which the
-- workers of all services learn each other's addresses, and the order to load a new library.
pub mod Cache
pub mod Notice
use sserver.Prelude.{
  ℕ, zero, suc, ◌+◌, ◌-◌, ◌*◌, ◌/◌, ◌%◌, Bool, ◌&&◌, ◌||◌, List, [], ◌∷◌, ◌++◌, Option, none, some,
  ltb, leb, ◌==◌, if◌then◌else◌, length, take, ℤ, pos, negsuc, ◌>>=◌,
}
use sserver.Mem.{Mem, blit, slice, le32, get32}
use sserver.Socket.{minus_one}
use sserver.Server.{ServIf, Server, update}
use sserver.Text.{Text, text_eq}
use sserver.Outer.{Slot, SharedObj, reg_so, unreg_so}

-- `enum MCAST_CMD`
abbrev pub mcast_serv_noti : ℕ
mcast_serv_noti = 1

abbrev pub mcast_reload_so : ℕ
mcast_reload_so = 2

-- sizeof(mcast_pkg_t): `len` and `mcast_type`, packed
abbrev pub mcast_pkg_len : ℕ
mcast_pkg_len = 5

-- MCAST_MSG_LEN
abbrev pub mcast_msg_len : ℕ
mcast_msg_len = 4096

-- two bytes, little-endian
abbrev pub le16 : ℕ → List ℕ
le16 n = n % 256 ∷ n / 256 % 256 ∷ []

abbrev pub get16 : Mem → ℕ → ℕ
get16 m p = m p + 256 * m (p + 1)

-- the C string at an address, of at most `n` characters
unfoldable pub c_string : ℕ → Mem → ℕ → Text
c_string zero m p = []
c_string (suc n) m p = let rest = c_string n m (p + 1) in if m p == 0 then [] else m p ∷ rest

-- `addrcach_t`
pub record AddrCach : Type 0 where
  pub serv_id : ℕ
  pub ip : ℕ
  pub port : ℕ
  pub last_syn : ℕ

-- `servcach_t`
pub record ServCach : Type 0 where
  pub serv_name : Text
  pub addrs : ℕ → Option AddrCach

-- `g_servs`
abbrev pub Servs : Type 0
Servs = Text → Option ServCach

-- `init_mcast_servs`
unfoldable pub init_mcast_servs : Servs
init_mcast_servs name = none

unfoldable pub set_serv : Servs → Text → ServCach → Servs
set_serv t name serv j = if text_eq j name then some serv else t j

-- Whether `g_slice_alloc` gives memory for a service and for an address.
pub record Alloc : Type 0 where
  pub serv_ok : Bool
  pub addr_ok : Bool

-- `add_serv_to_cach` at the time `now`. `none` is a write of strcpy behind `serv_name[16]`.
unfoldable pub add_serv_to_cach : ℕ → Alloc → Servs → Text → ℕ → ℕ → ℕ → Option Servs
unfolding set_serv
add_serv_to_cach now alloc t name id ip port =
    let addr : AddrCach = record { serv_id = id; ip = ip; port = port; last_syn = now } in
    elim (t name) [
      | none ↦
          if alloc.serv_ok
          then (if leb 16 (length name)
              then none
              else if alloc.addr_ok
              then some (
                  set_serv t name
                    (record { serv_name = name; addrs = update (λ j. none) id (some addr) }))
              else some t)
          else some t
      | some serv ↦
          let changed : ServCach = record serv { addrs = update serv.addrs id (some addr) } in
          elim (serv.addrs id) [
            | some old ↦ some (set_serv t name changed)
            | none ↦ if alloc.addr_ok then some (set_serv t name changed) else some t
          ]
    ]

-- what a worker's handling of these packets works on; `buf` is the array of `do_proc_mcast`, which
-- outlives its calls
pub record Group : Type 0 where
  pub server : Server
  pub servs : Servs
  pub so : SharedObj
  pub buf : Mem

-- What the packets meet in a worker: the library behind a function pointer, dlopen, dlsym and
-- access, the clock, the name of the service and the worker's id.
pub record Around : Type 0 where
  pub code : ℕ → ServIf
  pub dlopen : Text → Option ℕ
  pub dlsym : ℕ → Slot → Option ℕ
  pub readable : Text → Bool
  pub now : ℕ
  pub alloc : Alloc
  pub srv_name : Text
  pub work_id : ℕ

module _ (e : Around) where
  -- `do_mcast_serv_noti`: `serv_noti_t` stands behind the packet's head.
  unfoldable pub do_mcast_serv_noti : Group → Option Group
  do_mcast_serv_noti g = do
    t ←
        add_serv_to_cach e.now e.alloc g.servs (c_string (mcast_msg_len - 13) g.buf 13)
          (get16 g.buf 11) (get32 g.buf 5) (get16 g.buf 9)
    some (record g { servs = t })

  -- The part of `do_mcast_realod_so` for an order to this worker and a file that can be read.
  unfoldable pub reload : Group → Text → ℤ × Group
  reload g soname =
      let (ret, so) = reg_so e.dlopen e.dlsym (unreg_so g.so) soname in
      elim ret [
        | pos zero ↦ elim (so.slot Slot.reload_logic) [
          | none ↦ (pos 0, record g { so = so })
          | some f ↦ (pos 0, record g { so = so; server = (e.code f).reload_logic g.server })
        ]
        | pos (suc n) ↦ (minus_one, record g { so = so })
        | negsuc n ↦ (minus_one, record g { so = so })
      ]

  -- `do_mcast_realod_so`: `reload_so_t` stands behind the packet's head.
  unfoldable pub do_mcast_realod_so : Group → ℤ × Group
  unfolding reload
  do_mcast_realod_so g =
      let id = get16 g.buf 5 in
      let soname = c_string (mcast_msg_len - 39) g.buf 39 in
      if text_eq e.srv_name (c_string (mcast_msg_len - 7) g.buf 7)
        && (id == 0 || id == e.work_id)
        && e.readable soname
      then reload g soname
      else (pos 0, g)

  -- `do_mcast_other_req`
  unfoldable pub do_mcast_other_req : Group → Group
  do_mcast_other_req g = elim (g.so.slot Slot.proc_mcast_msg) [
    | none ↦ g
    | some f ↦ record g {
      server = (e.code f).proc_mcast_msg (slice g.buf 0 mcast_msg_len) g.server;
    }
  ]

  -- The `switch` of `do_proc_mcast` on the packet in the buffer.
  unfoldable pub proc_packet : Group → Option Group
  unfolding do_mcast_serv_noti do_mcast_realod_so do_mcast_other_req
  proc_packet g =
      if g.buf 4 == mcast_serv_noti
      then do_mcast_serv_noti g
      else if g.buf 4 == mcast_reload_so
      then some (do_mcast_realod_so g).1
      else some (do_mcast_other_req g)

  -- `do_proc_mcast`, over the datagrams that have arrived: an empty one ends it, and one that is
  -- shorter than a packet's head is only logged and handled like the others.
  unfoldable pub do_proc_mcast : List (List ℕ) → Group → Option Group
  unfolding proc_packet
  do_proc_mcast [] g = some g
  do_proc_mcast ([] ∷ ps) g = some g
  do_proc_mcast ((b ∷ bs) ∷ ps) g = do
    t ← proc_packet (record g { buf = blit g.buf 0 (take mcast_msg_len (b ∷ bs)) })
    do_proc_mcast ps t

-- How the system calls of `send_pkg_to_mcast` and `mcast_cli_init` answer: whether each succeeds,
-- the descriptor of the socket, and what sendto gives for a number of bytes.
pub record Udp : Type 0 where
  pub sockfd : Option ℕ
  pub reuse_ok : Bool
  pub bind_ok : Bool
  pub ttl_ok : Bool
  pub loop_ok : Bool
  pub if_ok : Bool
  pub join_ok : Bool
  pub sendto : ℕ → ℤ

-- a packet: `mcast_pkg_t` and its data
unfoldable pub mcast_pkg : ℕ → List ℕ → List ℕ
mcast_pkg mcast_type bytes = le32 (length bytes + mcast_pkg_len) ++ (mcast_type % 256 ∷ bytes)

-- What a call leaves: its value, the datagrams it sent, and the descriptors it left open.
pub record SentPkg : Type 0 where
  pub ret : ℤ
  pub datagrams : List (List ℕ)
  pub left_open : List ℕ

-- `send_pkg_to_mcast`. Only the end of the whole function closes the socket. `none` is a write
-- behind `buff[1024]`.
unfoldable pub send_pkg_to_mcast : Udp → ℕ → List ℕ → Option SentPkg
unfolding mcast_pkg
send_pkg_to_mcast u mcast_type bytes = elim u.sockfd [
  | none ↦ some (record { ret = minus_one; datagrams = []; left_open = [] })
  | some fd ↦
      let failed : SentPkg = record { ret = minus_one; datagrams = []; left_open = fd ∷ [] } in
      let n = length bytes + mcast_pkg_len in
      if u.ttl_ok && u.loop_ok && u.if_ok
      then (if ltb 1024 n then none else elim (u.sendto n) [
        | negsuc k ↦ some failed
        | pos k ↦
            if k == n
            then some (record {
              ret = pos 0;
              datagrams = mcast_pkg mcast_type bytes ∷ [];
              left_open = [];
            })
            else some failed
      ])
      else some failed
]

-- `mcast_cli_init`: its value, and the descriptors it left open
unfoldable pub mcast_cli_init : Udp → ℤ × List ℕ
mcast_cli_init u = elim u.sockfd [
  | none ↦ (minus_one, [])
  | some fd ↦
      if u.reuse_ok && u.bind_ok && u.ttl_ok && u.loop_ok && u.join_ok
      then (pos fd, fd ∷ [])
      else (minus_one, fd ∷ [])
]

abbrev pub zeros : ℕ → List ℕ
zeros zero = []
zeros (suc n) = 0 ∷ zeros n

-- `serv_noti_t` as bytes; the name is the array of 32 characters of the settings
unfoldable pub serv_noti : ℕ → ℕ → ℕ → Text → List ℕ
serv_noti ip port id name = le32 ip ++ le16 port ++ le16 id ++ take 32 (name ++ zeros 32)

-- The packet of `do_syn_serv_addr`, for the worker's address, port and id (`get_serv_ip`,
-- `get_serv_port` and `get_serv_id`).
unfoldable pub do_syn_serv_addr : Udp → ℕ → ℕ → ℕ → Text → Option SentPkg
unfolding send_pkg_to_mcast serv_noti
do_syn_serv_addr u ip port id name = send_pkg_to_mcast u mcast_serv_noti (serv_noti ip port id name)

-- ===== src/Client.antt =====
-- epoll_cli.cpp: the client that sends packets to the sample library and reads them back. `behind`
-- is what stands in the receive buffer behind the received bytes.
pub mod Echoes
pub mod Round
use sserver.Prelude.{
  ℕ, zero, suc, ◌+◌, ◌-◌, ◌*◌, ◌%◌, Bool, true, false, List, [], ◌∷◌, ◌++◌, Option, none, some, ltb,
  leb, ◌==◌, if◌then◌else◌, length, drop, take, ℤ, pos, negsuc, ◌>>=◌,
}
use sserver.Mem.{Mem, slice, le32}
use sserver.Socket.{Recv, Received, safe_tcp_recv_n}
use sserver.NetUtil.{blank}
use sserver.Mcast.{le16}
use sserver.Sample.{ProtoPkg, proto_pkg}

-- sizeof(proto_pkg_t)
abbrev pub proto_pkg_len : ℕ
proto_pkg_len = 18

-- `gen_str`, with what rand gives
unfoldable pub gen_str : (ℕ → ℕ) → ℕ → List ℕ
gen_str rand zero = []
gen_str rand (suc n) = (97 + rand 0 % 26) ∷ gen_str (λ i. rand (suc i)) n

-- a packet in memory
unfoldable pub pkg_bytes : ProtoPkg → List ℕ
pkg_bytes p = le32 p.len ++ le16 p.cmd ++ le32 p.id ++ le32 p.seq ++ le32 p.ret ++ p.payload

-- the packet that the client builds for a text, which a zero ends
unfoldable pub make_pkg : ℕ → ℕ → List ℕ → ProtoPkg
make_pkg i seq input = record {
  len = proto_pkg_len + length input + 1;
  cmd = i + 1;
  id = i;
  seq = seq;
  ret = i + 2;
  payload = input ++ 0 ∷ [];
}

-- `seq_time_map`: its keys with their times
abbrev pub Times : Type 0
Times = List (ℕ × ℕ)

unfoldable pub erase : ℕ → Times → Times
erase k [] = []
erase k (t ∷ ts) = let rest = erase k ts in if t.0 == k then rest else t ∷ rest

unfoldable pub insert : ℕ → ℕ → Times → Times
unfolding erase
insert k v ts = (k, v) ∷ erase k ts

-- The globals `seq` and `seq_time_map`, and what every `send` took.
pub record Cli : Type 0 where
  pub seq : ℕ
  pub times : Times
  pub sent : List (List ℕ)

-- The loop of `main` that sends packets of a text: `n` of them from `i` on, at the times that the
-- clock gives. The socket does not block, so the i-th `send` takes at most `taken i` bytes (0 where
-- it fails), and nobody looks at what it returns.
unfoldable pub send_pkgs : (ℕ → ℕ) → (ℕ → ℕ) → List ℕ → ℕ → ℕ → Cli → Cli
unfolding make_pkg pkg_bytes insert
send_pkgs clock taken input zero i c = c
send_pkgs clock taken input (suc n) i c = send_pkgs clock taken input n (i + 1) (record {
  seq = c.seq + 1;
  times = insert (c.seq + 1) (clock i) c.times;
  sent = c.sent ++ take (taken i) (pkg_bytes (make_pkg i (c.seq + 1) input)) ∷ [];
})

-- The loop of `epoll_cli` over the received bytes, with fuel: a length of 0 repeats it for ever.
-- (The time that it reads for a missing key is erased again. A negative length, which would move it
-- before the buffer, counts as one above.)
unfoldable pub read_pkgs : List ℕ → ℕ → List ℕ → Times → Option Times
unfolding proto_pkg erase
read_pkgs behind fuel [] ts = some ts
read_pkgs behind zero (b ∷ bs) ts = none
read_pkgs behind (suc fuel) (b ∷ bs) ts =
    let msg = proto_pkg (b ∷ bs ++ behind) in
    read_pkgs behind fuel (drop msg.len (b ∷ bs)) (erase msg.seq ts)

-- How an event ends: the client goes on, or `main` returns.
pub data Read : Type 0 where
  on : Times → Read
  quit : Read

-- What the client makes of the result of its receive.
unfoldable pub cli_read : List ℕ → ℕ → Times → Mem → ℤ → Option Read
unfolding read_pkgs
cli_read behind fuel ts m (negsuc n) = some Read.quit
cli_read behind fuel ts m (pos zero) = some Read.quit
cli_read behind fuel ts m (pos (suc n)) = do
  t ← read_pkgs behind fuel (slice m 0 (suc n)) ts
  some (Read.on t)

-- An event of `epoll_cli`, of this many bytes at most.
unfoldable pub cli_event : List ℕ → ℕ → List Recv → Times → Option Read
unfolding cli_read
cli_event behind fuel script ts = do
  r ← safe_tcp_recv_n script blank 0 102400
  cli_read behind fuel ts r.mem r.ret

-- The loop of `epoll_cli` over the events of epoll_wait, each with the answers of its recv.
unfoldable pub cli_events : List ℕ → ℕ → List (List Recv) → Times → Option Read
unfolding cli_event
cli_events behind fuel [] ts = some (Read.on ts)
cli_events behind fuel (script ∷ more) ts = do
  r ← cli_event behind fuel script ts
  elim r [ on t ↦ cli_events behind fuel more t | quit ↦ some Read.quit ]

-- how a round ends
pub data Turn : Type 0 where
  turn : Cli → Turn
  ended : Turn

unfoldable pub is_empty : Times → Bool
is_empty [] = true
is_empty (t ∷ ts) = false

-- A round of `main` from `recv_again`: it sends packets of a new text, `n` of them, when no time
-- waits. None where the text and its zero do not fit in `input`.
unfoldable pub cli_turn :
    ℕ → (ℕ → ℕ) → (ℕ → ℕ) → List ℕ → List ℕ → ℕ → List (List Recv) → Cli → Option Turn
unfolding cli_events is_empty send_pkgs
cli_turn n clock taken input behind fuel events c = do
  r ← cli_events behind fuel events c.times
  elim r [
    | quit ↦ some Turn.ended
    | on t ↦
        let d = record c { times = t } in
        if is_empty t
        then if leb 200 (length input)
          then none
          else some (Turn.turn (send_pkgs clock taken input n 0 d))
        else some (Turn.turn d)
  ]

-- `main` sends 200 in a round.
unfoldable pub cli_round :
    (ℕ → ℕ) → (ℕ → ℕ) → List ℕ → List ℕ → ℕ → List (List Recv) → Cli → Option Turn
unfolding cli_turn
cli_round = cli_turn 200

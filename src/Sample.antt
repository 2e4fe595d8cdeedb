-- ===== src/Sample.antt =====
-- test_sserv: the sample business library, which sends each message back to its client
-- (test_serv.cpp), with the answers of a switch server (switch.h, switch.cpp).
pub mod Answer
pub mod Echo
use sserver.Prelude.{
  ℕ, ◌+◌, ◌*◌, Bool, true, false, List, [], ◌∷◌, ◌++◌, Option, none, some, ltb, ◌==◌, ◌||◌,
  if◌then◌else◌, length, take, drop, ℤ, pos, negsuc,
}
use sserver.Socket.{minus_one}
use sserver.Server.{FdSess, ServIf, Server}
use sserver.Epoll.{Ret}
use sserver.NetUtil.{send_to_cli}
use sserver.Fds.{get_fd}
use sserver.Work.Opening.{nth}

-- `proto_pkg_t`, packed, with its `data` as `payload`
pub record ProtoPkg : Type 0 where
  pub len : ℕ
  pub cmd : ℕ
  pub id : ℕ
  pub seq : ℕ
  pub ret : ℕ
  pub payload : List ℕ

-- the int at a place of some bytes
abbrev pub int_at : ℕ → List ℕ → ℕ
int_at k bs = nth k bs + 256 * nth (k + 1) bs + 65536 * nth (k + 2) bs + 16777216 * nth (k + 3) bs

-- `reinterpret_cast<proto_pkg_t *>(msg)`
unfoldable pub proto_pkg : List ℕ → ProtoPkg
proto_pkg bs = record {
  len = int_at 0 bs;
  cmd = nth 4 bs + 256 * nth 5 bs;
  id = int_at 6 bs;
  seq = int_at 10 bs;
  ret = int_at 14 bs;
  payload = drop 18 bs;
}

-- `get_msg_len`: the first int, whatever number of bytes there is; `behind` stands behind them in
-- the buffer.
unfoldable pub get_msg_len : List ℕ → ℕ → List ℕ → ℕ
get_msg_len behind fd bs = int_at 0 (bs ++ behind)

-- memcpy of `len` bytes of a message into an array of this many bytes. `none` is a copy over the
-- end of one of them.
unfoldable pub copy_pkg : ℕ → List ℕ → Option (List ℕ)
unfolding proto_pkg
copy_pkg room bs =
    let len = (proto_pkg bs).len in
    if ltb room len || ltb (length bs) len then none else some (take len bs)

abbrev pub is_refusal : ℤ → Bool
is_refusal (pos n) = if n == 0 then false else true
is_refusal (negsuc n) = true

-- The part of `proc_cli_msg` behind the copy.
unfoldable pub answer : Server → FdSess → Option (List ℕ) → Option (Bool × Server)
unfolding send_to_cli
answer s sess none = none
answer s sess (some cli) = let (ret, t) = send_to_cli s sess cli in some (is_refusal ret, t)

-- `proc_cli_msg`: whether it returns something other than 0
unfoldable pub proc_cli_msg : List ℕ → FdSess → Server → Option (Bool × Server)
unfolding copy_pkg answer
proc_cli_msg bs sess s = answer s sess (copy_pkg 65536 bs)

-- `handle_switch`. `none` is also a session that there is not, read through NULL.
unfoldable pub handle_switch : List ℕ → Server → Option Ret
unfolding proto_pkg copy_pkg send_to_cli get_fd
handle_switch bs s = elim (copy_pkg 4096 bs) [
  | none ↦ none
  | some cli ↦ elim (get_fd s (proto_pkg bs).seq) [
    | none ↦ none
    | some sess ↦ some (send_to_cli s sess cli)
  ]
]

-- `fd == switch_fd`
abbrev pub is_switch : ℤ → ℕ → Bool
is_switch (pos n) fd = fd == n
is_switch (negsuc n) fd = false

-- `proc_serv_msg`, with the global `switch_fd`
unfoldable pub proc_serv_msg : ℤ → ℕ → List ℕ → Server → Option Server
unfolding handle_switch
proc_serv_msg switch_fd fd bs s =
    if is_switch switch_fd fd
    then (elim (handle_switch bs s) [ none ↦ none | some r ↦ some r.1 ])
    else some s

-- `on_serv_closed`: the global behind it
unfoldable pub on_serv_closed : ℤ → ℕ → ℤ
on_serv_closed switch_fd fd = if is_switch switch_fd fd then minus_one else switch_fd

abbrev pub or_same {ℓ} : {A : Type ℓ} → A → Option A → A
or_same a none = a
or_same a (some b) = b

-- The library's functions as the server calls them. `switch_fd` is -1 from the start, and the lines
-- that would set it are comments. A copy over the end of an array is left out here.
unfoldable pub sample : List ℕ → ServIf
unfolding get_msg_len proc_cli_msg proc_serv_msg
sample behind = record {
  get_msg_len = get_msg_len behind;
  proc_cli_msg = λ bs sess s. or_same (false, s) (proc_cli_msg bs sess s);
  proc_serv_msg = λ fd bs s. or_same s (proc_serv_msg minus_one fd bs s);
  on_cli_closed = λ fd s. s;
  on_serv_closed = λ fd s. s;
  handle_timer = λ s. s;
  proc_mcast_msg = λ bs s. s;
  reload_logic = λ s. s;
}

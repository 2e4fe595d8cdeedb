-- ===== src/Connect/Open.antt =====
-- Which descriptors `safe_socket_listen` and `safe_tcp_connect` leave open.
use sserver.Prelude.{
  ℕ, ◌*◌, ◌<◌, ◌≤◌, ◌≡◌, refl, Bool, true, false, [], ◌∷◌, List, Option, none, some, pos, lt→ltb,
  le→leb, if◌then◌else◌,
}
use sserver.Socket.{minus_one}
use sserver.Connect.{
  Setup, SockType, Made, failed, given_up, ready, listen_calls, safe_socket_listen,
  safe_tcp_connect,
}

-- The descriptor that is returned is the only one left open, or none is.
pub data Balanced : Made → Type 0 where
  kept : {fd : ℕ} → Balanced (record { ret = pos fd; opened = fd ∷ []; closed = [] })
  closed : {fds : List ℕ} → Balanced (record { ret = minus_one; opened = fds; closed = fds })

attempt-Balanced : (b : Bool) (fd : ℕ) → Balanced (if b then ready fd else given_up fd)
attempt-Balanced true fd = Balanced.kept
attempt-Balanced false fd = Balanced.closed

socket-Balanced :
    (o : Option ℕ) (b : Bool)
    → Balanced (elim o [ none ↦ failed | some fd ↦ if b then ready fd else given_up fd ])
socket-Balanced none b = Balanced.closed
socket-Balanced (some fd) b = attempt-Balanced b fd

-- `safe_socket_listen` of arguments within its bounds returns the listening socket as the only
-- descriptor that it leaves open, or -1 with every descriptor closed again, whichever of its
-- system calls fails.
pub safe_socket_listen_lem :
    (u : Setup) (type : SockType) (backlog bufsize : ℕ)
    → 0 < backlog
    → 0 < bufsize
    → bufsize ≤ 10 * 1024 * 1024
    → (r : Made) × (safe_socket_listen u type backlog bufsize ≡ some r) × Balanced r
unfolding safe_socket_listen
safe_socket_listen_lem u type backlog bufsize b c d = (
  _,
  rw (lt→ltb 0 backlog b, lt→ltb 0 bufsize c, le→leb bufsize (10 * 1024 * 1024) d) refl,
  socket-Balanced u.socket (listen_calls u type),
)

guarded-Balanced : (b : Bool) (r : Made) → Balanced r → Balanced (if b then r else failed)
guarded-Balanced true r h = h
guarded-Balanced false r h = Balanced.closed

-- `safe_tcp_connect` returns the connected socket as the only descriptor that it leaves open, or
-- -1 with every descriptor closed again.
pub safe_tcp_connect_lem : (u : Setup) → Balanced (safe_tcp_connect u)
unfolding safe_tcp_connect
safe_tcp_connect_lem u = guarded-Balanced u.inet_pton_ok _ (socket-Balanced u.socket u.connect_ok)

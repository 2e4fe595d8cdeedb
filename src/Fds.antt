-- ===== src/Fds.antt =====
-- fds.c: the worker's table of its clients. The GHashTable is a function from descriptors.
use sserver.Prelude.{ℕ, Option, none, some}
use sserver.Server.{FdSess, Server, update}

-- `init_fds`
unfoldable pub init_fds : Server → Server
init_fds s = record s { sessions = λ fd. none }

-- `get_fd`
unfoldable pub get_fd : Server → ℕ → Option FdSess
get_fd s fd = s.sessions fd

-- `save_fd`
unfoldable pub save_fd : Server → FdSess → Server
save_fd s sess = record s { sessions = update s.sessions sess.fd (some sess) }

-- `remove_fd`
unfoldable pub remove_fd : Server → ℕ → Server
remove_fd s fd = record s { sessions = update s.sessions fd none }

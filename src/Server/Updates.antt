-- ===== src/Server/Updates.antt =====
-- What a field update of a process leaves in the field, and in the others of its kind.
use sserver.Prelude.{ℕ, ◌≡◌, ◌≢◌, arith}
use sserver.MemQueue.{MemQueue}
use sserver.Server.{FdBuff, Server, buff_of, with_buff, with_rq, with_sq}

pub rq-with_rq : (s : Server) (i : ℕ) (q : MemQueue) → ((with_rq s i q).works i).rq ≡ q
rq-with_rq s i q = ground arith

pub sq-with_sq : (s : Server) (i : ℕ) (q : MemQueue) → ((with_sq s i q).works i).sq ≡ q
sq-with_sq s i q = ground arith

pub sq-with_sq_other :
    (s : Server) (i : ℕ) (q : MemQueue) (j : ℕ)
    → j ≢ i
    → ((with_sq s i q).works j).sq ≡ (s.works j).sq
sq-with_sq_other s i q j h = ground arith

pub buff_of-with_buff : (s : Server) (fd : ℕ) (b : FdBuff) → buff_of (with_buff s fd b) fd ≡ b
buff_of-with_buff s fd b = ground arith

pub sq-with_rq :
    (s : Server) (i : ℕ) (q : MemQueue) (j : ℕ) → ((with_rq s i q).works j).sq ≡ (s.works j).sq
sq-with_rq s i q j = ground arith

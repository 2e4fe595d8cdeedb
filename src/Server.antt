-- ===== src/Server.antt =====
-- The state of one process of the server: the structs of net_util.h, fds.h and work.h, and what
-- the kernel holds for it. Modules of net_util.c, master.c and work.c work on this state.
pub mod Updates
use sserver.Prelude.{ℕ, Bool, List, ◌∷◌, Option, none, ◌==◌, if◌then◌else◌, ℤ}
use sserver.Mem.{Mem}
use sserver.MemQueue.{MemQueue}
use sserver.Socket.{Recv, Send, Accept}

-- `enum fd_type`
pub data FdType : Type 0 where
  listen connect mcast pipe cli svr null : FdType

-- `enum CACHE_TYPE`, as bits of `flag`
abbrev pub cache_read : ℕ
cache_read = 1

abbrev pub cache_close : ℕ
cache_close = 2

-- `fd_buff_t`: a buffer is NULL or the memory that it points to
pub record FdBuff : Type 0 where
  pub slen : ℕ
  pub rlen : ℕ
  pub sbf : Option Mem
  pub rbf : Option Mem
  pub msglen : ℕ
  pub sbf_size : ℕ

-- `fd_addr_t`
pub record FdAddr : Type 0 where
  pub ip : ℕ
  pub port : ℕ

-- `fd_wrap_t`; the place of `node` is kept in the lists of `EpollInfo`
pub record FdWrap : Type 0 where
  pub type : FdType
  pub fd : ℤ
  pub idx : ℕ
  pub flag : ℕ
  pub buff : FdBuff
  pub addr : FdAddr

-- `epoll_info_t`: the two intrusive lists hold the descriptors whose `node` is linked in them
pub record EpollInfo : Type 0 where
  pub fds : ℕ → FdWrap
  pub maxfd : ℤ
  pub seq : ℕ
  pub count : ℕ
  pub readlist : List ℕ
  pub closelist : List ℕ

-- `fdsess_t`
pub record FdSess : Type 0 where
  pub fd : ℕ
  pub id : ℕ
  pub ip : ℕ
  pub port : ℕ

-- `work_t`, without the fields that only the log prints
pub record Work : Type 0 where
  pub id : ℕ
  pub rq : MemQueue
  pub sq : MemQueue

-- the settings that this code reads (`svr_setting_t`)
pub record Setting : Type 0 where
  pub max_msg_len : ℕ
  pub max_buf_len : ℕ

-- the events that epoll watches a descriptor for
pub record Interest : Type 0 where
  pub epollin : Bool
  pub epollout : Bool

-- The kernel's side of each descriptor: what is to come, what went out, what epoll watches, which
-- descriptors were closed, newest first, and how mmap, malloc and epoll_ctl answer.
pub record Kernel : Type 0 where
  pub incoming : ℕ → List Recv
  pub outgoing : ℕ → List Send
  pub connections : List Accept
  pub wire : ℕ → List ℕ
  pub interest : ℕ → Option Interest
  pub closed : List ℕ
  pub mmap_ok : Bool
  pub malloc_ok : Bool
  pub epoll_ctl_ok : Bool
  pub nonblock_ok : ℕ → Bool

-- one process
pub record Server : Type 0 where
  pub epinfo : EpollInfo
  pub works : ℕ → Work
  pub sessions : ℕ → Option FdSess
  pub setting : Setting
  pub kernel : Kernel

-- `ServInterface`: the functions of the business library that is loaded at run time, which is not
-- part of the repository's core. A callback may change the process through the functions that the
-- headers offer it; `proc_cli_msg` says whether it returned something other than 0.
pub record ServIf : Type 0 where
  pub get_msg_len : ℕ → List ℕ → ℕ
  pub proc_cli_msg : List ℕ → FdSess → Server → Bool × Server
  pub proc_serv_msg : ℕ → List ℕ → Server → Server
  pub on_cli_closed : ℕ → Server → Server
  pub on_serv_closed : ℕ → Server → Server
  pub handle_timer : Server → Server
  pub proc_mcast_msg : List ℕ → Server → Server
  pub reload_logic : Server → Server

-- a table with one entry changed
abbrev pub update {ℓ} : {A : Type ℓ} → (ℕ → A) → ℕ → A → ℕ → A
update f k v j = if j == k then v else f j

-- field updates
abbrev pub fd_wrap : Server → ℕ → FdWrap
fd_wrap s fd = s.epinfo.fds fd

abbrev pub buff_of : Server → ℕ → FdBuff
buff_of s fd = (fd_wrap s fd).buff

abbrev pub with_epinfo : Server → EpollInfo → Server
with_epinfo s e = record s { epinfo = e }

abbrev pub with_fd : Server → ℕ → FdWrap → Server
with_fd s fd w = with_epinfo s (record (s.epinfo) { fds = update s.epinfo.fds fd w })

abbrev pub with_buff : Server → ℕ → FdBuff → Server
with_buff s fd b = with_fd s fd (record (fd_wrap s fd) { buff = b })

abbrev pub with_rq : Server → ℕ → MemQueue → Server
with_rq s i q = record s { works = update s.works i (record (s.works i) { rq = q }) }

abbrev pub with_sq : Server → ℕ → MemQueue → Server
with_sq s i q = record s { works = update s.works i (record (s.works i) { sq = q }) }

abbrev pub with_interest : Server → ℕ → Option Interest → Server
with_interest s fd e = record s {
  kernel = record (s.kernel) { interest = update s.kernel.interest fd e };
}

abbrev pub with_closed : Server → ℕ → Server
with_closed s fd = record s {
  kernel = record (s.kernel) {
    closed = fd ∷ s.kernel.closed;
    interest = update s.kernel.interest fd none;
  };
}

-- ===== src/Epoll.antt =====
-- net_util.c and net_util.h: the descriptor table, what epoll watches, and the read and close lists.
pub mod Linked
pub mod Close
use sserver.Prelude.{
  ℕ, zero, suc, ◌+◌, ◌-◌, ◌%◌, ◌/◌, ◌^◌, Bool, true, false, List, [], ◌∷◌, ◌++◌, Option, none, some,
  ltb, leb, ◌==◌, if◌then◌else◌, length, ℤ, pos, negsuc, ◌+ℤ◌, ◌-ℤ◌, ◌>>=◌,
}
use sserver.Mem.{Mem, blit, slice}
use sserver.MemQueue.{MemBlock, MemQueue, Pushed, blk_data, blk_close, blk_head_len, push}
use sserver.Socket.{Recv, Send, Received, Sent, minus_one, safe_tcp_recv_n, safe_tcp_send_n}
use sserver.Server.{
  FdType, listen, connect, mcast, pipe, cli, svr, null, FdBuff, FdAddr, FdWrap, EpollInfo, FdSess,
  ServIf, Interest, Kernel, Server, update, fd_wrap, buff_of, with_epinfo, with_fd, with_buff,
  with_rq, with_sq, with_interest, with_closed,
}

-- the results of the C functions
abbrev pub Ret : Type 0
Ret = ℤ × Server

abbrev pub success : ℤ
success = pos 0

abbrev pub in_only : Interest
in_only = record { epollin = true; epollout = false }

abbrev pub in_out : Interest
in_out = record { epollin = true; epollout = true }

-- `mod_fd_to_epinfo`
unfoldable pub mod_fd_to_epinfo : Server → ℕ → Interest → Server
mod_fd_to_epinfo s fd e = with_interest s fd (some e)

-- the events of `add_fdinfo_to_epinfo`
unfoldable pub interest_of : FdType → Interest
interest_of listen = in_only
interest_of pipe = in_only
interest_of cli = in_only
interest_of svr = in_only
interest_of connect = in_out
interest_of mcast = in_out
interest_of null = in_out

abbrev pub empty_buff : FdBuff
empty_buff = record { slen = 0; rlen = 0; sbf = none; rbf = none; msglen = 0; sbf_size = 0 }

-- `epinfo.maxfd < fd` and its update
unfoldable pub raise_maxfd : ℤ → ℕ → ℤ
raise_maxfd (pos m) fd = if ltb m fd then pos fd else pos m
raise_maxfd (negsuc m) fd = pos fd

-- `add_fdinfo_to_epinfo`
unfoldable pub add_fdinfo_to_epinfo : Server → ℕ → ℕ → FdType → ℕ → ℕ → Ret
unfolding interest_of raise_maxfd
add_fdinfo_to_epinfo s fd idx type ip port =
    if s.kernel.epoll_ctl_ok
    then (let watched = with_interest s fd (some (interest_of type)) in
        let w : FdWrap = record {
          type = type;
          fd = pos fd;
          idx = idx;
          flag = 0;
          buff = empty_buff;
          addr = record { ip = ip; port = port };
        } in
        (
          success,
          with_epinfo watched (record (s.epinfo) {
            fds = update s.epinfo.fds fd w;
            maxfd = raise_maxfd s.epinfo.maxfd fd;
            seq = (s.epinfo.seq + 1) % 2 ^ 32;
          }),
        ))
    else (minus_one, s)

-- the bits of `flag`
abbrev pub has_read : ℕ → Bool
has_read f = f % 2 == 1

abbrev pub has_close : ℕ → Bool
has_close f = f / 2 % 2 == 1

-- `list_del_init` of a node takes it out of the list that it is in.
unfoldable pub unlink : ℕ → List ℕ → List ℕ
unlink fd [] = []
unlink fd (x ∷ xs) = let rest = unlink fd xs in if x == fd then rest else x ∷ rest

abbrev pub with_flag : Server → ℕ → ℕ → Server
with_flag s fd f = with_fd s fd (record (fd_wrap s fd) { flag = f })

unfoldable pub list_del_init : Server → ℕ → Server
unfolding unlink
list_del_init s fd = with_epinfo s (record (s.epinfo) {
  readlist = unlink fd s.epinfo.readlist;
  closelist = unlink fd s.epinfo.closelist;
})

-- `do_add_to_readlist`
unfoldable pub do_add_to_readlist : Server → ℕ → Server
do_add_to_readlist s fd =
    if (fd_wrap s fd).flag == 0
    then (let s' = with_flag s fd 1 in
        with_epinfo s' (record (s'.epinfo) { readlist = s.epinfo.readlist ++ fd ∷ [] }))
    else s

-- `do_del_from_readlist`
unfoldable pub do_del_from_readlist : Server → ℕ → Server
unfolding list_del_init
do_del_from_readlist s fd =
    if has_read (fd_wrap s fd).flag then list_del_init (with_flag s fd 0) fd else s

-- `do_del_from_closelist`
unfoldable pub do_del_from_closelist : Server → ℕ → Server
unfolding list_del_init
do_del_from_closelist s fd =
    if has_close (fd_wrap s fd).flag then list_del_init (with_flag s fd 0) fd else s

-- `do_add_to_closelist`; the bit is clear where it is set, so setting it adds its value
unfoldable pub do_add_to_closelist : Server → ℕ → Server
unfolding do_del_from_readlist
do_add_to_closelist s fd =
    let t = do_del_from_readlist s fd in
    if has_close (fd_wrap t fd).flag
    then t
    else (let t' = with_flag t fd ((fd_wrap t fd).flag + 2) in
        with_epinfo t' (record (t'.epinfo) { closelist = t.epinfo.closelist ++ fd ∷ [] }))

-- `free_buff`: both buffers go, and every count is 0.
unfoldable pub free_buff : Server → ℕ → Server
free_buff s fd = with_buff s fd empty_buff

abbrev pub is_null : FdType → Bool
is_null null = true
is_null _ = false

-- The loop of `do_fd_close` that replaces `maxfd`: the first descriptor below with no type.
unfoldable pub null_below : (ℕ → FdWrap) → ℕ → ℤ
null_below f zero = negsuc 0
null_below f (suc i) = let rest = null_below f i in if is_null (f i).type then pos i else rest

abbrev pub is_maxfd : ℤ → ℕ → Bool
is_maxfd (pos m) fd = m == fd
is_maxfd (negsuc m) fd = false

-- The part of `do_fd_close` behind the notices.
unfoldable pub release_fd : Server → ℕ → Server
unfolding do_del_from_readlist do_del_from_closelist free_buff null_below
release_fd s fd =
    let t = free_buff (do_del_from_closelist (do_del_from_readlist s fd) fd) fd in
    let u = with_closed (with_fd t fd (record (fd_wrap t fd) { type = null })) fd in
    with_epinfo u (record (u.epinfo) {
      count = (u.epinfo.count + 2 ^ 32 - 1) % 2 ^ 32;
      maxfd = if is_maxfd u.epinfo.maxfd fd then null_below u.epinfo.fds fd else u.epinfo.maxfd;
    })

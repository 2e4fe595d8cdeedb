-- ===== src/Socket.antt =====
-- The retry loops of net_util.c over non-blocking sockets. What the kernel answers is a script, one
-- entry for each system call; an empty script answers EAGAIN.
pub mod Stream
pub mod Sending
use sserver.Prelude.{
  ℕ, ◌+◌, ◌-◌, ◌*◌, ◌/◌, ◌%◌, min, Bool, true, false, List, [], ◌∷◌, ◌++◌, Option, none, some, leb,
  ◌==◌, if◌then◌else◌, length, take, drop, ℤ, pos, negsuc,
}
use sserver.Mem.{Mem, blit, slice}

-- What `recv` answers: bytes that have arrived (none at the end of the stream), or -1 with errno.
pub data Recv : Type 0 where
  delivers : List ℕ → Recv
  intr : Recv
  again : Recv
  failed : Recv

-- What `send` answers: how many bytes the kernel is ready to take, or -1 with errno.
pub data Send : Type 0 where
  takes : ℕ → Send
  intr : Send
  again : Send
  failed : Send

-- the function's result, the memory after it, and what the kernel still has to answer
pub record Received : Type 0 where
  pub ret : ℤ
  pub mem : Mem
  pub rest : List Recv

abbrev pub minus_one : ℤ
minus_one = negsuc 0

received : ℤ → Mem → List Recv → Received
received r m s = record { ret = r; mem = m; rest = s }

-- What is left of a delivery of which `n` bytes were read.
unfoldable pub put_back : ℕ → List ℕ → List Recv → List Recv
put_back n bs s = if leb (length bs) n then s else Recv.delivers (drop n bs) ∷ s

-- The loop of `safe_tcp_recv_n`: `n` bytes stand at `p` already, and `total` are wanted. `recv`
-- delivers at most what is asked for, and the end of the stream stays the end.
unfoldable pub recv_loop : List Recv → Mem → ℕ → ℕ → ℕ → Received
unfolding put_back received
recv_loop [] m p total n = received (pos n) m []
recv_loop (Recv.delivers bs ∷ s) m p total n =
    let want = total - n in
    let m' = blit m (p + n) (take want bs) in
    let rest = recv_loop s m' p total (n + length bs) in
    if leb total n
    then received (pos n) m (Recv.delivers bs ∷ s)
    else if length bs == 0
    then received (pos 0) m (Recv.delivers bs ∷ s)
    else if leb want (length bs)
    then received (pos total) m' (put_back want bs s)
    else rest
recv_loop (Recv.intr ∷ s) m p total n =
    let rest = recv_loop s m p total n in
    if leb total n then received (pos n) m (Recv.intr ∷ s) else rest
recv_loop (Recv.again ∷ s) m p total n =
    if leb total n then received (pos n) m (Recv.again ∷ s) else received (pos n) m s
recv_loop (Recv.failed ∷ s) m p total n =
    if leb total n then received (pos n) m (Recv.failed ∷ s) else received minus_one m s

-- `safe_tcp_recv_n` into the memory at `p`. `none` is the failed assertion `total > 0`.
unfoldable pub safe_tcp_recv_n : List Recv → Mem → ℕ → ℕ → Option Received
safe_tcp_recv_n s m p total = if total == 0 then none else some (recv_loop s m p total 0)

-- the function's result, the bytes that went out, and what the kernel still has to answer
pub record Sent : Type 0 where
  pub ret : ℤ
  pub wire : List ℕ
  pub rest : List Send

sent : ℤ → List ℕ → List Send → Sent
sent r w s = record { ret = r; wire = w; rest = s }

unfoldable pub before : List ℕ → Sent → Sent
before w t = record t { wire = w ++ t.wire }

-- The loop of `safe_tcp_send_n`: of `total` bytes in all, `n` went out, and `bs` are left.
unfoldable pub send_loop : List Send → List ℕ → ℕ → ℕ → Sent
unfolding sent before
send_loop [] bs total n = sent (pos n) [] []
send_loop (Send.takes k ∷ s) bs total n =
    let c = min k (total - n) in
    let rest = before (take c bs) (send_loop s (drop c bs) total (n + c)) in
    if leb total n then sent (pos n) [] (Send.takes k ∷ s) else rest
send_loop (Send.intr ∷ s) bs total n =
    let rest = send_loop s bs total n in
    if leb total n then sent (pos n) [] (Send.intr ∷ s) else rest
send_loop (Send.again ∷ s) bs total n =
    if leb total n then sent (pos n) [] (Send.again ∷ s) else sent (pos n) [] s
send_loop (Send.failed ∷ s) bs total n =
    if leb total n then sent (pos n) [] (Send.failed ∷ s) else sent minus_one [] s

-- `safe_tcp_send_n` of the bytes `bs`. `none` is the failed assertion `total > 0`.
unfoldable pub safe_tcp_send_n : List Send → List ℕ → Option Sent
safe_tcp_send_n s bs = if length bs == 0 then none else some (send_loop s bs (length bs) 0)

-- What `accept` and the `fcntl` calls of `set_io_nonblock` answer.
pub data Accept : Type 0 where
  accepted : ℕ → ℕ → ℕ → Accept
  intr : Accept
  failed : Accept

-- a connection that was accepted: its descriptor and the peer's address
pub record Peer : Type 0 where
  pub fd : ℕ
  pub ip : ℕ
  pub port : ℕ

-- `safe_tcp_accept`: the connection, or -1; `nonblock_ok` says for each descriptor whether
-- `set_io_nonblock` succeeds. The third part lists the descriptors that were closed again.
unfoldable pub safe_tcp_accept :
    (ℕ → Bool) → Bool → List Accept → Option Peer × List Accept × List ℕ
safe_tcp_accept nonblock_ok nonblock [] = (none, [], [])
safe_tcp_accept nonblock_ok nonblock (Accept.accepted fd ip port ∷ s) =
    if nonblock
    then (if nonblock_ok fd
        then (some (record { fd = fd; ip = ip; port = port }), s, [])
        else (none, s, fd ∷ []))
    else (some (record { fd = fd; ip = ip; port = port }), s, [])
safe_tcp_accept nonblock_ok nonblock (Accept.intr ∷ s) = safe_tcp_accept nonblock_ok nonblock s
safe_tcp_accept nonblock_ok nonblock (Accept.failed ∷ s) = (none, s, [])

-- The timeout that `set_sock_snd_timeo` and `set_sock_rcv_timeo` pass on, as seconds and
-- microseconds.
pub record Timeval : Type 0 where
  pub tv_sec : ℕ
  pub tv_usec : ℕ

unfoldable pub timeval_of : ℕ → Timeval
timeval_of millisec = record { tv_sec = millisec / 1000; tv_usec = millisec % 1000 * 1000 }

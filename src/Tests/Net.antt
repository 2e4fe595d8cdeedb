-- ===== src/Tests/Net.antt =====
-- The theorems on descriptors at a process with a few of them.
use sserver.Prelude.{ℕ, ◌≡◌, inr, ◌≢◌, refl, [], ◌∷◌, ◌++◌, none, some, arith}
use sserver.Mem.{blit, slice, get32}
use sserver.MemQueue.{pop, append, write_block, set_type, set_len, read_block, read_type}
use sserver.Master.{open_block, addr_bytes}
use sserver.Socket.{
  Recv, Send, Sent, Received, minus_one, safe_tcp_recv_n, safe_tcp_send_n, send_loop,
}
use sserver.Socket.Stream.{stream, RecvPost, safe_tcp_recv_n_lem}
use sserver.Socket.Sending.{SendPost, safe_tcp_send_n_lem}
use sserver.Server.{null, Server, fd_wrap, buff_of}
use sserver.Epoll.{Ret, empty_buff, do_add_to_readlist, do_add_to_closelist, release_fd}
use sserver.Epoll.Linked.{
  count, Linked, do_add_to_closelist-Linked, ListStep, ListRun, ListRun-Linked,
}
use sserver.Dispatch.{handle_closelist}
use sserver.Dispatch.Closing.{Closes, handle_closelist_lem}
use sserver.Epoll.Close.{Covers, release_fd_lem, release_fd-maxfd}
use sserver.NetUtil.{blank, handle_read}
use sserver.NetUtil.Reading.{ReadPost, with_incoming, handle_read_lem, handle_read_again}
use sserver.NetSend.{note_wire, note_sent, send_bytes, write_from, do_fd_write}
use sserver.NetSend.Writing.{WritePost, do_fd_write_lem, do_fd_write_twice}
use sserver.Work.{handle_block}
use sserver.Work.Refusal.{handle_block_refused}
use sserver.Server.{with_buff}
use sserver.Tests.Data.{empty_queue, buffers, server, library}

server-Linked : Linked server.epinfo
server-Linked = record { reading = λ fd. refl; closing = λ fd. refl }

safe_tcp_recv_n_lem_example :
    (r : Received) × (safe_tcp_recv_n (Recv.intr ∷ Recv.delivers (7 ∷ 8 ∷ []) ∷ []) blank 0 4
      ≡ some r)
    × RecvPost (stream (Recv.intr ∷ Recv.delivers (7 ∷ 8 ∷ []) ∷ [])) blank 0 4 0 r
safe_tcp_recv_n_lem_example =
    safe_tcp_recv_n_lem (Recv.intr ∷ Recv.delivers (7 ∷ 8 ∷ []) ∷ []) blank 0 4 (omega arith)

safe_tcp_send_n_lem_example :
    (t : Sent) × (safe_tcp_send_n (Send.takes 1 ∷ Send.again ∷ []) (7 ∷ 8 ∷ []) ≡ some t)
    × SendPost (7 ∷ 8 ∷ []) 2 0 t
safe_tcp_send_n_lem_example =
    safe_tcp_send_n_lem (Send.takes 1 ∷ Send.again ∷ []) (7 ∷ 8 ∷ []) (omega arith)

ListRun-Linked_example : Linked (do_add_to_closelist (do_add_to_readlist server 4) 4).epinfo
ListRun-Linked_example =
    ListRun-Linked
      (ListRun.next (ListRun.next ListRun.here (ListStep.add_read server 4))
        (ListStep.add_close (do_add_to_readlist server 4) 4))
      server-Linked

-- a descriptor that waits to be closed, with two bytes to send
abbrev ending : Server
ending = do_add_to_closelist server 4

ending-Linked : Linked ending.epinfo
ending-Linked = do_add_to_closelist-Linked server 4 server-Linked

handle_closelist_lem_example : Closes (4 ∷ []) ending (handle_closelist library 1 ending)
unfolding do_add_to_closelist
handle_closelist_lem_example =
    handle_closelist_lem library ending ending-Linked (λ j. inr (blank, ground arith))
      (λ j h. ground arith)

release_fd_lem_example :
    ((fd_wrap (release_fd server 4) 4).type ≡ null)
    × (buff_of (release_fd server 4) 4 ≡ empty_buff)
    × ((release_fd server 4).kernel.interest 4 ≡ none)
    × (count 4 (release_fd server 4).epinfo.readlist ≡ 0)
    × (count 4 (release_fd server 4).epinfo.closelist ≡ 0)
    × ((j : ℕ) → j ≢ 4 → fd_wrap (release_fd server 4) j ≡ fd_wrap server j)
release_fd_lem_example = release_fd_lem server 4 server-Linked

release_fd-maxfd_example : ¬ Covers (release_fd server 5).epinfo.maxfd 4
release_fd-maxfd_example = release_fd-maxfd server 4 refl refl

handle_read_lem_example : (r : Ret) × (handle_read server 4 ≡ some r) × ReadPost server 4 blank r
handle_read_lem_example = handle_read_lem server 4 blank refl

handle_read_again_example :
    (t : Server) × (u : Server) × (handle_read
        (with_incoming server 4 (Recv.again ∷ Recv.delivers (7 ∷ []) ∷ []))
        4
      ≡ some (minus_one, t))
    × (handle_read (with_incoming server 4 (Recv.delivers [] ∷ Recv.delivers (7 ∷ []) ∷ [])) 4
        ≡ some (minus_one, u))
    × (t.epinfo ≡ u.epinfo)
    × (t.works ≡ u.works)
    × (t.sessions ≡ u.sessions)
    × (buff_of t 4 ≡ buff_of server 4)
    × (stream (t.kernel.incoming 4) ≡ stream (Recv.delivers (7 ∷ []) ∷ []))
handle_read_again_example =
    handle_read_again server 4 blank (Recv.delivers (7 ∷ []) ∷ []) refl (omega arith)

do_fd_write_lem_example : (r : Ret) × (do_fd_write server 4 ≡ some r) × WritePost server 4 blank r
do_fd_write_lem_example = do_fd_write_lem server 4 blank refl (omega arith)

abbrev once : Server
once = note_wire server 4 (0 ∷ 0 ∷ []) (Send.takes 2 ∷ [])

abbrev twice : Server
twice = note_wire once 4 (0 ∷ 0 ∷ []) []

do_fd_write_twice_example :
    (twice.kernel.wire 4 ≡ [] ++ ((0 ∷ 0 ∷ []) ++ (0 ∷ 0 ∷ []))) × (buff_of twice 4 ≡ buffers)
unfolding do_fd_write write_from send_bytes safe_tcp_send_n send_loop slice note_sent note_wire
do_fd_write_twice_example = do_fd_write_twice server once twice 4 blank refl (omega arith) refl refl

-- an opening block of descriptor 5 at the tail, and a session of that descriptor
abbrev reopened : Server
reopened = record server {
  works = λ i. record {
    id = i;
    rq = append empty_queue (open_block 0 5) (addr_bytes 1 2);
    sq = empty_queue;
  };
  sessions = λ fd. some (record { fd = 5; id = 0; ip = 1; port = 2 });
}

handle_block_refused_example :
    ((pop (reopened.works 0).rq).tail ≡ 31)
    × ((pop ((handle_block library reopened 0 12).works 0).rq).tail ≡ 25)
unfolding append write_block set_type set_len read_block read_type blit get32
handle_block_refused_example =
    handle_block_refused library reopened 0 (record { fd = 5; id = 0; ip = 1; port = 2 }) refl refl
      refl

-- a client without a send buffer, on which the kernel takes two bytes
abbrev unsent : Server
unsent = with_buff server 5 (record buffers { slen = 0; sbf = none; sbf_size = 0 })

-- ===== src/Tests/Flow.antt =====
-- The theorems on whole flows: from a queue to the library.
use sserver.Prelude.{
  some, ℕ, zero, suc, ◌+◌, ◌<◌, refl, false, List, [], ◌∷◌, arith, inr, length, ◌≤◌,
}
use sserver.MemQueue.{MemQueue, append}
use sserver.MemQueue.Layout.{Message, block_of}
use sserver.MemQueue.Fifo.{Holds, Linear, Linear-append}
use sserver.Server.{FdSess, ServIf, Server, with_rq, with_buff}
use sserver.Mem.{Mem, blit}
use sserver.Master.Returning.{FramesEnd, push_frames-Ends}
use sserver.Work.{handle_mq_recv}
use sserver.Work.Serving.{Quiet, ServePost, handle_mq_recv_lem}
use sserver.NetUtil.{blank}
use sserver.Socket.{Recv}
use sserver.Master.{handle_mq_send, push_frames}
use sserver.Master.Deliver.{Loaded}
use sserver.Master.Draining.{SendPost, handle_mq_send_lem}
use sserver.Tests.Data.{buffers, empty_queue, server, library}

abbrev opening_message : Message
opening_message = record { id = 0; fd = 7; type = 3; bytes = 1 ∷ 0 ∷ 0 ∷ 127 ∷ 80 ∷ 0 ∷ [] }

abbrev data_message : Message
data_message = record { id = 0; fd = 7; type = 0; bytes = 65 ∷ 66 ∷ [] }

abbrev closing_message : Message
closing_message = record { id = 0; fd = 7; type = 2; bytes = [] }

abbrev put : MemQueue → Message → MemQueue
put q x = append q (block_of x) x.bytes

abbrev visit_queue : MemQueue
visit_queue = put (put (put empty_queue opening_message) data_message) closing_message

abbrev visit : List Message
visit = opening_message ∷ data_message ∷ closing_message ∷ []

visit_queue-Holds : Holds visit_queue visit
unfolding append
visit_queue-Holds = Holds.linear (
    Linear-append (put (put empty_queue opening_message) data_message)
      (opening_message ∷ data_message ∷ []) closing_message
      (record { type = ground arith; id = omega arith; fd = omega arith; len = omega arith })
      (ground arith)
      (Linear-append (put empty_queue opening_message) (opening_message ∷ []) data_message
        (record { type = ground arith; id = omega arith; fd = omega arith; len = omega arith })
        (ground arith)
        (Linear-append empty_queue [] opening_message
          (record { type = ground arith; id = omega arith; fd = omega arith; len = omega arith })
          (ground arith) (record { low = omega arith; high = omega arith; chain = refl }))))

library-Quiet : Quiet library 0
library-Quiet = record {
  cli_msg = λ bs sess s. record { rq = refl; sessions = λ fd. refl };
  cli_closed = λ fd s. record { rq = refl; sessions = λ fd. refl };
}

abbrev serving : Server
serving = with_rq server 0 visit_queue

handle_mq_recv_lem_example :
    ServePost library 0 library-Quiet visit serving (handle_mq_recv library 4 serving 0)
handle_mq_recv_lem_example =
    handle_mq_recv_lem library 0 library-Quiet 4 visit serving (λ fd. false) visit_queue-Holds
      (λ fd e. refl)
      (λ e. (refl, refl), (λ e. absurd (ground (arith, e)), (λ e. absurd (ground (arith, e)), tt)))
      (omega arith)

-- a worker with an answer for a client, and one that closes it
abbrev answers : ℕ → List Message
answers zero = data_message ∷ []
answers (suc zero) = closing_message ∷ []
answers (suc (suc j)) = []

abbrev answer_queue : ℕ → MemQueue
answer_queue zero = put empty_queue data_message
answer_queue (suc zero) = put empty_queue closing_message
answer_queue (suc (suc j)) = empty_queue

abbrev answering : Server
answering = record server { works = λ i. record { id = i; rq = empty_queue; sq = answer_queue i } }

empty_queue-Linear : Linear empty_queue []
empty_queue-Linear = record { low = omega arith; high = omega arith; chain = refl }

answer_queue-Holds : (j : ℕ) → 0 ≤ j → j < 0 + 2 → Holds (answer_queue j) (answers j)
unfolding append
answer_queue-Holds zero a b = Holds.linear (
    Linear-append empty_queue [] data_message
      (record { type = ground arith; id = omega arith; fd = omega arith; len = omega arith })
      (ground arith) empty_queue-Linear)
answer_queue-Holds (suc zero) a b = Holds.linear (
    Linear-append empty_queue [] closing_message
      (record { type = ground arith; id = omega arith; fd = omega arith; len = omega arith })
      (ground arith) empty_queue-Linear)
answer_queue-Holds (suc (suc j)) a b = absurd (omega arith)

answers-Loaded : (j : ℕ) → Loaded (answers j)
answers-Loaded zero = (λ e. omega arith, tt)
answers-Loaded (suc zero) = (λ e. absurd (e refl), tt)
answers-Loaded (suc (suc j)) = tt

answers-length : (j : ℕ) → length (answers j) < 2
answers-length zero = omega arith
answers-length (suc zero) = omega arith
answers-length (suc (suc j)) = omega arith

handle_mq_send_lem_example :
    SendPost library answers 2 0 answering (handle_mq_send library 2 2 0 answering)
handle_mq_send_lem_example =
    handle_mq_send_lem library 2 answers 2 0 answering answer_queue-Holds answers-Loaded
      answers-length (record { buffered = λ fd. inr (blank, refl); malloc_ok = refl })

-- two messages of two bytes and the start of a third
abbrev some_bytes : Mem
some_bytes = blit blank 0 (1 ∷ 65 ∷ 1 ∷ 66 ∷ 1 ∷ [])

abbrev from_client : Server
from_client = with_buff server 5 (record buffers { rlen = 5; rbf = some some_bytes })

-- two bytes wait, and three come
abbrev talking : Server
talking = record (with_buff server 5 (record buffers { rlen = 2; rbf = some some_bytes })) {
  kernel = record (server.kernel) { incoming = λ fd. Recv.delivers (1 ∷ 66 ∷ 1 ∷ []) ∷ [] };
}

-- a library that answers with length 0 to everything
abbrev zero_library : ServIf
zero_library = record library { get_msg_len = λ fd bs. 0 }

push_frames-Ends_example :
    FramesEnd from_client 0 (push_frames zero_library from_client 5 some_bytes)
push_frames-Ends_example =
    push_frames-Ends zero_library from_client 5 some_bytes
      (record { low = omega arith; tail = omega arith; head = omega arith })

-- two packets of a client that has a session with worker 0
abbrev caller : FdSess
caller = record { fd = 7; id = 0; ip = 1; port = 2 }

abbrev packets : List (List ℕ)
packets = (5 ∷ 0 ∷ 0 ∷ 0 ∷ 65 ∷ []) ∷ (6 ∷ 0 ∷ 0 ∷ 0 ∷ 66 ∷ 67 ∷ []) ∷ []

abbrev first_packet : Message
first_packet = record { id = 0; fd = 7; type = 0; bytes = 5 ∷ 0 ∷ 0 ∷ 0 ∷ 65 ∷ [] }

abbrev second_packet : Message
second_packet = record { id = 0; fd = 7; type = 0; bytes = 6 ∷ 0 ∷ 0 ∷ 0 ∷ 66 ∷ 67 ∷ [] }

abbrev calling : Server
calling = record (with_rq server 0 (put (put empty_queue first_packet) second_packet)) {
  sessions = λ fd. some caller;
}

-- ===== src/Tests/Data.antt =====
-- A process with a few descriptors, and a business library, for the tests.
use sserver.Prelude.{true, false, [], ◌∷◌, none, some, pos}
use sserver.MemQueue.{MemQueue}
use sserver.Socket.{Send}
use sserver.Server.{cli, FdBuff, FdWrap, Kernel, Server, ServIf}
use sserver.NetUtil.{blank}

abbrev pub empty_queue : MemQueue
empty_queue = record {
  mem = blank;
  head = 12;
  tail = 12;
  blk_cnt = pos 0;
  len = 100;
  type = 0;
  notified = 0;
}

abbrev pub buffers : FdBuff
buffers = record {
  slen = 2;
  rlen = 0;
  sbf = some blank;
  rbf = some blank;
  msglen = 0;
  sbf_size = 2;
}

abbrev pub entry : FdWrap
entry = record {
  type = cli;
  fd = pos 4;
  idx = 0;
  flag = 0;
  buff = buffers;
  addr = record { ip = 1; port = 2 };
}

abbrev pub kernel : Kernel
kernel = record {
  incoming = λ fd. [];
  outgoing = λ fd. Send.takes 2 ∷ Send.takes 2 ∷ [];
  connections = [];
  wire = λ fd. [];
  interest = λ fd. none;
  closed = [];
  mmap_ok = true;
  malloc_ok = true;
  epoll_ctl_ok = true;
  nonblock_ok = λ fd. true;
}

abbrev pub server : Server
server = record {
  epinfo = record {
    fds = λ fd. entry;
    maxfd = pos 5;
    seq = 0;
    count = 0;
    readlist = [];
    closelist = [];
  };
  works = λ i. record { id = i; rq = empty_queue; sq = empty_queue };
  sessions = λ fd. none;
  setting = record { max_msg_len = 100; max_buf_len = 8 };
  kernel = kernel;
}

abbrev pub library : ServIf
library = record {
  get_msg_len = λ fd bs. 2;
  proc_cli_msg = λ bs sess s. (false, s);
  proc_serv_msg = λ fd bs s. s;
  on_cli_closed = λ fd s. s;
  on_serv_closed = λ fd s. s;
  handle_timer = λ s. s;
  proc_mcast_msg = λ bs s. s;
  reload_logic = λ s. s;
}

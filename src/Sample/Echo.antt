-- ===== src/Sample/Echo.antt =====
-- What a worker with the sample library answers to a client.
use sserver.Prelude.{
  ℕ, ◌≡◌, ◌⊎◌, Bool, List, [], ◌∷◌, ◌++◌, Option, none, some, take, drop, false, if◌then◌else◌,
}
use sserver.MemQueue.{MemQueue}
use sserver.MemQueue.Layout.{Message, block_of}
use sserver.NetUtil.{push_ret}
use sserver.MemQueue.Fifo.{Holds}
use sserver.Server.{FdSess, Server}
use sserver.Master.Stream.{message, messages}
use sserver.Work.{close_cli}
use sserver.Sample.{sample}
use sserver.Sample.Answer.{Whole, closing}

-- What the answers to the packets of a client may come to: all of them are in the send queue and
-- the session stays; or the first ones are, `mq_push` of the next one on a queue that held these was
-- refused, and the session is gone.
pub data Echoed (sess : FdSess) (ys : List Message) (bss : List (List ℕ)) (t : Server)
    : Type 0 where
  all :
      Holds (t.works sess.id).sq (ys ++ messages sess.id sess.fd bss)
      → t.sessions sess.fd ≡ some sess
      → Echoed sess ys bss t
  cut :
      (k : ℕ) (cs : List Message) (q q' : MemQueue) (next : List ℕ) (more : List (List ℕ))
      → drop k bss ≡ next ∷ more
      → Holds q (ys ++ messages sess.id sess.fd (take k bss))
      → push_ret q (block_of (message sess.id sess.fd next)) next ≡ (false, q')
      → Holds (t.works sess.id).sq (ys ++ messages sess.id sess.fd (take k bss) ++ cs)
      → (cs ≡ []) ⊎ (cs ≡ closing sess ∷ [])
      → t.sessions sess.fd ≡ none
      → Echoed sess ys bss t

-- Every packet is whole.
abbrev pub AllWhole : List (List ℕ) → Type 0
AllWhole [] = Unit {0}
AllWhole (bs ∷ bss) = Whole bs × AllWhole bss

module _ (behind : List ℕ) (sess : FdSess) where
  -- the state behind a packet, by what the library gives for it
  abbrev after : Bool × Server → Server
  after r = if r.0 then close_cli (sample behind) r.1 sess.fd else r.1

-- What `handle_mq_recv` gives with the sample library.
pub data EchoPost (sess : FdSess) (ys : List Message) (bss : List (List ℕ))
    : Option Server → Type 0 where
  ends :
      {t : Server}
      → Holds (t.works sess.id).rq []
      → Echoed sess ys bss t
      → EchoPost sess ys bss (some t)

-- ===== src/Tests/Queue.antt =====
-- The queue's theorems at a queue of 100 bytes.
use sserver.Prelude.{◌≡◌, refl, inl, List, [], ◌∷◌, arith, pos}
use sserver.Mem.{get32, blit, slice, get32}
use sserver.MemQueue.{
  MemQueue, Pushed, init, get, get_again, get_round, push, push_again, push_round, append, pop,
  write_block,
}
use sserver.MemQueue.Layout.{Message, block_of, Fits}
use sserver.MemQueue.Fifo.{Wrapped, Holds, Pushes, Gets, Linear-append, push_lem, get_lem}
use sserver.MemQueue.Run.{Op, send, receive, InOrder, read_message, run, run-init}
use sserver.MemQueue.Run.Counter.{Counted, run_init-Counted}
use sserver.MemQueue.Race.{push_interleaved, push_interleaved_loses}

abbrev fresh : MemQueue
fresh = record {
  mem = λ a. 0;
  head = 12;
  tail = 12;
  blk_cnt = pos 0;
  len = 100;
  type = 0;
  notified = 0;
}

abbrev greeting : Message
greeting = record { id = 1; fd = 5; type = 0; bytes = 104 ∷ 105 ∷ [] }

greeting-Fits : Fits greeting
greeting-Fits = omega arith

fresh-Holds : Holds fresh []
fresh-Holds = Holds.linear (record { low = omega arith; high = omega arith; chain = refl })

abbrev loaded : MemQueue
loaded = append fresh (block_of greeting) greeting.bytes

loaded-Holds : Holds loaded (greeting ∷ [])
loaded-Holds = Holds.linear (
    Linear-append fresh [] greeting greeting-Fits (omega arith)
      (record { low = omega arith; high = omega arith; chain = refl }))

-- the upper run drained, the head gone round
abbrev drained : MemQueue
drained = record fresh { head = 12; tail = 95 }

drained-Wrapped : Wrapped drained [] [] 95
drained-Wrapped = record {
  low = omega arith;
  gap = omega arith;
  high = omega arith;
  end = inl (omega arith);
  upper = refl;
  lower = refl;
}

abbrev script : List Op
script = send greeting ∷ receive ∷ receive ∷ []

run-init_example : InOrder [] (run fresh script)
unfolding init
run-init_example = run-init 100 0 fresh script (omega arith) refl (greeting-Fits, tt)

push_lem_example :
    Pushes greeting (greeting ∷ []) (push loaded (block_of greeting) (104 ∷ 105 ∷ []))
push_lem_example = push_lem loaded (greeting ∷ []) greeting greeting-Fits loaded-Holds

get_lem_example : Gets (greeting ∷ []) (get loaded)
get_lem_example = get_lem loaded (greeting ∷ []) loaded-Holds

run_init-Counted_example : Counted [] 0 (run fresh script)
unfolding init
run_init-Counted_example =
    run_init-Counted 100 0 fresh script (omega arith) refl (greeting-Fits, tt)

push_interleaved_loses_example :
    (push_interleaved drained (block_of greeting) (104 ∷ 105 ∷ [])
      ≡ Pushed.done (record drained { tail = 12 }))
    × Holds (record drained { tail = 12 }) []
push_interleaved_loses_example = push_interleaved_loses drained [] 95 greeting drained-Wrapped

-- The message comes out as it went in.
run-script : (run fresh script).received ≡ greeting ∷ []
unfolding run get get_again get_round push push_again push_round append read_message pop get32 blit
    slice write_block
run-script = refl

-- ===== src/Framing/Reassembler/Reachable.antt =====
-- Any history of one reassembler: buffers with any bytes arrive, and timers run out.
use learning_cuda.Base.{◌≢◌, refl, ℕ, List, [], ◌∷◌, arith}
use learning_cuda.Timers.{idle}
use learning_cuda.Framing.Reassembler.{
  Reassembler, new_reassembler, type_error, push_chunk, fire_timer,
}
use learning_cuda.Framing.Reassembler.Invariant.{Inv}
use learning_cuda.Framing.Reassembler.Invariant.Steps.{push_chunk-Keeps, fire_timer-Inv}

pub data Event : Type 0 where
  arrives : List ℕ → Event
  runs_out : ℕ → Event

pub step : Reassembler → Event → Reassembler
step r (arrives buffer) = (push_chunk r buffer).0
step r (runs_out handle) = fire_timer r handle

pub run : Reassembler → List Event → Reassembler
run r [] = r
run r (e ∷ es) = run (step r e) es

step-Inv : (r : Reassembler) (e : Event) → Inv r → Inv (step r e)
unfolding step
step-Inv r (arrives buffer) v = (push_chunk-Keeps r buffer v).0
step-Inv r (runs_out handle) v = fire_timer-Inv r handle v

run-Inv_from : (r : Reassembler) (es : List Event) → Inv r → Inv (run r es)
unfolding run
run-Inv_from r [] v = v
run-Inv_from r (e ∷ es) v = run-Inv_from (step r e) es (step-Inv r e v)

new_reassembler-Inv : Inv new_reassembler
unfolding new_reassembler idle
new_reassembler-Inv = record {
  order = refl;
  distinct = tt;
  bounded = omega arith;
  armed = refl;
  handles = tt;
  fresh = tt;
  entries = tt;
}

-- After any history, whatever bytes arrived and whichever timers ran out: the order list holds the
-- keys of the map, without repetition, and at most 16; the armed timers are exactly those of the
-- messages in flight; and each message in flight counts its chunks right and lacks at least one.
pub run-Inv : (es : List Event) → Inv (run new_reassembler es)
run-Inv es = run-Inv_from new_reassembler es new_reassembler-Inv

-- After any history no buffer makes `pushChunk` dereference a null chunk.
pub push_chunk-ne-type_error :
    (es : List Event) (buffer : List ℕ)
    → (push_chunk (run new_reassembler es) buffer).1 ≢ type_error
push_chunk-ne-type_error es buffer = (push_chunk-Keeps _ buffer (run-Inv es)).1

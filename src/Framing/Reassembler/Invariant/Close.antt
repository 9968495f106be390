-- ===== src/Framing/Reassembler/Invariant/Close.antt =====
-- Taking one message out of flight, with its timer, and the invariant.
use learning_cuda.Base.{ℕ, ◌<◌, ◌≡◌, sym, ap, ◌∙◌, some, [], ◌∷◌, arith, nat_key, All}
use learning_cuda.JsMap.{JsMap, get, remove, keys}
use learning_cuda.JsMap.Order.{
  Distinct, splice_out, keys-remove, Distinct-splice_out, length-splice_out,
}
use learning_cuda.JsMap.Values.{All-remove}
use learning_cuda.Framing.Reassembler.{InFlightMessage, Reassembler}
use learning_cuda.Framing.Reassembler.Lookup.{timer_entries, timer_entries-remove}
use learning_cuda.Framing.Reassembler.Invariant.{IsOpen, Inv}

All-keys-remove :
    (n h : ℕ) (m : JsMap ℕ ℕ) → All (λ k. k < n) (keys m) → All (λ k. k < n) (keys (remove h m))
unfolding remove
All-keys-remove n h [] a = tt
All-keys-remove n h ((j, w) ∷ m) a = ground (arith, All-keys-remove n h m a.1)

-- The reassembler without the message `k` and its timer.
abbrev pub without_message : ℕ → InFlightMessage → Reassembler → Reassembler
without_message k msg r = record {
  in_flight = remove k r.in_flight;
  in_flight_order = splice_out k r.in_flight_order;
  timers = record r.timers { armed = remove msg.timer r.timers.armed };
}

module _ (r : Reassembler) (v : Inv r) (k : ℕ) (msg : InFlightMessage)
    (found : get k r.in_flight ≡ some msg) where
  keys-Distinct : Distinct (keys r.in_flight)
  keys-Distinct = rw v.order v.distinct

  armed-Distinct : Distinct (keys (timer_entries r.in_flight))
  armed-Distinct = rw (← v.armed) v.handles

  pub without_message-Inv : Inv (without_message k msg r)
  without_message-Inv = record {
    order = keys-remove k r.in_flight keys-Distinct ∙ ap (splice_out k) v.order;
    distinct = Distinct-splice_out k r.in_flight_order v.distinct;
    bounded = omega (arith, v.bounded, length-splice_out k r.in_flight_order);
    armed =
        ap (remove msg.timer) v.armed
        ∙ sym (timer_entries-remove k msg r.in_flight keys-Distinct armed-Distinct found);
    handles =
        rw (keys-remove msg.timer r.timers.armed v.handles)
          (Distinct-splice_out msg.timer (keys r.timers.armed) v.handles);
    fresh = All-keys-remove r.timers.next msg.timer r.timers.armed v.fresh;
    entries = All-remove IsOpen k r.in_flight v.entries;
  }

-- ===== src/Framing/Reassembler/Invariant/Opening.antt =====
-- Making room for a message, opening it, and the invariant.
use learning_cuda.Base.{
  ℕ, suc, ◌≤◌, ◌<◌, ◌≡◌, refl, sym, ap, subst, ◌∙◌, inl, inr, none, List, [], ◌∷◌, ◌++◌, arith, leb,
  nat_key, Bool-cases, length, length-append, length-replicate, All,
}
use learning_cuda.JsMap.{get, keys}
use learning_cuda.JsMap.Laws.{same_refl}
use learning_cuda.JsMap.Order.{
  Absent, splice_out, Distinct-concat, Absent-keys, keys-put_new, put-Absent, get_present,
  get-Absent,
}
use learning_cuda.JsMap.Values.{All-put}
use learning_cuda.Timers.{set_timer, clear_timer}
use learning_cuda.Framing.Envelope.{Chunk, max_chunks}
use learning_cuda.Framing.Reassembler.{
  Reassembler, max_in_flight_messages, evict_first, evict_entry, make_room, new_message,
  open_message,
}
use learning_cuda.Framing.Reassembler.Lookup.{timer_entries-put_new}
use learning_cuda.Framing.Reassembler.Invariant.{IsOpen, Inv}
use learning_cuda.Framing.Reassembler.Invariant.Slots.{filled-replicate}
use learning_cuda.Framing.Reassembler.Invariant.Close.{without_message, without_message-Inv}

-- Room for one more message.
abbrev HasRoom : Reassembler → Type 0
HasRoom r = length r.in_flight_order < max_in_flight_messages

evict_first-Inv :
    (r : Reassembler) (o : List ℕ)
    → Inv r
    → r.in_flight_order ≡ o
    → 1 ≤ length o
    → Inv (evict_first o r) × HasRoom (evict_first o r)
unfolding evict_first evict_entry clear_timer splice_out
evict_first-Inv r [] v e h = absurd (omega arith)
evict_first-Inv r (oldest ∷ rest) v e h =
    let (msg, found) = get_present oldest rest r.in_flight (v.order ∙ e) in
    let kept = without_message-Inv r v oldest msg found in
    let spliced : splice_out oldest r.in_flight_order ≡ rest =
      rw (e, splice_out, same_refl oldest) refl in
    rw found (
      subst (λ o. Inv (record (without_message oldest msg r) { in_flight_order = o })) spliced kept,
      omega (arith, v.bounded, ap length e),
    )

pub make_room-Inv : (r : Reassembler) → Inv r → Inv (make_room r) × HasRoom (make_room r)
unfolding make_room
make_room-Inv r v = elim (Bool-cases (leb max_in_flight_messages (length r.in_flight_order))) [
  | inl full ↦ rw full (evict_first-Inv r r.in_flight_order v refl (ground arith))
  | inr free ↦ rw free (v, ground arith)
]

fresh-Absent : (n : ℕ) (hs : List ℕ) → All (λ h. h < n) hs → Absent n hs
fresh-Absent n [] a = tt
fresh-Absent n (h ∷ hs) a = (omega arith, fresh-Absent n hs a.1)

All-lt-concat : (n : ℕ) (hs : List ℕ) → All (λ h. h < n) hs → All (λ h. h < suc n) (hs ++ n ∷ [])
All-lt-concat n [] a = (omega arith, tt)
All-lt-concat n (h ∷ hs) a = (omega arith, All-lt-concat n hs a.1)

new_message-IsOpen :
    (c : Chunk) (r : Reassembler)
    → c.chunk_index < c.chunk_count
    → c.chunk_count ≤ max_chunks
    → IsOpen (new_message c r)
unfolding new_message
new_message-IsOpen c r hi hn = record {
  slots = length-replicate c.chunk_count none;
  counted = sym (filled-replicate (List ℕ) c.chunk_count);
  partial = omega arith;
  few = hn;
}

pub open_message-Inv :
    (c : Chunk) (r : Reassembler)
    → Inv r
    → HasRoom r
    → get c.message_id r.in_flight ≡ none
    → c.chunk_index < c.chunk_count
    → c.chunk_count ≤ max_chunks
    → Inv (open_message c r)
unfolding open_message set_timer new_message
open_message-Inv c r v room gone hi hn =
    let unused = fresh-Absent r.timers.next (keys r.timers.armed) v.fresh in
    let appended = put-Absent r.timers.next c.message_id r.timers.armed unused in
    let handles = keys-put_new r.timers.next c.message_id r.timers.armed (get-Absent _ _ unused) in
    record {
      order = keys-put_new _ _ r.in_flight gone ∙ ap (λ o. o ++ c.message_id ∷ []) v.order;
      distinct =
          Distinct-concat c.message_id r.in_flight_order v.distinct
            (rw v.order at (Absent-keys c.message_id r.in_flight gone));
      bounded = omega (arith, length-append r.in_flight_order (c.message_id ∷ []));
      armed =
          appended
          ∙ ap (λ a. a ++ (r.timers.next, c.message_id) ∷ []) v.armed
          ∙ sym (timer_entries-put_new c.message_id (new_message c r) r.in_flight gone);
      handles = rw handles (Distinct-concat _ _ v.handles unused);
      fresh = rw handles (All-lt-concat _ _ v.fresh);
      entries =
          All-put IsOpen c.message_id (new_message c r) r.in_flight (new_message-IsOpen c r hi hn)
            v.entries;
    }

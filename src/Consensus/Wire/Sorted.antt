-- ===== src/Consensus/Wire/Sorted.antt =====
-- A record that was written as JSON with sorted keys, as `from_dict` of peerq/consensus.py reads it: its
-- clock lists the peers in ascending order.
use peer_q.Prelude.{
  suc, ◌≡◌, refl, ap, ◌∙◌, Str, Bytes, Option, none, some, [], ◌∷◌, arith, length, All, if_cases,
  less, str_ordered,
}
use peer_q.Prelude.Dict.{Dict}
use peer_q.Prelude.Sorted.{insert_item, sorted_items}
use peer_q.Errors.{ok}
use peer_q.Json.{obj, fetch}
use peer_q.Json.Sorted.{sort_keys, sort_fields, insert_field, sort_fields-clock_fields}
use peer_q.Consensus.Record.{TaskRecord}
use peer_q.Consensus.Wire.{str_or_none, hex_or_none, token_json, to_dict, from_dict}
use peer_q.Consensus.Wire.RoundTrip.{IsWire, from_dict-to_dict}

-- The record that is read back.
abbrev pub as_read : TaskRecord → TaskRecord
as_read r = record r { vector_clock = record { clock = sorted_items r.vector_clock.clock } }

module _ {V : Type 0} where
  length-insert_item : (e : Str × V) (d : Dict Str V) → length (insert_item e d) ≡ suc (length d)
  unfolding insert_item
  length-insert_item e [] = refl
  length-insert_item e (f ∷ fs) = ground (arith, length-insert_item e fs)

  length-sorted_items : (d : Dict Str V) → length (sorted_items d) ≡ length d
  unfolding sorted_items
  length-sorted_items [] = refl
  length-sorted_items (e ∷ es) =
      length-insert_item e (sorted_items es) ∙ ap suc (length-sorted_items es)

  All-insert_item :
      (P : Str × V → Type 0) (e : Str × V) (d : Dict Str V)
      → P e
      → All P d
      → All P (insert_item e d)
  unfolding insert_item
  All-insert_item P e [] h all = (h, tt)
  All-insert_item P e (f ∷ fs) h all =
      if_cases (All P) (less e.0 f.0) (λ _. (h, all)) (λ _. (all.0, All-insert_item P e fs h all.1))

  All-sorted_items : (P : Str × V → Type 0) (d : Dict Str V) → All P d → All P (sorted_items d)
  unfolding sorted_items
  All-sorted_items P [] h = tt
  All-sorted_items P (e ∷ es) h =
      All-insert_item P e (sorted_items es) h.0 (All-sorted_items P es h.1)

as_read-IsWire : (r : TaskRecord) → IsWire r → IsWire (as_read r)
as_read-IsWire r w = record {
  task_id = w.task_id;
  payload = w.payload;
  payload_size = w.payload_size;
  result = w.result;
  error = w.error;
  claimed_by = w.claimed_by;
  updated_by = w.updated_by;
  signer_id = w.signer_id;
  token = w.token;
  clock_size = ground (arith, length-sorted_items r.vector_clock.clock, w.clock_size);
  clock_peers = All-sorted_items _ r.vector_clock.clock w.clock_peers;
  clock_positive = All-sorted_items _ r.vector_clock.clock w.clock_positive;
  signature = w.signature;
}

sort_keys-str_or_none : (o : Option Str) → sort_keys (str_or_none o) ≡ str_or_none o
unfolding sort_keys
sort_keys-str_or_none none = refl
sort_keys-str_or_none (some s) = refl

sort_keys-hex_or_none : (o : Option Bytes) → sort_keys (hex_or_none o) ≡ hex_or_none o
unfolding sort_keys
sort_keys-hex_or_none none = refl
sort_keys-hex_or_none (some b) = refl

from_dict-sorted :
    (r : TaskRecord)
    → from_dict (obj (sort_fields (to_dict r))) ≡ from_dict (obj (to_dict (as_read r)))
unfolding from_dict to_dict fetch sort_fields insert_field token_json
from_dict-sorted r =
    rw
      (
        sort_keys-str_or_none r.error,
        sort_keys-str_or_none r.claimed_by,
        sort_keys-str_or_none r.signer_id,
        sort_keys-hex_or_none r.result,
        sort_keys-hex_or_none r.signature,
        sort_fields-clock_fields r.vector_clock.clock,
      )
      refl

-- A record within the limits, whose dict went through JSON with sorted keys, is read back with its
-- clock sorted.
pub from_dict-sort_fields :
    (r : TaskRecord) → IsWire r → from_dict (obj (sort_fields (to_dict r))) ≡ ok (as_read r)
from_dict-sort_fields r w = from_dict-sorted r ∙ from_dict-to_dict (as_read r) (as_read-IsWire r w)

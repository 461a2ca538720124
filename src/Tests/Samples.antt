-- ===== src/Tests/Samples.antt =====
-- Sample records, keys and a log entry, with a signature scheme and a codec that compute.
use peer_q.Prelude.{
  ℕ, zero, suc, ◌+◌, refl, Str, Bytes, true, false, Option, none, some, [], ◌∷◌, ◌++◌, ◌==◌,
  ==_self, str_ordered, codes,
}
use peer_q.Prelude.Int.{pos, negsuc}
use peer_q.Json.{
  Json, null, bool, int, float, str, arr, obj, Items, nil, cons, Fields, end, field, Codec,
}
use peer_q.Crypto.{Ed25519, PeerKeyRing}
use peer_q.Consensus.Record.{pending, claimed, done, TaskRecord, task_record}

abbrev sum : Bytes → ℕ
sum [] = 0
sum (b ∷ bs) = b + sum bs

abbrev pub zeros : ℕ → Bytes
zeros zero = []
zeros (suc n) = 0 ∷ zeros n

-- A signature that is a sum, so that a changed counter shows.
abbrev sum_sign : Bytes → Bytes → Bytes
sum_sign key message = (sum key + sum message) ∷ zeros 63

abbrev pub sum_ed : Ed25519
sum_ed = record {
  public_key = λ key. key;
  sign = sum_sign;
  verify = λ key signature message. signature == sum_sign key message;
  loads_key = λ _. true;
  verify-sign = λ key message. ==_self (sum_sign key message);
  length-sign = λ key message. refl;
}

abbrev mutual
  dump : Json → Bytes
  dump null = []
  dump (bool true) = 1 ∷ []
  dump (bool false) = 2 ∷ []
  dump (int (pos n)) = n ∷ []
  dump (int (negsuc n)) = 3 ∷ n ∷ []
  dump (float _) = 4 ∷ []
  dump (str s) = 5 ∷ s
  dump (arr items) = 6 ∷ dump_items items
  dump (obj fields) = 7 ∷ dump_fields fields

  dump_items : Items → Bytes
  dump_items nil = []
  dump_items (cons j rest) = dump j ++ dump_items rest

  dump_fields : Fields → Bytes
  dump_fields end = []
  dump_fields (field k v rest) = k ++ (dump v ++ dump_fields rest)

-- Reads back an object whose one value is null.
abbrev load : Bytes → Option Json
load [] = none
load (tag ∷ k) = some (obj (field k null end))

abbrev pub small_codec : Codec
small_codec = record { dumps = dump; loads = load; fixed6 = λ _. [] }

abbrev pub alice : Str
alice = codes "a"

abbrev pub bob : Str
bob = codes "b"

abbrev pub key_of_alice : Bytes
key_of_alice = 1 ∷ []

abbrev pub key_of_bob : Bytes
key_of_bob = 2 ∷ []

abbrev pub both_keys : PeerKeyRing
both_keys = (alice, key_of_alice) ∷ (bob, key_of_bob) ∷ []

abbrev pub submitted : TaskRecord
submitted = record (task_record (codes "t") pending (1 ∷ 2 ∷ [])) {
  vector_clock = record { clock = (bob, 1) ∷ [] };
  updated_by = bob;
}

abbrev pub claimed_by_bob : TaskRecord
claimed_by_bob = record submitted {
  state = claimed;
  claimed_by = some bob;
  fence_token = record { epoch = 1; peer_id = bob };
  lease_expiry = pos 5000000;
  vector_clock = record { clock = (bob, 2) ∷ [] };
}

abbrev pub finished : TaskRecord
finished = record submitted {
  state = done;
  result = some (7 ∷ []);
  claimed_by = some alice;
  fence_token = record { epoch = 1; peer_id = alice };
  vector_clock = record { clock = (alice, 2) ∷ (bob, 1) ∷ [] };
  updated_by = alice;
}

-- ===== src/Consensus/Record.antt =====
-- `TaskState`, `FenceToken` and `TaskRecord` of peerq/consensus.py. A lease is a time in
-- microseconds; bytes and texts are lists of numbers.
use peer_q.Prelude.{ℕ, ◌+◌, Str, Bytes, Bool, true, false, Option, none, [], codes}
use peer_q.Prelude.Int.{ℤ, pos}
use peer_q.Consensus.Clock.{VectorClock}

pub data TaskState : Type 0 where
  pending claimed running done failed : TaskState

unfoldable pub is_terminal : TaskState → Bool
is_terminal done = true
is_terminal failed = true
is_terminal _ = false

unfoldable pub lattice_rank : TaskState → ℕ
lattice_rank pending = 0
lattice_rank claimed = 1
lattice_rank running = 2
lattice_rank failed = 3
lattice_rank done = 4

-- `state.value`
abbrev pub state_value : TaskState → Str
state_value pending = codes "pending"
state_value claimed = codes "claimed"
state_value running = codes "running"
state_value done = codes "done"
state_value failed = codes "failed"

pub record FenceToken : Type 0 where
  pub epoch : ℕ
  pub peer_id : Str

unfoldable pub next_for : FenceToken → Str → FenceToken
next_for self peer_id = record { epoch = self.epoch + 1; peer_id = peer_id }

pub record TaskRecord : Type 0 where
  pub task_id : Str
  pub state : TaskState
  pub payload : Bytes
  pub result : Option Bytes
  pub error : Option Str
  pub claimed_by : Option Str
  pub fence_token : FenceToken
  pub lease_expiry : ℤ
  pub vector_clock : VectorClock
  pub updated_by : Str
  pub signature : Option Bytes
  pub signer_id : Option Str

-- `TaskRecord(task_id, state, payload)` with the defaults of the other fields.
abbrev pub task_record : Str → TaskState → Bytes → TaskRecord
task_record task_id state payload = record {
  task_id = task_id;
  state = state;
  payload = payload;
  result = none;
  error = none;
  claimed_by = none;
  fence_token = record { epoch = 0; peer_id = [] };
  lease_expiry = pos 0;
  vector_clock = record { clock = [] };
  updated_by = [];
  signature = none;
  signer_id = none;
}

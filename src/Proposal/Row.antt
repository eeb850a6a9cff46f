-- ===== src/Proposal/Row.antt =====
-- What a proposal, a tap and its outcome are, and what performs the writes. A UUID is the number
-- that it encodes.
use recall_ai.Base.{ℕ, String, Bool, Option, List}

pub data Action : Type 0 where
  note retry delete connect answer : Action

-- `args` holds each key once.
pub record Proposal : Type 0 where
  pub user_id : ℕ
  pub action : Action
  pub args : List (String × String)

pub data Relation : Type 0 where
  related_to duplicate_of expands supports contradicts : Relation
  inspired_by depends_on example_of part_of : Relation

pub data Tap : Type 0 where
  accept decline answer : Tap

pub record Callback : Type 0 where
  pub kind : Tap
  pub token : String

-- The replies of app/services/telegram/formatting.py, by the function that renders each.
pub data Reply : Type 0 where
  proposal_expired proposal_declined connected deleted failed : Reply
  note_saved : ℕ → Reply
  saving : ℕ → Reply
  escape : String → Reply

pub record Outcome : Type 0 where
  pub reply : Option Reply
  pub enqueue_item_ids : List ℕ
  pub reroute_text : Option String

-- What `VaultService.reprocess` returns or raises.
pub data Reprocess : Type 0 where
  reprocessed : ℕ → Reprocess
  item_not_found : Reprocess
  reprocess_error : String → Reprocess

-- The services that write, over the state `W` that they keep. `connect` answers false where it
-- raises `LookupError`, and is absent where no service is wired up.
pub record Services (W : Type 0) : Type 0 where
  pub capture_note : ℕ → String → W → Option ℕ × W
  pub reprocess : ℕ → ℕ → W → Reprocess × W
  pub delete : ℕ → ℕ → W → Bool × W
  pub connect : Option (ℕ → ℕ → ℕ → Relation → W → Bool × W)

-- `json.loads` of a payload: what it holds as text under the three keys.
pub record Payload : Type 0 where
  pub user_id : Option String
  pub action : Option String
  pub args : List (String × String)

-- Code of other packages: `json`, `uuid` and `hashlib`.
pub record Codec : Type 0 where
  pub dumps : Payload → String
  pub loads : String → Option Payload
  pub uuid_text : ℕ → String
  pub uuid_parse : String → Option ℕ
  pub sha256_hex : String → String

-- ===== src/Proposal/Store.antt =====
-- `RedisProposalStore` of app/services/chat_engine/proposals.py. A command that fails is modelled as
-- one that did not reach the server.
use recall_ai.Base.{
  ℕ, String, Bool, not, Option, none, some, List, str_eq, ◌==◌, if◌then◌else◌, text_append,
}
use recall_ai.Redis.{Redis}
use recall_ai.Proposal.Row.{Action, note, retry, delete, connect, answer, Proposal, Payload, Codec}

unfoldable pub action_text : Action → String
action_text note = "note"
action_text retry = "retry"
action_text delete = "delete"
action_text connect = "connect"
action_text answer = "answer"

-- `Action(value)`, which raises for any other text.
unfoldable pub action_of : String → Option Action
action_of s =
    if str_eq s "note"
    then some note
    else if str_eq s "retry"
    then some retry
    else if str_eq s "delete"
    then some delete
    else if str_eq s "connect"
    then some connect
    else if str_eq s "answer"
    then some answer
    else none

-- `_key`.
unfoldable pub proposal_key : Codec → String → String
proposal_key c token = text_append "proposal:" (c.sha256_hex token)

unfoldable pub payload : Codec → Proposal → Payload
payload c p = record {
  user_id = some (c.uuid_text p.user_id);
  action = some (action_text p.action);
  args = p.args;
}

-- What one call draws: the server's time, whether the server answers, and `token_urlsafe(32)`.
pub record Draw : Type 0 where
  pub now : ℕ
  pub is_up : Bool
  pub token : String

unfoldable pub both : Option ℕ → Option Action → List (String × String) → Option Proposal
both (some user) (some action) args = some (record { user_id = user; action = action; args = args })
both (some user) none args = none
both none action args = none

abbrev pub parsed {ℓ} : {A : Type ℓ} → (String → Option A) → Option String → Option A
parsed f none = none
parsed f (some s) = f s

unfoldable pub decode_payload : Codec → Option Payload → Option Proposal
unfolding both action_of
decode_payload c none = none
decode_payload c (some p) = both (parsed c.uuid_parse p.user_id) (parsed action_of p.action) p.args

-- `_decode`, of what GETDEL returned.
unfoldable pub decode : Codec → Option String → Option Proposal
unfolding decode_payload
decode c none = none
decode c (some raw) = decode_payload c (c.loads raw)

unfoldable pub of_user : ℕ → Option Proposal → Option Proposal
of_user user_id none = none
of_user user_id (some p) = if not (p.user_id == user_id) then none else some p

module _ (redis : Redis) (c : Codec) where
  unfoldable pub mint : ℕ → Draw → Proposal → redis.Store → Option String × redis.Store
  unfolding payload proposal_key
  mint ttl d p s =
      if d.is_up
      then (some d.token, redis.set d.now (proposal_key c d.token) (c.dumps (payload c p)) ttl s)
      else (none, s)

  unfoldable pub spend : Draw → String → ℕ → redis.Store → Option Proposal × redis.Store
  unfolding proposal_key decode of_user
  spend d token user_id s =
      if str_eq token ""
      then (none, s)
      else if not d.is_up
      then (none, s)
      else let taken = redis.getdel d.now (proposal_key c token) s in
        (of_user user_id (decode c taken.0), taken.1)

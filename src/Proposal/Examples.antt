-- ===== src/Proposal/Examples.antt =====
-- A concrete server and a concrete proposal, and each theorem at one of them.
use recall_ai.Base.{
  ℕ, ◌+◌, String, true, Option, none, some, List, [], ◌∷◌, ◌≡◌, ◌≢◌, ◌⊎◌, refl, arith, str_eq,
  eq_refl, ltb, if◌then◌else◌, text_append,
}
use recall_ai.Redis.{Redis, IsGetdel}
use recall_ai.Proposal.Row.{
  Action, note, retry, delete, connect, answer, Proposal, Tap, Outcome, accept, decline, Callback,
  proposal_expired, proposal_declined, reprocessed, Services, Payload, Codec,
}
use recall_ai.Proposal.Store.{Draw, mint, payload, spend}
use recall_ai.Proposal.Confirm.{replies, execute}
use recall_ai.Proposal.Provenance.{Words, from_user_turn}
use recall_ai.Proposal.Once.{execute_once, execute_authorised}
use recall_ai.Proposal.Effects.{
  arg_of, relation_named, note_effect, retry_effect, delete_effect, connect_effect, offered, named,
  tap_minted, mint-execute,
}

-- A key's value, and when it expires.
abbrev Table : Type 0
Table = String → Option (String × ℕ)

abbrev live_value : ℕ → Option (String × ℕ) → Option String
live_value now none = none
live_value now (some x) = if ltb now x.1 then some x.0 else none

abbrev server : Redis
server = record {
  Store = Table;
  set = λ now key value seconds s k. if str_eq k key then some (value, now + seconds) else s k;
  getdel = λ now key s. (live_value now (s key), λ k. if str_eq k key then none else s k);
}

server-IsGetdel : IsGetdel server
server-IsGetdel = record {
  takes = λ now later key s le. rw (eq_refl key) refl;
  keeps = λ now later key value seconds s le soon.
      let young : ltb later (now + seconds) ≡ true = ground (arith, soon) in
      rw (eq_refl key) (rw young refl);
}

-- User 1 may delete memory 9.
abbrev offer : Proposal
offer = record { user_id = 1; action = delete; args = ("memory_id", "nine") ∷ [] }

abbrev offer_payload : Payload
offer_payload = record {
  user_id = some "one";
  action = some "delete";
  args = ("memory_id", "nine") ∷ [];
}

abbrev codec : Codec
codec = record {
  dumps = λ p. elim p.action [ none ↦ "" | some t ↦ t ];
  loads = λ s. some (record offer_payload { action = some s });
  uuid_text = λ n. if ltb n 2 then "one" else "nine";
  uuid_parse = λ s. if str_eq s "one" then some 1 else if str_eq s "nine" then some 9 else none;
  sha256_hex = text_append "#";
}

-- The services keep the list of deleted memories.
abbrev trash : Services (List ℕ)
trash = record {
  capture_note = λ user_id text w. (none, w);
  reprocess = λ item_id user_id w. (reprocessed item_id, w);
  delete = λ item_id user_id w. (true, item_id ∷ w);
  connect = none;
}

abbrev nothing : Table
nothing key = none

abbrev minting : Draw
minting = record { now = 50; is_up = true; token = "abc" }

abbrev tapping : Draw
tapping = record { now = 60; is_up = true; token = "" }

abbrev minted : Table
minted = (mint server codec 600 minting offer nothing).1

abbrev yes : Callback
yes = record { kind = accept; token = "abc" }

tap_deletes : (execute server codec trash tapping yes 1 minted []).1.1 ≡ 9 ∷ []
unfolding execute mint text_append recall_ai.Proposal.Store.action_text
tap_deletes = refl

execute_once_example :
    let s' = (execute server codec trash tapping yes 1 minted []).1.0 in
    ((execute server codec trash tapping yes 1 s' (9 ∷ [])).0 ≡ replies proposal_expired)
    × ((execute server codec trash tapping yes 1 s' (9 ∷ [])).1.1 ≡ 9 ∷ [])
execute_once_example =
    execute_once server codec trash server-IsGetdel tapping tapping yes yes 1 1 minted [] (9 ∷ [])
      refl (omega arith) refl

execute_authorised_example :
    ((execute server codec trash tapping yes 1 minted []).1.1 ≡ [])
    ⊎ ((p : Proposal) × ((spend server codec tapping "abc" 1 minted).0 ≡ some p)
        × (p.user_id ≡ 1)
        × (accept ≢ decline)
        × (p.action ≢ answer))
execute_authorised_example = execute_authorised server codec trash tapping yes 1 minted []

abbrev arguments : List (String × String)
arguments = ("memory_id", "nine") ∷ []

reads_back :
    (a : Action)
    → codec.loads (codec.dumps (payload codec (offered codec trash 1 arguments [] a)))
      ≡ some (payload codec (offered codec trash 1 arguments [] a))
unfolding payload
reads_back a = refl

abbrev reply_to : Tap → Action → Outcome × List ℕ
reply_to = tap_minted codec trash 1 arguments [] server 600 minting tapping nothing

mint-execute_example :
    ((a : Action) → reply_to decline a ≡ (replies proposal_declined, []))
    × (reply_to accept note ≡ note_effect trash 1 [] (arg_of "text" "" arguments))
    × (reply_to accept retry
        ≡ retry_effect trash 1 [] (named codec trash 1 arguments [] "memory_id"))
    × (reply_to accept delete
        ≡ delete_effect trash 1 [] (named codec trash 1 arguments [] "memory_id"))
    × (reply_to accept connect
        ≡ connect_effect trash 1 []
            (relation_named (arg_of "relation" "related_to" arguments))
            (named codec trash 1 arguments [] "source_id")
            (named codec trash 1 arguments [] "target_id"))
    × (reply_to accept answer ≡ (
      record {
        reply = none;
        enqueue_item_ids = [];
        reroute_text = some (arg_of "text" "" arguments);
      },
      [],
    ))
mint-execute_example =
    mint-execute codec trash 1 arguments [] server 600 minting tapping nothing server-IsGetdel
      accept (λ e. absurd (cc)) refl refl refl (omega arith) (omega arith) reads_back refl

abbrev whole : Words
whole = record { split = λ s. s ∷ []; lower = λ s. s }

quoted : from_user_turn whole "buy milk" "note: buy milk today" ≡ true
unfolding from_user_turn
quoted = refl

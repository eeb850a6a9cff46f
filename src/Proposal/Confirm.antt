-- ===== src/Proposal/Confirm.antt =====
-- `execute` of app/services/telegram/confirm.py: what a tap does, over the proposal store and the
-- state of the services that write.
use recall_ai.Base.{
  ℕ, String, Bool, true, false, Option, none, some, List, [], ◌∷◌, str_eq, if◌then◌else◌,
}
use recall_ai.Redis.{Redis}
use recall_ai.Proposal.Row.{
  Action, note, retry, delete, connect, answer, Proposal, Relation, related_to, duplicate_of,
  expands, supports, contradicts, inspired_by, depends_on, example_of, part_of, Tap, decline,
  Callback, Reply, proposal_expired, proposal_declined, connected, deleted, failed, note_saved,
  saving, escape, Outcome, Reprocess, reprocessed, item_not_found, reprocess_error, Services, Codec,
}
use recall_ai.Proposal.Store.{Draw, spend}

abbrev pub replies : Reply → Outcome
replies r = record { reply = some r; enqueue_item_ids = []; reroute_text = none }

-- `args.get(key, default)`.
unfoldable pub get_arg : String → String → List (String × String) → String
get_arg key default [] = default
get_arg key default (x ∷ args) =
    let rest = get_arg key default args in if str_eq x.0 key then x.1 else rest

-- `Relation(value)`, read as `related_to` for any other text.
unfoldable pub relation_of : String → Relation
relation_of s =
    if str_eq s "duplicate_of"
    then duplicate_of
    else if str_eq s "expands"
    then expands
    else if str_eq s "supports"
    then supports
    else if str_eq s "contradicts"
    then contradicts
    else if str_eq s "inspired_by"
    then inspired_by
    else if str_eq s "depends_on"
    then depends_on
    else if str_eq s "example_of"
    then example_of
    else if str_eq s "part_of"
    then part_of
    else related_to

abbrev pub is_decline : Tap → Bool
is_decline decline = true
is_decline _ = false

module _ {W : Type 0} where
  unfoldable pub saved_note : Option ℕ × W → Outcome × W
  saved_note (none, w) = (replies failed, w)
  saved_note (some item, w) = (
    record { reply = some (note_saved item); enqueue_item_ids = item ∷ []; reroute_text = none },
    w,
  )

  unfoldable pub connect_ids :
      (ℕ → ℕ → ℕ → Relation → W → Bool × W) → ℕ → Relation → Option ℕ → Option ℕ → W → Outcome × W
  connect_ids call user_id relation (some source_id) (some target_id) w =
      let out = call user_id source_id target_id relation w in
      (if out.0 then replies connected else replies proposal_expired, out.1)
  connect_ids call user_id relation (some source_id) none w = (replies proposal_expired, w)
  connect_ids call user_id relation none target_id w = (replies proposal_expired, w)

  unfoldable pub connect_call :
      Codec → Option (ℕ → ℕ → ℕ → Relation → W → Bool × W) → Proposal → ℕ → W → Outcome × W
  unfolding connect_ids get_arg relation_of
  connect_call c none p user_id w = (replies proposal_expired, w)
  connect_call c (some call) p user_id w =
      connect_ids call user_id (relation_of (get_arg "relation" "related_to" p.args))
        (c.uuid_parse (get_arg "source_id" "" p.args))
        (c.uuid_parse (get_arg "target_id" "" p.args)) w

  unfoldable pub reprocess_reply : Reprocess × W → Outcome × W
  reprocess_reply (reprocessed item, w) = (replies (saving item), w)
  reprocess_reply (item_not_found, w) = (replies proposal_expired, w)
  reprocess_reply (reprocess_error message, w) = (replies (escape message), w)

  unfoldable pub retry_id : Services W → Option ℕ → ℕ → W → Outcome × W
  unfolding reprocess_reply
  retry_id services none user_id w = (replies proposal_expired, w)
  retry_id services (some item_id) user_id w =
      reprocess_reply (services.reprocess item_id user_id w)

  unfoldable pub delete_id : Services W → Option ℕ → ℕ → W → Outcome × W
  delete_id services none user_id w = (replies proposal_expired, w)
  delete_id services (some item_id) user_id w =
      let out = services.delete item_id user_id w in
      (if out.0 then replies deleted else replies proposal_expired, out.1)

  -- What an accepted proposal does, by its action.
  unfoldable pub perform : Codec → Services W → Action → Proposal → ℕ → W → Outcome × W
  unfolding get_arg saved_note connect_call retry_id delete_id
  perform c services answer p user_id w = (
    record { reply = none; enqueue_item_ids = []; reroute_text = some (get_arg "text" "" p.args) },
    w,
  )
  perform c services note p user_id w =
      saved_note (services.capture_note user_id (get_arg "text" "" p.args) w)
  perform c services retry p user_id w =
      retry_id services (c.uuid_parse (get_arg "memory_id" "" p.args)) user_id w
  perform c services delete p user_id w =
      delete_id services (c.uuid_parse (get_arg "memory_id" "" p.args)) user_id w
  perform c services connect p user_id w = connect_call c (services.connect) p user_id w

  -- The proposal that was spent, if any.
  unfoldable pub tapped : Codec → Services W → Tap → Option Proposal → ℕ → W → Outcome × W
  unfolding perform
  tapped c services kind none user_id w = (replies proposal_expired, w)
  tapped c services kind (some p) user_id w =
      if is_decline kind
      then (replies proposal_declined, w)
      else perform c services p.action p user_id w

module _ (redis : Redis) (c : Codec) {W : Type 0} (services : Services W) where
  unfoldable pub execute : Draw → Callback → ℕ → redis.Store → W → Outcome × (redis.Store × W)
  unfolding spend tapped
  execute d tap user_id s w =
      let spent = spend redis c d tap.token user_id s in
      let out = tapped c services tap.kind spent.0 user_id w in (out.0, (spent.1, out.1))

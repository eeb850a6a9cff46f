-- ===== src/Proposal/Effects.antt =====
-- What an accepted proposal does, action by action: `execute` of app/services/telegram/confirm.py beside
-- a description of each effect by the services that it calls.
use recall_ai.Base.{
  ℕ, ◌+◌, ◌≤◌, ◌<◌, String, Bool, true, false, Option, none, some, List, [], ◌∷◌, ◌≡◌, ◌≢◌, refl,
  sym, ap, ◌∙◌, str_eq, find_first, if◌then◌else◌,
}
use recall_ai.Redis.{Redis, IsGetdel}
use recall_ai.Proposal.Row.{
  Action, note, retry, delete, connect, answer, Proposal, Relation, related_to, duplicate_of,
  expands, supports, contradicts, inspired_by, depends_on, example_of, part_of, Tap, accept,
  decline, Callback, Reply, proposal_expired, proposal_declined, connected, deleted, failed,
  note_saved, saving, escape, Outcome, Reprocess, reprocessed, item_not_found, reprocess_error,
  Services, Codec,
}
use recall_ai.Proposal.Store.{payload, Draw, mint}
use recall_ai.Proposal.Confirm.{
  replies, get_arg, relation_of, saved_note, connect_ids, connect_call, reprocess_reply, retry_id,
  delete_id, perform, tapped, execute,
}
use recall_ai.Proposal.Once.{mint-tapped}

abbrev pub value_or {ℓ} : {A : Type ℓ} → A → Option (String × A) → A
value_or default none = default
value_or default (some x) = x.1

value_or-if {ℓ} :
    {A : Type ℓ} (default : A) (b : Bool) (x : String × A) (o : Option (String × A))
    → value_or default (if b then some x else o) ≡ (if b then x.1 else value_or default o)
value_or-if default true x o = refl
value_or-if default false x o = refl

-- The value of the first entry under a key, or the default.
abbrev pub arg_of : String → String → List (String × String) → String
arg_of key default args = value_or default (find_first (λ x. str_eq x.0 key) args)

get_arg_lem :
    (key default : String) (args : List (String × String))
    → get_arg key default args ≡ arg_of key default args
unfolding get_arg find_first
get_arg_lem key default [] = refl
get_arg_lem key default (x ∷ args) =
    let rest = get_arg_lem key default args in
    rw rest (sym (value_or-if default (str_eq x.0 key) x _))

-- The names that are read as a relation.
abbrev relation_names : List (String × Relation)
relation_names =
    ("duplicate_of", duplicate_of)
    ∷ ("expands", expands)
    ∷ ("supports", supports)
    ∷ ("contradicts", contradicts)
    ∷ ("inspired_by", inspired_by)
    ∷ ("depends_on", depends_on)
    ∷ ("example_of", example_of)
    ∷ ("part_of", part_of)
    ∷ []

abbrev pub relation_named : String → Relation
relation_named s = value_or related_to (find_first (λ x. str_eq s x.0) relation_names)

relation_of_lem : (s : String) → relation_of s ≡ relation_named s
unfolding relation_of find_first
relation_of_lem s = simp (value_or-if)

-- What each action calls, with what the arguments hold: a memory, or the two ends of an edge, is none
-- where the text is no id.
module _ {W : Type 0} (services : Services W) (user_id : ℕ) (w : W) where
  abbrev pub expired : Outcome × W
  expired = (replies proposal_expired, w)

  abbrev pub note_effect : String → Outcome × W
  note_effect text =
      let out = services.capture_note user_id text w in
      (
        elim out.0 [
          | none ↦ replies failed
          | some item ↦ record {
            reply = some (note_saved item);
            enqueue_item_ids = item ∷ [];
            reroute_text = none;
          }
        ],
        out.1,
      )

  abbrev pub retry_effect : Option ℕ → Outcome × W
  retry_effect none = expired
  retry_effect (some item) =
      let out = services.reprocess item user_id w in
      (
        elim out.0 [
          | reprocessed i ↦ replies (saving i)
          | item_not_found ↦ replies proposal_expired
          | reprocess_error message ↦ replies (escape message)
        ],
        out.1,
      )

  abbrev pub delete_effect : Option ℕ → Outcome × W
  delete_effect none = expired
  delete_effect (some item) =
      let out = services.delete item user_id w in
      (replies (if out.0 then deleted else proposal_expired), out.1)

  -- Nothing where no service is wired up.
  abbrev pub connect_effect : Relation → Option ℕ → Option ℕ → Outcome × W
  connect_effect relation (some source) (some target) = elim services.connect [
    | none ↦ expired
    | some call ↦
        let out = call user_id source target relation w in
        (replies (if out.0 then connected else proposal_expired), out.1)
  ]
  connect_effect relation none target = expired
  connect_effect relation (some source) none = expired

  if_replies :
      (b : Bool) (r s : Reply) → (if b then replies r else replies s) ≡ replies (if b then r else s)
  if_replies true r s = refl
  if_replies false r s = refl

  delete_id_lem : (o : Option ℕ) → delete_id services o user_id w ≡ delete_effect o
  unfolding delete_id
  delete_id_lem none = refl
  delete_id_lem (some item) =
      let out = services.delete item user_id w in
      ap (λ r. (r, out.1)) (if_replies out.0 deleted proposal_expired)

  retry_id_lem : (o : Option ℕ) → retry_id services o user_id w ≡ retry_effect o
  unfolding retry_id
  retry_id_lem none = refl
  retry_id_lem (some item) = by_answer (services.reprocess item user_id w)
    where
      by_answer :
          (out : Reprocess × W)
          → reprocess_reply out ≡ (
            elim out.0 [
              | reprocessed i ↦ replies (saving i)
              | item_not_found ↦ replies proposal_expired
              | reprocess_error message ↦ replies (escape message)
            ],
            out.1,
          )
      by_answer (reprocessed i, w') = refl
      by_answer (item_not_found, w') = refl
      by_answer (reprocess_error message, w') = refl

  saved_note_lem :
      (text : String) → saved_note (services.capture_note user_id text w) ≡ note_effect text
  unfolding saved_note
  saved_note_lem text = by_answer (services.capture_note user_id text w)
    where
      by_answer :
          (out : Option ℕ × W)
          → saved_note out ≡ (
            elim out.0 [
              | none ↦ replies failed
              | some item ↦ record {
                reply = some (note_saved item);
                enqueue_item_ids = item ∷ [];
                reroute_text = none;
              }
            ],
            out.1,
          )
      by_answer (none, w') = refl
      by_answer (some item, w') = refl

  connect_ids_lem :
      (wired : Option (ℕ → ℕ → ℕ → Relation → W → Bool × W)) (relation : Relation)
      (source target : Option ℕ)
      → services.connect ≡ wired
      → elim wired [
        | none ↦ expired
        | some call ↦ connect_ids call user_id relation source target w
      ]
        ≡ connect_effect relation source target
  unfolding connect_ids
  connect_ids_lem none relation none target e = refl
  connect_ids_lem none relation (some source) none e = refl
  connect_ids_lem none relation (some source) (some target) e = rw e refl
  connect_ids_lem (some call) relation none target e = refl
  connect_ids_lem (some call) relation (some source) none e = refl
  connect_ids_lem (some call) relation (some source) (some target) e = rw e (
      ap (λ r. (r, (call user_id source target relation w).1))
        (if_replies (call user_id source target relation w).0 connected proposal_expired))

module _ (c : Codec) {W : Type 0} (services : Services W) (user_id : ℕ)
    (args : List (String × String)) (w : W) where
  abbrev pub offered : Action → Proposal
  offered a = record { user_id = user_id; action = a; args = args }

  -- The memory that a key names.
  abbrev pub named : String → Option ℕ
  named key = c.uuid_parse (arg_of key "" args)

  abbrev done : Action → Outcome × W
  done a = perform c services a (offered a) user_id w

  connect_call_lem :
      (wired : Option (ℕ → ℕ → ℕ → Relation → W → Bool × W))
      → services.connect ≡ wired
      → connect_call c wired (offered connect) user_id w
        ≡ connect_effect services user_id w
            (relation_named (arg_of "relation" "related_to" args))
            (named "source_id")
            (named "target_id")
  unfolding connect_call
  connect_call_lem none e =
      connect_ids_lem services user_id w none (relation_named (arg_of "relation" "related_to" args))
        (named "source_id") (named "target_id") e
  connect_call_lem (some call) e = rw (get_arg_lem "relation" "related_to" args) (
      rw (get_arg_lem "source_id" "" args) (
        rw (get_arg_lem "target_id" "" args) (
          rw (relation_of_lem (arg_of "relation" "related_to" args)) (
            connect_ids_lem services user_id w (some call)
              (relation_named (arg_of "relation" "related_to" args)) (named "source_id")
              (named "target_id") e))))

  done-Effect :
      (done note ≡ note_effect services user_id w (arg_of "text" "" args))
      × (done retry ≡ retry_effect services user_id w (named "memory_id"))
      × (done delete ≡ delete_effect services user_id w (named "memory_id"))
      × (done connect
          ≡ connect_effect services user_id w
              (relation_named (arg_of "relation" "related_to" args))
              (named "source_id")
              (named "target_id"))
      × (done answer ≡ (
        record { reply = none; enqueue_item_ids = []; reroute_text = some (arg_of "text" "" args) },
        w,
      ))
  unfolding perform
  done-Effect = (
    rw (get_arg_lem "text" "" args) (saved_note_lem services user_id w (arg_of "text" "" args)),
    rw (get_arg_lem "memory_id" "" args) (retry_id_lem services user_id w (named "memory_id")),
    rw (get_arg_lem "memory_id" "" args) (delete_id_lem services user_id w (named "memory_id")),
    connect_call_lem (services.connect) refl,
    rw (get_arg_lem "text" "" args) refl,
  )

  module _ (redis : Redis) (ttl : ℕ) (d d' : Draw) (s : redis.Store) where
    -- What the user gets who taps a proposal that was minted for them, and what it leaves of the
    -- services.
    abbrev pub tap_minted : Tap → Action → Outcome × W
    tap_minted kind a =
        let s' = (mint redis c ttl d (offered a) s).1 in
        let tap : Callback = record { kind = kind; token = d.token } in
        let out = execute redis c services d' tap user_id s' w in (out.0, out.1.1)

    -- A proposal that was minted and is tapped by its own user before it expires makes the one call
    -- that its action names, with what its arguments hold, and answers by what the call returned: a
    -- note saves the text, a retry and a delete go to the memory named, an edge is drawn between the
    -- two ends named with the relation named, and an answer is handed on as the person's own text.
    -- Where an argument is no id, or no service draws edges, it counts as expired and nothing
    -- changes. A declined proposal changes nothing. The server answers both calls, the token is not
    -- empty, and `json` and `uuid` read back what they wrote.
    pub mint-execute :
        IsGetdel redis
        → (kind : Tap) → kind ≢ decline
        → d.is_up ≡ true
        → d'.is_up ≡ true
        → str_eq d.token "" ≡ false
        → d.now ≤ d'.now
        → d'.now < d.now + ttl
        → ((a : Action) → c.loads (c.dumps (payload c (offered a))) ≡ some (payload c (offered a)))
        → c.uuid_parse (c.uuid_text user_id) ≡ some user_id
        → ((a : Action) → tap_minted decline a ≡ (replies proposal_declined, w))
          × (tap_minted kind note ≡ note_effect services user_id w (arg_of "text" "" args))
          × (tap_minted kind retry ≡ retry_effect services user_id w (named "memory_id"))
          × (tap_minted kind delete ≡ delete_effect services user_id w (named "memory_id"))
          × (tap_minted kind connect
              ≡ connect_effect services user_id w
                  (relation_named (arg_of "relation" "related_to" args))
                  (named "source_id")
                  (named "target_id"))
          × (tap_minted kind answer ≡ (
            record {
              reply = none;
              enqueue_item_ids = [];
              reroute_text = some (arg_of "text" "" args);
            },
            w,
          ))
    mint-execute laws kind chosen up up' long le soon json uuid =
        let reached : (k : Tap) (a : Action)
            → tap_minted k a ≡ tapped c services k (some (offered a)) user_id w =
          λ k a.
            mint-tapped redis c services laws d d' (offered a) k ttl s w up up' long le soon
              (json a) uuid in
        let taken : (a : Action) → tap_minted kind a ≡ done a =
          λ a. reached kind a ∙ not_declined kind (offered a) chosen in
        let effects = done-Effect in
        (
          λ a. reached decline a ∙ unfold tapped in refl,
          taken note ∙ effects.0,
          taken retry ∙ effects.1,
          taken delete ∙ effects.2,
          taken connect ∙ effects.3,
          taken answer ∙ effects.4,
        )
      where
        not_declined :
            (k : Tap) (p : Proposal)
            → k ≢ decline
            → tapped c services k (some p) user_id w ≡ perform c services p.action p user_id w
        not_declined decline p n = absurd (n refl)
        not_declined accept p n = unfold tapped in refl
        not_declined Tap.answer p n = unfold tapped in refl

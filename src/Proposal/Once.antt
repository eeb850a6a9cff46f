-- ===== src/Proposal/Once.antt =====
-- What a tap may do: nothing that a minted proposal of the same person does not authorise, and that
-- once.
use recall_ai.Base.{
  ℕ, ◌+◌, ◌≤◌, ◌<◌, String, true, false, Option, none, some, some-injective, ◌≡◌, ◌≢◌, ◌⊎◌, refl,
  sym, ap, ◌∙◌, str_eq, ◌==◌, ==_iff, ==_refl, inl, inr, Bool-cases, Option-cases,
}
use recall_ai.Redis.{Redis, IsGetdel}
use recall_ai.Proposal.Row.{
  Action, note, retry, delete, connect, answer, Proposal, Tap, accept, decline, Callback,
  proposal_expired, Services, Codec,
}
use recall_ai.Proposal.Store.{
  action_text, action_of, proposal_key, payload, Draw, both, decode_payload, decode, of_user, mint,
  spend,
}
use recall_ai.Proposal.Confirm.{replies, perform, tapped, execute}

action_round_trip : (a : Action) → action_of (action_text a) ≡ some a
unfolding action_of action_text
action_round_trip note = refl
action_round_trip retry = refl
action_round_trip delete = refl
action_round_trip connect = refl
action_round_trip answer = refl

of_user_own :
    (user_id : ℕ) (o : Option Proposal) {p : Proposal}
    → of_user user_id o ≡ some p
    → p.user_id ≡ user_id
unfolding of_user
of_user_own user_id none e = absurd (cc)
of_user_own user_id (some q) {p} e = elim (Bool-cases (q.user_id == user_id)) [
  | inl m ↦
      let same : q ≡ p = some-injective _ _ (rw m at e) in
      ap (λ (x : Proposal). x.user_id) (sym same) ∙ (==_iff _ _).0 m
  | inr m ↦ absurd (cc (rw m at e))
]

-- Only an offered answer is performed without the services.
perform_reads :
    {W : Type 0} (c : Codec) (services : Services W) (a : Action) (p : Proposal) (user_id : ℕ)
    (w : W)
    → ((perform c services a p user_id w).1 ≡ w) ⊎ (a ≢ answer)
perform_reads c services answer p user_id w = inl (unfold perform in refl)
perform_reads c services note p user_id w = inr (λ h. absurd (cc))
perform_reads c services retry p user_id w = inr (λ h. absurd (cc))
perform_reads c services delete p user_id w = inr (λ h. absurd (cc))
perform_reads c services connect p user_id w = inr (λ h. absurd (cc))

module _ (redis : Redis) (c : Codec) where
  -- Whoever spends gets a proposal of their own only.
  spend_own :
      (d : Draw) (token : String) (user_id : ℕ) (s : redis.Store) {p : Proposal}
      → (spend redis c d token user_id s).0 ≡ some p
      → p.user_id ≡ user_id
  unfolding spend
  spend_own d token user_id s {p} e = elim (Bool-cases (str_eq token "")) [
    | inl t ↦ absurd (cc (rw t at e))
    | inr t ↦ elim (Bool-cases d.is_up) [
      | inl u ↦ of_user_own user_id _ (rw (t, u) at e)
      | inr u ↦ absurd (cc (rw (t, u) at e))
    ]
  ]

  -- A spent token is not there again.
  spend_again :
      (laws : IsGetdel redis) (d d' : Draw) (token : String) (u v : ℕ) (s : redis.Store)
      → d.is_up ≡ true
      → d.now ≤ d'.now
      → (spend redis c d' token v (spend redis c d token u s).1).0 ≡ none
  unfolding spend
  spend_again laws d d' token u v s up le = elim (Bool-cases (str_eq token "")) [
    | inl t ↦ rw t refl
    | inr t ↦ elim (Bool-cases d'.is_up) [
      | inl up' ↦
          rw (t, up)
            (rw up' (
              rw (laws.takes d.now d'.now (proposal_key c token) s le)
                (unfold decode of_user in refl)))
      | inr up' ↦ rw (t, up') refl
    ]
  ]

  decode-dumps :
      (p : Proposal)
      → c.loads (c.dumps (payload c p)) ≡ some (payload c p)
      → c.uuid_parse (c.uuid_text p.user_id) ≡ some p.user_id
      → decode c (some (c.dumps (payload c p))) ≡ some p
  unfolding decode decode_payload payload both
  decode-dumps p json uuid = rw json (rw uuid (rw (action_round_trip p.action) refl))

  -- A minted proposal is there for its user until it expires.
  spend-mint :
      IsGetdel redis
      → (d d' : Draw) (p : Proposal) (ttl : ℕ) (s : redis.Store) → d.is_up ≡ true
      → d'.is_up ≡ true
      → str_eq d.token "" ≡ false
      → d.now ≤ d'.now
      → d'.now < d.now + ttl
      → c.loads (c.dumps (payload c p)) ≡ some (payload c p)
      → c.uuid_parse (c.uuid_text p.user_id) ≡ some p.user_id
      → (spend redis c d' d.token p.user_id (mint redis c ttl d p s).1).0 ≡ some p
  unfolding spend mint
  spend-mint laws d d' p ttl s up up' long le soon json uuid =
      let key = proposal_key c d.token in
      let kept = laws.keeps d.now d'.now key (c.dumps (payload c p)) ttl s le soon in
      rw (long, up, up')
        (ap (λ o. of_user p.user_id (decode c o)) kept
          ∙ ap (of_user p.user_id) (decode-dumps p json uuid)
          ∙ unfold of_user in rw (==_refl p.user_id) refl)

  module _ {W : Type 0} (services : Services W) where
    -- Where the server answered the first tap, a second tap on the same token, by anybody at any
    -- later time and of any kind, gets the expired reply and changes nothing of the services.
    pub execute_once :
        IsGetdel redis
        → (d d' : Draw) (tap tap' : Callback) (u v : ℕ) (s : redis.Store) (w w' : W)
        → d.is_up ≡ true
        → d.now ≤ d'.now
        → tap'.token ≡ tap.token
        → let s' = (execute redis c services d tap u s w).1.0 in
          ((execute redis c services d' tap' v s' w').0 ≡ replies proposal_expired)
          × ((execute redis c services d' tap' v s' w').1.1 ≡ w')
    unfolding execute
    execute_once laws d d' tap tap' u v s w w' up le same =
        rw same (rw (spend_again laws d d' tap.token u v s up le) (unfold tapped in (refl, refl)))

    -- A tap leaves the services as they are, unless it spends a proposal that was minted for the
    -- same user, is not the No of that proposal, and the proposal is not an offered answer.
    pub execute_authorised :
        (d : Draw) (tap : Callback) (user_id : ℕ) (s : redis.Store) (w : W)
        → ((execute redis c services d tap user_id s w).1.1 ≡ w)
          ⊎ ((p : Proposal) × ((spend redis c d tap.token user_id s).0 ≡ some p)
              × (p.user_id ≡ user_id)
              × (tap.kind ≢ decline)
              × (p.action ≢ answer))
    unfolding execute
    execute_authorised d tap user_id s w =
        elim (Option-cases (spend redis c d tap.token user_id s).0) [
          | inl e ↦ inl (rw e (unfold tapped in refl))
          | inr (p, e) ↦ elim (authorised tap.kind p) [
            | inl h ↦ inl (rw e h)
            | inr h ↦ inr (p, e, spend_own d tap.token user_id s e, h.0, h.1)
          ]
        ]
      where
        authorised :
            (kind : Tap) (p : Proposal)
            → ((tapped c services kind (some p) user_id w).1 ≡ w)
              ⊎ ((kind ≢ decline) × (p.action ≢ answer))
        authorised decline p = inl (unfold tapped in refl)
        authorised accept p = elim (perform_reads c services p.action p user_id w) [
          | inl e ↦ inl e
          | inr e ↦ inr (λ h. absurd (cc), e)
        ]
        authorised Tap.answer p = elim (perform_reads c services p.action p user_id w) [
          | inl e ↦ inl e
          | inr e ↦ inr (λ h. absurd (cc), e)
        ]

    -- What a tap by its own user gets of a minted proposal, before it expires.
    pub mint-tapped :
        IsGetdel redis
        → (d d' : Draw) (p : Proposal) (kind : Tap) (ttl : ℕ) (s : redis.Store) (w : W)
        → d.is_up ≡ true
        → d'.is_up ≡ true
        → str_eq d.token "" ≡ false
        → d.now ≤ d'.now
        → d'.now < d.now + ttl
        → c.loads (c.dumps (payload c p)) ≡ some (payload c p)
        → c.uuid_parse (c.uuid_text p.user_id) ≡ some p.user_id
        → let s' = (mint redis c ttl d p s).1 in
          let tap : Callback = record { kind = kind; token = d.token } in
          let out = execute redis c services d' tap p.user_id s' w in
          (out.0, out.1.1) ≡ tapped c services kind (some p) p.user_id w
    unfolding execute
    mint-tapped laws d d' p kind ttl s w up up' long le soon json uuid =
        ap (λ o. let out = tapped c services kind o p.user_id w in (out.0, out.1))
          (spend-mint laws d d' p ttl s up up' long le soon json uuid)

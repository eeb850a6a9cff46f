-- ===== src/Connection/Drawing.antt =====
-- Drawing an edge by hand: `connect` of app/services/connection_service.py.
use recall_ai.Base.{
  ℕ, String, Bool, true, false, ◌&&◌, Option, none, some, List, [], ◌∷◌, ◌++◌, ◌≡◌, ◌≢◌, ◌⊎◌, refl,
  sym, ap, ◌∙◌, arith, min, max, ◌==◌, ==_iff, ==_refl, ltb, is_none, if◌then◌else◌, inl, inr,
  Bool-cases, Distinct, find_first, find_first_holds, find_first-update_where, Result, ok, err,
}
use recall_ai.Proposal.Row.{Relation}
use recall_ai.Connection.Row.{confirmed, MemoryConnection, pair_low, pair_high}
use recall_ai.Connection.Repository.{
  Draw, is_symmetric, is_same_pair, drawn, revived, upsert_found, upsert_manual,
}
use recall_ai.Connection.Service.{
  Refusal, connection_not_found, Drawn, orient, clean_note, owned_end, connect_owned, connect,
}
use recall_ai.Vault.Row.{VaultItem, Db}
use recall_ai.Vault.Repository.{item_key, get}
use recall_ai.Connection.Ends.{owned_end-eq-get, among_source, among_target}

-- The user's edge between two memories, whichever way round.
abbrev pub joins : ℕ → ℕ → ℕ → MemoryConnection → Bool
joins user_id s t c = c.user_id == user_id && (pair_low c == min s t && pair_high c == max s t)

find_first-append_last :
    (q : MemoryConnection → Bool) (r : MemoryConnection) (xs : List MemoryConnection)
    → find_first q xs ≡ none
    → q r ≡ true
    → find_first q (xs ++ r ∷ []) ≡ some r
unfolding find_first
find_first-append_last q r [] h t = rw t refl
find_first-append_last q r (x ∷ xs) h t = elim (Bool-cases (q x)) [
  | inl e ↦ absurd (cc (rw e at h))
  | inr e ↦ rw e (find_first-append_last q r xs (rw e at h) t)
]

module _ (strip : String → String) (d : Draw) (user_id s t : ℕ) (relation : Relation)
    (words : Option String) (db : Db) (distinct : Distinct item_key db.items) where
  connect_lem :
      s ≢ t
      → connect strip d user_id s t relation words db
        ≡ connect_owned strip d user_id s t relation words (get s user_id db) (get t user_id db) db
  unfolding connect
  connect_lem n =
      let apart : (s == t) ≡ false = ground (arith, n) in
      rw apart (
        ap (λ a. connect_owned strip d user_id s t relation words a (owned_end t user_id s t db) db)
          (owned_end-eq-get s user_id s t db distinct (among_source s t))
        ∙ ap (λ b. connect_owned strip d user_id s t relation words (get s user_id db) b db)
            (owned_end-eq-get t user_id s t db distinct (among_target s t)))

  -- An edge is refused, and nothing is written, where the two memories are one, or either of them is
  -- not a live memory of the caller's. The ids are distinct.
  pub connect_refuses :
      (s ≡ t) ⊎ ((get s user_id db ≡ none) ⊎ (get t user_id db ≡ none))
      → connect strip d user_id s t relation words db ≡ (err connection_not_found, db)
  connect_refuses h = elim (Bool-cases (s == t)) [
    | inl e ↦ unfold connect in rw e refl
    | inr e ↦
        connect_lem (λ q. cc ((==_iff _ _).1 q, e))
        ∙ refused (get s user_id db) (get t user_id db)
            (elim h [ inl q ↦ absurd (cc ((==_iff _ _).1 q, e)) | inr k ↦ k ])
  ]
    where
      refused :
          (a b : Option VaultItem)
          → (a ≡ none) ⊎ (b ≡ none)
          → connect_owned strip d user_id s t relation words a b db ≡ (err connection_not_found, db)
      refused none b k = unfold connect_owned in refl
      refused (some a) none k = unfold connect_owned in refl
      refused (some a) (some b) k = elim k [ inl q ↦ absurd (cc q) | inr q ↦ absurd (cc q) ]

  abbrev pub edge : MemoryConnection
  edge =
      drawn d user_id (orient s t relation).0 (orient s t relation).1 relation
        (clean_note strip words)

  abbrev keyed : ℕ → ℕ → MemoryConnection → Bool
  keyed l g c = c.user_id == user_id && (pair_low c == l && pair_high c == g)

  pub same_pair_joins : is_same_pair edge ≡ joins user_id s t
  unfolding is_same_pair drawn orient
  same_pair_joins = elim (Bool-cases (is_symmetric relation && ltb t s)) [
    | inl e ↦
        let l : min t s ≡ min s t = omega arith in
        let g : max t s ≡ max s t = omega arith in
        rw e (ap (λ m. keyed m (max t s)) l ∙ ap (λ m. keyed (min s t) m) g)
    | inr e ↦ rw e refl
  ]

  pub joins_edge : joins user_id s t edge ≡ true
  joins_edge =
      ap (λ f. f edge) (sym same_pair_joins)
      ∙ unfold is_same_pair in
        rw (==_refl edge.user_id, ==_refl (pair_low edge), ==_refl (pair_high edge)) refl

  abbrev pub done_with : Option MemoryConnection → (MemoryConnection × Bool) × Db
  done_with o = upsert_found d.now edge o db

  -- What the statement leaves, by the edge that was there.
  pub upserted :
      (o : Option MemoryConnection)
      → find_first (joins user_id s t) db.connections ≡ o
      → let u = done_with o in
        (find_first (joins user_id s t) u.1.connections ≡ some u.0.0)
        × ((u.0.1 ≡ is_none o)
            × ((u.0.0.status ≡ confirmed)
                × ((u.0.0.relation ≡ relation) × (u.0.0.note ≡ clean_note strip words))))
  unfolding upsert_found drawn
  upserted none e = (
    find_first-append_last (joins user_id s t) edge db.connections e joins_edge,
    (refl, (refl, (refl, refl))),
  )
  upserted (some c) e =
      let f = revived d.now relation (clean_note strip words) in
      let mine : is_same_pair edge c ≡ true =
        ap (λ g. g c) same_pair_joins ∙ find_first_holds (joins user_id s t) db.connections e in
      let row : (if is_same_pair edge c then f c else c) ≡ f c = rw mine refl in
      unfold revived in
      (
        find_first-update_where (joins user_id s t) (is_same_pair edge) f db.connections (λ x. refl)
              e
            ∙ ap some row,
        (refl, (refl, (refl, refl))),
      )

  pub connect_found :
      s ≢ t
      → (a b : VaultItem) → get s user_id db ≡ some a
      → get t user_id db ≡ some b
      → let u = done_with (find_first (joins user_id s t) db.connections) in
        connect strip d user_id s t relation words db ≡ (ok (u.0, b), u.1)
  connect_found n a b ga gb =
      connect_lem n
      ∙ ap (λ o. connect_owned strip d user_id s t relation words o (get t user_id db) db) ga
      ∙ ap (λ o. connect_owned strip d user_id s t relation words (some a) o db) gb
      ∙ unfold connect_owned upsert_manual in
        ap
          (λ p.
            let u = done_with (find_first p db.connections) in
            let x : Result Refusal Drawn × Db = (ok (u.0, b), u.1) in x)
          same_pair_joins

  -- An edge between two live memories of the caller's that differ is answered with the far one, and from
  -- then on it is the caller's edge between the two, confirmed, with the relation and the cleaned note
  -- that were asked for. It is reported as created exactly where the caller had none. The ids are
  -- distinct.
  pub connect_draws :
      s ≢ t
      → (a b : VaultItem) → get s user_id db ≡ some a
      → get t user_id db ≡ some b
      → let done = connect strip d user_id s t relation words db in
        (r : MemoryConnection) × ((done.0
            ≡ ok ((r, is_none (find_first (joins user_id s t) db.connections)), b))
          × ((find_first (joins user_id s t) done.1.connections ≡ some r)
              × ((r.status ≡ confirmed)
                  × ((r.relation ≡ relation) × (r.note ≡ clean_note strip words)))))
  connect_draws n a b ga gb =
      let o = find_first (joins user_id s t) db.connections in
      let u = done_with o in
      let whole = connect_found n a b ga gb in
      let facts = upserted o refl in
      (
        u.0.0,
        (
          ap (λ (x : Result Refusal Drawn × Db). x.0) whole
              ∙ ap (λ (c : Bool). let x : Result Refusal Drawn = ok ((u.0.0, c), b) in x) facts.1.0,
          (
            ap (λ (x : Result Refusal Drawn × Db). find_first (joins user_id s t) x.1.connections)
                  whole
                ∙ facts.0,
            facts.1.1,
          ),
        ),
      )

  -- A pair that has an edge keeps the direction of that edge, whichever way round it is drawn again: the
  -- relation is the new one, and the two ends stay where they were.
  pub reconnect_keeps_ends :
      s ≢ t
      → (a b : VaultItem) → get s user_id db ≡ some a
      → get t user_id db ≡ some b
      → (c : MemoryConnection) → find_first (joins user_id s t) db.connections ≡ some c
      → (r : MemoryConnection) × (((connect strip d user_id s t relation words db).0
            ≡ ok ((r, false), b))
          × ((r.relation ≡ relation)
              × ((r.source_item_id ≡ c.source_item_id) × (r.target_item_id ≡ c.target_item_id))))
  reconnect_keeps_ends n a b ga gb c e =
      let f = revived d.now relation (clean_note strip words) in
      (
        f c,
        (
          ap (λ (x : Result Refusal Drawn × Db). x.0) (connect_found n a b ga gb)
              ∙ ap (λ o. let x : Result Refusal Drawn = ok ((done_with o).0, b) in x) e
              ∙ unfold upsert_found drawn in refl,
          unfold revived in (refl, (refl, refl)),
        ),
      )

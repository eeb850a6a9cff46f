-- ===== src/Connection/Tenancy.antt =====
-- Whose edges a request of app/services/connection_service.py may write.
use recall_ai.Base.{
  ℕ, String, Bool, true, false, not, ◌&&◌, Option, none, some, some-injective, List, ◌≡◌, ◌≢◌, refl,
  sym, ap, ◌∙◌, arith, ◌==◌, is_none, inl, inr, Bool-cases, with_key, find_first, find_first_holds,
  find_first-key,
}
use recall_ai.Proposal.Row.{Relation}
use recall_ai.Connection.Row.{MemoryConnection}
use recall_ai.Connection.Repository.{
  Draw, Proposal, is_symmetric, is_theirs, suggest_many, get_scoped, changed, update_returning,
  update_scoped, apply_to,
}
use recall_ai.Connection.Service.{
  edge_key, connect, normalised, flush_edge, with_far_end, update, update_found, confirm, dismiss,
  delete,
}
use recall_ai.Connection.Typing.{Typed, retype, retype_found, retype_ends, typed_row}
use recall_ai.Connection.Pairs.{NoSelf, IsSound}
use recall_ai.Connection.Requests.{Returned, update_scoped-Returned}
use recall_ai.Connection.Sound.{
  KeepsEnds, Replaces, found-NoSelf, normalised-Replaces, typed_row-Replaces, changed-KeepsEnds,
}
use recall_ai.Vault.Row.{VaultItem, Db}
use recall_ai.Connection.Unseen.{select_where-update_where_unseen, select_where-save_unseen}
use recall_ai.Connection.Others.{
  edges_of, Same, others, theirs_only, answer-Same, delete-Same, dismiss-Same, confirm-Same,
  connect-Same, suggest_many-Same,
}

-- A row that one of the caller's statements returned, written again in its place.
module _ (v user_id : ℕ) (apart : v ≢ user_id) (db : Db) (sound : IsSound db.connections) where
  flush-Same :
      (d : Db) (c r : MemoryConnection)
      → Same v user_id apart db d
      → IsSound d.connections
      → find_first (with_key edge_key c.id) d.connections ≡ some c
      → c.user_id ≡ user_id
      → (NoSelf c → Replaces c r)
      → Same v user_id apart db (flush_edge r d)
  flush-Same d c r h s found own replaces =
      let k = replaces (found-NoSelf c d.connections found s) in
      let there = ap (λ n. find_first (with_key edge_key n) d.connections) k.0 ∙ found in
      let owner : r.user_id ≡ c.user_id = ap (λ p. p.0) k.1.0 in
      select_where-save_unseen (λ e. e.user_id == v) r d.connections there
        (others v user_id apart db c.user_id own)
        (others v user_id apart db r.user_id (owner ∙ own))
      ∙ h

  own_row :
      (id : ℕ) (c : MemoryConnection) → get_scoped id user_id db ≡ some c → c.user_id ≡ user_id
  unfolding get_scoped
  own_row id c h =
      let t : is_theirs id user_id c ≡ true =
        find_first_holds (is_theirs id user_id) db.connections h in
      ground (arith, t)

  changed_row :
      (id : ℕ) (f : MemoryConnection → MemoryConnection)
      → KeepsEnds f
      → (o : Option MemoryConnection) → get_scoped id user_id db ≡ o
      → (c : MemoryConnection) → apply_to f o ≡ some c
      → c.user_id ≡ user_id
  changed_row id f k none e c h = absurd (cc)
  changed_row id f k (some o) e c h =
      ap (λ (x : MemoryConnection). x.user_id) (sym (some-injective _ _ h))
      ∙ (k o).1
      ∙ own_row id o e

  update_scoped-Same :
      (id : ℕ) (relation : Option Relation) (words : Option String) (clear : Bool)
      → let o = update_scoped id user_id relation words clear db in
        Same v user_id apart db o.1 × ((c : MemoryConnection) → o.0 ≡ some c → c.user_id ≡ user_id)
  unfolding update_scoped
  update_scoped-Same id relation words clear =
      elim (Bool-cases (is_none relation && (not clear && is_none words))) [
        | inl e ↦ rw e (refl, λ c h. own_row id c h)
        | inr e ↦
            let f = changed relation words clear in
            let k = changed-KeepsEnds relation words clear in
            rw e (
              unfold update_returning in
              (
                select_where-update_where_unseen (λ c. c.user_id == v) (is_theirs id user_id) f
                    db.connections (λ c h. theirs_only v user_id apart db id f k c h),
                unfold get_scoped in changed_row id f k _ refl,
              ))
      ]

  update_found-Same :
      (relation : Option Relation) (o : Option MemoryConnection × Db)
      → Same v user_id apart db o.1
      → ((c : MemoryConnection) → o.0 ≡ some c → c.user_id ≡ user_id)
      → Returned db sound o
      → Same v user_id apart db (update_found user_id relation o).1
  unfolding update_found with_far_end
  update_found-Same relation (none, d) h own k = h
  update_found-Same none (some c, d) h own k = answer-Same v user_id apart db c _ d h
  update_found-Same (some r) (some c, d) h own k = elim (Bool-cases (is_symmetric r)) [
    | inl e ↦ rw e (
        answer-Same v user_id apart db (normalised c) _ (flush_edge (normalised c) d)
          (flush-Same d c (normalised c) h k.0 (k.1 c refl) (own c refl) (normalised-Replaces c)))
    | inr e ↦ rw e (answer-Same v user_id apart db c _ d h)
  ]

  update-Same :
      (strip : String → String) (id : ℕ) (relation : Option Relation) (words : Option String)
      → Same v user_id apart db (update strip id user_id relation words db).1
  unfolding update
  update-Same strip id relation words =
      let kept = update_scoped-Same id relation _ _ in
      update_found-Same relation _ kept.0 kept.1
        (update_scoped-Returned db sound id user_id relation _ _)

  retype_ends-Same :
      (typed : VaultItem → VaultItem → Typed) (id : ℕ) (c : MemoryConnection)
      (a b : Option VaultItem)
      → get_scoped id user_id db ≡ some c
      → Same v user_id apart db (retype_ends typed user_id c a b db).1
  unfolding retype_ends with_far_end
  retype_ends-Same typed id c none b h = refl
  retype_ends-Same typed id c (some s) none h = refl
  retype_ends-Same typed id c (some s) (some t) h =
      answer-Same v user_id apart db (typed_row (typed s t) c) _
        (flush_edge (typed_row (typed s t) c) db)
        (flush-Same db c (typed_row (typed s t) c) refl sound
          (unfold get_scoped in
            find_first-key edge_key (is_theirs id user_id) db.connections sound.0 h)
          (own_row id c h) (typed_row-Replaces (typed s t) c))

  retype_found-Same :
      (granted : Bool) (typed : VaultItem → VaultItem → Typed) (id : ℕ)
      (o : Option MemoryConnection)
      → get_scoped id user_id db ≡ o
      → Same v user_id apart db (retype_found granted typed user_id o db).1
  unfolding retype_found
  retype_found-Same granted typed id none h = refl
  retype_found-Same true typed id (some c) h = retype_ends-Same typed id c _ _ h
  retype_found-Same false typed id (some c) h = refl

  retype-Same :
      (available granted : Bool) (typed : VaultItem → VaultItem → Typed) (id : ℕ)
      → Same v user_id apart db (retype available granted typed id user_id db).1
  unfolding retype
  retype-Same true granted typed id = retype_found-Same granted typed id _ refl
  retype-Same false granted typed id = refl

-- No request on connections writes an edge of another user: their edges are the same, in the same
-- order, after the caller draws, changes, labels, accepts, declines or deletes an edge, whichever edge is
-- named, and after a derivation for the caller. The table is sound.
pub edges_are_private :
    (v user_id : ℕ) (db : Db)
    → IsSound db.connections
    → v ≢ user_id
    → (id now : ℕ) (strip : String → String) (relation : Option Relation) (words : Option String)
    → ((d : Draw) (s t : ℕ) (r : Relation)
        → edges_of v (connect strip d user_id s t r words db).1 ≡ edges_of v db)
      × ((edges_of v (update strip id user_id relation words db).1 ≡ edges_of v db)
          × ((edges_of v (confirm now id user_id db).1 ≡ edges_of v db)
              × ((edges_of v (dismiss now id user_id db).1 ≡ edges_of v db)
                  × ((edges_of v (delete id user_id db).1 ≡ edges_of v db)
                      × (((available granted : Bool) (typed : VaultItem → VaultItem → Typed)
                            → edges_of v (retype available granted typed id user_id db).1
                              ≡ edges_of v db)
                          × ((source : ℕ) (ps : List Proposal)
                              → edges_of v (suggest_many now user_id source ps db).1
                                ≡ edges_of v db))))))
edges_are_private v user_id db sound apart id now strip relation words = (
  λ d s t r. connect-Same v user_id apart db strip d s t r words,
  (
    update-Same v user_id apart db sound strip id relation words,
    (
      confirm-Same v user_id apart db now id,
      (
        dismiss-Same v user_id apart db now id,
        (
          delete-Same v user_id apart db id,
          (
            λ available granted typed.
                retype-Same v user_id apart db sound available granted typed id,
            λ source ps. suggest_many-Same v user_id apart db now source ps,
          ),
        ),
      ),
    ),
  ),
)

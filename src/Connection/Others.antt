-- ===== src/Connection/Others.antt =====
-- Edges of another user, and the statements of app/repositories/connection.py.
use recall_ai.Base.{
  ℕ, String, Bool, true, false, Option, none, some, List, [], ◌∷◌, ◌≡◌, ◌≢◌, refl, ap, ◌∙◌, arith,
  ◌==◌, inl, inr, Bool-cases, All-map, select_where,
}
use recall_ai.Proposal.Row.{Relation}
use recall_ai.Connection.Row.{MemoryConnection}
use recall_ai.Connection.Repository.{
  Draw, Proposal, is_same_pair, is_theirs, is_confirmable, is_dismissible, drawn, revived,
  upsert_found, upsert_manual, suggest_many, accepted, declined, update_returning, delete_scoped,
  dismiss as dismiss_row, confirm as confirm_row,
}
use recall_ai.Connection.Service.{
  orient, connect, connect_owned, answer, with_far_end, confirm, confirm_found, dismiss, delete,
  done_or_refused, clean_note,
}
use recall_ai.Connection.Sound.{KeepsEnds, declined-KeepsEnds, accepted-KeepsEnds}
use recall_ai.Connection.Suggest.{suggest_many_offers}
use recall_ai.Vault.Row.{VaultItem, Db}
use recall_ai.Connection.Unseen.{
  select_where-update_where_unseen, select_where-delete_where_unseen, select_where-append_unseen,
}

abbrev pub edges_of : ℕ → Db → List MemoryConnection
edges_of v db = select_where (λ c. c.user_id == v) db.connections

-- Another user.
module _ (v user_id : ℕ) (apart : v ≢ user_id) (db : Db) where
  abbrev pub Same : Db → Type 0
  Same d = edges_of v d ≡ edges_of v db

  pub others : (n : ℕ) → n ≡ user_id → (n == v) ≡ false
  others n e = ground (arith, e, apart)

  -- A change of the caller's rows.
  pub theirs_only :
      (id : ℕ) (f : MemoryConnection → MemoryConnection) (k : KeepsEnds f) (c : MemoryConnection)
      → is_theirs id user_id c ≡ true
      → ((c.user_id == v) ≡ false) × (((f c).user_id == v) ≡ false)
  theirs_only id f k c h =
      let own : c.user_id ≡ user_id = ground (arith, h) in
      (others c.user_id own, others (f c).user_id ((k c).1 ∙ own))

  pub answer-Same :
      (c : MemoryConnection) (o : Option VaultItem) (d : Db) → Same d → Same (answer c o d).1
  answer-Same c none d h = h
  answer-Same c (some i) d h = h

  done-Same : (o : Bool × Db) → Same o.1 → Same (done_or_refused o).1
  done-Same (true, d) h = h
  done-Same (false, d) h = h

  pub delete-Same : (id : ℕ) → Same (delete id user_id db).1
  unfolding delete delete_scoped
  delete-Same id = done-Same _ (
      select_where-delete_where_unseen (λ c. c.user_id == v) (is_theirs id user_id) db.connections
        (λ c h. (theirs_only id (λ x. x) (λ x. (refl, refl, refl, refl)) c h).0))

  pub dismiss-Same : (now id : ℕ) → Same (dismiss now id user_id db).1
  unfolding dismiss dismiss_row
  dismiss-Same now id = done-Same _ (
      select_where-update_where_unseen (λ c. c.user_id == v) (is_dismissible id user_id)
        (declined now) db.connections
        (λ c h. theirs_only id (declined now) (declined-KeepsEnds now) c (ground (arith, h))))

  confirm_found-Same :
      (o : Option MemoryConnection × Db) → Same o.1 → Same (confirm_found user_id o).1
  unfolding confirm_found with_far_end
  confirm_found-Same (none, d) h = h
  confirm_found-Same (some c, d) h = answer-Same c _ d h

  pub confirm-Same : (now id : ℕ) → Same (confirm now id user_id db).1
  unfolding confirm confirm_row
  confirm-Same now id = confirm_found-Same _ (
      unfold update_returning in
      select_where-update_where_unseen (λ c. c.user_id == v) (is_confirmable id user_id)
        (accepted now) db.connections
        (λ c h. theirs_only id (accepted now) (accepted-KeepsEnds now) c (ground (arith, h))))

  upsert_found-Same :
      (now : ℕ) (r : MemoryConnection) (o : Option MemoryConnection)
      → r.user_id ≡ user_id
      → Same (upsert_found now r o db).1
  unfolding upsert_found
  upsert_found-Same now r none own =
      select_where-append_unseen (λ c. c.user_id == v) db.connections (r ∷ [])
        (others r.user_id own, tt)
  upsert_found-Same now r (some c) own =
      select_where-update_where_unseen (λ c. c.user_id == v) (is_same_pair r)
        (revived now r.relation r.note) db.connections
        (λ x h.
          let same : x.user_id ≡ r.user_id = unfold is_same_pair in ground (arith, h) in
          unfold revived in (others x.user_id (same ∙ own), others x.user_id (same ∙ own)))

  connect_owned-Same :
      (strip : String → String) (d : Draw) (s t : ℕ) (r : Relation) (words : Option String)
      (a b : Option VaultItem)
      → Same (connect_owned strip d user_id s t r words a b db).1
  unfolding connect_owned
  connect_owned-Same strip d s t r words none b = refl
  connect_owned-Same strip d s t r words (some a) none = refl
  connect_owned-Same strip d s t r words (some a) (some b) =
      unfold upsert_manual in
      upsert_found-Same d.now
        (drawn d user_id (orient s t r).0 (orient s t r).1 r (clean_note strip words)) _
        (unfold drawn in refl)

  pub connect-Same :
      (strip : String → String) (d : Draw) (s t : ℕ) (r : Relation) (words : Option String)
      → Same (connect strip d user_id s t r words db).1
  unfolding connect
  connect-Same strip d s t r words = elim (Bool-cases (s == t)) [
    | inl e ↦ rw e refl
    | inr e ↦ rw e (connect_owned-Same strip d s t r words _ _)
  ]

  pub suggest_many-Same :
      (now source : ℕ) (ps : List Proposal) → Same (suggest_many now user_id source ps db).1
  suggest_many-Same now source ps =
      let offered = suggest_many_offers now user_id source ps db in
      ap (select_where (λ c. c.user_id == v)) offered.1.0
      ∙ select_where-append_unseen (λ c. c.user_id == v) db.connections offered.0
          (All-map _ _ offered.0 (λ r h. others r.user_id h.0.1.1) offered.1.1.1)

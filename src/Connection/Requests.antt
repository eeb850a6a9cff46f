-- ===== src/Connection/Requests.antt =====
-- Each request of app/services/connection_service.py, and whether the table of edges is sound.
use recall_ai.Base.{
  ℕ, String, Bool, true, false, not, ◌&&◌, Option, none, some, some-injective, ◌≡◌, ◌≢◌, refl, sym,
  ap, ◌∙◌, ◌==◌, ==_iff, ltb, is_none, if◌then◌else◌, inl, inr, Bool-cases, Fresh, with_key,
  find_first, find_first_holds, find_first-key, find_first-update_where, update_where,
}
use recall_ai.Proposal.Row.{Relation}
use recall_ai.Connection.Row.{MemoryConnection}
use recall_ai.Connection.Repository.{
  Draw, is_symmetric, is_same_pair, is_theirs, is_confirmable, drawn, upsert_found, upsert_manual,
  get_scoped, changed, accepted, declined, update_returning, update_scoped, delete_scoped,
  dismiss as dismiss_row, confirm as confirm_row, apply_to,
}
use recall_ai.Connection.Service.{
  commit, edge_key, orient, owned_end, connect, connect_owned, normalised, flush_edge, answer,
  with_far_end, update, update_found, confirm, confirm_found, dismiss, delete, done_or_refused,
  clean_note,
}
use recall_ai.Connection.Typing.{Typed, retype, retype_found, retype_ends, typed_row}
use recall_ai.Connection.Pairs.{NoSelf, IsSound}
use recall_ai.Connection.Sound.{
  KeepsEnds, IsSound-update_where, IsSound-delete_where, IsSound-append, IsSound-save, found-NoSelf,
  normalised-Replaces, typed_row-Replaces, revived-KeepsEnds, declined-KeepsEnds,
  accepted-KeepsEnds, changed-KeepsEnds,
}
use recall_ai.Vault.Row.{VaultItem, Db}

commit-answer :
    (P : Db → Type 0) (c : MemoryConnection) (o : Option VaultItem) (db db' : Db)
    → P db
    → P db'
    → P (commit db (answer c o db'))
unfolding commit
commit-answer P c none db db' h h' = h
commit-answer P c (some i) db db' h h' = h'

module _ (db : Db) (sound : IsSound db.connections) where
  abbrev pub Sound : Db → Type 0
  Sound d = IsSound d.connections

  upsert_found-Sound :
      (now : ℕ) (r : MemoryConnection) (o : Option MemoryConnection)
      → find_first (is_same_pair r) db.connections ≡ o
      → Fresh edge_key r.id db.connections
      → NoSelf r
      → Sound (upsert_found now r o db).1
  unfolding upsert_found
  upsert_found-Sound now r none e f n = IsSound-append r db.connections f e n sound
  upsert_found-Sound now r (some c) e f n =
      IsSound-update_where _ (revived-KeepsEnds now r.relation r.note) (is_same_pair r)
        db.connections sound

  orient_apart : (s t : ℕ) (r : Relation) → s ≢ t → (orient s t r).0 ≢ (orient s t r).1
  unfolding orient
  orient_apart s t r n e = elim (Bool-cases (is_symmetric r && ltb t s)) [
    | inl o ↦ n (sym (rw o at e))
    | inr o ↦ n (rw o at e)
  ]

  connect_owned-Sound :
      (strip : String → String) (d : Draw) (user_id s t : ℕ) (r : Relation) (words : Option String)
      (a b : Option VaultItem)
      → Fresh edge_key d.row_id db.connections
      → s ≢ t
      → Sound (commit db (connect_owned strip d user_id s t r words a b db))
  unfolding connect_owned commit
  connect_owned-Sound strip d user_id s t r words none b f n = sound
  connect_owned-Sound strip d user_id s t r words (some a) none f n = sound
  connect_owned-Sound strip d user_id s t r words (some a) (some b) f n =
      unfold upsert_manual drawn in
      upsert_found-Sound d.now
        (drawn d user_id (orient s t r).0 (orient s t r).1 r (clean_note strip words)) _ refl f
        (orient_apart s t r n)

  pub connect-Sound :
      (strip : String → String) (d : Draw) (user_id s t : ℕ) (r : Relation) (words : Option String)
      → Fresh edge_key d.row_id db.connections
      → Sound (commit db (connect strip d user_id s t r words db))
  unfolding connect
  connect-Sound strip d user_id s t r words f = elim (Bool-cases (s == t)) [
    | inl e ↦ rw e (unfold commit in sound)
    | inr e ↦ rw e (
        connect_owned-Sound strip d user_id s t r words (owned_end s user_id s t db)
          (owned_end t user_id s t db) f (λ q. cc ((==_iff _ _).1 q, e)))
  ]

  -- A row that a statement of one row returned is in the table, under its id.
  abbrev pub Returned : Option MemoryConnection × Db → Type 0
  Returned o =
      Sound o.1
      × ((c : MemoryConnection)
          → o.0 ≡ some c
          → find_first (with_key edge_key c.id) o.1.connections ≡ some c)

  update_returning-Returned :
      (p : MemoryConnection → Bool) (f : MemoryConnection → MemoryConnection)
      → KeepsEnds f
      → Returned (update_returning p f db)
  unfolding update_returning
  update_returning-Returned p f k =
      (IsSound-update_where f k p db.connections sound, there (find_first p db.connections) refl)
    where
      there :
          (o : Option MemoryConnection)
          → find_first p db.connections ≡ o
          → (c : MemoryConnection) → apply_to f o ≡ some c
          → find_first (with_key edge_key c.id) (update_where p f db.connections) ≡ some c
      there none e c h = absurd (cc)
      there (some o) e c h =
          let same : f o ≡ c = some-injective _ _ h in
          let holds : p o ≡ true = find_first_holds p db.connections e in
          let found =
            find_first-update_where (with_key edge_key o.id) p f db.connections
              (λ x. ap (λ n. n == o.id) (k x).0)
              (find_first-key edge_key p db.connections sound.0 e) in
          let row : (if p o then f o else o) ≡ c = rw holds same in
          ap (λ n. find_first (with_key edge_key n) (update_where p f db.connections))
            (sym (ap edge_key same) ∙ (k o).0)
          ∙ found
          ∙ ap some row

  pub update_scoped-Returned :
      (id user_id : ℕ) (relation : Option Relation) (words : Option String) (clear : Bool)
      → Returned (update_scoped id user_id relation words clear db)
  unfolding update_scoped get_scoped
  update_scoped-Returned id user_id relation words clear =
      elim (Bool-cases (is_none relation && (not clear && is_none words))) [
        | inl e ↦
            rw e (
              sound,
              λ c h. find_first-key edge_key (is_theirs id user_id) db.connections sound.0 h,
            )
        | inr e ↦ rw e (
            update_returning-Returned (is_theirs id user_id) (changed relation words clear)
              (changed-KeepsEnds relation words clear))
      ]

  update_found-Sound :
      (user_id : ℕ) (relation : Option Relation) (o : Option MemoryConnection × Db)
      → Returned o
      → Sound (commit db (update_found user_id relation o))
  unfolding update_found with_far_end
  update_found-Sound user_id relation (none, db') h = unfold commit in sound
  update_found-Sound user_id none (some c, db') h = commit-answer Sound c _ db db' sound h.0
  update_found-Sound user_id (some r) (some c, db') h = elim (Bool-cases (is_symmetric r)) [
    | inl e ↦ rw e (
        commit-answer Sound (normalised c) _ db (flush_edge (normalised c) db') sound (
          IsSound-save c (normalised c) db'.connections (h.1 c refl)
            (normalised-Replaces c (found-NoSelf c db'.connections (h.1 c refl) h.0)) h.0))
    | inr e ↦ rw e (commit-answer Sound c _ db db' sound h.0)
  ]

  confirm_found-Sound :
      (user_id : ℕ) (o : Option MemoryConnection × Db)
      → Returned o
      → Sound (commit db (confirm_found user_id o))
  unfolding confirm_found with_far_end
  confirm_found-Sound user_id (none, db') h = unfold commit in sound
  confirm_found-Sound user_id (some c, db') h = commit-answer Sound c _ db db' sound h.0

  done-Sound : (o : Bool × Db) → Sound o.1 → Sound (commit db (done_or_refused o))
  unfolding commit
  done-Sound (true, db') h = h
  done-Sound (false, db') h = sound

  pub update-Sound :
      (strip : String → String) (id user_id : ℕ) (relation : Option Relation)
      (words : Option String)
      → Sound (commit db (update strip id user_id relation words db))
  unfolding update
  update-Sound strip id user_id relation words =
      update_found-Sound user_id relation _ (update_scoped-Returned id user_id relation _ _)

  pub confirm-Sound : (now id user_id : ℕ) → Sound (commit db (confirm now id user_id db))
  unfolding confirm confirm_row
  confirm-Sound now id user_id = confirm_found-Sound user_id _ (
      update_returning-Returned (is_confirmable id user_id) (accepted now) (accepted-KeepsEnds now))

  pub dismiss-Sound : (now id user_id : ℕ) → Sound (commit db (dismiss now id user_id db))
  unfolding dismiss dismiss_row
  dismiss-Sound now id user_id =
      done-Sound _
        (IsSound-update_where (declined now) (declined-KeepsEnds now) _ db.connections sound)

  pub delete-Sound : (id user_id : ℕ) → Sound (commit db (delete id user_id db))
  unfolding delete delete_scoped
  delete-Sound id user_id =
      done-Sound _ (IsSound-delete_where (is_theirs id user_id) db.connections sound)

  -- A label of the model's.
  retype_ends-Sound :
      (typed : VaultItem → VaultItem → Typed) (user_id : ℕ) (c : MemoryConnection)
      (a b : Option VaultItem)
      → find_first (with_key edge_key c.id) db.connections ≡ some c
      → Sound (commit db (retype_ends typed user_id c a b db))
  unfolding retype_ends with_far_end
  retype_ends-Sound typed user_id c none b h = unfold commit in sound
  retype_ends-Sound typed user_id c (some s) none h = unfold commit in sound
  retype_ends-Sound typed user_id c (some s) (some t) h =
      commit-answer Sound (typed_row (typed s t) c) _ db (flush_edge (typed_row (typed s t) c) db)
        sound
        (IsSound-save c (typed_row (typed s t) c) db.connections h
          (typed_row-Replaces (typed s t) c (found-NoSelf c db.connections h sound)) sound)

  retype_found-Sound :
      (granted : Bool) (typed : VaultItem → VaultItem → Typed) (user_id : ℕ)
      (o : Option MemoryConnection)
      → ((c : MemoryConnection)
          → o ≡ some c
          → find_first (with_key edge_key c.id) db.connections ≡ some c)
      → Sound (commit db (retype_found granted typed user_id o db))
  unfolding retype_found
  retype_found-Sound granted typed user_id none h = unfold commit in sound
  retype_found-Sound true typed user_id (some c) h =
      retype_ends-Sound typed user_id c _ _ (h c refl)
  retype_found-Sound false typed user_id (some c) h = unfold commit in sound

  pub retype-Sound :
      (available granted : Bool) (typed : VaultItem → VaultItem → Typed) (id user_id : ℕ)
      → Sound (commit db (retype available granted typed id user_id db))
  unfolding retype get_scoped
  retype-Sound true granted typed id user_id =
      retype_found-Sound granted typed user_id _
        (λ c h. find_first-key edge_key (is_theirs id user_id) db.connections sound.0 h)
  retype-Sound false granted typed id user_id = unfold commit in sound

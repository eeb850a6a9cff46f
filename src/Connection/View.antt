-- ===== src/Connection/View.antt =====
-- The abstract view of a user's connections, a status for each unordered pair of memories, and what
-- `connect` of app/services/connection_service.py does to it.
use recall_ai.Base.{
  ℕ, String, Bool, true, false, ◌&&◌, Option, none, some, List, [], ◌∷◌, ◌++◌, ◌≡◌, ◌≢◌, refl, sym,
  ap, ◌∙◌, arith, min, max, ◌==◌, if◌then◌else◌, inl, inr, Bool-cases, Distinct, find_first,
  update_where, Result,
}
use recall_ai.Proposal.Row.{Relation}
use recall_ai.Connection.Row.{ConnectionStatus, confirmed, MemoryConnection, pair_low, pair_high}
use recall_ai.Connection.Repository.{Draw, is_same_pair, revived, upsert_found}
use recall_ai.Connection.Service.{Refusal, Drawn, connect}
use recall_ai.Connection.Drawing.{
  joins, edge, same_pair_joins, joins_edge, done_with, upserted, connect_found,
}
use recall_ai.Vault.Row.{VaultItem, Db}
use recall_ai.Vault.Repository.{item_key, get}

-- A status for each pair, by its lower and its higher id.
abbrev pub View : Type 0
View = ℕ → ℕ → Option ConnectionStatus

abbrev pub status_at : Option MemoryConnection → Option ConnectionStatus
status_at none = none
status_at (some c) = some c.status

abbrev pub has_ends : ℕ → ℕ → ℕ → MemoryConnection → Bool
has_ends user_id l h c = c.user_id == user_id && (pair_low c == l && pair_high c == h)

unfoldable pub view : ℕ → Db → View
view user_id db l h = status_at (find_first (has_ends user_id l h) db.connections)

-- The abstract operation: the pair is connected, the others are as they were.
unfoldable pub put : ℕ → ℕ → View → View
put s t v l h = if l == min s t && h == max s t then some confirmed else v l h

find_first-append_unseen :
    (q : MemoryConnection → Bool) (r : MemoryConnection) (xs : List MemoryConnection)
    → q r ≡ false
    → find_first q (xs ++ r ∷ []) ≡ find_first q xs
unfolding find_first
find_first-append_unseen q r [] n = rw n refl
find_first-append_unseen q r (x ∷ xs) n =
    ap (λ o. if q x then some x else o) (find_first-append_unseen q r xs n)

find_first-update_where_unseen :
    (q p : MemoryConnection → Bool) (f : MemoryConnection → MemoryConnection)
    (xs : List MemoryConnection)
    → ((x : MemoryConnection) → p x ≡ true → (q x ≡ false) × (q (f x) ≡ false))
    → find_first q (update_where p f xs) ≡ find_first q xs
unfolding find_first update_where
find_first-update_where_unseen q p f [] k = refl
find_first-update_where_unseen q p f (x ∷ xs) k =
    let rest = find_first-update_where_unseen q p f xs k in
    elim (Bool-cases (p x)) [
      | inl e ↦ let m = k x e in rw (e, m.0, m.1) rest
      | inr e ↦ rw e (ap (λ o. if q x then some x else o) rest)
    ]

module _ (strip : String → String) (d : Draw) (user_id s t : ℕ) (relation : Relation)
    (words : Option String) (db : Db) (distinct : Distinct item_key db.items) where
  -- Another pair is not that of the drawn edge.
  other_pair :
      (l h : ℕ) (c : MemoryConnection)
      → (l == min s t && h == max s t) ≡ false
      → joins user_id s t c ≡ true
      → has_ends user_id l h c ≡ false
  other_pair l h c n j = ground (arith, n, j)

  unseen :
      (l h : ℕ) (o : Option MemoryConnection)
      → (l == min s t && h == max s t) ≡ false
      → find_first
          (has_ends user_id l h)
          (done_with strip d user_id s t relation words db distinct o).1.connections
        ≡ find_first (has_ends user_id l h) db.connections
  unfolding upsert_found
  unseen l h none n =
      find_first-append_unseen (has_ends user_id l h)
        (edge strip d user_id s t relation words db distinct) db.connections
        (other_pair l h (edge strip d user_id s t relation words db distinct) n
          (joins_edge strip d user_id s t relation words db distinct))
  unseen l h (some c) n =
      let r = edge strip d user_id s t relation words db distinct in
      find_first-update_where_unseen (has_ends user_id l h) (is_same_pair r)
        (revived d.now r.relation r.note) db.connections
        (λ x e.
          let mine : joins user_id s t x ≡ true =
            ap (λ g. g x) (sym (same_pair_joins strip d user_id s t relation words db distinct))
            ∙ e in
          let away = other_pair l h x n mine in unfold revived in (away, away))

  -- What the statement leaves, seen through the view.
  upserted-View :
      (l h : ℕ)
      → status_at (
          find_first
            (has_ends user_id l h)
            (done_with strip d user_id s t relation words db distinct
              (find_first (joins user_id s t) db.connections)).1.connections)
        ≡ put s t (view user_id db) l h
  unfolding put view
  upserted-View l h =
      let o = find_first (joins user_id s t) db.connections in
      let u = done_with strip d user_id s t relation words db distinct o in
      elim (Bool-cases (l == min s t && h == max s t)) [
        | inl e ↦
            let low : l ≡ min s t = ground (arith, e) in
            let high : h ≡ max s t = ground (arith, e) in
            let facts = upserted strip d user_id s t relation words db distinct o refl in
            rw e (
              ap (λ m. status_at (find_first (has_ends user_id m h) u.1.connections)) low
              ∙ ap (λ m. status_at (find_first (has_ends user_id (min s t) m) u.1.connections)) high
              ∙ ap status_at facts.0
              ∙ ap some facts.1.1.0)
        | inr e ↦ rw e (ap status_at (unseen l h o e))
      ]

  -- Drawing an edge implements the connection of a pair in the abstract: with two live memories of the
  -- caller's that differ, the pair of the two is confirmed afterwards, and every other pair of the
  -- caller's memories has the status that it had. The ids are distinct.
  pub connect_refines_put :
      s ≢ t
      → (a b : VaultItem) → get s user_id db ≡ some a
      → get t user_id db ≡ some b
      → (l h : ℕ)
      → view user_id (connect strip d user_id s t relation words db).1 l h
        ≡ put s t (view user_id db) l h
  connect_refines_put n a b ga gb l h =
      unfold view in
      ap
        (λ (x : Result Refusal Drawn × Db).
          status_at (find_first (has_ends user_id l h) x.1.connections))
        (connect_found strip d user_id s t relation words db distinct n a b ga gb)
      ∙ upserted-View l h

-- ===== src/Connection/Offers.antt =====
-- What a derivation adds to the edges: `derive` of app/services/connection_derivation.py.
use recall_ai.Base.{
  ℕ, ◌-◌, Bool, true, ◌&&◌, ◌||◌, Option, none, some, List, [], ◌∷◌, ◌++◌, ◌≡◌, refl, ap, ◌==◌,
  ==_refl, ltb, length, inl, inr, Bool-cases, All, find_first,
}
use recall_ai.Connection.Row.{ai, suggested, MemoryConnection}
use recall_ai.Connection.Repository.{
  Proposal, is_symmetric, is_same_pair, stored_ends, proposed, proposed_rows, count_for_item,
  suggest_many,
}
use recall_ai.Connection.Suggest.{Adds, All-proposed_rows, insert_all_lem}
use recall_ai.Connection.Derive.{
  World, Policy, recall, decide, derive_from, derive_found, derive, vector_for,
}
use recall_ai.Vault.Row.{VaultItem, Db}
use recall_ai.Vault.Repository.{get_unscoped}
use recall_ai.Vault.Trash.{touches}

or_true : (b : Bool) → (b || true) ≡ true
or_true true = refl
or_true _ = refl

-- One of the two ends of a proposal's row is the memory that it was derived for.
touches_source :
    (now user_id source : ℕ) (p : Proposal) → touches source (proposed now user_id source p) ≡ true
unfolding proposed stored_ends
touches_source now user_id source p = elim (Bool-cases p.swap) [
  | inl s ↦ elim (Bool-cases (is_symmetric p.relation && ltb source p.target_id)) [
    | inl o ↦ rw (s, o) (rw (==_refl source) refl)
    | inr o ↦ rw (s, o) (rw (==_refl source) (or_true (p.target_id == source)))
  ]
  | inr s ↦ elim (Bool-cases (is_symmetric p.relation && ltb p.target_id source)) [
    | inl o ↦ rw (s, o) (rw (==_refl source) (or_true (p.target_id == source)))
    | inr o ↦ rw (s, o) (rw (==_refl source) refl)
  ]
]

-- A suggestion of the machine's for a user, at a memory.
abbrev pub IsOffer : ℕ → ℕ → MemoryConnection → Type 0
IsOffer user_id item_id r =
    (r.status ≡ suggested) × (r.origin ≡ ai) × (r.user_id ≡ user_id) × (touches item_id r ≡ true)

suggest_many-Adds :
    (now user_id source : ℕ) (ps : List Proposal) (db : Db)
    → let done = suggest_many now user_id source ps db in
      Adds (IsOffer user_id source) db.connections (done.0, done.1.connections)
unfolding suggest_many
suggest_many-Adds now user_id source ps db =
    insert_all_lem (IsOffer user_id source) (proposed_rows now user_id source ps) db.connections (
      All-proposed_rows (λ p. Unit {0}) (IsOffer user_id source) now user_id source ps
        (λ p n u. unfold proposed in (refl, refl, refl, touches_source now user_id source p))
        (units ps))
  where
    units : (qs : List Proposal) → All (λ p. Unit {0}) qs
    units [] = tt
    units (q ∷ qs) = (tt, units qs)

append_nothing : (xs : List MemoryConnection) → xs ≡ xs ++ []
append_nothing [] = refl
append_nothing (x ∷ xs) = ap (λ l. x ∷ l) (append_nothing xs)

module _ (w : World) (p : Policy) (now item_id : ℕ) (db : Db) (i : VaultItem) where
  abbrev Offers : ℕ × Db → Type 0
  Offers done = Adds (IsOffer i.user_id item_id) db.connections (done.0, done.1.connections)

  no_offer : Offers (0, db)
  no_offer = ([], (append_nothing db.connections, (refl, tt)))

  derive_from-Adds : (o : Option (List ℕ)) → Offers (derive_from w p now item_id i o db)
  unfolding derive_from
  derive_from-Adds none = no_offer
  derive_from-Adds (some vector) =
      let room = p.max_per_item - count_for_item i.user_id item_id db in
      let found = recall w p i vector room db in
      elim (Bool-cases (room == 0 || length found == 0)) [
        | inl e ↦ rw e no_offer
        | inr e ↦ rw e (suggest_many-Adds now i.user_id item_id (decide w p i found) db)
      ]

  -- A derivation for a memory offers and decides nothing: what it adds to the edges are suggestions
  -- of the machine's, of that memory's owner and with that memory at one end, as many as it counts,
  -- each of a pair that had no edge of the owner's in any state. The edges that were there, a
  -- declined one too, stay as they are.
  pub derive_offers :
      get_unscoped item_id db ≡ some i
      → let done = derive w p now item_id db in
        (added : List MemoryConnection) × ((done.1.connections ≡ db.connections ++ added)
          × ((done.0 ≡ length added)
              × All
                  (λ r.
                    ((r.status ≡ suggested)
                      × (r.origin ≡ ai)
                      × (r.user_id ≡ i.user_id)
                      × (touches item_id r ≡ true))
                    × (find_first (is_same_pair r) db.connections ≡ none))
                  added))
  unfolding derive
  derive_offers there = rw there (unfold derive_found in derive_from-Adds (vector_for item_id db))

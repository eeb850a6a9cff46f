-- ===== src/Connection/Suggest.antt =====
-- `suggest_many` of app/repositories/connection.py: what a derivation may add to the edges.
use recall_ai.Base.{
  ℕ, Bool, false, ◌&&◌, Option, none, some, List, [], ◌∷◌, ◌++◌, ◌≡◌, ◌≢◌, refl, sym, ap, ◌∙◌,
  arith, length, is_some, ◌==◌, ==_iff, ltb, inl, inr, Bool-cases, All, All-map, Distinct, Fresh,
  find_first,
}
use recall_ai.Connection.Row.{ai, suggested, MemoryConnection}
use recall_ai.Connection.Repository.{
  Proposal, is_symmetric, is_same_pair, stored_ends, proposed, proposed_rows, is_taken, insert_all,
  suggest_many,
}
use recall_ai.Connection.Service.{edge_key}
use recall_ai.Connection.Pairs.{NoSelf, IsSound, All-append_one}
use recall_ai.Connection.Sound.{IsSound-append}
use recall_ai.Vault.Row.{Db}

free_of :
    (r : MemoryConnection) (edges : List MemoryConnection)
    → is_taken r edges ≡ false
    → find_first (is_same_pair r) edges ≡ none
unfolding is_taken
free_of r edges h = none_here (find_first (is_same_pair r) edges) h
  where
    none_here : (o : Option MemoryConnection) → is_some o ≡ false → o ≡ none
    none_here none e = refl
    none_here (some c) e = absurd (cc)

-- A proposal's row keeps its two ends, in one order or the other.
ends_apart :
    (source : ℕ) (p : Proposal)
    → p.target_id ≢ source
    → (stored_ends source p).0 ≢ (stored_ends source p).1
unfolding stored_ends
ends_apart source p n e = elim (Bool-cases p.swap) [
  | inl s ↦ elim (Bool-cases (is_symmetric p.relation && ltb source p.target_id)) [
    | inl o ↦ n (sym (rw (s, o) at e))
    | inr o ↦ n (rw (s, o) at e)
  ]
  | inr s ↦ elim (Bool-cases (is_symmetric p.relation && ltb p.target_id source)) [
    | inl o ↦ n (rw (s, o) at e)
    | inr o ↦ n (sym (rw (s, o) at e))
  ]
]

pub All-proposed_rows :
    (Q : Proposal → Type 0) (P : MemoryConnection → Type 0) (now user_id source : ℕ)
    (ps : List Proposal)
    → ((p : Proposal) → p.target_id ≢ source → Q p → P (proposed now user_id source p))
    → All Q ps
    → All P (proposed_rows now user_id source ps)
unfolding proposed_rows
All-proposed_rows Q P now user_id source [] k a = tt
All-proposed_rows Q P now user_id source (p ∷ ps) k a =
    let rest = All-proposed_rows Q P now user_id source ps k a.1 in
    elim (Bool-cases (p.target_id == source)) [
      | inl e ↦ rw e rest
      | inr e ↦ rw e (k p (λ q. cc ((==_iff _ _).1 q, e)) a.0, rest)
    ]

abbrev pub proposal_key : Proposal → ℕ
proposal_key p = p.row_id

Distinct-proposed_rows :
    (now user_id source : ℕ) (ps : List Proposal)
    → Distinct proposal_key ps
    → Distinct edge_key (proposed_rows now user_id source ps)
unfolding proposed_rows
Distinct-proposed_rows now user_id source [] d = tt
Distinct-proposed_rows now user_id source (p ∷ ps) d =
    let rest = Distinct-proposed_rows now user_id source ps d.1 in
    elim (Bool-cases (p.target_id == source)) [
      | inl e ↦ rw e rest
      | inr e ↦ rw e (
        unfold proposed in
            All-proposed_rows _ (λ y. y.id ≢ p.row_id) now user_id source ps (λ q n h. h) d.0,
        rest,
      )
    ]

append_empty {ℓ} : {A : Type ℓ} (xs : List A) → xs ≡ xs ++ []
append_empty [] = refl
append_empty (x ∷ xs) = ap (λ l. x ∷ l) (append_empty xs)

append_one {ℓ} :
    {A : Type ℓ} (xs : List A) (x : A) (ys : List A) → (xs ++ x ∷ []) ++ ys ≡ xs ++ x ∷ ys
append_one [] x ys = refl
append_one (z ∷ xs) x ys = ap (λ l. z ∷ l) (append_one xs x ys)

free_before :
    (q : MemoryConnection → Bool) (xs ys : List MemoryConnection)
    → find_first q (xs ++ ys) ≡ none
    → find_first q xs ≡ none
unfolding find_first
free_before q [] ys h = refl
free_before q (x ∷ xs) ys h = elim (Bool-cases (q x)) [
  | inl e ↦ absurd (cc (rw e at h))
  | inr e ↦ rw e (free_before q xs ys (rw e at h))
]

-- What an INSERT … ON CONFLICT DO NOTHING did to a table: it added rows, as many as it counts, each of
-- a pair that was free.
abbrev pub Adds :
    (MemoryConnection → Type 0) → List MemoryConnection → ℕ × List MemoryConnection → Type 0
Adds P edges done =
    (added : List MemoryConnection) × ((done.1 ≡ edges ++ added)
      × ((done.0 ≡ length added)
          × All (λ r. P r × (find_first (is_same_pair r) edges ≡ none)) added))

module _ (P : MemoryConnection → Type 0) where
  pub insert_all_lem :
      (rows edges : List MemoryConnection) → All P rows → Adds P edges (insert_all rows edges)
  unfolding insert_all
  insert_all_lem [] edges a = ([], (append_empty edges, (refl, tt)))
  insert_all_lem (r ∷ rs) edges a = elim (Bool-cases (is_taken r edges)) [
    | inl e ↦
        let rest = insert_all_lem rs edges a.1 in
        rw e (rest.0, (rest.1.0, (omega (arith, rest.1.1.0), rest.1.1.1)))
    | inr e ↦
        let rest = insert_all_lem rs (edges ++ r ∷ []) a.1 in
        rw e (
          r ∷ rest.0,
          (
            rest.1.0 ∙ append_one edges r rest.0,
            (
              omega (arith, rest.1.1.0),
              (
                (a.0, free_of r edges e),
                All-map _ _ rest.0 (λ x h. (h.0, free_before (is_same_pair x) edges (r ∷ []) h.1))
                    rest.1.1.1,
              ),
            ),
          ),
        )
  ]

-- The rows to insert, by what the statement needs of them: new ids, and two ends.
module _ where
  pub insert_all-IsSound :
      (rows : List MemoryConnection) (table : List MemoryConnection)
      → Distinct edge_key rows
      → All (λ r. Fresh edge_key r.id table × NoSelf r) rows
      → IsSound table
      → IsSound (insert_all rows table).1
  unfolding insert_all
  insert_all-IsSound [] table d a s = s
  insert_all-IsSound (r ∷ rs) table d a s = elim (Bool-cases (is_taken r table)) [
    | inl e ↦ rw e (insert_all-IsSound rs table d.1 a.1 s)
    | inr e ↦ rw e (
        insert_all-IsSound rs (table ++ r ∷ []) d.1 (still_fresh rs d.0 a.1)
          (IsSound-append r table a.0.0 (free_of r table e) a.0.1 s))
  ]
    where
      still_fresh :
          (ys : List MemoryConnection)
          → All (λ y. y.id ≢ r.id) ys
          → All (λ y. Fresh edge_key y.id table × NoSelf y) ys
          → All (λ y. Fresh edge_key y.id (table ++ r ∷ []) × NoSelf y) ys
      still_fresh [] n b = tt
      still_fresh (y ∷ ys) n b =
          ((All-append_one _ r table b.0.0 (λ q. n.0 (sym q)), b.0.1), still_fresh ys n.1 b.1)

-- The ids drawn for the proposals are new and distinct.
abbrev pub AreNew : List Proposal → List MemoryConnection → Type 0
AreNew ps edges = Distinct proposal_key ps × All (λ p. Fresh edge_key p.row_id edges) ps

pub suggest_many-IsSound :
    (now user_id source : ℕ) (ps : List Proposal) (db : Db)
    → AreNew ps db.connections
    → IsSound db.connections
    → IsSound (suggest_many now user_id source ps db).1.connections
unfolding suggest_many
suggest_many-IsSound now user_id source ps db n s =
    insert_all-IsSound (proposed_rows now user_id source ps) db.connections
      (Distinct-proposed_rows now user_id source ps n.0)
      (All-proposed_rows _ _ now user_id source ps
        (λ p apart f. unfold proposed in (f, ends_apart source p apart)) n.1)
      s

-- What the statement adds: suggestions of the user that it is called for, made by the machine, as many
-- as it counts, each of a pair that had no edge of that user's. The edges that were there stay.
pub suggest_many_offers :
    (now user_id source : ℕ) (ps : List Proposal) (db : Db)
    → let done = suggest_many now user_id source ps db in
      (added : List MemoryConnection) × ((done.1.connections ≡ db.connections ++ added)
        × ((done.0 ≡ length added)
            × All
                (λ r.
                  ((r.status ≡ suggested) × ((r.origin ≡ ai) × (r.user_id ≡ user_id)))
                  × (find_first (is_same_pair r) db.connections ≡ none))
                added))
unfolding suggest_many
suggest_many_offers now user_id source ps db =
    insert_all_lem _ (proposed_rows now user_id source ps) db.connections (
      All-proposed_rows (λ p. Unit {0}) _ now user_id source ps
        (λ p n u. unfold proposed in (refl, (refl, refl))) (units ps))
  where
    units : (qs : List Proposal) → All (λ p. Unit {0}) qs
    units [] = tt
    units (q ∷ qs) = (tt, units qs)

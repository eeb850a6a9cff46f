-- ===== src/Connection/Mirror.antt =====
-- Neighbourhoods of app/repositories/connection.py, read from either end of an edge.
use recall_ai.Base.{
  ℕ, ◌+◌, Bool, ◌&&◌, Option, none, some, List, [], ◌∷◌, ◌++◌, ◌≡◌, refl, sym, ap, ◌∙◌, arith, ◌==◌,
  ==_iff, bit, inl, inr, Bool-cases, map, select_where, count_where, count_where-append,
}
use recall_ai.Proposal.Row.{Relation}
use recall_ai.Connection.Row.{ConnectionStatus}
use recall_ai.Connection.Reads.{
  Neighbour, Half, out_half, in_half, halves, found_item, joined, wanted_or_confirmed, is_wanted,
  is_relation, is_listed, neighbours,
}
use recall_ai.Vault.Row.{VaultItem, Db}
use recall_ai.Vault.Repository.{get, get_row}
use recall_ai.Vault.Lifecycle.{live_of-some, row_id}

module _ {ℓ κ} {A : Type ℓ} {B : Type κ} where
  count_where-map :
      (q : B → Bool) (f : A → B) (xs : List A)
      → count_where q (map f xs) ≡ count_where (λ x. q (f x)) xs
  unfolding count_where
  count_where-map q f [] = refl
  count_where-map q f (x ∷ xs) = ap (λ n. bit (q (f x)) + n) (count_where-map q f xs)

module _ {ℓ} {A : Type ℓ} where
  count_where-select_where :
      (q p : A → Bool) (xs : List A)
      → count_where q (select_where p xs) ≡ count_where (λ x. p x && q x) xs
  unfolding count_where select_where
  count_where-select_where q p [] = refl
  count_where-select_where q p (x ∷ xs) =
      let rest = count_where-select_where q p xs in
      elim (Bool-cases (p x)) [
        | inl e ↦ rw e (ap (λ n. bit (q x) + n) rest)
        | inr e ↦ rw e (omega (arith, rest))
      ]

  count_where-same :
      (q p : A → Bool) (xs : List A) → ((x : A) → q x ≡ p x) → count_where q xs ≡ count_where p xs
  unfolding count_where
  count_where-same q p [] k = refl
  count_where-same q p (x ∷ xs) k = omega (arith, ap bit (k x), count_where-same q p xs k)

turned : (u x w y : Bool) → ((u && (x && w)) && y) ≡ ((u && (y && w)) && x)
turned u x w y = ground arith

abbrev pub is_item : ℕ → Neighbour → Bool
is_item t n = n.item.id == t

module _ (user_id : ℕ) (db : Db) where
  got_id : (n : ℕ) {i : VaultItem} → get n user_id db ≡ some i → i.id ≡ n
  unfolding get
  got_id n h = row_id n db (live_of-some user_id (get_row n db) h).0

  one_more :
      (t : ℕ) {b : VaultItem} (h : Half) (o : Option VaultItem) (rest : List Neighbour)
      → get t user_id db ≡ some b
      → get h.neighbour_id user_id db ≡ o
      → count_where (is_item t) (found_item h o rest)
        ≡ bit (h.neighbour_id == t) + count_where (is_item t) rest
  unfolding count_where
  one_more t h none rest e g = elim (Bool-cases (h.neighbour_id == t)) [
    | inl m ↦
        let same : get t user_id db ≡ none =
          ap (λ n. get n user_id db) (sym ((==_iff _ _).0 m)) ∙ g in
        absurd (cc (e, same))
    | inr m ↦ rw m (omega arith)
  ]
  one_more t h (some i) rest e g =
      ap (λ n. bit (n == t) + count_where (is_item t) rest) (got_id h.neighbour_id g)

  -- A live memory of the caller's is among the joined ones as often as the edges lead to it.
  count_joined :
      (t : ℕ) {b : VaultItem} (hs : List Half)
      → get t user_id db ≡ some b
      → count_where (is_item t) (joined user_id db hs) ≡ count_where (λ h. h.neighbour_id == t) hs
  unfolding joined count_where
  count_joined t [] e = refl
  count_joined t {b} (h ∷ hs) e =
      one_more t h (get h.neighbour_id user_id db) (joined user_id db hs) e refl
      ∙ ap (λ n. bit (h.neighbour_id == t) + n) (count_joined t hs e)

  -- The edges from `s` that lead to `t`, by the side that they are read from.
  leads : ℕ → ℕ → List ConnectionStatus → Option Relation → Half → Bool
  leads s t statuses relation h = is_listed user_id s statuses relation h && h.neighbour_id == t

  count_neighbours :
      (s t : ℕ) {b : VaultItem} (statuses : List ConnectionStatus) (relation : Option Relation)
      → get t user_id db ≡ some b
      → count_where (is_item t) (neighbours user_id s statuses relation db)
        ≡ count_where (λ c. leads s t statuses relation (out_half c)) db.connections
          + count_where (λ c. leads s t statuses relation (in_half c)) db.connections
  unfolding halves leads
  count_neighbours s t statuses relation e =
      let mine = is_listed user_id s statuses relation in
      let edges = db.connections in
      count_joined t (select_where mine (map out_half edges ++ map in_half edges)) e
      ∙ count_where-select_where (λ h. h.neighbour_id == t) mine
          (map out_half edges ++ map in_half edges)
      ∙ count_where-append (λ h. mine h && h.neighbour_id == t) (map out_half edges)
          (map in_half edges)
      ∙ ap (λ n. n + count_where (λ h. mine h && h.neighbour_id == t) (map in_half edges))
          (count_where-map (λ h. mine h && h.neighbour_id == t) out_half edges)
      ∙ ap (λ n. count_where (λ c. mine (out_half c) && c.target_item_id == t) edges + n)
          (count_where-map (λ h. mine h && h.neighbour_id == t) in_half edges)

  -- Being connected has no side: of two live memories of the caller's, each stands among the other's
  -- neighbours equally often, for any choice of statuses and of a relation.
  pub neighbours_are_mutual :
      (s t : ℕ) (a b : VaultItem) (statuses : List ConnectionStatus) (relation : Option Relation)
      → get s user_id db ≡ some a
      → get t user_id db ≡ some b
      → count_where (is_item t) (neighbours user_id s statuses relation db)
        ≡ count_where (is_item s) (neighbours user_id t statuses relation db)
  neighbours_are_mutual s t a b statuses relation ga gb =
      let out_in =
        count_where-same (λ c. leads s t statuses relation (out_half c))
          (λ c. leads t s statuses relation (in_half c)) db.connections
          (λ c.
            unfold leads is_listed in
            turned (c.user_id == user_id) (c.source_item_id == s)
              (is_wanted (wanted_or_confirmed statuses) c.status && is_relation relation c.relation)
              (c.target_item_id == t)) in
      let in_out =
        count_where-same (λ c. leads s t statuses relation (in_half c))
          (λ c. leads t s statuses relation (out_half c)) db.connections
          (λ c.
            unfold leads is_listed in
            turned (c.user_id == user_id) (c.target_item_id == s)
              (is_wanted (wanted_or_confirmed statuses) c.status && is_relation relation c.relation)
              (c.source_item_id == t)) in
      omega (
        arith,
        out_in,
        in_out,
        count_neighbours s t statuses relation gb,
        count_neighbours t s statuses relation ga,
      )

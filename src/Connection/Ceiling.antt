-- ===== src/Connection/Ceiling.antt =====
-- How many edges a memory may get by itself: `derive` of app/services/connection_derivation.py.
use recall_ai.Base.{
  ℕ, suc, ◌+◌, ◌-◌, ◌≤◌, ◌<◌, Bool, true, false, not, ◌&&◌, ◌||◌, Option, none, some, List, [], ◌∷◌,
  ◌++◌, ◌≡◌, refl, sym, ap, ◌∙◌, arith, ◌==◌, ==_iff, ltb, min, max, inl, inr, Bool-cases, length,
  length-take, take, map, select_where, count_where, count_where-append, length-selected,
}
use recall_ai.Proposal.Row.{related_to}
use recall_ai.Connection.Row.{MemoryConnection}
use recall_ai.Connection.Repository.{
  Proposal, count_for_item, proposed_rows, is_taken, insert_all, suggest_many,
}
use recall_ai.Connection.Suggest.{suggest_many_offers}
use recall_ai.Connection.Derive.{
  Policy, World, Judgement, Candidate, ceiling_of, recall, floor_only, keys_from, validated,
  keyed_from, propose_found, propose, judged, decide, derive_from, derive_found, derive, vector_for,
  is_strong, proposal,
}
use recall_ai.Vault.Row.{VaultItem, Db}
use recall_ai.Vault.Repository.{is_among, get_unscoped}
use recall_ai.Vault.Trash.{touches}

module _ {ℓ} {A : Type ℓ} where
  length-take_le :
      (n : ℕ) (xs : List A) → (length (take n xs) ≤ n) × (length (take n xs) ≤ length xs)
  length-take_le n xs = let e = length-take n xs in (omega (arith, e), omega (arith, e))

  length-take-min : (m n : ℕ) (xs : List A) → length (take (min m n) xs) ≤ n
  length-take-min m n xs = omega (arith, (length-take_le (min m n) xs).0)

  count_le : (q : A → Bool) (xs : List A) → count_where q xs ≤ length xs
  unfolding count_where
  count_le q [] = omega arith
  count_le q (x ∷ xs) = elim (Bool-cases (q x)) [
    | inl e ↦ rw e (omega (arith, count_le q xs))
    | inr e ↦ rw e (omega (arith, count_le q xs))
  ]

-- The judge answers for each candidate once at most.
abbrev left : List ℕ → List ℕ → ℕ
left seen allowed = count_where (λ k. not (is_among k seen)) allowed

fewer : (key : ℕ) (seen allowed : List ℕ) → left (key ∷ seen) allowed ≤ left seen allowed
unfolding is_among count_where
fewer key seen [] = omega arith
fewer key seen (k ∷ ks) = elim (Bool-cases (key == k)) [
  | inl e ↦ rw e (omega (arith, fewer key seen ks))
  | inr e ↦ rw e (omega (arith, fewer key seen ks))
]

one_less :
    (key : ℕ) (seen allowed : List ℕ)
    → is_among key allowed ≡ true
    → is_among key seen ≡ false
    → suc (left (key ∷ seen) allowed) ≤ left seen allowed
unfolding is_among count_where
one_less key seen [] a s = absurd (cc)
one_less key seen (k ∷ ks) a s = elim (Bool-cases (key == k)) [
  | inl e ↦
      let same : is_among k seen ≡ false =
        ap (λ n. is_among n seen) (sym ((==_iff key k).0 e)) ∙ s in
      rw (e, same) (omega (arith, fewer key seen ks))
  | inr e ↦
      let later : is_among key ks ≡ true = ground (arith, a, e) in
      rw e (omega (arith, one_less key seen ks later s))
]

validated_bound :
    (allowed seen : List ℕ) (js : List Judgement)
    → length (validated allowed seen js) ≤ left seen allowed
unfolding validated
validated_bound allowed seen [] = omega arith
validated_bound allowed seen (j ∷ js) =
    elim (Bool-cases (not (is_among j.key allowed) || is_among j.key seen)) [
      | inl e ↦ rw e (validated_bound allowed seen js)
      | inr e ↦
          let sent : is_among j.key allowed ≡ true = ground (arith, e) in
          let new : is_among j.key seen ≡ false = ground (arith, e) in
          rw e (
            omega (
              arith,
              validated_bound allowed (j.key ∷ seen) js,
              one_less j.key seen allowed sent new,
            ))
    ]

length-keys_from : (n : ℕ) (cs : List Candidate) → length (keys_from n cs) ≡ length cs
unfolding keys_from
length-keys_from n [] = refl
length-keys_from n (c ∷ cs) = ap suc (length-keys_from (n + 1) cs)

module _ (w : World) (p : Policy) where
  length-propose :
      (found : List Candidate) (js : List Judgement) → length (propose w p found js) ≤ length js
  unfolding propose
  length-propose found [] = omega arith
  length-propose found (j ∷ js) =
      one_more (keyed_from 1 found j.key) (propose w p found js) (length-propose found js)
    where
      one_more :
          (o : Option Candidate) (rest : List Proposal)
          → length rest ≤ length js
          → length (propose_found w p j o rest) ≤ suc (length js)
      one_more none rest h = omega (arith, h)
      one_more (some c) rest h =
          elim (Bool-cases (not j.keep || ltb j.confidence p.min_confidence)) [
            | inl e ↦ rw e (omega (arith, h))
            | inr e ↦ rw e (omega (arith, h))
          ]

  length-map : (g : Candidate → Proposal) (cs : List Candidate) → length (map g cs) ≡ length cs
  length-map g [] = refl
  length-map g (c ∷ cs) = ap suc (length-map g cs)

  floor_bound : (found : List Candidate) → length (floor_only w p found) ≤ length found
  unfolding floor_only
  floor_bound found =
      let strong = select_where (is_strong p) found in
      let g : Candidate → Proposal = λ c. proposal w c related_to none false in
      omega (
        arith,
        (length-take_le p.max_candidates (map g strong)).1,
        length-map g strong,
        length-selected (is_strong p) found,
        count_le (is_strong p) found,
      )

  -- However the judge answers, no more is proposed than was recalled.
  judged_bound :
      (found : List Candidate) (raw : Option (List Judgement))
      → length (judged w p found raw) ≤ length found
  unfolding judged
  judged_bound found none = floor_bound found
  judged_bound found (some raw) =
      let allowed = keys_from 1 (take 12 found) in
      let js = validated allowed [] raw in
      let ps = propose w p found js in
      let sent = count_le (λ k. not (is_among k [])) allowed in
      elim (Bool-cases (length ps == 0 && length js == 0)) [
        | inl e ↦ rw e (floor_bound found)
        | inr e ↦ rw e (
            omega (
              arith,
              (length-take_le p.max_candidates ps).1,
              length-propose found js,
              validated_bound allowed [] raw,
              length-keys_from 1 (take 12 found),
              (length-take_le 12 found).1,
              sent,
            ))
      ]

  recall_bound :
      (i : VaultItem) (vector : List ℕ) (room : ℕ) (db : Db)
      → length (recall w p i vector room db) ≤ room
  unfolding recall
  recall_bound i vector room db = length-take-min (ceiling_of p) room _

length-proposed_rows :
    (now user_id source : ℕ) (ps : List Proposal)
    → length (proposed_rows now user_id source ps) ≤ length ps
unfolding proposed_rows
length-proposed_rows now user_id source [] = omega arith
length-proposed_rows now user_id source (p ∷ ps) = elim (Bool-cases (p.target_id == source)) [
  | inl e ↦ rw e (omega (arith, length-proposed_rows now user_id source ps))
  | inr e ↦ rw e (omega (arith, length-proposed_rows now user_id source ps))
]

insert_all_bound : (rows edges : List MemoryConnection) → (insert_all rows edges).0 ≤ length rows
unfolding insert_all
insert_all_bound [] edges = omega arith
insert_all_bound (r ∷ rs) edges = elim (Bool-cases (is_taken r edges)) [
  | inl e ↦ rw e (omega (arith, insert_all_bound rs edges))
  | inr e ↦ rw e (omega (arith, insert_all_bound rs (edges ++ r ∷ [])))
]

-- A derivation raises the count of a memory by what it offers at most.
count_after :
    (now user_id item_id : ℕ) (ps : List Proposal) (db : Db)
    → count_for_item user_id item_id (suggest_many now user_id item_id ps db).1
      ≤ count_for_item user_id item_id db + length ps
unfolding count_for_item
count_after now user_id item_id ps db =
    let offered = suggest_many_offers now user_id item_id ps db in
    let q : MemoryConnection → Bool = λ c. c.user_id == user_id && touches item_id c in
    let rows = proposed_rows now user_id item_id ps in
    let written : (suggest_many now user_id item_id ps db).0 ≤ length rows =
      unfold suggest_many in insert_all_bound rows db.connections in
    omega (
      arith,
      ap (count_where q) offered.1.0,
      count_where-append q db.connections offered.0,
      count_le q offered.0,
      offered.1.1.0,
      written,
      length-proposed_rows now user_id item_id ps,
    )

module _ (w : World) (p : Policy) (now item_id : ℕ) (db : Db) where
  derive_from_bound :
      (i : VaultItem) (o : Option (List ℕ))
      → count_for_item i.user_id item_id (derive_from w p now item_id i o db).1
        ≤ max (count_for_item i.user_id item_id db) p.max_per_item
  unfolding derive_from decide
  derive_from_bound i none = omega arith
  derive_from_bound i (some vector) =
      let held = count_for_item i.user_id item_id db in
      let room = p.max_per_item - held in
      let found = recall w p i vector room db in
      let ps = judged w p found (w.judge i found) in
      elim (Bool-cases (room == 0 || length found == 0)) [
        | inl e ↦ rw e (omega arith)
        | inr e ↦
            let some_room : 0 < room = ground (arith, e) in
            rw e (
              omega (
                arith,
                some_room,
                count_after now i.user_id item_id ps db,
                judged_bound w p found (w.judge i found),
                recall_bound w p i vector room db,
              ))
      ]

  -- A derivation for a memory never takes it past the ceiling: afterwards its owner's edges that touch it,
  -- in any state, are as many as before or within the ceiling, whatever the vectors say and however
  -- the judge answers.
  pub derive_keeps_ceiling :
      (i : VaultItem)
      → get_unscoped item_id db ≡ some i
      → count_for_item i.user_id item_id (derive w p now item_id db).1
        ≤ max (count_for_item i.user_id item_id db) p.max_per_item
  unfolding derive
  derive_keeps_ceiling i there =
      rw there (unfold derive_found in derive_from_bound i (vector_for item_id db))

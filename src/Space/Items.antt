-- ===== src/Space/Items.antt =====
-- Adding memories to a Space: what `attach` counts, and that adding again adds nothing.
use recall_ai.Base.{
  ℕ, ◌+◌, ◌-◌, ◌≤◌, Bool, true, List, [], ◌∷◌, ◌++◌, ◌≡◌, refl, ap, ◌∙◌, arith, inl, inr,
  Bool-cases, is_some, length, length-take, All, find_first, select_where,
  is_some-find_first-append, is_some-find_first-last, length-select_where,
}
use recall_ai.Space.Row.{SpaceItem, Db}
use recall_ai.Space.Repository.{
  is_item, insert_item, insert_items, add_items as insert_own_items, vault_get,
}
use recall_ai.Space.Service.{
  AddResult, attach, wanted, is_owned, max_items_per_request, dedupe_from,
}

-- The memory is in the Space.
abbrev pub is_present : ℕ → List SpaceItem → ℕ → Bool
is_present space_id items i = is_some (find_first (is_item space_id i) items)

module _ (space_id added_by now : ℕ) where
  abbrev row : ℕ → SpaceItem
  row i = record { space_id = space_id; vault_item_id = i; added_by = added_by; added_at = now }

  abbrev inserted : List ℕ → List SpaceItem → ℕ × List SpaceItem
  inserted ids items = insert_items space_id added_by now ids items

  kept_by_insert :
      (i j : ℕ) (items : List SpaceItem)
      → is_present space_id items j ≡ true
      → is_present space_id (insert_item (row i) items).1 j ≡ true
  unfolding insert_item
  kept_by_insert i j items h = elim (Bool-cases (is_present space_id items i)) [
    | inl e ↦ rw e h
    | inr e ↦ rw e (is_some-find_first-append (is_item space_id j) items (row i ∷ []) h)
  ]

  there_after_insert :
      (i : ℕ) (items : List SpaceItem) → is_present space_id (insert_item (row i) items).1 i ≡ true
  unfolding insert_item
  there_after_insert i items = elim (Bool-cases (is_present space_id items i)) [
    | inl e ↦ rw e e
    | inr e ↦ rw e (is_some-find_first-last (is_item space_id i) items (row i) (ground arith))
  ]

  kept_by_inserts :
      (ids : List ℕ) (j : ℕ) (items : List SpaceItem)
      → is_present space_id items j ≡ true
      → is_present space_id (inserted ids items).1 j ≡ true
  unfolding insert_items
  kept_by_inserts [] j items h = h
  kept_by_inserts (i ∷ ids) j items h =
      kept_by_inserts ids j (insert_item (row i) items).1 (kept_by_insert i j items h)

  there_after_inserts :
      (ids : List ℕ) (items : List SpaceItem)
      → All (λ i. is_present space_id (inserted ids items).1 i ≡ true) ids
  unfolding insert_items
  there_after_inserts [] items = tt
  there_after_inserts (i ∷ ids) items =
      let items' = (insert_item (row i) items).1 in
      (kept_by_inserts ids i items' (there_after_insert i items), there_after_inserts ids items')

  -- Nothing is inserted where everything is there.
  nothing_inserted :
      (ids : List ℕ) (items : List SpaceItem)
      → All (λ i. is_present space_id items i ≡ true) ids
      → inserted ids items ≡ (0, items)
  unfolding insert_items insert_item
  nothing_inserted [] items h = refl
  nothing_inserted (i ∷ ids) items h = rw (h.0) (rw (nothing_inserted ids items h.1) refl)

  inserted_count : (ids : List ℕ) (items : List SpaceItem) → (inserted ids items).0 ≤ length ids
  unfolding insert_items insert_item
  inserted_count [] items = omega arith
  inserted_count (i ∷ ids) items = elim (Bool-cases (is_present space_id items i)) [
    | inl e ↦ rw e (omega (arith, inserted_count ids items))
    | inr e ↦ rw e (omega (arith, inserted_count ids (items ++ row i ∷ [])))
  ]

abbrev again_result : List ℕ → AddResult
again_result ids = record { added = 0; skipped = length (wanted ids) }

-- One request accounts for each distinct id that it names, up to the cap: added and skipped sum to
-- that number, which is at most 100.
pub attach_accounts :
    (now space_id actor_id : ℕ) (ids : List ℕ) (db : Db)
    → ((attach now space_id actor_id ids db).0.added
          + (attach now space_id actor_id ids db).0.skipped
        ≡ length (wanted ids))
      × (length (wanted ids) ≤ max_items_per_request)
unfolding attach insert_own_items wanted
attach_accounts now space_id actor_id ids db =
    let asked = wanted ids in
    let allowed = select_where (is_owned actor_id db) asked in
    (
      omega (
        arith,
        inserted_count space_id actor_id now allowed db.items,
        length-select_where (is_owned actor_id db) asked,
      ),
      omega (arith, length-take max_items_per_request (dedupe_from [] ids)),
    )

-- Adding the same selection again, at any later time, adds nothing, skips everything and leaves the
-- database as it is.
pub attach-attach :
    (now later space_id actor_id : ℕ) (ids : List ℕ) (db : Db)
    → let db' = (attach now space_id actor_id ids db).1 in
      attach later space_id actor_id ids db'
      ≡ (record { added = 0; skipped = length (wanted ids) }, db')
unfolding attach insert_own_items vault_get
attach-attach now later space_id actor_id ids db =
    let allowed = select_where (is_owned actor_id db) (wanted ids) in
    let items = (insert_items space_id actor_id now allowed db.items).1 in
    let none_missing : insert_items space_id actor_id later allowed items ≡ (0, items) =
      nothing_inserted space_id actor_id later allowed items
        (there_after_inserts space_id actor_id now allowed db.items) in
    let all_skipped : length (wanted ids) - 0 ≡ length (wanted ids) = omega arith in
    ap
      (λ (p : ℕ × List SpaceItem).
        (record { added = p.0; skipped = length (wanted ids) - p.0 }, record db { items = p.1 }))
      none_missing
    ∙ ap (λ (n : ℕ). (record { added = 0; skipped = n }, record db { items = items })) all_skipped

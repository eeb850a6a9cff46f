-- ===== src/Pipeline/Stranded.antt =====
-- Which rows the sweep of stranded items writes, and which it leaves alone: app/queue/tasks.py.
use recall_ai.Base.{
  ℕ, ◌-◌, ◌∙◌, Bool, true, false, not, ◌&&◌, some, some-injective, List, [], ◌∷◌, ◌≡◌, ◌≢◌, refl,
  sym, ap, arith, ltb, leb, is_none, inl, inr, Bool-cases, All, All-map, All-take, Distinct,
  Distinct-save, select_where, order_asc, All-order_asc, found_select_where, find_first, with_key,
}
use mathlib.Core.Path.{subst}
use recall_ai.Vault.Row.{ProcessingStatus, pending, processing, VaultItem, Db, minutes}
use recall_ai.Vault.Repository.{
  item_key, flush_row, get_row, has_status, has_running, list_stranded,
}
use recall_ai.Vault.Lifecycle.{get_row-flush_row_other}
use recall_ai.Pipeline.Sweep.{
  Settings, Counts, pending_row, queued_again, counted, sweep_pending, sweep_all_pending,
  abandoned_row, sweep_all_processing, sweep_stranded_items,
}

-- A stranded row is in the table, with the status.
pub stranded_rows :
    (now : ℕ) (status : ProcessingStatus) (age limit : ℕ) (db : Db)
    → Distinct item_key db.items
    → All
        (λ x. (get_row x.id db ≡ some x) × (has_status status x ≡ true))
        (list_stranded now status age limit db)
unfolding list_stranded get_row
stranded_rows now status age limit db d =
    let q : VaultItem → Bool = λ i.
      has_status status i
      && (ltb i.updated_at (now - minutes age)
          && (is_none i.deleted_at && not (has_running i.id db.runs))) in
    let chosen = select_where q db.items in
    let right : (x : VaultItem) → q x ≡ true → has_status status x ≡ true =
      λ x h. ground (arith, h) in
    All-map _ _ _ (λ x h. (h.0, right x h.1))
      (All-take _ limit (order_asc (λ i. i.updated_at) chosen)
        ((All-order_asc (λ i. i.updated_at) _ chosen).0 (found_select_where item_key q db.items d)))

module _ (s : Settings) (up : ℕ → Bool) (now : ℕ) where
  pub sweep_pending_items :
      (i : VaultItem) (db : Db)
      → (sweep_pending s up now i db).items ≡ (flush_row now (pending_row s i) db).items
  unfolding sweep_pending
  sweep_pending_items i db = elim (Bool-cases (queued_again s up i)) [
    | inl e ↦ rw e refl
    | inr e ↦ rw e refl
  ]

  pub pending_row_id : (i : VaultItem) → (pending_row s i).id ≡ i.id
  unfolding pending_row
  pending_row_id i = elim (Bool-cases (leb s.max_sweep_requeues i.retry_count)) [
    | inl e ↦ rw e refl
    | inr e ↦ rw e refl
  ]

  pub sweep_pending-Distinct :
      (i : VaultItem) (db : Db)
      → Distinct item_key db.items
      → Distinct item_key (sweep_pending s up now i db).items
  sweep_pending-Distinct i db d = subst (Distinct item_key) (sym (sweep_pending_items i db)) (
      unfold flush_row in
      Distinct-save item_key (record (pending_row s i) { updated_at = now }) db.items d)

  -- A row of another id is as it was, and the ids stay distinct.
  abbrev Kept : ℕ → Db → Db → Type 0
  Kept n db db' =
      (get_row n db' ≡ get_row n db) × (Distinct item_key db.items → Distinct item_key db'.items)

  sweep_all_pending-Kept :
      (n : ℕ) (rows : List VaultItem) (o : Counts × Db)
      → All (λ x. x.id ≢ n) rows
      → Kept n o.1 (sweep_all_pending s up now rows o).1
  unfolding sweep_all_pending get_row
  sweep_all_pending-Kept n [] o a = (refl, λ d. d)
  sweep_all_pending-Kept n (i ∷ rows) o a =
      let rest =
        sweep_all_pending-Kept n rows (counted s up i o.0, sweep_pending s up now i o.1) a.1 in
      let other : (pending_row s i).id ≢ n = λ e. a.0 (sym (pending_row_id i) ∙ e) in
      (
        rest.0
            ∙ ap (find_first (with_key item_key n)) (sweep_pending_items i o.1)
            ∙ get_row-flush_row_other n now (pending_row s i) o.1 other,
        λ d. rest.1 (sweep_pending-Distinct i o.1 d),
      )

  sweep_all_processing-Kept :
      (n : ℕ) (rows : List VaultItem) (o : Counts × Db)
      → All (λ x. x.id ≢ n) rows
      → get_row n (sweep_all_processing now rows o).1 ≡ get_row n o.1
  unfolding sweep_all_processing
  sweep_all_processing-Kept n [] o a = refl
  sweep_all_processing-Kept n (i ∷ rows) o a =
      let other : (abandoned_row i).id ≢ n = unfold abandoned_row in a.0 in
      sweep_all_processing-Kept n rows _ a.1
      ∙ get_row-flush_row_other n now (abandoned_row i) o.1 other

  -- A row without the status is none of the stranded ones.
  pub not_stranded :
      (n : ℕ) (status : ProcessingStatus) (age : ℕ) (db : Db) {i : VaultItem}
      → Distinct item_key db.items
      → get_row n db ≡ some i
      → has_status status i ≡ false
      → All (λ x. x.id ≢ n) (list_stranded now status age 100 db)
  not_stranded n status age db {i} d held without =
      All-map _ _ _
        (λ x h e.
          let same : x ≡ i = some-injective _ _ (sym h.0 ∙ ap (λ m. get_row m db) e ∙ held) in
          cc (ap (has_status status) same, h.1, without))
        (stranded_rows now status age 100 db d)

-- The sweep of stranded items writes no row that is neither pending nor processing: a finished, failed
-- or skipped item is as it was. The ids are distinct.
pub sweep_leaves_finished :
    (s : Settings) (up : ℕ → Bool) (now n : ℕ) (db : Db) (i : VaultItem)
    → Distinct item_key db.items
    → get_row n db ≡ some i
    → has_status pending i ≡ false
    → has_status processing i ≡ false
    → get_row n (sweep_stranded_items s up now db).1 ≡ some i
unfolding sweep_stranded_items
sweep_leaves_finished s up now n db i d held no_pending no_processing =
    let start : Counts = record { requeued = 0; failed = 0 } in
    let rows = list_stranded now pending s.stuck_pending_minutes 100 db in
    let first = sweep_all_pending s up now rows (start, db) in
    let kept =
      sweep_all_pending-Kept s up now n rows (start, db)
        (not_stranded s up now n pending s.stuck_pending_minutes db d held no_pending) in
    let held' = kept.0 ∙ held in
    sweep_all_processing-Kept s up now n
      (list_stranded now processing s.stuck_processing_minutes 100 first.1) first
      (not_stranded s up now n processing s.stuck_processing_minutes first.1 (kept.1 d) held'
        no_processing)
    ∙ held'

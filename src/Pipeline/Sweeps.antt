-- ===== src/Pipeline/Sweeps.antt =====
-- What sweep after sweep makes of one item: `_sweep_stranded_items` of app/queue/tasks.py.
use recall_ai.Base.{
  ℕ, ◌+◌, ◌∙◌, Bool, true, false, ◌&&◌, some, some-injective, List, [], ◌∷◌, ◌≡◌, ◌≢◌, refl, sym,
  ap, arith, bit, is_some, ◌==◌, ==_iff, inl, inr, Bool-cases, if◌then◌else◌, All, All-map,
  Distinct, Distinct-save, Distinct-select_where, Distinct-order_asc, Distinct-take, find_first,
  with_key, count_where, count_where-append,
}
use recall_ai.Vault.Row.{ProcessingStatus, VaultItem, Db}
use recall_ai.Vault.Repository.{item_key, flush_row, get_row, has_status, list_stranded}
use recall_ai.Vault.Lifecycle.{get_row-flush_row, get_row-flush_row_other}
use recall_ai.Pipeline.Sweep.{
  Settings, Counts, pending_row, queued_again, counted, sweep_pending, sweep_all_pending,
  abandoned_row, sweep_all_processing,
}
use recall_ai.Pipeline.Stranded.{
  stranded_rows, sweep_pending_items, pending_row_id, sweep_pending-Distinct,
}

-- How often an item stands in the queue.
abbrev pub queued : ℕ → Db → ℕ
queued n db = count_where (λ q. q == n) db.queue

-- Whether an item is among some rows.
abbrev pub is_stranded : ℕ → List VaultItem → Bool
is_stranded n rows = is_some (find_first (with_key item_key n) rows)

pub Distinct-list_stranded :
    (now : ℕ) (status : ProcessingStatus) (age : ℕ) (db : Db)
    → Distinct item_key db.items
    → Distinct item_key (list_stranded now status age 100 db)
unfolding list_stranded
Distinct-list_stranded now status age db d = Distinct-take item_key 100 _ (
    Distinct-order_asc item_key (λ i. i.updated_at) _ (Distinct-select_where item_key _ db.items d))

module _ (s : Settings) (up : ℕ → Bool) (now n : ℕ) where
  -- The one row that a list of current rows may hold of an item.
  abbrev pub Only : VaultItem → List VaultItem → Type 0
  Only i rows = All (λ x. x.id ≡ n → x ≡ i) rows

  pub Only-list_stranded :
      (status : ProcessingStatus) (age : ℕ) (db : Db) (i : VaultItem)
      → Distinct item_key db.items
      → get_row n db ≡ some i
      → Only i (list_stranded now status age 100 db)
  Only-list_stranded status age db i d held =
      All-map (λ x. (get_row x.id db ≡ some x) × (has_status status x ≡ true)) _ _
        (λ x h e. some-injective _ _ (sym h.0 ∙ ap (λ m. get_row m db) e ∙ held))
        (stranded_rows now status age 100 db d)

  pub not_in_rows : (rows : List VaultItem) → All (λ x. x.id ≢ n) rows → is_stranded n rows ≡ false
  unfolding find_first
  not_in_rows [] a = refl
  not_in_rows (x ∷ rows) a = elim (Bool-cases (x.id == n)) [
    | inl e ↦ absurd (a.0 ((==_iff _ _).0 e))
    | inr e ↦ rw e (not_in_rows rows a.1)
  ]

  abbrev pub requeued : VaultItem → VaultItem
  requeued i = record (pending_row s i) { updated_at = now }

  bit_and : (b : Bool) → bit b ≡ bit (b && true)
  bit_and true = refl
  bit_and false = refl

  bit_and_false : (b : Bool) → 0 ≡ bit (b && false)
  bit_and_false true = refl
  bit_and_false false = refl

  sweep_pending_queue :
      (i : VaultItem) (db : Db)
      → queued n (sweep_pending s up now i db)
        ≡ queued n db + bit (i.id == n && queued_again s up i)
  unfolding sweep_pending flush_row
  sweep_pending_queue i db = elim (Bool-cases (queued_again s up i)) [
    | inl e ↦
        let more = count_where-append (λ q. q == n) db.queue (i.id ∷ []) in
        let one : count_where (λ q. q == n) (i.id ∷ []) ≡ bit (i.id == n) + 0 =
          unfold count_where in refl in
        rw e (omega (arith, more, one, bit_and (i.id == n)))
    | inr e ↦ rw e (omega (arith, bit_and_false (i.id == n)))
  ]

  sweep_pending_row :
      (i : VaultItem) (db : Db)
      → i.id ≡ n
      → get_row n (sweep_pending s up now i db) ≡ some (requeued i)
  unfolding get_row
  sweep_pending_row i db named =
      ap (find_first (with_key item_key n)) (sweep_pending_items s up now i db)
      ∙ ap (λ (m : ℕ). get_row m (flush_row now (pending_row s i) db))
          (sym (pending_row_id s up now i ∙ named))
      ∙ get_row-flush_row now (pending_row s i) db

  sweep_pending_row_other :
      (i : VaultItem) (db : Db) → i.id ≢ n → get_row n (sweep_pending s up now i db) ≡ get_row n db
  unfolding get_row
  sweep_pending_row_other i db other =
      ap (find_first (with_key item_key n)) (sweep_pending_items s up now i db)
      ∙ get_row-flush_row_other n now (pending_row s i) db
          (λ e. other (sym (pending_row_id s up now i) ∙ e))

  -- The pass over the rows that wait: the item's row and its entries in the queue.
  pub sweep_all_pending_lem :
      (rows : List VaultItem) (o : Counts × Db) (i : VaultItem)
      → Distinct item_key rows
      → Only i rows
      → get_row n o.1 ≡ some i
      → let db' = (sweep_all_pending s up now rows o).1 in
        (get_row n db' ≡ some (if is_stranded n rows then requeued i else i))
        × (queued n db' ≡ queued n o.1 + bit (is_stranded n rows && queued_again s up i))
  unfolding sweep_all_pending find_first
  sweep_all_pending_lem [] o i d only held = (held, omega arith)
  sweep_all_pending_lem (x ∷ rows) o i d only held =
      let o' : Counts × Db = (counted s up x o.0, sweep_pending s up now x o.1) in
      let more = sweep_pending_queue x o.1 in
      elim (Bool-cases (x.id == n)) [
        | inl e ↦
            let named = (==_iff _ _).0 e in
            let same : x ≡ i = only.0 named in
            let gone : All (λ y. y.id ≢ n) rows =
              All-map _ _ rows (λ y h q. h (q ∙ sym named)) d.0 in
            let absent = not_in_rows rows gone in
            let rest =
              sweep_all_pending_lem rows o' (requeued x) d.1
                (All-map _ _ rows (λ y h q. absurd (h q)) gone) (sweep_pending_row x o.1 named) in
            let row : get_row n (sweep_all_pending s up now rows o').1 ≡ some (requeued x) =
              rw absent at rest.0 in
            let again = ap (λ y. bit (queued_again s up y)) same in
            rw e (
              row ∙ ap (λ y. some (requeued y)) same,
              omega (arith, rw absent at rest.1, rw e at more, again),
            )
        | inr e ↦
            let other : x.id ≢ n = λ q. cc ((==_iff _ _).1 q, e) in
            let rest =
              sweep_all_pending_lem rows o' i d.1 only.1
                (sweep_pending_row_other x o.1 other ∙ held) in
            rw e (rest.0, omega (arith, rest.1, rw e at more))
      ]

  pub sweep_all_pending-Distinct :
      (rows : List VaultItem) (o : Counts × Db)
      → Distinct item_key o.1.items
      → Distinct item_key (sweep_all_pending s up now rows o).1.items
  unfolding sweep_all_pending
  sweep_all_pending-Distinct [] o d = d
  sweep_all_pending-Distinct (x ∷ rows) o d =
      sweep_all_pending-Distinct rows (counted s up x o.0, sweep_pending s up now x o.1)
        (sweep_pending-Distinct s up now x o.1 d)

  abbrev pub dropped : VaultItem → VaultItem
  dropped i = record (abandoned_row i) { updated_at = now }

  -- The pass over the rows that a worker abandoned.
  pub sweep_all_processing_lem :
      (rows : List VaultItem) (o : Counts × Db) (i : VaultItem)
      → Distinct item_key rows
      → Only i rows
      → get_row n o.1 ≡ some i
      → Distinct item_key o.1.items
      → let db' = (sweep_all_processing now rows o).1 in
        (get_row n db' ≡ some (if is_stranded n rows then dropped i else i))
        × (db'.queue ≡ o.1.queue)
        × Distinct item_key db'.items
  unfolding sweep_all_processing find_first
  sweep_all_processing_lem [] o i d only held distinct = (held, refl, distinct)
  sweep_all_processing_lem (x ∷ rows) o i d only held distinct =
      let o' : Counts × Db =
        (record o.0 { failed = o.0.failed + 1 }, flush_row now (abandoned_row x) o.1) in
      let still : Distinct item_key o'.1.items =
        unfold flush_row in Distinct-save item_key (dropped x) o.1.items distinct in
      let same_queue : o'.1.queue ≡ o.1.queue = unfold flush_row in refl in
      let same_id : (abandoned_row x).id ≡ x.id = unfold abandoned_row in refl in
      elim (Bool-cases (x.id == n)) [
        | inl e ↦
            let named = (==_iff _ _).0 e in
            let gone : All (λ y. y.id ≢ n) rows =
              All-map _ _ rows (λ y h q. h (q ∙ sym named)) d.0 in
            let there : get_row n o'.1 ≡ some (dropped x) =
              ap (λ (m : ℕ). get_row m o'.1) (sym (same_id ∙ named))
              ∙ get_row-flush_row now (abandoned_row x) o.1 in
            let rest =
              sweep_all_processing_lem rows o' (dropped x) d.1
                (All-map _ _ rows (λ y h q. absurd (h q)) gone) there still in
            let row : get_row n (sweep_all_processing now rows o').1 ≡ some (dropped x) =
              rw (not_in_rows rows gone) at rest.0 in
            rw e (row ∙ ap (λ y. some (dropped y)) (only.0 named), rest.1 ∙ same_queue, rest.2)
        | inr e ↦
            let other : x.id ≢ n = λ q. cc ((==_iff _ _).1 q, e) in
            let kept =
              get_row-flush_row_other n now (abandoned_row x) o.1 (λ q. other (sym same_id ∙ q)) in
            let rest = sweep_all_processing_lem rows o' i d.1 only.1 (kept ∙ held) still in
            rw e (rest.0, rest.1 ∙ same_queue, rest.2)
      ]

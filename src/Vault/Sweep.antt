-- ===== src/Vault/Sweep.antt =====
-- The sweep of expired trash, `purge_expired` of app/services/vault_service.py: how far it gets.
use recall_ai.Base.{
  ℕ, zero, suc, ◌+◌, ◌-◌, ◌*◌, ◌≤◌, ◌<◌, with_key, min, Bool, true, false, ◌&&◌, some, List, [],
  ◌∷◌, ◌≡◌, ◌≢◌, sym, ap, ◌∙◌, arith, ltb, bit, length, length-take, take, All, find_first,
  select_where, count_where, count_where-save, Distinct, Distinct-save, order_asc, All-order_asc,
  All-take, Distinct-select_where, Distinct-order_asc, Distinct-take, found_select_where,
  length-order_asc, length-selected,
}
use recall_ai.Vault.Row.{VaultItem, Db, days}
use recall_ai.Vault.Repository.{item_key, flush_row, get_row}
use recall_ai.Vault.Trash.{purge as purge_row, scrub, is_trashed, deleted_time, list_expired_trash}
use recall_ai.Vault.Service.{Settings, purge_item, purge_all, purge_expired}
use recall_ai.Vault.Purge.{get_row-purge_item_other}

module _ (s : Settings) (now : ℕ) where
  pub purge_all-Distinct :
      (rows : List VaultItem) (db : Db)
      → Distinct item_key db.items
      → Distinct item_key (purge_all s now rows db).items
  unfolding purge_all purge_item purge_row flush_row
  purge_all-Distinct [] db d = d
  purge_all-Distinct (i ∷ rows) db d =
      purge_all-Distinct rows (purge_item s now i db) (Distinct-save item_key _ db.items d)

-- The sweep, at one time: which rows are past the window.
abbrev pub is_expired : ℕ → VaultItem → Bool
is_expired cutoff r = is_trashed r && ltb (deleted_time r) cutoff

module _ (s : Settings) (now cutoff : ℕ) where
  left_after : List VaultItem → Db → ℕ
  left_after rows db = count_where (is_expired cutoff) (purge_all s now rows db).items

  one_less :
      (i : VaultItem) (db : Db)
      → find_first (with_key item_key i.id) db.items ≡ some i
      → is_expired cutoff i ≡ true
      → suc (count_where (is_expired cutoff) (purge_item s now i db).items)
        ≡ count_where (is_expired cutoff) db.items
  unfolding purge_item purge_row flush_row scrub
  one_less i db there out =
      let gone : VaultItem = record (scrub now i) { updated_at = now } in
      let sum = count_where-save item_key (is_expired cutoff) gone db.items there in
      let over : is_expired cutoff gone ≡ false = ground arith in
      omega (arith, sum, ap bit out, ap bit over)

  count_after_purges :
      (rows : List VaultItem) (db : Db)
      → Distinct item_key rows
      → All
          (λ r.
            (find_first (with_key item_key r.id) db.items ≡ some r) × (is_expired cutoff r ≡ true))
          rows
      → left_after rows db + length rows ≡ count_where (is_expired cutoff) db.items
  unfolding purge_all left_after
  count_after_purges [] db d h = omega arith
  count_after_purges (i ∷ rows) db d h =
      let rest = count_after_purges rows (purge_item s now i db) d.1 (All-both rows d.0 h.1) in
      omega (arith, rest, one_less i db h.0.0 h.0.1)
    where
      All-both :
          (ys : List VaultItem)
          → All (λ y. y.id ≢ i.id) ys
          → All
              (λ r.
                (find_first (with_key item_key r.id) db.items ≡ some r)
                × (is_expired cutoff r ≡ true))
              ys
          → All
              (λ r.
                (find_first (with_key item_key r.id) (purge_item s now i db).items ≡ some r)
                × (is_expired cutoff r ≡ true))
              ys
      All-both [] n h = tt
      All-both (y ∷ ys) n h = (
        (
          unfold get_row in get_row-purge_item_other y.id s now i db (λ e. n.0 (sym e)) ∙ h.0.0,
          h.0.1,
        ),
        All-both ys n.1 h.1,
      )

abbrev pub cutoff_at : Settings → ℕ → ℕ
cutoff_at s now = now - days s.trash_retention_days

-- The sweep purges as many of the memories whose window ran out as its batch allows, and each of them
-- is one less. The ids are distinct.
pub purge_expired_count :
    (s : Settings) (now : ℕ) (db : Db)
    → Distinct item_key db.items
    → let expired = is_expired (cutoff_at s now) in
      ((purge_expired s now db).0 ≡ min s.trash_purge_batch (count_where expired db.items))
      × (count_where expired (purge_expired s now db).1.items + (purge_expired s now db).0
          ≡ count_where expired db.items)
unfolding purge_expired list_expired_trash
purge_expired_count s now db d =
    let expired = is_expired (cutoff_at s now) in
    let chosen = select_where expired db.items in
    let ordered = order_asc deleted_time chosen in
    let rows = take s.trash_purge_batch ordered in
    let facts =
      All-take _ s.trash_purge_batch ordered (
        (All-order_asc deleted_time _ chosen).0 (found_select_where item_key expired db.items d)) in
    let apart = Distinct-take item_key s.trash_purge_batch ordered (
      Distinct-order_asc item_key deleted_time chosen
        (Distinct-select_where item_key expired db.items d)) in
    (
      length-take s.trash_purge_batch ordered
          ∙ ap (min s.trash_purge_batch)
              (length-order_asc deleted_time chosen ∙ length-selected expired db.items),
      unfold left_after in count_after_purges s now (cutoff_at s now) rows db apart facts,
    )

-- The scheduled sweep, run again and again at one time.
unfoldable pub sweeps : Settings → ℕ → ℕ → Db → Db
unfolding purge_expired
sweeps s now zero db = db
sweeps s now (suc n) db = sweeps s now n (purge_expired s now db).1

sweeps_count :
    (s : Settings) (now n : ℕ) (db : Db)
    → Distinct item_key db.items
    → count_where (is_expired (cutoff_at s now)) (sweeps s now n db).items
      ≡ count_where (is_expired (cutoff_at s now)) db.items - n * s.trash_purge_batch
unfolding sweeps
sweeps_count s now zero db d = omega arith
sweeps_count s now (suc n) db d =
    let c = purge_expired_count s now db d in
    let rest = sweeps_count s now n (purge_expired s now db).1 (
      unfold purge_expired in
      purge_all-Distinct s now (list_expired_trash (cutoff_at s now) s.trash_purge_batch db) db
        d) in
    omega (arith, rest, c.0, c.1)

le_times : (n b : ℕ) → 0 < b → n ≤ n * b
le_times zero b h = omega arith
le_times (suc n) b h = omega (arith, h, le_times n b h)

-- The trash drains: with a batch of at least one, as many sweeps as there are memories past their
-- window leave none of them. The ids are distinct.
pub sweeps_drain :
    (s : Settings) (now : ℕ) (db : Db)
    → Distinct item_key db.items
    → 0 < s.trash_purge_batch
    → let expired = is_expired (cutoff_at s now) in
      count_where expired (sweeps s now (count_where expired db.items) db).items ≡ 0
sweeps_drain s now db d some_batch =
    let n = count_where (is_expired (cutoff_at s now)) db.items in
    sweeps_count s now n db d ∙ omega (arith, le_times n s.trash_purge_batch some_batch)

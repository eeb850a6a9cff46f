-- ===== src/Pipeline/GivingUp.antt =====
-- What one sweep of stranded items takes from the tries of an item: `_sweep_stranded_items` of
-- app/queue/tasks.py.
use recall_ai.Base.{
  ℕ, suc, ◌+◌, ◌-◌, ◌≤◌, ◌<◌, Bool, true, false, ◌&&◌, some, ◌≡◌, refl, ap, arith, leb, bit, inl,
  inr, Bool-cases, if◌then◌else◌, Distinct, str_eq, count_where, ◌==◌,
}
use recall_ai.Vault.Row.{
  ProcessingStatus, pending, processing, completed, failed, skipped, VaultItem, Db,
}
use recall_ai.Vault.Repository.{item_key, get_row, has_status, list_stranded, status_text}
use recall_ai.Pipeline.Sweep.{
  Settings, Counts, pending_row, queued_again, sweep_all_pending, abandoned_row,
  sweep_all_processing, sweep_stranded_items,
}
use recall_ai.Pipeline.Stranded.{not_stranded}
use recall_ai.Pipeline.Sweeps.{
  queued, is_stranded, Distinct-list_stranded, Only-list_stranded, not_in_rows, requeued,
  sweep_all_pending_lem, sweep_all_pending-Distinct, dropped, sweep_all_processing_lem,
}

pending_not_failed :
    (t : ProcessingStatus)
    → str_eq (status_text t) (status_text pending) ≡ true
    → str_eq (status_text t) (status_text failed) ≡ false
unfolding status_text
pending_not_failed pending h = refl
pending_not_failed processing h = refl
pending_not_failed completed h = refl
pending_not_failed failed h = absurd (cc)
pending_not_failed skipped h = refl

pub is_failed :
    (t : ProcessingStatus) → str_eq (status_text t) (status_text failed) ≡ true → t ≡ failed
unfolding status_text
is_failed pending h = absurd (cc)
is_failed processing h = absurd (cc)
is_failed completed h = absurd (cc)
is_failed failed h = refl
is_failed skipped h = absurd (cc)

module _ (s : Settings) where
  -- The tries that an item has left.
  abbrev pub tries_left : VaultItem → ℕ
  tries_left i = s.max_sweep_requeues - i.retry_count

  -- How often the sweep may still find it pending.
  abbrev pub finds_left : VaultItem → ℕ
  finds_left i = if has_status failed i then 0 else suc (tries_left i)

  module _ (up : ℕ → Bool) (now n : ℕ) where
    requeued-tries :
        (i : VaultItem)
        → bit (queued_again s up i) + tries_left (requeued s up now n i) ≤ tries_left i
    unfolding pending_row
    requeued-tries i = elim (Bool-cases (leb s.max_sweep_requeues i.retry_count)) [
      | inl e ↦ rw e (omega arith)
      | inr e ↦
          let under : i.retry_count < s.max_sweep_requeues = ground (arith, e) in
          rw e (omega (arith, under, bit_le (up i.id)))
    ]
      where
        bit_le : (b : Bool) → bit b ≤ 1
        bit_le true = omega arith
        bit_le false = omega arith

    requeued-finds :
        (i : VaultItem)
        → has_status pending i ≡ true
        → suc (finds_left (requeued s up now n i)) ≤ finds_left i
    unfolding pending_row
    requeued-finds i waits =
        let open_row = pending_not_failed i.processing_status waits in
        elim (Bool-cases (leb s.max_sweep_requeues i.retry_count)) [
          | inl e ↦ rw (e, open_row) (unfold status_text in omega arith)
          | inr e ↦
              let under : i.retry_count < s.max_sweep_requeues = ground (arith, e) in
              rw e (rw open_row (omega (arith, under)))
        ]

    dropped-tries : (i : VaultItem) → tries_left (dropped s up now n i) ≤ tries_left i
    unfolding abandoned_row
    dropped-tries i = omega arith

    dropped-finds : (i : VaultItem) → finds_left (dropped s up now n i) ≡ 0
    unfolding abandoned_row status_text
    dropped-finds i = refl

    listed-pending :
        (db : Db) (i : VaultItem)
        → Distinct item_key db.items
        → get_row n db ≡ some i
        → is_stranded n (list_stranded now pending s.stuck_pending_minutes 100 db) ≡ true
        → has_status pending i ≡ true
    listed-pending db i distinct held listed = elim (Bool-cases (has_status pending i)) [
      | inl e ↦ e
      | inr e ↦
          let away =
            not_in_rows s up now n _
              (not_stranded s up now n pending s.stuck_pending_minutes db distinct held e) in
          absurd (cc (listed, away))
    ]

    -- The item after each of the two passes, by whether it was among the rows.
    pass-tries :
        (b : Bool) (i : VaultItem)
        → bit (b && queued_again s up i) + tries_left (if b then requeued s up now n i else i)
          ≤ tries_left i
    pass-tries true i = requeued-tries i
    pass-tries false i = omega arith

    pass-finds :
        (b : Bool) (i : VaultItem)
        → (b ≡ true → has_status pending i ≡ true)
        → bit b + finds_left (if b then requeued s up now n i else i) ≤ finds_left i
    pass-finds true i waits = omega (arith, requeued-finds i (waits refl))
    pass-finds false i waits = omega arith

    drop-tries :
        (b : Bool) (i : VaultItem)
        → tries_left (if b then dropped s up now n i else i) ≤ tries_left i
    drop-tries true i = dropped-tries i
    drop-tries false i = omega arith

    drop-finds :
        (b : Bool) (i : VaultItem)
        → finds_left (if b then dropped s up now n i else i) ≤ finds_left i
    drop-finds true i = omega (arith, dropped-finds i)
    drop-finds false i = omega arith

    -- One sweep takes from the tries that are left what it gives to the queue, and from the finds
    -- that are left each find.
    pub sweep_once :
        (db : Db) (i : VaultItem)
        → Distinct item_key db.items
        → get_row n db ≡ some i
        → let db' = (sweep_stranded_items s up now db).1 in
          let listed = is_stranded n (list_stranded now pending s.stuck_pending_minutes 100 db) in
          (j : VaultItem) × ((get_row n db' ≡ some j)
            × (Distinct item_key db'.items
                × ((queued n db' + tries_left j ≤ queued n db + tries_left i)
                    × (bit listed + finds_left j ≤ finds_left i))))
    unfolding sweep_stranded_items
    sweep_once db i distinct held =
        let start : Counts = record { requeued = 0; failed = 0 } in
        let rows = list_stranded now pending s.stuck_pending_minutes 100 db in
        let first = sweep_all_pending s up now rows (start, db) in
        let facts =
          sweep_all_pending_lem s up now n rows (start, db) i
            (Distinct-list_stranded now pending s.stuck_pending_minutes db distinct)
            (Only-list_stranded s up now n pending s.stuck_pending_minutes db i distinct held)
            held in
        let still = sweep_all_pending-Distinct s up now n rows (start, db) distinct in
        let k : VaultItem = if is_stranded n rows then requeued s up now n i else i in
        let stuck = list_stranded now processing s.stuck_processing_minutes 100 first.1 in
        let after =
          sweep_all_processing_lem s up now n stuck first k
            (Distinct-list_stranded now processing s.stuck_processing_minutes first.1 still)
            (Only-list_stranded s up now n processing s.stuck_processing_minutes first.1 k still
              facts.0)
            facts.0 still in
        let j : VaultItem = if is_stranded n stuck then dropped s up now n k else k in
        let same : queued n (sweep_all_processing now stuck first).1 ≡ queued n first.1 =
          ap (count_where (λ q. q == n)) after.1 in
        let tries : bit (is_stranded n rows && queued_again s up i) + tries_left k ≤ tries_left i =
          pass-tries (is_stranded n rows) i in
        let tries' : tries_left j ≤ tries_left k = drop-tries (is_stranded n stuck) k in
        let finds : bit (is_stranded n rows) + finds_left k ≤ finds_left i =
          pass-finds (is_stranded n rows) i (listed-pending db i distinct held) in
        let finds' : finds_left j ≤ finds_left k = drop-finds (is_stranded n stuck) k in
        (
          j,
          (
            after.0,
            (after.2, (omega (arith, same, facts.1, tries, tries'), omega (arith, finds, finds'))),
          ),
        )

-- ===== src/Pipeline/Rounds.antt =====
-- The sweeps of stranded items, one after the other: `_sweep_stranded_items` of app/queue/tasks.py.
use recall_ai.Base.{
  ℕ, suc, ◌+◌, ◌-◌, ◌≤◌, Bool, true, false, some, List, [], ◌∷◌, ◌≡◌, ◌⊎◌, refl, arith, bit, inl,
  inr, Bool-cases, if◌then◌else◌, Distinct,
}
use recall_ai.Vault.Row.{pending, failed, VaultItem, Db}
use recall_ai.Vault.Repository.{item_key, get_row, has_status, list_stranded}
use recall_ai.Pipeline.Sweep.{Settings, sweep_stranded_items}
use recall_ai.Pipeline.Sweeps.{queued, is_stranded}
use recall_ai.Pipeline.GivingUp.{is_failed, tries_left, finds_left, sweep_once}

-- A sweep: which items the queue answers for, and when.
pub record Round : Type 0 where
  pub up : ℕ → Bool
  pub now : ℕ

module _ (s : Settings) (n : ℕ) where
  -- The sweeps, one after the other.
  unfoldable pub sweep_rounds : List Round → Db → Db
  sweep_rounds [] db = db
  sweep_rounds (r ∷ rounds) db = sweep_rounds rounds (sweep_stranded_items s r.up r.now db).1

  -- How many of them find the item stranded and pending.
  unfoldable pub times_found : List Round → Db → ℕ
  times_found [] db = 0
  times_found (r ∷ rounds) db =
      let rest = times_found rounds (sweep_stranded_items s r.up r.now db).1 in
      bit (is_stranded n (list_stranded r.now pending s.stuck_pending_minutes 100 db)) + rest

  rounds_lem :
      (rounds : List Round) (db : Db) (i : VaultItem)
      → Distinct item_key db.items
      → get_row n db ≡ some i
      → let db' = sweep_rounds rounds db in
        (j : VaultItem) × ((get_row n db' ≡ some j)
          × ((queued n db' + tries_left s j ≤ queued n db + tries_left s i)
              × (times_found rounds db + finds_left s j ≤ finds_left s i)))
  unfolding sweep_rounds times_found
  rounds_lem [] db i distinct held = (i, (held, (omega arith, omega arith)))
  rounds_lem (r ∷ rounds) db i distinct held =
      let once = sweep_once s r.up r.now n db i distinct held in
      let rest =
        rounds_lem rounds (sweep_stranded_items s r.up r.now db).1 once.0 once.1.1.0 once.1.0 in
      (
        rest.0,
        (
          rest.1.0,
          (omega (arith, once.1.1.1.0, rest.1.1.0), omega (arith, once.1.1.1.1, rest.1.1.1)),
        ),
      )

  -- No item goes round for ever, whatever the queue answers in each sweep and whenever the sweeps
  -- run: all of them together put an item into the queue at most as often as its tries are below the
  -- limit, and they find it pending at most once more. Where they found it more often than it had
  -- tries left, it is marked failed. The ids are distinct.
  pub sweeps_give_up :
      (rounds : List Round) (db : Db) (i : VaultItem)
      → Distinct item_key db.items
      → get_row n db ≡ some i
      → let db' = sweep_rounds rounds db in
        let tries = s.max_sweep_requeues - i.retry_count in
        (j : VaultItem) × ((get_row n db' ≡ some j)
          × ((queued n db' ≤ queued n db + tries)
              × ((times_found rounds db ≤ tries + 1)
                  × ((times_found rounds db ≤ tries) ⊎ (j.processing_status ≡ failed)))))
  sweeps_give_up rounds db i distinct held =
      let all = rounds_lem rounds db i distinct held in
      let j = all.0 in
      let most : finds_left s i ≤ suc (tries_left s i) =
        finds_bound (has_status failed i) (tries_left s i) in
      (
        j,
        (
          all.1.0,
          (
            omega (arith, all.1.1.0),
            (
              omega (arith, all.1.1.1, most),
              elim (Bool-cases (has_status failed j)) [
                | inl e ↦ inr (is_failed j.processing_status e)
                | inr e ↦
                    let one : finds_left s j ≡ suc (tries_left s j) = rw e refl in
                    inl (omega (arith, all.1.1.1, most, one))
              ],
            ),
          ),
        ),
      )
    where
      finds_bound : (b : Bool) (k : ℕ) → (if b then 0 else suc k) ≤ suc k
      finds_bound true k = omega arith
      finds_bound false k = omega arith

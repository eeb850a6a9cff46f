-- ===== src/Pipeline/Examples.antt =====
-- Sweeps of a concrete vault.
use recall_ai.Base.{
  ℕ, ◌+◌, ◌-◌, ◌*◌, ◌≤◌, Bool, true, false, some, List, [], ◌∷◌, ◌≡◌, ◌⊎◌, refl, arith, Distinct,
  find_first,
}
use recall_ai.Vault.Row.{VaultItem, Db, article, completed, failed, minutes}
use recall_ai.Vault.Repository.{item_key, get_row}
use recall_ai.Vault.Service.{new_item}
use recall_ai.Pipeline.Sweep.{Settings, sweep_stranded_items}
use recall_ai.Pipeline.Stranded.{sweep_leaves_finished}
use recall_ai.Pipeline.Sweeps.{queued}
use recall_ai.Pipeline.Rounds.{Round, sweep_rounds, times_found, sweeps_give_up}

abbrev settings : Settings
settings = record {
  stuck_pending_minutes = 10;
  stuck_processing_minutes = 15;
  max_sweep_requeues = 3;
}

abbrev waiting : VaultItem
waiting = new_item (record { now = 5; row_id = 10; queue_up = true }) 1 article []

abbrev finished : VaultItem
finished = record (new_item (record { now = 5; row_id = 11; queue_up = true }) 1 article []) {
  processing_status = completed;
}

abbrev vault : Db
vault = record {
  items = waiting ∷ finished ∷ [];
  chunks = [];
  connections = [];
  runs = [];
  objects = [];
  queue = [];
}

distinct : Distinct item_key vault.items
distinct = ((λ e. omega (arith, e), tt), (tt, tt))

-- Five sweeps, half an hour apart. The queue does not answer in the second.
abbrev round : Bool → ℕ → Round
round answers k = record { up = λ n. answers; now = minutes (30 * k) }

abbrev rounds : List Round
rounds = round true 1 ∷ round false 2 ∷ round true 3 ∷ round true 4 ∷ round true 5 ∷ []

-- The item is queued twice, and the fourth sweep gives it up.
rounds_queue :
    ((sweep_rounds settings 10 rounds vault).queue ≡ 10 ∷ 10 ∷ [])
    × (times_found settings 10 rounds vault ≡ 4)
unfolding sweep_rounds times_found sweep_stranded_items recall_ai.Base.order_asc
    recall_ai.Base.select_where find_first recall_ai.Base.save
rounds_queue = (refl, refl)

sweeps_give_up_example :
    let db' = sweep_rounds settings 10 rounds vault in
    let tries = settings.max_sweep_requeues - waiting.retry_count in
    (j : VaultItem) × ((get_row 10 db' ≡ some j)
      × ((queued 10 db' ≤ queued 10 vault + tries)
          × ((times_found settings 10 rounds vault ≤ tries + 1)
              × ((times_found settings 10 rounds vault ≤ tries) ⊎ (j.processing_status ≡ failed)))))
unfolding get_row find_first
sweeps_give_up_example = sweeps_give_up settings 10 rounds vault waiting distinct refl

sweep_leaves_finished_example :
    get_row 11 (sweep_stranded_items settings (λ n. true) (minutes 30) vault).1 ≡ some finished
unfolding get_row find_first recall_ai.Vault.Repository.status_text
sweep_leaves_finished_example =
    sweep_leaves_finished settings (λ n. true) (minutes 30) 11 vault finished distinct refl refl
      refl

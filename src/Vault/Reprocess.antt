-- ===== src/Vault/Reprocess.antt =====
-- `reprocess` of app/services/vault_service.py: a retry at its owner's request.
use recall_ai.Base.{
  ℕ, ◌+◌, ◌-◌, ◌/◌, String, Bool, true, false, not, ◌&&◌, ◌||◌, Option, none, some, str_eq, ltb,
  if◌then◌else◌, Value, str, flag, get_key, put_key, Result, ok, err,
}
use recall_ai.Vault.Row.{voice, pending, processing, completed, VaultItem, Db, seconds}
use recall_ai.Vault.Repository.{flush_row, get, has_status, type_text}
use recall_ai.Vault.Service.{Settings, Draw, enqueue, is_blank}

-- `ItemNotFound`, and the messages of `ReprocessError`; the last names the seconds to wait.
pub data Refusal : Type 0 where
  item_not_found already_running finished : Refusal
  wait_seconds : ℕ → Refusal

unfoldable pub is_retranscribable : VaultItem → Bool
unfolding type_text
is_retranscribable i = str_eq (type_text i.type) (type_text voice) && not (is_blank i.storage_key)

-- `bool(value)` of a metadata value; what else the source stores there is not empty.
unfoldable pub is_truthy : Option Value → Bool
is_truthy none = false
is_truthy (some Value.null) = false
is_truthy (some (str t)) = not (str_eq t "")
is_truthy (some (flag b)) = b
is_truthy (some (Value.json t)) = true

-- `value is True`.
unfoldable pub is_true : Option Value → Bool
is_true (some (flag b)) = b
is_true _ = false

unfoldable pub is_revideoable : Settings → VaultItem → Bool
unfolding is_truthy is_true
is_revideoable s i =
    not (is_blank i.source_url)
    && (is_truthy (get_key "video_url" i.item_metadata)
        && (not (is_true (get_key "video_read" i.item_metadata)) && s.video_understanding_enabled))

-- The row before the clear of a re-transcription: `pinned` is the language that
-- `normalise_language` gives, and an empty one pins nothing.
unfoldable pub retranscribed : Option String → VaultItem → VaultItem
retranscribed none i = record i { content = none }
retranscribed (some language) i = record i {
  content = none;
  item_metadata =
      if str_eq language ""
      then i.item_metadata
      else put_key "transcribe_language" (str language) i.item_metadata;
}

-- The row that goes back on the queue; `stamp` is the clock as a text.
unfoldable pub requeued : String → Option String → VaultItem → VaultItem
unfolding retranscribed is_retranscribable
requeued stamp pinned i =
    let i' = if is_retranscribable i then retranscribed pinned i else i in
    record i' {
      processing_status = pending;
      processing_error = none;
      retry_count = 0;
      item_metadata = put_key "reprocess_requested_at" (str stamp) i'.item_metadata;
    }

-- The guards, in their order.
unfoldable pub reprocess_found :
    Settings → Draw → String → Option String → VaultItem → Db → Result Refusal VaultItem × Db
unfolding is_retranscribable is_revideoable requeued flush_row enqueue
reprocess_found s d stamp pinned i db =
    if has_status pending i || has_status processing i
    then (err already_running, db)
    else if has_status completed i && not (is_retranscribable i || is_revideoable s i)
    then (err finished, db)
    else if ltb d.now (i.updated_at + seconds s.reprocess_cooldown_seconds)
    then (
      err (
          wait_seconds
            ((i.updated_at + seconds s.reprocess_cooldown_seconds - d.now) / 1_000_000 + 1)),
      db,
    )
    else (
      ok (record (requeued stamp pinned i) { updated_at = d.now }),
      enqueue d i.id (flush_row d.now (requeued stamp pinned i) db),
    )

unfoldable pub reprocess_any :
    Settings → Draw → String → Option String → Option VaultItem → Db → Result Refusal VaultItem × Db
unfolding reprocess_found
reprocess_any s d stamp pinned none db = (err item_not_found, db)
reprocess_any s d stamp pinned (some i) db = reprocess_found s d stamp pinned i db

unfoldable pub reprocess :
    Settings → Draw → String → Option String → ℕ → ℕ → Db → Result Refusal VaultItem × Db
unfolding reprocess_any get
reprocess s d stamp pinned item_id user_id db =
    reprocess_any s d stamp pinned (get item_id user_id db) db

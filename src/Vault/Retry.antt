-- ===== src/Vault/Retry.antt =====
-- A retry at its owner's request, asked for twice: `reprocess` of app/services/vault_service.py.
use recall_ai.Base.{
  ℕ, ◌+◌, String, not, ◌&&◌, ◌||◌, Option, none, some, List, [], ◌∷◌, ◌++◌, ◌≡◌, refl, sym, ap, ◌∙◌,
  ltb, if◌then◌else◌, inl, inr, Bool-cases, find_first, with_key, Result, ok, err,
}
use mathlib.Core.Path.{subst}
use recall_ai.Vault.Row.{VaultItem, Db, pending, processing, completed, seconds}
use recall_ai.Vault.Repository.{item_key, flush_row, get_row, live_of, get, has_status, status_text}
use recall_ai.Vault.Service.{Settings, Draw, enqueue}
use recall_ai.Vault.Reprocess.{
  Refusal, already_running, requeued, retranscribed, is_retranscribable, is_revideoable,
  reprocess_found, reprocess_any, reprocess,
}
use recall_ai.Vault.Lifecycle.{live_of-some, row_id, get_row-flush_row, live_of_own}

module _ (stamp : String) (pinned : Option String) (x : VaultItem) where
  pub requeued_keeps :
      let r = requeued stamp pinned x in
      (r.id ≡ x.id) × (r.user_id ≡ x.user_id) × (r.deleted_at ≡ x.deleted_at)
  unfolding requeued
  requeued_keeps = elim (Bool-cases (is_retranscribable x)) [
    | inl e ↦ rw e (cleared pinned)
    | inr e ↦ rw e (refl, refl, refl)
  ]
    where
      cleared :
          (o : Option String)
          → let r = retranscribed o x in
            (r.id ≡ x.id) × (r.user_id ≡ x.user_id) × (r.deleted_at ≡ x.deleted_at)
      cleared none = unfold retranscribed in (refl, refl, refl)
      cleared (some t) = unfold retranscribed in (refl, refl, refl)

-- The queue after `_enqueue`.
abbrev pub queued : Draw → ℕ → List ℕ → List ℕ
queued d item_id queue = if d.queue_up then queue ++ item_id ∷ [] else queue

enqueue_lem :
    (d : Draw) (n : ℕ) (db : Db)
    → ((enqueue d n db).queue ≡ queued d n db.queue) × ((enqueue d n db).items ≡ db.items)
unfolding enqueue
enqueue_lem d n db = elim (Bool-cases d.queue_up) [
  | inl e ↦ rw e (refl, refl)
  | inr e ↦ rw e (refl, refl)
]

get_row-enqueue : (d : Draw) (n m : ℕ) (db : Db) → get_row n (enqueue d m db) ≡ get_row n db
unfolding get_row
get_row-enqueue d n m db = ap (find_first (with_key item_key n)) (enqueue_lem d m db).1

module _ (s : Settings) (d later : Draw) (stamp stamp' : String) (pinned pinned' : Option String)
    (item_id user_id : ℕ) (db : Db) where
  abbrev Once : Result Refusal VaultItem × Db → Type 0
  Once o =
      (reprocess s later stamp' pinned' item_id user_id o.1 ≡ (err already_running, o.1))
      × (o.1.queue ≡ queued d item_id db.queue)

  -- What an accepted retry leaves.
  accepted :
      (x : VaultItem)
      → get item_id user_id db ≡ some x
      → let r = requeued stamp pinned x in
        Once (ok (record r { updated_at = d.now }), enqueue d x.id (flush_row d.now r db))
  unfolding reprocess
  accepted x e =
      let f : (get_row item_id db ≡ some x) × (x.user_id ≡ user_id) × (x.deleted_at ≡ none) =
        unfold get in live_of-some user_id (get_row item_id db) e in
      let named : x.id ≡ item_id = row_id item_id db f.0 in
      let keeps = requeued_keeps stamp pinned x in
      let r : VaultItem = requeued stamp pinned x in
      let r' : VaultItem = record r { updated_at = d.now } in
      let db' = enqueue d x.id (flush_row d.now r db) in
      let there : get item_id user_id db' ≡ some r' =
        unfold get in
        ap (live_of user_id) (
          ap (λ n. get_row n db') (sym named ∙ sym keeps.0)
          ∙ get_row-enqueue d r.id x.id (flush_row d.now r db)
          ∙ get_row-flush_row d.now r db)
        ∙ live_of_own user_id r' (keeps.1 ∙ f.1) (keeps.2 ∙ f.2) in
      (
        ap (λ o. reprocess_any s later stamp' pinned' o db') there
            ∙ unfold reprocess_any reprocess_found requeued status_text in refl,
        (enqueue_lem d x.id (flush_row d.now r db)).0
            ∙ unfold flush_row in ap (λ n. queued d n db.queue) named,
      )

  found-Once :
      (o : Option VaultItem)
      → get item_id user_id db ≡ o
      → (r : VaultItem) → (reprocess_any s d stamp pinned o db).0 ≡ ok r
      → Once (reprocess_any s d stamp pinned o db)
  unfolding reprocess_any reprocess_found
  found-Once none e r h = absurd (cc)
  found-Once (some x) e r h = elim (Bool-cases (has_status pending x || has_status processing x)) [
    | inl a ↦ absurd (cc (rw a at h))
    | inr a ↦
        elim (Bool-cases
          (has_status completed x && not (is_retranscribable x || is_revideoable s x))) [
            | inl b ↦ absurd (cc (rw (a, b) at h))
            | inr b ↦
                elim (Bool-cases
                  (ltb d.now (x.updated_at + seconds s.reprocess_cooldown_seconds))) [
                    | inl c ↦ absurd (cc (rw (a, b, c) at h))
                    | inr c ↦ rw (a, b, c) (accepted x e)
                  ]
          ]
  ]

  -- An accepted retry queues the item once: a second retry of it, whenever it comes, is refused as
  -- already running and writes nothing, and the queue has one entry more where it answered.
  pub reprocess_once :
      (r : VaultItem)
      → let first = reprocess s d stamp pinned item_id user_id db in
        first.0 ≡ ok r
        → (reprocess s later stamp' pinned' item_id user_id first.1
            ≡ (err already_running, first.1))
          × (first.1.queue ≡ queued d item_id db.queue)
  reprocess_once r h =
      subst Once (sym split)
        (found-Once (get item_id user_id db) refl r (ap (λ o. o.0) (sym split) ∙ h))
    where
      split :
          reprocess s d stamp pinned item_id user_id db
          ≡ reprocess_any s d stamp pinned (get item_id user_id db) db
      split = unfold reprocess in refl

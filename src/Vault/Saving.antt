-- ===== src/Vault/Saving.antt =====
-- Saving a link once: `save_url` of app/services/vault_service.py, run again.
use recall_ai.Base.{
  ℕ, String, Bool, false, ◌&&◌, Option, none, some, ◌≡◌, refl, ap, ◌∙◌, text_is, eq_refl, ==_refl,
  inl, inr, Bool-cases, find_first, find_first-none_iff, save, Fresh, find_first-save_new, Dict,
}
use recall_ai.Vault.Row.{VaultItem, Db}
use recall_ai.Vault.Repository.{item_key, tenant, add, get_by_source_url}
use recall_ai.Vault.Service.{Draw, enqueue, save_new_url, save_found_url, save_url}

-- The items are those of the row that was added.
enqueue_items : (d : Draw) (n : ℕ) (db : Db) → (enqueue d n db).items ≡ db.items
unfolding enqueue
enqueue_items d n db = elim (Bool-cases d.queue_up) [ inl e ↦ rw e refl | inr e ↦ rw e refl ]

module _ (d : Draw) (enqueues : Bool) (user_id : ℕ) (u : String) (title : Option String)
    (metadata : Dict) (db : Db) where
  new_items :
      (save_new_url d enqueues user_id u title metadata db).1.items
      ≡ save item_key (save_new_url d enqueues user_id u title metadata db).0.0 db.items
  unfolding save_new_url add
  new_items = elim (Bool-cases enqueues) [
    | inl e ↦ rw e (enqueue_items d d.row_id _)
    | inr e ↦ rw e refl
  ]

  new_found :
      Fresh item_key d.row_id db.items
      → get_by_source_url user_id u db ≡ none
      → get_by_source_url user_id u (save_new_url d enqueues user_id u title metadata db).1
        ≡ some (save_new_url d enqueues user_id u title metadata db).0.0
  unfolding get_by_source_url
  new_found fresh missing =
      let q : VaultItem → Bool = λ i. tenant user_id i && text_is u i.source_url in
      ap (find_first q) new_items
      ∙ unfold save_new_url in
        find_first-save_new item_key q _ db.items fresh ((find_first-none_iff q db.items).0 missing)
          (rw (==_refl user_id) (eq_refl u))

  kept_found :
      (o : Option VaultItem)
      → get_by_source_url user_id u db ≡ o
      → Fresh item_key d.row_id db.items
      → get_by_source_url user_id u (save_found_url d enqueues user_id u title metadata o db).1
        ≡ some (save_found_url d enqueues user_id u title metadata o db).0.0
  kept_found none e fresh = new_found fresh e
  kept_found (some i) e fresh = e

-- A link is saved once: after a save of it, a save by the same user of any link with the same canonical
-- form answers with the same item as one that was there, and writes nothing. The drawn id is new.
pub save_url_once :
    (canonical : String → String) (d later : Draw) (enqueues enqueues' : Bool) (user_id : ℕ)
    (url url' : String) (title title' : Option String) (metadata metadata' : Dict) (db : Db)
    → Fresh item_key d.row_id db.items
    → canonical url' ≡ canonical url
    → let first = save_url canonical d enqueues user_id url title metadata db in
      save_url canonical later enqueues' user_id url' title' metadata' first.1
      ≡ ((first.0.0, false), first.1)
unfolding save_url
save_url_once canonical d later enqueues enqueues' user_id url url' title title' metadata metadata'
      db fresh same =
    let u = canonical url in
    let found = get_by_source_url user_id u db in
    let db' = (save_found_url d enqueues user_id u title metadata found db).1 in
    ap
      (λ v.
        save_found_url later enqueues' user_id v title' metadata' (get_by_source_url user_id v db')
          db')
      same
    ∙ ap (λ o. save_found_url later enqueues' user_id u title' metadata' o db')
        (kept_found d enqueues user_id u title metadata db found refl fresh)

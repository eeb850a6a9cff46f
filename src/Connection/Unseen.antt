-- ===== src/Connection/Unseen.antt =====
-- Writes that a selection of edges does not see.
use recall_ai.Base.{
  Bool, true, false, some, some-injective, List, [], ◌∷◌, ◌++◌, ◌≡◌, refl, ap, ◌∙◌, ◌==◌,
  if◌then◌else◌, inl, inr, Bool-cases, All, with_key, find_first, select_where, update_where,
  delete_where, save,
}
use recall_ai.Connection.Row.{MemoryConnection}
use recall_ai.Connection.Service.{edge_key}

module _ (q : MemoryConnection → Bool) where
  pub select_where-update_where_unseen :
      (p : MemoryConnection → Bool) (f : MemoryConnection → MemoryConnection)
      (xs : List MemoryConnection)
      → ((x : MemoryConnection) → p x ≡ true → (q x ≡ false) × (q (f x) ≡ false))
      → select_where q (update_where p f xs) ≡ select_where q xs
  unfolding select_where update_where
  select_where-update_where_unseen p f [] k = refl
  select_where-update_where_unseen p f (x ∷ xs) k =
      let rest = select_where-update_where_unseen p f xs k in
      elim (Bool-cases (p x)) [
        | inl e ↦ let h = k x e in rw (e, h.0, h.1) rest
        | inr e ↦ rw e (ap (λ l. if q x then x ∷ l else l) rest)
      ]

  pub select_where-delete_where_unseen :
      (p : MemoryConnection → Bool) (xs : List MemoryConnection)
      → ((x : MemoryConnection) → p x ≡ true → q x ≡ false)
      → select_where q (delete_where p xs) ≡ select_where q xs
  unfolding select_where delete_where
  select_where-delete_where_unseen p [] k = refl
  select_where-delete_where_unseen p (x ∷ xs) k =
      let rest = select_where-delete_where_unseen p xs k in
      elim (Bool-cases (p x)) [
        | inl e ↦ let h = k x e in rw (e, h) rest
        | inr e ↦ rw e (ap (λ l. if q x then x ∷ l else l) rest)
      ]

  pub select_where-append_unseen :
      (xs ys : List MemoryConnection)
      → All (λ y. q y ≡ false) ys
      → select_where q (xs ++ ys) ≡ select_where q xs
  unfolding select_where
  select_where-append_unseen [] [] a = refl
  select_where-append_unseen [] (y ∷ ys) a = rw (a.0) (select_where-append_unseen [] ys a.1)
  select_where-append_unseen (x ∷ xs) ys a =
      ap (λ l. if q x then x ∷ l else l) (select_where-append_unseen xs ys a)

  pub select_where-save_unseen :
      (r : MemoryConnection) (xs : List MemoryConnection) {o : MemoryConnection}
      → find_first (with_key edge_key r.id) xs ≡ some o
      → q o ≡ false
      → q r ≡ false
      → select_where q (save edge_key r xs) ≡ select_where q xs
  unfolding select_where save find_first
  select_where-save_unseen r [] h n m = absurd (cc)
  select_where-save_unseen r (x ∷ xs) {o} h n m = elim (Bool-cases (x.id == r.id)) [
    | inl e ↦
        let same : x ≡ o = some-injective _ _ (rw e at h) in
        let old : q x ≡ false = ap q same ∙ n in rw (e, m, old) refl
    | inr e ↦
        rw e (ap (λ l. if q x then x ∷ l else l) (select_where-save_unseen r xs (rw e at h) n m))
  ]

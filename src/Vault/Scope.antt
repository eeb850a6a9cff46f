-- ===== src/Vault/Scope.antt =====
-- What a semantic search may hand to a caller: `search_semantic` of app/repositories/vault.py.
use recall_ai.Base.{
  ℕ, suc, ◌+◌, ◌*◌, ◌≤◌, ◌<◌, false, Option, none, some, List, [], ◌∷◌, ◌++◌, ◌≡◌, ◌≢◌, refl, sym,
  ap, ◌∙◌, arith, ◌==◌, ==_iff, leb, is_some, inl, inr, Bool-cases, length, take, All, All-map,
  All-take, Distinct, Distinct-order_asc, find_first, find_first-none_iff, with_key, order_asc,
  All-order_asc, length-order_asc,
}
use recall_ai.Vault.Row.{VaultItem, VaultChunk, Db}
use recall_ai.Vault.Repository.{get, get_row}
use recall_ai.Vault.Lifecycle.{live_of-some, row_id, none_of}
use recall_ai.Vault.Search.{
  Hit, Narrow, is_excluded, suits, hit_of, scored, hits, hit_key, keep_first, best_of, resolve_one,
  resolve, oversample, search_semantic,
}

module _ (user_id : ℕ) (f : Narrow) (db : Db) where
  -- Not the excluded item.
  abbrev Allowed : ℕ → Type 0
  Allowed n = is_excluded f.exclude_item_id n ≡ false

  hit_of-Allowed :
      (o : Option VaultItem) (d : ℕ) (rest : List Hit)
      → All (λ h. Allowed h.0) rest
      → All (λ h. Allowed h.0) (hit_of f o d rest)
  hit_of-Allowed none d rest a = a
  hit_of-Allowed (some i) d rest a = elim (Bool-cases (suits f i)) [
    | inl e ↦ let this : Allowed i.id = unfold suits in ground (arith, e) in rw e (this, a)
    | inr e ↦ rw e a
  ]

  scored-Allowed :
      (o : Option VaultItem) (d : Option ℕ) (rest : List Hit)
      → All (λ h. Allowed h.0) rest
      → All (λ h. Allowed h.0) (scored f o d rest)
  scored-Allowed o none rest a = a
  scored-Allowed o (some d) rest a = hit_of-Allowed o d rest a

  hits-Allowed :
      (cosine_distance : List ℕ → List ℕ → ℕ) (vector : List ℕ) (cs : List VaultChunk)
      → All (λ h. Allowed h.0) (hits cosine_distance user_id vector f db cs)
  unfolding hits
  hits-Allowed cosine_distance vector [] = tt
  hits-Allowed cosine_distance vector (c ∷ cs) =
      let rest = hits-Allowed cosine_distance vector cs in
      elim (Bool-cases (c.user_id == user_id)) [
        | inl e ↦ rw e (scored-Allowed _ _ _ rest)
        | inr e ↦ rw e rest
      ]

  -- The list of the best: one entry for an item, none excluded, and not too many.
  abbrev Good : ℕ → List Hit → Type 0
  Good limit best = Distinct hit_key best × (All (λ h. Allowed h.0) best × (length best ≤ limit))

  All-append : (P : Hit → Type 0) (h : Hit) (xs : List Hit) → All P xs → P h → All P (xs ++ h ∷ [])
  All-append P h [] a p = (p, tt)
  All-append P h (x ∷ xs) a p = (a.0, All-append P h xs a.1 p)

  Distinct-append :
      (h : Hit) (xs : List Hit)
      → All (λ x. with_key hit_key h.0 x ≡ false) xs
      → Distinct hit_key xs
      → Distinct hit_key (xs ++ h ∷ [])
  Distinct-append h [] n d = (tt, tt)
  Distinct-append h (x ∷ xs) n d =
      (All-append _ h xs d.0 (λ e. cc ((==_iff _ _).1 (sym e), n.0)), Distinct-append h xs n.1 d.1)

  length_append : (h : Hit) (xs : List Hit) → length (xs ++ h ∷ []) ≡ length xs + 1
  length_append h [] = omega arith
  length_append h (x ∷ xs) = omega (arith, length_append h xs)

  keep_first-Good :
      (limit : ℕ) (h : Hit) (best : List Hit)
      → Allowed h.0
      → Good limit best
      → length best < limit
      → Good limit (keep_first h best)
  keep_first-Good limit h best a g room =
      elim (Bool-cases (is_some (find_first (with_key hit_key h.0) best))) [
        | inl e ↦ rw e g
        | inr e ↦
            let free = (find_first-none_iff (with_key hit_key h.0) best).0 (none_of _ e) in
            rw e (
              Distinct-append h best free g.0,
              (All-append _ h best g.1.0 a, omega (arith, length_append h best, room)),
            )
      ]

  best_of-Good :
      (limit : ℕ) (hs best : List Hit)
      → All (λ h. Allowed h.0) hs
      → Good limit best
      → length best < limit
      → Good limit (best_of limit hs best)
  unfolding best_of
  best_of-Good limit [] best a g room = g
  best_of-Good limit (h ∷ hs) best a g room =
      let next = keep_first-Good limit h best a.0 g room in
      elim (Bool-cases (leb limit (length (keep_first h best)))) [
        | inl e ↦ rw e next
        | inr e ↦
            let more : length (keep_first h best) < limit = ground (arith, e) in
            rw e (best_of-Good limit hs (keep_first h best) a.1 next more)
      ]

  -- A row of the answer: a live memory of the caller's.
  abbrev Mine : VaultItem × ℕ → Type 0
  Mine r = ((r.0.user_id ≡ user_id) × (r.0.deleted_at ≡ none)) × Allowed r.0.id

  resolve_one-Mine :
      (n d : ℕ) (o : Option VaultItem) (rest : List (VaultItem × ℕ))
      → get n user_id db ≡ o
      → Allowed n
      → All Mine rest
      → All Mine (resolve_one o d rest)
  resolve_one-Mine n d none rest e a m = m
  resolve_one-Mine n d (some i) rest e a m =
      let facts : (get_row n db ≡ some i) × (i.user_id ≡ user_id) × (i.deleted_at ≡ none) =
        unfold get in live_of-some user_id (get_row n db) e in
      (((facts.1, facts.2), ap (is_excluded f.exclude_item_id) (row_id n db facts.0) ∙ a), m)

  abbrev item_of : VaultItem × ℕ → ℕ
  item_of r = r.0.id

  resolve_one-Other :
      (n m d : ℕ) (o : Option VaultItem) (rest : List (VaultItem × ℕ))
      → get m user_id db ≡ o
      → m ≢ n
      → All (λ r. item_of r ≢ n) rest
      → All (λ r. item_of r ≢ n) (resolve_one o d rest)
  resolve_one-Other n m d none rest e other a = a
  resolve_one-Other n m d (some i) rest e other a =
      let named : i.id ≡ m = unfold get in row_id m db (live_of-some user_id (get_row m db) e).0 in
      (λ q. other (sym named ∙ q), a)

  resolve-Other :
      (n : ℕ) (hs : List Hit)
      → All (λ h. h.0 ≢ n) hs
      → All (λ r. item_of r ≢ n) (resolve user_id db hs)
  unfolding resolve
  resolve-Other n [] a = tt
  resolve-Other n (h ∷ hs) a =
      resolve_one-Other n h.0 h.1 (get h.0 user_id db) (resolve user_id db hs) refl a.0
        (resolve-Other n hs a.1)

  resolve_lem :
      (hs : List Hit)
      → Distinct hit_key hs
      → All (λ h. Allowed h.0) hs
      → (All Mine (resolve user_id db hs) × Distinct item_of (resolve user_id db hs))
        × (length (resolve user_id db hs) ≤ length hs)
  unfolding resolve
  resolve_lem [] d a = ((tt, tt), omega arith)
  resolve_lem (h ∷ hs) d a =
      let rest = resolve_lem hs d.1 a.1 in
      (
        (
          resolve_one-Mine h.0 h.1 (get h.0 user_id db) (resolve user_id db hs) refl a.0 rest.0.0,
          distinct_one h.0 h.1 (get h.0 user_id db) (resolve user_id db hs) refl
              (resolve-Other h.0 hs d.0) rest.0.1,
        ),
        longer (get h.0 user_id db) (resolve user_id db hs) h.1 (length hs) rest.1,
      )
    where
      distinct_one :
          (n d : ℕ) (o : Option VaultItem) (rows : List (VaultItem × ℕ))
          → get n user_id db ≡ o
          → All (λ r. item_of r ≢ n) rows
          → Distinct item_of rows
          → Distinct item_of (resolve_one o d rows)
      distinct_one n d none rows e b c = c
      distinct_one n d (some i) rows e b c =
          let named : i.id ≡ n =
            unfold get in row_id n db (live_of-some user_id (get_row n db) e).0 in
          (All-map _ _ rows (λ r k q. k (q ∙ named)) b, c)

      longer :
          (o : Option VaultItem) (rows : List (VaultItem × ℕ)) (d k : ℕ)
          → length rows ≤ k
          → length (resolve_one o d rows) ≤ suc k
      longer none rows d k h = omega (arith, h)
      longer (some i) rows d k h = omega (arith, h)

-- A semantic search answers with live memories of the caller's alone, none of them the excluded one,
-- each at most once, and no more than it was asked for, which is at least one.
pub search_stays_in_scope :
    (cosine_distance : List ℕ → List ℕ → ℕ) (user_id : ℕ) (vector : List ℕ) (limit : ℕ) (f : Narrow)
    (db : Db)
    → 0 < limit
    → let found = search_semantic cosine_distance user_id vector limit f db in
      (All
          (λ r.
            ((r.0.user_id ≡ user_id) × (r.0.deleted_at ≡ none))
            × (is_excluded f.exclude_item_id r.0.id ≡ false))
          found
        × Distinct (λ r. r.0.id) found)
      × (length found ≤ limit)
unfolding search_semantic
search_stays_in_scope cosine_distance user_id vector limit f db some_limit =
    let all = hits cosine_distance user_id vector f db db.chunks in
    let rows = take (limit * oversample) (order_asc (λ h. h.1) all) in
    let allowed = All-take _ (limit * oversample) (order_asc (λ h. h.1) all) (
      (All-order_asc (λ h. h.1) _ all).0
        (hits-Allowed user_id f db cosine_distance vector db.chunks)) in
    let best = best_of limit rows [] in
    let good = best_of-Good user_id f db limit rows [] allowed (tt, (tt, omega arith)) some_limit in
    let found = resolve user_id db best in
    let facts = resolve_lem user_id f db best good.0 good.1.0 in
    (
      (
        (All-order_asc (λ r. r.1) _ found).0 facts.0.0,
        Distinct-order_asc (λ r. r.0.id) (λ r. r.1) found facts.0.1,
      ),
      omega (arith, length-order_asc (λ r. r.1) found, facts.1, good.1.1),
    )

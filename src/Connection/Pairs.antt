-- ===== src/Connection/Pairs.antt =====
-- The owner and the unordered pair of an edge, which the constraints of app/models/connection.py are
-- about, under the statements of app/repositories/connection.py.
use recall_ai.Base.{
  ℕ, Bool, true, false, some, some-injective, List, [], ◌∷◌, ◌++◌, ◌≡◌, ◌≢◌, refl, sym, ap, ◌∙◌,
  arith, ◌==◌, if◌then◌else◌, inl, inr, Bool-cases, All, Distinct, Fresh, with_key, find_first,
  All-find_first, update_where, delete_where, All-update_where, All-delete_where, save, All-save,
}
use mathlib.Core.Path.{subst}
use recall_ai.Connection.Row.{MemoryConnection, pair_low, pair_high}
use recall_ai.Connection.Repository.{is_same_pair}
use recall_ai.Connection.Service.{edge_key}

-- The owner and the unordered pair.
abbrev pub pair_key : MemoryConnection → ℕ × (ℕ × ℕ)
pair_key c = (c.user_id, (pair_low c, pair_high c))

abbrev pub Apart : List MemoryConnection → Type 0
Apart [] = Unit
Apart (x ∷ xs) = All (λ y. pair_key y ≢ pair_key x) xs × Apart xs

abbrev pub NoSelf : MemoryConnection → Type 0
NoSelf c = c.source_item_id ≢ c.target_item_id

-- The table: distinct ids, one edge for a pair, and no edge from a memory to itself.
abbrev pub IsSound : List MemoryConnection → Type 0
IsSound edges = Distinct edge_key edges × (Apart edges × All NoSelf edges)

pub same_pair_iff :
    (r c : MemoryConnection)
    → (is_same_pair r c ≡ true → pair_key c ≡ pair_key r)
      × (is_same_pair r c ≡ false → pair_key c ≢ pair_key r)
unfolding is_same_pair
same_pair_iff r c = (
  λ h.
      let u : c.user_id ≡ r.user_id = ground (arith, h) in
      let l : pair_low c ≡ pair_low r = ground (arith, h) in
      let g : pair_high c ≡ pair_high r = ground (arith, h) in cc (u, l, g),
  λ h k.
      let u : c.user_id ≡ r.user_id = ap (λ t. t.0) k in
      let l : pair_low c ≡ pair_low r = ap (λ t. t.1.0) k in
      let g : pair_high c ≡ pair_high r = ap (λ t. t.1.1) k in ground (arith, h, u, l, g),
)

pub Apart-update_where :
    (p : MemoryConnection → Bool) (f : MemoryConnection → MemoryConnection)
    (xs : List MemoryConnection)
    → ((x : MemoryConnection) → pair_key (f x) ≡ pair_key x)
    → Apart xs
    → Apart (update_where p f xs)
unfolding update_where
Apart-update_where p f [] k a = tt
Apart-update_where p f (x ∷ xs) k a =
    let same : pair_key (if p x then f x else x) ≡ pair_key x = elim (Bool-cases (p x)) [
      | inl e ↦ rw e (k x)
      | inr e ↦ rw e refl
    ] in
    (
      subst (λ n. All (λ y. pair_key y ≢ n) (update_where p f xs)) (sym same)
          (All-update_where (λ y. pair_key y ≢ pair_key x) p f xs (λ y h _ e. h (sym (k y) ∙ e))
            a.0),
      Apart-update_where p f xs k a.1,
    )

pub Apart-delete_where :
    (p : MemoryConnection → Bool) (xs : List MemoryConnection)
    → Apart xs
    → Apart (delete_where p xs)
unfolding delete_where
Apart-delete_where p [] a = tt
Apart-delete_where p (x ∷ xs) a = elim (Bool-cases (p x)) [
  | inl e ↦ rw e (Apart-delete_where p xs a.1)
  | inr e ↦ rw e (All-delete_where _ p xs a.0, Apart-delete_where p xs a.1)
]

pub All-append_one {ℓ} :
    {A : Type ℓ} (P : A → Type 0) (r : A) (xs : List A) → All P xs → P r → All P (xs ++ r ∷ [])
All-append_one P r [] a h = (h, tt)
All-append_one P r (x ∷ xs) a h = (a.0, All-append_one P r xs a.1 h)

pub Apart-append :
    (r : MemoryConnection) (xs : List MemoryConnection)
    → All (λ y. pair_key y ≢ pair_key r) xs
    → Apart xs
    → Apart (xs ++ r ∷ [])
Apart-append r [] n a = (tt, tt)
Apart-append r (x ∷ xs) n a =
    (All-append_one _ r xs a.0 (λ e. n.0 (sym e)), Apart-append r xs n.1 a.1)

pub Distinct-append :
    (r : MemoryConnection) (xs : List MemoryConnection)
    → Fresh edge_key r.id xs
    → Distinct edge_key xs
    → Distinct edge_key (xs ++ r ∷ [])
Distinct-append r [] f d = (tt, tt)
Distinct-append r (x ∷ xs) f d =
    (All-append_one _ r xs d.0 (λ e. f.0 (sym e)), Distinct-append r xs f.1 d.1)

-- A row saved under its id in the place of one of the same pair.
pub Apart-save :
    (r : MemoryConnection) (xs : List MemoryConnection) {o : MemoryConnection}
    → find_first (with_key edge_key r.id) xs ≡ some o
    → pair_key r ≡ pair_key o
    → Apart xs
    → Apart (save edge_key r xs)
unfolding save find_first
Apart-save r [] h k a = (tt, tt)
Apart-save r (x ∷ xs) {o} h k a = elim (Bool-cases (x.id == r.id)) [
  | inl e ↦
      let same : x ≡ o = some-injective _ _ (rw e at h) in
      rw e (subst (λ n. All (λ y. pair_key y ≢ n) xs) (ap pair_key same ∙ sym k) a.0, a.1)
  | inr e ↦
      let later : find_first (with_key edge_key r.id) xs ≡ some o = rw e at h in
      let other : pair_key o ≢ pair_key x =
        All-find_first (λ y. pair_key y ≢ pair_key x) _ xs a.0 later in
      rw e (
        All-save edge_key (λ y. pair_key y ≢ pair_key x) r xs (λ q. other (sym k ∙ q)) a.0,
        Apart-save r xs later k a.1,
      )
]

-- ===== src/Connection/Sound.antt =====
-- The writes of app/repositories/connection.py and app/services/connection_service.py, and whether the
-- table of edges is sound.
use recall_ai.Base.{
  ℕ, String, Bool, true, false, Option, none, some, List, [], ◌∷◌, ◌++◌, ◌≡◌, refl, sym, ap, ◌∙◌,
  arith, min, max, leb, str_eq, if◌then◌else◌, inl, inr, Bool-cases, All-map, Fresh, with_key,
  find_first, find_first-none_iff, All-find_first, update_where, delete_where, All-update_where,
  All-delete_where, save, All-save, Distinct-save, Distinct-update_where, Distinct-delete_where,
}
use recall_ai.Proposal.Row.{Relation}
use recall_ai.Connection.Row.{MemoryConnection, pair_low, pair_high}
use recall_ai.Connection.Repository.{
  is_symmetric, is_same_pair, revived, changed, declined, accepted,
}
use recall_ai.Connection.Service.{edge_key, normalised}
use recall_ai.Connection.Typing.{Typed, typed_row, swapped}
use recall_ai.Connection.Pairs.{
  pair_key, NoSelf, IsSound, same_pair_iff, Apart-update_where, Apart-delete_where, Apart-append,
  Distinct-append, Apart-save, All-append_one,
}

-- A change of a row that keeps its id, its owner and its ends.
abbrev pub KeepsEnds : (MemoryConnection → MemoryConnection) → Type 0
KeepsEnds f =
    (c : MemoryConnection)
    → ((f c).id ≡ c.id)
      × ((f c).user_id ≡ c.user_id)
      × ((f c).source_item_id ≡ c.source_item_id)
      × ((f c).target_item_id ≡ c.target_item_id)

module _ (f : MemoryConnection → MemoryConnection) (k : KeepsEnds f) where
  KeepsEnds-pair : (c : MemoryConnection) → pair_key (f c) ≡ pair_key c
  KeepsEnds-pair c =
      let e = k c in
      let u : (f c).user_id ≡ c.user_id = e.1 in
      let l : pair_low (f c) ≡ pair_low c = rw (e.2, e.3) refl in
      let g : pair_high (f c) ≡ pair_high c = rw (e.2, e.3) refl in cc (u, l, g)

  pub IsSound-update_where :
      (p : MemoryConnection → Bool) (xs : List MemoryConnection)
      → IsSound xs
      → IsSound (update_where p f xs)
  IsSound-update_where p xs s = (
    Distinct-update_where edge_key p f xs (λ c. (k c).0) s.0,
    (
      Apart-update_where p f xs KeepsEnds-pair s.1.0,
      All-update_where NoSelf p f xs (λ c h _ e. h (sym (k c).2 ∙ e ∙ (k c).3)) s.1.1,
    ),
  )

pub IsSound-delete_where :
    (p : MemoryConnection → Bool) (xs : List MemoryConnection)
    → IsSound xs
    → IsSound (delete_where p xs)
IsSound-delete_where p xs s = (
  Distinct-delete_where edge_key p xs s.0,
  (Apart-delete_where p xs s.1.0, All-delete_where NoSelf p xs s.1.1),
)

-- A new row of a pair that is free.
pub IsSound-append :
    (r : MemoryConnection) (xs : List MemoryConnection)
    → Fresh edge_key r.id xs
    → find_first (is_same_pair r) xs ≡ none
    → NoSelf r
    → IsSound xs
    → IsSound (xs ++ r ∷ [])
IsSound-append r xs f free n s =
    let apart =
      All-map _ _ xs (λ c h. (same_pair_iff r c).1 h)
        ((find_first-none_iff (is_same_pair r) xs).0 free) in
    (
      Distinct-append r xs f s.0,
      (Apart-append r xs apart s.1.0, All-append_one NoSelf r xs s.1.1 n),
    )

-- A row that may take another's place: its id and its pair, from one memory to another.
abbrev pub Replaces : MemoryConnection → MemoryConnection → Type 0
Replaces c r = (r.id ≡ c.id) × ((pair_key r ≡ pair_key c) × NoSelf r)

pub IsSound-save :
    (c r : MemoryConnection) (xs : List MemoryConnection)
    → find_first (with_key edge_key c.id) xs ≡ some c
    → Replaces c r
    → IsSound xs
    → IsSound (save edge_key r xs)
IsSound-save c r xs found k s =
    let there = ap (λ n. find_first (with_key edge_key n) xs) k.0 ∙ found in
    (
      Distinct-save edge_key r xs s.0,
      (Apart-save r xs there k.1.0 s.1.0, All-save edge_key NoSelf r xs k.1.1 s.1.1),
    )

pub found-NoSelf :
    (c : MemoryConnection) (xs : List MemoryConnection)
    → find_first (with_key edge_key c.id) xs ≡ some c
    → IsSound xs
    → NoSelf c
found-NoSelf c xs h s = All-find_first NoSelf _ xs s.1.1 h

-- The row with its ends the other way round.
pub turned-Replaces :
    (c : MemoryConnection)
    → NoSelf c
    → Replaces c (record c { source_item_id = c.target_item_id; target_item_id = c.source_item_id })
turned-Replaces c n =
    let l : min c.target_item_id c.source_item_id ≡ min c.source_item_id c.target_item_id =
      omega arith in
    let g : max c.target_item_id c.source_item_id ≡ max c.source_item_id c.target_item_id =
      omega arith in
    (refl, (rw (l, g) refl, λ q. n (sym q)))

pub normalised-Replaces : (c : MemoryConnection) → NoSelf c → Replaces c (normalised c)
unfolding normalised
normalised-Replaces c n = elim (Bool-cases (leb c.source_item_id c.target_item_id)) [
  | inl e ↦ rw e (refl, (refl, n))
  | inr e ↦ rw e (turned-Replaces c n)
]

swapped-Replaces : (b : Bool) (c : MemoryConnection) → NoSelf c → Replaces c (swapped b c)
unfolding swapped
swapped-Replaces true c n = turned-Replaces c n
swapped-Replaces false c n = (refl, (refl, n))

pub typed_row-Replaces : (t : Typed) (c : MemoryConnection) → NoSelf c → Replaces c (typed_row t c)
unfolding typed_row
typed_row-Replaces t c n =
    let turned = swapped-Replaces t.swap c n in
    let labelled : MemoryConnection = record (swapped t.swap c) {
      relation = t.relation;
      ai_reason = if str_eq t.reason "" then none else some t.reason;
    } in
    elim (Bool-cases (is_symmetric t.relation)) [
      | inl e ↦
          let last = normalised-Replaces labelled turned.1.1 in
          rw e (last.0 ∙ turned.0, (last.1.0 ∙ turned.1.0, last.1.1))
      | inr e ↦ rw e turned
    ]

module _ (now : ℕ) where
  pub revived-KeepsEnds :
      (relation : Relation) (words : Option String) → KeepsEnds (revived now relation words)
  unfolding revived
  revived-KeepsEnds relation words c = (refl, refl, refl, refl)

  pub declined-KeepsEnds : KeepsEnds (declined now)
  unfolding declined
  declined-KeepsEnds c = (refl, refl, refl, refl)

  pub accepted-KeepsEnds : KeepsEnds (accepted now)
  unfolding accepted
  accepted-KeepsEnds c = (refl, refl, refl, refl)

pub changed-KeepsEnds :
    (relation : Option Relation) (words : Option String) (clear : Bool)
    → KeepsEnds (changed relation words clear)
unfolding changed
changed-KeepsEnds none none true c = (refl, refl, refl, refl)
changed-KeepsEnds none none false c = (refl, refl, refl, refl)
changed-KeepsEnds none (some t) true c = (refl, refl, refl, refl)
changed-KeepsEnds none (some t) false c = (refl, refl, refl, refl)
changed-KeepsEnds (some r) none true c = (refl, refl, refl, refl)
changed-KeepsEnds (some r) none false c = (refl, refl, refl, refl)
changed-KeepsEnds (some r) (some t) true c = (refl, refl, refl, refl)
changed-KeepsEnds (some r) (some t) false c = (refl, refl, refl, refl)

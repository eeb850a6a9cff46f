-- ===== src/Highlight/Quotes.antt =====
-- The kept highlights and the source that they stand in: app/ai/spans.py.
use recall_ai.Base.{
  ℕ, suc, ◌+◌, ◌≤◌, ◌<◌, String, Bool, true, false, not, ◌&&◌, Option, none, some, List, [], ◌∷◌,
  ◌++◌, ◌≡◌, refl, sym, ap, ◌∙◌, arith, str_eq, ltb, leb, inl, inr, Bool-cases, is_some, length,
  map, All, order_asc, order_desc, All-order_asc, All-insert_asc, length-order_asc, insert_asc,
}
use recall_ai.Highlight.{
  Texts, normalize, cleaned, Quote, overlaps, is_claimed, keep_found, keep_span, keep_spans,
  position_of, position, keep_verbatim,
}

module _ (t : Texts) (haystack : String) where
  -- A text of the allowed length that stands in the source.
  abbrev pub IsQuote : String → Type 0
  IsQuote s =
      ((24 ≤ t.len s) × (t.len s ≤ 320)) × (is_some (t.find haystack (normalize t s)) ≡ true)

  -- The place that a text claims does not meet that of another.
  unfoldable pub is_apart : String → String → Bool
  is_apart x y = not (
      ltb (position t haystack x) (position t haystack y + t.len (normalize t y))
      && ltb (position t haystack y) (position t haystack x + t.len (normalize t x)))

  -- No two claim places that meet.
  abbrev pub Separate : List String → Type 0
  Separate [] = Unit
  Separate (x ∷ xs) = All (λ y. is_apart x y ≡ true) xs × Separate xs

  Fits : Quote → Type 0
  Fits q =
      IsQuote q.quoted
      × ((q.start ≡ position t haystack q.quoted)
          × (q.end ≡ position t haystack q.quoted + t.len (normalize t q.quoted)))

  Disjoint : List Quote → Type 0
  Disjoint [] = Unit
  Disjoint (x ∷ xs) = All (λ y. overlaps x y ≡ false) xs × Disjoint xs

  overlaps_comm : (x y : Quote) → overlaps x y ≡ overlaps y x
  unfolding overlaps
  overlaps_comm x y = ground arith

  free_of :
      (x : Quote) (ys : List Quote) → is_claimed x ys ≡ false → All (λ y. overlaps y x ≡ false) ys
  unfolding is_claimed
  free_of x [] h = tt
  free_of x (y ∷ ys) h =
      let here : overlaps x y ≡ false = ground (arith, h) in
      let there : is_claimed x ys ≡ false = ground (arith, h) in
      (overlaps_comm y x ∙ here, free_of x ys there)

  All-append :
      (P : Quote → Type 0) (x : Quote) (ys : List Quote) → All P ys → P x → All P (ys ++ x ∷ [])
  All-append P x [] a p = (p, tt)
  All-append P x (y ∷ ys) a p = (a.0, All-append P x ys a.1 p)

  Disjoint-append :
      (x : Quote) (ys : List Quote)
      → All (λ y. overlaps y x ≡ false) ys
      → Disjoint ys
      → Disjoint (ys ++ x ∷ [])
  unfolding Disjoint
  Disjoint-append x [] f d = (tt, tt)
  Disjoint-append x (y ∷ ys) f d = (All-append _ x ys d.0 f.0, Disjoint-append x ys f.1 d.1)

  length_append : (x : Quote) (ys : List Quote) → length (ys ++ x ∷ []) ≡ suc (length ys)
  length_append x [] = refl
  length_append x (y ∷ ys) = ap suc (length_append x ys)

  -- The list of the kept, while there are fewer than five, and after.
  Kept : List Quote → Type 0
  Kept kept = All Fits kept × (Disjoint kept × (length kept ≤ 5))

  keep_found-Kept :
      (text : String) (o : Option ℕ) (kept : List Quote)
      → t.find haystack (normalize t text) ≡ o
      → (24 ≤ t.len text) × (t.len text ≤ 320)
      → Kept kept
      → length kept < 5
      → Kept (keep_found t text o kept)
  unfolding Kept
  keep_found-Kept text none kept e l k room = k
  keep_found-Kept text (some start) kept e l k room =
      let x : Quote = record {
        quoted = text;
        start = start;
        end = start + t.len (normalize t text);
      } in
      let there : start ≡ position t haystack text = ap position_of (sym e) in
      elim (Bool-cases (is_claimed x kept)) [
        | inl c ↦ rw c k
        | inr c ↦ rw c (
          All-append Fits x kept k.0 (
              unfold Fits in
              ((l, ap is_some e), (there, ap (λ n. n + t.len (normalize t text)) there))),
          (
            Disjoint-append x kept (free_of x kept c) k.1.0,
            omega (arith, length_append x kept, room),
          ),
        )
      ]

  keep_span-Kept :
      (span : String) (kept : List Quote)
      → Kept kept
      → length kept < 5
      → Kept (keep_span t haystack span kept)
  keep_span-Kept span kept k room =
      let text = cleaned t span in
      elim (Bool-cases (leb 24 (t.len text) && leb (t.len text) 320)) [
        | inl e ↦
            let low : 24 ≤ t.len text = ground (arith, e) in
            let high : t.len text ≤ 320 = ground (arith, e) in
            rw e (
              keep_found-Kept text (t.find haystack (normalize t text)) kept refl (low, high) k
                room)
        | inr e ↦ rw e k
      ]

  keep_spans-Kept :
      (ss : List String) (kept : List Quote)
      → Kept kept
      → length kept < 5
      → Kept (keep_spans t haystack ss kept)
  unfolding keep_spans
  keep_spans-Kept [] kept k room = k
  keep_spans-Kept (s ∷ ss) kept k room =
      let next = keep_span-Kept s kept k room in
      elim (Bool-cases (leb 5 (length (keep_span t haystack s kept)))) [
        | inl e ↦ rw e next
        | inr e ↦
            let more : length (keep_span t haystack s kept) < 5 = ground (arith, e) in
            rw e (keep_spans-Kept ss (keep_span t haystack s kept) next more)
      ]

  -- The texts of the kept.
  abbrev texts : List Quote → List String
  texts qs = map (λ (q : Quote). q.quoted) qs

  apart_of :
      (x y : Quote) → Fits x → Fits y → overlaps x y ≡ false → is_apart x.quoted y.quoted ≡ true
  unfolding Fits overlaps is_apart
  apart_of x y fx fy h =
      let xs = fx.1.0 in
      let xe = fx.1.1 in let ys = fy.1.0 in let ye = fy.1.1 in ground (arith, h, xs, xe, ys, ye)

  texts-Separate : (qs : List Quote) → All Fits qs → Disjoint qs → Separate (texts qs)
  unfolding Disjoint
  texts-Separate [] f d = tt
  texts-Separate (x ∷ xs) f d = (others xs f.1 d.0, texts-Separate xs f.1 d.1)
    where
      others :
          (ys : List Quote)
          → All Fits ys
          → All (λ y. overlaps x y ≡ false) ys
          → All (λ y. is_apart x.quoted y ≡ true) (texts ys)
      others [] g h = tt
      others (y ∷ ys) g h = (apart_of x y f.0 g.0 h.0, others ys g.1 h.1)

  texts-IsQuote : (qs : List Quote) → All Fits qs → All IsQuote (texts qs)
  unfolding Fits
  texts-IsQuote [] f = tt
  texts-IsQuote (x ∷ xs) f = (f.0.0, texts-IsQuote xs f.1)

  length-texts : (qs : List Quote) → length (texts qs) ≡ length qs
  length-texts [] = refl
  length-texts (x ∷ xs) = ap suc (length-texts xs)

  is_apart_comm : (x y : String) → is_apart x y ≡ is_apart y x
  unfolding is_apart
  is_apart_comm x y = ground arith

  -- Ordering keeps them apart.
  insert_asc-Separate :
      (column : String → ℕ) (r : String) (xs : List String)
      → All (λ y. is_apart r y ≡ true) xs
      → Separate xs
      → Separate (insert_asc column r xs)
  unfolding insert_asc
  insert_asc-Separate column r [] f d = (tt, tt)
  insert_asc-Separate column r (x ∷ xs) f d = elim (Bool-cases (leb (column r) (column x))) [
    | inl e ↦ rw e (f, d)
    | inr e ↦ rw e (
      (All-insert_asc column (λ y. is_apart x y ≡ true) r xs).0 (is_apart_comm x r ∙ f.0, d.0),
      insert_asc-Separate column r xs f.1 d.1,
    )
  ]

  order_asc-Separate :
      (column : String → ℕ) (xs : List String) → Separate xs → Separate (order_asc column xs)
  unfolding order_asc
  order_asc-Separate column [] d = tt
  order_asc-Separate column (x ∷ xs) d =
      insert_asc-Separate column x (order_asc column xs) ((All-order_asc column _ xs).0 d.0)
        (order_asc-Separate column xs d.1)

-- The highlights that are kept are quotes: each has an allowed length and stands in the source, the
-- places that two of them claim do not meet, and there are five at most.
pub highlights_are_quotes :
    (t : Texts) (spans : List String) (source : String)
    → let kept = keep_verbatim t spans source in
      let haystack = normalize t source in
      (All (IsQuote t haystack) kept × Separate t haystack kept) × (length kept ≤ 5)
unfolding keep_verbatim
highlights_are_quotes t spans source =
    let haystack = normalize t source in
    let column : String → ℕ = λ s. position t haystack s in
    let kept = keep_spans t haystack (order_desc t.len spans) [] in
    let facts : Kept t haystack kept =
      keep_spans-Kept t haystack (order_desc t.len spans) []
        (unfold Kept Disjoint in (tt, (tt, omega arith))) (omega arith) in
    elim (Bool-cases (str_eq haystack "")) [
      | inl e ↦ rw e ((tt, tt), omega arith)
      | inr e ↦ rw e (unfold Kept in whole haystack column kept facts)
    ]
  where
    whole :
        (haystack : String) (column : String → ℕ) (kept : List Quote)
        → Kept t haystack kept
        → (All (IsQuote t haystack) (order_asc column (texts t haystack kept))
            × Separate t haystack (order_asc column (texts t haystack kept)))
          × (length (order_asc column (texts t haystack kept)) ≤ 5)
    whole haystack column kept k =
        unfold Kept in
        (
          (
            (All-order_asc column _ (texts t haystack kept)).0 (texts-IsQuote t haystack kept k.0),
            order_asc-Separate t haystack column (texts t haystack kept)
                (texts-Separate t haystack kept k.0 k.1.0),
          ),
          omega (
            arith,
            length-order_asc column (texts t haystack kept),
            length-texts t haystack kept,
            k.1.1,
          ),
        )

-- ===== src/Highlight.antt =====
-- app/ai/spans.py: which of a model's quotes are kept as highlights. The regular expressions and the
-- methods of `str` are parameters.
pub mod Quotes
pub mod Examples
use recall_ai.Base.{
  ℕ, ◌+◌, String, Bool, true, false, not, ◌&&◌, ◌||◌, Option, none, some, List, [], ◌∷◌, ◌++◌,
  str_eq, ltb, leb, if◌then◌else◌, length, map, order_asc, order_desc,
}

-- `_INVISIBLE.sub("", s)`, `_WS.sub(" ", s)`, and methods of `str`; `find` gives none for -1.
pub record Texts : Type 0 where
  pub drop_invisible : String → String
  pub collapse : String → String
  pub strip : String → String
  pub strip_quotes : String → String
  pub casefold : String → String
  pub find : String → String → Option ℕ
  pub len : String → ℕ

unfoldable pub normalize : Texts → String → String
normalize t s = t.casefold (t.strip (t.collapse (t.drop_invisible s)))

unfoldable pub cleaned : Texts → String → String
cleaned t s = t.strip_quotes (t.strip (t.drop_invisible s))

-- A kept text, with the place that it claims in the source.
pub record Quote : Type 0 where
  pub quoted : String
  pub start : ℕ
  pub end : ℕ

unfoldable pub overlaps : Quote → Quote → Bool
overlaps x y = ltb x.start y.end && ltb y.start x.end

unfoldable pub is_claimed : Quote → List Quote → Bool
unfolding overlaps
is_claimed x [] = false
is_claimed x (y ∷ ys) = overlaps x y || is_claimed x ys

abbrev pub keep_found : Texts → String → Option ℕ → List Quote → List Quote
keep_found t text none kept = kept
keep_found t text (some start) kept =
    let x : Quote = record {
      quoted = text;
      start = start;
      end = start + t.len (normalize t text);
    } in
    if is_claimed x kept then kept else kept ++ x ∷ []

abbrev pub keep_span : Texts → String → String → List Quote → List Quote
keep_span t haystack span kept =
    let text = cleaned t span in
    if leb 24 (t.len text) && leb (t.len text) 320
    then keep_found t text (t.find haystack (normalize t text)) kept
    else kept

-- The loop, which stops once five are kept.
unfoldable pub keep_spans : Texts → String → List String → List Quote → List Quote
unfolding normalize cleaned is_claimed
keep_spans t haystack [] kept = kept
keep_spans t haystack (s ∷ ss) kept =
    let kept' = keep_span t haystack s kept in
    let rest = keep_spans t haystack ss kept' in if leb 5 (length kept') then kept' else rest

abbrev pub position_of : Option ℕ → ℕ
position_of none = 0
position_of (some n) = n

abbrev pub position : Texts → String → String → ℕ
position t haystack s = position_of (t.find haystack (normalize t s))

unfoldable pub keep_verbatim : Texts → List String → String → List String
unfolding keep_spans normalize
keep_verbatim t spans source =
    let haystack = normalize t source in
    if str_eq haystack ""
    then []
    else order_asc (λ s. position t haystack s)
        (map (λ (q : Quote). q.quoted) (keep_spans t haystack (order_desc t.len spans) []))

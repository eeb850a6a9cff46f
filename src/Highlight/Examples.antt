-- ===== src/Highlight/Examples.antt =====
-- The highlights of a concrete text.
use recall_ai.Base.{◌≤◌, some, [], ◌∷◌, All, length}
use recall_ai.Highlight.{Texts, normalize, keep_verbatim}
use recall_ai.Highlight.Quotes.{IsQuote, Separate, highlights_are_quotes}

-- Texts without blanks, where every quote is found at the start.
abbrev plain : Texts
plain = record {
  drop_invisible = λ s. s;
  collapse = λ s. s;
  strip = λ s. s;
  strip_quotes = λ s. s;
  casefold = λ s. s;
  find = λ s n. some 0;
  len = λ s. 30;
}

highlights_are_quotes_example :
    let kept = keep_verbatim plain ("one" ∷ "two" ∷ []) "source" in
    let haystack = normalize plain "source" in
    (All (IsQuote plain haystack) kept × Separate plain haystack kept) × (length kept ≤ 5)
highlights_are_quotes_example = highlights_are_quotes plain ("one" ∷ "two" ∷ []) "source"

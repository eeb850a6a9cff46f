-- ===== src/Proposal/Provenance.antt =====
-- `normalise` and `from_user_turn` of app/services/chat_engine/proposals.py: the check that the text
-- to be saved stands in what the person wrote.
use recall_ai.Base.{
  ℕ, zero, suc, String, Bool, true, false, not, List, [], ◌∷◌, ◌&&◌, ◌||◌, ◌≡◌, refl, sym, ap, ◌∙◌,
  str_eq, eq_iff, inl, inr, Bool-cases, take_chars, text_append,
}
use recall_ai.Proposal.Callback.{text_length, drop_chars}

-- `" ".join(words)`.
unfoldable pub join_words : List String → String
unfolding text_append
join_words [] = ""
join_words (w ∷ []) = w
join_words (w ∷ v ∷ words) = text_append w (text_append " " (join_words (v ∷ words)))

-- The methods `split` and `lower` of `str`.
pub record Words : Type 0 where
  pub split : String → List String
  pub lower : String → String

unfoldable pub normalise : Words → String → String
unfolding join_words
normalise t text = t.lower (join_words (t.split text))

-- `s.startswith(w)`, and `w in s`.
unfoldable pub begins_with : String → String → Bool
unfolding take_chars text_length
begins_with w s = str_eq (take_chars (text_length w) s) w

unfoldable pub contains : String → String → Bool
unfolding begins_with
contains w String.[] = begins_with w ""
contains w (String.◌∷◌ c s) = begins_with w (String.◌∷◌ c s) || contains w s

unfoldable pub from_user_turn : Words → String → String → Bool
unfolding normalise contains
from_user_turn t text turn =
    let wanted = normalise t text in not (str_eq wanted "") && contains wanted (normalise t turn)

take-drop : (n : ℕ) (s : String) → text_append (take_chars n s) (drop_chars n s) ≡ s
unfolding take_chars drop_chars text_append
take-drop zero s = refl
take-drop (suc n) String.[] = refl
take-drop (suc n) (String.◌∷◌ c s) = ap (String.◌∷◌ c) (take-drop n s)

take-text_append : (w s : String) → take_chars (text_length w) (text_append w s) ≡ w
unfolding take_chars text_length text_append
take-text_append String.[] s = refl
take-text_append (String.◌∷◌ c w) s = ap (String.◌∷◌ c) (take-text_append w s)

begins_whole : (w s : String) → begins_with w (text_append w s) ≡ true
unfolding begins_with
begins_whole w s = (eq_iff _ _).1 (take-text_append w s)

-- The text stands in another between two others.
abbrev pub Occurs : String → String → Type 0
Occurs w s = (before : String) × (after : String) × (s ≡ text_append before (text_append w after))

begins-Occurs : (w s : String) → begins_with w s ≡ true → Occurs w s
unfolding begins_with text_append
begins-Occurs w s h =
    let n = text_length w in
    (
      "",
      drop_chars n s,
      sym (take-drop n s) ∙ ap (λ x. text_append x (drop_chars n s)) ((eq_iff _ _).0 h),
    )

contains-Occurs : (w s : String) → contains w s ≡ true → Occurs w s
unfolding contains text_append
contains-Occurs w String.[] h = begins-Occurs w "" h
contains-Occurs w (String.◌∷◌ c s) h = elim (Bool-cases (begins_with w (String.◌∷◌ c s))) [
  | inl e ↦ begins-Occurs w (String.◌∷◌ c s) e
  | inr e ↦
      let (before, after, there) = contains-Occurs w s (rw e at h) in
      (String.◌∷◌ c before, after, ap (String.◌∷◌ c) there)
]

or_true : (b : Bool) → (b || true) ≡ true
or_true true = refl
or_true false = refl

begins_contains : (w s : String) → begins_with w s ≡ true → contains w s ≡ true
unfolding contains
begins_contains w String.[] h = h
begins_contains w (String.◌∷◌ c s) h = rw h refl

occurs_contains :
    (before w after : String) → contains w (text_append before (text_append w after)) ≡ true
unfolding contains text_append
occurs_contains String.[] w after = begins_contains w (text_append w after) (begins_whole w after)
occurs_contains (String.◌∷◌ c before) w after =
    rw (occurs_contains before w after)
      (or_true (begins_with w (String.◌∷◌ c (text_append before (text_append w after)))))

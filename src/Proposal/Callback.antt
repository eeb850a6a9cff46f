-- ===== src/Proposal/Callback.antt =====
-- The payload of a button: `parse` of app/services/telegram/confirm.py, and the keyboards of
-- app/services/telegram/formatting.py that it reads back.
use recall_ai.Base.{
  ℕ, zero, suc, String, false, Option, none, some, ◌≡◌, ◌≢◌, refl, ap, str_eq, str_ne, eq_iff, ltb,
  if◌then◌else◌, take_chars, text_append,
}
use text.Mathlib.TextLemmas.{cons≢nil}
use recall_ai.Proposal.Row.{Tap, accept, decline, answer, Callback}

-- `len` of a text, and `s[n:]`.
unfoldable pub text_length : String → ℕ
text_length String.[] = 0
text_length (String.◌∷◌ x s) = suc (text_length s)

unfoldable pub drop_chars : ℕ → String → String
drop_chars zero s = s
drop_chars (suc n) String.[] = ""
drop_chars (suc n) (String.◌∷◌ x s) = drop_chars n s

unfoldable pub callback : Tap → String → Callback
callback kind token = record { kind = kind; token = token }

unfoldable pub parse_text : String → Option Callback
unfolding take_chars drop_chars callback
parse_text s =
    if str_eq (take_chars 5 s) "p:no:"
    then some (callback decline (drop_chars 5 s))
    else if str_eq (take_chars 2 s) "p:"
    then some (callback accept (drop_chars 2 s))
    else if str_eq (take_chars 2 s) "q:"
    then some (callback answer (drop_chars 2 s))
    else none

unfoldable pub parse : Option String → Option Callback
unfolding parse_text
parse none = none
parse (some s) = if str_eq s "" then none else parse_text s

-- The payload that a button of each kind carries.
unfoldable pub callback_data : Tap → String → String
unfolding text_append
callback_data accept token = text_append "p:" token
callback_data decline token = text_append "p:no:" token
callback_data answer token = text_append "q:" token

-- `CALLBACK_DATA_MAX`.
abbrev pub callback_data_max : ℕ
callback_data_max = 64

-- The payloads of the Yes and No buttons.
unfoldable pub confirm_markup : String → Option (String × String)
unfolding text_length callback_data
confirm_markup token =
    if ltb callback_data_max (text_length (callback_data accept token))
    then none
    else some (callback_data accept token, callback_data decline token)

other : (s t : String) → text_append "q" s ≢ text_append "p" t
unfolding text_append
other s t e = absurd (cc ((eq_iff "q" "p").1 (unfold take_chars in ap (take_chars 1) e)))

-- A button says what it was made to say: the payload of each kind parses back to that kind and its
-- token, for a token that does not begin with `no:`.
pub parse-callback_data :
    (kind : Tap) (token : String)
    → str_eq (take_chars 3 token) "no:" ≡ false
    → parse (some (callback_data kind token)) ≡ some (record { kind = kind; token = token })
unfolding parse callback_data
parse-callback_data accept token h =
    let some_text : str_eq (text_append "p:" token) "" ≡ false =
      unfold text_append in str_ne _ cons≢nil in
    let no_decline : str_eq (take_chars 5 (text_append "p:" token)) "p:no:" ≡ false =
      unfold text_append take_chars in
      str_ne _ (λ e. cc (h, (eq_iff _ _).1 (unfold drop_chars in ap (drop_chars 2) e))) in
    rw some_text (unfold parse_text in rw no_decline refl)
parse-callback_data decline token h =
    let some_text : str_eq (text_append "p:no:" token) "" ≡ false =
      unfold text_append in str_ne _ cons≢nil in
    rw some_text refl
parse-callback_data answer token h =
    let some_text : str_eq (text_append "q:" token) "" ≡ false =
      unfold text_append in str_ne _ cons≢nil in
    let no_decline : str_eq (take_chars 5 (text_append "q:" token)) "p:no:" ≡ false =
      unfold text_append take_chars in str_ne _ (other _ _) in
    rw some_text (unfold parse_text in rw no_decline refl)

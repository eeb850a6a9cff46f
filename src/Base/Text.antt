-- ===== src/Base/Text.antt =====
-- Python's text operations, by characters.
use Prim.Native.Nat.{ℕ, zero, suc}
use Prim.Native.String.{String}

-- `s[:n]`.
unfoldable pub take_chars : ℕ → String → String
take_chars zero s = ""
take_chars (suc n) String.[] = ""
take_chars (suc n) (String.◌∷◌ c s) = String.◌∷◌ c (take_chars n s)

-- `s + t`.
unfoldable pub text_append : String → String → String
text_append String.[] t = t
text_append (String.◌∷◌ c s) t = String.◌∷◌ c (text_append s t)

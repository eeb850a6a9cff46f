-- ===== src/Limit/Rate.antt =====
-- `consume` of app/core/rate_limit.py. A limit of zero or less is 0 here. Where the server does not
-- answer the call goes through.
use recall_ai.Base.{
  ℕ, ◌+◌, String, Bool, true, not, List, [], ◌∷◌, leb, bit, if◌then◌else◌, text_append,
}
use recall_ai.Redis.{Counter}

-- `WINDOW_SECONDS`, the default window.
abbrev pub window_seconds : ℕ
window_seconds = 3600

unfoldable pub rate_key : String → String → String
rate_key namespace identity = text_append "rl:" (text_append namespace (text_append ":" identity))

module _ (c : Counter) (namespace identity : String) (limit window : ℕ) where
  unfoldable pub consume : Bool → ℕ → c.Store → Bool × c.Store
  unfolding rate_key
  consume is_up now s =
      if leb limit 0
      then (true, s)
      else if not is_up
      then (true, s)
      else let out = c.incr_expire now (rate_key namespace identity) window s in
        (leb out.0 limit, out.1)

  -- How many of the calls at these times go through; beside each is whether the server answers it.
  unfoldable pub granted : List (ℕ × Bool) → c.Store → ℕ × c.Store
  unfolding consume
  granted [] s = (0, s)
  granted ((now, is_up) ∷ calls) s =
      let first = consume is_up now s in
      let rest = granted calls first.1 in (bit first.0 + rest.0, rest.1)

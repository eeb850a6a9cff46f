-- ===== src/Limit/Dedupe.antt =====
-- `claim` of app/services/telegram/dedupe.py: a redelivered update is processed once. Where the
-- server does not answer the update is claimed.
use recall_ai.Base.{
  ℕ, ◌+◌, ◌≤◌, ◌<◌, String, Bool, true, false, not, Option, none, some, List, [], ◌∷◌, ◌≡◌, refl,
  ap, ◌∙◌, arith, bit, if◌then◌else◌, text_append,
}
use recall_ai.Redis.{Flags, IsFlags}

-- `int_text` is `str` of a number.
unfoldable pub update_key : (ℕ → String) → ℕ → String
update_key int_text update_id = text_append "tg:update:" (int_text update_id)

-- The times are in order, from `prev` on and before `deadline`.
abbrev AreWithin : ℕ → ℕ → List ℕ → Type 0
AreWithin prev deadline [] = Unit
AreWithin prev deadline (now ∷ times) =
    (prev ≤ now) × (now < deadline) × AreWithin now deadline times

module _ (f : Flags) (int_text : ℕ → String) (ttl : ℕ) where
  -- An update id that is not a number is `none`.
  unfoldable pub claim : Bool → ℕ → Option ℕ → f.Store → Bool × f.Store
  unfolding update_key
  claim is_up now none s = (true, s)
  claim is_up now (some update_id) s =
      if not is_up then (true, s) else f.set_nx now (update_key int_text update_id) ttl s

  -- How many of the deliveries of one update at these times are processed.
  unfoldable pub claimed : ℕ → List ℕ → f.Store → ℕ × f.Store
  unfolding claim
  claimed update_id [] s = (0, s)
  claimed update_id (now ∷ times) s =
      let first = claim true now (some update_id) s in
      let rest = claimed update_id times first.1 in (bit first.0 + rest.0, rest.1)

module _ (f : Flags) (laws : IsFlags f) (int_text : ℕ → String) (ttl update_id : ℕ) where
  abbrev key : String
  key = update_key int_text update_id

  held :
      (times : List ℕ) (prev deadline : ℕ) (s : f.Store)
      → ((later : ℕ) → prev ≤ later → later < deadline → f.exists later key s ≡ true)
      → AreWithin prev deadline times
      → (claimed f int_text ttl update_id times s).0 ≡ 0
  unfolding claimed
  held [] prev deadline s there h = refl
  held (now ∷ times) prev deadline s there h =
      let s' = (f.set_nx now key ttl s).1 in
      let rest =
        held times now deadline s'
          (λ later le soon.
            laws.keeps now later key ttl s le (there later (omega (arith, h.0, le)) soon))
          h.2 in
      let refused : (f.set_nx now key ttl s).0 ≡ false =
        laws.answers now key ttl s ∙ ap not (there now h.0 h.1) in
      rw refused (ap (λ n. 0 + n) rest)

  -- However often an update that was not seen is delivered, in order and before its key expires, it
  -- is processed exactly once. The server answers.
  pub claimed_once :
      (now : ℕ) (times : List ℕ) (s : f.Store)
      → f.exists now key s ≡ false
      → AreWithin now (now + ttl) times
      → (claimed f int_text ttl update_id (now ∷ times) s).0 ≡ 1
  unfolding claimed
  claimed_once now times s free h =
      let s' = (f.set_nx now key ttl s).1 in
      let rest =
        held times now (now + ttl) s' (λ later le soon. laws.holds now later key ttl s free le soon)
          h in
      let won : (f.set_nx now key ttl s).0 ≡ true = laws.answers now key ttl s ∙ ap not free in
      rw won (ap (λ n. 1 + n) rest)

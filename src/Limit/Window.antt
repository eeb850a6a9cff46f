-- ===== src/Limit/Window.antt =====
-- The fixed window of `consume`: how many calls go through in one, and that it ends.
use recall_ai.Base.{
  ℕ, suc, ◌+◌, ◌≤◌, ◌<◌, min, String, Bool, true, false, not, count_where, List, [], ◌∷◌, ◌≡◌, refl,
  ap, ◌∙◌, arith, leb, bit,
}
use recall_ai.Redis.{Counter, IsCounter}
use recall_ai.Limit.Rate.{rate_key, consume, granted}

-- The times are in order, from `prev` on and before `deadline`.
abbrev pub IsWithin : ℕ → ℕ → List (ℕ × Bool) → Type 0
IsWithin prev deadline [] = Unit
IsWithin prev deadline (x ∷ calls) = (prev ≤ x.0) × (x.0 < deadline) × IsWithin x.0 deadline calls

-- The calls that the server answers, and those that it does not.
abbrev pub answered : List (ℕ × Bool) → ℕ
answered calls = count_where (λ x. x.1) calls

abbrev pub unanswered : List (ℕ × Bool) → ℕ
unanswered calls = count_where (λ x. not x.1) calls

module _ (c : Counter) (laws : IsCounter c) (namespace identity : String) (limit window : ℕ)
    (capped : 0 < limit) where
  abbrev key : String
  key = rate_key namespace identity

  consume_up :
      (now : ℕ) (s : c.Store)
      → consume c namespace identity limit window true now s
        ≡ (leb (c.incr_expire now key window s).0 limit, (c.incr_expire now key window s).1)
  unfolding consume
  consume_up now s = let on : leb limit 0 ≡ false = ground (arith, capped) in rw on refl

  -- A window that is open: it has this end and this count.
  record IsOpenWindow (prev n deadline : ℕ) (s : c.Store) : Type 0 where
    started : 0 < n
    ends_at : c.deadline key s ≡ deadline
    counted : (later : ℕ) → prev ≤ later → later < deadline → c.count later key s ≡ n

  opened :
      (now : ℕ) (s : c.Store)
      → c.count now key s ≡ 0
      → IsOpenWindow now 1 (now + window) (c.incr_expire now key window s).1
  opened now s free =
      let deadline = laws.opens now key window s free in
      record {
        started = omega arith;
        ends_at = deadline;
        counted =
            λ later le soon. laws.holds now later key window s le (rw deadline soon) ∙ ap suc free;
      }

  next :
      (prev n deadline now : ℕ) (s : c.Store)
      → IsOpenWindow prev n deadline s
      → prev ≤ now
      → now < deadline
      → IsOpenWindow now (suc n) deadline (c.incr_expire now key window s).1
  next prev n deadline now s w le soon =
      let here = w.counted now le soon in
      let kept = laws.stays now key window s (rw here (w.started)) ∙ w.ends_at in
      record {
        started = omega arith;
        ends_at = kept;
        counted =
            λ later le' soon'. laws.holds now later key window s le' (rw kept soon') ∙ ap suc here;
      }

  abbrev out : List (ℕ × Bool) → c.Store → ℕ × c.Store
  out calls s = granted c namespace identity limit window calls s

  consume_down :
      (now : ℕ) (s : c.Store) → consume c namespace identity limit window false now s ≡ (true, s)
  unfolding consume
  consume_down now s = let on : leb limit 0 ≡ false = ground (arith, capped) in rw on refl

  later_on :
      (prev n deadline now : ℕ) (s : c.Store)
      → IsOpenWindow prev n deadline s
      → prev ≤ now
      → IsOpenWindow now n deadline s
  later_on prev n deadline now s w le = record {
    started = w.started;
    ends_at = w.ends_at;
    counted = λ later le' soon'. w.counted later (omega (arith, le, le')) soon';
  }

  one_more :
      (n up down g : ℕ)
      → g + min (suc n) limit ≡ min (suc n + up) limit + down
      → bit (leb (suc n) limit) + g + min n limit ≡ min (n + (1 + up)) limit + (0 + down)
  one_more n up down g h = ground arith

  first_one :
      (up down g : ℕ)
      → g + min 1 limit ≡ min (1 + up) limit + down
      → bit (leb 1 limit) + g ≡ min (1 + up) limit + down
  first_one up down g h = ground (arith, capped)

  granted_open :
      (calls : List (ℕ × Bool)) (prev n deadline : ℕ) (s : c.Store)
      → IsOpenWindow prev n deadline s
      → IsWithin prev deadline calls
      → ((out calls s).0 + min n limit ≡ min (n + answered calls) limit + unanswered calls)
        × (c.deadline key (out calls s).1 ≡ deadline)
  unfolding granted count_where
  granted_open [] prev n deadline s w h = (ground arith, w.ends_at)
  granted_open ((now, true) ∷ calls) prev n deadline s w h =
      let s' = (c.incr_expire now key window s).1 in
      let rest =
        granted_open calls now (suc n) deadline s' (next prev n deadline now s w h.0 h.1) h.2 in
      let reply : (c.incr_expire now key window s).0 ≡ suc n =
        laws.counts now key window s ∙ ap suc (w.counted now h.0 h.1) in
      rw (consume_up now s)
        (rw reply (one_more n (answered calls) (unanswered calls) (out calls s').0 rest.0, rest.1))
  granted_open ((now, false) ∷ calls) prev n deadline s w h =
      let rest = granted_open calls now n deadline s (later_on prev n deadline now s w h.0) h.2 in
      rw (consume_down now s) (omega (arith, rest.0), rest.1)

  -- The first call at `now` finds no window, and the others come in order within the one it opens.
  module _ (now : ℕ) (calls : List (ℕ × Bool)) (s : c.Store) (free : c.count now key s ≡ 0)
      (within : IsWithin now (now + window) calls) where
    all_granted :
        ((out ((now, true) ∷ calls) s).0 ≡ min (1 + answered calls) limit + unanswered calls)
        × (c.deadline key (out ((now, true) ∷ calls) s).1 ≡ now + window)
    unfolding granted
    all_granted =
        let s' = (c.incr_expire now key window s).1 in
        let rest = granted_open calls now 1 (now + window) s' (opened now s free) within in
        let reply : (c.incr_expire now key window s).0 ≡ 1 =
          laws.counts now key window s ∙ ap suc free in
        rw (consume_up now s)
          (rw reply (first_one (answered calls) (unanswered calls) (out calls s').0 rest.0, rest.1))

    -- Of the calls that come in order within one window, from the one that opens it on, exactly
    -- `limit` of those that the server answers go through, or all where they are fewer, and every
    -- one that it does not answer. The limit is positive, and the server answers the first.
    pub granted_in_window :
        (granted c namespace identity limit window ((now, true) ∷ calls) s).0
        ≡ min (1 + answered calls) limit + unanswered calls
    granted_in_window = all_granted.0

    -- However many calls a window saw, the next call at or after its fixed end goes through. The limit
    -- is positive.
    pub consume_after_window :
        (later : ℕ) (is_up : Bool)
        → now + window ≤ later
        → (consume c namespace identity limit window is_up later
            (granted c namespace identity limit window ((now, true) ∷ calls) s).1).0
          ≡ true
    consume_after_window later false le =
        ap (λ (o : Bool × c.Store). o.0)
          (consume_down later (granted c namespace identity limit window ((now, true) ∷ calls) s).1)
    consume_after_window later true le =
        let s' = (granted c namespace identity limit window ((now, true) ∷ calls) s).1 in
        let over : c.count later key s' ≡ 0 = laws.ends later key s' (rw (all_granted.1) le) in
        let reply : (c.incr_expire later key window s').0 ≡ 1 =
          laws.counts later key window s' ∙ ap suc over in
        ap (λ (o : Bool × c.Store). o.0) (consume_up later s') ∙ rw reply (ground (arith, capped))

-- ===== src/Limit/Budget.antt =====
-- `Budget` of app/services/chat_engine/budget.py: what one turn of the agent may spend. Durations
-- are microseconds of the monotonic clock.
use recall_ai.Base.{
  ℕ, ◌+◌, ◌-◌, ◌≤◌, min, Bool, true, false, not, List, [], ◌∷◌, ◌&&◌, ◌||◌, ◌≡◌, refl, ap, ◌∙◌,
  arith, leb, bit, All,
}

pub record Budget : Type 0 where
  pub max_calls : ℕ
  pub max_rounds : ℕ
  pub wall_clock : ℕ
  pub max_cards : ℕ
  pub calls_used : ℕ
  pub cards_used : ℕ
  pub started_at : ℕ

unfoldable pub elapsed : ℕ → Budget → ℕ
elapsed now b = now - b.started_at

unfoldable pub out_of_time : ℕ → Budget → Bool
unfolding elapsed
out_of_time now b = leb b.wall_clock (elapsed now b)

unfoldable pub spend_call : ℕ → Budget → Bool × Budget
unfolding out_of_time
spend_call now b =
    let b' : Budget = record b { calls_used = b.calls_used + 1 } in
    (leb b'.calls_used b'.max_calls && not (out_of_time now b'), b')

unfoldable pub take_cards : ℕ → Budget → ℕ × Budget
take_cards available b =
    let taken = min (b.max_cards - b.cards_used) available in
    (taken, record b { cards_used = b.cards_used + taken })

unfoldable pub exhausted : ℕ → Budget → Bool
unfolding out_of_time
exhausted now b = leb b.max_calls b.calls_used || out_of_time now b

-- What the toolbox asks of the budget in a turn: a call at a time, or room for cards.
pub data Use : Type 0 where
  call : ℕ → Use
  cards : ℕ → Use

-- The calls granted, the cards taken and the budget left.
unfoldable pub spend_all : List Use → Budget → ℕ × ℕ × Budget
unfolding spend_call take_cards
spend_all [] b = (0, 0, b)
spend_all (call now ∷ uses) b =
    let first = spend_call now b in
    let rest = spend_all uses first.1 in (bit first.0 + rest.0, rest.1, rest.2)
spend_all (cards available ∷ uses) b =
    let first = take_cards available b in
    let rest = spend_all uses first.1 in (rest.0, first.0 + rest.1, rest.2)

one_call :
    (used most g : ℕ) (in_time : Bool)
    → g + min (used + 1) most ≤ most
    → bit (leb (used + 1) most && in_time) + g + min used most ≤ most
one_call used most g in_time h = ground (arith, h)

-- Whatever a turn asks for, the calls granted to it and those made before stay within the calls
-- allowed, and so do the cards, where the budget was not overspent before.
pub spend_all_bounds :
    (uses : List Use) (b : Budget)
    → b.cards_used ≤ b.max_cards
    → ((spend_all uses b).0 + min b.calls_used b.max_calls ≤ b.max_calls)
      × ((spend_all uses b).1 + b.cards_used ≤ b.max_cards)
unfolding spend_all
spend_all_bounds [] b h = (ground arith, ground (arith, h))
spend_all_bounds (call now ∷ uses) b h =
    let first = spend_call now b in
    let rest = spend_all_bounds uses first.1 (unfold spend_call in h) in
    (
      one_call b.calls_used b.max_calls (spend_all uses first.1).0 (not (out_of_time now b))
          (unfold spend_call in rest.0),
      unfold spend_call in rest.1,
    )
spend_all_bounds (cards available ∷ uses) b h =
    let first = take_cards available b in
    let rest = spend_all_bounds uses first.1 (unfold take_cards in ground (arith, h)) in
    (rest.0, omega (arith, rest.1))

-- No later use of a call comes before `now`.
abbrev pub is_after : ℕ → Use → Bool
is_after now (call later) = leb now later
is_after now (cards available) = true

exhausted_later :
    (now later : ℕ) (b : Budget) → now ≤ later → exhausted now b ≡ true → exhausted later b ≡ true
unfolding exhausted out_of_time elapsed
exhausted_later now later b le h = ground (arith, h, le)

exhausted-spend_call :
    (now later : ℕ) (b : Budget)
    → exhausted now b ≡ true
    → exhausted now (spend_call later b).1 ≡ true
unfolding exhausted spend_call out_of_time elapsed
exhausted-spend_call now later b h = ground (arith, h)

refused_exhausted : (now : ℕ) (b : Budget) → (spend_call now b).0 ≡ not (exhausted now b)
unfolding exhausted spend_call out_of_time elapsed
refused_exhausted now b = ground arith

nothing_granted :
    (uses : List Use) (now : ℕ) (b : Budget)
    → exhausted now b ≡ true
    → All (λ u. is_after now u ≡ true) uses
    → (spend_all uses b).0 ≡ 0
unfolding spend_all
nothing_granted [] now b h a = refl
nothing_granted (call later ∷ uses) now b h a =
    let le : now ≤ later = ground (arith, a.0) in
    let still = exhausted_later now later b le h in
    let b' = (spend_call later b).1 in
    let refused : (spend_call later b).0 ≡ false = refused_exhausted later b ∙ ap not still in
    let rest = nothing_granted uses now b' (exhausted-spend_call now later b h) a.1 in
    ap (λ o. bit o + (spend_all uses b').0) refused ∙ ap (λ n. 0 + n) rest
nothing_granted (cards available ∷ uses) now b h a =
    nothing_granted uses now (take_cards available b).1 (unfold take_cards exhausted in h) a.1

-- Once a call was refused, none is granted for the rest of the turn, whatever it asks for at that
-- time or later.
pub refused_for_good :
    (uses : List Use) (now : ℕ) (b : Budget)
    → (spend_call now b).0 ≡ false
    → All (λ u. is_after now u ≡ true) uses
    → (spend_all uses (spend_call now b).1).0 ≡ 0
refused_for_good uses now b h a =
    let e = refused_exhausted now b in
    let spent : exhausted now b ≡ true = ground (arith, h, e) in
    nothing_granted uses now (spend_call now b).1 (exhausted-spend_call now now b spent) a

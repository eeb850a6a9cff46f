-- ===== src/Limit/Examples.antt =====
-- A concrete server for counters and one for flags, and each theorem at one of them.
use recall_ai.Base.{
  ℕ, suc, ◌+◌, ◌≤◌, ◌<◌, min, String, Bool, true, false, not, List, [], ◌∷◌, ◌≡◌, refl, arith,
  str_eq, eq_refl, ltb, ◌==◌, if◌then◌else◌,
}
use recall_ai.Redis.{Counter, IsCounter, Flags, IsFlags}
use recall_ai.Limit.Rate.{granted}
use recall_ai.Limit.Window.{answered, unanswered, granted_in_window}
use recall_ai.Limit.Budget.{Budget, Use, call, cards}

-- A counter and when it expires.
abbrev Cell : Type 0
Cell = ℕ × ℕ

abbrev live_count : ℕ → Cell → ℕ
live_count now x = if ltb now x.1 then x.0 else 0

-- The cell after a bump of a count `n`.
abbrev bump : ℕ → ℕ → ℕ → Cell → Cell
bump n now window x = if n == 0 then (1, now + window) else (suc n, x.1)

abbrev counter : Counter
counter = record {
  Store = String → Cell;
  incr_expire = λ now key window s. (
    suc (live_count now (s key)),
    λ k. if str_eq k key then bump (live_count now (s key)) now window (s key) else s k,
  );
  count = λ now key s. live_count now (s key);
  deadline = λ key s. (s key).1;
}

bump_count :
    (n now later window : ℕ) (x : Cell)
    → live_count now x ≡ n
    → now ≤ later
    → later < (bump n now window x).1
    → live_count later (bump n now window x) ≡ suc n
bump_count n now later window x here le soon = ground (arith, here, le, soon)

bump_deadline : (n now window : ℕ) (x : Cell) → 0 < n → (bump n now window x).1 ≡ x.1
bump_deadline n now window x some_count = ground (arith, some_count)

counter-IsCounter : IsCounter counter
counter-IsCounter = record {
  counts = λ now key window s. refl;
  holds = λ now later key window s le soon. rw (eq_refl key) (
      bump_count (live_count now (s key)) now later window (s key) refl le
        (rw (eq_refl key) at soon));
  opens = λ now key window s free. rw (eq_refl key) (rw free refl);
  stays = λ now key window s some_count.
      rw (eq_refl key) (bump_deadline (live_count now (s key)) now window (s key) some_count);
  ends = λ later key s past. ground (arith, past);
}

abbrev flags : Flags
flags = record {
  Store = String → ℕ;
  set_nx = λ now key seconds s. (
    not (ltb now (s key)),
    λ k. if str_eq k key then (if ltb now (s key) then s key else now + seconds) else s k,
  );
  exists = λ now key s. ltb now (s key);
}

flags-IsFlags : IsFlags flags
flags-IsFlags = record {
  answers = λ now key seconds s. refl;
  holds = λ now later key seconds s free le soon. rw (eq_refl key) (rw free (ground (arith, soon)));
  keeps = λ now later key seconds s le there.
      let old : ltb now (s key) ≡ true = ground (arith, le, there) in
      rw (eq_refl key) (rw old there);
}

abbrev untouched : String → Cell
untouched key = (0, 0)

abbrev later_calls : List (ℕ × Bool)
later_calls = (110, true) ∷ (115, false) ∷ (120, true) ∷ []

-- Four calls in one window where two are allowed, one of them while the server is down.
granted_in_window_example :
    (granted counter "chat" "1" 2 60 ((100, true) ∷ later_calls) untouched).0
    ≡ min (1 + answered later_calls) 2 + unanswered later_calls
granted_in_window_example =
    granted_in_window counter counter-IsCounter "chat" "1" 2 60 (omega arith) 100 later_calls
      untouched refl
      (omega arith, omega arith, (omega arith, omega arith, (omega arith, omega arith, tt)))

abbrev unseen : String → ℕ
unseen key = 0

abbrev digits : ℕ → String
digits n = "7"

abbrev turn : Budget
turn = record {
  max_calls = 1;
  max_rounds = 3;
  wall_clock = 1000;
  max_cards = 5;
  calls_used = 0;
  cards_used = 0;
  started_at = 10;
}

abbrev asked : List Use
asked = call 20 ∷ cards 4 ∷ call 30 ∷ cards 4 ∷ []

abbrev used_up : Budget
used_up = record turn { calls_used = 1 }

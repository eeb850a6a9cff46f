-- ===== src/Redis.antt =====
-- The Redis commands that the code issues, and what it relies on of them. The server is not part of
-- this repository: its store and its commands are parameters. A command is given the server's time
-- in seconds. One that fails is a matter of its caller.
use recall_ai.Base.{ℕ, suc, ◌+◌, ◌≤◌, ◌<◌, String, Bool, true, false, not, Option, none, some, ◌≡◌}

pub record Redis : Type 1 where
  pub Store : Type 0
  -- SET key value EX seconds.
  pub set : ℕ → String → String → ℕ → Store → Store
  -- GETDEL key.
  pub getdel : ℕ → String → Store → Option String × Store

-- GETDEL takes the value away, and SET with EX keeps it for that long.
pub record IsGetdel (redis : Redis) : Type 0 where
  pub takes :
      (now later : ℕ) (key : String) (s : redis.Store)
      → now ≤ later
      → (redis.getdel later key (redis.getdel now key s).1).0 ≡ none
  pub keeps :
      (now later : ℕ) (key value : String) (seconds : ℕ) (s : redis.Store)
      → now ≤ later
      → later < now + seconds
      → (redis.getdel later key (redis.set now key value seconds s)).0 ≡ some value

-- The pipeline INCR key; EXPIRE key seconds NX, whose answer is the count. `count` is what a reader
-- of the key would see, 0 where the key is not there, and `deadline` when the key expires.
pub record Counter : Type 1 where
  pub Store : Type 0
  pub incr_expire : ℕ → String → ℕ → Store → ℕ × Store
  pub count : ℕ → String → Store → ℕ
  pub deadline : String → Store → ℕ

-- Keys that only this pipeline writes: each has an expiry, which NX leaves as it is.
pub record IsCounter (c : Counter) : Type 0 where
  pub counts :
      (now : ℕ) (key : String) (window : ℕ) (s : c.Store)
      → (c.incr_expire now key window s).0 ≡ suc (c.count now key s)
  pub holds :
      (now later : ℕ) (key : String) (window : ℕ) (s : c.Store)
      → now ≤ later
      → later < c.deadline key (c.incr_expire now key window s).1
      → c.count later key (c.incr_expire now key window s).1 ≡ suc (c.count now key s)
  pub opens :
      (now : ℕ) (key : String) (window : ℕ) (s : c.Store)
      → c.count now key s ≡ 0
      → c.deadline key (c.incr_expire now key window s).1 ≡ now + window
  pub stays :
      (now : ℕ) (key : String) (window : ℕ) (s : c.Store)
      → 0 < c.count now key s
      → c.deadline key (c.incr_expire now key window s).1 ≡ c.deadline key s
  pub ends :
      (later : ℕ) (key : String) (s : c.Store) → c.deadline key s ≤ later → c.count later key s ≡ 0

-- SET key "1" NX EX seconds, which answers whether it set the key.
pub record Flags : Type 1 where
  pub Store : Type 0
  pub set_nx : ℕ → String → ℕ → Store → Bool × Store
  pub exists : ℕ → String → Store → Bool

pub record IsFlags (f : Flags) : Type 0 where
  pub answers :
      (now : ℕ) (key : String) (seconds : ℕ) (s : f.Store)
      → (f.set_nx now key seconds s).0 ≡ not (f.exists now key s)
  pub holds :
      (now later : ℕ) (key : String) (seconds : ℕ) (s : f.Store)
      → f.exists now key s ≡ false
      → now ≤ later
      → later < now + seconds
      → f.exists later key (f.set_nx now key seconds s).1 ≡ true
  pub keeps :
      (now later : ℕ) (key : String) (seconds : ℕ) (s : f.Store)
      → now ≤ later
      → f.exists later key s ≡ true
      → f.exists later key (f.set_nx now key seconds s).1 ≡ true

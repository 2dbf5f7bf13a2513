-- ===== src/Pool/State.antt =====
-- `SandboxPool` and `PooledSandbox` of crates/eryx/src/pool.rs. Each operation is one step: it
-- holds a permit or the lock over what it changes. What the world decides is an argument: the
-- clock (nanoseconds), the end of the wait for a permit, and the answers of the builder.
use eryx.Prelude.{
  ℕ, zero, suc, ◌+◌, ◌-◌, ◌/◌, ◌%◌, ◌^◌, Bool, true, Option, none, some, List, [], ◌∷◌, ◌++◌,
  Result, ok, err, if◌then◌else◌, ltb, nat_eq, length, not,
}
use eryx.Prelude.Text.{Text, codes}
use eryx.Sandbox.{Sandbox, clear_per_request_state}

pub record PoolConfig : Type 0 where
  pub max_size : ℕ
  pub min_idle : ℕ
  pub idle_timeout : ℕ
  pub acquire_timeout : ℕ
  pub reset_on_release : Bool

abbrev pub default_config : PoolConfig
default_config = record {
  max_size = 10;
  min_idle = 1;
  idle_timeout = 300_000_000_000;
  acquire_timeout = 30_000_000_000;
  reset_on_release = true;
}

pub data PoolError : Type 0 where
  exhausted timeout : ℕ → PoolError
  creation reset : Text → PoolError
  closed : PoolError

pub record PoolEntry : Type 0 where
  pub sandbox : Sandbox
  pub last_used : ℕ

pub record PoolStatsInner : Type 0 where
  pub total_acquisitions : ℕ
  pub total_creations : ℕ
  pub wait_count : ℕ
  pub total_wait_nanos : ℕ

abbrev pub no_stats : PoolStatsInner
no_stats = record {
  total_acquisitions = 0;
  total_creations = 0;
  wait_count = 0;
  total_wait_nanos = 0;
}

-- `fetch_add` and `fetch_sub` of 64-bit atomics wrap.
abbrev pub fetch_add : ℕ → ℕ → ℕ
fetch_add a n = (a + n) % 2 ^ 64

abbrev pub fetch_sub : ℕ → ℕ → ℕ
fetch_sub a n = (a + 2 ^ 64 - n) % 2 ^ 64

unfoldable pub record_acquisition : PoolStatsInner → PoolStatsInner
record_acquisition s = record s { total_acquisitions = fetch_add s.total_acquisitions 1 }

unfoldable pub record_creation : PoolStatsInner → PoolStatsInner
record_creation s = record s { total_creations = fetch_add s.total_creations 1 }

unfoldable pub record_wait : PoolStatsInner → ℕ → PoolStatsInner
record_wait s duration = record s {
  wait_count = fetch_add s.wait_count 1;
  total_wait_nanos = fetch_add s.total_wait_nanos (duration % 2 ^ 64);
}

-- `pool` is the queue of idle sandboxes, `semaphore` the number of available permits.
pub record SandboxPool : Type 0 where
  pub config : PoolConfig
  pub pool : List PoolEntry
  pub semaphore : ℕ
  pub stats : PoolStatsInner
  pub current_size : ℕ
  pub closed_flag : ℕ

-- What `builder_fn` answers to its n-th call.
abbrev pub Builder : Type 0
Builder = ℕ → Result Sandbox Text

unfoldable pub push_created : SandboxPool → Sandbox → ℕ → SandboxPool
unfolding record_creation
push_created p s now = record p {
  pool = p.pool ++ record { sandbox = s; last_used = now } ∷ [];
  stats = record_creation p.stats;
  current_size = fetch_add p.current_size 1;
}

-- The loop of `prewarm`, with `i` calls of the builder made and `count` left.
unfoldable pub prewarm : SandboxPool → Builder → ℕ → ℕ → ℕ → Result SandboxPool PoolError
prewarm p builder now i zero = ok p
prewarm p builder now i (suc count) = elim (builder i) [
  | ok s ↦ prewarm (push_created p s now) builder now (suc i) count
  | err message ↦ err (creation message)
]

unfoldable pub empty_pool : PoolConfig → SandboxPool
empty_pool config = record {
  config = config;
  pool = [];
  semaphore = config.max_size;
  stats = no_stats;
  current_size = 0;
  closed_flag = 0;
}

-- `new` and `with_builder`, which differ in where the builder comes from.
unfoldable pub with_builder : Builder → PoolConfig → ℕ → Result SandboxPool PoolError
unfolding empty_pool
with_builder builder config now =
    if nat_eq config.max_size 0
    then err (creation (codes "max_size must be greater than 0"))
    else if ltb config.max_size config.min_idle
    then err (creation (codes "min_idle cannot exceed max_size"))
    else prewarm (empty_pool config) builder now 0 config.min_idle

-- The permit is held: take an idle sandbox, or have one built. On an error the permit is dropped.
unfoldable pub take_sandbox :
    SandboxPool → Result Sandbox Text → SandboxPool × Result Sandbox PoolError
unfolding record_acquisition record_creation
take_sandbox p built = elim p.pool [
  | entry ∷ rest ↦ (record p { pool = rest; stats = record_acquisition p.stats }, ok entry.sandbox)
  | [] ↦ elim built [
    | ok s ↦ (
      record p {
        stats = record_acquisition (record_creation p.stats);
        current_size = fetch_add p.current_size 1;
      },
      ok s,
    )
    | err message ↦ (record p { semaphore = p.semaphore + 1 }, err (creation message))
  ]
]

-- How the wait for a permit ends.
pub data Wait : Type 0 where
  granted : ℕ → Wait
  semaphore_closed timed_out : Wait

abbrev pub with_permit : SandboxPool → SandboxPool
with_permit p = record p { semaphore = p.semaphore - 1 }

unfoldable pub note_wait : SandboxPool → ℕ → SandboxPool
unfolding record_wait
note_wait p elapsed =
    if ltb 1_000_000 elapsed then record p { stats = record_wait p.stats elapsed } else p

unfoldable pub acquire_timeout :
    SandboxPool → ℕ → Wait → Result Sandbox Text → SandboxPool × Result Sandbox PoolError
acquire_timeout p limit wait built =
    if not (nat_eq p.closed_flag 0) then (p, err closed) else elim wait [
      | granted elapsed ↦ take_sandbox (note_wait (with_permit p) elapsed) built
      | semaphore_closed ↦ (p, err closed)
      | timed_out ↦ (p, err (timeout limit))
    ]

unfoldable pub acquire :
    SandboxPool → Wait → Result Sandbox Text → SandboxPool × Result Sandbox PoolError
unfolding acquire_timeout
acquire p = acquire_timeout p p.config.acquire_timeout

-- `Ok(None)`, no permit being free, is `none`.
unfoldable pub try_acquire :
    SandboxPool → Result Sandbox Text → SandboxPool × Option (Result Sandbox PoolError)
try_acquire p built =
    if not (nat_eq p.closed_flag 0)
    then (p, some (err closed))
    else if nat_eq p.semaphore 0
    then (p, none)
    else (let (p', r) = take_sandbox (with_permit p) built in (p', some r))

unfoldable pub return_sandbox : SandboxPool → Sandbox → ℕ → SandboxPool
return_sandbox p s now =
    if not (nat_eq p.closed_flag 0)
    then record p { current_size = fetch_sub p.current_size 1 }
    else record p { pool = p.pool ++ record { sandbox = s; last_used = now } ∷ [] }

-- `Drop` of a `PooledSandbox`; `none` where the sandbox was taken by `detach`. The permit follows.
unfoldable pub drop_pooled : SandboxPool → Option Sandbox → ℕ → SandboxPool
unfolding return_sandbox
drop_pooled p none now = record p { semaphore = p.semaphore + 1 }
drop_pooled p (some s) now =
    let q = return_sandbox p (clear_per_request_state s) now in
    record q { semaphore = q.semaphore + 1 }

unfoldable pub detach : SandboxPool → Sandbox → ℕ → SandboxPool × Sandbox
unfolding drop_pooled
detach p s now = (drop_pooled p none now, s)

unfoldable pub close : SandboxPool → SandboxPool
close p = record p { closed_flag = 1 }

unfoldable pub is_closed : SandboxPool → Bool
is_closed p = not (nat_eq p.closed_flag 0)

-- The loop of `evict_idle` over the queue: what is left, and how many went.
unfoldable pub evict : PoolConfig → ℕ → List PoolEntry → List PoolEntry × ℕ
evict config now [] = ([], 0)
evict config now (entry ∷ rest) =
    let (left, evicted) = evict config now rest in
    if ltb config.min_idle (length (entry ∷ rest))
    then (if ltb config.idle_timeout (now - entry.last_used)
        then (left, suc evicted)
        else (entry ∷ rest, 0))
    else (entry ∷ rest, 0)

unfoldable pub evict_idle : SandboxPool → ℕ → SandboxPool × ℕ
evict_idle p now =
    let (left, evicted) = evict p.config now p.pool in
    (record p { pool = left; current_size = fetch_sub p.current_size evicted }, evicted)

pub record PoolStats : Type 0 where
  pub total : ℕ
  pub available : ℕ
  pub in_use : ℕ
  pub total_acquisitions : ℕ
  pub total_creations : ℕ
  pub wait_count : ℕ
  pub total_wait_time : ℕ

unfoldable pub stats : SandboxPool → PoolStats
stats p = record {
  total = p.current_size;
  available = p.semaphore;
  in_use = p.config.max_size - p.semaphore;
  total_acquisitions = p.stats.total_acquisitions;
  total_creations = p.stats.total_creations;
  wait_count = p.stats.wait_count;
  total_wait_time = p.stats.total_wait_nanos;
}

-- The division is by the count as a `u32`, and panics where that is zero: `none`.
unfoldable pub average_wait_time : PoolStats → Option ℕ
average_wait_time s =
    if nat_eq s.wait_count 0
    then some 0
    else if nat_eq (s.wait_count % 2 ^ 32) 0
    then none
    else some (s.total_wait_time / (s.wait_count % 2 ^ 32))

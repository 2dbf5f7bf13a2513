-- ===== src/Pool/Invariant.antt =====
-- The accounting of crates/eryx/src/pool.rs: permits, sizes and the bound on sandboxes.
use eryx.Prelude.{
  ℕ, zero, suc, ◌+◌, ◌%◌, ◌^◌, ◌≤◌, ◌<◌, ◌≡◌, refl, Option, some, List, [], ◌∷◌, ◌++◌, arith,
  Result, ok, length, length-append, ◌∙◌, ap, if_rule, nat_eq, Result-cases, inl, inr,
}
use eryx.Prelude.Text.{Text}
use eryx.Sandbox.{Sandbox, clear_per_request_state}
use eryx.Pool.State.{
  PoolConfig, SandboxPool, PoolEntry, PoolError, Wait, granted, Builder, push_created, prewarm,
  empty_pool, with_builder, take_sandbox, with_permit, note_wait, acquire_timeout, try_acquire,
  drop_pooled, detach, close, is_closed, evict, evict_idle, stats,
}
use eryx.Pool.System.{
  System, after_acquire, after_try, CanEnd, Step, acquires, tries, configures, drops, detaches,
  evicts, closes, Reaches, here, next, fresh,
}

-- Every permit is free or held with a sandbox; the sandboxes never outnumber `max_size`; and
-- `current_size` counts the idle, the leased and, for ever, the detached ones.
pub record IsAccounted (w : System) : Type 0 where
  pub permits : w.pool.semaphore + length w.leased ≡ w.pool.config.max_size
  pub bounded : length w.pool.pool + length w.leased ≤ w.pool.config.max_size
  pub sized : w.pool.current_size ≡ (length w.pool.pool + length w.leased + w.detached) % 2 ^ 64

-- A permit is held for a sandbox that is still to be found.
record IsHolding (p : SandboxPool) (leased detached : ℕ) : Type 0 where
  permits : p.semaphore + suc leased ≡ p.config.max_size
  bounded : length p.pool + leased ≤ p.config.max_size
  sized : p.current_size ≡ (length p.pool + leased + detached) % 2 ^ 64

take_sandbox-IsAccounted :
    (w : System) (p : SandboxPool) (built : Result Sandbox Text)
    → IsHolding p (length w.leased) w.detached
    → IsAccounted (after_acquire w (take_sandbox p built))
unfolding take_sandbox
take_sandbox-IsAccounted w p built h = ground arith

with_permit-IsHolding :
    (w : System)
    → 0 < w.pool.semaphore
    → IsAccounted w
    → IsHolding (with_permit w.pool) (length w.leased) w.detached
with_permit-IsHolding w h a = ground arith

note_wait-IsHolding :
    (p : SandboxPool) (elapsed l d : ℕ) → IsHolding p l d → IsHolding (note_wait p elapsed) l d
unfolding note_wait
note_wait-IsHolding p elapsed l d h = ground arith

acquire_timeout-IsAccounted :
    (w : System) (limit : ℕ) (wait : Wait) (built : Result Sandbox Text)
    → CanEnd w.pool wait
    → IsAccounted w
    → IsAccounted (after_acquire w (acquire_timeout w.pool limit wait built))
unfolding acquire_timeout
acquire_timeout-IsAccounted w limit (granted elapsed) built free a = ground (
  arith,
  take_sandbox-IsAccounted w (note_wait (with_permit w.pool) elapsed) built (
      note_wait-IsHolding (with_permit w.pool) elapsed (length w.leased) w.detached
        (with_permit-IsHolding w free a)),
)
acquire_timeout-IsAccounted w limit _ built free a = ground arith

try_acquire-IsAccounted :
    (w : System) (built : Result Sandbox Text)
    → IsAccounted w
    → IsAccounted (after_try w (try_acquire w.pool built))
unfolding try_acquire is_closed
try_acquire-IsAccounted w built a =
    if_rule (λ (r : SandboxPool × Option (Result Sandbox PoolError)). IsAccounted (after_try w r))
      (is_closed w.pool) _ _ (λ _. ground arith)
      λ _.
        if_rule
          (λ (r : SandboxPool × Option (Result Sandbox PoolError)). IsAccounted (after_try w r))
          (nat_eq w.pool.semaphore 0) _ _ (λ _. ground arith)
          λ free.
            take_sandbox-IsAccounted w (with_permit w.pool) built
              (with_permit-IsHolding w (ground arith) a)

length_middle :
    {A : Type 0} (xs ys : List A) (x : A) (zs : List A)
    → zs ≡ xs ++ (x ∷ ys)
    → length zs ≡ suc (length (xs ++ ys))
length_middle xs ys x zs e =
    omega (arith, ap length e, length-append xs (x ∷ ys), length-append xs ys)

drop_pooled-IsAccounted :
    (w : System) (xs ys : List Sandbox) (s : Sandbox) (now : ℕ)
    → w.leased ≡ xs ++ (s ∷ ys)
    → IsAccounted w
    → IsAccounted (record w { pool = drop_pooled w.pool (some s) now; leased = xs ++ ys })
unfolding drop_pooled
drop_pooled-IsAccounted w xs ys s now e a = ground (
  arith,
  length_middle xs ys s w.leased e,
  length-append w.pool.pool (record { sandbox = clear_per_request_state s; last_used = now } ∷ []),
)

evict-length :
    (config : PoolConfig) (now : ℕ) (entries : List PoolEntry)
    → length (evict config now entries).0 + (evict config now entries).1 ≡ length entries
unfolding evict
evict-length config now [] = omega arith
evict-length config now (entry ∷ rest) = ground (arith, evict-length config now rest)

evict_idle-IsAccounted :
    (w : System) (now : ℕ)
    → length w.pool.pool < 2 ^ 64
    → IsAccounted w
    → IsAccounted (record w { pool = (evict_idle w.pool now).0 })
unfolding evict_idle
evict_idle-IsAccounted w now fits a =
    omega (arith, evict-length w.pool.config now w.pool.pool, a.permits, a.bounded, a.sized)

config-Step : {w u : System} → Step w u → u.pool.config ≡ w.pool.config
unfolding acquire_timeout try_acquire take_sandbox note_wait detach drop_pooled evict_idle close
config-Step (acquires w limit (granted elapsed) built free) = ground arith
config-Step (acquires w limit wait built free) = ground arith
config-Step (tries w built) = ground arith
config-Step (configures w xs ys s s' e) = refl
config-Step (drops w xs ys s now e) = ground arith
config-Step (detaches w xs ys s now e) = refl
config-Step (evicts w now) = refl
config-Step (closes w) = refl

Step-IsAccounted :
    {w u : System} → w.pool.config.max_size < 2 ^ 64 → Step w u → IsAccounted w → IsAccounted u
unfolding detach drop_pooled close
Step-IsAccounted fits (acquires w limit wait built free) a =
    acquire_timeout-IsAccounted w limit wait built free a
Step-IsAccounted fits (tries w built) a = try_acquire-IsAccounted w built a
Step-IsAccounted fits (configures w xs ys s s' e) a =
    ground (arith, length_middle xs ys s w.leased e, length_middle xs ys s' (xs ++ (s' ∷ ys)) refl)
Step-IsAccounted fits (drops w xs ys s now e) a = drop_pooled-IsAccounted w xs ys s now e a
Step-IsAccounted fits (detaches w xs ys s now e) a =
    ground (arith, length_middle xs ys s w.leased e)
Step-IsAccounted fits (evicts w now) a = evict_idle-IsAccounted w now (omega arith) a
Step-IsAccounted fits (closes w) a = ground arith

Reaches-IsAccounted :
    {w u : System}
    → w.pool.config.max_size < 2 ^ 64
    → IsAccounted w
    → Reaches w u
    → IsAccounted u × (u.pool.config ≡ w.pool.config)
Reaches-IsAccounted fits a here = (a, refl)
Reaches-IsAccounted fits a (next r st) =
    let (b, same) = Reaches-IsAccounted fits a r in
    (Step-IsAccounted (rw same fits) st b, config-Step st ∙ same)

-- The state of a pool while it is warmed up, with `left` sandboxes still to build.
record IsWarming (config : PoolConfig) (p : SandboxPool) (left : ℕ) : Type 0 where
  same : p.config ≡ config
  room : length p.pool + left ≤ config.max_size
  free : p.semaphore ≡ config.max_size
  sized : p.current_size ≡ length p.pool % 2 ^ 64

push_created-IsWarming :
    (config : PoolConfig) (p : SandboxPool) (s : Sandbox) (now left : ℕ)
    → IsWarming config p (suc left)
    → IsWarming config (push_created p s now) left
unfolding push_created
push_created-IsWarming config p s now left h =
    ground (arith, length-append p.pool (record { sandbox = s; last_used = now } ∷ []))

prewarm-IsWarming :
    (config : PoolConfig) (p q : SandboxPool) (builder : Builder) (now i left : ℕ)
    → prewarm p builder now i left ≡ ok q
    → IsWarming config p left
    → IsWarming config q 0
unfolding prewarm
prewarm-IsWarming config p q builder now i zero e h = ground arith
prewarm-IsWarming config p q builder now i (suc left) e h = elim (Result-cases (builder i)) [
  | inl (s, b) ↦
      prewarm-IsWarming config (push_created p s now) q builder now (suc i) left (ground arith)
        (push_created-IsWarming config p s now left h)
  | inr (message, b) ↦ absurd (ground arith)
]

with_builder-IsAccounted :
    (builder : Builder) (config : PoolConfig) (now : ℕ) (p : SandboxPool)
    → with_builder builder config now ≡ ok p
    → IsAccounted (fresh p) × (p.config ≡ config)
unfolding with_builder
with_builder-IsAccounted builder config now p e =
    let warm : IsWarming config p 0 =
      prewarm-IsWarming config (empty_pool config) p builder now 0 config.min_idle (ground arith)
        (record { same = refl; room = ground arith; free = refl; sized = refl }) in
    (
      record {
        permits = omega (arith, warm.free, ap (λ c. c.max_size) warm.same);
        bounded = omega (arith, warm.room, ap (λ c. c.max_size) warm.same);
        sized = omega (arith, warm.sized);
      },
      warm.same,
    )

-- In every state that a pool which was opened successfully can reach, whatever its clients do: each
-- permit is free or goes with a leased sandbox, idle and leased sandboxes together never exceed
-- `max_size`, and the statistics report the leased sandboxes as in use and the free permits as
-- available, while the total still counts every sandbox that was detached.
pub pool_accounting :
    (builder : Builder) (config : PoolConfig) (now : ℕ) (p : SandboxPool) (w : System)
    → with_builder builder config now ≡ ok p
    → config.max_size < 2 ^ 64
    → Reaches (fresh p) w
    → (length w.pool.pool + length w.leased ≤ config.max_size)
      × ((stats w.pool).in_use ≡ length w.leased)
      × ((stats w.pool).available + length w.leased ≡ config.max_size)
      × ((stats w.pool).total ≡ (length w.pool.pool + length w.leased + w.detached) % 2 ^ 64)
unfolding stats
pool_accounting builder config now p w e fits r =
    let (a, same) = with_builder-IsAccounted builder config now p e in
    let (b, kept) = Reaches-IsAccounted (rw same fits) a r in
    let size : w.pool.config.max_size ≡ config.max_size = ap (λ c. c.max_size) (kept ∙ same) in
    (omega (arith, b.bounded), omega (arith, b.permits), omega (arith, b.permits), b.sized)

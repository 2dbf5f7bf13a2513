-- ===== src/Pool/Isolation.antt =====
-- What one client of the pool leaves behind for the next: crates/eryx/src/pool.rs.
use eryx.Prelude.{
  ℕ, zero, suc, ◌≡◌, refl, Option, none, some, List, [], ◌∷◌, ◌++◌, arith, ◌⊎◌, inl, inr, Result,
  ok, err, Result-cases,
}
use eryx.Prelude.Text.{Text}
use eryx.Sandbox.{Sandbox, default_limits, clear_per_request_state}
use eryx.Pool.State.{
  PoolConfig, SandboxPool, PoolEntry, PoolError, Wait, granted, Builder, push_created, prewarm,
  empty_pool, with_builder, take_sandbox, with_permit, note_wait, acquire_timeout, try_acquire,
  drop_pooled, detach, close, evict, evict_idle,
}
use eryx.Pool.System.{
  System, after_acquire, after_try, Step, acquires, tries, configures, drops, detaches, evicts,
  closes, Reaches, here, next, fresh,
}

pub record IsClean (s : Sandbox) : Type 0 where
  pub callbacks : s.callbacks ≡ []
  pub trace_handler : s.trace_handler ≡ none
  pub output_handler : s.output_handler ≡ none
  pub resource_limits : s.resource_limits ≡ default_limits
  pub vfs_storage : s.vfs_storage ≡ none

clear_per_request_state-IsClean : (s : Sandbox) → IsClean (clear_per_request_state s)
unfolding clear_per_request_state
clear_per_request_state-IsClean s = ground arith

-- The sandbox is as the builder made it.
abbrev pub IsBuilt : Builder → Sandbox → Type 0
IsBuilt builder s = (i : ℕ) × (builder i ≡ ok s)

abbrev pub CleanOrBuilt : Builder → Sandbox → Type 0
CleanOrBuilt builder s = IsClean s ⊎ IsBuilt builder s

abbrev pub AllCleanOrBuilt : Builder → List PoolEntry → Type 0
AllCleanOrBuilt builder [] = Unit {0}
AllCleanOrBuilt builder (e ∷ es) = CleanOrBuilt builder e.sandbox × AllCleanOrBuilt builder es

module _ (builder : Builder) where
  All-push :
      (es : List PoolEntry) (e : PoolEntry)
      → AllCleanOrBuilt builder es
      → CleanOrBuilt builder e.sandbox
      → AllCleanOrBuilt builder (es ++ e ∷ [])
  All-push [] e a h = (h, tt)
  All-push (x ∷ es) e a h = (a.0, All-push es e a.1 h)

  take_sandbox-All :
      (p : SandboxPool) (built : Result Sandbox Text)
      → AllCleanOrBuilt builder p.pool
      → AllCleanOrBuilt builder (take_sandbox p built).0.pool
  unfolding take_sandbox
  take_sandbox-All p built a = ground arith

  note_wait-pool : (p : SandboxPool) (elapsed : ℕ) → (note_wait p elapsed).pool ≡ p.pool
  unfolding note_wait
  note_wait-pool p elapsed = ground arith

  acquire_timeout-All :
      (p : SandboxPool) (limit : ℕ) (wait : Wait) (built : Result Sandbox Text)
      → AllCleanOrBuilt builder p.pool
      → AllCleanOrBuilt builder (acquire_timeout p limit wait built).0.pool
  unfolding acquire_timeout
  acquire_timeout-All p limit (granted elapsed) built a = ground (
    arith,
    take_sandbox-All (note_wait (with_permit p) elapsed) built
        (rw (note_wait-pool (with_permit p) elapsed) a),
  )
  acquire_timeout-All p limit _ built a = ground arith

  try_acquire-All :
      (p : SandboxPool) (built : Result Sandbox Text)
      → AllCleanOrBuilt builder p.pool
      → AllCleanOrBuilt builder (try_acquire p built).0.pool
  unfolding try_acquire
  try_acquire-All p built a = ground (arith, take_sandbox-All (with_permit p) built a)

  drop_pooled-All :
      (p : SandboxPool) (s : Sandbox) (now : ℕ)
      → AllCleanOrBuilt builder p.pool
      → AllCleanOrBuilt builder (drop_pooled p (some s) now).pool
  unfolding drop_pooled
  drop_pooled-All p s now a =
      let e : PoolEntry = record { sandbox = clear_per_request_state s; last_used = now } in
      ground (arith, All-push p.pool e a (inl (clear_per_request_state-IsClean s)))

  evict-All :
      (config : PoolConfig) (now : ℕ) (es : List PoolEntry)
      → AllCleanOrBuilt builder es
      → AllCleanOrBuilt builder (evict config now es).0
  unfolding evict
  evict-All config now [] a = tt
  evict-All config now (e ∷ es) a = ground (arith, evict-All config now es a.1)

  after_acquire-pool :
      (w : System) (r : SandboxPool × Result Sandbox PoolError) → (after_acquire w r).pool ≡ r.0
  after_acquire-pool w (p, ok s) = refl
  after_acquire-pool w (p, err e) = refl

  after_try-pool :
      (w : System) (r : SandboxPool × Option (Result Sandbox PoolError))
      → (after_try w r).pool ≡ r.0
  after_try-pool w (p, none) = refl
  after_try-pool w (p, some r) = after_acquire-pool w (p, r)

  Step-All :
      {w u : System}
      → Step w u
      → AllCleanOrBuilt builder w.pool.pool
      → AllCleanOrBuilt builder u.pool.pool
  unfolding detach drop_pooled evict_idle close
  Step-All (acquires w limit wait built free) a =
      rw (after_acquire-pool w (acquire_timeout w.pool limit wait built))
        (acquire_timeout-All w.pool limit wait built a)
  Step-All (tries w built) a =
      rw (after_try-pool w (try_acquire w.pool built)) (try_acquire-All w.pool built a)
  Step-All (configures w xs ys s s' e) a = a
  Step-All (drops w xs ys s now e) a = drop_pooled-All w.pool s now a
  Step-All (detaches w xs ys s now e) a = a
  Step-All (evicts w now) a = evict-All w.pool.config now w.pool.pool a
  Step-All (closes w) a = a

  Reaches-All :
      {w u : System}
      → AllCleanOrBuilt builder w.pool.pool
      → Reaches w u
      → AllCleanOrBuilt builder u.pool.pool
  Reaches-All a here = a
  Reaches-All a (next r st) = Step-All st (Reaches-All a r)

  prewarm-All :
      (p q : SandboxPool) (now i left : ℕ)
      → prewarm p builder now i left ≡ ok q
      → AllCleanOrBuilt builder p.pool
      → AllCleanOrBuilt builder q.pool
  unfolding prewarm push_created
  prewarm-All p q now i zero e a = ground arith
  prewarm-All p q now i (suc left) e a = elim (Result-cases (builder i)) [
    | inl (s, b) ↦
        prewarm-All (push_created p s now) q now (suc i) left (ground arith)
          (All-push p.pool (record { sandbox = s; last_used = now }) a (inr (i, b)))
    | inr (message, b) ↦ absurd (ground arith)
  ]

  with_builder-All :
      (config : PoolConfig) (now : ℕ) (p : SandboxPool)
      → with_builder builder config now ≡ ok p
      → AllCleanOrBuilt builder p.pool
  unfolding with_builder
  with_builder-All config now p e =
      prewarm-All (empty_pool config) p now 0 config.min_idle (ground arith) tt

  acquire_timeout-hands_out :
      (p p' : SandboxPool) (limit : ℕ) (wait : Wait) (built : Result Sandbox Text) (s : Sandbox)
      → acquire_timeout p limit wait built ≡ (p', ok s)
      → AllCleanOrBuilt builder p.pool
      → CleanOrBuilt builder s ⊎ (built ≡ ok s)
  unfolding acquire_timeout take_sandbox
  acquire_timeout-hands_out p p' limit (granted elapsed) built s e a =
      ground (arith, note_wait-pool (with_permit p) elapsed)
  acquire_timeout-hands_out p p' limit _ built s e a = ground arith

  -- Whatever clients did to the sandboxes that they held before, an acquisition from a pool that was
  -- opened with `builder` hands out a sandbox with no callback, handler, storage or limit of theirs:
  -- one that is cleared, or one as the builder made it, at the opening or just now.
  pub acquire_isolated :
      (config : PoolConfig) (now : ℕ) (p p' : SandboxPool) (w : System) (limit : ℕ) (wait : Wait)
      (built : Result Sandbox Text) (s : Sandbox)
      → with_builder builder config now ≡ ok p
      → Reaches (fresh p) w
      → acquire_timeout w.pool limit wait built ≡ (p', ok s)
      → CleanOrBuilt builder s ⊎ (built ≡ ok s)
  acquire_isolated config now p p' w limit wait built s e r handed =
      acquire_timeout-hands_out w.pool p' limit wait built s handed
        (Reaches-All (with_builder-All config now p e) r)

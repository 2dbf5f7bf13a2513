-- ===== src/Pool/System.antt =====
-- A pool and the sandboxes that its clients hold (crates/eryx/src/pool.rs): the steps that clients
-- and the pool may take, in any order.
use eryx.Prelude.{ℕ, suc, ◌<◌, ◌≡◌, Option, none, some, List, [], ◌∷◌, ◌++◌, Result, ok, err}
use eryx.Prelude.Text.{Text}
use eryx.Sandbox.{Sandbox}
use eryx.Pool.State.{
  SandboxPool, PoolError, Wait, granted, semaphore_closed, timed_out, acquire_timeout, try_acquire,
  drop_pooled, detach, close, evict_idle,
}

pub record System : Type 0 where
  pub pool : SandboxPool
  pub leased : List Sandbox
  pub detached : ℕ

-- What a client holds after an acquisition.
abbrev pub after_acquire : System → SandboxPool × Result Sandbox PoolError → System
after_acquire w (p, ok s) = record w { pool = p; leased = s ∷ w.leased }
after_acquire w (p, err e) = record w { pool = p }

abbrev pub after_try : System → SandboxPool × Option (Result Sandbox PoolError) → System
after_try w (p, none) = record w { pool = p }
after_try w (p, some r) = after_acquire w (p, r)

-- A permit is granted only while one is free; that is the semaphore's contract.
abbrev pub CanEnd : SandboxPool → Wait → Type 0
CanEnd p (granted elapsed) = 0 < p.semaphore
CanEnd p semaphore_closed = Unit
CanEnd p timed_out = Unit

pub data Step : System → System → Type 0 where
  acquires :
      (w : System) (limit : ℕ) (wait : Wait) (built : Result Sandbox Text)
      → CanEnd w.pool wait
      → Step w (after_acquire w (acquire_timeout w.pool limit wait built))
  tries :
      (w : System) (built : Result Sandbox Text) → Step w (after_try w (try_acquire w.pool built))
  -- A client changes the sandbox that it holds.
  configures :
      (w : System) (xs ys : List Sandbox) (s s' : Sandbox)
      → w.leased ≡ xs ++ (s ∷ ys)
      → Step w (record w { leased = xs ++ (s' ∷ ys) })
  drops :
      (w : System) (xs ys : List Sandbox) (s : Sandbox) (now : ℕ)
      → w.leased ≡ xs ++ (s ∷ ys)
      → Step w (record w { pool = drop_pooled w.pool (some s) now; leased = xs ++ ys })
  detaches :
      (w : System) (xs ys : List Sandbox) (s : Sandbox) (now : ℕ)
      → w.leased ≡ xs ++ (s ∷ ys)
      → Step w
          (record { pool = (detach w.pool s now).0; leased = xs ++ ys; detached = suc w.detached })
  evicts : (w : System) (now : ℕ) → Step w (record w { pool = (evict_idle w.pool now).0 })
  closes : (w : System) → Step w (record w { pool = close w.pool })

pub data Reaches (w : System) : System → Type 0 where
  here : Reaches w w
  next : {v u : System} → Reaches w v → Step v u → Reaches w u

abbrev pub fresh : SandboxPool → System
fresh p = record { pool = p; leased = []; detached = 0 }

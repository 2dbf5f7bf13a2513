-- ===== src/Pool/Examples.antt =====
-- Runs of the pool of crates/eryx/src/pool.rs at concrete inputs.
use eryx.Prelude.{◌≡◌, refl, true, none, some, [], ◌∷◌, arith, ◌⊎◌, Result, ok, err, length}
use eryx.Prelude.Text.{Text}
use eryx.Sandbox.{Sandbox, default_limits, clear_per_request_state}
use eryx.Pool.State.{
  PoolConfig, SandboxPool, granted, Builder, push_created, prewarm, empty_pool, with_builder,
  take_sandbox, note_wait, acquire_timeout, drop_pooled, evict, evict_idle, stats,
}
use eryx.Pool.System.{
  System, after_acquire, Reaches, here, next, acquires, configures, drops, fresh,
}
use eryx.Pool.Invariant.{pool_accounting}
use eryx.Pool.Eviction.{Evicts, evict_idle-Evicts}
use eryx.Pool.Isolation.{CleanOrBuilt, acquire_isolated}

abbrev plain : Sandbox
plain = record {
  executor = 7;
  callbacks = [];
  trace_handler = none;
  output_handler = none;
  resource_limits = default_limits;
  vfs_storage = none;
}

abbrev traced : Sandbox
traced = record plain { trace_handler = some 3 }

abbrev builds_plain : Builder
builds_plain i = ok plain

abbrev small : PoolConfig
small = record {
  max_size = 2;
  min_idle = 1;
  idle_timeout = 50;
  acquire_timeout = 9;
  reset_on_release = true;
}

abbrev opened : SandboxPool
opened = push_created (empty_pool small) plain 4

opens : with_builder builds_plain small 4 ≡ ok opened
unfolding with_builder prewarm
opens = refl

abbrev busy : System
busy = after_acquire (fresh opened) (acquire_timeout opened 9 (granted 0) (ok plain))

busy-Reaches : Reaches (fresh opened) busy
unfolding push_created empty_pool
busy-Reaches = next here (acquires (fresh opened) 9 (granted 0) (ok plain) (omega arith))

pool_accounting_example : (stats busy.pool).in_use ≡ length busy.leased
pool_accounting_example =
    (pool_accounting builds_plain small 4 opened busy opens (omega arith) busy-Reaches).1

-- The client sets a trace handler, and returns the sandbox.
abbrev configured : System
configured = record busy { leased = traced ∷ [] }

abbrev returned : System
returned = record configured { pool = drop_pooled configured.pool (some traced) 60; leased = [] }

returned-Reaches : Reaches (fresh opened) returned
unfolding acquire_timeout take_sandbox note_wait push_created empty_pool
returned-Reaches =
    next (next busy-Reaches (configures busy [] [] plain traced refl))
      (drops configured [] [] traced 60 refl)

-- The next client gets the same sandbox, cleared.
hands_out_again :
    acquire_timeout returned.pool 9 (granted 0) (err [])
    ≡ ((acquire_timeout returned.pool 9 (granted 0) (err [])).0, ok plain)
unfolding drop_pooled acquire_timeout take_sandbox note_wait push_created empty_pool
    clear_per_request_state
hands_out_again = refl

acquire_isolated_example :
    CleanOrBuilt builds_plain plain ⊎ (◌≡◌ {A = Result Sandbox Text} (err []) (ok plain))
acquire_isolated_example =
    acquire_isolated builds_plain small 4 opened _ returned 9 (granted 0) (err []) plain opens
      returned-Reaches hands_out_again

-- Three idle sandboxes, two of them idle for too long; one of these goes.
abbrev three_idle : SandboxPool
three_idle = record opened {
  pool =
      record { sandbox = plain; last_used = 10 }
      ∷ record { sandbox = plain; last_used = 20 }
      ∷ record { sandbox = plain; last_used = 95 }
      ∷ [];
}

evict_idle-Evicts_example :
    Evicts small 100 three_idle.pool
      (evict_idle three_idle 100).0.pool
      (evict_idle three_idle 100).1
unfolding push_created empty_pool
evict_idle-Evicts_example = evict_idle-Evicts three_idle 100 0 (omega arith)

evicts_two : (evict_idle three_idle 100).1 ≡ 2
unfolding evict_idle evict push_created empty_pool
evicts_two = refl

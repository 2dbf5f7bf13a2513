-- ===== src/Pool/Eviction.antt =====
-- `evict_idle` of crates/eryx/src/pool.rs.
use eryx.Prelude.{
  ℕ, suc, ◌-◌, ◌≤◌, ◌<◌, ◌≡◌, refl, List, [], ◌∷◌, arith, ◌⊎◌, inl, inr, min, length, take, drop,
  if_rule, if◌then◌else◌, ltb, ltb→lt,
}
use eryx.Pool.State.{PoolConfig, SandboxPool, PoolEntry, evict, evict_idle}

-- Idle for longer than the timeout.
abbrev pub IsExpired : PoolConfig → ℕ → PoolEntry → Type 0
IsExpired config now e = config.idle_timeout < now - e.last_used

abbrev pub AllExpired : PoolConfig → ℕ → List PoolEntry → Type 0
AllExpired config now [] = Unit {0}
AllExpired config now (e ∷ es) = IsExpired config now e × AllExpired config now es

abbrev pub NoneExpired : PoolConfig → ℕ → List PoolEntry → Type 0
NoneExpired config now [] = Unit {0}
NoneExpired config now (e ∷ es) = (¬ IsExpired config now e) × NoneExpired config now es

-- The queue holds its entries in the order in which they came back, from time `t` on.
abbrev pub IsOrdered : ℕ → List PoolEntry → Type 0
IsOrdered t [] = Unit {0}
IsOrdered t (e ∷ es) = (t ≤ e.last_used) × IsOrdered e.last_used es

Ordered-NoneExpired :
    (config : PoolConfig) (now t : ℕ) (es : List PoolEntry)
    → IsOrdered t es
    → now - t ≤ config.idle_timeout
    → NoneExpired config now es
Ordered-NoneExpired config now t [] o h = tt
Ordered-NoneExpired config now t (e ∷ es) o h =
    (λ x. absurd (omega arith), Ordered-NoneExpired config now e.last_used es o.1 (omega arith))

pub record Evicts (config : PoolConfig) (now : ℕ) (es left : List PoolEntry) (n : ℕ) : Type 0 where
  pub oldest : left ≡ drop n es
  pub expired : AllExpired config now (take n es)
  pub kept : min config.min_idle (length es) ≤ length left
  pub enough : (length left ≤ config.min_idle) ⊎ NoneExpired config now left

evict-Evicts :
    (config : PoolConfig) (now t : ℕ) (es : List PoolEntry)
    → IsOrdered t es
    → Evicts config now es (evict config now es).0 (evict config now es).1
unfolding evict
evict-Evicts config now t [] o = record {
  oldest = refl;
  expired = tt;
  kept = omega arith;
  enough = inr tt;
}
evict-Evicts config now t (e ∷ es) o =
    let ih = evict-Evicts config now e.last_used es o.1 in
    let P = λ (r : List PoolEntry × ℕ). Evicts config now (e ∷ es) r.0 r.1 in
    let stop : List PoolEntry × ℕ = (e ∷ es, 0) in
    let go : List PoolEntry × ℕ = ((evict config now es).0, suc (evict config now es).1) in
    if_rule P (ltb config.min_idle (suc (length es)))
      (if ltb config.idle_timeout (now - e.last_used) then go else stop) stop
      (λ many.
        if_rule P (ltb config.idle_timeout (now - e.last_used)) go stop
          (λ old. record {
            oldest = ih.oldest;
            expired = (ltb→lt _ _ old, ih.expired);
            kept = omega (arith, ih.kept, ltb→lt _ _ many);
            enough = ih.enough;
          })
          (λ young. record {
            oldest = refl;
            expired = tt;
            kept = omega arith;
            enough = inr (
              λ x. absurd (ground arith),
              Ordered-NoneExpired config now e.last_used es o.1 (ground arith),
            );
          }))
      (λ few. record {
        oldest = refl;
        expired = tt;
        kept = omega arith;
        enough = inl (ground arith);
      })

-- Where the queue is in the order of the returns, `evict_idle` drops as many of the oldest entries
-- as it says, drops only expired ones, leaves `min_idle` or what there was, and stops only when no
-- more than `min_idle` are left or none of those left has expired.
pub evict_idle-Evicts :
    (p : SandboxPool) (now t : ℕ)
    → IsOrdered t p.pool
    → Evicts p.config now p.pool (evict_idle p now).0.pool (evict_idle p now).1
unfolding evict_idle
evict_idle-Evicts p now t o = evict-Evicts p.config now t p.pool o

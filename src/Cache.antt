-- ===== src/Cache.antt =====
-- engine/cache.go: an engine with a cache of its successful results.
pub mod Size
pub mod Hits
use aigo.Base.{
  ℕ, ◌-◌, ◌*◌, String, Bool, true, false, not, Option, none, some, List, [], ◌∷◌, ◌++◌, length,
  select, some_of, ltb, leb, str_eq, if◌then◌else◌,
}
use aigo.Base.Assoc.{Map, get, has, put, delete}
use aigo.Base.Int.{ℤ, pos, negsuc}
use aigo.Errors.{Error, Outcome, ok, err}
use aigo.Workflow.{Graph}
use aigo.Engine.{Engine, EngineResult}

-- `cacheEntry`; times are nanoseconds.
pub record CacheEntry : Type 0 where
  pub result : EngineResult
  pub created_at : ℕ

-- The fields of `Cache` that change, with the two limits. The mutex makes each block between
-- `Lock` and `Unlock` one step.
pub record Cache : Type 0 where
  pub store : Map CacheEntry
  pub order : List String
  pub ttl : ℕ
  pub max_size : ℕ

or_default : ℕ → ℤ → ℕ
or_default d (pos n) = if ltb 0 n then n else d
or_default d (negsuc n) = d

-- `WithCache`: 100 entries and ten minutes, unless the arguments are positive.
unfoldable pub with_cache : ℤ → ℤ → Cache
unfolding or_default
with_cache ttl max_size = record {
  store = [];
  order = [];
  ttl = or_default 600_000_000_000 ttl;
  max_size = or_default 100 max_size;
}

-- `now.Sub(v.createdAt) >= c.ttl`, negated
unfoldable pub is_fresh : ℕ → ℕ → CacheEntry → Bool
is_fresh ttl now e = ltb (now - e.created_at) ttl

-- The loop that deletes expired entries.
unfoldable pub drop_expired : ℕ → ℕ → Map CacheEntry → Map CacheEntry
drop_expired ttl now store = select (λ e. is_fresh ttl now e.1) store

-- The order with deleted keys removed, if the store has fewer keys than the order.
unfoldable pub rebuild_order : Map CacheEntry → List String → List String
rebuild_order store order =
    if ltb (length store) (length order) then select (has store) order else order

-- The last loop of `evictLocked`: the oldest keys go while the store is full.
unfoldable pub evict_oldest : ℕ → Map CacheEntry → List String → Map CacheEntry × List String
evict_oldest max_size store [] = (store, [])
evict_oldest max_size store (oldest ∷ order) =
    let rest = evict_oldest max_size (delete store oldest) order in
    if leb max_size (length store) then rest else (store, oldest ∷ order)

-- `evictLocked`
unfoldable pub evict : ℕ → Cache → Cache
evict now c =
    let kept = drop_expired c.ttl now c.store in
    let (store, order) = evict_oldest c.max_size kept (rebuild_order kept c.order) in
    record c { store = store; order = order }

-- The locked block of `Execute` that stores a result.
unfoldable pub store_result : ℕ → String → EngineResult → Cache → Cache
store_result now key r c =
    let c' = evict now c in
    record c' {
      store = put c'.store key (record { result = r; created_at = now });
      order = c'.order ++ key ∷ [];
    }

-- `Clear`
unfoldable pub clear : Cache → Cache
clear c = record c { store = []; order = [] }

-- `Len`
unfoldable pub len : Cache → ℕ
len c = length c.store

-- The outcome, the cache and the world after a call.
pub record Served (W : Type 0) : Type 0 where
  pub outcome : Outcome EngineResult
  pub cache : Cache
  pub world : W

-- `hash` is `hashGraph`: SHA-256 of the JSON of the graph, in hexadecimal.
module _ {W : Type 0} (now : W → ℕ) (hash : Graph → String) (e : Engine W) where
  -- After the call of the engine on a miss.
  stored : Cache → String → Outcome EngineResult × W → Served W
  stored c key (err x, w) = record { outcome = err x; cache = c; world = w }
  stored c key (ok r, w) = record {
    outcome = ok r;
    cache = store_result (now w) key r c;
    world = w;
  }

  lookup_or : Cache → Graph → W → Option CacheEntry → Served W
  unfolding stored
  lookup_or c g w none = stored c (hash g) (e.execute g w)
  lookup_or c g w (some entry) =
      if is_fresh c.ttl (now w) entry
      then record { outcome = ok entry.result; cache = c; world = w }
      else stored c (hash g) (e.execute g w)

  -- `Execute`
  unfoldable pub execute : Cache → Graph → W → Served W
  unfolding lookup_or
  execute c g w = lookup_or c g w (get c.store (hash g))

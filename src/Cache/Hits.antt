-- ===== src/Cache/Hits.antt =====
-- What a call of a cached engine returns and keeps, on a hit, on a miss and on an error.
use aigo.Base.{ℕ, ◌-◌, ◌<◌, String, ◌≡◌, refl, none, some, arith, lt→ltb}
use aigo.Base.Assoc.{get, get-put, str_eq_refl}
use aigo.Errors.{Error, Outcome, ok, err}
use aigo.Workflow.{Graph}
use aigo.Engine.{Engine, EngineResult}
use aigo.Cache.{CacheEntry, Cache, is_fresh, evict, store_result, stored, lookup_or, execute}

module _ {W : Type 0} (now : W → ℕ) (hash : Graph → String) (e : Engine W) where
  get-store_result :
      (t : ℕ) (key : String) (r : EngineResult) (c : Cache)
      → get (store_result t key r c).store key ≡ some (record { result = r; created_at = t })
  unfolding store_result evict
  get-store_result t key r c = ground (
    arith,
    get-put (evict t c).store key key (record { result = r; created_at = t }),
    str_eq_refl key,
  )

  execute-hit :
      (c : Cache) (g : Graph) (w : W) (entry : CacheEntry)
      → get c.store (hash g) ≡ some entry
      → now w - entry.created_at < c.ttl
      → execute now hash e c g w ≡ record { outcome = ok entry.result; cache = c; world = w }
  unfolding execute lookup_or is_fresh
  execute-hit c g w entry found fresh =
      rw (found, lt→ltb (now w - entry.created_at) c.ttl fresh) refl

  stored-ok :
      (c : Cache) (key : String) (r : EngineResult) (x : Outcome EngineResult × W)
      → x.0 ≡ ok r
      → (stored now hash e c key x).cache ≡ store_result (now x.1) key r c
  unfolding stored
  stored-ok c key r (err y, w) h = ground arith
  stored-ok c key r (ok y, w) h = ground arith

  execute-miss :
      (c : Cache) (g : Graph) (w : W) (r : EngineResult)
      → get c.store (hash g) ≡ none
      → (e.execute g w).0 ≡ ok r
      → (execute now hash e c g w).cache ≡ store_result (now (e.execute g w).1) (hash g) r c
  unfolding execute lookup_or
  execute-miss c g w r missed ran = rw missed (stored-ok c (hash g) r (e.execute g w) ran)

  store_result-ttl :
      (t : ℕ) (key : String) (r : EngineResult) (c : Cache) → (store_result t key r c).ttl ≡ c.ttl
  unfolding store_result evict
  store_result-ttl t key r c = refl

  stored-err :
      (c : Cache) (key : String) (y : Error) (x : Outcome EngineResult × W)
      → x.0 ≡ err y
      → ((stored now hash e c key x).cache ≡ c) × ((stored now hash e c key x).outcome ≡ err y)
  unfolding stored
  stored-err c key y (err z, w) h = (refl, h)
  stored-err c key y (ok r, w) h = ground arith

  -- The result of a call whose hash is not in the cache is what the next call with the same hash returns
  -- before the ttl has passed: the engine is not called, and neither the cache nor the world changes.
  pub execute-execute :
      (c : Cache) (g g' : Graph) (w w' : W) (r : EngineResult)
      → get c.store (hash g) ≡ none
      → (e.execute g w).0 ≡ ok r
      → hash g' ≡ hash g
      → now w' - now (e.execute g w).1 < c.ttl
      → execute now hash e (execute now hash e c g w).cache g' w'
        ≡ record { outcome = ok r; cache = (execute now hash e c g w).cache; world = w' }
  execute-execute c g g' w w' r missed ran same fresh =
      execute-hit (execute now hash e c g w).cache g' w'
        (record { result = r; created_at = now (e.execute g w).1 })
        (rw (same, execute-miss c g w r missed ran)
          (get-store_result (now (e.execute g w).1) (hash g) r c))
        (rw (execute-miss c g w r missed ran)
          (rw (store_result-ttl (now (e.execute g w).1) (hash g) r c) fresh))

  -- A call in which the engine fails leaves the cache as it was and returns the engine's error.
  pub execute-err :
      (c : Cache) (g : Graph) (w : W) (x : Error)
      → get c.store (hash g) ≡ none
      → (e.execute g w).0 ≡ err x
      → ((execute now hash e c g w).cache ≡ c) × ((execute now hash e c g w).outcome ≡ err x)
  unfolding execute lookup_or
  execute-err c g w x missed ran = rw missed (stored-err c (hash g) x (e.execute g w) ran)

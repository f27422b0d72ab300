-- ===== src/Cache/Size.antt =====
-- The cache never holds more than `maxSize` results, whatever the order in which calls interleave.
use text.Mathlib.TextEquality.{eq_iff}
use aigo.Base.{
  ℕ, suc, ◌≤◌, ◌<◌, String, ◌≡◌, refl, ap, Bool, true, ◌||◌, List, [], ◌∷◌, ◌++◌, length, select,
  some_of, leb, str_eq, arith, Bool-cases, inl, inr,
}
use aigo.Base.Assoc.{Map, has, put, delete, has-put, has-delete, str_eq_refl}
use aigo.Base.Int.{ℤ, pos, negsuc}
use aigo.Engine.{EngineResult}
use aigo.Cache.{
  CacheEntry, Cache, with_cache, or_default, is_fresh, drop_expired, rebuild_order, evict_oldest,
  evict, store_result, clear,
}

-- Every stored key stands in the order.
abbrev IsCovered : Map CacheEntry → List String → Type 0
IsCovered store order = (k : String) → has store k ≡ true → some_of (λ j. str_eq j k) order ≡ true

pub record IsValid (c : Cache) : Type 0 where
  pub positive : 0 < c.max_size
  pub bounded : length c.store ≤ c.max_size
  pub covered : (k : String) → has c.store k ≡ true → some_of (λ j. str_eq j k) c.order ≡ true

has-select :
    (p : String × CacheEntry → Bool) (m : Map CacheEntry) (k : String)
    → has (select p m) k ≡ true
    → has m k ≡ true
unfolding has
has-select p [] k h = h
has-select p ((j, v) ∷ m) k h = ground (arith, has-select p m k)

rebuild_order-IsCovered :
    (store : Map CacheEntry) (order : List String)
    → IsCovered store order
    → IsCovered store (rebuild_order store order)
unfolding rebuild_order
rebuild_order-IsCovered store order h k p =
    ground (arith, h k p, some_of-select-has store k order p)
  where
    some_of-select-has :
        (m : Map CacheEntry) (k : String) (ks : List String)
        → has m k ≡ true
        → some_of (λ j. str_eq j k) (select (has m) ks) ≡ some_of (λ j. str_eq j k) ks
    some_of-select-has m k [] p = refl
    some_of-select-has m k (j ∷ ks) p =
        ground (arith, some_of-select-has m k ks p, eq_iff j k, ap (has m))

nothing_covered : (store : Map CacheEntry) → IsCovered store [] → length store ≡ 0
unfolding has
nothing_covered [] h = refl
nothing_covered ((k, v) ∷ m) h = ground (arith, h k, str_eq_refl k)

-- The last loop leaves room for one more entry, and keeps the stored keys in the order.
evict_oldest-lt :
    (max_size : ℕ) (store : Map CacheEntry) (order : List String)
    → 0 < max_size
    → IsCovered store order
    → (length (evict_oldest max_size store order).0 < max_size)
      × IsCovered (evict_oldest max_size store order).0 (evict_oldest max_size store order).1
unfolding evict_oldest
evict_oldest-lt max_size store [] h c = (omega (arith, nothing_covered store c), c)
evict_oldest-lt max_size store (oldest ∷ order) h c =
    elim (Bool-cases (leb max_size (length store))) [
      | inl full ↦ rw full (
          evict_oldest-lt max_size (delete store oldest) order h
            (λ k p. ground (arith, has-delete store oldest k, c k)))
      | inr room ↦ rw room (ground arith, c)
    ]

length-put-le :
    (m : Map CacheEntry) (k : String) (v : CacheEntry) → length (put m k v) ≤ suc (length m)
unfolding put
length-put-le [] k v = omega arith
length-put-le ((j, w) ∷ m) k v = ground (arith, length-put-le m k v)

some_of-append :
    (p : String → Bool) (xs ys : List String)
    → some_of p (xs ++ ys) ≡ (some_of p xs || some_of p ys)
some_of-append p [] ys = refl
some_of-append p (x ∷ xs) ys = ground (arith, some_of-append p xs ys)

kept-IsCovered :
    (now : ℕ) (c : Cache) → IsValid c → IsCovered (drop_expired c.ttl now c.store) c.order
unfolding drop_expired
kept-IsCovered now c v k p = v.covered k (has-select (λ e. is_fresh c.ttl now e.1) c.store k p)

-- After `evictLocked` there is room for one more entry.
evict-lt :
    (now : ℕ) (c : Cache)
    → IsValid c
    → (length (evict now c).store < c.max_size) × IsCovered (evict now c).store (evict now c).order
unfolding evict
evict-lt now c v =
    let kept = drop_expired c.ttl now c.store in
    evict_oldest-lt c.max_size kept (rebuild_order kept c.order) v.positive
      (rebuild_order-IsCovered kept c.order (kept-IsCovered now c v))

stored_key-IsCovered :
    (store : Map CacheEntry) (order : List String) (key : String) (e : CacheEntry)
    → IsCovered store order
    → IsCovered (put store key e) (order ++ key ∷ [])
stored_key-IsCovered store order key e h k p =
    ground (arith, h k, has-put store key k e, some_of-append (λ j. str_eq j k) order (key ∷ []))

store_result-IsValid :
    (now : ℕ) (key : String) (r : EngineResult) (c : Cache)
    → IsValid c
    → IsValid (store_result now key r c)
unfolding store_result evict
store_result-IsValid now key r c v = record {
  positive = v.positive;
  bounded = omega (
    arith,
    (evict-lt now c v).0,
    length-put-le (evict now c).store key (record { result = r; created_at = now }),
  );
  covered =
      stored_key-IsCovered (evict now c).store (evict now c).order key
        (record { result = r; created_at = now }) (evict-lt now c v).1;
}

-- What can happen to a cache: `WithCache` makes it, the locked blocks of `Execute` and `Clear`
-- change it, in any order, at any time and for any key.
pub data Reached : Cache → Type 0 where
  made : (ttl max_size : ℤ) → Reached (with_cache ttl max_size)
  stored :
      {c : Cache} (now : ℕ) (key : String) (r : EngineResult)
      → Reached c
      → Reached (store_result now key r c)
  cleared : {c : Cache} → Reached c → Reached (clear c)

with_cache-IsValid : (ttl max_size : ℤ) → IsValid (with_cache ttl max_size)
unfolding with_cache or_default has
with_cache-IsValid ttl (pos n) = record {
  positive = ground arith;
  bounded = omega arith;
  covered = λ k p. ground arith;
}
with_cache-IsValid ttl (negsuc n) = record {
  positive = omega arith;
  bounded = omega arith;
  covered = λ k p. ground arith;
}

-- Whatever the order in which concurrent calls store their results and clear the cache, it
-- never holds more than `max_size` entries, `max_size` is positive, and every stored key stands
-- in the eviction order.
pub Reached-IsValid : (c : Cache) → Reached c → IsValid c
unfolding clear has
Reached-IsValid _ (made ttl max_size) = with_cache-IsValid ttl max_size
Reached-IsValid _ (stored {c} now key r h) = store_result-IsValid now key r c (Reached-IsValid c h)
Reached-IsValid _ (cleared {c} h) = record {
  positive = (Reached-IsValid c h).positive;
  bounded = omega arith;
  covered = λ k p. ground arith;
}

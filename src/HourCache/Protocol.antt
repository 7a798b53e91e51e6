-- ===== src/HourCache/Protocol.antt =====
-- How readers and writers share the cache of closed_hour_cache.go. A reader takes the epoch, then
-- reads an hour from the database, then offers what it read; a writer commits, and reports the hours
-- that it touched after the commit has landed. Any number of them take turns in any order.
use tsflow.Prelude.{ℕ, zero, suc, String, ◌≡◌, Bool, false, List, [], ◌∷◌, some, any, get_elem?}
use tsflow.HourCache.Lru.{HourCacheKey, HourEntry}
use tsflow.HourCache.State.{
  Cache, empty_cache, start, get, put, invalidate, invalidate_below, is_below,
}
use tsflow.HourCache.Invalidate.{names}

-- The hours that a commit changed, as its report to the cache names them.
pub data Write : Type 0 where
  touches : String → ℕ → List ℕ → Write
  prunes : String → ℕ → Write

abbrev pub writes : Write → HourCacheKey → Bool
writes (touches tailnet hour hours) = names tailnet (hour ∷ hours)
writes (prunes tailnet below) = is_below tailnet below

module _ {P : Type 0} where
  unfoldable pub report : Write → Cache P → Cache P
  report (touches tailnet hour hours) c = invalidate tailnet (hour ∷ hours) c
  report (prunes tailnet below) c = invalidate_below tailnet below c

pub record Started : Type 0 where
  pub key : HourCacheKey
  pub epoch : ℕ

pub record Loaded (P : Type 0) : Type 0 where
  pub key : HourCacheKey
  pub epoch : ℕ
  pub rows : P

-- Readers stay listed: one that reads or offers twice is allowed too.
pub record World (P : Type 0) : Type 0 where
  pub cache : Cache P
  pub db : HourCacheKey → P
  pub landed : List Write
  pub started : List Started
  pub loaded : List (Loaded P)

abbrev pub erase_at {ℓ} : {A : Type ℓ} → ℕ → List A → List A
erase_at n [] = []
erase_at zero (x ∷ xs) = xs
erase_at (suc n) (x ∷ xs) = x ∷ erase_at n xs

module _ {P : Type 0} where
  -- A new cache beside a database.
  abbrev pub at_start : ℕ → (HourCacheKey → P) → World P
  at_start budget db = record {
    cache = empty_cache budget;
    db = db;
    landed = [];
    started = [];
    loaded = [];
  }

  -- A commit to this hour has landed and is not yet reported.
  abbrev pub pending : World P → HourCacheKey → Bool
  pending w k = any (λ x. writes x k) w.landed

  abbrev pub entry_of : Loaded P → ℕ → HourEntry P
  entry_of r size = record {
    tailnet = r.key.tailnet;
    hour = r.key.hour;
    size = size;
    rows = r.rows;
  }

  pub data Step (w : World P) : World P → Type 0 where
    starts :
        (k : HourCacheKey)
        → Step w
            (record w { started = record { key = k; epoch = start (some w.cache) } ∷ w.started })
    loads :
        (n : ℕ) (s : Started)
        → get_elem? w.started n ≡ some s
        → Step w (record w {
          loaded = record { key = s.key; epoch = s.epoch; rows = w.db s.key } ∷ w.loaded;
        })
    offers :
        (n : ℕ) (r : Loaded P) (size : ℕ) (c : Cache P)
        → get_elem? w.loaded n ≡ some r
        → put w.cache (entry_of r size) r.epoch ≡ some c
        → Step w (record w { cache = c })
    gets : (k : HourCacheKey) → Step w (record w { cache = (get w.cache k.tailnet k.hour).0 })
    commits :
        (x : Write) (db : HourCacheKey → P)
        → ((k : HourCacheKey) → writes x k ≡ false → db k ≡ w.db k)
        → Step w (record w { db = db; landed = x ∷ w.landed })
    reports :
        (n : ℕ) (x : Write)
        → get_elem? w.landed n ≡ some x
        → Step w (record w { cache = report x w.cache; landed = erase_at n w.landed })

  pub data Reach (w : World P) : World P → Type 0 where
    here : Reach w w
    next : {u v : World P} → Reach w u → Step u v → Reach w v

  unfoldable pub steps : {w v : World P} → Reach w v → ℕ
  steps here = 0
  steps (next r s) = suc (steps r)

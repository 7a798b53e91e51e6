-- ===== src/HourCache/Fresh.antt =====
-- No stale hour is ever served: an entry of the cache of closed_hour_cache.go holds what the database
-- holds, unless a commit to that hour has landed and its report is still to come.
use tsflow.Prelude.{
  ℕ, zero, suc, ◌≤◌, ◌<◌, ◌+◌, ◌^◌, ◌≡◌, refl, sym, ◌∙◌, ap, ◌⊎◌, inl, inr, Bool, true, false, List,
  [], ◌∷◌, some, any, get_elem?, get_elem?-cons, subst, Option-cases, arith,
}
use tsflow.HourCache.Lru.{HourCacheKey, HourCacheKey_eq, HourEntry, Element, find, find_id, total}
use tsflow.Prelude.Maps.{lookup}
use tsflow.HourCache.Elements.{find-key}
use tsflow.HourCache.State.{Cache, get, start, touched_at, is_below}
use tsflow.HourCache.Put.{Valid, Stored, put-Stored, get-Valid, get_keeps}
use tsflow.HourCache.Invalidate.{Stamped, Touches, invalidate-Touches, names}
use tsflow.HourCache.Prune.{invalidate_below-Touches, new_floor}
use tsflow.HourCache.Protocol.{
  Write, touches, prunes, writes, report, Started, Loaded, World, at_start, erase_at, pending,
  entry_of, Step, starts, loads, offers, gets, commits, reports, Reach, here, next, steps,
}

any-erase_at :
    (xs : List Write) (n : ℕ) (x : Write) (k : HourCacheKey)
    → get_elem? xs n ≡ some x
    → any (λ y. writes y k) xs ≡ true
    → (writes x k ≡ true) ⊎ (any (λ y. writes y k) (erase_at n xs) ≡ true)
any-erase_at [] n x k h a = cc
any-erase_at (y ∷ xs) zero x k h a = ground arith
any-erase_at (y ∷ xs) (suc n) x k h a = ground (arith, any-erase_at xs n x k)

module _ {P : Type 0} where
  -- What is cached, or may still be offered, is the database's, or will be dropped or refused.
  pub record Fresh (w : World P) : Type 0 where
    pub valid : Valid w.cache
    pub stamped : Stamped w.cache
    pub entries :
        (k : HourCacheKey) (el : Element P)
        → find k w.cache.lru ≡ some el
        → (pending w k ≡ true) ⊎ (el.value.rows ≡ w.db k)
    pub before : (n : ℕ) (s : Started) → get_elem? w.started n ≡ some s → s.epoch ≤ w.cache.epoch
    pub offered :
        (n : ℕ) (r : Loaded P)
        → get_elem? w.loaded n ≡ some r
        → (r.epoch ≤ w.cache.epoch)
          × ((pending w r.key ≡ true)
              ⊎ (r.rows ≡ w.db r.key)
              ⊎ (r.epoch < touched_at w.cache r.key))

  -- The report of a write drops and marks at least the hours that the write changed.
  record Reported (c : Cache P) (x : Write) (c' : Cache P) : Type 0 where
    covers : HourCacheKey → Bool
    all : (k : HourCacheKey) → writes x k ≡ true → covers k ≡ true
    touched : Touches c covers c'

  report-Reported :
      (c : Cache P) (x : Write)
      → suc c.epoch < 2 ^ 64
      → Valid c
      → Stamped c
      → Reported c x (report x c)
  unfolding report
  report-Reported c (touches tailnet hour hours) h v s = record {
    covers = names tailnet (hour ∷ hours);
    all = λ k e. e;
    touched = invalidate-Touches c tailnet hour hours h v s;
  }
  report-Reported c (prunes tailnet below) h v s = record {
    covers = is_below tailnet (new_floor c tailnet below).below;
    all = λ k e. ground arith;
    touched = invalidate_below-Touches c tailnet below h v s;
  }

  touched_at_same :
      (c c' : Cache P) (k : HourCacheKey)
      → c'.touched ≡ c.touched
      → c'.floors ≡ c.floors
      → touched_at c' k ≡ touched_at c k
  unfolding touched_at
  touched_at_same c c' k t f = rw (t, f)

  -- A cache that finds no other entries and has the same marks.
  same_cache-Fresh :
      (w : World P) (c : Cache P)
      → ((k : HourCacheKey) (el : Element P)
          → find k c.lru ≡ some el
          → (pending w k ≡ true) ⊎ (el.value.rows ≡ w.db k))
      → c.epoch ≡ w.cache.epoch
      → c.touched ≡ w.cache.touched
      → c.floors ≡ w.cache.floors
      → Valid c
      → Fresh w
      → Fresh (record w { cache = c })
  same_cache-Fresh w c found e t fl v f = record {
    valid = v;
    stamped = record {
      by_hour = λ k. rw (t, e) (f.stamped.by_hour k);
      by_floor = λ k. rw (fl, e) (f.stamped.by_floor k);
    };
    entries = found;
    before = λ n s h. rw e (f.before n s h);
    offered = λ n r h. ground (arith, e, touched_at_same w.cache c r.key t fl, f.offered n r h);
  }

  starts-Fresh :
      (w : World P) (k : HourCacheKey)
      → Fresh w
      → Fresh (record w { started = record { key = k; epoch = start (some w.cache) } ∷ w.started })
  unfolding start
  starts-Fresh w k f = record {
    valid = f.valid;
    stamped = f.stamped;
    entries = f.entries;
    before = λ n s h. elim (get_elem?-cons _ w.started n s h) [
      | inl e ↦ rw (← e) (omega arith)
      | inr (m, h') ↦ f.before m s h'
    ];
    offered = f.offered;
  }

  loads-Fresh :
      (w : World P) (s : Started)
      → s.epoch ≤ w.cache.epoch
      → Fresh w
      → Fresh (record w {
        loaded = record { key = s.key; epoch = s.epoch; rows = w.db s.key } ∷ w.loaded;
      })
  loads-Fresh w s le f = record {
    valid = f.valid;
    stamped = f.stamped;
    entries = f.entries;
    before = f.before;
    offered = λ n r h. elim (get_elem?-cons _ w.loaded n r h) [
      | inl e ↦ rw (← e) (le, inr (inl refl))
      | inr (m, h') ↦ f.offered m r h'
    ];
  }

  offers-Fresh :
      (w : World P) (n : ℕ) (r : Loaded P) (size : ℕ) (c : Cache P)
      → get_elem? w.loaded n ≡ some r
      → Stored w.cache (entry_of r size) r.epoch c
      → Fresh w
      → Fresh (record w { cache = c })
  offers-Fresh w n r size c h st f =
      same_cache-Fresh w c
        (λ k el e. elim (st.held k el e) [
          | inl old ↦ f.entries k el old
          | inr (same, late) ↦
              let q : r.key ≡ k =
                sym (ap (λ (x : HourEntry P). record { tailnet = x.tailnet; hour = x.hour }) same)
                ∙ find-key k c.lru el e in
              ground (arith, f.offered n r h, same, late, q, ap (touched_at w.cache) q, ap w.db q)
        ])
        st.same_epoch st.same_touched st.same_floors st.valid f

  commits-Fresh :
      (w : World P) (x : Write) (db : HourCacheKey → P)
      → ((k : HourCacheKey) → writes x k ≡ false → db k ≡ w.db k)
      → Fresh w
      → Fresh (record w { db = db; landed = x ∷ w.landed })
  commits-Fresh w x db h f = record {
    valid = f.valid;
    stamped = f.stamped;
    entries = λ k el e. ground (arith, f.entries k el e, h k);
    before = f.before;
    offered = λ n r e. ground (arith, f.offered n r e, h r.key);
  }

  reports-Fresh :
      (w : World P) (n : ℕ) (x : Write) (c : Cache P)
      → get_elem? w.landed n ≡ some x
      → Reported w.cache x c
      → Fresh w
      → Fresh (record w { cache = c; landed = erase_at n w.landed })
  reports-Fresh w n x c h r f =
      let t = r.touched in
      record {
        valid = t.valid;
        stamped = t.stamped;
        entries = λ k el e.
            ground (arith, t.found k, e, f.entries k el, r.all k, any-erase_at w.landed n x k h);
        before = λ m s e. ground (arith, f.before m s e, t.next);
        offered = λ m q e. ground (
          arith,
          f.offered m q e,
          t.next,
          t.marked q.key,
          r.all q.key,
          any-erase_at w.landed n x q.key h,
        );
      }

  Step-Fresh : {w v : World P} → suc w.cache.epoch < 2 ^ 64 → Fresh w → Step w v → Fresh v
  Step-Fresh {w = w} b f (starts k) = starts-Fresh w k f
  Step-Fresh {w = w} b f (loads n s h) = loads-Fresh w s (f.before n s h) f
  Step-Fresh {w = w} b f (offers n r size c h e) =
      let (c', e', st) = put-Stored w.cache (entry_of r size) r.epoch f.valid in
      offers-Fresh w n r size c h
        (subst (Stored w.cache (entry_of r size) r.epoch) (ground (arith, e, e')) st) f
  Step-Fresh {w = w} b f (gets k) =
      let (found, e, t, fl) = get_keeps w.cache k.tailnet k.hour f.valid in
      same_cache-Fresh w _ (λ j el h. f.entries j el (sym (found j) ∙ h)) e t fl
        (get-Valid w.cache k.tailnet k.hour f.valid) f
  Step-Fresh {w = w} b f (commits x db h) = commits-Fresh w x db h f
  Step-Fresh {w = w} b f (reports n x h) =
      reports-Fresh w n x (report x w.cache) h (report-Reported w.cache x b f.valid f.stamped) f

  Step-epoch :
      {w v : World P}
      → suc w.cache.epoch < 2 ^ 64
      → Fresh w
      → Step w v
      → v.cache.epoch ≤ suc w.cache.epoch
  Step-epoch b f (starts k) = omega arith
  Step-epoch b f (loads n s h) = omega arith
  Step-epoch {w = w} b f (offers n r size c h e) =
      let (c', e', st) = put-Stored w.cache (entry_of r size) r.epoch f.valid in
      ground (arith, e, e', st.same_epoch)
  Step-epoch {w = w} b f (gets k) = omega (arith, (get_keeps w.cache k.tailnet k.hour f.valid).1)
  Step-epoch b f (commits x db h) = omega arith
  Step-epoch {w = w} b f (reports n x h) =
      omega (arith, (report-Reported w.cache x b f.valid f.stamped).touched.next)

  Reach-Fresh :
      {w v : World P} (r : Reach w v)
      → w.cache.epoch + steps r < 2 ^ 64
      → Fresh w
      → Fresh v × (v.cache.epoch ≤ w.cache.epoch + steps r)
  unfolding steps
  Reach-Fresh here b f = (f, omega arith)
  Reach-Fresh (next r s) b f =
      let (g, le) = Reach-Fresh r (omega arith) f in
      (Step-Fresh (omega arith) g s, omega (arith, Step-epoch (omega arith) g s, le))

  empty-Fresh : (budget : ℕ) (db : HourCacheKey → P) → Fresh (at_start budget db)
  unfolding find
  empty-Fresh budget db = record {
    valid = record {
      indexed = record {
        distinct = tt;
        agree = λ k. unfold lookup in refl;
        counted = unfold total in refl;
        unused = λ i h. unfold find_id in refl;
      };
      within = omega arith;
    };
    stamped = record {
      by_hour = λ k. unfold lookup in omega arith;
      by_floor = λ t. unfold lookup in omega arith;
    };
    entries = λ k el h. cc;
    before = λ n s h. cc;
    offered = λ n r h. cc;
  }

  get-found :
      (c : Cache P) (k : HourCacheKey) (e : HourEntry P)
      → Valid c
      → (get c k.tailnet k.hour).1 ≡ some e
      → (el : Element P) × (find k c.lru ≡ some el) × (el.value ≡ e)
  unfolding get
  get-found c k e v h = elim (Option-cases (find k c.lru)) [
    | inl none_there ↦ absurd (ground (arith, v.indexed.agree k, none_there, h))
    | inr (el, there) ↦ (el, there, ground (arith, v.indexed.agree k, there, h))
  ]

  -- Whatever readers and writers did, in whatever order, from an empty cache on: an hour that `get`
  -- returns is the hour as the database holds it, unless a commit to it has landed whose report to
  -- the cache is still to come. (The epoch counts fewer than 2 ^ 64 steps.)
  pub get-current :
      (budget : ℕ) (db : HourCacheKey → P) (w : World P) (r : Reach (at_start budget db) w)
      (k : HourCacheKey) (e : HourEntry P)
      → steps r < 2 ^ 64
      → (get w.cache k.tailnet k.hour).1 ≡ some e
      → pending w k ≡ false
      → e.rows ≡ w.db k
  get-current budget db w r k e b h p =
      let f = (Reach-Fresh r (omega arith) (empty-Fresh budget db)).0 in
      let (el, there, same) = get-found w.cache k e f.valid h in
      ground (arith, f.entries k el there, same, p)

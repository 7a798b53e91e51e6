-- ===== src/Prelude/Slots.antt =====
-- Rows of distinct keys in the order in which the keys came, and an index of their positions.
use Prim.Native.Nat.{ℕ, zero, suc}
use mathlib.Core.Path.{◌≡◌, refl, sym, ap, ◌∙◌, subst}
use mathlib.Core.Logic.{◌⊎◌, inl, inr}
use mathlib.Core.Bool.{Bool, true, false}
use mathlib.Core.List.{List, [], ◌∷◌, ◌++◌}
use mathlib.Core.Option.{Option, none, some}
use native.Mathlib.Omega.{arith}
use tsflow.Prelude.Tests.{Eq, ◌==◌, if◌then◌else◌, Bool-cases}
use tsflow.Prelude.Lists.{length}
use tsflow.Prelude.Maps.{Map, lookup, insert, lookup-insert}

abbrev pub one_further : Option ℕ → Option ℕ
one_further none = none
one_further (some i) = some (suc i)

pub found_none :
    (b : Bool) (o : Option ℕ)
    → (if b then some 0 else one_further o) ≡ none
    → (b ≡ false) × (o ≡ none)
found_none true o h = cc
found_none false none h = (refl, refl)
found_none false (some i) h = cc

found_some :
    (b : Bool) (o : Option ℕ) (i : ℕ)
    → (if b then some 0 else one_further o) ≡ some i
    → ((b ≡ true) × (i ≡ 0)) ⊎ ((b ≡ false) × ((j : ℕ) × (i ≡ suc j) × (o ≡ some j)))
found_some true o i h = inl (refl, ground (arith, h))
found_some false none i h = cc
found_some false (some j) i h = inr (refl, (j, ground (arith, h), refl))

-- The rows, their keys, and how a row is merged into another one of its key
module _ {Row K : Type 0} ⦃e : Eq K⦄ (key_of : Row → K) (merge : Row → Row → Row) where
  unfoldable pub set_at : ℕ → Row → List Row → List Row
  set_at i np [] = []
  set_at zero np (row ∷ rows) = merge row np ∷ rows
  set_at (suc i) np (row ∷ rows) = row ∷ set_at i np rows

  -- By a scan
  unfoldable pub upsert_linear : Row → List Row → List Row
  upsert_linear np [] = np ∷ []
  upsert_linear np (row ∷ rows) =
      if key_of row == key_of np then merge row np ∷ rows else row ∷ upsert_linear np rows

  unfoldable pub at_position : Row → List Row → Map K ℕ → Option ℕ → List Row × Map K ℕ
  at_position np rows index (some i) = (set_at i np rows, index)
  at_position np rows index none = (rows ++ np ∷ [], insert (key_of np) (length rows) index)

  -- By the index
  unfoldable pub upsert_indexed : Row → List Row × Map K ℕ → List Row × Map K ℕ
  upsert_indexed np (rows, index) = at_position np rows index (lookup (key_of np) index)

  -- Row after row, each way
  unfoldable pub rows_linear : List Row → List Row → List Row
  rows_linear [] rows = rows
  rows_linear (np ∷ nps) rows = rows_linear nps (upsert_linear np rows)

  unfoldable pub rows_indexed : List Row → List Row × Map K ℕ → List Row × Map K ℕ
  rows_indexed [] s = s
  rows_indexed (np ∷ nps) s = rows_indexed nps (upsert_indexed np s)

  -- The position of the first row of a key
  unfoldable pub position : K → List Row → Option ℕ
  position k [] = none
  position k (row ∷ rows) =
      let rest = position k rows in if key_of row == k then some 0 else one_further rest

  -- The index has the position of the first row of each key, and no other.
  abbrev pub Agrees : List Row → Map K ℕ → Type 0
  Agrees rows index = (k : K) → lookup k index ≡ position k rows

  pub linear-append :
      (np : Row) (rows : List Row)
      → position (key_of np) rows ≡ none
      → upsert_linear np rows ≡ rows ++ np ∷ []
  unfolding position upsert_linear
  linear-append np [] h = refl
  linear-append np (row ∷ rows) h =
      let (e, later) = found_none (key_of row == key_of np) (position (key_of np) rows) h in
      rw e (ap (λ rs. row ∷ rs) (linear-append np rows later))

  pub linear-set_at :
      (np : Row) (rows : List Row) (i : ℕ)
      → position (key_of np) rows ≡ some i
      → upsert_linear np rows ≡ set_at i np rows
  unfolding position upsert_linear set_at
  linear-set_at np [] i h = cc
  linear-set_at np (row ∷ rows) i h =
      elim (found_some (key_of row == key_of np) (position (key_of np) rows) i h) [
        | inl (e, at) ↦ rw (e, at) refl
        | inr (e, (j, at, later)) ↦ rw (e, at) (ap (λ rs. row ∷ rs) (linear-set_at np rows j later))
      ]

  apart_still : (a b k : K) → (a == b) ≡ false → (b == k) ≡ true → (a == k) ≡ false
  apart_still a b k apart h = subst (λ c. (a == c) ≡ false) ((e.beq_iff b k).0 h) apart

  pub position-append :
      (k : K) (np : Row) (rows : List Row)
      → position (key_of np) rows ≡ none
      → position k (rows ++ np ∷ [])
        ≡ (if key_of np == k then some (length rows) else position k rows)
  unfolding position
  position-append k np [] h = refl
  position-append k np (row ∷ rows) h =
      let (apart, later) = found_none (key_of row == key_of np) (position (key_of np) rows) h in
      let rest = position-append k np rows later in
      elim (Bool-cases (key_of np == k)) [
        | inl e ↦ rw (apart_still (key_of row) (key_of np) k apart e, rest, e) refl
        | inr e ↦ rw (rest, e) refl
      ]

  module _ (keeps : (row np : Row) → key_of (merge row np) ≡ key_of row) where
    pub position-set_at :
        (k : K) (i : ℕ) (np : Row) (rows : List Row)
        → position k (set_at i np rows) ≡ position k rows
    unfolding position set_at
    position-set_at k i np [] = refl
    position-set_at k zero np (row ∷ rows) =
        ap (λ j. if j == k then some 0 else one_further (position k rows)) (keeps row np)
    position-set_at k (suc i) np (row ∷ rows) =
        ap (λ o. if key_of row == k then some 0 else one_further o) (position-set_at k i np rows)

    pub at_position-Agrees :
        (np : Row) (rows : List Row) (index : Map K ℕ) (o : Option ℕ)
        → Agrees rows index
        → o ≡ position (key_of np) rows
        → ((at_position np rows index o).0 ≡ upsert_linear np rows)
          × Agrees (at_position np rows index o).0 (at_position np rows index o).1
    unfolding at_position
    at_position-Agrees np rows index none agrees at = (
      sym (linear-append np rows (sym at)),
      λ k.
          lookup-insert (key_of np) k (length rows) index
          ∙ ap (λ o. if key_of np == k then some (length rows) else o) (agrees k)
          ∙ sym (position-append k np rows (sym at)),
    )
    at_position-Agrees np rows index (some i) agrees at =
        (sym (linear-set_at np rows i (sym at)), λ k. agrees k ∙ sym (position-set_at k i np rows))

    pub upserts-agree :
        (nps rows : List Row) (index : Map K ℕ)
        → Agrees rows index
        → (rows_indexed nps (rows, index)).0 ≡ rows_linear nps rows
    unfolding rows_indexed rows_linear upsert_indexed
    upserts-agree [] rows index agrees = refl
    upserts-agree (np ∷ nps) rows index agrees =
        let o = lookup (key_of np) index in
        let (same, after) = at_position-Agrees np rows index o agrees (agrees (key_of np)) in
        upserts-agree nps (at_position np rows index o).0 (at_position np rows index o).1 after
        ∙ ap (rows_linear nps) same

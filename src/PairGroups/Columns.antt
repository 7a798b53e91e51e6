-- ===== src/PairGroups/Columns.antt =====
-- The sums of one column of a group in backend/internal/database/node_pair_read.go, against the values that were
-- added.
use tsflow.Prelude.{
  ℕ, ◌≡◌, refl, sym, ap, ◌∙◌, subst, inl, inr, Bool, true, false, ◌||◌, List, [], ◌∷◌, ◌++◌, Option,
  none, some, arith, Eq, String_eq, ℕ_eq, Bool-cases,
}
use tsflow.PairGroups.Sums.{SumState, add, Entry, KeyedSums, no_sums, add_items}
use tsflow.PairGroups.Merged.{upsert, add_all, add_all-add_all}
use tsflow.PairGroups.Keyed.{Keyed, add_items-Keyed}
use tsflow.PairGroups.Group.{
  ProtoItem, ProtoSums, no_protos, add_proto, add_protos, merge_protos, take_least,
}

-- Adding up in order
module _ {ℓ} {A : Type ℓ} {B : Type 0} (op : B → B → B) (f : A → B) where
  unfoldable pub fold_from : B → List A → B
  fold_from b [] = b
  fold_from b (a ∷ rest) = fold_from (op b (f a)) rest

  pub fold_from-append :
      (b : B) (xs ys : List A) → fold_from b (xs ++ ys) ≡ fold_from (fold_from b xs) ys
  unfolding fold_from
  fold_from-append b [] ys = refl
  fold_from-append b (x ∷ xs) ys = fold_from-append (op b (f x)) xs ys

  module _ (assoc : (a b c : B) → op a (op b c) ≡ op (op a b) c) where
    op-fold_from : (a b : B) (xs : List A) → op a (fold_from b xs) ≡ fold_from (op a b) xs
    unfolding fold_from
    op-fold_from a b [] = refl
    op-fold_from a b (x ∷ xs) =
        op-fold_from a (op b (f x)) xs ∙ ap (λ c. fold_from c xs) (assoc a b (f x))

    pub fold_from-join :
        (unit : B) (xs ys : List A)
        → ((a : B) → op a unit ≡ a)
        → op (fold_from unit xs) (fold_from unit ys) ≡ fold_from unit (xs ++ ys)
    fold_from-join unit xs ys u =
        op-fold_from (fold_from unit xs) unit ys
        ∙ ap (λ c. fold_from c ys) (u (fold_from unit xs))
        ∙ sym (fold_from-append unit xs ys)

pub add_assoc : (a b c : SumState) → add a (add b c) ≡ add (add a b) c
add_assoc a b none = refl
add_assoc none none (some n) = ground arith
add_assoc none (some m) (some n) = ground arith
add_assoc (some k) none (some n) = ground arith
add_assoc (some k) (some m) (some n) = ground arith

pub take_least_assoc :
    (a b c : Option ℕ) → take_least a (take_least b c) ≡ take_least (take_least a b) c
take_least_assoc a b none = refl
take_least_assoc none none (some n) = refl
take_least_assoc none (some m) (some n) = ground arith
take_least_assoc (some k) none (some n) = refl
take_least_assoc (some k) (some m) (some n) = ground arith

module _ {K : Type 0} ⦃e : Eq K⦄ where
  add_all-append : (xs ys s : List (Entry K)) → add_all (xs ++ ys) s ≡ add_all ys (add_all xs s)
  unfolding add_all
  add_all-append [] ys s = refl
  add_all-append (x ∷ xs) ys s = add_all-append xs ys (upsert x s)

  -- The sums of the values, in the order of their keys
  pub record SumsOf (s : KeyedSums K) (xs : List (Entry K)) : Type 0 where
    pub keyed : Keyed s
    pub items : s.items ≡ add_all xs []

  pub no_sums-SumsOf : SumsOf no_sums []
  unfolding add_all
  no_sums-SumsOf = record { keyed = record { distinct = tt; indexed = tt }; items = refl }

  pub add_items-SumsOf :
      (s : KeyedSums K) (xs ys : List (Entry K)) → SumsOf s xs → SumsOf (add_items ys s) (xs ++ ys)
  add_items-SumsOf s xs ys h =
      let (same, k) = add_items-Keyed ys s h.keyed in
      record { keyed = k; items = same ∙ ap (add_all ys) h.items ∙ sym (add_all-append xs ys []) }

  pub merge-SumsOf :
      (s o : KeyedSums K) (xs ys : List (Entry K))
      → SumsOf s xs
      → SumsOf o ys
      → SumsOf (add_items o.items s) (xs ++ ys)
  unfolding add_all
  merge-SumsOf s o xs ys h g =
      let (same, k) = add_items-Keyed o.items s h.keyed in
      record {
        keyed = k;
        items =
            same
            ∙ ap (λ t. add_all t s.items) g.items
            ∙ add_all-add_all ys [] s.items
            ∙ ap (add_all ys) h.items
            ∙ sym (add_all-append xs ys []);
      }

abbrev pub keyed_items : List ProtoItem → List (Entry ℕ)
keyed_items [] = []
keyed_items ((none, v) ∷ xs) = keyed_items xs
keyed_items ((some k, v) ∷ xs) = (k, v) ∷ keyed_items xs

abbrev pub null_items : List ProtoItem → List SumState
null_items [] = []
null_items ((none, v) ∷ xs) = v ∷ null_items xs
null_items ((some k, v) ∷ xs) = null_items xs

abbrev pub nonempty : List SumState → Bool
nonempty [] = false
nonempty (v ∷ vs) = true

abbrev pub total : SumState → List SumState → SumState
total = fold_from add (λ v. v)

pub record ProtosOf (p : ProtoSums) (xs : List ProtoItem) : Type 0 where
  pub sums : SumsOf p.sums (keyed_items xs)
  pub null_key : p.null_key ≡ total none (null_items xs)
  pub has_null : p.has_null ≡ nonempty (null_items xs)

keyed_items-append :
    (xs ys : List ProtoItem) → keyed_items (xs ++ ys) ≡ keyed_items xs ++ keyed_items ys
keyed_items-append [] ys = refl
keyed_items-append ((none, v) ∷ xs) ys = keyed_items-append xs ys
keyed_items-append ((some k, v) ∷ xs) ys = ap (λ zs. (k, v) ∷ zs) (keyed_items-append xs ys)

null_items-append :
    (xs ys : List ProtoItem) → null_items (xs ++ ys) ≡ null_items xs ++ null_items ys
null_items-append [] ys = refl
null_items-append ((none, v) ∷ xs) ys = ap (λ zs. v ∷ zs) (null_items-append xs ys)
null_items-append ((some k, v) ∷ xs) ys = null_items-append xs ys

nonempty-append : (vs ws : List SumState) → nonempty (vs ++ ws) ≡ (nonempty vs || nonempty ws)
nonempty-append [] ws = refl
nonempty-append (v ∷ vs) ws = refl

add_protos_lem :
    (xs : List ProtoItem) (p : ProtoSums)
    → ((add_protos xs p).sums ≡ add_items (keyed_items xs) p.sums)
      × ((add_protos xs p).null_key ≡ total p.null_key (null_items xs))
      × ((add_protos xs p).has_null ≡ (p.has_null || nonempty (null_items xs)))
unfolding add_protos add_proto add_items fold_from
add_protos_lem [] p = (refl, refl, ground arith)
add_protos_lem ((none, v) ∷ xs) p =
    let (a, b, c) = add_protos_lem xs (add_proto (none, v) p) in (a, b, c ∙ ground arith)
add_protos_lem ((some k, v) ∷ xs) p = add_protos_lem xs (add_proto (some k, v) p)

pub no_protos-ProtosOf : ProtosOf no_protos []
unfolding fold_from
no_protos-ProtosOf = record { sums = no_sums-SumsOf; null_key = refl; has_null = refl }

total_append :
    (xs ys : List ProtoItem)
    → total (total none (null_items xs)) (null_items ys) ≡ total none (null_items (xs ++ ys))
total_append xs ys =
    sym (fold_from-append add (λ v. v) none (null_items xs) (null_items ys))
    ∙ sym (ap (total none) (null_items-append xs ys))

has_append :
    (xs ys : List ProtoItem)
    → (nonempty (null_items xs) || nonempty (null_items ys)) ≡ nonempty (null_items (xs ++ ys))
has_append xs ys =
    sym (nonempty-append (null_items xs) (null_items ys))
    ∙ sym (ap nonempty (null_items-append xs ys))

pub add_protos-ProtosOf :
    (p : ProtoSums) (xs ys : List ProtoItem) → ProtosOf p xs → ProtosOf (add_protos ys p) (xs ++ ys)
add_protos-ProtosOf p xs ys h =
    let (a, b, c) = add_protos_lem ys p in
    record {
      sums = subst (SumsOf (add_protos ys p).sums) (sym (keyed_items-append xs ys)) (
          subst (λ s. SumsOf s (keyed_items xs ++ keyed_items ys)) (sym a)
            (add_items-SumsOf p.sums (keyed_items xs) (keyed_items ys) h.sums));
      null_key = b ∙ ap (λ t. total t (null_items ys)) h.null_key ∙ total_append xs ys;
      has_null = c ∙ ap (λ d. d || nonempty (null_items ys)) h.has_null ∙ has_append xs ys;
    }

merge_protos_lem :
    (p o : ProtoSums)
    → (o.has_null ≡ false → o.null_key ≡ none)
    → ((merge_protos p o).sums ≡ add_items o.sums.items p.sums)
      × ((merge_protos p o).null_key ≡ add p.null_key o.null_key)
      × ((merge_protos p o).has_null ≡ (p.has_null || o.has_null))
unfolding merge_protos add_proto
merge_protos_lem p o h = elim (Bool-cases o.has_null) [
  | inl e ↦ rw e (refl, refl, ground arith)
  | inr e ↦ rw (e, h e) (refl, refl, ground arith)
]

no_null : (vs : List SumState) → nonempty vs ≡ false → total none vs ≡ none
unfolding fold_from
no_null [] h = refl
no_null (v ∷ vs) h = absurd (ground (arith, h))

pub merge_protos-ProtosOf :
    (p o : ProtoSums) (xs ys : List ProtoItem)
    → ProtosOf p xs
    → ProtosOf o ys
    → ProtosOf (merge_protos p o) (xs ++ ys)
merge_protos-ProtosOf p o xs ys h g =
    let (a, b, c) =
      merge_protos_lem p o (λ n. g.null_key ∙ no_null (null_items ys) (sym g.has_null ∙ n)) in
    record {
      sums = subst (SumsOf (merge_protos p o).sums) (sym (keyed_items-append xs ys)) (
          subst (λ s. SumsOf s (keyed_items xs ++ keyed_items ys)) (sym a)
            (merge-SumsOf p.sums o.sums (keyed_items xs) (keyed_items ys) h.sums g.sums));
      null_key =
          b
          ∙ ap (λ t. add t o.null_key) h.null_key
          ∙ ap (add (total none (null_items xs))) g.null_key
          ∙ fold_from-join add (λ v. v) add_assoc none (null_items xs) (null_items ys) (λ v. refl)
          ∙ sym (ap (total none) (null_items-append xs ys));
      has_null =
          c
          ∙ ap (λ d. d || o.has_null) h.has_null
          ∙ ap (λ d. nonempty (null_items xs) || d) g.has_null
          ∙ has_append xs ys;
    }

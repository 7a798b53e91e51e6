-- ===== src/Tailnets/Built.antt =====
-- What `NewRegistry` of backend/internal/services/registry.go builds.
use tsflow.Prelude.{
  String, ◌≡◌, refl, sym, ap, ◌∙◌, ◌≢◌, Bool, true, false, ◌||◌, List, [], ◌∷◌, ◌++◌, Option, none,
  some, arith, ◌==◌, eq_iff, String_eq, ℕ_eq, if◌then◌else◌, mem,
}
use tsflow.Prelude.Maps.{lookup, lookup-insert}
use tsflow.Tailnets.Registry.{
  TailnetSpec, TailnetRuntime, Registry, NewRegistry, built, refused, blank_id, duplicate,
  not_built, with_runtime, add_specs, new_registry,
}

abbrev pub Distinct : List String → Type 0
Distinct [] = Unit
Distinct (x ∷ xs) = (mem x xs ≡ false) × Distinct xs

-- The order lists each key of the map once, no key is blank, and each entry knows its key.
pub record WellFormed {P : Type 0} (reg : Registry P) : Type 0 where
  pub named :
      (id : String) (r : TailnetRuntime P) → lookup id reg.by_id ≡ some r → (r.id ≡ id) × (id ≢ "")
  pub agree :
      (id : String)
      → mem id reg.order
        ≡ (elim (lookup id reg.by_id) as (λ _. Bool) [ none ↦ false | some r ↦ true ])
  pub distinct : Distinct reg.order

mem-snoc : (a b : String) (xs : List String) → mem a (xs ++ b ∷ []) ≡ (mem a xs || b == a)
mem-snoc a b [] = ground arith
mem-snoc a b (x ∷ xs) = ground (arith, mem-snoc a b xs)

Distinct-snoc :
    (xs : List String) (b : String) → Distinct xs → mem b xs ≡ false → Distinct (xs ++ b ∷ [])
Distinct-snoc [] b d h = (refl, tt)
Distinct-snoc (x ∷ xs) b (n, d) h = (
  ground (arith, mem-snoc x b xs, n, h, eq_iff x b, eq_iff b x),
  Distinct-snoc xs b d (ground (arith, h)),
)

module _ {P : Type 0} where
  abbrev pub Built : NewRegistry P → Type 0
  Built (built reg) = WellFormed reg
  Built (refused e) = Unit

  named_lem :
      (new r : TailnetRuntime P) (o : Option (TailnetRuntime P)) (id : String) (b : Bool)
      → (new.id == id) ≡ b
      → new.id ≢ ""
      → (o ≡ some r → (r.id ≡ id) × (id ≢ ""))
      → (if b then some new else o) ≡ some r
      → (r.id ≡ id) × (id ≢ "")
  named_lem new r o id true e blank old h =
      let same : new.id ≡ id = (eq_iff new.id id).0 e in
      let mine : new.id ≡ r.id = ap (id_or new.id) h in (sym mine ∙ same, λ x. blank (same ∙ x))
    where
      id_or : String → Option (TailnetRuntime P) → String
      id_or s none = s
      id_or s (some t) = t.id
  named_lem new r o id false e blank old h = old h

  with_runtime-WellFormed :
      (reg : Registry P) (spec : TailnetSpec) (p : P)
      → WellFormed reg
      → spec.id ≢ ""
      → lookup spec.id reg.by_id ≡ none
      → WellFormed (with_runtime reg spec p)
  with_runtime-WellFormed reg spec p w b h = record {
    named = λ id r found.
        named_lem new r (lookup id reg.by_id) id (spec.id == id) refl b (w.named id r)
          (sym (lookup-insert spec.id id new reg.by_id) ∙ found);
    agree = λ id.
        ground (
          arith,
          mem-snoc id spec.id reg.order,
          lookup-insert spec.id id new reg.by_id,
          w.agree id,
        );
    distinct = Distinct-snoc reg.order spec.id w.distinct (ground (arith, w.agree spec.id, h));
  }
    where
      new : TailnetRuntime P
      new = record { id = spec.id; name = spec.name; display_name = spec.display_name; clients = p }

  module _ (build : TailnetSpec → Option P) where
    next_spec :
        (spec : TailnetSpec) (specs : List TailnetSpec) (reg : Registry P) (blank : Bool)
        (found : Option (TailnetRuntime P)) (made : Option P)
        → (spec.id == "") ≡ blank
        → lookup spec.id reg.by_id ≡ found
        → WellFormed reg
        → ((next : Registry P) → WellFormed next → Built (add_specs build specs next))
        → Built (
            if blank then refused blank_id else elim found as (λ _. NewRegistry P) [
              | some r ↦ refused (duplicate spec.id)
              | none ↦ elim made as (λ _. NewRegistry P) [
                | none ↦ refused (not_built spec.id)
                | some clients ↦ add_specs build specs (with_runtime reg spec clients)
              ]
            ])
    next_spec spec specs reg true found made e f w rest = tt
    next_spec spec specs reg false (some r) made e f w rest = tt
    next_spec spec specs reg false none none e f w rest = tt
    next_spec spec specs reg false none (some clients) e f w rest =
        rest (with_runtime reg spec clients) (
          with_runtime-WellFormed reg spec clients w (λ x. ground (arith, e, eq_iff spec.id "", x))
            f)

    add_specs-Built :
        (specs : List TailnetSpec) (reg : Registry P)
        → WellFormed reg
        → Built (add_specs build specs reg)
    unfolding add_specs
    add_specs-Built [] reg w = w
    add_specs-Built (spec ∷ specs) reg w =
        next_spec spec specs reg (spec.id == "") (lookup spec.id reg.by_id) (build spec) refl refl w
          (add_specs-Built specs)

    -- A registry that is built lists each of its tailnets once, under an id that is not blank, and an entry has
    -- the id under which it is found.
    pub new_registry-Built : (specs : List TailnetSpec) → Built (new_registry build specs)
    unfolding new_registry lookup
    new_registry-Built [] = tt
    new_registry-Built (spec ∷ specs) =
        add_specs-Built (spec ∷ specs) (record { order = []; by_id = [] })
          (record {
            named = λ id r h. absurd (ground (arith, h));
            agree = λ id. refl;
            distinct = tt;
          })

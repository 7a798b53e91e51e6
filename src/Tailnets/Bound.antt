-- ===== src/Tailnets/Bound.antt =====
-- What `BindTailnet` of backend/internal/handlers/tailnet_scope.go may answer.
use tsflow.Prelude.{
  String, ◌≡◌, refl, sym, ap, ◌∙◌, subst, ◌≢◌, ◌⊎◌, inl, inr, Bool, true, false, not, ◌&&◌, ◌||◌,
  List, [], ◌∷◌, Option, none, some, arith, ◌==◌, eq_iff, String_eq, ℕ_eq, if◌then◌else◌, mem,
  Bool-cases,
}
use tsflow.Prelude.Maps.{lookup}
use tsflow.Access.Text.{trim_space}
use tsflow.Access.Allow.{Allow, permits, filter_ids}
use tsflow.Tailnets.Registry.{TailnetRuntime, Registry, list_from}
use tsflow.Tailnets.Bind.{
  default_tailnet_id, Handlers, TailnetBinding, forbidden, unknown, none_permitted,
  tailnet_required, Answer, bound, failed, panics, binding_from, tailnet_ids, if_permitted,
  without_registry, only_tailnet, or_none, ask, from_default, from_entry, by_entries, with_registry,
  bind_trimmed, bind_tailnet,
}
use tsflow.Tailnets.Built.{WellFormed}
use tsflow.Tailnets.Listed.{is_configured, usable, mem-filter_ids, mem-tailnet_ids}

-- Access control does not keep the viewer from a tailnet, or does.
abbrev pub MaySee : Bool → Allow → String → Type 0
MaySee restricted allow id = restricted ≡ true → permits allow id ≡ true

abbrev pub Forbidden : Bool → Allow → String → Type 0
Forbidden restricted allow id = (restricted ≡ true) × (permits allow id ≡ false)

module _ {P : Type 0} where
  abbrev pub Sound : Option (Registry P) → Type 0
  Sound none = Unit
  Sound (some reg) = WellFormed reg

  -- The binding is of a tailnet that is configured.
  abbrev pub Configured : Handlers P → Option (Registry P) → TailnetBinding P → Type 0
  Configured h none b = b ≡ record { id = default_tailnet_id; clients = h.clients }
  Configured h (some reg) b =
      (r : TailnetRuntime P) × (lookup b.id reg.by_id ≡ some r) × (b ≡ binding_from r)

  -- The default tailnet, or the one tailnet that is configured
  abbrev pub DefaultOrOnly : Option (Registry P) → String → Type 0
  DefaultOrOnly o id =
      (id ≡ default_tailnet_id) ⊎ ((k : String) → is_configured o k ≡ true → k ≡ id)

  abbrev pub Missing : Option (Registry P) → String → Type 0
  Missing none id = id ≢ default_tailnet_id
  Missing (some reg) id = lookup id reg.by_id ≡ none

  abbrev pub Rightly : Bool → Allow → Handlers P → Option (Registry P) → String → Answer P → Type 0
  Rightly restricted allow h o raw (bound b) =
      MaySee restricted allow b.id
      × (raw ≢ "" → b.id ≡ raw)
      × Configured h o b
      × (raw ≡ "" → DefaultOrOnly o b.id)
  Rightly restricted allow h o raw (failed (forbidden id)) =
      Forbidden restricted allow id × (raw ≢ "" → id ≡ raw) × (raw ≡ "" → DefaultOrOnly o id)
  Rightly restricted allow h o raw (failed (unknown id)) =
      MaySee restricted allow id × Missing o id × (id ≡ raw)
  Rightly restricted allow h o raw (failed none_permitted) =
      (restricted ≡ true) × (raw ≡ "") × ((id : String) → usable restricted allow o id ≡ false)
  Rightly restricted allow h o raw (failed (tailnet_required ids)) =
      (raw ≡ "")
      × (usable restricted allow o default_tailnet_id ≡ false)
      × ((id : String) → mem id ids ≡ usable restricted allow o id)
  Rightly restricted allow h o raw panics = ⊥

  module _ (restricted : Bool) (allow : Allow) (h : Handlers P) (o : Option (Registry P))
      (raw : String) where
    abbrev Right : Answer P → Type 0
    Right a = Rightly restricted allow h o raw a

    if_permitted-Rightly :
        (b : TailnetBinding P)
        → (raw ≢ "" → b.id ≡ raw)
        → Configured h o b
        → (raw ≡ "" → DefaultOrOnly o b.id)
        → Right (if_permitted restricted allow b)
    if_permitted-Rightly b same c only =
        elim (Bool-cases (restricted && not (permits allow b.id))) [
          | inl e ↦ rw e ((ground (arith, e), ground (arith, e)), same, only)
          | inr e ↦ rw e ((λ x. ground (arith, e, x), same, c, only))
        ]

    module _ (blank : raw ≡ "")
        (unusable : usable restricted allow o default_tailnet_id ≡ false) where
      or_none-Rightly :
          (xs : List String)
          → ((id : String) → mem id xs ≡ usable restricted allow o id)
          → restricted ≡ true
          → Right (or_none restricted allow xs)
      or_none-Rightly [] listed e = (e, blank, λ id. sym (listed id))
      or_none-Rightly (x ∷ xs) listed e = (blank, unusable, listed)

  ask-Rightly :
      (restricted : Bool) (allow : Allow) (h : Handlers P) (o : Option (Registry P)) (raw : String)
      (ids : List String)
      → raw ≡ ""
      → usable restricted allow o default_tailnet_id ≡ false
      → ((id : String) → mem id ids ≡ is_configured o id)
      → Rightly restricted allow h o raw (ask restricted allow ids)
  ask-Rightly true allow h o raw ids blank unusable listed =
      or_none-Rightly true allow h o raw blank unusable (filter_ids allow ids)
        (λ id. mem-filter_ids allow id ids ∙ ap (λ b. permits allow id && b) (listed id)) refl
  ask-Rightly false allow h o raw ids blank unusable listed = (blank, unusable, listed)

  module _ (restricted : Bool) (allow : Allow) (h : Handlers P) (raw : String)
      (may : raw ≢ "" → MaySee restricted allow raw) where
    without_registry-Rightly :
        Rightly restricted allow h none raw (without_registry restricted allow h raw)
    without_registry-Rightly =
        elim (Bool-cases (not (raw == "") && not (raw == default_tailnet_id))) [
          | inl e ↦ rw e (
            may (λ x. ground (arith, e, eq_iff raw "", x)),
            λ x. ground (arith, e, eq_iff raw default_tailnet_id, x),
            refl,
          )
          | inr e ↦ rw e (
              if_permitted-Rightly restricted allow h none raw
                (record { id = default_tailnet_id; clients = h.clients })
                (λ x. ground (arith, e, eq_iff raw "", eq_iff raw default_tailnet_id, x)) refl
                (λ x. inl refl))
        ]

    module _ (reg : Registry P) (w : WellFormed reg) where
      abbrev Here : Answer P → Type 0
      Here a = Rightly restricted allow h (some reg) raw a

      from_entry-Rightly :
          (found : Option (TailnetRuntime P))
          → raw ≢ ""
          → lookup raw reg.by_id ≡ found
          → Here (from_entry restricted allow found raw)
      from_entry-Rightly none n e = (may n, e, refl)
      from_entry-Rightly (some r) n e =
          let same = (w.named raw r e).0 in
          if_permitted-Rightly restricted allow h (some reg) raw (binding_from r) (λ x. same)
            (r, subst (λ k. lookup k reg.by_id ≡ some r) (sym same) e, refl) (λ x. absurd (n x))

      from_default-Rightly :
          (found : Option (TailnetRuntime P)) (ids : List String)
          → raw ≡ ""
          → lookup default_tailnet_id reg.by_id ≡ found
          → ((id : String) → mem id ids ≡ is_configured (some reg) id)
          → Here (from_default restricted allow found ids)
      from_default-Rightly none ids b e listed =
          ask-Rightly restricted allow h (some reg) raw ids b (ground (arith, e)) listed
      from_default-Rightly (some r) ids b e listed =
          let same = (w.named default_tailnet_id r e).0 in
          elim (Bool-cases (not restricted || permits allow r.id)) [
            | inl c ↦ rw c (
              λ x. ground (arith, c, x),
              λ n. absurd (n b),
              (r, subst (λ k. lookup k reg.by_id ≡ some r) (sym same) e, refl),
              λ x. inl same,
            )
            | inr c ↦ rw c (
                ask-Rightly restricted allow h (some reg) raw ids b
                  (ap
                      (λ k.
                        (not restricted || permits allow k)
                        && is_configured (some reg) default_tailnet_id)
                      (sym same)
                    ∙ ground (arith, c))
                  listed)
          ]

      only_tailnet-Rightly :
          (id : String) (found : Option (TailnetRuntime P))
          → lookup id reg.by_id ≡ found
          → found ≢ none
          → (raw ≢ id → lookup raw reg.by_id ≡ none)
          → ((k : String) → is_configured (some reg) k ≡ true → k ≡ id)
          → Here (only_tailnet restricted allow found raw)
      only_tailnet-Rightly id none e n other only = absurd (n refl)
      only_tailnet-Rightly id (some r) e n other only =
          let same = (w.named id r e).0 in
          elim (Bool-cases (raw == "" || raw == r.id)) [
            | inl c ↦ rw c (
                if_permitted-Rightly restricted allow h (some reg) raw (binding_from r)
                  (λ x. ground (arith, c, eq_iff raw "", eq_iff raw r.id, x))
                  (r, subst (λ k. lookup k reg.by_id ≡ some r) (sym same) e, refl)
                  (λ x. inr (λ k y. only k y ∙ sym same)))
            | inr c ↦ rw c (
              may (λ x. ground (arith, c, eq_iff raw "", x)),
              other (λ x. ground (arith, c, eq_iff raw r.id, x, same)),
              refl,
            )
          ]

      several :
          (entries : List (Option (TailnetRuntime P)))
          → ((id : String) → mem id (tailnet_ids entries) ≡ is_configured (some reg) id)
          → Here (
              if raw == ""
              then from_default restricted allow
                  (lookup default_tailnet_id reg.by_id)
                  (tailnet_ids entries)
              else from_entry restricted allow (lookup raw reg.by_id) raw)
      several entries listed = elim (Bool-cases (raw == "")) [
        | inl c ↦ rw c (
            from_default-Rightly (lookup default_tailnet_id reg.by_id) (tailnet_ids entries)
              ((eq_iff raw "").0 c) refl listed)
        | inr c ↦ rw c (
            from_entry-Rightly (lookup raw reg.by_id) (λ x. ground (arith, c, eq_iff raw "", x))
              refl)
      ]

      listed :
          (order : List String)
          → ((id : String) → mem id order ≡ is_configured (some reg) id)
          → (id : String)
          → mem id (tailnet_ids (list_from order reg.by_id)) ≡ is_configured (some reg) id
      listed order agree id =
          mem-tailnet_ids reg.by_id w.named order id
          ∙ ap (λ b. b && is_configured (some reg) id) (agree id)
          ∙ ground arith

      by_order :
          (order : List String)
          → ((id : String)
              → mem id order
                ≡ (elim (lookup id reg.by_id) as (λ _. Bool) [ none ↦ false | some r ↦ true ]))
          → Here (by_entries restricted allow reg (list_from order reg.by_id) raw)
      by_order [] agree = several [] (λ id. listed [] agree id)
      by_order (x ∷ []) agree =
          only_tailnet-Rightly x (lookup x reg.by_id) refl
            (λ e. ground (arith, agree x, eq_iff x x, e))
            (λ n. ground (arith, agree raw, eq_iff x raw, n))
            (λ k y. ground (arith, agree k, eq_iff x k, y))
      by_order (x ∷ y ∷ order) agree =
          several (lookup x reg.by_id ∷ lookup y reg.by_id ∷ list_from order reg.by_id)
            (listed (x ∷ y ∷ order) agree)

    with_registry-Rightly :
        (o : Option (Registry P))
        → Sound o
        → Rightly restricted allow h o raw (with_registry restricted allow h o raw)
    with_registry-Rightly none s = without_registry-Rightly
    with_registry-Rightly (some reg) s = by_order reg s reg.order s.agree

  bind_trimmed-Rightly :
      (restricted : Bool) (allow : Allow) (h : Handlers P) (raw : String)
      → Sound h.registry
      → Rightly restricted allow h h.registry raw (bind_trimmed restricted allow h raw)
  unfolding bind_trimmed
  bind_trimmed-Rightly restricted allow h raw s =
      elim (Bool-cases (restricted && not (raw == "") && not (permits allow raw))) [
        | inl e ↦ rw e (
          (ground (arith, e), ground (arith, e)),
          λ x. refl,
          λ x. absurd (ground (arith, e, eq_iff raw "", x)),
        )
        | inr e ↦ rw e (
            with_registry-Rightly restricted allow h raw
              (λ n r. ground (arith, e, eq_iff raw "", n, r)) h.registry s)
      ]

  -- Over a registry that is well formed, or none: a request is bound to a tailnet that is configured, that the
  -- viewer may see, and that is the one asked for, if one is. It is refused as forbidden only when the viewer may
  -- not see the tailnet, and as unknown only when the viewer could see it and it is not configured; either names
  -- the tailnet asked for, if one is. When none is asked for, a bound or forbidden tailnet is the default one or
  -- the only one that is configured, the answer that none is permitted means that the viewer is restricted and may
  -- see no configured tailnet, and a list to choose from names exactly the configured tailnets that the viewer may
  -- see, of which the default one is none. No entry that is missing is used.
  pub bind_tailnet-Rightly :
      (restricted : Bool) (allow : Allow) (h : Handlers P) (raw : String)
      → Sound h.registry
      → Rightly restricted allow h h.registry (trim_space raw) (bind_tailnet restricted allow h raw)
  unfolding bind_tailnet
  bind_tailnet-Rightly restricted allow h raw s =
      bind_trimmed-Rightly restricted allow h (trim_space raw) s

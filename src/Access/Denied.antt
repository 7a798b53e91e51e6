-- ===== src/Access/Denied.antt =====
-- Access fails closed: what a resolved viewer of backend/internal/access/resolve.go may see comes from
-- a capability or a mapped group, and a viewer with neither is refused.
use tsflow.Prelude.{
  ◌⊎◌, sym, subst, String, ◌≡◌, refl, ◌∙◌, Bool, true, false, ◌||◌, List, [], ◌∷◌, Option, none,
  some, arith, String_eq, any, Bool-cases, inl, inr,
}
use tsflow.Prelude.Maps.{Map, lookup}
use tsflow.Access.Allow.{Grant, is_some, Allow, nothing, permits, merge_allow, allow_from_groups}
use tsflow.Access.Permits.{group_opens, allow_from_groups_lem, permits-merge_allow}
use tsflow.Access.Request.{Network, Request, from_trusted_proxy}
use tsflow.Access.Capability.{missing_grant, ok, err, first_step, Json, union_names}
use tsflow.Access.Resolve.{
  Mode, tsnet, header, unknown, Config, WhoIsResponse, Identity, with_groups, allow_from_who_is,
  capability_header_allow, group_header, resolve_headers, resolve, header_identity, with_identity,
  who_is_capability, capability_allow, by_mode,
}

abbrev pub permits_by : Option Allow → String → Bool
permits_by none id = false
permits_by (some a) id = permits a id

abbrev pub mapped : Map String Grant → List String → Bool
mapped grants groups = any (λ g. is_some (lookup g grants)) groups

unmapped_opens :
    (groups : List String) (grants : Map String Grant) (id : String)
    → mapped grants groups ≡ false
    → any (group_opens grants id) groups ≡ false
unmapped_opens [] grants id h = refl
unmapped_opens (g ∷ groups) grants id h = ground (arith, unmapped_opens groups grants id)

-- Merging the two sources: no match of either is no match, and else what one of them permits.
merged :
    (shown : Option Allow) (matched opened : Bool) (g : Allow) (id : String)
    → (matched ≡ false → opened ≡ false)
    → permits g id ≡ opened
    → ((shown ≡ none) × (matched ≡ false) × (with_groups shown (matched, g) ≡ none))
      ⊎ ((a : Allow) × (with_groups shown (matched, g) ≡ some a)
          × (permits a id ≡ (permits_by shown id || opened))
          × (is_some shown || matched ≡ true))
unfolding with_groups
merged none false opened g id u p = inl (refl, refl, refl)
merged none true opened g id u p = inr (
  merge_allow nothing g,
  refl,
  permits-merge_allow nothing g id ∙ unfold permits lookup in p,
  refl,
)
merged (some a) false opened g id u p = inr (a, refl, ground (arith, u), refl)
merged (some a) true opened g id u p =
    inr (merge_allow a g, refl, ground (arith, permits-merge_allow a g id), refl)

abbrev pub granted : Option Allow → List String → Map String Grant → Option Allow
granted shown groups grants = with_groups shown (allow_from_groups groups grants)

pub granted-cases :
    (shown : Option Allow) (groups : List String) (grants : Map String Grant) (id : String)
    → ((shown ≡ none) × (mapped grants groups ≡ false) × (granted shown groups grants ≡ none))
      ⊎ ((a : Allow) × (granted shown groups grants ≡ some a)
          × (permits a id ≡ (permits_by shown id || any (group_opens grants id) groups))
          × (is_some shown || mapped grants groups ≡ true))
granted-cases shown groups grants id =
    let (m, p) = allow_from_groups_lem groups grants id in
    let r =
      merged shown (mapped grants groups) (any (group_opens grants id) groups)
        (allow_from_groups groups grants).1 id (unmapped_opens groups grants id) p in
    subst
      (λ (b : Bool).
        ((shown ≡ none)
          × (mapped grants groups ≡ false)
          × (with_groups shown (b, (allow_from_groups groups grants).1) ≡ none))
        ⊎ ((a : Allow) × (with_groups shown (b, (allow_from_groups groups grants).1) ≡ some a)
            × (permits a id ≡ (permits_by shown id || any (group_opens grants id) groups))
            × (is_some shown || mapped grants groups ≡ true)))
      (sym m) r

module _ (net : Network) (json : Json) (cfg : Config net) where
  -- By headers: with neither a capability nor a mapped group the request is refused; else the viewer
  -- may see exactly what the capability or one of the groups opens.
  pub resolve_headers_lem :
      (r : Request) (shown : Option Allow) (id : String)
      → cfg.grants_identity ≡ false
      → capability_header_allow net json r cfg ≡ ok shown
      → ((shown ≡ none)
          × (mapped cfg.group_grants (group_header net json r cfg) ≡ false)
          × (resolve_headers net json r cfg ≡ err missing_grant))
        ⊎ ((i : Identity) × (resolve_headers net json r cfg ≡ ok i)
            × (i.groups ≡ group_header net json r cfg)
            × (permits i.allow id
                ≡ (permits_by shown id || any (group_opens cfg.group_grants id) i.groups))
            × (is_some shown || mapped cfg.group_grants i.groups ≡ true))
  unfolding resolve_headers
  resolve_headers_lem r shown id strict e =
      elim (granted-cases shown (group_header net json r cfg) cfg.group_grants id) [
        | inl (c, m, w) ↦ inl (c, m, simp (strict, e, w))
        | inr (a, w, p, some_source) ↦
            inr (header_identity net json r cfg a, simp (strict, e, w), refl, p, some_source)
      ]

  -- By WhoIs, on the capabilities of the answer: `groups` are those of its profile and of the proxy.
  pub with_identity_lem :
      (i : Identity) (resp : WhoIsResponse) (headers : List String) (shown : Option Allow)
      (id : String)
      → cfg.grants_identity ≡ false
      → capability_allow json (who_is_capability net json resp cfg) ≡ ok shown
      → ((shown ≡ none)
          × (mapped cfg.group_grants (union_names i.groups headers) ≡ false)
          × (with_identity net json i cfg resp headers ≡ err missing_grant))
        ⊎ ((v : Identity) × (with_identity net json i cfg resp headers ≡ ok v)
            × (v.groups ≡ union_names i.groups headers)
            × (permits v.allow id
                ≡ (permits_by shown id || any (group_opens cfg.group_grants id) v.groups))
            × (is_some shown || mapped cfg.group_grants v.groups ≡ true))
  unfolding with_identity allow_from_who_is
  with_identity_lem i resp headers shown id strict e =
      elim (granted-cases shown (union_names i.groups headers) cfg.group_grants id) [
        | inl (c, m, w) ↦ inl (c, m, simp (strict, e, w))
        | inr (a, w, p, some_source) ↦ inr (
          record i { groups = union_names i.groups headers; allow = a },
          simp (strict, e, w),
          refl,
          p,
          some_source,
        )
      ]

  by_mode-trusted :
      (mode : Mode) (r : Request) (who : Option (String → Option WhoIsResponse)) (i : Identity)
      → mode ≡ header
      → by_mode net json mode r cfg who ≡ ok i
      → from_trusted_proxy net r cfg.trusted_prefixes ≡ true
  unfolding by_mode
  by_mode-trusted tsnet r who i m h = cc
  by_mode-trusted unknown r who i m h = cc
  by_mode-trusted header r who i m h =
      elim (Bool-cases (from_trusted_proxy net r cfg.trusted_prefixes)) [
        | inl t ↦ t
        | inr f ↦ absurd (ground (arith, f, h))
      ]

  -- In header mode nobody is resolved whose request does not come from a trusted proxy.
  pub resolve-trusted :
      (r : Request) (who : Option (String → Option WhoIsResponse)) (i : Identity)
      → cfg.mode ≡ header
      → resolve net json r cfg who ≡ ok i
      → from_trusted_proxy net r cfg.trusted_prefixes ≡ true
  unfolding resolve
  resolve-trusted r who i m h =
      let (ident, e, _) = first_step (by_mode net json cfg.mode r cfg who) _ h in
      by_mode-trusted cfg.mode r who ident m e

-- ===== src/Access/Resolve.antt =====
-- `Resolve` of backend/internal/access/resolve.go: who sent a request, and which tailnets they see.
-- The WhoIs service and the decoding of JSON are arguments.
use tsflow.Prelude.{
  String, Bool, true, false, ◌||◌, not, List, [], Option, none, some, ◌==◌, String_eq,
  if◌then◌else◌,
}
use tsflow.Prelude.Maps.{Map, lookup}
use tsflow.Access.Text.{trim_space}
use tsflow.Access.Capability.{
  missing_grant, invalid_grant, identity_unavailable, missing_identity, Result, ok, err, ◌>>=◌,
  Json, union_names, parse_grant, capability_values,
}
use tsflow.Access.Allow.{Grant, Allow, nothing, merge_allow, allow_from_groups, grants_from_values}
use tsflow.Access.Request.{
  Network, Request, decode_header, from_trusted_proxy, forwarded_peer, split_list,
}
use tsflow.Access.Scope.{Autoscope, DeviceScope, device_scope_for}

pub data Mode : Type 0 where
  tsnet header unknown : Mode

-- config.Access, the fields that `Resolve` reads
pub record Config (net : Network) : Type 0 where
  pub mode : Mode
  pub capability : String
  pub capability_header : String
  pub user_header : String
  pub name_header : String
  pub groups_header : String
  pub trusted_prefixes : List (Network.Prefix net)
  pub group_grants : Map String Grant
  pub autoscope : Autoscope
  pub grants_identity : Bool

pub record Profile : Type 0 where
  pub login_name : String
  pub display_name : String
  pub groups : List String

-- apitype.WhoIsResponse; a nil map or pointer is `none`
pub record WhoIsResponse : Type 0 where
  pub user_profile : Option Profile
  pub node : Option String
  pub cap_map : Option (Map String (List String))

-- Identity; no autoscope is the blank one, which Resolve sets.
pub record Identity : Type 0 where
  pub login : String
  pub name : String
  pub node : String
  pub groups : List String
  pub allow : Allow
  pub autoscope : Option Autoscope
  pub device_scope : Option DeviceScope

-- identityFromWhoIs
profile_identity : Option Profile → Identity
profile_identity none = record {
  login = "";
  name = "";
  node = "";
  groups = [];
  allow = nothing;
  autoscope = none;
  device_scope = none;
}
profile_identity (some p) = record {
  login = trim_space p.login_name;
  name = trim_space p.display_name;
  node = "";
  groups = union_names p.groups [];
  allow = nothing;
  autoscope = none;
  device_scope = none;
}

identity_from_who_is : WhoIsResponse → Identity
unfolding profile_identity
identity_from_who_is resp = record (profile_identity resp.user_profile) {
  node = elim resp.node [ none ↦ "" | some name ↦ trim_space name ];
}

who_is_identified : Identity → Bool
who_is_identified i = not (i.login == "") || not (i.name == "") || not (i.node == "")

-- the grants of the capability that one source presents: an error, none, or what they allow
unfoldable pub capability_allow : Json → Option (List String) → Result (Option Allow)
capability_allow json none = ok none
capability_allow json (some values) = elim (grants_from_values (parse_grant json) values) [
  | none ↦ err invalid_grant
  | some allow ↦ ok (some allow)
]

-- both sources at once: a match of the capability, then of the groups, merged
unfoldable pub with_groups : Option Allow → Bool × Allow → Option Allow
with_groups none (false, g) = none
with_groups none (true, g) = some (merge_allow nothing g)
with_groups (some a) (false, g) = some a
with_groups (some a) (true, g) = some (merge_allow a g)

unfoldable pub matched_or_denied : Option Allow → Result Allow
matched_or_denied none = err missing_grant
matched_or_denied (some a) = ok a

configured_header : String → String → String
configured_header configured fallback =
    let c = trim_space configured in if c == "" then fallback else c

module _ (net : Network) (json : Json) where
  -- groupHeader
  unfoldable pub group_header : Request → Config net → List String
  group_header r cfg =
      if cfg.groups_header == ""
      then []
      else split_list (decode_header net (r.header cfg.groups_header))

  unfoldable pub who_is_capability : WhoIsResponse → Config net → Option (List String)
  who_is_capability resp cfg =
      if cfg.capability == ""
      then none
      else elim resp.cap_map [ none ↦ none | some caps ↦ lookup cfg.capability caps ]

  -- allowFromWhoIs; `none` is no match
  unfoldable pub allow_from_who_is :
      WhoIsResponse → Config net → List String → List String → Result (Option Allow)
  unfolding who_is_capability capability_allow
  allow_from_who_is resp cfg profile_groups header_groups = do
    cap ← capability_allow json (who_is_capability resp cfg)
    ok (
        with_groups cap
          (allow_from_groups (union_names profile_groups header_groups) cfg.group_grants))

  unfoldable pub with_identity :
      Identity → Config net → WhoIsResponse → List String → Result Identity
  unfolding who_is_identified matched_or_denied
  with_identity ident cfg resp header_groups =
      if cfg.grants_identity
      then (if not (who_is_identified ident)
          then err missing_identity
          else ok (record ident {
            groups = union_names ident.groups header_groups;
            allow = record nothing { all = true };
          }))
      else (do
        matched ← allow_from_who_is resp cfg ident.groups header_groups
        allow ← matched_or_denied matched
        ok (record ident { groups = union_names ident.groups header_groups; allow = allow }))

  -- resolveWhoIs; an answer of `none` is an error of the service
  unfoldable pub resolve_who_is :
      (String → Option WhoIsResponse) → String → Config net → List String → Result Identity
  unfolding with_identity identity_from_who_is
  resolve_who_is who addr cfg header_groups =
      if trim_space addr == "" then err identity_unavailable else elim (who addr) [
        | none ↦ err identity_unavailable
        | some resp ↦ with_identity (identity_from_who_is resp) cfg resp header_groups
      ]

  -- allowFromCapabilityHeader
  header_capability : String → String → Result (Option (List String))
  header_capability raw capability =
      let decoded = decode_header net raw in
      if trim_space decoded == "" || capability == ""
      then ok none
      else capability_values json decoded capability

  -- what the capability header allows
  unfoldable pub capability_header_allow : Request → Config net → Result (Option Allow)
  unfolding header_capability capability_allow
  capability_header_allow r cfg = if cfg.capability == "" then ok none else (do
    values ← header_capability (r.header cfg.capability_header) cfg.capability
    capability_allow json values)

  -- the viewer that the identity headers name
  unfoldable pub header_identity : Request → Config net → Allow → Identity
  unfolding configured_header
  header_identity r cfg allow = record {
    login = decode_header net (r.header (configured_header cfg.user_header "Tailscale-User-Login"));
    name = decode_header net (r.header (configured_header cfg.name_header "Tailscale-User-Name"));
    node = "";
    groups = group_header r cfg;
    allow = allow;
    autoscope = none;
    device_scope = none;
  }

  unfoldable pub resolve_headers : Request → Config net → Result Identity
  unfolding header_identity matched_or_denied
  resolve_headers r cfg =
      if cfg.grants_identity
      then (if (header_identity r cfg nothing).login == ""
          then err missing_identity
          else ok (header_identity r cfg (record nothing { all = true })))
      else (do
        shown ← capability_header_allow r cfg
        allow ←
            matched_or_denied
              (with_groups shown (allow_from_groups (group_header r cfg) cfg.group_grants))
        ok (header_identity r cfg allow))

  -- WhoIs replaces the identity headers where there is such a service.
  unfoldable pub header_mode :
      Request → Config net → Option (String → Option WhoIsResponse) → Result Identity
  header_mode r cfg none = resolve_headers r cfg
  header_mode r cfg (some who) = elim (forwarded_peer net r) [
    | none ↦ err identity_unavailable
    | some peer ↦ resolve_who_is who peer cfg (group_header r cfg)
  ]

  unfoldable pub by_mode :
      Mode → Request → Config net → Option (String → Option WhoIsResponse) → Result Identity
  by_mode tsnet r cfg none = err identity_unavailable
  by_mode tsnet r cfg (some who) = resolve_who_is who r.remote_addr cfg []
  by_mode header r cfg who =
      if from_trusted_proxy net r cfg.trusted_prefixes
      then header_mode r cfg who
      else err missing_grant
  by_mode unknown r cfg who = err identity_unavailable

  unfoldable pub resolve :
      Request → Config net → Option (String → Option WhoIsResponse) → Result Identity
  unfolding by_mode header_mode
  resolve r cfg who = do
    ident ← by_mode cfg.mode r cfg who
    ok (record ident {
      autoscope = some cfg.autoscope;
      device_scope = device_scope_for cfg.autoscope ident.login ident.groups cfg.group_grants;
    })

-- ===== src/Access/Tests.antt =====
-- The theorems on backend/internal/access at concrete inputs.
use tsflow.Prelude.{
  ℕ, String, ◌≡◌, ◌⊎◌, inr, refl, true, false, ◌||◌, any, [], ◌∷◌, Option, none, some, ◌==◌,
  String_eq,
}
use tsflow.Prelude.Maps.{lookup}
use tsflow.Access.Text.{trim_space, append, contains_char}
use tsflow.Access.Allow.{Grant, Allow, nothing, add, permits, allow_from_groups, grants_from_values}
use tsflow.Access.Permits.{
  permits-add, group_opens, allow_from_groups_lem, grants_from_values_lem, value_opens,
}
use tsflow.Access.Request.{
  Network, Request, entry_peer, forwarded_peer, from_trusted_proxy, remote_address, decode_header,
}
use tsflow.Access.Scope.{off, device_scope_for}
use tsflow.Access.Capability.{Json, ok, err, missing_grant, union_names}
use tsflow.Access.Resolve.{
  Config, header, WhoIsResponse, Identity, resolve, resolve_headers, group_header,
  capability_header_allow, with_identity, capability_allow, who_is_capability, header_mode,
  header_identity, by_mode,
}
use tsflow.Access.Denied.{mapped, resolve_headers_lem, with_identity_lem, resolve-trusted}
use tsflow.Access.Forwarded.{forwarded_peer-last}

abbrev net : Network
net = record {
  Addr = String;
  Prefix = String;
  parse_addr = λ s. some s;
  addr_string = λ a. a;
  split_host_port = λ s. none;
  contains = λ p a. p == a;
  decode_words = λ s. none;
}

abbrev json : Json
json = record {
  decode_tailnets = λ s. some (some ("x" ∷ []));
  decode_object = λ s. none;
  decode_array = λ s. none;
}

abbrev only_x : Grant
only_x = record { all = false; tailnets = "x" ∷ [] }

abbrev proxied : Request
proxied = record {
  remote_addr = "10.0.0.1";
  header = λ name. "ops";
  header_values = λ name. "1.1.1.1" ∷ "6.6.6.6,100.64.0.9" ∷ [];
}

abbrev cfg : Config net
cfg = record {
  mode = header;
  capability = "";
  capability_header = "";
  user_header = "";
  name_header = "";
  groups_header = "";
  trusted_prefixes = "10.0.0.1" ∷ [];
  group_grants = ("ops", only_x) ∷ [];
  autoscope = off;
  grants_identity = false;
}

permits-add_example : permits (add nothing only_x) "x" ≡ (permits nothing "x" || true)
permits-add_example = permits-add nothing only_x "x"

allow_from_groups_lem_example : (allow_from_groups ("dev" ∷ "ops" ∷ []) cfg.group_grants).0 ≡ true
unfolding lookup
allow_from_groups_lem_example = (allow_from_groups_lem ("dev" ∷ "ops" ∷ []) cfg.group_grants "x").0

abbrev parse_x : ℕ → Option Grant
parse_x n = some only_x

granted_x : grants_from_values parse_x (1 ∷ []) ≡ some (add nothing only_x)
unfolding grants_from_values
granted_x = refl

grants_from_values_lem_example :
    (a : Allow) × (grants_from_values parse_x (1 ∷ []) ≡ some a)
    × ((id : String) → permits a id ≡ any (value_opens parse_x id) (1 ∷ []))
grants_from_values_lem_example = (grants_from_values_lem parse_x 1 []).1 refl

no_capability : capability_header_allow net json proxied cfg ≡ ok none
unfolding capability_header_allow
no_capability = refl

resolve_headers_lem_example :
    (◌≡◌ {A = Option Allow} none none
      × (mapped cfg.group_grants (group_header net json proxied cfg) ≡ false)
      × (resolve_headers net json proxied cfg ≡ err missing_grant))
    ⊎ ((i : Identity) × (resolve_headers net json proxied cfg ≡ ok i)
        × (i.groups ≡ group_header net json proxied cfg)
        × (permits i.allow "x" ≡ (false || any (group_opens cfg.group_grants "x") i.groups))
        × (mapped cfg.group_grants i.groups ≡ true))
resolve_headers_lem_example = resolve_headers_lem net json cfg proxied none "x" refl no_capability

forwarded_peer-last_example : forwarded_peer net proxied ≡ entry_peer net (trim_space "100.64.0.9")
unfolding append contains_char
forwarded_peer-last_example =
    forwarded_peer-last net proxied ("1.1.1.1" ∷ []) "6.6.6.6" "100.64.0.9" (inr refl) refl

abbrev answer : WhoIsResponse
answer = record { user_profile = none; node = some "n"; cap_map = none }

abbrev nobody : Identity
nobody = record {
  login = "";
  name = "";
  node = "n";
  groups = [];
  allow = nothing;
  autoscope = none;
  device_scope = none;
}

no_capability_shown : capability_allow json (who_is_capability net json answer cfg) ≡ ok none
unfolding capability_allow who_is_capability
no_capability_shown = refl

with_identity_lem_example :
    (◌≡◌ {A = Option Allow} none none
      × (mapped cfg.group_grants (union_names [] ("ops" ∷ [])) ≡ false)
      × (with_identity net json nobody cfg answer ("ops" ∷ []) ≡ err missing_grant))
    ⊎ ((v : Identity) × (with_identity net json nobody cfg answer ("ops" ∷ []) ≡ ok v)
        × (v.groups ≡ union_names [] ("ops" ∷ []))
        × (permits v.allow "x" ≡ (false || any (group_opens cfg.group_grants "x") v.groups))
        × (mapped cfg.group_grants v.groups ≡ true))
with_identity_lem_example =
    with_identity_lem net json cfg nobody answer ("ops" ∷ []) none "x" refl no_capability_shown

abbrev open_cfg : Config net
open_cfg = record cfg { grants_identity = true }

abbrev viewer : Identity
viewer = record {
  login = "ops";
  name = "ops";
  node = "";
  groups = [];
  allow = record nothing { all = true };
  autoscope = some off;
  device_scope = none;
}

viewer_resolved : resolve net json proxied open_cfg none ≡ ok viewer
unfolding resolve by_mode header_mode resolve_headers from_trusted_proxy group_header
    header_identity decode_header remote_address trim_space device_scope_for
viewer_resolved = refl

resolve-trusted_example : from_trusted_proxy net proxied ("10.0.0.1" ∷ []) ≡ true
resolve-trusted_example = resolve-trusted net json open_cfg proxied none viewer refl viewer_resolved

-- ===== src/Access/Scope.antt =====
-- backend/internal/access/scope.go: the default device filter. Lower-casing is the Go library's.
use tsflow.Prelude.{
  String, Bool, true, false, ◌||◌, ◌&&◌, not, List, [], ◌∷◌, ◌++◌, Option, none, some, ◌==◌,
  String_eq, mem, if◌then◌else◌,
}
use tsflow.Prelude.Maps.{Map, lookup}
use tsflow.Prelude.Sort.{sort, before_str}
use tsflow.Access.Text.{trim_space, contains_char, trim_prefix, append}
use tsflow.Access.Allow.{Grant, is_some}

pub data Autoscope : Type 0 where
  off by_user by_groups : Autoscope

pub record DeviceScope : Type 0 where
  pub owners : List String
  pub tags : List String

-- mappedGroups, with the groups that it has seen
pub mapped_from : Map String Grant → List String → List String → List String
mapped_from grants [] out = out
mapped_from grants (raw ∷ rest) out =
    let group = trim_space raw in
    mapped_from grants rest (
      if group == ""
      then out
      else if not (is_some (lookup group grants))
      then out
      else if mem group out
      then out
      else out ++ group ∷ [])

unfoldable pub mapped_groups : List String → Map String Grant → List String
unfolding mapped_from
mapped_groups groups [] = []
mapped_groups groups (g ∷ grants) = mapped_from (g ∷ grants) groups []

pub owners_from : List String → List String → List String
owners_from [] out = out
owners_from (group ∷ rest) out = owners_from rest (
    if not (contains_char b'@' group)
    then out
    else if mem group out
    then out
    else out ++ group ∷ [])

unfoldable pub group_owners : List String → Map String Grant → List String
unfolding owners_from
group_owners groups grants = sort before_str (owners_from (mapped_groups groups grants) [])

pub tags_from : List String → List String → List String
tags_from [] out = out
tags_from (group ∷ rest) out =
    let name = trim_prefix "tag:" (trim_prefix "group:" group) in
    tags_from rest (
      if contains_char b'@' group
      then out
      else if name == ""
      then out
      else if mem (append "tag:" name) out
      then out
      else out ++ append "tag:" name ∷ [])

unfoldable pub group_tags : List String → Map String Grant → List String
unfolding tags_from
group_tags groups grants = sort before_str (tags_from (mapped_groups groups grants) [])

-- DeviceScopeFor
unfoldable pub device_scope_for :
    Autoscope → String → List String → Map String Grant → Option DeviceScope
device_scope_for off login groups grants = none
device_scope_for by_user login groups grants =
    let l = trim_space login in some (record { owners = if l == "" then [] else l ∷ []; tags = [] })
device_scope_for by_groups login names grants =
    some (record { owners = group_owners names grants; tags = group_tags names grants })

-- DeviceScope.Matches
owner_matches : (String → String) → String → List String → Bool
owner_matches lower login [] = false
owner_matches lower login (owner ∷ owners) =
    let want = lower (trim_space owner) in
    (not (want == "") && login == want) || owner_matches lower login owners

abbrev pub have_tag : (String → String) → List String → String → Bool
have_tag lower [] tag = false
have_tag lower (raw ∷ tags) tag =
    let t = lower (trim_space raw) in (not (t == "") && t == tag) || have_tag lower tags tag

tag_matches : (String → String) → List String → List String → Bool
tag_matches lower have [] = false
tag_matches lower have (tag ∷ tags) =
    let raw = lower (trim_space tag) in
    let bare = trim_prefix "tag:" raw in
    (not (raw == "")
      && (have_tag lower have raw
          || have_tag lower have (append "tag:" bare)
          || have_tag lower have bare))
    || tag_matches lower have tags

unfoldable pub matches : (String → String) → Option DeviceScope → String → List String → Bool
unfolding owner_matches tag_matches
matches lower none login tags = true
matches lower (some s) login tags =
    owner_matches lower (lower (trim_space login)) s.owners || tag_matches lower tags s.tags

-- ===== src/Access/Request.antt =====
-- The parts of backend/internal/access/resolve.go that read one request: headers, the proxy that sent
-- it and the peer that the proxy names. Parsing of addresses and of MIME words is the Go library's.
use Prim.Native.Char.{code}
use tsflow.Prelude.{
  ℕ, String, Bool, false, ◌||◌, ◌&&◌, List, [], ◌∷◌, ◌++◌, Option, none, some, ◌==◌, String_eq, any,
  mem, eqb, if◌then◌else◌, ℕ_eq,
}
use tsflow.Access.Text.{trim_space, append, contains_char, split_at}

-- net/netip, net and mime
pub record Network : Type 1 where
  pub Addr : Type 0
  pub Prefix : Type 0
  pub parse_addr : String → Option Addr
  pub addr_string : Addr → String
  pub split_host_port : String → Option String
  pub contains : Prefix → Addr → Bool
  pub decode_words : String → Option String

pub record Request : Type 0 where
  pub remote_addr : String
  pub header : String → String
  pub header_values : String → List String

abbrev pub header_forwarded : String
header_forwarded = "X-Forwarded-For"

-- strings.Join with a comma
unfoldable pub join : List String → String
unfolding append
join [] = ""
join (v ∷ []) = v
join (v ∷ w ∷ ws) = append v (append "," (join (w ∷ ws)))

-- s[strings.LastIndexByte(s, k)+1:]
unfoldable pub last_segment : ℕ → String → String
unfolding contains_char
last_segment k String.[] = String.[]
last_segment k (String.◌∷◌ c s) =
    let rest = last_segment k s in
    if contains_char k s then rest else if eqb (code c) k then s else String.◌∷◌ c s

-- strings.HasSuffix(s, "]"), and s without that last character
unfoldable pub ends_with : ℕ → String → Bool
ends_with k String.[] = false
ends_with k (String.◌∷◌ c String.[]) = eqb (code c) k
ends_with k (String.◌∷◌ c (String.◌∷◌ d s)) = ends_with k (String.◌∷◌ d s)

unfoldable pub drop_last : String → String
drop_last String.[] = String.[]
drop_last (String.◌∷◌ c String.[]) = String.[]
drop_last (String.◌∷◌ c (String.◌∷◌ d s)) = String.◌∷◌ c (drop_last (String.◌∷◌ d s))

unfoldable pub strip_brackets : String → String
unfolding ends_with drop_last
strip_brackets String.[] = String.[]
strip_brackets (String.◌∷◌ c s) =
    if eqb (code c) b'[' && ends_with b']' s then drop_last s else String.◌∷◌ c s

abbrev or_keep : Option String → String → String
or_keep none s = s
or_keep (some t) s = t

-- decodeHeader
contains_word : String → Bool
contains_word String.[] = false
contains_word (String.◌∷◌ c String.[]) = false
contains_word (String.◌∷◌ c (String.◌∷◌ d s)) =
    (eqb (code c) b'=' && eqb (code d) b'?') || contains_word (String.◌∷◌ d s)

-- splitList, with the names that it has seen as `out`
split_list_from : List String → List String → List String
split_list_from [] out = out
split_list_from (part ∷ parts) out =
    let p = trim_space part in
    split_list_from parts (if p == "" then out else if mem p out then out else out ++ p ∷ [])

unfoldable pub split_list : String → List String
unfolding split_list_from
split_list value = split_list_from (split_at b',' value) []

module _ (net : Network) where
  open net use {Addr, Prefix, parse_addr, addr_string, split_host_port, contains, decode_words}

  unfoldable pub decode_header : String → String
  unfolding contains_word
  decode_header value =
      let v = trim_space value in
      if v == "" then v else if contains_word v then or_keep (decode_words v) v else v

  unfoldable pub remote_address : Request → Option Addr
  remote_address r =
      let host = trim_space r.remote_addr in
      if host == "" then none else parse_addr (or_keep (split_host_port host) host)

  unfoldable pub from_trusted_proxy : Request → List Prefix → Bool
  from_trusted_proxy r prefixes = elim (remote_address r) [
    | none ↦ false
    | some addr ↦ any (λ p. contains p addr) prefixes
  ]

  -- the address of one entry of the forwarded header
  unfoldable pub entry_peer : String → Option String
  entry_peer last =
      if last == ""
      then none
      else elim (parse_addr (or_keep (split_host_port last) (strip_brackets last))) [
        | none ↦ none
        | some addr ↦ some (addr_string addr)
      ]

  -- forwardedPeer; `none` is an error
  unfoldable pub peer_of : List String → Option String
  peer_of [] = none
  peer_of (v ∷ vs) = entry_peer (trim_space (last_segment b',' (join (v ∷ vs))))

  unfoldable pub forwarded_peer : Request → Option String
  unfolding peer_of
  forwarded_peer r = peer_of (r.header_values header_forwarded)

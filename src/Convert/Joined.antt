-- ===== src/Convert/Joined.antt =====
-- `splitEndpoint` of backend/internal/services/log_converter.go reads back what `net.JoinHostPort` writes.
use tsflow.Prelude.{
  ℕ, String, ◌≡◌, refl, ap, ◌∙◌, ◌≢◌, Bool, true, false, some, arith, eqb, ltb, String_eq, ℕ_eq,
  if◌then◌else◌,
}
use Prim.Native.Char.{Char, code}
use tsflow.Access.Text.{append, contains_char}
use tsflow.Access.Forwarded.{contains_char-append}
use tsflow.Convert.Decimal.{Written, contains_char-Written, valid_port-Written}
use tsflow.Convert.Endpoint.{
  cut, one_port, with_port, bracketed, after_bracket, split_host_port, valid_port, split_endpoint,
}

-- net.JoinHostPort
abbrev pub join_host_port : String → String → String
join_host_port host port =
    if contains_char b':' host
    then append "[" (append host (append "]:" port))
    else append host (append ":" port)

-- No bracket
abbrev pub Plain : String → Type 0
Plain s = (contains_char b'[' s ≡ false) × (contains_char b']' s ≡ false)

cut-append :
    (k : ℕ) (s t : String)
    → contains_char k s ≡ false
    → (c : Char) → code c ≡ k
    → cut k (append s (String.◌∷◌ c t)) ≡ some (s, t)
unfolding cut append contains_char
cut-append k String.[] t h c e = rw e (ground arith)
cut-append k (String.◌∷◌ a s) t h c e =
    let same : eqb (code a) k ≡ false = ground (arith, h) in
    rw (same, cut-append k s t (ground (arith, h)) c e) refl

Plain-colon : Plain ":"
unfolding contains_char
Plain-colon = (refl, refl)

bracketed_lem :
    (is_ip : String → Bool) (host port : String)
    → host ≢ ""
    → is_ip host ≡ true
    → bracketed is_ip (some (host, append ":" port)) ≡ some (host, valid_port port)
unfolding append bracketed after_bracket
bracketed_lem is_ip String.[] port named ip = absurd (named refl)
bracketed_lem is_ip (String.◌∷◌ c h) port named ip = rw ip refl

split_host_port-append :
    (host port : String)
    → Plain host
    → contains_char b':' host ≡ false
    → contains_char b':' port ≡ false
    → Plain port
    → split_host_port (append host (append ":" port)) ≡ some (host, port)
unfolding split_host_port append
split_host_port-append host port plain colon single plain' =
    ap (one_port (append host (append ":" port))) (cut-append b':' host port colon ":" refl)
    ∙ ground (
      arith,
      single,
      contains_char-append b'[' host (append ":" port),
      contains_char-append b']' host (append ":" port),
      contains_char-append b'[' ":" port,
      contains_char-append b']' ":" port,
      Plain-colon,
      plain,
      plain',
    )

module _ (is_ip : String → Bool) where
  split_endpoint-joined :
      (host port : String)
      → is_ip (join_host_port host port) ≡ false
      → host ≢ ""
      → Plain host
      → (contains_char b':' host ≡ true → is_ip host ≡ true)
      → contains_char b':' port ≡ false
      → Plain port
      → split_endpoint is_ip (join_host_port host port) ≡ some (host, valid_port port)
  unfolding split_endpoint append
  split_endpoint-joined String.[] port no_ip named plain colon single plain' = absurd (named refl)
  split_endpoint-joined (String.◌∷◌ c h) port no_ip named plain colon single plain' =
      by_colon (contains_char b':' (String.◌∷◌ c h)) refl no_ip
    where
      first : eqb (code c) b'[' ≡ false
      first = unfold contains_char in ground (arith, plain)

      by_colon :
          (b : Bool)
          → contains_char b':' (String.◌∷◌ c h) ≡ b
          → is_ip (
              if b
              then append "[" (append (String.◌∷◌ c h) (append "]:" port))
              else append (String.◌∷◌ c h) (append ":" port))
            ≡ false
          → split_endpoint is_ip (
              if b
              then append "[" (append (String.◌∷◌ c h) (append "]:" port))
              else append (String.◌∷◌ c h) (append ":" port))
            ≡ some (String.◌∷◌ c h, valid_port port)
      by_colon true e g = rw g (
          ap (bracketed is_ip) (cut-append b']' (String.◌∷◌ c h) (append ":" port) plain.1 "]" refl)
          ∙ bracketed_lem is_ip (String.◌∷◌ c h) port named (colon e))
      by_colon false e g =
          rw (g, first)
            (ap with_port (split_host_port-append (String.◌∷◌ c h) port plain e single plain'))

  -- An address that is joined to the decimal text of a port, in brackets when it has a colon, is read back
  -- with the number of the port, or 0 where that is above 65535, when the whole is no IP address, the host
  -- is not blank and has no bracket, and a host with a colon is an IP address.
  pub split_endpoint-join_host_port :
      (host port : String) (n : ℕ)
      → Written port n
      → is_ip (join_host_port host port) ≡ false
      → host ≢ ""
      → Plain host
      → (contains_char b':' host ≡ true → is_ip host ≡ true)
      → split_endpoint is_ip (join_host_port host port) ≡ some (host, if ltb 65535 n then 0 else n)
  split_endpoint-join_host_port host port n w no_ip named plain colon =
      let without = contains_char-Written port n w in
      split_endpoint-joined host port no_ip named plain colon (without b':' (omega arith))
        (without b'[' (omega arith), without b']' (omega arith))
      ∙ ap (λ p. some (host, p)) (valid_port-Written port n w)

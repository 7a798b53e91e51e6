-- ===== src/Access/Forwarded.antt =====
-- The peer that a trusted proxy names, by backend/internal/access/resolve.go: only the entry that the
-- nearest proxy appended counts, whatever the client put before it.
use Prim.Native.Char.{Char}
use tsflow.Prelude.{
  ℕ, ◌⊎◌, String, ◌≡◌, refl, ◌∙◌, ap, true, false, ◌||◌, List, [], ◌∷◌, ◌++◌, arith, inl, inr,
}
use tsflow.Access.Text.{trim_space, append, contains_char}
use tsflow.Access.Request.{
  Network, Request, header_forwarded, join, last_segment, entry_peer, peer_of, forwarded_peer,
}

pub contains_char-append :
    (k : ℕ) (s t : String) → contains_char k (append s t) ≡ (contains_char k s || contains_char k t)
unfolding contains_char append
contains_char-append k String.[] t = refl
contains_char-append k (String.◌∷◌ c s) t = ground (arith, contains_char-append k s t)

comma_in : (t : String) → contains_char b',' (append "," t) ≡ true
unfolding contains_char append
comma_in t = refl

last_segment_whole : (t : String) → contains_char b',' t ≡ false → last_segment b',' t ≡ t
unfolding last_segment contains_char
last_segment_whole String.[] h = refl
last_segment_whole (String.◌∷◌ c t) h = ground arith

last_segment-comma : (t : String) → last_segment b',' (append "," t) ≡ last_segment b',' t
unfolding last_segment append
last_segment-comma t = ground (arith, last_segment_whole t)

-- a comma further on: the first character is in no last segment
last_segment-skip :
    (c : Char) (s : String)
    → contains_char b',' s ≡ true
    → last_segment b',' (String.◌∷◌ c s) ≡ last_segment b',' s
unfolding last_segment
last_segment-skip c s h = rw h

comma_inside : (s t : String) → contains_char b',' (append s (append "," t)) ≡ true
comma_inside s t = ground (arith, contains_char-append b',' s (append "," t), comma_in t)

last_segment-append :
    (s t : String) → last_segment b',' (append s (append "," t)) ≡ last_segment b',' t
unfolding append
last_segment-append String.[] t = last_segment-comma t
last_segment-append (String.◌∷◌ c s) t =
    last_segment-skip c (append s (append "," t)) (comma_inside s t) ∙ last_segment-append s t

-- Every earlier header line is the client's, and is passed over.
last_segment-join :
    (earlier : List String) (v : String)
    → last_segment b',' (join (earlier ++ v ∷ [])) ≡ last_segment b',' v
unfolding join
last_segment-join [] v = refl
last_segment-join (u ∷ []) v = last_segment-append u v
last_segment-join (u ∷ w ∷ ws) v =
    last_segment-append u (join (w ∷ ws ++ v ∷ [])) ∙ last_segment-join (w ∷ ws) v

module _ (net : Network) where
  peer_of-last :
      (earlier : List String) (v : String)
      → peer_of net (earlier ++ v ∷ []) ≡ entry_peer net (trim_space (last_segment b',' v))
  unfolding peer_of
  peer_of-last [] v = ap (λ (t : String). entry_peer net (trim_space t)) (last_segment-join [] v)
  peer_of-last (u ∷ us) v =
      ap (λ (t : String). entry_peer net (trim_space t)) (last_segment-join (u ∷ us) v)

  -- The proxy's own entry decides the peer, whether it is a header line of its own or was appended to
  -- the line of the client, and whatever lines and entries the client sent before it.
  pub forwarded_peer-last :
      (r : Request) (earlier : List String) (client entry : String)
      → (r.header_values header_forwarded ≡ earlier ++ entry ∷ [])
        ⊎ (r.header_values header_forwarded ≡ earlier ++ append client (append "," entry) ∷ [])
      → contains_char b',' entry ≡ false
      → forwarded_peer net r ≡ entry_peer net (trim_space entry)
  unfolding forwarded_peer
  forwarded_peer-last r earlier client entry (inl e) h = rw e (
      peer_of-last earlier entry
      ∙ ap (λ (t : String). entry_peer net (trim_space t)) (last_segment_whole entry h))
  forwarded_peer-last r earlier client entry (inr e) h = rw e (
      peer_of-last earlier (append client (append "," entry))
      ∙ ap (λ (t : String). entry_peer net (trim_space t))
          (last_segment-append client entry ∙ last_segment_whole entry h))

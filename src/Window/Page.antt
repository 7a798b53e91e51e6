-- ===== src/Window/Page.antt =====
-- Paging: `parsePage` and `page` of backend/internal/mcpserver/window.go.
use tsflow.Prelude.{
  ℕ, zero, suc, ◌+◌, ◌-◌, ◌≤◌, ◌<◌, ◌≡◌, refl, sym, ap, ◌∙◌, subst, ◌↔◌, inl, inr, Bool, true,
  false, List, [], ◌∷◌, ◌++◌, arith, eqb, ltb, leb, String_eq, ℕ_eq, if◌then◌else◌, length, take,
  drop, Bool-cases,
}

-- Go integers: `pos n` is n and `negsuc n` is - (n + 1).
pub data ℤ : Type 0 where
  pos negsuc : ℕ → ℤ

pub data PageError : Type 0 where
  limit_not_positive offset_out_of_range : PageError

pub data ParsedPage : Type 0 where
  limit_offset : ℕ → ℕ → ParsedPage
  refused : PageError → ParsedPage

abbrev pub default_limit : ℕ
default_limit = 20

abbrev pub max_limit : ℕ
max_limit = 100

abbrev pub max_offset : ℕ
max_offset = 1000

unfoldable pub with_offset : ℕ → ℤ → ParsedPage
with_offset limit (negsuc n) = refused offset_out_of_range
with_offset limit (pos offset) =
    if ltb max_offset offset then refused offset_out_of_range else limit_offset limit offset

unfoldable pub parse_page : ℤ → ℤ → ParsedPage
parse_page (negsuc n) offset = refused limit_not_positive
parse_page (pos limit) offset =
    let n = (if eqb limit 0 then default_limit else limit) in
    with_offset (if ltb max_limit n then max_limit else n) offset

module _ {ℓ} {A : Type ℓ} where
  -- items[offset:end]
  abbrev slice : ℕ → ℕ → List A → List A
  slice offset end items = take (end - offset) (drop offset items)

  unfoldable pub page : List A → ℕ → ℕ → List A × Bool
  page items offset limit = if leb (length items) offset then ([], false) else (
    slice offset (if ltb (length items) (offset + limit) then length items else offset + limit)
        items,
    ltb (offset + limit) (length items),
  )

  take-all : (xs : List A) (n : ℕ) → length xs ≤ n → take n xs ≡ xs
  take-all [] zero h = refl
  take-all [] (suc n) h = refl
  take-all (x ∷ xs) zero h = ground (arith, h)
  take-all (x ∷ xs) (suc n) h = ap (λ ys. x ∷ ys) (take-all xs n (omega (arith, h)))

  length-drop : (xs : List A) (n : ℕ) → length (drop n xs) ≡ length xs - n
  length-drop [] zero = omega arith
  length-drop [] (suc n) = omega arith
  length-drop (x ∷ xs) zero = omega arith
  length-drop (x ∷ xs) (suc n) = omega (arith, length-drop xs n)

  take-drop : (xs : List A) (n : ℕ) → take n xs ++ drop n xs ≡ xs
  take-drop xs zero = refl
  take-drop [] (suc n) = refl
  take-drop (x ∷ xs) (suc n) = ap (λ ys. x ∷ ys) (take-drop xs n)

  drop-nil : (n : ℕ) → drop {A = A} n [] ≡ []
  drop-nil zero = refl
  drop-nil (suc n) = refl

  drop-drop : (xs : List A) (m n : ℕ) → drop n (drop m xs) ≡ drop (m + n) xs
  drop-drop xs zero n = ap (λ k. drop k xs) (omega arith)
  drop-drop [] (suc m) n = drop-nil n ∙ sym (drop-nil (suc m + n))
  drop-drop (x ∷ xs) (suc m) n =
      let e : suc (m + n) ≡ suc m + n = omega arith in
      drop-drop xs m n ∙ ap (λ k. drop k (x ∷ xs)) e

  drop-all : (xs : List A) (n : ℕ) → length xs ≤ n → drop n xs ≡ []
  drop-all [] n h = drop-nil n
  drop-all (x ∷ xs) zero h = ground (arith, h)
  drop-all (x ∷ xs) (suc n) h = drop-all xs n (omega (arith, h))

  page-take :
      (items : List A) (offset limit : ℕ)
      → (page items offset limit).0 ≡ take limit (drop offset items)
  unfolding page
  page-take items offset limit = elim (Bool-cases (leb (length items) offset)) [
    | inl past ↦
        rw (past, drop-all items offset (ground (arith, past)))
          (sym (take-all [] limit (omega arith)))
    | inr past ↦ elim (Bool-cases (ltb (length items) (offset + limit))) [
      | inl over ↦
          rw (past, over)
            (take-all (drop offset items) (length items - offset)
                (omega (arith, length-drop items offset))
              ∙ sym (
                  take-all (drop offset items) limit
                    (ground (arith, over, length-drop items offset))))
      | inr over ↦ let e : offset + limit - offset ≡ limit = omega arith in rw (past, over, e) refl
    ]
  ]

  length-take : (xs : List A) (n : ℕ) → length (take n xs) ≤ n
  length-take xs zero = omega arith
  length-take [] (suc n) = omega arith
  length-take (x ∷ xs) (suc n) = omega (arith, length-take xs n)

  page-more :
      (items : List A) (offset limit : ℕ)
      → (page items offset limit).1 ≡ ltb (offset + limit) (length items)
  unfolding page
  page-more items offset limit = elim (Bool-cases (leb (length items) offset)) [
    | inl past ↦ rw past (ground (arith, past))
    | inr past ↦ rw past refl
  ]

  -- A page has at most `limit` items, it and what stands after it are the items from the offset on,
  -- and there is more exactly if something stands after it.
  pub page_lem :
      (items : List A) (offset limit : ℕ)
      → (length (page items offset limit).0 ≤ limit)
        × ((page items offset limit).0 ++ drop (offset + limit) items ≡ drop offset items)
        × (((page items offset limit).1 ≡ true) ↔ (0 < length (drop (offset + limit) items)))
  page_lem items offset limit =
      let t = page-take items offset limit in
      let m = page-more items offset limit in
      (
        subst (λ xs. length xs ≤ limit) (sym t) (length-take (drop offset items) limit),
        ap (λ xs. xs ++ drop (offset + limit) items) t
            ∙ ap (λ xs. take limit (drop offset items) ++ xs) (sym (drop-drop items offset limit))
            ∙ take-drop (drop offset items) limit,
        ground (arith, m, length-drop items (offset + limit)),
      )

abbrev pub PageInBounds : ℤ → ℤ → ParsedPage → Type 0
PageInBounds limit offset (limit_offset l o) =
    (0 < l) × (l ≤ max_limit) × (o ≤ max_offset) × (offset ≡ pos o)
PageInBounds (negsuc n) offset (refused e) = e ≡ limit_not_positive
PageInBounds (pos n) (negsuc m) (refused e) = e ≡ offset_out_of_range
PageInBounds (pos n) (pos m) (refused e) = (e ≡ offset_out_of_range) × (max_offset < m)

with_offset-PageInBounds :
    (n l : ℕ) (offset : ℤ)
    → 0 < l
    → l ≤ max_limit
    → PageInBounds (pos n) offset (with_offset l offset)
unfolding with_offset
with_offset-PageInBounds n l (negsuc m) lo hi = refl
with_offset-PageInBounds n l (pos m) lo hi = elim (Bool-cases (ltb max_offset m)) [
  | inl far ↦ rw far (refl, ground (arith, far))
  | inr far ↦ rw far (lo, hi, ground (arith, far), refl)
]

-- The page of any two integers has between 1 and 100 items from 1000 at most on, at the given offset; only a
-- limit below zero, and an offset below zero or above 1000, are refused.
pub parse_page-PageInBounds :
    (limit offset : ℤ) → PageInBounds limit offset (parse_page limit offset)
unfolding parse_page
parse_page-PageInBounds (negsuc n) offset = refl
parse_page-PageInBounds (pos n) offset =
    let l = (if eqb n 0 then default_limit else n) in
    with_offset-PageInBounds n (if ltb max_limit l then max_limit else l) offset (ground arith)
      (ground arith)

-- ===== src/Api/Page/Pages.antt =====
-- One page: what `paginate` returns, against the entries above the cursor.
use route_prism.Common.{
  ℕ, zero, suc, ◌+◌, ◌-◌, ◌<◌, ◌≡◌, refl, sym, ap, ◌∙◌, min, true, false, not, ◌&&◌, inl, inr, List,
  [], ◌∷◌, arith, leb, ltb, if◌then◌else◌, Bool-cases, length, get_or, get_last_or, take, drop,
  filter, All, filter-All, Str, str_eq, str_ltb, is_empty, length-drop, length-take, drop_of_le,
  str_ltb_asymm, str_eq_iff, str_ltb_irrefl, str_ltb_total, str_ltb_trans, take_of_le,
}
use route_prism.Common.Search.{first_true, search_index-eq-first_true}
use route_prism.Common.Strict.{IsStrict, IsStrict-IsSorted, IsSorted-IsUpward}
use route_prism.Api.Cursor.{encode_cursor}
use route_prism.Api.Page.{start_index, paginate_by}

above_of_ne : (c x : Str) → str_ltb x c ≡ false → str_eq x c ≡ false → str_ltb c x ≡ true
above_of_ne c x h e = elim (Bool-cases (str_ltb c x)) [
  | inl k ↦ k
  | inr k ↦ cc (e, (str_eq_iff x c).1 (str_ltb_total x c h k))
]

module _ {ℓ} {A : Type ℓ} (key : A → Str) (d : A) where
  -- The entries that a cursor leaves to be listed.
  abbrev pub after : Str → List A → List A
  after cursor xs = if is_empty cursor then xs else filter (λ x. str_ltb cursor (key x)) xs

  above-All :
      (c : Str) (x : A) (xs : List A)
      → str_ltb (key x) c ≡ false
      → All (λ y. str_ltb (key x) (key y) ≡ true) xs
      → All (λ y. str_ltb c (key y) ≡ true) xs
  above-All c x [] h a = tt
  above-All c x (y ∷ ys) h (a, as') = (
    elim (Bool-cases (str_ltb c (key x))) [
      | inl k ↦ str_ltb_trans c (key x) (key y) k a
      | inr k ↦ rw (← str_ltb_total (key x) c h k) a
    ],
    above-All c x ys h as',
  )

  abbrev skip : Str → List A → ℕ
  skip c xs =
      let i = first_true (λ x. not (str_ltb (key x) c)) xs in
      if ltb i (length xs) && str_eq (key (get_or xs i d)) c then i + 1 else i

  drop-skip :
      (c : Str) (xs : List A)
      → IsStrict key xs
      → drop (skip c xs) xs ≡ filter (λ x. str_ltb c (key x)) xs
  drop-skip c [] h = refl
  drop-skip c (x ∷ xs) (h, hs) =
      let i = first_true (λ y. not (str_ltb (key y) c)) xs in
      let next : suc i + 1 ≡ suc (i + 1) = omega arith in
      elim (Bool-cases (str_ltb (key x) c)) [
        | inl below ↦
            let past : str_ltb c (key x) ≡ false = str_ltb_asymm (key x) c below in
            let same : ltb (suc i) (suc (length xs)) ≡ ltb i (length xs) = ground arith in
            elim (Bool-cases (ltb i (length xs) && str_eq (key (get_or xs i d)) c)) [
              | inl e ↦ rw (below, past, same, e, next) (rw e at (drop-skip c xs hs))
              | inr e ↦ rw (below, past, same, e) (rw e at (drop-skip c xs hs))
            ]
        | inr not_below ↦
            let rest = filter-All (λ y. str_ltb c (key y)) xs (above-All c x xs not_below h) in
            let far : ltb 0 (suc (length xs)) ≡ true = ground arith in
            elim (Bool-cases (str_eq (key x) c)) [
              | inl e ↦
                  let same : str_ltb c (key x) ≡ false =
                    rw ((str_eq_iff (key x) c).0 e) (str_ltb_irrefl c) in
                  rw (not_below, far, e, same, rest)
              | inr e ↦
                  let above : str_ltb c (key x) ≡ true = above_of_ne c (key x) not_below e in
                  rw (not_below, far, e, above, rest)
            ]
      ]

  start_index_lem :
      (c : Str) (xs : List A) → IsStrict key xs → drop (start_index key d xs c) xs ≡ after c xs
  unfolding start_index
  start_index_lem c xs h = elim (Bool-cases (is_empty c)) [
    | inl e ↦ rw e
    | inr e ↦
        rw
          (
            e,
            search_index-eq-first_true (λ x. not (str_ltb (key x) c)) d xs
                (IsSorted-IsUpward key c xs (IsStrict-IsSorted key xs h)),
          )
          (drop-skip c xs h)
  ]

  take-nil : (n : ℕ) → take {A = A} n [] ≡ []
  take-nil zero = refl
  take-nil (suc n) = refl

  take-min : (n m : ℕ) (xs : List A) → m ≡ min n (length xs) → take m xs ≡ take n xs
  take-min n m xs e = elim (Bool-cases (leb n (length xs))) [
    | inl short ↦ let same : m ≡ n = ground arith in rw same
    | inr long ↦ take_of_le m xs (ground arith) ∙ sym (take_of_le n xs (ground arith))
  ]

  -- The page and the cursor from the entries that are left to be listed.
  abbrev pub page_of : ℕ → List A → List A × Str
  page_of limit rest = (
    take limit rest,
    if ltb limit (length rest) then encode_cursor (key (get_last_or (take limit rest) d)) else [],
  )

  abbrev pub page_from : List A → ℕ → ℕ → List A × Str
  page_from xs start limit =
      let end = min (start + limit) (length xs) in
      let page = take (end - start) (drop start xs) in
      if leb (length xs) start then ([], []) else (
        page,
        if ltb end (length xs) && ltb 0 (length page)
            then encode_cursor (key (get_last_or page d))
            else [],
      )

  pub page_from_lem :
      (xs : List A) (start limit : ℕ)
      → 0 < limit
      → page_from xs start limit ≡ page_of limit (drop start xs)
  page_from_lem xs start limit pos =
      let rest = drop start xs in
      let left : length rest ≡ length xs - start = length-drop start xs in
      elim (Bool-cases (leb (length xs) start)) [
        | inl out ↦
            let stop : ltb limit 0 ≡ false = ground arith in
            rw (out, drop_of_le start xs (ground arith), take-nil limit, stop)
        | inr within ↦
            let page =
              take-min limit (min (start + limit) (length xs) - start) rest
                (ground (arith, left)) in
            let more : (ltb (min (start + limit) (length xs)) (length xs)
                  && ltb 0 (length (take limit rest)))
                ≡ ltb limit (length rest) =
              ground (arith, left, length-take limit rest) in
            rw (within, page, more)
      ]

  pub paginate_by_lem :
      (xs : List A) (cursor : Str) (limit : ℕ)
      → IsStrict key xs
      → 0 < limit
      → paginate_by key d xs cursor limit ≡ page_of limit (after cursor xs)
  unfolding paginate_by
  paginate_by_lem xs cursor limit h pos =
      page_from_lem xs (start_index key d xs cursor) limit pos
      ∙ ap (page_of limit) (start_index_lem cursor xs h)

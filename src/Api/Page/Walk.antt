-- ===== src/Api/Page/Walk.antt =====
-- A client that follows `nextCursor` from page to page.
use route_prism.Common.{
  ℕ, zero, suc, ◌<◌, ◌≡◌, refl, sym, ap, ◌∙◌, Bool, true, false, inl, inr, Option, none, some, List,
  [], ◌∷◌, ◌++◌, arith, ltb, if◌then◌else◌, Bool-cases, length, get_last_or, take, drop, filter,
  All, Str, str_eq_self, not, str_ltb, is_empty, length-drop, take-append-drop, filter-All,
  filter-passes, take_of_le, filter-congr, filter-filter, All-filter, All-take, All-intro,
  All-get_last_or, str_ltb_irrefl, str_ltb_asymm, str_ltb_trans,
}
use route_prism.Common.Strict.{IsSorted, IsStrict, IsStrict-filter, IsSorted-IsUpward}
use route_prism.Common.Search.{search_index-eq-first_true}
use route_prism.Api.Cursor.{
  encode_cursor, decode_cursor, decode_cursor-encode_cursor, encode_cursor-empty, IsBytes,
}
use route_prism.Api.Page.{start_index, paginate_by}
use route_prism.Api.Page.Pages.{after, paginate_by_lem, page_from, page_from_lem}

module _ {ℓ} {A : Type ℓ} (key : A → Str) (d : A) where
  abbrev pub follow : List A → Bool → Option (List A) → Option (List A)
  follow page true more = some page
  follow page false none = none
  follow page false (some more) = some (page ++ more)

  -- All entries that the pages show, from a decoded cursor on; `none` if `n` requests do not reach
  -- a page without a next cursor.
  unfoldable pub walk : ℕ → ℕ → List A → Str → Option (List A)
  walk limit zero xs cursor = none
  walk limit (suc n) xs cursor =
      let reply = paginate_by key d xs cursor limit in
      follow reply.0 (is_empty reply.1) (walk limit n xs (decode_cursor reply.1))

  -- Every key can be a cursor: it is a byte string, and not the empty one.
  abbrev pub HasCursors : List A → Type 0
  HasCursors xs = All (λ x. (is_empty (key x) ≡ false) × IsBytes (key x)) xs

  -- Above the last of the first entries stand the others.
  filter-last :
      (n : ℕ) (x : A) (xs : List A)
      → IsStrict key (x ∷ xs)
      → filter (λ y. str_ltb (key (get_last_or (take n xs) x)) (key y)) (x ∷ xs) ≡ drop n xs
  filter-last zero x xs (h, hs) = rw (str_ltb_irrefl (key x)) (filter-All _ xs h)
  filter-last (suc n) x [] h = rw (str_ltb_irrefl (key x))
  filter-last (suc n) x (y ∷ ys) ((h, hs), (k, ks)) =
      let last = get_last_or (take n ys) y in
      let above : str_ltb (key x) (key last) ≡ true =
        All-get_last_or (λ z. str_ltb (key x) (key z) ≡ true) (take n ys) y h
          (All-take _ n ys hs) in
      rw (str_ltb_asymm (key x) (key last) above) (filter-last n y ys (k, ks))

  -- Above an entry that the cursor leaves, the cursor takes nothing away.
  filter-after :
      (c e : Str) (xs : List A)
      → (is_empty c ≡ false → str_ltb c e ≡ true)
      → filter (λ x. str_ltb e (key x)) (after key d c xs) ≡ filter (λ x. str_ltb e (key x)) xs
  filter-after c e xs h = elim (Bool-cases (is_empty c)) [
    | inl k ↦ rw k
    | inr k ↦
        let above : str_ltb c e ≡ true = h k in
        rw k (
          filter-filter (λ x. str_ltb e (key x)) (λ x. str_ltb c (key x)) xs
          ∙ filter-congr _ _ xs (All-intro _ (λ x. ground (arith, str_ltb_trans c e (key x))) xs))
  ]

  after-passes :
      (c : Str) (xs : List A)
      → is_empty c ≡ false
      → All (λ x. str_ltb c (key x) ≡ true) (after key d c xs)
  after-passes c xs e = rw e (filter-passes (λ x. str_ltb c (key x)) xs)

  after-IsStrict : (c : Str) (xs : List A) → IsStrict key xs → IsStrict key (after key d c xs)
  after-IsStrict c xs h = elim (Bool-cases (is_empty c)) [
    | inl e ↦ rw e h
    | inr e ↦ rw e (IsStrict-filter key _ xs h)
  ]

  after-HasCursors : (c : Str) (xs : List A) → HasCursors xs → HasCursors (after key d c xs)
  after-HasCursors c xs h = elim (Bool-cases (is_empty c)) [
    | inl e ↦ rw e h
    | inr e ↦ rw e (All-filter _ _ xs h)
  ]

  abbrev last_key : ℕ → List A → Str
  last_key limit rest = key (get_last_or (take limit rest) d)

  last-All {κ} :
      (P : A → Type κ) (n : ℕ) (rest : List A)
      → All P rest
      → suc n < length rest
      → P (get_last_or (take (suc n) rest) d)
  last-All P n [] h l = elim l [ ]
  last-All P n (x ∷ xs) (h, hs) l = All-get_last_or P (take n xs) x h (All-take P n xs hs)

  filter-last_key :
      (n : ℕ) (rest : List A)
      → IsStrict key rest
      → suc n < length rest
      → filter (λ y. str_ltb (last_key (suc n) rest) (key y)) rest ≡ drop (suc n) rest
  filter-last_key n [] h l = elim l [ ]
  filter-last_key n (x ∷ xs) h l = filter-last n x xs h

  module _ (xs : List A) (cursor : Str) (n : ℕ) (strict : IsStrict key xs) (has : HasCursors xs)
      (more : suc n < length (after key d cursor xs)) where
    last_cursor :
        (is_empty (last_key (suc n) (after key d cursor xs)) ≡ false)
        × IsBytes (last_key (suc n) (after key d cursor xs))
    last_cursor =
        last-All (λ z. (is_empty (key z) ≡ false) × IsBytes (key z)) n _
          (after-HasCursors cursor xs has) more

    -- The next page starts where this one ends.
    next_page :
        after key d (last_key (suc n) (after key d cursor xs)) xs
        ≡ drop (suc n) (after key d cursor xs)
    next_page =
        let last = last_key (suc n) (after key d cursor xs) in
        ap (λ b. if b then xs else filter (λ x. str_ltb last (key x)) xs) last_cursor.0
        ∙ sym (
            filter-after cursor last xs (λ e.
              last-All (λ z. str_ltb cursor (key z) ≡ true) n _ (after-passes cursor xs e) more))
        ∙ filter-last_key n _ (after-IsStrict cursor xs strict) more

  -- From any cursor on, the pages show the entries above it, once each and in order.
  walk_from :
      (limit n : ℕ) (xs : List A) (cursor : Str)
      → length (after key d cursor xs) < n
      → IsStrict key xs
      → HasCursors xs
      → 0 < limit
      → walk limit n xs cursor ≡ some (after key d cursor xs)
  unfolding walk
  walk_from limit zero xs cursor l h c pos = elim l [ ]
  walk_from zero (suc n) xs cursor l h c pos = elim pos [ ]
  walk_from (suc k) (suc n) xs cursor l h c pos =
      let rest = after key d cursor xs in
      let last = last_key (suc k) rest in
      elim (Bool-cases (ltb (suc k) (length rest))) [
        | inr end ↦
            rw (paginate_by_lem key d xs cursor (suc k) h pos, end)
              (ap some (take_of_le (suc k) rest (ground arith)))
        | inl more ↦
            let l' : suc k < length rest = ground arith in
            let (full, bytes) = last_cursor xs cursor k h c l' in
            let there : after key d last xs ≡ drop (suc k) rest = next_page xs cursor k h c l' in
            let ih : walk (suc k) n xs last ≡ some (drop (suc k) rest) =
              walk_from (suc k) n xs last (rw (there, length-drop (suc k) rest) (omega arith)) h c
                pos
              ∙ ap some there in
            rw
              (
                paginate_by_lem key d xs cursor (suc k) h pos,
                more,
                encode_cursor-empty last,
                full,
                decode_cursor-encode_cursor last bytes,
                ih,
              )
              (ap some (take-append-drop (suc k) rest))
      ]

  -- A client that asks for pages of any positive size from the start, and follows each next cursor,
  -- gets every entry exactly once and in order, within one request more than there are entries;
  -- the list is strictly sorted by key, and each key is a byte string that is not empty.
  pub walk-all :
      (limit : ℕ) (xs : List A)
      → IsStrict key xs
      → HasCursors xs
      → 0 < limit
      → walk limit (suc (length xs)) xs [] ≡ some xs
  walk-all limit xs h c pos = walk_from limit (suc (length xs)) xs [] (omega arith) h c pos

  module _ (a b c : A) (xs : List A) (sorted : IsSorted key (a ∷ b ∷ c ∷ xs)) (same : key a ≡ key b)
      (full : is_empty (key a) ≡ false) (bytes : IsBytes (key a)) where
    abbrev doubled : List A
    doubled = a ∷ b ∷ c ∷ xs

    doubled_start : start_index key d doubled (key a) ≡ 1
    unfolding start_index
    doubled_start =
        let found =
          search_index-eq-first_true (λ x. not (str_ltb (key x) (key a))) d doubled
            (IsSorted-IsUpward key (key a) doubled sorted) in
        rw (full, found, str_ltb_irrefl (key a), str_eq_self (key a)) (ground arith)

    more : (n : ℕ) → ltb 1 (suc (suc n)) ≡ true
    more n = ground arith

    doubled_page : paginate_by key d doubled (key a) 1 ≡ (b ∷ [], encode_cursor (key a))
    unfolding paginate_by
    doubled_page =
        ap (λ start. page_from key d doubled start 1) doubled_start
        ∙ page_from_lem key d doubled 1 1 (omega arith)
        ∙ (rw (more (length xs), same))

    first_page : paginate_by key d doubled [] 1 ≡ (a ∷ [], encode_cursor (key a))
    unfolding paginate_by start_index
    first_page = page_from_lem key d doubled 0 1 (omega arith) ∙ (rw (more (suc (length xs))))

    doubled_cursor : is_empty (encode_cursor (key a)) ≡ false
    doubled_cursor = encode_cursor-empty (key a) ∙ full

    walk-doubled_from : (n : ℕ) → walk 1 n doubled (key a) ≡ none
    unfolding walk
    walk-doubled_from zero = refl
    walk-doubled_from (suc n) = rw (
      doubled_page,
      doubled_cursor,
      decode_cursor-encode_cursor (key a) bytes,
      walk-doubled_from n,
    )

    walk-doubled_start : (n : ℕ) → walk 1 n doubled [] ≡ none
    unfolding walk
    walk-doubled_start zero = refl
    walk-doubled_start (suc n) =
        rw (
          first_page,
          doubled_cursor,
          decode_cursor-encode_cursor (key a) bytes,
          walk-doubled_from n,
        )

-- If the list is sorted and begins with two equal keys, and another entry follows, a client that
-- asks for pages of size one never reaches a page without a next cursor, however many requests it
-- makes.
pub walk-doubled {ℓ} :
    {A : Type ℓ} (key : A → Str) (d a b c : A) (xs : List A) (n : ℕ)
    → IsSorted key (a ∷ b ∷ c ∷ xs)
    → key a ≡ key b
    → is_empty (key a) ≡ false
    → IsBytes (key a)
    → walk key d 1 n (a ∷ b ∷ c ∷ xs) [] ≡ none
walk-doubled key d a b c xs n sorted same full bytes =
    walk-doubled_start key d a b c xs sorted same full bytes n

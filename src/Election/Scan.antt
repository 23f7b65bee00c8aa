-- ===== src/Election/Scan.antt =====
-- What the loop `scan` elects.
use mathlib.Core.List.{Memᴰ}
use route_prism.Common.{
  ◌≡◌, ◌⊎◌, refl, Bool, true, false, ◌&&◌, inl, inr, none, some, List, [], ◌∷◌, arith, Bool-cases,
  All,
}
use route_prism.Kube.Types.{ContextRoute, older}
use route_prism.Election.{scan}
use route_prism.Election.Order.{older_irrefl, older_asymm, older_total, not_older_trans}

-- No element that passes the test is older than `w`.
abbrev pub Unbeaten : (ContextRoute → Bool) → ContextRoute → List ContextRoute → Type 0
Unbeaten p w xs = All (λ x. p x ≡ true → older x w ≡ false) xs

-- The elected one passes the test, stands in the list, and is unbeaten there.
pub record IsElected (p : ContextRoute → Bool) (xs : List ContextRoute) (w : ContextRoute)
    : Type 0 where
  pub passes : p w ≡ true
  pub listed : Memᴰ w xs
  pub unbeaten : Unbeaten p w xs

module _ (p : ContextRoute → Bool) where
  scan-some :
      (w : ContextRoute) (xs : List ContextRoute)
      → (r : ContextRoute) × (scan p (some w) xs ≡ some r)
        × ((r ≡ w) ⊎ ((p r ≡ true) × Memᴰ r xs))
        × (older w r ≡ false)
        × Unbeaten p r xs
  unfolding scan
  scan-some w [] = (w, refl, inl refl, older_irrefl w, tt)
  scan-some w (x ∷ xs) = elim (Bool-cases (p x && older x w)) [
    | inl e ↦
        let (r, found, from, stays, rest) = scan-some x xs in
        let younger : older w x ≡ false = older_asymm x w (ground arith) in
        (
          r,
          rw e found,
          inr (elim from [
            | inl same ↦ rw same (ground arith, Memᴰ.head refl)
            | inr (passes, m) ↦ (passes, Memᴰ.tail m)
          ]),
          not_older_trans r x w stays younger,
          ((λ _. stays), rest),
        )
    | inr e ↦
        let (r, found, from, stays, rest) = scan-some w xs in
        (
          r,
          rw e found,
          elim from [ inl same ↦ inl same | inr (passes, m) ↦ inr (passes, Memᴰ.tail m) ],
          stays,
          ((λ px. not_older_trans r w x stays (ground arith)), rest),
        )
  ]

  -- The loop elects nobody if nothing passes the test, and else an unbeaten element that passes.
  pub scan_lem :
      (xs : List ContextRoute)
      → ((scan p none xs ≡ none) × All (λ x. p x ≡ false) xs)
        ⊎ ((w : ContextRoute) × (scan p none xs ≡ some w) × IsElected p xs w)
  unfolding scan
  scan_lem [] = inl (refl, tt)
  scan_lem (x ∷ xs) = elim (Bool-cases (p x)) [
    | inl e ↦
        let (r, found, from, stays, rest) = scan-some x xs in
        inr (
          r,
          rw e found,
          elim from [
            | inl same ↦ record {
              passes = rw same e;
              listed = rw same (Memᴰ.head refl);
              unbeaten = ((λ _. stays), rest);
            }
            | inr (passes, m) ↦ record {
              passes = passes;
              listed = Memᴰ.tail m;
              unbeaten = ((λ _. stays), rest);
            }
          ],
        )
    | inr e ↦ elim (scan_lem xs) [
      | inl (nobody, h) ↦ inl (rw e nobody, (e, h))
      | inr (w, found, elected) ↦ inr (
        w,
        rw e found,
        record {
          passes = elected.passes;
          listed = Memᴰ.tail elected.listed;
          unbeaten = ((λ px. cc (e, px)), elected.unbeaten);
        },
      )
    ]
  ]

  -- The one whom the loop elects passes the test, stands in the list, and nobody there who passes
  -- the test is older.
  pub scan-IsElected :
      (xs : List ContextRoute) (w : ContextRoute) → scan p none xs ≡ some w → IsElected p xs w
  scan-IsElected xs w h = elim (scan_lem xs) [
    | inl (nobody, _) ↦ cc (h, nobody)
    | inr (v, found, elected) ↦ let same : v ≡ w = cc (h, found) in rw (← same) elected
  ]

pub All-Memᴰ :
    (P : ContextRoute → Type 0) {x : ContextRoute} {xs : List ContextRoute}
    → Memᴰ x xs
    → All P xs
    → P x
All-Memᴰ P (Memᴰ.head e) (h, hs) = rw e h
All-Memᴰ P (Memᴰ.tail m) (h, hs) = All-Memᴰ P m hs

-- Two elected ones were created together and have one name.
pub IsElected-agree :
    {p : ContextRoute → Bool} {xs : List ContextRoute} {a b : ContextRoute}
    → IsElected p xs a
    → IsElected p xs b
    → (a.creation ≡ b.creation) × (a.name ≡ b.name)
IsElected-agree {p} {a} {b} h k =
    older_total a b (All-Memᴰ (λ x. p x ≡ true → older x b ≡ false) h.listed k.unbeaten h.passes)
      (All-Memᴰ (λ x. p x ≡ true → older x a ≡ false) k.listed h.unbeaten k.passes)

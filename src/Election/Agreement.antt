-- ===== src/Election/Agreement.antt =====
-- The two reconcilers elect one owner for a target: `resolveOwner` by sorting, `findCRForTarget` by a
-- loop.
use mathlib.Core.List.{Memᴰ}
use mathlib.Core.Option
use route_prism.Common.{
  ◌≡◌, refl, ◌⊎◌, ◌∙◌, ap, Bool, true, false, not, ◌&&◌, inl, inr, Option, none, some, List, [],
  ◌∷◌, arith, Bool-cases, if◌then◌else◌, All, filter, Str, str_eq,
}
use route_prism.Common.Sort.{insert_sorted, sort_slice}
use route_prism.Kube.Types.{ContextRoute, older}
use route_prism.Election.{first, resolve_owner, find_cr_for_target}
use route_prism.Election.Order.{older_irrefl, older_asymm, not_older_trans}
use route_prism.Election.Scan.{Unbeaten, IsElected, scan_lem, All-Memᴰ, IsElected-agree}

abbrev elect : ContextRoute → Option ContextRoute → ContextRoute
elect x none = x
elect x (some y) = if older x y then x else y

first-insert_sorted :
    (x : ContextRoute) (ys : List ContextRoute)
    → first (insert_sorted older x ys) ≡ some (elect x (first ys))
unfolding insert_sorted
first-insert_sorted x [] = refl
first-insert_sorted x (y ∷ ys) = ground arith

abbrev pub everyone : ContextRoute → Bool
everyone c = true

Unbeaten-older :
    (w x : ContextRoute) (xs : List ContextRoute)
    → older x w ≡ true
    → Unbeaten everyone w xs
    → Unbeaten everyone x xs
Unbeaten-older w x [] e h = tt
Unbeaten-older w x (y ∷ ys) e (h, hs) =
    ((λ t. not_older_trans x w y (older_asymm x w e) (h t)), Unbeaten-older w x ys e hs)

first-sort_slice :
    (xs : List ContextRoute)
    → ((first (sort_slice older xs) ≡ none) × (xs ≡ []))
      ⊎ ((w : ContextRoute) × (first (sort_slice older xs) ≡ some w) × IsElected everyone xs w)
unfolding sort_slice
first-sort_slice [] = inl (refl, refl)
first-sort_slice (x ∷ xs) = elim (first-sort_slice xs) [
  | inl (nobody, empty) ↦ inr (
    x,
    first-insert_sorted x _ ∙ ap (λ o. some (elect x o)) nobody,
    record {
      passes = refl;
      listed = Memᴰ.head refl;
      unbeaten = ((λ _. older_irrefl x), rw empty tt);
    },
  )
  | inr (w, found, elected) ↦ elim (Bool-cases (older x w)) [
    | inl e ↦ inr (
      x,
      first-insert_sorted x _ ∙ ap (λ o. some (elect x o)) found ∙ (rw e),
      record {
        passes = refl;
        listed = Memᴰ.head refl;
        unbeaten = ((λ _. older_irrefl x), Unbeaten-older w x xs e elected.unbeaten);
      },
    )
    | inr e ↦ inr (
      w,
      first-insert_sorted x _ ∙ ap (λ o. some (elect x o)) found ∙ (rw e),
      record {
        passes = refl;
        listed = Memᴰ.tail elected.listed;
        unbeaten = ((λ _. e), elected.unbeaten);
      },
    )
  ]
]

Memᴰ-cons : {w x : ContextRoute} {xs : List ContextRoute} → Memᴰ w (x ∷ xs) → (w ≡ x) ⊎ Memᴰ w xs
Memᴰ-cons (Memᴰ.head e) = inl e
Memᴰ-cons (Memᴰ.tail m) = inr m

Memᴰ-filter :
    (p : ContextRoute → Bool) (w : ContextRoute) (xs : List ContextRoute)
    → Memᴰ w (filter p xs)
    → (p w ≡ true) × Memᴰ w xs
Memᴰ-filter p w [] m = elim m [ ]
Memᴰ-filter p w (x ∷ xs) m = elim (Bool-cases (p x)) [
  | inl e ↦ elim (Memᴰ-cons (rw e at m)) [
    | inl same ↦ (rw same e, Memᴰ.head same)
    | inr later ↦ let (passes, there) = Memᴰ-filter p w xs later in (passes, Memᴰ.tail there)
  ]
  | inr e ↦ let (passes, there) = Memᴰ-filter p w xs (rw e at m) in (passes, Memᴰ.tail there)
]

Unbeaten-filter :
    (p : ContextRoute → Bool) (w : ContextRoute) (xs : List ContextRoute)
    → Unbeaten everyone w (filter p xs)
    → Unbeaten p w xs
Unbeaten-filter p w [] h = tt
Unbeaten-filter p w (x ∷ xs) h = elim (Bool-cases (p x)) [
  | inl e ↦ let (here, later) = rw e at h in ((λ _. here refl), Unbeaten-filter p w xs later)
  | inr e ↦ ((λ k. cc (e, k)), Unbeaten-filter p w xs (rw e at h))
]

filter-empty :
    (p : ContextRoute → Bool) (xs : List ContextRoute)
    → filter p xs ≡ []
    → All (λ x. p x ≡ false) xs
filter-empty p [] h = tt
filter-empty p (x ∷ xs) h = elim (Bool-cases (p x)) [
  | inl e ↦ let impossible : x ∷ filter p xs ≡ [] = rw e at h in cc impossible
  | inr e ↦ (e, filter-empty p xs (rw e at h))
]

-- What is elected from the elements that pass a test is elected by that test.
IsElected-filter :
    (p : ContextRoute → Bool) (xs : List ContextRoute) {w : ContextRoute}
    → IsElected everyone (filter p xs) w
    → IsElected p xs w
IsElected-filter p xs {w} h = record {
  passes = (Memᴰ-filter p w xs h.listed).0;
  listed = (Memᴰ-filter p w xs h.listed).1;
  unbeaten = Unbeaten-filter p w xs h.unbeaten;
}

-- The owner is elected among the ContextRoutes of the target that are not being deleted.
abbrev pub claims : Str → ContextRoute → Bool
claims target c = not c.deleting && str_eq c.target target

pub resolve_owner_lem :
    (target : Str) (list : List ContextRoute)
    → ((resolve_owner target list ≡ none) × All (λ c. claims target c ≡ false) list)
      ⊎ ((w : ContextRoute) × (resolve_owner target list ≡ some w)
          × IsElected (claims target) list w)
unfolding resolve_owner
resolve_owner_lem target list = elim (first-sort_slice (filter (claims target) list)) [
  | inl (nobody, empty) ↦ inl (nobody, filter-empty (claims target) list empty)
  | inr (w, found, elected) ↦ inr (w, found, IsElected-filter (claims target) list elected)
]

-- For any list of ContextRoutes and any target, both searches find nobody, or they find
-- ContextRoutes of one name.
pub resolve_owner-find_cr_for_target :
    (target : Str) (list : List ContextRoute)
    → Option.map (λ c. c.name) (resolve_owner target list)
      ≡ Option.map (λ c. c.name) (find_cr_for_target target list)
unfolding find_cr_for_target
resolve_owner-find_cr_for_target target list = elim (resolve_owner_lem target list) [
  | inl (none_a, all_a) ↦ elim (scan_lem (claims target) list) [
    | inl (none_b, _) ↦ rw (none_a, none_b)
    | inr (b, found_b, elected) ↦
        cc (All-Memᴰ (λ c. claims target c ≡ false) elected.listed all_a, elected.passes)
  ]
  | inr (a, found_a, elected_a) ↦ elim (scan_lem (claims target) list) [
    | inl (none_b, all_b) ↦
        cc (All-Memᴰ (λ c. claims target c ≡ false) elected_a.listed all_b, elected_a.passes)
    | inr (b, found_b, elected_b) ↦
        rw (found_a, found_b) (ap some (IsElected-agree elected_a elected_b).1)
  ]
]

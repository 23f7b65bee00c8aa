-- ===== src/Election/Keys.antt =====
-- Uniqueness of routing keys: who gives way in the second half of `checkConflicts`.
use mathlib.Core.List.{Memᴰ}
use route_prism.Common.{
  ◌≡◌, refl, ◌↔◌, sym, true, false, inl, inr, Option, none, some, List, [], ◌∷◌, arith, Bool-cases,
  All, str_eq, str_eq_iff, str_ltb_irrefl,
}
use route_prism.Kube.Types.{ContextRoute, ContextRouteStatus, older, effective_routing_key}
use route_prism.Election.{scan, competes, key_owner, loses_key}
use route_prism.Election.Order.{older_irrefl, older_total, not_older_trans}
use route_prism.Election.Scan.{scan_lem, All-Memᴰ}

-- An older ContextRoute with another UID and the same effective routing key.
pub record IsRival (cr : ContextRoute) (xs : List ContextRoute) (o : ContextRoute) : Type 0 where
  pub listed : Memᴰ o xs
  pub competing : competes cr o ≡ true
  pub is_older : older o cr ≡ true

loses-IsRival :
    (cr : ContextRoute) (xs : List ContextRoute)
    → loses_key cr (key_owner cr xs) ≡ true
    → (o : ContextRoute) × IsRival cr xs o
unfolding loses_key key_owner
loses-IsRival cr xs h = elim (scan_lem (competes cr) xs) [
  | inl (nobody, _) ↦ let impossible : false ≡ true = rw nobody at h in cc impossible
  | inr (w, found, elected) ↦
      (w, record { listed = elected.listed; competing = elected.passes; is_older = rw found at h })
]

IsRival-loses :
    (cr : ContextRoute) (xs : List ContextRoute) (o : ContextRoute)
    → IsRival cr xs o
    → loses_key cr (key_owner cr xs) ≡ true
unfolding loses_key key_owner
IsRival-loses cr xs o r = elim (scan_lem (competes cr) xs) [
  | inl (nobody, h) ↦ cc (All-Memᴰ (λ x. competes cr x ≡ false) r.listed h, r.competing)
  | inr (w, found, elected) ↦
      let unbeaten =
        All-Memᴰ (λ x. competes cr x ≡ true → older x w ≡ false) r.listed elected.unbeaten
          r.competing in
      rw found (elim (Bool-cases (older w cr)) [
        | inl e ↦ e
        | inr e ↦ cc (r.is_older, not_older_trans cr w o e unbeaten)
      ])
]

-- A ContextRoute gives way for its routing key exactly if the list holds an older one with another
-- UID and the same effective key; whether that one is being deleted makes no difference.
pub loses_key_iff :
    (cr : ContextRoute) (xs : List ContextRoute)
    → (loses_key cr (key_owner cr xs) ≡ true) ↔ ((o : ContextRoute) × IsRival cr xs o)
loses_key_iff cr xs = (loses-IsRival cr xs, λ (o, r). IsRival-loses cr xs o r)

not_older_of_keeps :
    (a b : ContextRoute) (xs : List ContextRoute)
    → Memᴰ b xs
    → competes a b ≡ true
    → loses_key a (key_owner a xs) ≡ false
    → older b a ≡ false
not_older_of_keeps a b xs m c h = elim (Bool-cases (older b a)) [
  | inr e ↦ e
  | inl e ↦ cc (h, IsRival-loses a xs b (record { listed = m; competing = c; is_older = e }))
]

competes_of_key :
    (a b : ContextRoute)
    → str_eq b.uid a.uid ≡ false
    → effective_routing_key a ≡ effective_routing_key b
    → competes a b ≡ true
competes_of_key a b e k =
    ground (arith, (str_eq_iff (effective_routing_key b) (effective_routing_key a)).1 (sym k))

-- If two listed ContextRoutes with different UIDs have one effective routing key and neither gives
-- way, they were created together and have one name.
pub routing_key_exclusive :
    (a b : ContextRoute) (xs : List ContextRoute)
    → Memᴰ a xs
    → Memᴰ b xs
    → str_eq b.uid a.uid ≡ false
    → str_eq a.uid b.uid ≡ false
    → effective_routing_key a ≡ effective_routing_key b
    → loses_key a (key_owner a xs) ≡ false
    → loses_key b (key_owner b xs) ≡ false
    → (a.creation ≡ b.creation) × (a.name ≡ b.name)
routing_key_exclusive a b xs ma mb u v k ha hb =
    older_total a b (not_older_of_keeps b a xs ma (competes_of_key b a v (sym k)) hb)
      (not_older_of_keeps a b xs mb (competes_of_key a b u k) ha)

keeps_of_oldest :
    (a : ContextRoute) (xs : List ContextRoute)
    → All (λ x. older x a ≡ false) xs
    → loses_key a (key_owner a xs) ≡ false
keeps_of_oldest a xs h = elim (Bool-cases (loses_key a (key_owner a xs))) [
  | inr e ↦ e
  | inl e ↦
      let (o, r) = loses-IsRival a xs e in
      cc (r.is_older, All-Memᴰ (λ x. older x a ≡ false) r.listed h)
]

not_older_of_twin :
    (a b : ContextRoute) → a.creation ≡ b.creation → a.name ≡ b.name → older b a ≡ false
unfolding older
not_older_of_twin a b e n = rw (e, n) (ground (arith, str_ltb_irrefl b.name))

-- Two ContextRoutes that were created together and have one name, in different namespaces say,
-- both keep their routing key, whatever it is, in a cluster that holds only them.
pub twins_keep_key :
    (a b : ContextRoute)
    → a.creation ≡ b.creation
    → a.name ≡ b.name
    → (loses_key a (key_owner a (a ∷ b ∷ [])) ≡ false)
      × (loses_key b (key_owner b (a ∷ b ∷ [])) ≡ false)
twins_keep_key a b e n = (
  keeps_of_oldest a _ (older_irrefl a, (not_older_of_twin a b e n, tt)),
  keeps_of_oldest b _ (not_older_of_twin b a (sym e) (sym n), (older_irrefl b, tt)),
)

-- The status has no part in the election.
pub loses_key-status :
    (cr : ContextRoute) (s : ContextRouteStatus) (xs : List ContextRoute)
    → loses_key (record cr { status = s }) (key_owner (record cr { status = s }) xs)
      ≡ loses_key cr (key_owner cr xs)
unfolding loses_key key_owner effective_routing_key older
loses_key-status cr s xs = loses_status (scan (competes cr) none xs)
  where
    loses_status :
        (o : Option ContextRoute) → loses_key (record cr { status = s }) o ≡ loses_key cr o
    loses_status none = refl
    loses_status (some w) = refl

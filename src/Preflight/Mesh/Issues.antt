-- ===== src/Preflight/Mesh/Issues.antt =====
-- Which versions are reported.
use route_prism.Common.{
  ◌≡◌, refl, Bool, true, false, not, ◌&&◌, if◌then◌else◌, is_empty, Str, [], sym,
}
use route_prism.Preflight.Version.{Version, version, is_zero, less_than, at_least}
use route_prism.Preflight.Version.Laws.{less_than-IsOrder}
use route_prism.Preflight.Mesh.{
  MeshKind, MeshInfo, experimental, known_issue, issue_for, experimental_for,
}

-- The first version with stable support, for the kinds that have one.
abbrev pub below_stable : MeshKind → Version → Bool
below_stable MeshKind.unknown v = false
below_stable MeshKind.istio v = less_than v (version 1 22 0)
below_stable MeshKind.cilium v = less_than v (version 1 16 0)

below_both :
    (v : Version) → less_than v (version 1 20 0) ≡ true → less_than v (version 1 22 0) ≡ true
unfolding less_than
below_both v h = (less_than-IsOrder v (version 1 20 0) (version 1 22 0)).1 h refl

-- The two texts for Istio and the tests for them.
istio_tests :
    (old below : Bool) (a b : Str)
    → (old ≡ true → below ≡ true)
    → is_empty a ≡ false
    → is_empty b ≡ false
    → (not (is_empty (if old then a else if below then b else [])) ≡ below)
      × ((not old && below) ≡ true → is_empty (if old then a else if below then b else []) ≡ false)
istio_tests true below a b h ea eb = (rw ea (sym (h refl)), λ _. ea)
istio_tests false true a b h ea eb = (rw eb refl, λ _. eb)
istio_tests false false a b h ea eb = (refl, λ k. cc)

cilium_test :
    (below : Bool) (a : Str) → is_empty a ≡ false → not (is_empty (if below then a else [])) ≡ below
cilium_test true a e = rw e refl
cilium_test false a e = refl

kind_tests :
    (zero : Bool) (kind : MeshKind) (v : Version)
    → (not (is_empty (if zero then [] else issue_for kind v)) ≡ (not zero && below_stable kind v))
      × ((if zero then false else experimental_for kind v) ≡ true
          → is_empty (if zero then [] else issue_for kind v) ≡ false)
unfolding at_least
kind_tests true kind v = (refl, λ h. cc)
kind_tests false MeshKind.unknown v = (refl, λ h. cc)
kind_tests false MeshKind.istio v =
    istio_tests (less_than v (version 1 20 0)) (less_than v (version 1 22 0)) _ _ (below_both v)
      refl refl
kind_tests false MeshKind.cilium v = (cilium_test (less_than v (version 1 16 0)) _ refl, λ h. cc)

-- A known version has an issue exactly if it is below the first stable one of its mesh (Istio 1.22.0,
-- Cilium 1.16.0), and an unknown version has none. Every experimental version has an issue.
pub known_issue_lem :
    (m : MeshInfo)
    → (not (is_empty (known_issue m)) ≡ (not (is_zero m.version) && below_stable m.kind m.version))
      × (experimental m ≡ true → is_empty (known_issue m) ≡ false)
unfolding known_issue experimental
known_issue_lem m = kind_tests (is_zero m.version) m.kind m.version

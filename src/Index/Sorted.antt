-- ===== src/Index/Sorted.antt =====
-- The lists of a snapshot are fit for the binary searches of the read API.
use mathlib.Core.List.{Permᴰ}
use mathlib.Core.Path.{subst}
use route_prism.Common.{◌≡◌, refl, ◌∙◌, List, [], ◌∷◌, map, Str, str_ltb, to_lower}
use route_prism.Common.Sort.{sort_slice}
use route_prism.Common.Strict.{IsStrict, IsSorted}
use route_prism.Common.SortStrict.{sort_slice-IsStrict, sort_slice-IsSorted}
use route_prism.Common.Shuffle.{IsDistinct-Permᴰ}
use route_prism.Common.Assoc.{keys}
use route_prism.Kube.Types.{ContextRoute}
use route_prism.Kube.Reconcile.{Res, ok, err}
use route_prism.Index.Types.{RemoteFlag, Snapshot, Source}
use route_prism.Index.Rebuild.{
  owners, ◌>>=◌, build_alt_entry, add_alternatives, add_owner, add_owners, with_targets,
  with_sorted_tuples, build, rebuilt,
}
use route_prism.Index.Owners.{owners-IsDistinct}

-- What holds of a result if there is one.
record OnOk {A : Type 0} (P : A → Type 0) (r : Res A) : Type 0 where
  holds : (a : A) → r ≡ ok a → P a

OnOk-ok : {A : Type 0} {P : A → Type 0} (a : A) → P a → OnOk P (ok a)
OnOk-ok {P} a p = record { holds = λ b e. subst P (cc e) p }

OnOk-bind :
    {A B : Type 0} {P : B → Type 0} {k : A → Res B} (r : Res A)
    → ((a : A) → r ≡ ok a → OnOk P (k a))
    → OnOk P (r >>= k)
OnOk-bind (ok a) h = h a refl
OnOk-bind (err e) h = record { holds = λ b impossible. cc impossible }

OnOk-weaken :
    {A : Type 0} {P Q : A → Type 0} {r : Res A} → OnOk P r → ((a : A) → P a → Q a) → OnOk Q r
OnOk-weaken h f = record { holds = λ a e. f a (h.holds a e) }

-- Two snapshots with the same targets.
record SameTargets (s t : Snapshot) : Type 0 where
  targets : s.targets ≡ t.targets
  lower : s.targets_lower ≡ t.targets_lower

module _ (cookies : List (Str × Str)) (rrs : List (Str × RemoteFlag)) where
  add_alternatives-targets :
      (key : Str) (owner : ContextRoute) (alts : List Str) (s : Snapshot)
      → SameTargets (add_alternatives cookies rrs key owner alts s) s
  unfolding add_alternatives
  add_alternatives-targets key owner [] s = record { targets = refl; lower = refl }
  add_alternatives-targets key owner (alt ∷ alts) s =
      let rest = add_alternatives-targets key owner alts _ in
      record { targets = rest.targets; lower = rest.lower }

  add_owners-targets :
      (src : Source) (os : List (Str × ContextRoute)) (s : Snapshot)
      → OnOk (λ t. SameTargets t s) (add_owners cookies rrs src os s)
  unfolding add_owners add_owner
  add_owners-targets src [] s = OnOk-ok s (record { targets = refl; lower = refl })
  add_owners-targets src ((key, owner) ∷ rest) s = OnOk-bind (build_alt_entry src owner) (λ entry _.
      let added = add_alternatives-targets key owner entry.list _ in
      OnOk-weaken (add_owners-targets src rest _) (λ t same. record {
        targets = same.targets ∙ added.targets;
        lower = same.lower ∙ added.lower;
      }))

-- What a successful rebuild makes: sorted targets and tuples, with their lowercased copies.
pub record IsSnapshot (s : Snapshot) : Type 0 where
  pub targets_strict : IsStrict (λ k. k) s.targets
  pub lower_of_targets : s.targets_lower ≡ map to_lower s.targets
  pub tuples_sorted : IsSorted (λ t. t.tuple) s.tuples
  pub lower_of_tuples : s.tuples_lower ≡ map (λ t. to_lower t.tuple) s.tuples

with_sorted_tuples-IsSnapshot :
    (s : Snapshot) (targets : List Str)
    → IsStrict (λ k. k) targets
    → SameTargets s (with_targets targets)
    → IsSnapshot (with_sorted_tuples s)
unfolding with_sorted_tuples
with_sorted_tuples-IsSnapshot s targets strict same = record {
  targets_strict = rw same.targets strict;
  lower_of_targets = rw same.targets same.lower;
  tuples_sorted = sort_slice-IsSorted (λ t. t.tuple) s.tuples;
  lower_of_tuples = refl;
}

-- The keys of the owners, sorted.
sorted_keys-IsStrict :
    (src : Source) (crs : List ContextRoute)
    → ((ks : List Str) → Permᴰ ks (src.range_keys ks))
    → IsStrict (λ k. k) (sort_slice str_ltb (src.range_keys (keys (owners [] crs))))
sorted_keys-IsStrict src crs ranges =
    sort_slice-IsStrict (λ k. k) _ (IsDistinct-Permᴰ (ranges _) (owners-IsDistinct crs [] tt))

-- A rebuild that ends without an error makes a snapshot with strictly sorted targets, sorted
-- tuples, and lowercased copies of both, in whatever order the loop over the map of owners runs.
pub rebuilt-IsSnapshot :
    (src : Source) (s : Snapshot)
    → ((ks : List Str) → Permᴰ ks (src.range_keys ks))
    → rebuilt src ≡ ok s
    → IsSnapshot s
unfolding rebuilt build
rebuilt-IsSnapshot src s ranges h =
    let after : OnOk IsSnapshot (rebuilt src) = OnOk-bind src.list_context_routes (λ crs _.
      OnOk-bind src.list_edge_transformations (λ ets _. OnOk-bind src.list_remote_routes (λ rrs _.
        OnOk-bind _ (λ t read. OnOk-ok _ (
          with_sorted_tuples-IsSnapshot t _ (sorted_keys-IsStrict src crs ranges)
            ((add_owners-targets _ _ src _ _).holds t read)))))) in
    after.holds s h

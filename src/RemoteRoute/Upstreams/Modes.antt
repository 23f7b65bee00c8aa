-- ===== src/RemoteRoute/Upstreams/Modes.antt =====
-- The load-balancing modes of the groups of a RemoteRoute.
use route_prism.Common.{◌≡◌, List, [], ◌∷◌, ◌++◌, any, All, ◌↔◌, ap, Bool-cases, inl, inr}
use route_prism.Common.Results.{value}
use route_prism.Kube.Types.{RemoteLbMode, round_robin, random}
use route_prism.RemoteRoute.Upstreams.{insert_mode, check_modes, mode_eq}

-- All modes of a list, in its order, put into the set.
abbrev pub add_modes : List RemoteLbMode → List RemoteLbMode → List RemoteLbMode
add_modes ms [] = ms
add_modes ms (m ∷ l) = add_modes (insert_mode m ms) l

-- Two modes stay two.
two_stay :
    (a b : RemoteLbMode) (ms l : List RemoteLbMode) (mode : RemoteLbMode)
    → check_modes (add_modes (a ∷ b ∷ ms) l) ≡ value mode
    → ⊥
unfolding check_modes insert_mode
two_stay a b ms [] mode h = cc
two_stay a b ms (m ∷ l) mode h = elim (Bool-cases (any (λ n. mode_eq n m) (a ∷ b ∷ ms))) [
  | inl e ↦ two_stay a b ms l mode (rw e at h)
  | inr e ↦ two_stay a b (ms ++ m ∷ []) l mode (rw e at h)
]

one_mode :
    (m : RemoteLbMode) (l : List RemoteLbMode) (mode : RemoteLbMode)
    → (check_modes (add_modes (m ∷ []) l) ≡ value mode) ↔ All (λ n. n ≡ mode) (m ∷ l)
unfolding check_modes insert_mode
one_mode m [] mode = ((λ h. (cc, tt)), λ (e, _). ap value e)
one_mode round_robin (round_robin ∷ l) mode =
    let (to, from) = one_mode round_robin l mode in
    ((λ h. let (e, r) = to h in (e, (e, r))), λ (e, (_, r)). from (e, r))
one_mode random (random ∷ l) mode =
    let (to, from) = one_mode random l mode in
    ((λ h. let (e, r) = to h in (e, (e, r))), λ (e, (_, r)). from (e, r))
one_mode round_robin (random ∷ l) mode =
    ((λ h. absurd (two_stay round_robin random [] l mode h)), λ (e, (d, _)). absurd (cc))
one_mode random (round_robin ∷ l) mode =
    ((λ h. absurd (two_stay random round_robin [] l mode h)), λ (e, (d, _)). absurd (cc))

-- The mode of a list of modes: each of them, and round robin for the empty list.
abbrev pub IsMode : List RemoteLbMode → RemoteLbMode → Type 0
IsMode [] mode = mode ≡ round_robin
IsMode (m ∷ l) mode = All (λ n. n ≡ mode) (m ∷ l)

pub check_modes_iff :
    (l : List RemoteLbMode) (mode : RemoteLbMode)
    → (check_modes (add_modes [] l) ≡ value mode) ↔ IsMode l mode
unfolding check_modes insert_mode
check_modes_iff [] mode = ((λ h. cc), λ e. rw e)
check_modes_iff (m ∷ l) mode = one_mode m l mode

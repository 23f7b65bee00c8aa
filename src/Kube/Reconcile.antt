-- ===== src/Kube/Reconcile.antt =====
-- The way a reconciler runs: calls of the API server that may fail, early returns, and the writes
-- and events that it makes, in their order.
use route_prism.Common.{ℕ, Bool, true, false, Option, none, some, List, [], ◌∷◌, ◌++◌, Str}

-- `apierrors.IsNotFound` tells the first kind from all others.
pub data ApiError : Type 0 where
  not_found : ApiError
  other : Str → ApiError

pub data Res {ℓ} (A : Type ℓ) : Type ℓ where
  ok : A → Res A
  err : ApiError → Res A

-- `ctrl.Result`; `after` is `RequeueAfter` in seconds.
pub record ReconcileResult : Type 0 where
  pub requeue : Bool
  pub after : ℕ

abbrev pub done : ReconcileResult
done = record { requeue = false; after = 0 }

abbrev pub again : ReconcileResult
again = record { requeue = true; after = 0 }

-- A step of a reconciler goes on with a value, or `Reconcile` returns.
pub data Flow {ℓ} (A : Type ℓ) : Type ℓ where
  next : A → Flow A
  stop : Res ReconcileResult → Flow A

-- `W` is the type of the writes, which are listed as they are attempted.
abbrev pub Act : Type 0 → Type 0 → Type 0
Act W A = List W → Flow A × List W

abbrev pub continue : {W A B : Type 0} → Flow A → (A → Act W B) → Act W B
continue (next a) f t = f a t
continue (stop r) f t = (stop r, t)

unfoldable pub pure : {W A : Type 0} → A → Act W A
pure a t = (next a, t)

-- `return res, err` out of `Reconcile`
unfoldable pub return : {W A : Type 0} → Res ReconcileResult → Act W A
return r t = (stop r, t)

-- A write or an event; what the server says of it is read where the code reads it.
unfoldable pub emit : {W : Type 0} → W → Act W (Unit {0})
emit w t = (next tt, t ++ w ∷ [])

-- `if err != nil { return ctrl.Result{}, err }`
unfoldable pub check : {W : Type 0} → Option ApiError → Act W (Unit {0})
unfolding pure return
check none = pure tt
check (some e) = return (err e)

-- The same for a call that returns a value.
unfoldable pub check_res : {W A : Type 0} → Res A → Act W A
unfolding pure return
check_res (ok a) = pure a
check_res (err e) = return (err e)

-- `return ctrl.Result{}, err` with the outcome of a last write.
unfoldable pub finish : {W A : Type 0} → Option ApiError → Act W A
unfolding return
finish none = return (ok done)
finish (some e) = return (err e)

infixl 5 ◌>>=◌ ◌>>◌
-- To unfold this is to unfold the other actions too.
unfoldable pub ◌>>=◌ : {W A B : Type 0} → Act W A → (A → Act W B) → Act W B
unfolding pure return emit check check_res finish
◌>>=◌ m f t = let (r, t') = m t in continue r f t'

abbrev pub ◌>>◌ : {W A B : Type 0} → Act W A → Act W B → Act W B
m >> n = m >>= λ _. n

-- ===== src/Kube/Ensures.antt =====
-- What holds of every write that a reconciler attempts, and of the value with which it goes on: a
-- rule for each way to build a run.
use route_prism.Common.{
  ◌≡◌, refl, Bool, true, false, Option, none, some, List, [], ◌∷◌, ◌++◌, if◌then◌else◌, All,
}
use route_prism.Kube.Reconcile.{
  ApiError, Res, ok, err, ReconcileResult, Flow, next, stop, Act, continue, ◌>>=◌, pure, return,
  emit, check, check_res, finish,
}

-- `Q` holds of the value if the run goes on.
abbrev pub OnNext : {A : Type 0} → (A → Type 0) → Flow A → Type 0
OnNext Q (next a) = Q a
OnNext Q (stop r) = Unit

pub record Ensures {W A : Type 0} (I : W → Type 0) (m : Act W A) (Q : A → Type 0) : Type 0 where
  pub at : (t : List W) → All I t → All I (m t).1 × OnNext Q (m t).0

module _ {W A : Type 0} {I : W → Type 0} {Q : A → Type 0} where
  pub Ensures-pure : (a : A) → Q a → Ensures I (pure a) Q
  unfolding pure
  Ensures-pure a q = record { at = λ t h. (h, q) }

  pub Ensures-return : (r : Res ReconcileResult) → Ensures I (return r) Q
  unfolding return
  Ensures-return r = record { at = λ t h. (h, tt) }

  pub Ensures-finish : (o : Option ApiError) → Ensures I (finish o) Q
  unfolding finish
  Ensures-finish none = Ensures-return _
  Ensures-finish (some e) = Ensures-return _

  pub Ensures-if :
      (b : Bool) (m n : Act W A)
      → (b ≡ true → Ensures I m Q)
      → (b ≡ false → Ensures I n Q)
      → Ensures I (if b then m else n) Q
  Ensures-if true m n hm hn = hm refl
  Ensures-if false m n hm hn = hn refl

All-snoc : {W : Type 0} (I : W → Type 0) (t : List W) (w : W) → All I t → I w → All I (t ++ w ∷ [])
All-snoc I [] w h i = (i, tt)
All-snoc I (v ∷ t) w (hv, h) i = (hv, All-snoc I t w h i)

module _ {W : Type 0} {I : W → Type 0} where
  pub Ensures-emit : (w : W) → I w → Ensures I (emit w) (λ _. Unit)
  unfolding emit
  Ensures-emit w i = record { at = λ t h. (All-snoc I t w h i, tt) }

  pub Ensures-check : (o : Option ApiError) → Ensures I (check o) (λ _. o ≡ none)
  unfolding check
  Ensures-check none = Ensures-pure tt refl
  Ensures-check (some e) = Ensures-return _

module _ {W A : Type 0} {I : W → Type 0} where
  pub Ensures-check_res : (r : Res A) → Ensures I (check_res r) (λ a. r ≡ ok a)
  unfolding check_res
  Ensures-check_res (ok a) = Ensures-pure a refl
  Ensures-check_res (err e) = Ensures-return _

module _ {W A B : Type 0} {I : W → Type 0} {Q : A → Type 0} {R : B → Type 0} where
  Ensures-continue :
      (r : Flow A) (f : A → Act W B)
      → OnNext Q r
      → ((a : A) → Q a → Ensures I (f a) R)
      → Ensures I (continue r f) R
  Ensures-continue (next a) f q hf = hf a q
  Ensures-continue (stop r) f q hf = record { at = λ t h. (h, tt) }

  pub Ensures-bind :
      (m : Act W A) (f : A → Act W B)
      → Ensures I m Q
      → ((a : A) → Q a → Ensures I (f a) R)
      → Ensures I (m >>= f) R
  unfolding ◌>>=◌
  Ensures-bind m f hm hf = record {
    at = λ t h. let (h', q) = hm.at t h in (Ensures-continue (m t).0 f q hf).at (m t).1 h';
  }

-- What holds of the value may be forgotten.
pub Ensures-weaken :
    {W A : Type 0} {I : W → Type 0} {Q R : A → Type 0} (m : Act W A)
    → Ensures I m Q
    → ((a : A) → Q a → R a)
    → Ensures I m R
Ensures-weaken {Q} {R} m h k = record {
  at = λ t i. let (i', q) = h.at t i in (i', weaken (m t).0 q);
}
  where
    weaken : (r : Flow _) → OnNext Q r → OnNext R r
    weaken (next a) q = k a q
    weaken (stop r) q = tt

-- ===== src/Kube/Goes.antt =====
-- Runs of a reconciler that go on: the value and the writes, with a rule for each way to build a run.
use route_prism.Common.{
  ◌≡◌, refl, sym, ◌∙◌, ap, Bool, true, false, Option, none, some, List, [], ◌∷◌, ◌++◌,
  if◌then◌else◌,
}
use route_prism.Kube.Reconcile.{
  ApiError, Res, ok, next, stop, Act, ◌>>=◌, pure, emit, check, check_res, return, finish,
  ReconcileResult,
}

-- A run goes on with a value and has made some writes more.
pub record Goes {W A : Type 0} (m : Act W A) (a : A) (ws : List W) : Type 0 where
  pub at : (t : List W) → m t ≡ (next a, t ++ ws)

append_assoc : {W : Type 0} (xs ys zs : List W) → (xs ++ ys) ++ zs ≡ xs ++ (ys ++ zs)
append_assoc [] ys zs = refl
append_assoc (x ∷ xs) ys zs = ap (λ r. x ∷ r) (append_assoc xs ys zs)

pub append_nil : {W : Type 0} (xs : List W) → xs ++ [] ≡ xs
append_nil [] = refl
append_nil (x ∷ xs) = ap (λ r. x ∷ r) (append_nil xs)

pub Goes-bind :
    {W A B : Type 0} (m : Act W A) (f : A → Act W B) {a : A} {b : B} {vs ws : List W}
    → Goes m a vs
    → Goes (f a) b ws
    → Goes (m >>= f) b (vs ++ ws)
unfolding ◌>>=◌
Goes-bind m f {a} {b} {vs} {ws} hm hf = record {
  at = λ t. rw (hm.at t) (hf.at (t ++ vs) ∙ ap (λ ws'. (next b, ws')) (append_assoc t vs ws));
}

module _ {W A : Type 0} where
  pub Goes-pure : (a : A) → Goes {W = W} (pure a) a []
  unfolding pure
  Goes-pure a = record { at = λ t. ap (λ ws. (next a, ws)) (sym (append_nil t)) }

  pub Goes-check_res : (r : Res A) (a : A) → r ≡ ok a → Goes {W = W} (check_res r) a []
  unfolding check_res
  Goes-check_res r a e = rw e (Goes-pure a)

  pub Goes-then :
      (b : Bool) (m n : Act W A) {a : A} {ws : List W}
      → b ≡ true
      → Goes m a ws
      → Goes (if b then m else n) a ws
  Goes-then b m n e h = rw e h

  pub Goes-else :
      (b : Bool) (m n : Act W A) {a : A} {ws : List W}
      → b ≡ false
      → Goes n a ws
      → Goes (if b then m else n) a ws
  Goes-else b m n e h = rw e h

module _ {W : Type 0} where
  pub Goes-emit : (w : W) → Goes (emit w) tt (w ∷ [])
  unfolding emit
  Goes-emit w = record { at = λ t. refl }

  pub Goes-check : (o : Option ApiError) → o ≡ none → Goes {W = W} (check o) tt []
  unfolding check
  Goes-check o e = rw e (Goes-pure tt)

-- A run ends, with some result, and has made some writes more.
pub record Stops {W A : Type 0} (m : Act W A) (ws : List W) : Type 0 where
  pub at : (t : List W) → (r : Res ReconcileResult) × (m t ≡ (stop r, t ++ ws))

module _ {W A : Type 0} where
  pub Stops-return : (r : Res ReconcileResult) → Stops {W = W} {A = A} (return r) []
  unfolding return
  Stops-return r = record { at = λ t. (r, ap (λ ws. (stop r, ws)) (sym (append_nil t))) }

  pub Stops-finish : (o : Option ApiError) → Stops {W = W} {A = A} (finish o) []
  unfolding finish
  Stops-finish none = Stops-return _
  Stops-finish (some e) = Stops-return _

module _ {W A B : Type 0} (m : Act W A) (f : A → Act W B) where
  -- The run ends in the first part, or in the second.
  pub Stops-first : {ws : List W} → Stops m ws → Stops (m >>= f) ws
  unfolding ◌>>=◌
  Stops-first h = record { at = λ t. let (r, e) = h.at t in (r, rw e refl) }

  pub Stops-second :
      {a : A} {vs ws : List W} → Goes m a vs → Stops (f a) ws → Stops (m >>= f) (vs ++ ws)
  unfolding ◌>>=◌
  Stops-second {vs} {ws} hm hf = record {
    at = λ t.
        let (r, e) = hf.at (t ++ vs) in
        (r, rw (hm.at t) (e ∙ ap (λ ws'. (stop r, ws')) (append_assoc t vs ws)));
  }

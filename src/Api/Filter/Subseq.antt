-- ===== src/Api/Filter/Subseq.antt =====
-- `subseqMatch` against the subsequence relation.
use route_prism.Common.{
  ℕ, ◌≡◌, refl, ◌↔◌, true, [], ◌∷◌, ◌⊎◌, inl, inr, Bool-cases, ◌==◌, if◌then◌else◌, ==_iff, Str,
}
use route_prism.Api.Filter.{subseq_match}

-- Every byte of the first string stands in the second one, in order.
pub data Subseq : Str → Str → Type 0 where
  done : {s : Str} → Subseq [] s
  skip : {p s : Str} (c : ℕ) → Subseq p s → Subseq p (c ∷ s)
  keep : {p s : Str} (c : ℕ) → Subseq p s → Subseq (c ∷ p) (c ∷ s)

Subseq-tail : {p s : Str} (c : ℕ) → Subseq (c ∷ p) s → Subseq p s
Subseq-tail c (skip d h) = skip d (Subseq-tail c h)
Subseq-tail c (keep d h) = skip d h

Subseq-cons :
    {c d : ℕ} {p s : Str} → Subseq (d ∷ p) (c ∷ s) → Subseq (d ∷ p) s ⊎ ((c ≡ d) × Subseq p s)
Subseq-cons (skip c h) = inl h
Subseq-cons (keep c h) = inr (refl, h)

-- One round of the loop.
subseq_match-cons :
    (c d : ℕ) (s p : Str)
    → subseq_match (c ∷ s) (d ∷ p) ≡ subseq_match s (if c == d then p else d ∷ p)
unfolding subseq_match
subseq_match-cons c d s p = refl

sound : (s p : Str) → subseq_match s p ≡ true → Subseq p s
unfolding subseq_match
sound s [] h = done
sound [] (d ∷ p) h = cc
sound (c ∷ s) (d ∷ p) h = elim (Bool-cases (c == d)) [
  | inl e ↦ rw (← (==_iff c d).0 e) (keep c (sound s p (rw (subseq_match-cons c d s p, e) at h)))
  | inr e ↦ skip c (sound s (d ∷ p) (rw (subseq_match-cons c d s p, e) at h))
]

complete : (p s : Str) → Subseq p s → subseq_match s p ≡ true
unfolding subseq_match
complete [] s h = refl
complete (d ∷ p) [] h = elim h [ ]
complete (d ∷ p) (c ∷ s) h = elim (Bool-cases (c == d)) [
  | inl e ↦
      rw (subseq_match-cons c d s p, e)
        (complete p s (elim (Subseq-cons h) [ inl k ↦ Subseq-tail d k | inr (_, k) ↦ k ]))
  | inr e ↦
      rw (subseq_match-cons c d s p, e)
        (complete (d ∷ p) s
          (elim (Subseq-cons h) [ inl k ↦ k | inr (k, _) ↦ cc (e, (==_iff c d).1 k) ]))
]

-- `subseqMatch` returns true exactly when the pattern is a subsequence of the text.
pub subseq_match_iff : (s p : Str) → (subseq_match s p ≡ true) ↔ Subseq p s
subseq_match_iff s p = (sound s p, complete p s)

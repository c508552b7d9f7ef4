-- ===== src/Strings/Parts.antt =====
-- Splitting and joining at a byte.
use correlation.Base.{
  ℕ, Text, List, [], ◌∷◌, ◌++◌, ◌==◌, ◌≡◌, refl, ◌∙◌, ap, ap₂, arith, All, Lacks, inl, inr,
  Bool-cases,
}
use correlation.Strings.{split, join}

-- Text without the separator is one part.
pub split-Lacks : (sep : ℕ) (s : Text) → Lacks sep s → split sep s ≡ s ∷ []
unfolding split
split-Lacks sep [] h = refl
split-Lacks sep (c ∷ s) (hc, hs) = ground (arith, split-Lacks sep s hs)

-- The first separator ends the first part.
pub split-append : (sep : ℕ) (s t : Text) → Lacks sep s → split sep (s ++ sep ∷ t) ≡ s ∷ split sep t
unfolding split
split-append sep [] t h = ground arith
split-append sep (c ∷ s) t (hc, hs) = ground (arith, split-append sep s t hs)

pub split-cons_cases : (sep : ℕ) (s : Text) → (p : Text) × (ps : List Text) × (split sep s ≡ p ∷ ps)
unfolding split
split-cons_cases sep [] = ([], [], refl)
split-cons_cases sep (c ∷ s) =
    let (p, ps, e) = split-cons_cases sep s in
    elim (Bool-cases (c == sep)) [
      | inl h ↦ ([], p ∷ ps, rw (h, e))
      | inr h ↦ (c ∷ p, ps, rw (h, e))
    ]

-- Splitting goes on behind any separator.
pub split-append_any :
    (sep : ℕ) (s t : Text) → split sep (s ++ sep ∷ t) ≡ split sep s ++ split sep t
unfolding split
split-append_any sep [] t = ground arith
split-append_any sep (c ∷ s) t =
    let (p, ps, e) = split-cons_cases sep s in
    elim (Bool-cases (c == sep)) [
      | inl k ↦ rw (k, split-append_any sep s t)
      | inr k ↦ rw (k, split-append_any sep s t, e)
    ]

-- Two texts cut at the first separator agree on both sides of it.
pub cut_unique :
    (sep : ℕ) (s s' t t' : Text)
    → Lacks sep s
    → Lacks sep s'
    → s ++ sep ∷ t ≡ s' ++ sep ∷ t'
    → (s ≡ s') × (t ≡ t')
cut_unique sep [] [] t t' h h' e = (refl, cc)
cut_unique sep [] (c ∷ s') t t' h (hc, hs) e = absurd (hc (cc))
cut_unique sep (c ∷ s) [] t t' (hc, hs) h' e = absurd (hc (cc))
cut_unique sep (c ∷ s) (d ∷ s') t t' (hc, hs) (hd, hs') e =
    let (p, q) = cut_unique sep s s' t t' hs hs' (cc) in (ap₂ ◌∷◌ (cc) p, q)

-- Splitting a join gives the parts back, if there is one and none holds the separator.
pub split-join :
    (sep : ℕ) (p : Text) (ps : List Text)
    → All (Lacks sep) (p ∷ ps)
    → split sep (join sep (p ∷ ps)) ≡ p ∷ ps
unfolding join
split-join sep p [] (hp, h) = split-Lacks sep p hp
split-join sep p (q ∷ ps) (hp, h) = split-append sep p _ hp ∙ ap (◌∷◌ p) (split-join sep q ps h)

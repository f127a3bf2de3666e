-- ===== src/OrderBook/Group.antt =====
-- What a list of orders comes to when neighbours at one price are merged.
use pyserum.Base.{
  ℕ, ◌+◌, ◌≡◌, ◌≢◌, ◌⊎◌, inl, inr, refl, ap, ◌∙◌, List, [], ◌∷◌, ◌++◌, reverse, arith, All, All-map,
  ◌==◌, ==_refl, ==_false, ==_true, Nat-cases, if◌then◌else◌,
}
use mathlib.Core.List.{reverse-cons}
use pyserum.OrderBook.Defs.{Level}

-- A level in front of a list of levels.
abbrev pub merge : ℕ → ℕ → List Level → List Level
merge p q [] = (p, q) ∷ []
merge p q ((p', q') ∷ rest) = if p == p' then (p, q + q') ∷ rest else (p, q) ∷ (p', q') ∷ rest

abbrev pub group : List Level → List Level
group [] = []
group ((p, q) ∷ xs) = merge p q (group xs)

-- The quantity at a price.
abbrev pub total_at : ℕ → List Level → ℕ
total_at p [] = 0
total_at p ((p', q) ∷ xs) = if p == p' then q + total_at p xs else total_at p xs

total_at-merge :
    (k p q : ℕ) (xs : List Level) → total_at k (merge p q xs) ≡ total_at k ((p, q) ∷ xs)
total_at-merge k p q [] = refl
total_at-merge k p q ((p', q') ∷ xs) = ground arith

-- Grouping keeps the quantity at every price.
pub total_at-group : (k : ℕ) (xs : List Level) → total_at k (group xs) ≡ total_at k xs
total_at-group k [] = refl
total_at-group k ((p, q) ∷ xs) =
    total_at-merge k p q (group xs)
    ∙ ap (λ (t : ℕ). if k == p then q + t else t) (total_at-group k xs)

pub merge-merge : (p q q' : ℕ) (xs : List Level) → merge p q (merge p q' xs) ≡ merge p (q + q') xs
merge-merge p q q' [] = rw (==_refl p) refl
merge-merge p q q' ((p'', q'') ∷ xs) = ground arith

pub merge-skip :
    (p q p' q' : ℕ) (xs : List Level)
    → p ≢ p'
    → merge p q (merge p' q' xs) ≡ (p, q) ∷ merge p' q' xs
merge-skip p q p' q' [] h = rw (==_false p p' h) refl
merge-skip p q p' q' ((p'', q'') ∷ xs) h = ground arith

-- Prices in the order `R`: strictly, or with equal prices together.
module _ (R : ℕ → ℕ → Type 0) where
  abbrev pub IsStrict : List Level → Type 0
  IsStrict [] = Unit
  IsStrict (x ∷ xs) = All (λ y. R x.0 y.0) xs × IsStrict xs

  abbrev pub IsWeak : List Level → Type 0
  IsWeak [] = Unit
  IsWeak (x ∷ xs) = All (λ y. (x.0 ≡ y.0) ⊎ R x.0 y.0) xs × IsWeak xs

All-merge :
    (P : ℕ → Type 0) (p q : ℕ) (xs : List Level)
    → P p
    → All (λ y. P y.0) xs
    → All (λ y. P y.0) (merge p q xs)
All-merge P p q [] hp h = (hp, tt)
All-merge P p q ((p', q') ∷ xs) hp h = elim (Nat-cases p p') [
  | inl same ↦ rw (==_true p p' same) (hp, h.1)
  | inr other ↦ rw (==_false p p' other) (hp, h)
]

All-group : (P : ℕ → Type 0) (xs : List Level) → All (λ y. P y.0) xs → All (λ y. P y.0) (group xs)
All-group P [] h = tt
All-group P ((p, q) ∷ xs) h = All-merge P p q (group xs) h.0 (All-group P xs h.1)

module _ (R : ℕ → ℕ → Type 0) (R_trans : (a b c : ℕ) → R a b → R b c → R a c) where
  merge-IsStrict :
      (p q : ℕ) (xs : List Level)
      → All (λ y. (p ≡ y.0) ⊎ R p y.0) xs
      → IsStrict R xs
      → IsStrict R (merge p q xs)
  merge-IsStrict p q [] h v = (tt, tt)
  merge-IsStrict p q ((p', q') ∷ xs) h v = elim (Nat-cases p p') [
    | inl same ↦ rw (==_true p p' same) (All-map (λ y r. rw same r) xs v.0, v.1)
    | inr other ↦ rw (==_false p p' other) (below other h.0)
  ]
    where
      below : p ≢ p' → (p ≡ p') ⊎ R p p' → IsStrict R ((p, q) ∷ (p', q') ∷ xs)
      below other (inl same) = absurd (other same)
      below other (inr r) = ((r, All-map (λ y s. R_trans p p' y.0 r s) xs v.0), v)

  -- Grouping orders whose prices are in order leaves one level for each price, in the order.
  pub group-IsStrict : (xs : List Level) → IsWeak R xs → IsStrict R (group xs)
  group-IsStrict [] h = tt
  group-IsStrict ((p, q) ∷ xs) h =
      merge-IsStrict p q (group xs) (All-group (λ y. (p ≡ y) ⊎ R p y) xs h.0)
        (group-IsStrict xs h.1)

total_at-append :
    (k : ℕ) (xs ys : List Level) → total_at k (xs ++ ys) ≡ total_at k xs + total_at k ys
total_at-append k [] ys = omega arith
total_at-append k ((p, q) ∷ xs) ys = ground (arith, total_at-append k xs ys)

-- The quantity at a price does not depend on the direction of the list.
pub total_at-reverse : (k : ℕ) (xs : List Level) → total_at k (reverse xs) ≡ total_at k xs
total_at-reverse k [] = refl
total_at-reverse k (x ∷ xs) =
    rw (reverse-cons x xs, total_at-append k (reverse xs) (x ∷ []), total_at-reverse k xs)
      (ground arith)

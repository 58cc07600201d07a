-- ===== src/Exchange/Channel.antt =====
-- A channel that keeps the order of its packets and may lose any of them: what holds of its contents
-- in two runs, one behind the other.
use ospfbasic.Prelude.{◌⊎◌, inl, inr, List, [], ◌∷◌, ◌++◌, All}

-- Packets of the first kind, with those of the second kind behind them.
abbrev pub TwoRuns {ℓ κ} : {A : Type ℓ} → (A → Type κ) → (A → Type κ) → List A → Type κ
TwoRuns P Q [] = Unit
TwoRuns P Q (x ∷ xs) = (P x × TwoRuns P Q xs) ⊎ (Q x × All Q xs)

module _ {ℓ κ} {A : Type ℓ} (P Q : A → Type κ) where
  pub All-sent : (xs : List A) (x : A) → All Q xs → Q x → All Q (xs ++ x ∷ [])
  All-sent [] x a q = (q, tt)
  All-sent (y ∷ ys) x a q = (a.0, All-sent ys x a.1 q)

  pub All-lost : (xs : List A) (x : A) (ys : List A) → All Q (xs ++ x ∷ ys) → All Q (xs ++ ys)
  All-lost [] x ys a = a.1
  All-lost (z ∷ zs) x ys a = (a.0, All-lost zs x ys a.1)

  pub TwoRuns-one : (xs : List A) → All P xs → TwoRuns P Q xs
  TwoRuns-one [] a = tt
  TwoRuns-one (x ∷ xs) a = inl (a.0, TwoRuns-one xs a.1)

  TwoRuns-second : (xs : List A) → All Q xs → TwoRuns P Q xs
  TwoRuns-second [] a = tt
  TwoRuns-second (x ∷ xs) a = inr (a.0, a.1)

  -- A packet of the second kind is sent, and any packet is lost.
  pub TwoRuns-sent : (xs : List A) (x : A) → TwoRuns P Q xs → Q x → TwoRuns P Q (xs ++ x ∷ [])
  TwoRuns-sent [] x t q = inr (q, tt)
  TwoRuns-sent (y ∷ ys) x (inl (p, t)) q = inl (p, TwoRuns-sent ys x t q)
  TwoRuns-sent (y ∷ ys) x (inr (p, t)) q = inr (p, All-sent ys x t q)

  pub TwoRuns-lost :
      (xs : List A) (x : A) (ys : List A) → TwoRuns P Q (xs ++ x ∷ ys) → TwoRuns P Q (xs ++ ys)
  TwoRuns-lost [] x ys (inl (p, t)) = t
  TwoRuns-lost [] x ys (inr (q, t)) = TwoRuns-second ys t
  TwoRuns-lost (z ∷ zs) x ys (inl (p, t)) = inl (p, TwoRuns-lost zs x ys t)
  TwoRuns-lost (z ∷ zs) x ys (inr (q, t)) = inr (q, All-lost zs x ys t)

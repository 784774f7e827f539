-- ===== src/Prelude/Elements.antt =====
-- What holds of every element of a list.
use mathlib.Core.Path.{◌≡◌, subst}
use mathlib.Core.Logic.{inl, inr, ite}
use mathlib.Core.Option.{some}
use mathlib.Core.List.{List, [], ◌∷◌, ◌++◌}
use native.Mathlib.Omega.{arith}
use tradecast.Prelude.Lists.{pop_last, remove_first}
use tradecast.Prelude.Tests.{Option-cases}

module _ {ℓ κ} {A : Type ℓ} where
  abbrev pub Every : (A → Type κ) → List A → Type κ
  Every P [] = Unit
  Every P (x ∷ xs) = P x × Every P xs

  pub Every-append :
      (P : A → Type κ) (xs ys : List A) → Every P xs → Every P ys → Every P (xs ++ ys)
  Every-append P [] ys h k = k
  Every-append P (x ∷ xs) ys h k = (h.0, Every-append P xs ys h.1 k)

  pub Every-weaken :
      (P Q : A → Type κ) (xs : List A) → ((x : A) → P x → Q x) → Every P xs → Every Q xs
  Every-weaken P Q [] w h = tt
  Every-weaken P Q (x ∷ xs) w h = (w x h.0, Every-weaken P Q xs w h.1)

  pub Every-remove_first {μ} :
      {Q : A → Type μ} (P : A → Type κ) (d : (a : A) → Dec (Q a)) (xs : List A)
      → Every P xs
      → Every P (remove_first d xs)
  unfolding remove_first
  Every-remove_first P d [] h = tt
  Every-remove_first P d (x ∷ xs) h =
      elim (d x) as (λ e. Every P (ite e xs (x ∷ remove_first d xs))) [
        | yes hit ↦ h.1
        | no miss ↦ (h.0, Every-remove_first P d xs h.1)
      ]

  pub Every-pop_last :
      (P : A → Type κ) (xs ys : List A) (y : A)
      → pop_last xs ≡ some (ys, y)
      → Every P xs
      → Every P ys × P y
  unfolding pop_last
  Every-pop_last P [] ys y e h = absurd (ground (arith, e))
  Every-pop_last P (x ∷ xs) ys y e h = elim (Option-cases (pop_last xs)) [
    | inl q ↦
        let same : ([], x) ≡ (ys, y) = ground (arith, e, q) in
        subst (λ (r : List A × A). Every P r.0 × P r.1) same (tt, h.0)
    | inr ((zs, z), q) ↦
        let same : (x ∷ zs, z) ≡ (ys, y) = ground (arith, e, q) in
        let (init, last) = Every-pop_last P xs zs z q h.1 in
        subst (λ (r : List A × A). Every P r.0 × P r.1) same ((h.0, init), last)
  ]

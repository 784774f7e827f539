-- ===== src/Prelude/Trim.antt =====
-- `strings.TrimSpace` and `strings.ToUpper` leave what they made as it is.
use Prim.Native.Nat.{ℕ, ◌≤◌}
use mathlib.Core.Path.{◌≡◌, refl, ap, sym, ◌∙◌, subst}
use mathlib.Core.Logic.{inl, inr}
use mathlib.Core.Bool.{Bool}
use mathlib.Core.List.{[], ◌∷◌, ◌++◌, map, reverse, reverse-append, reverse-reverse, reverse-cons}
use native.Mathlib.Omega.{arith}
use tradecast.Prelude.Tests.{Bool-cases, if◌then◌else◌}
use tradecast.Prelude.Lists.{length}
use tradecast.Prelude.Texts.{
  Text, trim_left, trim, trim_space, upper, to_upper, to_upper_idem, is_space,
}

module _ (p : ℕ → Bool) where
  length-trim_left : (s : Text) → length (trim_left p s) ≤ length s
  unfolding trim_left
  length-trim_left [] = omega arith
  length-trim_left (c ∷ s) = ground (arith, length-trim_left s)

  trim_left_idem : (s : Text) → trim_left p (trim_left p s) ≡ trim_left p s
  unfolding trim_left
  trim_left_idem [] = refl
  trim_left_idem (c ∷ s) = ground (arith, trim_left_idem s)

  -- what TrimLeft drops
  abbrev dropped : Text → Text
  dropped [] = []
  dropped (c ∷ s) = if p c then c ∷ dropped s else []

  dropped-trim_left : (s : Text) → dropped s ++ trim_left p s ≡ s
  unfolding trim_left
  dropped-trim_left [] = refl
  dropped-trim_left (c ∷ s) = ground (arith, dropped-trim_left s)

  trim_left-prefix : (s t : Text) → trim_left p (s ++ t) ≡ s ++ t → trim_left p s ≡ s
  unfolding trim_left
  trim_left-prefix [] t h = refl
  trim_left-prefix (c ∷ s) t h = elim (Bool-cases (p c)) [
    | inl e ↦ absurd (ground (arith, e, ap length h, length-trim_left (s ++ t)))
    | inr e ↦ ground (arith, e)
  ]

  trim_idem : (s : Text) → trim p (trim p s) ≡ trim p s
  unfolding trim
  trim_idem s =
      let u = trim_left p s in
      let v = trim_left p (reverse u) in
      let split : reverse v ++ reverse (dropped (reverse u)) ≡ u =
        sym (reverse-append (dropped (reverse u)) v)
        ∙ ap reverse (dropped-trim_left (reverse u))
        ∙ reverse-reverse u in
      let clean : trim_left p (reverse v) ≡ reverse v =
        trim_left-prefix (reverse v) (reverse (dropped (reverse u)))
          (subst (λ x. trim_left p x ≡ x) (sym split) (trim_left_idem s)) in
      ap (λ x. reverse (trim_left p (reverse x))) clean
      ∙ ap (λ x. reverse (trim_left p x)) (reverse-reverse v)
      ∙ ap reverse (trim_left_idem (reverse u))

map-append : (f : ℕ → ℕ) (s t : Text) → map f (s ++ t) ≡ map f s ++ map f t
map-append f [] t = refl
map-append f (c ∷ s) t = ap (λ x. f c ∷ x) (map-append f s t)

map-reverse : (f : ℕ → ℕ) (s : Text) → map f (reverse s) ≡ reverse (map f s)
map-reverse f [] = refl
map-reverse f (c ∷ s) =
    ap (map f) (reverse-cons c s)
    ∙ map-append f (reverse s) (c ∷ [])
    ∙ ap (λ x. x ++ f c ∷ []) (map-reverse f s)
    ∙ sym (reverse-cons (f c) (map f s))

is_space-upper : (c : ℕ) → is_space (upper c) ≡ is_space c
unfolding is_space upper
is_space-upper c = ground arith

trim_left-to_upper : (s : Text) → trim_left is_space (to_upper s) ≡ to_upper (trim_left is_space s)
unfolding trim_left to_upper
trim_left-to_upper [] = refl
trim_left-to_upper (c ∷ s) = ground (arith, is_space-upper c, trim_left-to_upper s)

trim_space-to_upper : (s : Text) → trim_space (to_upper s) ≡ to_upper (trim_space s)
unfolding trim_space trim to_upper
trim_space-to_upper s =
    ap (λ x. reverse (trim_left is_space (reverse x))) (trim_left-to_upper s)
    ∙ ap (λ x. reverse (trim_left is_space x)) (sym (map-reverse upper (trim_left is_space s)))
    ∙ ap reverse (trim_left-to_upper (reverse (trim_left is_space s)))
    ∙ sym (map-reverse upper (trim_left is_space (reverse (trim_left is_space s))))

-- A symbol that was trimmed and put in upper case stays the same when that is done again.
pub normalized : (s : Text) → let t = to_upper (trim_space s) in to_upper (trim_space t) ≡ t
unfolding trim_space
normalized s =
    ap to_upper (trim_space-to_upper (trim_space s))
    ∙ to_upper_idem (trim_space (trim_space s))
    ∙ ap to_upper (trim_idem is_space s)

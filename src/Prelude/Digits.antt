-- ===== src/Prelude/Digits.antt =====
-- What `format_int` writes can be read back, and has none but digits and a minus in it.
use Prim.Native.Nat.{ℕ, zero, suc, ◌+◌, ◌-◌, ◌*◌, ◌/◌, ◌%◌, ◌^◌, ◌<◌}
use mathlib.Core.Path.{◌≡◌, refl, ap, sym, ◌∙◌}
use mathlib.Core.Logic.{◌≢◌, ◌⊎◌, inl, inr}
use mathlib.Core.List.{[], ◌∷◌, ◌++◌, tail}
use native.Mathlib.Omega.{arith}
use tradecast.Prelude.Tests.{ltb, if-both, Bool-cases}
use tradecast.Prelude.Int.{ℤ, pos, negsuc}
use tradecast.Prelude.Texts.{Text, Lacks}
use tradecast.Prelude.Decimal.{digits, format_int}

-- the number that digits stand for, after those of `n`
abbrev read : ℕ → Text → ℕ
read n [] = n
read n (c ∷ s) = read (10 * n + (c - b'0')) s

read-append : (n : ℕ) (s t : Text) → read n (s ++ t) ≡ read (read n s) t
read-append n [] t = refl
read-append n (c ∷ s) t = read-append (10 * n + (c - b'0')) s t

read-digits : (fuel n : ℕ) → n < 10 ^ fuel → read 0 (digits fuel n) ≡ n
unfolding digits
read-digits zero n h = omega (arith, h)
read-digits (suc fuel) n h = elim (Bool-cases (ltb n 10)) [
  | inl e ↦ rw e (ground (arith, e))
  | inr e ↦
      rw (e, read-append 0 (digits fuel (n / 10)) ((b'0' + n % 10) ∷ []))
        (rw (read-digits fuel (n / 10) (omega (arith, h))) (omega arith))
]

Lacks-append : (b : ℕ) (s t : Text) → Lacks b s → Lacks b t → Lacks b (s ++ t)
Lacks-append b [] t h k = k
Lacks-append b (c ∷ s) t h k = (h.0, Lacks-append b s t h.1 k)

-- no digit
abbrev pub IsOther : ℕ → Type 0
IsOther b = (b < b'0') ⊎ (b'9' < b)

Lacks-digits : (b fuel n : ℕ) → IsOther b → Lacks b (digits fuel n)
unfolding digits
Lacks-digits b zero n h = tt
Lacks-digits b (suc fuel) n h =
    let low : (b'0' + n % 10) ≢ b = λ e. omega (arith, h, e) in
    if-both (Lacks b) (ltb n 10) (low, tt)
      (Lacks-append b (digits fuel (n / 10)) ((b'0' + n % 10) ∷ []) (Lacks-digits b fuel (n / 10) h)
        (low, tt))

pub Lacks-format_int : (n : ℤ) → Lacks b':' (format_int n)
unfolding format_int
Lacks-format_int (pos n) = Lacks-digits b':' 20 n (inr (omega arith))
Lacks-format_int (negsuc n) =
    (λ e. omega (arith, e), Lacks-digits b':' 20 (suc n) (inr (omega arith)))

-- an int64
abbrev pub IsInt64 : ℤ → Type 0
IsInt64 (pos n) = n < 2 ^ 63
IsInt64 (negsuc n) = n < 2 ^ 63

digits_inj : (n m : ℕ) → n < 10 ^ 20 → m < 10 ^ 20 → digits 20 n ≡ digits 20 m → n ≡ m
digits_inj n m h k e = sym (read-digits 20 n h) ∙ ap (read 0) e ∙ read-digits 20 m k

Lacks-cons : (b : ℕ) (s t : Text) → Lacks b s → s ≢ b ∷ t
Lacks-cons b [] t h e = absurd (ground (arith, e))
Lacks-cons b (c ∷ s) t h e = h.0 (ground (arith, e))

pub format_int_inj : (n m : ℤ) → IsInt64 n → IsInt64 m → format_int n ≡ format_int m → n ≡ m
unfolding format_int
format_int_inj (pos n) (pos m) h k e =
    ap pos (digits_inj n m (omega (arith, h)) (omega (arith, k)) e)
format_int_inj (negsuc n) (negsuc m) h k e =
    let same : suc n ≡ suc m =
      digits_inj (suc n) (suc m) (omega (arith, h)) (omega (arith, k)) (ap tail e) in
    ap negsuc (omega (arith, same))
format_int_inj (pos n) (negsuc m) h k e =
    absurd (Lacks-cons b'-' _ _ (Lacks-digits b'-' 20 n (inl (omega arith))) e)
format_int_inj (negsuc n) (pos m) h k e =
    absurd (Lacks-cons b'-' _ _ (Lacks-digits b'-' 20 m (inl (omega arith))) (sym e))

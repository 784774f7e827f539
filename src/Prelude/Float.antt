-- ===== src/Prelude/Float.antt =====
-- float64 for the whole numbers that are not negative: the rounding of a result to 53 bits.
use Prim.Native.Nat.{ℕ, zero, suc, ◌+◌, ◌-◌, ◌*◌, ◌/◌, ◌%◌, ◌^◌, ◌≤◌, ◌<◌}
use mathlib.Core.Path.{◌≡◌, refl, sym, ap, ◌∙◌}
use mathlib.Core.Logic.{◌⊎◌, inl, inr}
use native.Mathlib.Omega.{arith}
use native.Mathlib.Nat.{
  two-pow-succ, one-le-pow, pow-le-pow_right, mul-le-mul_right, mul-lt-mul_of_pos_right,
  lt_of_mul-lt-mul_right, le-div_iff_mul-le, div-add-mod', div-one, mod-one,
}
use tradecast.Prelude.Tests.{ltb, leb, if◌then◌else◌}

-- How often a number is halved until it has at most 53 bits, but not more often than `k` times.
unfoldable pub exponent : ℕ → ℕ → ℕ
exponent zero n = 0
exponent (suc k) n = let e = exponent k (n / 2) in if ltb n (2 ^ 53) then 0 else suc e

-- The nearest multiple of `s`; of two that are equally near, the even one.
unfoldable pub nearest : ℕ → ℕ → ℕ
nearest n s =
    let q = n / s in
    let twice = 2 * (n % s) in
    if ltb twice s
    then q * s
    else if ltb s twice
    then (q + 1) * s
    else if leb (q % 2) 0
    then q * s
    else (q + 1) * s

-- The float64 of a number. The largest one has 1,024 bits, so that 971 halvings are enough; above
-- it the code has the infinity, which is as far above every bound that the code tests.
unfoldable pub float : ℕ → ℕ
float n = nearest n (2 ^ exponent 971 n)

nearest-cases :
    (n s : ℕ) → (nearest n s ≡ n / s * s) ⊎ ((nearest n s ≡ (n / s + 1) * s) × (s ≤ 2 * (n % s)))
unfolding nearest
nearest-cases n s = ground arith

nearest-one : (n : ℕ) → nearest n 1 ≡ n
unfolding nearest
nearest-one n = ground (arith, div-one n, mod-one n)

exponent_small : (k n : ℕ) → n < 2 ^ 53 → exponent k n ≡ 0
unfolding exponent
exponent_small zero n h = refl
exponent_small (suc k) n h = ground (arith, h)

-- A number of at most 53 bits is a float64.
pub float-exact : (n : ℕ) → n < 2 ^ 53 → float n ≡ n
unfolding float
float-exact n h = rw (exponent_small 971 n h) (nearest-one n)

exponent-le : (k n : ℕ) → 0 < n → 2 ^ exponent k n ≤ n
unfolding exponent
exponent-le zero n h = ground (arith, h)
exponent-le (suc k) n h =
    ground (arith, h, two-pow-succ (exponent k (n / 2)), exponent-le k (n / 2))

double : (c x y a b : ℕ) → a ≡ x + x → b ≡ y + y → c * x ≡ y → c * a ≡ b
double c x y a b ha hb h = grind (arith, ha, hb, h)

-- A power of two is a multiple of each smaller one.
pow_multiple : (e j : ℕ) → e ≤ j → (c : ℕ) × (c * 2 ^ e ≡ 2 ^ j)
pow_multiple zero j h = (2 ^ j, grind arith)
pow_multiple (suc e) zero h = absurd (omega (arith, h))
pow_multiple (suc e) (suc j) h =
    let (c, q) = pow_multiple e j (omega (arith, h)) in
    (c, double c _ _ _ _ (two-pow-succ e) (two-pow-succ j) q)

-- The rounding of `n` to multiples of `s` does not pass a multiple of `s`.
nearest-lower : (n s c : ℕ) → 0 < s → c * s ≤ n → c * s ≤ nearest n s
nearest-lower n s c hs h =
    let below = mul-le-mul_right s ((le-div_iff_mul-le hs).1 h) in
    elim (nearest-cases n s) [
      | inl down ↦ omega (arith, down, below)
      | inr (up, half) ↦ grind (arith, up, below)
    ]

nearest-upper : (n s c : ℕ) → 0 < s → n ≤ c * s → nearest n s ≤ c * s
nearest-upper n s c hs h =
    let parts = div-add-mod' n s in
    elim (nearest-cases n s) [
      | inl down ↦ omega (arith, down, parts, h)
      | inr (up, half) ↦
          let less : n / s < c = lt_of_mul-lt-mul_right s (omega (arith, parts, half, hs, h)) in
          rw up (mul-le-mul_right s (omega (arith, less)))
    ]

pow_order : (e j : ℕ) → 2 ^ e ≤ 2 ^ j → e ≤ j
pow_order e j h = ground (
  arith,
  h,
  two-pow-succ j,
  one-le-pow j 2 (omega arith),
  λ (q : suc j ≤ e). pow-le-pow_right {n = 2} (omega arith) q,
)

le-cases : (a b : ℕ) → (a ≤ b) ⊎ (b < a)
le-cases a b = ground arith

nearest-pow_lower : (n e j : ℕ) → 2 ^ e ≤ n → 2 ^ j ≤ n → 2 ^ j ≤ nearest n (2 ^ e)
nearest-pow_lower n e j small h = elim (le-cases e j) [
  | inl below ↦
      let (c, q) = pow_multiple e j below in
      rw (sym q) (nearest-lower n (2 ^ e) c (one-le-pow e 2 (omega arith)) (rw q h))
  | inr above ↦ omega (
    arith,
    pow-le-pow_right {n = 2} (omega arith) {i = j} {j = e} (omega (arith, above)),
    nearest-lower n (2 ^ e) 1 (one-le-pow e 2 (omega arith)) (omega (arith, small)),
  )
]

-- The float64 of a number that is not below a power of two is not below it either.
pub float-lower : (n j : ℕ) → 2 ^ j ≤ n → 2 ^ j ≤ float n
unfolding float
float-lower n j h =
    let positive : 0 < n = omega (arith, h, one-le-pow j 2 (omega arith)) in
    nearest-pow_lower n (exponent 971 n) j (exponent-le 971 n positive) h

nearest-pow_upper : (n e j : ℕ) → 2 ^ e ≤ n → n ≤ 2 ^ j → nearest n (2 ^ e) ≤ 2 ^ j
nearest-pow_upper n e j small h =
    let (c, q) = pow_multiple e j (pow_order e j (omega (arith, small, h))) in
    rw (sym q) (nearest-upper n (2 ^ e) c (one-le-pow e 2 (omega arith)) (rw q h))

-- The float64 of a number that is not above a power of two is not above it either.
pub float-upper : (n j : ℕ) → n ≤ 2 ^ j → float n ≤ 2 ^ j
unfolding float
float-upper zero j h = omega (arith, float-exact 0 (omega arith))
float-upper (suc n) j h =
    nearest-pow_upper (suc n) (exponent 971 (suc n)) j (exponent-le 971 (suc n) (omega arith)) h

pow-add : (m a : ℕ) → 2 ^ m * 2 ^ a ≡ 2 ^ (m + a)
pow-add m zero = grind arith
pow-add m (suc a) =
    double _ _ _ _ _ (two-pow-succ a) (grind (arith, two-pow-succ (m + a))) (pow-add m a)

pow_split : (a j : ℕ) → a ≤ j → 2 ^ (j - a) * 2 ^ a ≡ 2 ^ j
pow_split a j h = pow-add (j - a) a ∙ ap (λ i. 2 ^ i) (omega (arith, h))

le_of_mul : (k m n : ℕ) → 0 < k → m * k ≤ n * k → m ≤ n
le_of_mul k m n hk h = elim (le-cases m n) [
  | inl below ↦ below
  | inr above ↦ absurd (omega (arith, h, mul-lt-mul_of_pos_right above hk))
]

nonzero : (b x : ℕ) → 0 < b * x → 1 ≤ b
nonzero zero x h = absurd (grind (arith, h))
nonzero (suc b) x h = omega arith

-- The product of a float64 and a power of two is exact. It is not below a power of two that the
-- product of the number is not below, and not above one that it is not above.
pub float-scaled_lower : (b a j : ℕ) → 2 ^ j ≤ b * 2 ^ a → 2 ^ j ≤ float b * 2 ^ a
float-scaled_lower b a j h = elim (le-cases a j) [
  | inl small ↦
      let split = pow_split a j small in
      let below = le_of_mul (2 ^ a) (2 ^ (j - a)) b (one-le-pow a 2 (omega arith)) (rw split h) in
      rw (sym split) (mul-le-mul_right (2 ^ a) (float-lower b (j - a) below))
  | inr large ↦
      let positive = nonzero b (2 ^ a) (omega (arith, h, one-le-pow j 2 (omega arith))) in
      omega (
        arith,
        mul-le-mul_right (2 ^ a) (float-lower b 0 positive),
        pow-le-pow_right {n = 2} (omega arith) {i = j} {j = a} (omega (arith, large)),
      )
]

pub float-scaled_upper : (b a j : ℕ) → b * 2 ^ a ≤ 2 ^ j → float b * 2 ^ a ≤ 2 ^ j
float-scaled_upper zero a j h = rw (float-exact 0 (omega arith)) (grind arith)
float-scaled_upper (suc b) a j h =
    let once = mul-le-mul_right {m = 1} {n = suc b} (2 ^ a) (omega arith) in
    let small = pow_order a j (omega (arith, once, h)) in
    let split = pow_split a j small in
    let below =
      le_of_mul (2 ^ a) (suc b) (2 ^ (j - a)) (one-le-pow a 2 (omega arith)) (rw split h) in
    rw (sym split) (mul-le-mul_right (2 ^ a) (float-upper (suc b) (j - a) below))

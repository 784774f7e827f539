-- ===== src/Store/Scopes/RoundTrip.antt =====
-- The array literals of scopes, and their parser.
use mathlib.Core.List.{reverse-cons, reverse-append, reverse-reverse}
use tradecast.Prelude.{
  ◌≡◌, ◌≢◌, refl, ap, ◌∙◌, false, List, [], ◌∷◌, ◌++◌, Text, codes, is_empty, trim, trim_space,
  arith, any, ◌||◌, ◌&&◌, ◌==◌, leb, trim_left, reverse, ℕ, Bool, true, text_eq, to_upper,
}
use tradecast.Prelude.Texts.{is_space}
use tradecast.Store.Scopes.{
  comma, join, scopes_to_array, split, keep_parts, is_brace, parse_postgres_array,
}

-- A letter, a digit, or one of the marks that the names of scopes use.
unfoldable pub is_word : ℕ → Bool
is_word c =
    (leb b'a' c && leb c b'z')
    || (leb b'A' c && leb c b'Z')
    || (leb b'0' c && leb c b'9')
    || c == b':'
    || c == b'_'
    || c == b'-'
    || c == b'.'

-- Only such bytes.
abbrev IsPlain : Text → Type 0
IsPlain [] = Unit
IsPlain (c ∷ s) = (is_word c ≡ true) × IsPlain s

-- A scope that an array literal holds without quotes: not empty, made of letters, digits and the
-- marks `:_-.`, and not `null` in any case.
abbrev pub IsScope : Text → Type 0
IsScope s = (is_empty s ≡ false) × IsPlain s × (text_eq (to_upper s) (codes "NULL") ≡ false)

abbrev pub AllScopes : List Text → Type 0
AllScopes [] = Unit
AllScopes (p ∷ ps) = IsScope p × AllScopes ps

word-lem : (c : ℕ) → is_word c ≡ true → (c ≢ comma) × (is_brace c ≡ false) × (is_space c ≡ false)
unfolding is_word is_space
word-lem c h = ground (arith, h)

split-plain : (p : Text) → IsPlain p → split p ≡ p ∷ []
unfolding split
split-plain [] h = refl
split-plain (c ∷ p) (w, h) = let other = (word-lem c w).0 in ground (arith, other, split-plain p h)

split-comma : (p s : Text) → IsPlain p → split (p ++ comma ∷ s) ≡ p ∷ split s
unfolding split
split-comma [] s h = ground arith
split-comma (c ∷ p) s (w, h) =
    let other = (word-lem c w).0 in ground (arith, other, split-comma p s h)

split-join : (p : Text) (ps : List Text) → AllScopes (p ∷ ps) → split (join (p ∷ ps)) ≡ p ∷ ps
unfolding join
split-join p [] ((e, h, n), _) = split-plain p h
split-join p (q ∷ ps) ((e, h, n), rest) =
    split-comma p (join (q ∷ ps)) h ∙ ap (λ xs. p ∷ xs) (split-join q ps rest)

module _ (t : ℕ → Bool) where
  any-append : (s u : Text) → any t (s ++ u) ≡ (any t s || any t u)
  unfolding any
  any-append [] u = ground arith
  any-append (c ∷ s) u = ground (arith, any-append s u)

  any-reverse : (s : Text) → any t (reverse s) ≡ any t s
  unfolding any
  any-reverse [] = refl
  any-reverse (c ∷ s) =
      rw (reverse-cons c s, any-append (reverse s) (c ∷ []), any-reverse s) (ground arith)

  trim_left-plain : (s : Text) → any t s ≡ false → trim_left t s ≡ s
  unfolding any trim_left
  trim_left-plain [] h = refl
  trim_left-plain (c ∷ s) h = ground (arith, h)

  trim-plain : (s : Text) → any t s ≡ false → trim t s ≡ s
  unfolding trim
  trim-plain s h =
      rw (trim_left-plain s h, trim_left-plain (reverse s) (any-reverse s ∙ h)) (reverse-reverse s)

trim_space-plain : (s : Text) → IsPlain s → any is_space s ≡ false
unfolding any
trim_space-plain [] h = refl
trim_space-plain (c ∷ s) (w, h) =
    let other = (word-lem c w).2 in ground (arith, other, trim_space-plain s h)

keep_parts-all : (ps : List Text) → AllScopes ps → keep_parts ps ≡ ps
unfolding keep_parts trim_space
keep_parts-all [] h = refl
keep_parts-all (p ∷ ps) ((e, h, n), rest) =
    rw (trim-plain is_space p (trim_space-plain p h)) (ground (arith, e, keep_parts-all ps rest))

-- No brace in a text.
abbrev HasNoBrace : Text → Type 0
HasNoBrace s = any is_brace s ≡ false

plain-HasNoBrace : (s : Text) → IsPlain s → HasNoBrace s
unfolding any
plain-HasNoBrace [] h = refl
plain-HasNoBrace (c ∷ s) (w, h) =
    let other = (word-lem c w).1 in ground (arith, other, plain-HasNoBrace s h)

join-HasNoBrace : (ps : List Text) → AllScopes ps → HasNoBrace (join ps)
unfolding join any
join-HasNoBrace [] h = refl
join-HasNoBrace (p ∷ []) ((e, h, n), _) = plain-HasNoBrace p h
join-HasNoBrace (p ∷ q ∷ ps) ((e, h, n), rest) =
    rw (any-append is_brace p (comma ∷ join (q ∷ ps)))
      (ground (arith, plain-HasNoBrace p h, join-HasNoBrace (q ∷ ps) rest))

trim_left-body :
    (s t : Text) → is_empty s ≡ false → HasNoBrace s → trim_left is_brace (s ++ t) ≡ s ++ t
unfolding any trim_left
trim_left-body [] t e h = ground (arith, e)
trim_left-body (c ∷ s) t e h = ground (arith, h)

trim_left-open : (s : Text) → trim_left is_brace (b'{' ∷ s) ≡ trim_left is_brace s
unfolding trim_left
trim_left-open s = refl

trim_left-close : (s : Text) → trim_left is_brace (b'}' ∷ s) ≡ trim_left is_brace s
unfolding trim_left
trim_left-close s = refl

trim-body :
    (s : Text) → is_empty s ≡ false → HasNoBrace s → trim is_brace (b'{' ∷ s ++ b'}' ∷ []) ≡ s
unfolding trim
trim-body s e h =
    rw
      (
        trim_left-open (s ++ b'}' ∷ []),
        trim_left-body s (b'}' ∷ []) e h,
        reverse-append s (b'}' ∷ []),
        trim_left-close (reverse s),
        trim_left-plain is_brace (reverse s) (any-reverse is_brace s ∙ h),
      )
      (reverse-reverse s)

join_full : (p : Text) (ps : List Text) → is_empty p ≡ false → is_empty (join (p ∷ ps)) ≡ false
unfolding join
join_full [] ps e = ground (arith, e)
join_full (c ∷ p) [] e = refl
join_full (c ∷ p) (q ∷ ps) e = refl

no_scopes : parse_postgres_array (codes "{}") ≡ []
unfolding parse_postgres_array trim trim_left
no_scopes = refl

-- The parser reads the literals of such scopes.
pub parse_postgres_array-scopes_to_array :
    (ps : List Text) → AllScopes ps → parse_postgres_array (scopes_to_array ps) ≡ ps
unfolding parse_postgres_array scopes_to_array
parse_postgres_array-scopes_to_array [] h = no_scopes
parse_postgres_array-scopes_to_array (p ∷ ps) h =
    rw
      (
        trim-body (join (p ∷ ps)) (join_full p ps h.0.0) (join-HasNoBrace (p ∷ ps) h),
        join_full p ps h.0.0,
        split-join p ps h,
      )
      (keep_parts-all (p ∷ ps) h)

-- ===== src/Base/Strings.antt =====
-- Go strings: equality, and what the code uses of package strings.
use Prim.Native.Char.{Char, code}
use Prim.Native.String.{String, len, slice, ◌++◌ as ◌<>◌}
use mathlib.Core.Path.{◌≡◌}
use mathlib.Core.Logic.{ite, dite}
use mathlib.Core.Bool.{Bool, true, false, ◌&&◌, Bool-discrete}
use mathlib.Core.List.{List, [], ◌∷◌}
use Prim.Native.Nat.{ℕ, ◌+◌, ◌-◌}
use native.Mathlib.Omega.{arith}
use text.Mathlib.Text
use text.Mathlib.TextEquality.{eq_iff}
use text.Mathlib.TextPositions.{
  len-append, slice-append_left, slice-append_right, starts_with-append, eq_refl,
}
use kube_overlay_operator.Base.Tests.{nat_eq, leb, if◌then◌else◌}

-- Shut in proofs, where a split on `s == t` yields the equation or its negation.
unfoldable pub string_dec : Discrete String
string_dec s t =
    dite (Bool-discrete (Text.◌==◌ s t) true) (λ same. yes ((eq_iff s t).0 same))
      (λ differ. no (λ p. differ ((eq_iff s t).1 p)))

infix 50 ◌==◌
abbrev pub ◌==◌ : String → String → Bool
s == t = ite (string_dec s t) true false

-- strings.HasPrefix(s, prefix)
unfoldable pub has_prefix : String → String → Bool
has_prefix s prefix = Text.starts_with s prefix

-- strings.TrimPrefix(s, prefix)
unfoldable pub trim_prefix : String → String → String
unfolding has_prefix
trim_prefix s prefix = if has_prefix s prefix then slice s (len prefix) (len s) else s

pub has_prefix-append : (p s : String) → has_prefix (p <> s) p ≡ true
unfolding has_prefix
has_prefix-append p s = starts_with-append p s

pub trim_prefix-append : (p s : String) → trim_prefix (p <> s) p ≡ s
unfolding trim_prefix
trim_prefix-append p s = rw (starts_with-append p s, len-append p s, slice-append_right p s)

-- A character in front of the first of the pieces.
abbrev pub cons_first : Char → List String → List String
cons_first c [] = (String.◌∷◌ c String.[]) ∷ []
cons_first c (w ∷ ws) = (String.◌∷◌ c w) ∷ ws

-- strings.Split(s, sep), at a separator of one character, by its code point.
unfoldable pub split : String → ℕ → List String
split String.[] sep = String.[] ∷ []
split (String.◌∷◌ c s) sep =
    let rest = split s sep in if nat_eq (code c) sep then String.[] ∷ rest else cons_first c rest

-- strings.TrimSuffix(s, suffix)
unfoldable pub trim_suffix : String → String → String
trim_suffix s suffix =
    if leb (len suffix) (len s) && Text.◌==◌ (slice s (len s - len suffix) (len s)) suffix
    then slice s 0 (len s - len suffix)
    else s

pub trim_suffix-append : (s t : String) → trim_suffix (s <> t) t ≡ s
unfolding trim_suffix
trim_suffix-append s t =
    let cut : len s + len t - len t ≡ len s = omega arith in
    let fits : leb (len t) (len s + len t) ≡ true = ground arith in
    rw (len-append s t, cut, fits, slice-append_right s t, eq_refl t, slice-append_left s t)

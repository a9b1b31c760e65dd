-- ===== src/Base/Text.antt =====
-- C strings as lists of bytes, without the terminating NUL: literals, equality (`strcmp`), prefixes
-- and substrings (`strstr`), characters (`strchr`).
use Prim.Native.Nat.{ℕ}
use Prim.Native.Char.{code}
use Prim.Native.String.{String}
use mathlib.Core.Path.{◌≡◌, refl, ap}
use mathlib.Core.Logic.{◌↔◌, inl, inr}
use mathlib.Core.Bool.{Bool, true, false, ◌&&◌, ◌||◌}
use mathlib.Core.List.{List, [], ◌∷◌, ◌++◌}
use native.Mathlib.Omega.{arith}
use pg_plugins.Base.Tests.{◌==◌, Bool-cases}

abbrev pub Bytes : Type 0
Bytes = List ℕ

-- The code points of a literal, which are its bytes: the sources use ASCII only.
abbrev pub codes : String → Bytes
codes String.[] = []
codes (String.◌∷◌ c s) = code c ∷ codes s

-- strcmp(a, b) == 0
unfoldable pub str_eq : Bytes → Bytes → Bool
str_eq [] [] = true
str_eq [] (_ ∷ _) = false
str_eq (_ ∷ _) [] = false
str_eq (a ∷ s) (b ∷ t) = a == b && str_eq s t

pub str_eq→eq : (a b : Bytes) → str_eq a b ≡ true → a ≡ b
unfolding str_eq
str_eq→eq [] [] h = refl
str_eq→eq [] (_ ∷ _) h = ground arith
str_eq→eq (_ ∷ _) [] h = ground arith
str_eq→eq (a ∷ s) (b ∷ t) h = ground (arith, str_eq→eq s t)

pub str_eq_refl : (a : Bytes) → str_eq a a ≡ true
unfolding str_eq
str_eq_refl [] = refl
str_eq_refl (a ∷ s) = ground (arith, str_eq_refl s)

pub str_eq_iff : (a b : Bytes) → (str_eq a b ≡ true) ↔ (a ≡ b)
str_eq_iff a b = (str_eq→eq a b, λ e. cc (e, str_eq_refl a))

-- Whether `s` starts with `p`.
unfoldable pub starts_with : Bytes → Bytes → Bool
starts_with [] s = true
starts_with (_ ∷ _) [] = false
starts_with (a ∷ p) (b ∷ s) = a == b && starts_with p s

pub starts_with→append : (p s : Bytes) → starts_with p s ≡ true → (rest : Bytes) × (s ≡ p ++ rest)
unfolding starts_with
starts_with→append [] s h = (s, refl)
starts_with→append (_ ∷ _) [] h = ground arith
starts_with→append (a ∷ p) (b ∷ s) h =
    let (rest, e) = starts_with→append p s (ground arith) in
    let same : b ≡ a = ground arith in (rest, cc (e, same))

pub starts_with-append : (p rest : Bytes) → starts_with p (p ++ rest) ≡ true
unfolding starts_with
starts_with-append [] rest = refl
starts_with-append (a ∷ p) rest = ground (arith, starts_with-append p rest)

-- strstr(s, p) != NULL
unfoldable pub strstr : Bytes → Bytes → Bool
unfolding starts_with
strstr [] p = starts_with p []
strstr (c ∷ s) p = starts_with p (c ∷ s) || strstr s p

-- `p` stands somewhere in `s`.
abbrev pub Contains : Bytes → Bytes → Type 0
Contains s p = (before : Bytes) × (after : Bytes) × (s ≡ before ++ p ++ after)

pub strstr→Contains : (s p : Bytes) → strstr s p ≡ true → Contains s p
unfolding strstr
strstr→Contains [] p h = let (rest, e) = starts_with→append p [] h in ([], rest, e)
strstr→Contains (c ∷ s) p h = elim (Bool-cases (starts_with p (c ∷ s))) [
  | inl here ↦ let (rest, e) = starts_with→append p (c ∷ s) here in ([], rest, e)
  | inr there ↦
      let (before, after, e) = strstr→Contains s p (ground arith) in
      (c ∷ before, after, ap (λ (t : Bytes). c ∷ t) e)
]

strstr-append : (before p after : Bytes) → strstr (before ++ p ++ after) p ≡ true
unfolding strstr
strstr-append [] [] [] = refl
strstr-append [] [] (c ∷ after) = refl
strstr-append [] (a ∷ p) after = ground (arith, starts_with-append p after)
strstr-append (c ∷ before) p after = ground (arith, strstr-append before p after)

pub Contains→strstr : (s p : Bytes) → Contains s p → strstr s p ≡ true
Contains→strstr s p (before, after, e) = rw e (strstr-append before p after)

-- strchr(s, c) != NULL, for a byte `c` that is not NUL.
unfoldable pub strchr : Bytes → ℕ → Bool
strchr [] c = false
strchr (b ∷ s) c = b == c || strchr s c

pub strstr→not_Contains : (s p : Bytes) → strstr s p ≡ false → ¬ Contains s p
strstr→not_Contains s p e c = ground (arith, Contains→strstr s p c)

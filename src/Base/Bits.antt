-- ===== src/Base/Bits.antt =====
-- The law of `|` for numbers that share no bit, from the digits that the native operation stands
-- for, and the check of a test on every number of a small range.
use Prim.Native.Nat.{
  ℕ, zero, suc, ◌+◌, ◌*◌, ◌/◌, ◌^◌, ◌≤◌, ◌<◌, max, bit_or, digits, bit_or-bitwise,
}
use native.Mathlib.Nat.{pow-suc}
use mathlib.Core.Path.{◌≡◌, refl, ◌∙◌}
use mathlib.Core.Bool.{Bool, true, ◌&&◌}
use native.Mathlib.Omega.{arith}
use native.Mathlib.Decide.{dec_lt}

-- The test holds at each number below the bound.
unfoldable pub holds_below : (ℕ → Bool) → ℕ → Bool
holds_below test zero = true
holds_below test (suc bound) = holds_below test bound && test bound

pub holds_below→at :
    (test : ℕ → Bool) (bound i : ℕ) → i < bound → holds_below test bound ≡ true → test i ≡ true
unfolding holds_below
holds_below→at test zero i small every = absurd (omega arith)
holds_below→at test (suc bound) i small every = elim (dec_lt i bound) [
  | yes below ↦ holds_below→at test bound i below (ground arith)
  | no other ↦ let last : i ≡ bound = omega arith in rw last (ground arith)
]

-- Digit by digit, with as many steps as the larger bits may have: `|` with nothing.
digits-zero : (steps hi : ℕ) → hi ≤ steps → digits (λ d. d) max steps hi 0 ≡ hi
digits-zero zero hi enough = omega arith
digits-zero (suc steps) zero enough = refl
digits-zero (suc steps) (suc hi) enough =
    omega (arith, digits-zero steps (suc hi / 2) (omega arith))

-- The same for bits that lie above all those of the other number.
digits_disjoint :
    (steps k hi lo n : ℕ)
    → n ≡ hi * 2 ^ k
    → n ≤ steps
    → lo < 2 ^ k
    → digits (λ d. d) max steps n lo ≡ n + lo
digits_disjoint zero k hi lo n e enough small = omega arith
digits_disjoint (suc steps) k hi lo zero e enough small = omega arith
digits_disjoint (suc steps) zero hi lo (suc n) e enough small =
    let none : lo ≡ 0 = omega arith in
    rw none (omega (arith, digits-zero (suc steps) (suc n) enough))
digits_disjoint (suc steps) (suc k) hi lo (suc n) e enough small =
    let double : hi * 2 ^ suc k ≡ hi * 2 ^ k * 2 = rw pow-suc (omega arith) in
    omega (
      arith,
      digits_disjoint steps k hi (lo / 2) (suc n / 2) (omega arith) (omega arith)
          (omega (arith, pow-suc 2 k)),
    )

-- Bits below `2 ^ k` are added to a multiple of `2 ^ k`.
pub bit_or_disjoint : (k hi lo : ℕ) → lo < 2 ^ k → bit_or (hi * 2 ^ k) lo ≡ hi * 2 ^ k + lo
bit_or_disjoint k hi lo small =
    bit_or-bitwise (hi * 2 ^ k) lo ∙ digits_disjoint (hi * 2 ^ k) k hi lo _ refl (omega arith) small

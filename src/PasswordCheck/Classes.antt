-- ===== src/PasswordCheck/Classes.antt =====
-- The character classes that the scan of a password finds.
use Prim.Native.Nat.{bit_or}
use pg_plugins.Base.{
  ℕ, ◌<◌, ◌≡◌, refl, ◌⊎◌, inl, inr, Bool, true, false, ◌&&◌, ◌||◌, not, none, some, [], ◌∷◌, arith,
  Bytes, ltb, ◌==◌, strchr,
}
use pg_plugins.Base.Bits.{holds_below, holds_below→at}
use pg_plugins.PasswordCheck.{
  Ctype, has, class_of, scan, Class, lower, upper, number, special, class_bit,
}

-- Whether a character counts for a class: the first of the four tests that it passes decides.
unfoldable pub in_class : Ctype → Bytes → Class → ℕ → Bool
in_class c chars upper ch = c.isupper ch
in_class c chars lower ch = not (c.isupper ch) && c.islower ch
in_class c chars number ch = not (c.isupper ch) && not (c.islower ch) && c.isdigit ch
in_class c chars special ch =
    not (c.isupper ch) && not (c.islower ch) && not (c.isdigit ch) && strchr chars ch

-- Some character of the password counts for the class.
unfoldable pub occurs : Ctype → Bytes → Class → Bytes → Bool
occurs c chars k [] = false
occurs c chars k (ch ∷ s) = in_class c chars k ch || occurs c chars k s

-- Every character belongs to one of the classes.
unfoldable pub all_valid : Ctype → Bytes → Bytes → Bool
all_valid c chars [] = true
all_valid c chars (ch ∷ s) =
    (c.isupper ch || c.islower ch || c.isdigit ch || strchr chars ch) && all_valid c chars s

agree : Bool → Bool → Bool
agree true b = b
agree false b = not b

agree→eq : (a b : Bool) → agree a b ≡ true → a ≡ b
unfolding agree
agree→eq true b h = ground arith
agree→eq false b h = ground arith

-- What setting the bit of `k` does to the bit of `j`, for one value of the flags.
set_bit : Class → Class → ℕ → Bool
set_bit k j flag =
    ltb (bit_or flag (class_bit k)) 16
    && agree (has (bit_or flag (class_bit k)) (class_bit j))
        (has flag (class_bit j) || class_bit k == class_bit j)

set_bit_table : (k j : Class) → holds_below (set_bit k j) 16 ≡ true
unfolding holds_below set_bit agree
set_bit_table lower lower = refl
set_bit_table lower upper = refl
set_bit_table lower number = refl
set_bit_table lower special = refl
set_bit_table upper lower = refl
set_bit_table upper upper = refl
set_bit_table upper number = refl
set_bit_table upper special = refl
set_bit_table number lower = refl
set_bit_table number upper = refl
set_bit_table number number = refl
set_bit_table number special = refl
set_bit_table special lower = refl
set_bit_table special upper = refl
set_bit_table special number = refl
set_bit_table special special = refl

has_set_bit :
    (k j : Class) (flag : ℕ)
    → flag < 16
    → (bit_or flag (class_bit k) < 16)
      × (has (bit_or flag (class_bit k)) (class_bit j)
          ≡ (has flag (class_bit j) || class_bit k == class_bit j))
has_set_bit k j flag h = (ground (arith, holds), agree→eq _ _ (ground (arith, holds)))
  where
    holds :
        ltb (bit_or flag (class_bit k)) 16
          && agree
              (has (bit_or flag (class_bit k)) (class_bit j))
              (has flag (class_bit j) || class_bit k == class_bit j)
        ≡ true
    holds = unfold set_bit in holds_below→at (set_bit k j) 16 flag h (set_bit_table k j)

module _ (c : Ctype) (chars : Bytes) where
  abbrev is_valid : ℕ → Bool
  is_valid ch = c.isupper ch || c.islower ch || c.isdigit ch || strchr chars ch

  -- The character counts for `k` and for no other class.
  abbrev Only : ℕ → Class → Type 0
  Only ch k =
      (class_of c chars ch ≡ some (class_bit k))
      × (is_valid ch ≡ true)
      × ((j : Class) → in_class c chars j ch ≡ (class_bit k == class_bit j))

  counts :
      (ch : ℕ) (u l d p : Bool)
      → c.isupper ch ≡ u
      → c.islower ch ≡ l
      → c.isdigit ch ≡ d
      → strchr chars ch ≡ p
      → ((class_of c chars ch ≡ none) × (is_valid ch ≡ false)) ⊎ ((k : Class) × Only ch k)
  unfolding class_of in_class
  counts ch true l d p eu el ed ep = inr (
    upper,
    (
      ground arith,
      rw eu,
      elim [ lower ↦ rw eu | upper ↦ rw eu | number ↦ rw eu | special ↦ rw eu ],
    ),
  )
  counts ch false true d p eu el ed ep = inr (
    lower,
    (
      ground arith,
      ground arith,
      elim [ lower ↦ rw (eu, el) | upper ↦ rw eu | number ↦ rw (eu, el) | special ↦ rw (eu, el) ],
    ),
  )
  counts ch false false true p eu el ed ep = inr (
    number,
    (
      ground arith,
      ground arith,
      elim [
        | lower ↦ rw (eu, el)
        | upper ↦ rw eu
        | number ↦ rw (eu, el, ed)
        | special ↦ rw (eu, el, ed)
      ],
    ),
  )
  counts ch false false false true eu el ed ep = inr (
    special,
    (
      ground arith,
      ground arith,
      elim [
        | lower ↦ rw (eu, el)
        | upper ↦ rw eu
        | number ↦ rw (eu, el, ed)
        | special ↦ rw (eu, el, ed, ep)
      ],
    ),
  )
  counts ch false false false false eu el ed ep = inl (ground arith, ground arith)

  -- What the scan returns: none exactly where some character is in no class, and else flags that
  -- tell which classes occur.
  pub scan_lem :
      (flag : ℕ) (s : Bytes)
      → flag < 16
      → ((scan c chars flag s ≡ none) × (all_valid c chars s ≡ false))
        ⊎ ((f : ℕ) × (scan c chars flag s ≡ some f)
            × (all_valid c chars s ≡ true)
            × ((j : Class) → has f (class_bit j) ≡ (has flag (class_bit j) || occurs c chars j s)))
  unfolding scan all_valid occurs
  scan_lem flag [] h = inr (flag, refl, refl, λ j. ground arith)
  scan_lem flag (ch ∷ s) h = elim (counts ch _ _ _ _ refl refl refl refl) [
    | inl (bad, e) ↦ inl (rw (bad, scan), ground arith)
    | inr (k, (one, e, only)) ↦
        elim (scan_lem (bit_or flag (class_bit k)) s (has_set_bit k lower flag h).0) [
          | inl (bad, e') ↦ inl (rw (one, scan) bad, ground arith)
          | inr (f, found, e', bits) ↦ inr (
            f,
            rw (one, scan) found,
            ground arith,
            λ j. ground (arith, bits j, only j, has_set_bit k j flag h),
          )
        ]
  ]

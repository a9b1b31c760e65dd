-- ===== src/PasswordCheck/Missing.antt =====
-- passwordcheck_extra/passwordcheck_extra.c: the text of the message about missing classes.
use pg_plugins.Base.{
  ℕ, ◌<◌, ◌≡◌, refl, ap, ◌⊎◌, inl, inr, Bool, true, false, ◌&&◌, not, List, [], ◌∷◌, ◌++◌,
  append_assoc, append-nil, arith, Bytes, if◌then◌else◌, Bool-cases, length, length-append,
}
use mathlib.Core.Path.{fun_ext}
use pg_plugins.Base.Join.{join, join-snoc}
use pg_plugins.PasswordCheck.Classes.{occurs}
use pg_plugins.PasswordCheck.{
  Ctype, has, Settings, Class, lower, upper, number, special, class_bit, complaint, comma,
  append_missing, missing_list,
}

-- Whether a parameter enforces the class.
unfoldable pub enforced : Settings → Class → Bool
enforced g lower = g.lower_case
enforced g upper = g.upper_case
enforced g number = g.numbers
enforced g special = g.special

-- The complaints about the enforced classes of a list that are not `found`.
unfoldable pub lacks : Settings → (Class → Bool) → List Class → List Bytes
lacks g found [] = []
lacks g found (k ∷ ks) =
    (if not (found k) && enforced g k then complaint g k ∷ [] else []) ++ lacks g found ks

abbrev pub classes : List Class
classes = lower ∷ upper ∷ number ∷ special ∷ []

nonempty : List Bytes → Bool
nonempty [] = false
nonempty (_ ∷ _) = true

-- The buffer and `set_comma` once the complaints `ps` are written.
abbrev written : List Bytes → Bytes × Bool
written ps = (join comma ps, nonempty ps)

append_missing-written :
    (g : Settings) (flag : ℕ) (k : Class) (ps : List Bytes)
    → append_missing g flag (enforced g k) k (written ps)
      ≡ written
          (ps ++ (if not (has flag (class_bit k)) && enforced g k then complaint g k ∷ [] else []))
unfolding append_missing nonempty
append_missing-written g flag k ps =
    elim (Bool-cases (not (has flag (class_bit k)) && enforced g k)) [
      | inl yes' ↦ rw yes' (added ps)
      | inr no' ↦ rw no' (rw append-nil)
    ]
  where
    added :
        (ps : List Bytes)
        → ◌≡◌ {A = Bytes × Bool}
            ((if nonempty ps then join comma ps ++ comma else join comma ps) ++ complaint g k, true)
            (written (ps ++ complaint g k ∷ []))
    added [] = rw append-nil
    added (p ∷ ps) = rw (join-snoc comma p ps (complaint g k)) (rw append_assoc)

four_tests :
    (g : Settings) (flag : ℕ)
    → append_missing g flag (enforced g special) special (
        append_missing g flag (enforced g number) number (
          append_missing g flag
            (enforced g upper)
            upper
            (append_missing g flag (enforced g lower) lower (written []))))
      ≡ written (lacks g (λ k. has flag (class_bit k)) classes)
unfolding lacks
four_tests g flag =
    rw
      (
        append_missing-written g flag lower [],
        append_missing-written g flag upper _,
        append_missing-written g flag number _,
        append_missing-written g flag special _,
      )
      (simp (append_assoc, append-nil))

-- The message is the complaints in the source's order, with commas between them.
pub missing_list-join :
    (g : Settings) (flag : ℕ)
    → missing_list g flag ≡ join comma (lacks g (λ k. has flag (class_bit k)) classes)
unfolding missing_list enforced nonempty
missing_list-join g flag = ap (λ (t : Bytes × Bool). t.0) (four_tests g flag)

pub lacks-cong :
    (g : Settings) (p q : Class → Bool) (ks : List Class)
    → ((k : Class) → p k ≡ q k)
    → lacks g p ks ≡ lacks g q ks
lacks-cong g p q ks h = rw (fun_ext h)

-- What the message says of a password.
unfoldable pub format_message : Ctype → Settings → Bytes → Bytes
format_message c g password =
    join comma (lacks g (λ k. occurs c g.special_chars k password) classes)

-- The enforced classes all occur.
abbrev pub Meets : Ctype → Settings → Bytes → Type 0
Meets c g password = (k : Class) → enforced g k ≡ true → occurs c g.special_chars k password ≡ true

module _ (g : Settings) (p : Class → Bool) where
  pub lacks-length :
      (ks : List Class) → (lacks g p ks ≡ []) ⊎ (0 < length (join comma (lacks g p ks)))
  unfolding lacks complaint
  lacks-length [] = inl refl
  lacks-length (k ∷ ks) = elim (Bool-cases (not (p k) && enforced g k)) [
    | inl missing ↦ inr (rw missing (rw length-append (ground (arith, spoken k))))
    | inr fine ↦ rw fine (lacks-length ks)
  ]
    where
      spoken : (k : Class) → 0 < length (complaint g k)
      spoken lower = omega arith
      spoken upper = omega arith
      spoken number = omega arith
      spoken special = omega arith

  pub lacks-met :
      (ks : List Class) → ((k : Class) → enforced g k ≡ true → p k ≡ true) → lacks g p ks ≡ []
  unfolding lacks
  lacks-met [] met = refl
  lacks-met (k ∷ ks) met = ground (arith, met k, lacks-met ks met)

  pub met-lacks : lacks g p classes ≡ [] → (k : Class) → enforced g k ≡ true → p k ≡ true
  unfolding lacks
  met-lacks none' lower e = ground arith
  met-lacks none' upper e = ground arith
  met-lacks none' number e = ground arith
  met-lacks none' special e = ground arith

-- ===== src/PasswordCheck/Accepts.antt =====
-- Which passwords the hook accepts, and what its message lists.
use pg_plugins.Base.{
  ℕ, ◌≤◌, ◌≡◌, ◌≢◌, ap, ◌↔◌, ◌⊎◌, inl, inr, Bool, true, false, none, some, List, arith, Bytes,
  Bool-cases, Option-cases, length, str_eq, str_eq_iff, strstr, Contains, strstr→Contains,
  Contains→strstr,
}
use mathlib.Core.Path.{fun_ext}
use pg_plugins.Base.Join.{join}
use pg_plugins.Base.Result.{ok, err}
use pg_plugins.PasswordCheck.Classes.{all_valid, occurs, scan_lem}
use pg_plugins.PasswordCheck.{
  Ctype, has, scan, Settings, Class, lower, upper, number, special, class_bit, comma, plaintext,
  md5, Externals, incorrect_format, check_format, check_password,
}
use pg_plugins.PasswordCheck.Missing.{
  enforced, classes, format_message, Meets, missing_list-join, lacks-length, lacks-met, met-lacks,
}

scan_zero :
    (c : Ctype) (chars s : Bytes)
    → ((scan c chars 0 s ≡ none) × (all_valid c chars s ≡ false))
      ⊎ ((f : ℕ) × (scan c chars 0 s ≡ some f)
          × (all_valid c chars s ≡ true)
          × (◌≡◌ {A = Class → Bool} (λ k. has f (class_bit k)) (λ k. occurs c chars k s)))
scan_zero c chars s = elim (scan_lem c chars 0 s (omega arith)) [
  | inl bad ↦ inl bad
  | inr (f, e, v, bits) ↦ inr (
    f,
    e,
    v,
    fun_ext elim [
      | lower ↦ bits lower
      | upper ↦ bits upper
      | number ↦ bits number
      | special ↦ bits special
    ],
  )
]

module _ (x : Externals) (g : Settings) (username password : Bytes) where
  -- What the hook asks of a plain text password.
  pub record Acceptable : Type 0 where
    pub long : g.min_len ≤ length password
    pub short : length password ≤ g.max_len
    pub nameless : ¬ Contains password username
    pub valid : all_valid x.ctype g.special_chars password ≡ true
    pub meets : Meets x.ctype g password
    pub strong : x.fascist_check password ≡ false

  check_format_lem :
      (f : ℕ)
      → ◌≡◌ {A = Class → Bool}
          (λ k. has f (class_bit k))
          (λ k. occurs x.ctype g.special_chars k password)
      → (Meets x.ctype g password × (check_format x g f ≡ ok tt))
        ⊎ (¬ Meets x.ctype g password
            × (check_format x g f ≡ err (incorrect_format (format_message x.ctype g password))))
  unfolding check_format format_message
  check_format_lem f bits =
      elim (lacks-length g (λ k. occurs x.ctype g.special_chars k password) classes) [
        | inl nothing ↦ inl (met-lacks g _ nothing, rw (missing_list-join, bits, nothing))
        | inr some' ↦ inr (
          λ met. absurd (
              omega (
                arith,
                ap (λ (l : List Bytes). length (join comma l))
                    (lacks-met g (λ k. occurs x.ctype g.special_chars k password) classes met),
              )),
          rw (missing_list-join, bits) (ground arith),
        )
      ]

  not_named : Acceptable → strstr password username ≡ false
  not_named a = elim (Bool-cases (strstr password username)) [
    | inl named ↦ absurd (a.nameless (strstr→Contains password username named))
    | inr clear ↦ clear
  ]

  -- A plain text password is accepted exactly where it is acceptable: its length is between the two
  -- limits, it does not contain the user name, each of its characters is in some class, each
  -- enforced class occurs, and cracklib does not complain.
  pub accepts_plaintext : (check_password x g username password plaintext ≡ ok tt) ↔ Acceptable
  unfolding check_password
  accepts_plaintext = elim (scan_zero x.ctype g.special_chars password) [
    | inl (bad, invalid) ↦ (λ e. absurd (ground arith), λ a. absurd (ground (arith, a.valid)))
    | inr (f, found, valid, bits) ↦ elim (check_format_lem f bits) [
      | inl (met, fmt) ↦ (
        λ e. record {
          long = ground arith;
          short = ground arith;
          nameless = λ c. ground (arith, Contains→strstr password username c);
          valid = valid;
          meets = met;
          strong = ground arith;
        },
        λ a. ground (arith, a.long, a.short, a.valid, a.strong, not_named a),
      )
      | inr (unmet, fmt) ↦ (λ e. absurd (ground arith), λ a. absurd (unmet a.meets))
    ]
  ]

  -- Where the length, the user name and the characters pass, and an enforced class does not occur,
  -- the error is the format message: the complaints about all the classes that are enforced and do
  -- not occur, in the source's order, with commas between them.
  pub incorrect_format_complete :
      (k : Class)
      → g.min_len ≤ length password
      → length password ≤ g.max_len
      → ¬ Contains password username
      → all_valid x.ctype g.special_chars password ≡ true
      → enforced g k ≡ true
      → occurs x.ctype g.special_chars k password ≡ false
      → check_password x g username password plaintext
        ≡ err (incorrect_format (format_message x.ctype g password))
  unfolding check_password
  incorrect_format_complete k long short nameless valid on absent =
      elim (scan_zero x.ctype g.special_chars password) [
        | inl (bad, invalid) ↦ absurd (ground arith)
        | inr (f, found, _, bits) ↦ elim (check_format_lem f bits) [
          | inl (met, _) ↦ absurd (ground (arith, met k on))
          | inr (_, fmt) ↦ elim (Bool-cases (strstr password username)) [
            | inl named ↦ absurd (nameless (strstr→Contains password username named))
            | inr clear ↦ ground arith
          ]
        ]
      ]

  -- An MD5 password is accepted exactly where the hash of the user name can be computed and is not
  -- the password.
  accepts_md5 :
      (check_password x g username password md5 ≡ ok tt)
      ↔ ((h : Bytes) × (x.md5_encrypt username username ≡ some h) × (password ≢ h))
  unfolding check_password
  accepts_md5 = elim (Option-cases (x.md5_encrypt username username)) [
    | inl failed ↦ (λ e. absurd (ground arith), λ (h, found, _). absurd (ground arith))
    | inr (h, found) ↦ (
      λ e. (h, found, λ same. ground (arith, (str_eq_iff password h).1 same)),
      λ (h', found', differ). elim (Bool-cases (str_eq password h')) [
        | inl same ↦ absurd (differ ((str_eq_iff password h').0 same))
        | inr other' ↦ ground arith
      ],
    )
  ]

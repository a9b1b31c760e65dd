-- ===== src/Secrets/Verifiers.antt =====
-- scram_utils/scram_utils.c: the verifier that is stored.
use pg_plugins.Base.{
  ℕ, suc, ◌≤◌, ◌<◌, ◌≡◌, ◌⊎◌, inl, inr, refl, Bool, Bool-cases, true, false, Option, some, List, [],
  ◌∷◌, ◌++◌, Bytes, str_eq, str_eq_iff, if◌then◌else◌, arith, length, strchr, ◌==◌,
}
use pg_plugins.Base.Int.{ℤ, pos, negsuc, pos_part}
use pg_plugins.Base.Result.{ok, err}
use pg_plugins.Secrets.Scram.{
  Server, Catalog, Warning, incorrect_iterations, incorrect_salt_length, sasl_success, sasl_invalid,
  nul_characters, lookup, update_password, defaulted, prepare, store_verifier, strlen,
  scram_utils_verifier_internal, scram_utils_verifier, scram_utils_verifier_bytea,
}

lookup-update_password :
    (k j v : Bytes) (old : Option Bytes) (c : Catalog)
    → lookup k c ≡ some old
    → lookup j (update_password k v c) ≡ (if str_eq k j then some (some v) else lookup j c)
unfolding lookup update_password
lookup-update_password k j v old [] h = absurd (ground arith)
lookup-update_password k j v old ((i, w) ∷ c) h =
    ground
      (arith, str_eq_iff k j, str_eq_iff i k, str_eq_iff i j, lookup-update_password k j v old c)

strlen-le : (s : Bytes) → strlen s ≤ length s
unfolding strlen
strlen-le [] = omega arith
strlen-le (c ∷ s) = ground (arith, strlen-le s)

-- The length up to the first NUL is the whole length exactly where there is none.
strlen-cases :
    (s : Bytes)
    → ((strchr s 0 ≡ false) × (strlen s ≡ length s)) ⊎ ((strchr s 0 ≡ true) × (strlen s < length s))
unfolding strlen strchr
strlen-cases [] = inl (refl, refl)
strlen-cases (c ∷ s) = elim (Bool-cases (c == 0)) [
  | inl nul ↦ inr (ground arith, ground arith)
  | inr other ↦ elim (strlen-cases s) [
    | inl (none', same) ↦ inl (ground arith, ground arith)
    | inr (some', less) ↦ inr (ground arith, ground arith)
  ]
]

-- The value that is used: the argument where it is positive, or the default.
abbrev pub effective : (default : ℕ) → ℤ → ℕ
effective default value = if 0 == pos_part value then default else pos_part value

-- The warnings of the two arguments.
abbrev pub warnings_of : (iterations saltlen : ℤ) → List Warning
warnings_of iterations saltlen =
    (if 0 == pos_part iterations then incorrect_iterations ∷ [] else [])
    ++ (if 0 == pos_part saltlen then incorrect_salt_length ∷ [] else [])

defaulted_lem :
    (warning : Warning) (default : ℕ) (value : ℤ)
    → defaulted warning default value
      ≡ ((if 0 == pos_part value then warning ∷ [] else []), effective default value)
unfolding defaulted
defaulted_lem warning default (negsuc n) = refl
defaulted_lem warning default (pos ℕ.zero) = refl
defaulted_lem warning default (pos (suc n)) = ground arith

module _ (server : Server) where
  -- The password is prepared where it can be, and is used as it is where it cannot.
  abbrev pub IsPrepared : (password prepared : Bytes) → Type 0
  IsPrepared password prepared =
      (server.saslprep password ≡ sasl_success prepared)
      ⊎ ((server.saslprep password ≡ sasl_invalid) × (prepared ≡ password))

  prepare_lem :
      (password prepared : Bytes)
      → IsPrepared password prepared
      → prepare server password ≡ ok prepared
  unfolding prepare
  prepare_lem password prepared (inl e) = rw (prepare, e)
  prepare_lem password prepared (inr (e, same)) = rw (prepare, e, same)

  store_verifier_lem :
      (username password prepared salt verifier : Bytes) (iterations saltlen : ℕ)
      (old : Option Bytes) (catalog : Catalog)
      → IsPrepared password prepared
      → server.strong_random saltlen ≡ some salt
      → lookup username catalog ≡ some old
      → server.scram_build_secret salt iterations prepared ≡ some verifier
      → store_verifier server username password iterations saltlen catalog
        ≡ ok (update_password username verifier catalog)
  unfolding store_verifier
  store_verifier_lem username password prepared salt verifier iterations saltlen old catalog p r l
        b =
      rw (store_verifier, prepare_lem password prepared p, r, l, b)

  verifier_lem :
      (username password prepared salt verifier : Bytes) (iterations saltlen : ℤ)
      (old : Option Bytes) (catalog : Catalog)
      → IsPrepared password prepared
      → server.strong_random (effective server.default_salt_len saltlen) ≡ some salt
      → lookup username catalog ≡ some old
      → server.scram_build_secret salt (effective server.default_iterations iterations) prepared
        ≡ some verifier
      → scram_utils_verifier_internal server true username password iterations saltlen catalog
        ≡ (warnings_of iterations saltlen, ok (update_password username verifier catalog))
  unfolding scram_utils_verifier_internal
  verifier_lem username password prepared salt verifier iterations saltlen old catalog p r l b =
      rw (
        scram_utils_verifier_internal,
        defaulted_lem incorrect_iterations server.default_iterations iterations,
        defaulted_lem incorrect_salt_length server.default_salt_len saltlen,
        store_verifier_lem username password prepared salt verifier
            (effective server.default_iterations iterations)
            (effective server.default_salt_len saltlen) old catalog p r l b,
      )

  bytea_lem :
      (superuser : Bool) (username raw_data : Bytes) (iterations saltlen : ℤ) (catalog : Catalog)
      → scram_utils_verifier_bytea server superuser username raw_data iterations saltlen catalog ≡ (
          if strchr raw_data 0
          then ([], err nul_characters)
          else scram_utils_verifier server superuser username raw_data iterations saltlen catalog)
  unfolding scram_utils_verifier_bytea scram_utils_verifier
  bytea_lem superuser username raw_data iterations saltlen catalog = elim (strlen-cases raw_data) [
    | inl (clean, same) ↦
        let whole : (strlen raw_data == length raw_data) ≡ true = ground arith in
        rw (scram_utils_verifier_bytea, clean, whole)
    | inr (nul, less) ↦
        let shorter : (strlen raw_data == length raw_data) ≡ false = ground arith in
        rw (scram_utils_verifier_bytea, nul, shorter)
  ]

  -- By a superuser, for a role that exists, with a password that is prepared or used as it is, a salt of
  -- the length that is asked for, or of the default one, and a secret: scram_utils_verifier stores the
  -- secret as the password of the role, leaves that of every other role as it is, and warns of each
  -- number that is not positive, for which the default is used.
  -- scram_utils_verifier_bytea does the same where the bytes have no NUL, whoever calls it and whatever
  -- fails, and refuses them where they have one.
  pub scram_verifier_stored :
      (superuser : Bool) (username password prepared salt verifier role raw_data : Bytes)
      (iterations saltlen : ℤ) (old : Option Bytes) (catalog : Catalog)
      → IsPrepared password prepared
      → server.strong_random (effective server.default_salt_len saltlen) ≡ some salt
      → lookup username catalog ≡ some old
      → server.scram_build_secret salt (effective server.default_iterations iterations) prepared
        ≡ some verifier
      → (catalog' : Catalog) × (scram_utils_verifier server true username password iterations
            saltlen catalog
          ≡ (warnings_of iterations saltlen, ok catalog'))
        × (lookup role catalog'
            ≡ (if str_eq username role then some (some verifier) else lookup role catalog))
        × (scram_utils_verifier_bytea server superuser username raw_data iterations saltlen catalog
            ≡ (if strchr raw_data 0
                then ([], err nul_characters)
                else scram_utils_verifier server superuser username raw_data iterations saltlen
                    catalog))
  unfolding scram_utils_verifier
  scram_verifier_stored superuser username password prepared salt verifier role raw_data iterations
        saltlen old catalog p r l b =
      (
        update_password username verifier catalog,
        verifier_lem username password prepared salt verifier iterations saltlen old catalog p r l
            b,
        lookup-update_password username role verifier old catalog l,
        bytea_lem superuser username raw_data iterations saltlen catalog,
      )

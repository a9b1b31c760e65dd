-- ===== src/Secrets/Scram.antt =====
-- scram_utils/scram_utils.c: scram_utils_verifier and scram_utils_verifier_bytea.
use pg_plugins.Base.{
  ℕ, Bool, not, Option, none, some, List, [], ◌∷◌, ◌++◌, Bytes, str_eq, ◌==◌, if◌then◌else◌, length,
}
use pg_plugins.Base.Int.{ℤ, pos, negsuc}
use pg_plugins.Base.Result.{Result, ok, err, ◌>>=◌}

-- pg_saslprep_rc: the prepared text, no memory, or a text that is not prepared.
pub data Prepared : Type 0 where
  sasl_success : Bytes → Prepared
  sasl_oom sasl_invalid : Prepared

-- pg_authid: the names of the roles with rolpassword, NULL for none.
abbrev pub Catalog : Type 0
Catalog = List (Bytes × Option Bytes)

-- pg_saslprep, pg_strong_random of a length, scram_build_secret, NULL where it fails, and the defaults.
pub record Server : Type 0 where
  pub saslprep : Bytes → Prepared
  pub strong_random : ℕ → Option Bytes
  pub scram_build_secret : (salt : Bytes) (iterations : ℕ) (password : Bytes) → Option Bytes
  pub default_iterations : ℕ
  pub default_salt_len : ℕ

pub data Warning : Type 0 where
  incorrect_iterations incorrect_salt_length : Warning

pub data ScramError : Type 0 where
  not_superuser out_of_memory no_random nul_characters : ScramError
  role_does_not_exist : Bytes → ScramError
  -- A NULL verifier is read as a text.
  fault : ScramError

unfoldable pub lookup : Bytes → Catalog → Option (Option Bytes)
lookup k [] = none
lookup k ((j, v) ∷ c) = if str_eq j k then some v else lookup k c

-- The update of rolpassword in the tuple of a role.
unfoldable pub update_password : Bytes → Bytes → Catalog → Catalog
update_password k v [] = []
update_password k v ((j, w) ∷ c) =
    if str_eq j k then (j, some v) ∷ c else (j, w) ∷ update_password k v c

-- `if (value <= 0)`: a warning and the default.
unfoldable pub defaulted : Warning → (default : ℕ) → ℤ → List Warning × ℕ
defaulted warning default (negsuc _) = (warning ∷ [], default)
defaulted warning default (pos ℕ.zero) = (warning ∷ [], default)
defaulted warning default (pos (ℕ.suc n)) = ([], ℕ.suc n)

-- strlen of some bytes with a NUL behind them.
unfoldable pub strlen : Bytes → ℕ
strlen [] = 0
strlen (c ∷ s) = let rest = strlen s in if c == 0 then 0 else ℕ.suc rest

module _ (server : Server) where
  -- The password that pg_saslprep leaves.
  unfoldable pub prepare : Bytes → Result ScramError Bytes
  prepare password = elim (server.saslprep password) [
    | sasl_success prepared ↦ ok prepared
    | sasl_oom ↦ err out_of_memory
    | sasl_invalid ↦ ok password
  ]

  -- From the preparation on: the new catalog.
  unfoldable pub store_verifier :
      (username password : Bytes) (iterations saltlen : ℕ) → Catalog → Result ScramError Catalog
  unfolding prepare lookup update_password
  store_verifier username password iterations saltlen catalog = do
    prepared ← prepare password
    elim (server.strong_random saltlen) [
      | none ↦ err no_random
      | some salt ↦ elim (lookup username catalog) [
        | none ↦ err (role_does_not_exist username)
        | some old ↦ elim (server.scram_build_secret salt iterations prepared) [
          | none ↦ err fault
          | some verifier ↦ ok (update_password username verifier catalog)
        ]
      ]
    ]

  unfoldable pub scram_utils_verifier_internal :
      (superuser : Bool) (username password : Bytes) (iterations saltlen : ℤ)
      → Catalog
      → List Warning × Result ScramError Catalog
  scram_utils_verifier_internal superuser username password iterations saltlen catalog =
      let its = defaulted incorrect_iterations server.default_iterations iterations in
      let salts = defaulted incorrect_salt_length server.default_salt_len saltlen in
      if not superuser
      then ([], err not_superuser)
      else (its.0 ++ salts.0, store_verifier username password its.1 salts.1 catalog)

  -- The two SQL functions, for texts without NUL; the bytes of the second may have some.
  unfoldable pub scram_utils_verifier :
      (superuser : Bool) (username password : Bytes) (iterations saltlen : ℤ)
      → Catalog
      → List Warning × Result ScramError Catalog
  unfolding scram_utils_verifier_internal
  scram_utils_verifier = scram_utils_verifier_internal

  unfoldable pub scram_utils_verifier_bytea :
      (superuser : Bool) (username raw_data : Bytes) (iterations saltlen : ℤ)
      → Catalog
      → List Warning × Result ScramError Catalog
  unfolding scram_utils_verifier_internal strlen
  scram_utils_verifier_bytea superuser username raw_data iterations saltlen catalog =
      let passlen = length raw_data in
      if not (strlen raw_data == passlen)
      then ([], err nul_characters)
      else scram_utils_verifier_internal superuser username raw_data iterations saltlen catalog

-- ===== src/DecoderRaw/Options.antt =====
-- decoder_raw/decoder_raw.c: the options that decoder_raw_startup accepts, and what they set.
use pg_plugins.Base.{
  ◌≡◌, ◌∙◌, ap, map, refl, Bool, true, false, Option, none, some, List, [], ◌∷◌, codes, str_eq,
  str_eq→eq, arith, ◌||◌, ◌&&◌, ℕ, if◌then◌else◌,
}
use pg_plugins.Base.Result.{Result, ok, err, is_ok}
use pg_plugins.DecoderRaw.Types.{Backend, OutputType, textual_output, binary_output}
use pg_plugins.DecoderRaw.Callbacks.{
  DefElem, Startup, StartupError, set_option, set_options, decoder_raw_startup,
}

-- The last of the settings, with a default.
abbrev pub last_or {ℓ} : {A : Type ℓ} → A → List (Option A) → A
last_or default [] = default
last_or default (none ∷ settings) = last_or default settings
last_or default (some v ∷ settings) = last_or v settings

abbrev is_some {ℓ} : {A : Type ℓ} → Option A → Bool
is_some none = false
is_some (some _) = true

module _ {Datum : Type 0} (be : Backend Datum) where
  abbrev pub is_include : DefElem → Bool
  is_include elem = str_eq elem.defname (codes "include_transaction")

  abbrev pub is_format : DefElem → Bool
  is_format elem = str_eq elem.defname (codes "output_format")

  -- What an option sets, where it is a valid one of its name; without a value it means true.
  abbrev pub include_value : DefElem → Option Bool
  include_value elem = elim elem.arg [ none ↦ some true | some value ↦ be.parse_bool value ]

  abbrev pub format_value : DefElem → Option OutputType
  format_value elem = elim elem.arg [
    | none ↦ none
    | some format ↦
        if str_eq format (codes "textual")
        then some textual_output
        else if str_eq format (codes "binary")
        then some binary_output
        else none
  ]

  abbrev pub include_setting : DefElem → Option Bool
  include_setting elem = if is_include elem then include_value elem else none

  abbrev pub format_setting : DefElem → Option OutputType
  format_setting elem = if is_format elem then format_value elem else none

  abbrev pub is_valid_option : DefElem → Bool
  is_valid_option elem = is_some (include_setting elem) || is_some (format_setting elem)

  abbrev pub are_valid_options : List DefElem → Bool
  are_valid_options [] = true
  are_valid_options (elem ∷ elems) = is_valid_option elem && are_valid_options elems

  same_name : (elem : DefElem) → is_include elem ≡ true → is_format elem ≡ false
  unfolding str_eq
  same_name elem e =
      let name : elem.defname ≡ codes "include_transaction" = str_eq→eq _ _ e in rw name refl

  set_option_accepts :
      (s : Startup) (elem : DefElem) → is_ok (set_option be s elem) ≡ is_valid_option elem
  unfolding set_option
  set_option_accepts s elem = ground (arith, same_name elem)

  set_option_settings :
      (s : Startup) (elem : DefElem) (s' : Startup)
      → set_option be s elem ≡ ok s'
      → (s'.data_.context ≡ s.data_.context)
        × (s'.data_.include_transaction
            ≡ last_or s.data_.include_transaction (include_setting elem ∷ []))
        × (s'.output_type ≡ last_or s.output_type (format_setting elem ∷ []))
  unfolding set_option
  set_option_settings s elem s' e = ground (arith, same_name elem)

  set_options_accepts :
      (s : Startup) (elems : List DefElem)
      → is_ok (set_options be s elems) ≡ are_valid_options elems
  unfolding set_options
  set_options_accepts s [] = refl
  set_options_accepts s (elem ∷ elems) =
      go (λ s'. set_options_accepts s' elems) (set_option be s elem) refl
    where
      go :
          ((s' : Startup) → is_ok (set_options be s' elems) ≡ are_valid_options elems)
          → (r : Result StartupError Startup) → set_option be s elem ≡ r
          → is_ok (set_options be s (elem ∷ elems)) ≡ are_valid_options (elem ∷ elems)
      go rest (ok s') e = ground (arith, set_option_accepts s elem, rest s')
      go rest (err x) e = ground (arith, set_option_accepts s elem)

  -- The plugin starts exactly where every option is valid: include_transaction without a value or
  -- with a Boolean, output_format with "textual" or "binary".
  startup_accepts :
      (context : ℕ) (options : List DefElem)
      → is_ok (decoder_raw_startup be context options) ≡ are_valid_options options
  unfolding decoder_raw_startup
  startup_accepts context options = set_options_accepts _ options

  last_or-step {ℓ} :
      {A : Type ℓ} (default : A) (x : Option A) (xs : List (Option A))
      → last_or (last_or default (x ∷ [])) xs ≡ last_or default (x ∷ xs)
  last_or-step default none xs = refl
  last_or-step default (some v) xs = refl

  Settings : Startup → List DefElem → Startup → Type 0
  Settings s elems s' =
      (s'.data_.context ≡ s.data_.context)
      × (s'.data_.include_transaction
          ≡ last_or s.data_.include_transaction (map include_setting elems))
      × (s'.output_type ≡ last_or s.output_type (map format_setting elems))

  set_options_settings :
      (s : Startup) (elems : List DefElem) (s' : Startup)
      → set_options be s elems ≡ ok s'
      → Settings s elems s'
  unfolding set_options Settings
  set_options_settings s [] s' e = ground arith
  set_options_settings s (elem ∷ elems) s' e =
      go (λ m. set_options_settings m elems s') (set_option be s elem) refl
    where
      go :
          ((m : Startup) → set_options be m elems ≡ ok s' → Settings m elems s')
          → (r : Result StartupError Startup) → set_option be s elem ≡ r
          → Settings s (elem ∷ elems) s'
      go rest (ok m) e' =
          let (c, i, f) = set_option_settings s elem m e' in
          let (c', i', f') = rest m (ground arith) in
          (
            c' ∙ c,
            i'
                ∙ ap (λ b. last_or b (map include_setting elems)) i
                ∙ last_or-step s.data_.include_transaction (include_setting elem) _,
            f'
                ∙ ap (λ t. last_or t (map format_setting elems)) f
                ∙ last_or-step s.output_type (format_setting elem) _,
          )
      go rest (err x) e' = absurd (ground arith)

  -- A start with valid options gives the transactions and the output format that the last option
  -- of each name sets; without one, the plugin writes no BEGIN and COMMIT, and text.
  pub startup_settings :
      (context : ℕ) (options : List DefElem) (s : Startup)
      → decoder_raw_startup be context options ≡ ok s
      → (s.data_.context ≡ context)
        × (s.data_.include_transaction ≡ last_or false (map include_setting options))
        × (s.output_type ≡ last_or textual_output (map format_setting options))
  unfolding decoder_raw_startup Settings
  startup_settings context options s e = set_options_settings _ options s e

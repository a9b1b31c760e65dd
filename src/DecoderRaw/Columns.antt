-- ===== src/DecoderRaw/Columns.antt =====
-- decoder_raw/decoder_raw.c: the columns that the loops of INSERT and of the SET clause print.
use pg_plugins.Base.{
  ℕ, suc, ◌≡◌, refl, Bool, true, false, List, [], ◌∷◌, ◌++◌, append_assoc, map, Bytes, codes,
  if◌then◌else◌, Bool-cases, inl, inr,
}
use pg_plugins.Base.Join.{join, join_rest}
use pg_plugins.DecoderRaw.Types.{Backend, Attribute, Relation, HeapTuple}
use pg_plugins.DecoderRaw.Print.{is_skipped, separator, print_relname, print_value, equation}
use pg_plugins.DecoderRaw.Statements.{
  insert_columns, decoder_raw_insert, is_unchanged_toast, set_columns,
}

-- The columns from number `natt` on that are neither dropped nor of the system.
abbrev pub live : ℕ → List Attribute → List (Attribute × ℕ)
live natt [] = []
live natt (attr ∷ attrs) =
    if is_skipped attr then live (suc natt) attrs else (attr, natt) ∷ live (suc natt) attrs

-- What a loop prints for its parts, from its first part on or behind it.
abbrev pub joined : Bool → Bytes → List Bytes → Bytes
joined true sep parts = join sep parts
joined false sep parts = join_rest sep parts

pub joined-separator :
    (first : Bool) (sep part : Bytes) (parts : List Bytes)
    → separator first sep ++ (part ++ joined false sep parts) ≡ joined first sep (part ∷ parts)
unfolding separator
joined-separator true sep part parts = refl
joined-separator false sep part parts = simp append_assoc

joined-nil : (first : Bool) (sep : Bytes) → joined first sep [] ≡ []
joined-nil true sep = refl
joined-nil false sep = refl

module _ {Datum : Type 0} (be : Backend Datum) where
  abbrev pub names : List (Attribute × ℕ) → List Bytes
  names = map (λ c. be.quote_identifier c.0.attname)

  abbrev pub values : HeapTuple Datum → List (Attribute × ℕ) → List Bytes
  values tuple = map (λ c. print_value be c.0.atttypid (tuple c.1))

  abbrev pub equations : HeapTuple Datum → List (Attribute × ℕ) → List Bytes
  equations tuple = map (λ c. equation be c.0 tuple c.1)

  insert_columns_lem :
      (attrs : List Attribute) (natt : ℕ) (tuple : HeapTuple Datum) (first : Bool)
      → insert_columns be attrs natt tuple first ≡ (
        joined first (codes ", ") (names (live natt attrs)),
        joined first (codes ", ") (values tuple (live natt attrs)),
      )
  unfolding insert_columns
  insert_columns_lem [] natt tuple first = rw joined-nil
  insert_columns_lem (attr ∷ attrs) natt tuple first = elim (Bool-cases (is_skipped attr)) [
    | inl skipped ↦ rw skipped (insert_columns_lem attrs (suc natt) tuple first)
    | inr kept ↦
        rw (
          kept,
          insert_columns_lem attrs (suc natt) tuple false,
          joined-separator,
          joined-separator,
        )
  ]

  -- The INSERT names exactly the live columns, and gives the value of each in the same order.
  pub insert_statement :
      (rel : Relation) (tuple : HeapTuple Datum)
      → decoder_raw_insert be rel tuple
        ≡ codes "INSERT INTO "
          ++ (print_relname be rel
              ++ (codes " ("
                  ++ (join (codes ", ") (names (live 1 rel.attrs))
                      ++ (codes ") VALUES ("
                          ++ (join (codes ", ") (values tuple (live 1 rel.attrs)) ++ codes ");")))))
  unfolding decoder_raw_insert
  insert_statement rel tuple = rw insert_columns_lem

  -- The live columns whose value is at hand.
  abbrev pub changed : HeapTuple Datum → ℕ → List Attribute → List (Attribute × ℕ)
  changed tuple natt [] = []
  changed tuple natt (attr ∷ attrs) =
      if is_skipped attr
      then changed tuple (suc natt) attrs
      else if is_unchanged_toast be attr.atttypid (tuple natt)
      then changed tuple (suc natt) attrs
      else (attr, natt) ∷ changed tuple (suc natt) attrs

  pub set_columns_lem :
      (attrs : List Attribute) (natt : ℕ) (tuple : HeapTuple Datum) (first : Bool)
      → set_columns be attrs natt tuple first
        ≡ joined first (codes ", ") (equations tuple (changed tuple natt attrs))
  unfolding set_columns
  set_columns_lem [] natt tuple first = rw joined-nil
  set_columns_lem (attr ∷ attrs) natt tuple first = elim (Bool-cases (is_skipped attr)) [
    | inl skipped ↦ rw skipped (set_columns_lem attrs (suc natt) tuple first)
    | inr kept ↦ elim (Bool-cases (is_unchanged_toast be attr.atttypid (tuple natt))) [
      | inl toast ↦ rw (kept, toast) (set_columns_lem attrs (suc natt) tuple first)
      | inr new ↦ rw (kept, new, set_columns_lem attrs (suc natt) tuple false, joined-separator)
    ]
  ]

-- ===== src/DecoderRaw/Where.antt =====
-- decoder_raw/decoder_raw.c: the WHERE clause of UPDATE and DELETE, and the statements with it.
use pg_plugins.Base.{
  ℕ, zero, suc, ◌+◌, ◌≤◌, ◌<◌, ◌≡◌, refl, Bool, true, false, Option, none, some, List, [], ◌∷◌,
  ◌++◌, append_assoc, arith, Bytes, codes, if◌then◌else◌, Bool-cases, inl, inr, All, length,
  get_elem?,
}
use pg_plugins.Base.Join.{join}
use pg_plugins.DecoderRaw.Types.{Backend, Attribute, Relation, HeapTuple}
use pg_plugins.DecoderRaw.Print.{
  is_skipped, separator, equation, print_relname, attr_at, print_where_clause_item,
  print_where_items, or_else, numbers, where_items, print_where_clause,
}
use pg_plugins.DecoderRaw.Statements.{decoder_raw_update, decoder_raw_delete}
use pg_plugins.DecoderRaw.Columns.{joined, joined-separator, equations, changed, set_columns_lem}

-- The attribute numbers that identify a row: those of the replica identity index, or all.
abbrev pub numbers_of : Option (List ℕ) → Relation → List ℕ
numbers_of (some indkey) rel = indkey
numbers_of none rel = numbers 1 rel.attrs

abbrev pub key_numbers : Relation → List ℕ
key_numbers rel = numbers_of rel.replidindex rel

-- The tuple whose values the clause compares with, where the index is given.
abbrev pub row_of {ℓ} : {A : Type ℓ} → Option (List ℕ) → Option A → Option A → Option A
row_of (some _) oldtuple newtuple = or_else oldtuple newtuple
row_of none oldtuple newtuple = oldtuple

-- Those that are live, with their attributes.
abbrev pub key_columns : Relation → List ℕ → List (Attribute × ℕ)
key_columns rel [] = []
key_columns rel (k ∷ ks) = elim (attr_at rel k) [
  | none ↦ key_columns rel ks
  | some attr ↦ if is_skipped attr then key_columns rel ks else (attr, k) ∷ key_columns rel ks
]

abbrev pub InDescriptor : Relation → ℕ → Type 0
InDescriptor rel k = (1 ≤ k) × (k ≤ length rel.attrs)

attr_found :
    (rel : Relation) (k : ℕ) → InDescriptor rel k → (attr : Attribute) × (attr_at rel k ≡ some attr)
attr_found rel zero h = absurd (omega arith)
attr_found rel (suc i) h = find rel.attrs i (omega arith)
  where
    find :
        (attrs : List Attribute) (j : ℕ)
        → j < length attrs
        → (attr : Attribute) × (get_elem? attrs j ≡ some attr)
    find [] j lt = absurd (omega arith)
    find (a ∷ attrs) zero lt = (a, refl)
    find (a ∷ attrs) (suc j) lt = find attrs j (omega arith)

module _ {Datum : Type 0} (be : Backend Datum) where
  -- The conditions for the live keys, joined by AND.
  unfoldable pub conditions : Relation → HeapTuple Datum → Bytes
  conditions rel tuple =
      join (codes " AND ") (equations be tuple (key_columns rel (key_numbers rel)))

  print_where_items_lem :
      (rel : Relation) (tuple : HeapTuple Datum) (keys : List ℕ) (first : Bool)
      → All (InDescriptor rel) keys
      → print_where_items be rel (some tuple) keys first
        ≡ some (joined first (codes " AND ") (equations be tuple (key_columns rel keys)))
  unfolding print_where_items print_where_clause_item
  print_where_items_lem rel tuple [] true h = refl
  print_where_items_lem rel tuple [] false h = refl
  print_where_items_lem rel tuple (k ∷ keys) first (here, h) =
      let (attr, found) = attr_found rel k here in
      elim (Bool-cases (is_skipped attr)) [
        | inl skipped ↦ ground (arith, found, skipped, print_where_items_lem rel tuple keys first h)
        | inr kept ↦ ground (
          arith,
          found,
          kept,
          print_where_items_lem rel tuple keys false h,
          append_assoc (separator first (codes " AND ")) (equation be attr tuple k)
              (joined false (codes " AND ") (equations be tuple (key_columns rel keys))),
          joined-separator first (codes " AND ") (equation be attr tuple k)
              (equations be tuple (key_columns rel keys)),
        )
      ]

  numbers-InDescriptor :
      (attrs : List Attribute) (k : ℕ) (n : ℕ)
      → 1 ≤ k
      → n + 1 ≡ k + length attrs
      → All (λ j. (1 ≤ j) × (j ≤ n)) (numbers k attrs)
  numbers-InDescriptor [] k n h e = tt
  numbers-InDescriptor (a ∷ attrs) k n h e =
      (omega arith, numbers-InDescriptor attrs (suc k) n (omega arith) (omega arith))

  where_items_lem :
      (rel : Relation) (oldtuple newtuple : Option (HeapTuple Datum)) (tuple : HeapTuple Datum)
      (index : Option (List ℕ))
      → All (InDescriptor rel) (numbers_of index rel)
      → row_of index oldtuple newtuple ≡ some tuple
      → where_items be rel oldtuple newtuple index
        ≡ some (join (codes " AND ") (equations be tuple (key_columns rel (numbers_of index rel))))
  where_items_lem rel oldtuple newtuple tuple (some indkey) keys e =
      rw e (print_where_items_lem rel tuple indkey true keys)
  where_items_lem rel oldtuple newtuple tuple none keys e =
      rw e (print_where_items_lem rel tuple (numbers 1 rel.attrs) true keys)

  abbrev pub row_tuple :
      Relation → Option (HeapTuple Datum) → Option (HeapTuple Datum) → Option (HeapTuple Datum)
  row_tuple rel oldtuple newtuple = row_of rel.replidindex oldtuple newtuple

  where_clause_lem :
      (rel : Relation) (oldtuple newtuple : Option (HeapTuple Datum)) (tuple : HeapTuple Datum)
      → All (InDescriptor rel) (key_numbers rel)
      → row_tuple rel oldtuple newtuple ≡ some tuple
      → print_where_clause be rel oldtuple newtuple ≡ some (codes " WHERE " ++ conditions rel tuple)
  unfolding print_where_clause conditions
  where_clause_lem rel oldtuple newtuple tuple keys e =
      rw (where_items_lem rel oldtuple newtuple tuple rel.replidindex keys e)

  -- Where the key numbers are in the descriptor, a DELETE whose tuple is there is written with the
  -- condition of the live key columns on the values of that tuple.
  delete_statement :
      (rel : Relation) (tuple : HeapTuple Datum)
      → All (InDescriptor rel) (key_numbers rel)
      → decoder_raw_delete be rel (some tuple)
        ≡ some (
            codes "DELETE FROM "
            ++ (print_relname be rel ++ (codes " WHERE " ++ (conditions rel tuple ++ codes ";"))))
  unfolding decoder_raw_delete
  delete_statement rel tuple keys = rw (
    where_clause_lem rel (some tuple) (some tuple) tuple keys (same rel.replidindex),
    append_assoc,
  )
    where
      same : (index : Option (List ℕ)) → row_of index (some tuple) (some tuple) ≡ some tuple
      same (some _) = refl
      same none = refl

  -- Where the key numbers are in the descriptor and the tuple that identifies the row is there,
  -- an UPDATE sets exactly the live columns whose value is at hand, on the condition of the live
  -- key columns: the old values where the server gives them, else the new ones.
  pub update_statement :
      (rel : Relation) (oldtuple : Option (HeapTuple Datum)) (newtuple row : HeapTuple Datum)
      → All (InDescriptor rel) (key_numbers rel)
      → row_tuple rel oldtuple (some newtuple) ≡ some row
      → decoder_raw_update be rel oldtuple (some newtuple)
        ≡ some (
            codes "UPDATE "
            ++ (print_relname be rel
                ++ (codes " SET "
                    ++ (join (codes ", ") (equations be newtuple (changed be newtuple 1 rel.attrs))
                        ++ (codes " WHERE " ++ (conditions rel row ++ codes ";"))))))
  unfolding decoder_raw_update
  update_statement rel oldtuple newtuple row keys e = rw (
    where_clause_lem rel oldtuple (some newtuple) row keys e,
    set_columns_lem be rel.attrs 1 newtuple true,
    append_assoc,
  )

  items_fault :
      (rel : Relation) (keys : List ℕ) (first : Bool)
      → All (InDescriptor rel) keys
      → (c : Attribute × ℕ) (cs : List (Attribute × ℕ)) → key_columns rel keys ≡ c ∷ cs
      → print_where_items be rel none keys first ≡ none
  unfolding print_where_items print_where_clause_item
  items_fault rel [] first h c cs e = cc e
  items_fault rel (k ∷ keys) first (here, h) c cs e =
      let (attr, found) = attr_found rel k here in
      elim (Bool-cases (is_skipped attr)) [
        | inl skipped ↦ ground (arith, found, skipped, items_fault rel keys first h c cs)
        | inr kept ↦ ground (arith, found, kept)
      ]

  where_items_fault :
      (rel : Relation) (index : Option (List ℕ))
      → All (InDescriptor rel) (numbers_of index rel)
      → (c : Attribute × ℕ) (cs : List (Attribute × ℕ))
      → key_columns rel (numbers_of index rel) ≡ c ∷ cs
      → where_items be rel none none index ≡ none
  where_items_fault rel (some indkey) keys c cs e = items_fault rel indkey true keys c cs e
  where_items_fault rel none keys c cs e = items_fault rel (numbers 1 rel.attrs) true keys c cs e

  -- Where the key numbers are in the descriptor and some key column is live, a DELETE without the
  -- old tuple reads through a NULL pointer.
  delete_fault :
      (rel : Relation)
      → All (InDescriptor rel) (key_numbers rel)
      → (c : Attribute × ℕ) (cs : List (Attribute × ℕ)) → key_columns rel (key_numbers rel) ≡ c ∷ cs
      → decoder_raw_delete be rel none ≡ none
  unfolding decoder_raw_delete print_where_clause
  delete_fault rel keys c cs e = rw (where_items_fault rel rel.replidindex keys c cs e)

  -- The numbers of all the attributes are in the descriptor.
  pub full-InDescriptor :
      (rel : Relation) → rel.replidindex ≡ none → All (InDescriptor rel) (key_numbers rel)
  full-InDescriptor rel e =
      rw e (numbers-InDescriptor rel.attrs 1 (length rel.attrs) (omega arith) (omega arith))

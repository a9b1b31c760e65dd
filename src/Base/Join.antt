-- ===== src/Base/Join.antt =====
-- Texts joined by a separator, the meaning of the loops that print a separator before every item
-- but the first.
use pg_plugins.Base.{List, [], ◌∷◌, ◌++◌, ◌≡◌, refl, append_assoc, append-nil, Bytes}

-- The parts with `sep` before each.
abbrev pub join_rest : Bytes → List Bytes → Bytes
join_rest sep [] = []
join_rest sep (p ∷ ps) = sep ++ p ++ join_rest sep ps

-- The parts with `sep` between them.
abbrev pub join : Bytes → List Bytes → Bytes
join sep [] = []
join sep (p ∷ ps) = p ++ join_rest sep ps

pub join_rest-append :
    (sep : Bytes) (ps qs : List Bytes)
    → join_rest sep (ps ++ qs) ≡ join_rest sep ps ++ join_rest sep qs
join_rest-append sep [] qs = refl
join_rest-append sep (p ∷ ps) qs = simp (join_rest-append sep ps qs, append_assoc)

pub join-snoc :
    (sep p : Bytes) (ps : List Bytes) (q : Bytes)
    → join sep (p ∷ ps ++ q ∷ []) ≡ join sep (p ∷ ps) ++ sep ++ q
join-snoc sep p ps q = simp (join_rest-append sep ps (q ∷ []), append_assoc, append-nil)

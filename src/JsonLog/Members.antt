-- ===== src/JsonLog/Members.antt =====
-- jsonlog/jsonlog.c: a JSON object as the list of its members, and its text.
use pg_plugins.Base.{List, [], ◌∷◌, ◌++◌, ◌≡◌, refl, Bytes, codes, map, append_assoc, append-nil}
use pg_plugins.Base.Join.{join}

-- A member: its key, and the text of its value.
pub record Member : Type 0 where
  pub key : Bytes
  pub value : Bytes

abbrev pub member_text : Member → Bytes
member_text m = codes "\"" ++ m.key ++ codes "\":" ++ m.value

-- One line: the members with commas between them, in braces.
unfoldable pub object_line : List Member → Bytes
object_line ms = codes "{" ++ join (codes ",") (map member_text ms) ++ codes "}" ++ codes "\n"

-- The members with a comma behind each.
abbrev pub with_commas : List Member → Bytes
with_commas [] = []
with_commas (m ∷ ms) = member_text m ++ (b',' ∷ with_commas ms)

pub with_commas-append :
    (ms ns : List Member) → with_commas (ms ++ ns) ≡ with_commas ms ++ with_commas ns
with_commas-append [] ns = refl
with_commas-append (m ∷ ms) ns = simp (with_commas-append ms ns, append_assoc)

join-with_commas :
    (ms : List Member) (last : Member)
    → join (codes ",") (map member_text (ms ++ last ∷ [])) ≡ with_commas ms ++ member_text last
join-with_commas [] last = simp (append-nil)
join-with_commas (m ∷ []) last = simp (append-nil, append_assoc)
join-with_commas (m ∷ n ∷ ms) last = simp (join-with_commas (n ∷ ms) last, append_assoc)

pub object_line-with_commas :
    (ms : List Member) (last : Member)
    → object_line (ms ++ last ∷ [])
      ≡ codes "{" ++ with_commas ms ++ member_text last ++ codes "}" ++ codes "\n"
unfolding object_line
object_line-with_commas ms last = rw (join-with_commas ms last) (simp append_assoc)

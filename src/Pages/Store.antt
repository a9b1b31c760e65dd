-- ===== src/Pages/Store.antt =====
-- The pages of a fork, by block. Models no code of its own.
use pg_plugins.Base.{ℕ, zero, suc, List, [], ◌∷◌, Bytes}

abbrev pub get_page : List Bytes → ℕ → Bytes
get_page [] i = []
get_page (p ∷ ps) zero = p
get_page (p ∷ ps) (suc i) = get_page ps i

abbrev pub set_page : List Bytes → ℕ → Bytes → List Bytes
set_page [] i v = []
set_page (p ∷ ps) zero v = v ∷ ps
set_page (p ∷ ps) (suc i) v = p ∷ set_page ps i v

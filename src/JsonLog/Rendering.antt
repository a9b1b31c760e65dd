-- ===== src/JsonLog/Rendering.antt =====
-- jsonlog/jsonlog.c: the texts that the fields append, as those of members.
use pg_plugins.Base.{
  ◌≡◌, refl, sym, Bool, true, false, Option, none, some, List, [], ◌∷◌, ◌++◌, Bytes,
}
use pg_plugins.JsonLog.Server.{Server}
use pg_plugins.JsonLog.Json.{append_when, append_present, append_json_literal, append_raw}
use pg_plugins.JsonLog.Members.{Member, with_commas, with_commas-append}

-- The members under a condition, and those of a value that is there.
unfoldable pub only : Bool → List Member → List Member
only true ms = ms
only false ms = []

unfoldable pub present : {A : Type 0} → Option A → (A → List Member) → List Member
present none f = []
present (some a) f = f a

-- The text is that of the members, each with a comma behind it.
pub data Renders (t : Bytes) (ms : List Member) : Type 0 where
  renders : t ≡ with_commas ms → Renders t ms

pub rendered : {t : Bytes} {ms : List Member} → Renders t ms → t ≡ with_commas ms
rendered (renders e) = e

pub Renders-present :
    {A : Type 0} (o : Option A) {text : A → Bytes} {ms : A → List Member}
    → ((a : A) → Renders (text a) (ms a))
    → Renders (append_present o text) (present o ms)
unfolding append_present present
Renders-present none same = renders refl
Renders-present (some a) same = same a

pub Renders-only :
    (b : Bool) {text : Bytes} {ms : List Member}
    → Renders text ms
    → Renders (append_when b text) (only b ms)
unfolding append_when only
Renders-only true same = same
Renders-only false same = renders refl

pub Renders-append :
    {s t : Bytes} {ms ns : List Member} → Renders s ms → Renders t ns → Renders (s ++ t) (ms ++ ns)
Renders-append {ms} {ns} (renders e) (renders f) =
    renders (rw (e, f) (sym (with_commas-append ms ns)))

module _ (server : Server) where
  open server use {escape_json, print_int, print_unsigned, print_hex}

  -- A member with a text, and one with a text that is not escaped.
  unfoldable pub text_member : Bytes → Bytes → List Member
  text_member key text = record { key = key; value = escape_json text } ∷ []

  unfoldable pub raw_member : Bytes → Bytes → List Member
  raw_member key text = record { key = key; value = text } ∷ []

  pub Renders-text :
      (key text : Bytes) → Renders (append_json_literal server key text true) (text_member key text)
  unfolding append_json_literal text_member
  Renders-text key text = renders refl

  pub Renders-raw : (key text : Bytes) → Renders (append_raw server key text) (raw_member key text)
  unfolding append_raw raw_member
  Renders-raw key text = renders refl

pub ruleset rendering = (Renders-append, Renders-present, Renders-only, Renders-text, Renders-raw)

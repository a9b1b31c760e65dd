-- ===== src/Pgmpc/Ownership.antt =====
-- pgmpc/pgmpc.c: the connection, the status and the songs that the parts of the functions hold.
use pg_plugins.Base.{
  ℕ, ◌≡◌, Bool, true, false, not, Option, none, some, List, [], ◌∷◌, ◌++◌, Bytes, arith,
  Option-cases, Bool-cases, inl, inr, ◌⊎◌,
}
use pg_plugins.Pgmpc.Client
use pg_plugins.Pgmpc.Client.{
  send_password, password, recv_song, response_next, response_finish, Call, Status, Mpd,
  MpdSettings, Client, Error, Outcome, returns, raises, crashes, reads_freed, M, ◌>>=◌, ◌>>◌, pure,
  raise_if, command, pgmpc_reset, pgmpc_print_error, run, check_connection, pgmpc_init, ResultInfo,
  ResultSet, pgmpc_init_setof, pgmpc_init_setof_single,
}
use pg_plugins.Pgmpc.Functions.{
  is_current, current_row, song_allocated, song_freed, receive_status, receive_song, status_song,
  run_once, switch_mode, fetch_rows, list_rows, pgmpc_status,
}

-- No connection, no status, and nothing of libmpdclient allocated.
pub record IsReleased (c : Client) : Type 0 where
  pub no_connection : c.mpd_conn ≡ false
  pub no_status : c.mpd_status ≡ none
  pub connections_freed : c.connections ≡ 0
  pub statuses_freed : c.statuses ≡ 0
  pub songs_freed : c.songs ≡ 0

abbrev pub held : Option Status → ℕ
held none = 0
held (some _) = 1

-- One connection, and the status `s`.
pub record Holds (s : Option Status) (c : Client) : Type 0 where
  is_connected : c.mpd_conn ≡ true
  has_status : c.mpd_status ≡ s
  one_connection : c.connections ≡ 1
  as_many_statuses : c.statuses ≡ held s
  songs_freed : c.songs ≡ 0

-- Something that libmpdclient reports as an error.
abbrev pub Reports : Mpd → Type 0
Reports mpd =
    (calls : List Call) × ((mpd.succeeds calls ≡ false)
      ⊎ (mpd.no_error calls ≡ false)
      ⊎ (mpd.status_of calls ≡ none))

-- A result meets `P`, an error leaves the client released, as does the report of an error of mpd, which
-- reads freed memory and is made where `F` holds, and there is no crash.
abbrev pub Post : {A : Type 0} (F : Type 0) → (Client → Type 0) → Outcome A × Client → Type 0
Post F P (returns a, c) = P c
Post F P (raises e, c) = IsReleased c
Post F P (crashes, c) = ⊥
Post F P (reads_freed, c) = F × IsReleased c

pub bind-Post :
    {A B : Type 0} (F : Type 0) (P Q : Client → Type 0) (r : Outcome A × Client) (f : A → M B)
    → Post F P r
    → ((a : A) (c : Client) → P c → Post F Q (f a c))
    → Post F Q (Client.after r.0 f r.1)
bind-Post F P Q (returns a, c) f p q = q a c p
bind-Post F P Q (raises e, c) f p q = p
bind-Post F P Q (crashes, c) f p q = elim p [ ]
bind-Post F P Q (reads_freed, c) f p q = p

module _ (F : Type 0) (s : Option Status) where
  command-Post :
      {A : Type 0} (call : Call) (answer : List Call → A) (c : Client)
      → Holds s c
      → Post F (Holds s) (command call answer c)
  unfolding command
  command-Post call answer c h = ground arith

  -- A song that is freed at once.
  freed-Holds : (c : Client) → Holds s c → Holds s (song_freed (song_allocated c).1).1
  unfolding song_freed song_allocated
  freed-Holds c h = ground arith

  pgmpc_reset-Post : (c : Client) → Holds s c → Post F IsReleased (pgmpc_reset c)
  unfolding pgmpc_reset
  pgmpc_reset-Post c h = ground arith

  finish-Post :
      {A : Type 0} (a : A) (c : Client) → Holds s c → Post F IsReleased ((pgmpc_reset >> pure a) c)
  finish-Post a c h =
      bind-Post F IsReleased IsReleased (pgmpc_reset c) _ (pgmpc_reset-Post c h) (λ _ c' r. r)

  fetch_rows-Post :
      (receive : Call) (names : List Bytes) (set : ResultSet) (c : Client)
      → Holds s c
      → Post F (Holds s) (fetch_rows receive names set c)
  unfolding fetch_rows
  fetch_rows-Post receive [] set c h =
      bind-Post F (Holds s) (Holds s) _ _ (command-Post receive _ c h) (λ _ c' h'. h')
  fetch_rows-Post receive (name ∷ names) set c h =
      bind-Post F (Holds s) (Holds s) _ _ (command-Post receive _ c h) (λ _ c' h'.
        fetch_rows-Post receive names (record set { rows = set.rows ++ (name ∷ []) ∷ [] }) _
          (freed-Holds c' h'))

module _ (mpd : Mpd) (s : Option Status) where
  run-Post : (call : Call) (c : Client) → Holds s c → Post (Reports mpd) (Holds s) (run mpd call c)
  unfolding run
  run-Post call c h = elim (Bool-cases (mpd.succeeds (call ∷ c.calls))) [
    | inl e ↦ rw (h.is_connected, e) (ground arith)
    | inr e ↦ rw (h.is_connected, e) ((call ∷ c.calls, inl e), ground arith)
  ]

  check_connection-Post :
      (c : Client) → Holds s c → Post (Reports mpd) (Holds s) (check_connection mpd c)
  unfolding check_connection
  check_connection-Post c h = elim (Bool-cases (mpd.no_error c.calls)) [
    | inl e ↦ rw e h
    | inr e ↦ rw (e, h.is_connected) ((c.calls, inr (inl e)), ground arith)
  ]

abbrev HoldsSome : Client → Type 0
HoldsSome c = (t : Status) × Holds (some t) c

Post-mono :
    {A : Type 0} (F : Type 0) (P Q : Client → Type 0) (r : Outcome A × Client)
    → Post F P r
    → ((c : Client) → P c → Q c)
    → Post F Q r
Post-mono F P Q (returns a, c) p weaken = weaken c p
Post-mono F P Q (raises e, c) p weaken = p
Post-mono F P Q (crashes, c) p weaken = elim p [ ]
Post-mono F P Q (reads_freed, c) p weaken = p

run_some-Post :
    (mpd : Mpd) (call : Call) (c : Client)
    → HoldsSome c
    → Post (Reports mpd) HoldsSome (run mpd call c)
run_some-Post mpd call c (t, h) =
    Post-mono (Reports mpd) (Holds (some t)) HoldsSome _ (run-Post mpd (some t) call c h)
      (λ c' h'. (t, h'))

send_password-Post :
    (mpd : Mpd) (text : Bytes) (c : Client)
    → Holds none c
    → Post (Reports mpd) (Holds none) (send_password mpd text c)
unfolding send_password
send_password-Post mpd [] c h = h
send_password-Post mpd (ch ∷ rest) c h = run-Post mpd none (password (ch ∷ rest)) c h

module _ (mpd : Mpd) (settings : MpdSettings) where
  pgmpc_init-Post :
      (c : Client) → IsReleased c → Post (Reports mpd) (Holds none) (pgmpc_init mpd settings c)
  unfolding pgmpc_init
  pgmpc_init-Post c r =
      bind-Post (Reports mpd) (Holds none) (Holds none) _ _
        (check_connection-Post mpd none _ (ground arith))
        (λ _ c' h. send_password-Post mpd settings.mpd_password c' h)

  receive_status-Post :
      (call : Call) (c : Client)
      → Holds none c
      → Post (Reports mpd) HoldsSome (receive_status mpd settings call c)
  unfolding receive_status
  receive_status-Post call c h = elim (Option-cases (mpd.status_of (call ∷ c.calls))) [
    | inl e ↦ rw (h.is_connected, e) ((call ∷ c.calls, inr (inr e)), ground arith)
    | inr (t, e) ↦ rw (h.is_connected, e) (t, ground arith)
  ]

  status_song-Post :
      (t : Status) (c : Client)
      → HoldsSome c
      → Post (Reports mpd) HoldsSome (status_song mpd settings t c)
  unfolding status_song receive_song command song_freed song_allocated
  status_song-Post t c (u, h) = elim (Option-cases (mpd.song_of (recv_song ∷ c.calls))) [
    | inl e ↦ rw (h.is_connected, e) (u, ground arith)
    | inr (song, e) ↦ rw (h.is_connected, e) (u, ground arith)
  ]

  pub run_once-Post :
      (call : Call) (c : Client)
      → IsReleased c
      → Post (Reports mpd) IsReleased (run_once mpd settings call c)
  unfolding run_once
  run_once-Post call c r =
      bind-Post (Reports mpd) (Holds none) IsReleased _ _ (pgmpc_init-Post c r) (λ _ c' h.
        bind-Post (Reports mpd) (Holds none) IsReleased _ _ (run-Post mpd none call c' h)
          (λ _ c'' h'. pgmpc_reset-Post (Reports mpd) none c'' h'))

  pub switch_mode-Post :
      (get : Status → Bool) (set_mode : Bool → Call) (c : Client)
      → IsReleased c
      → Post (Reports mpd) IsReleased (switch_mode mpd settings get set_mode c)
  unfolding switch_mode
  switch_mode-Post get set_mode c r =
      bind-Post (Reports mpd) (Holds none) IsReleased _ _ (pgmpc_init-Post c r) (λ _ c1 h1.
        bind-Post (Reports mpd) HoldsSome IsReleased _ _ (receive_status-Post _ c1 h1) (λ t c2 h2.
          bind-Post (Reports mpd) HoldsSome IsReleased _ _ (run_some-Post mpd _ c2 h2)
            (λ _ c3 h3. finish-Post (Reports mpd) (some h3.0) (not (get t)) c3 h3.1)))

  pub list_rows-Post :
      (send receive : Call) (set : ResultSet) (c : Client)
      → IsReleased c
      → Post (Reports mpd) IsReleased (list_rows mpd settings send receive set c)
  unfolding list_rows
  list_rows-Post send receive set c r =
      bind-Post (Reports mpd) (Holds none) IsReleased _ _ (pgmpc_init-Post c r) (λ _ c1 h1.
        bind-Post (Reports mpd) (Holds none) IsReleased _ _ (run-Post mpd none send c1 h1)
          (λ _ c2 h2.
            bind-Post (Reports mpd) (Holds none) IsReleased _ _
              (fetch_rows-Post (Reports mpd) none receive (mpd.listed c2.calls) set c2 h2)
              (λ found c3 h3.
                bind-Post (Reports mpd) (Holds none) IsReleased _ _
                  (check_connection-Post mpd none c3 h3)
                  (λ _ c4 h4. finish-Post (Reports mpd) none found c4 h4))))

  current_row-Post :
      (t : Status) (c : Client)
      → HoldsSome c
      → Post (Reports mpd) HoldsSome (current_row mpd settings t c)
  unfolding current_row
  current_row-Post t c h = elim (Bool-cases (is_current t.state)) [
    | inl e ↦ rw e (
        bind-Post (Reports mpd) HoldsSome HoldsSome _ _ (run_some-Post mpd response_next c h)
          (λ _ c1 h1.
            bind-Post (Reports mpd) HoldsSome HoldsSome _ _ (status_song-Post t c1 h1)
              (λ found c2 h2.
                bind-Post (Reports mpd) HoldsSome HoldsSome _ _
                  (run_some-Post mpd response_finish c2 h2) (λ _ c3 h3. h3))))
    | inr e ↦ rw e h
  ]

  -- The exchange of the status, behind the connection.
  pub pgmpc_status-Post :
      (returns_row : Bool) (c : Client)
      → IsReleased c
      → Post (Reports mpd) IsReleased (pgmpc_status mpd settings returns_row c)
  unfolding pgmpc_status
  pgmpc_status-Post false c r = r
  pgmpc_status-Post true c r =
      bind-Post (Reports mpd) (Holds none) IsReleased _ _ (pgmpc_init-Post c r) (λ _ c1 h1.
        bind-Post (Reports mpd) (Holds none) IsReleased _ _ (run-Post mpd none _ c1 h1) (λ _ c2 h2.
          bind-Post (Reports mpd) (Holds none) IsReleased _ _ (run-Post mpd none _ c2 h2)
            (λ _ c3 h3.
              bind-Post (Reports mpd) (Holds none) IsReleased _ _ (run-Post mpd none _ c3 h3)
                (λ _ c4 h4.
                  bind-Post (Reports mpd) (Holds none) IsReleased _ _ (run-Post mpd none _ c4 h4)
                    (λ _ c5 h5.
                      bind-Post (Reports mpd) HoldsSome IsReleased _ _ (receive_status-Post _ c5 h5)
                        (λ t c6 h6.
                          bind-Post (Reports mpd) HoldsSome IsReleased _ _
                            (current_row-Post t c6 h6)
                            (λ row c7 h7. finish-Post (Reports mpd) (some h7.0) row c7 h7.1)))))))

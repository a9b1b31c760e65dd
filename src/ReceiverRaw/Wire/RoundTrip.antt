-- ===== src/ReceiverRaw/Wire/RoundTrip.antt =====
-- receiver_raw/receiver_raw.c: the round trips of the wire integers, and reads past the end of a message.
use pg_plugins.Base.{
  ℕ, ◌+◌, ◌*◌, ◌%◌, ◌^◌, ◌<◌, ◌≡◌, ◌↔◌, refl, sym, ap, ◌∙◌, none, some, [], ◌∷◌, ◌++◌, arith, Bytes,
  get_elem?, length, length-drop, All, drop, take, get_elem?-drop, drop-append,
}
use pg_plugins.Base.Bits.{bit_or_disjoint}
use pg_plugins.ReceiverRaw.Wire.{fe_sendint64, fe_recvint64, ntohl}

-- A read at an offset is a read at the start of what follows.
recv_drop : (buf : Bytes) (at : ℕ) → fe_recvint64 buf at ≡ fe_recvint64 (drop at buf) 0
unfolding fe_recvint64
recv_drop buf at = rw (
  moved at 0 (omega arith),
  moved (at + 1) 1 refl,
  moved (at + 2) 2 refl,
  moved (at + 3) 3 refl,
  moved (at + 4) 4 refl,
  moved (at + 4 + 1) 5 (omega arith),
  moved (at + 4 + 2) 6 (omega arith),
  moved (at + 4 + 3) 7 (omega arith),
)
  where
    moved : (j i : ℕ) → j ≡ at + i → get_elem? buf j ≡ get_elem? (drop at buf) i
    moved j i e = rw e (get_elem?-drop at buf i)

abbrev pub AllBytes : Bytes → Type 0
AllBytes = All (λ x. x < 256)

-- Eight bytes, most significant first.
recv_bytes :
    (a b c d e f g h : ℕ) (rest : Bytes)
    → AllBytes (a ∷ b ∷ c ∷ d ∷ e ∷ f ∷ g ∷ h ∷ [])
    → fe_recvint64 (a ∷ b ∷ c ∷ d ∷ e ∷ f ∷ g ∷ h ∷ rest) 0
      ≡ some (ntohl a b c d * 2 ^ 32 + ntohl e f g h)
unfolding fe_recvint64
recv_bytes a b c d e f g h rest bytes =
    let fits : ntohl a b c d * 2 ^ 32 % 2 ^ 64 ≡ ntohl a b c d * 2 ^ 32 =
      unfold ntohl in omega arith in
    rw fits
      (ap some (bit_or_disjoint 32 (ntohl a b c d) (ntohl e f g h) (unfold ntohl in omega arith)))

recv_start : (i : ℕ) (rest : Bytes) → i < 2 ^ 64 → fe_recvint64 (fe_sendint64 i ++ rest) 0 ≡ some i
unfolding fe_sendint64
recv_start i rest h =
    recv_bytes _ _ _ _ _ _ _ _ rest (omega arith) ∙ ap some (unfold ntohl in omega arith)

-- A number that is sent at any position of a message is received there, whatever follows.
pub recv-send :
    (before : Bytes) (i : ℕ) (rest : Bytes)
    → i < 2 ^ 64
    → fe_recvint64 (before ++ (fe_sendint64 i ++ rest)) (length before) ≡ some i
recv-send before i rest h =
    recv_drop (before ++ (fe_sendint64 i ++ rest)) (length before)
    ∙ ap (λ (t : Bytes). fe_recvint64 t 0) (drop-append before (fe_sendint64 i ++ rest))
    ∙ recv_start i rest h

recv_bytes_inverse :
    (a b c d e f g h v : ℕ)
    → AllBytes (a ∷ b ∷ c ∷ d ∷ e ∷ f ∷ g ∷ h ∷ [])
    → v ≡ ntohl a b c d * 2 ^ 32 + ntohl e f g h
    → (fe_sendint64 v ≡ a ∷ b ∷ c ∷ d ∷ e ∷ f ∷ g ∷ h ∷ []) × (v < 2 ^ 64)
unfolding fe_sendint64 ntohl
recv_bytes_inverse a b c d e f g h v bytes eq = (ground arith, omega arith)

-- Where eight bytes can be received from a position, sending what was received gives those bytes
-- back, and it is below 2 ^ 64.
send-recv :
    (buf : Bytes) (at v : ℕ)
    → AllBytes (take 8 (drop at buf))
    → fe_recvint64 buf at ≡ some v
    → (fe_sendint64 v ≡ take 8 (drop at buf)) × (v < 2 ^ 64)
send-recv buf at v bytes r = first (drop at buf) bytes (sym (recv_drop buf at) ∙ r)
  where
    first :
        (s : Bytes)
        → AllBytes (take 8 s)
        → fe_recvint64 s 0 ≡ some v
        → (fe_sendint64 v ≡ take 8 s) × (v < 2 ^ 64)
    first (a ∷ b ∷ c ∷ d ∷ e ∷ f ∷ g ∷ h ∷ rest) bytes' r' =
        recv_bytes_inverse a b c d e f g h v bytes' (cc (recv_bytes a b c d e f g h rest bytes'))
    first _ bytes' r' = unfold fe_recvint64 in cc

recv_start_bounds : (s : Bytes) → (fe_recvint64 s 0 ≡ none) ↔ (length s < 8)
unfolding fe_recvint64
recv_start_bounds (a ∷ b ∷ c ∷ d ∷ e ∷ f ∷ g ∷ h ∷ rest) = (λ e'. cc, λ short. absurd (omega arith))
recv_start_bounds _ = (λ e'. omega arith, λ short. refl)

-- The read leaves the message exactly where fewer than eight bytes follow the position.
pub recv_bounds : (buf : Bytes) (at : ℕ) → (fe_recvint64 buf at ≡ none) ↔ (length buf < at + 8)
recv_bounds buf at =
    let (to, from) = recv_start_bounds (drop at buf) in
    rw recv_drop (
      λ e. omega (arith, to e, length-drop at buf),
      λ short. from (omega (arith, length-drop at buf)),
    )

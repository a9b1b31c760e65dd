-- ===== src/ReceiverRaw/Wire.antt =====
-- receiver_raw/receiver_raw.c: `fe_sendint64` and `fe_recvint64`. An int64 is its bit pattern, a
-- number below 2 ^ 64; a position in a message is read as memory, where none is a byte past its end.
pub mod RoundTrip
use Prim.Native.Nat.{bit_or}
use pg_plugins.Base.{
  ℕ, ◌+◌, ◌*◌, ◌/◌, ◌%◌, ◌^◌, ◌<◌, ◌≡◌, refl, Option, none, some, [], ◌∷◌, ◌++◌, arith, Bytes,
  get_elem?, length, All,
}
use pg_plugins.Base.Bits.{bit_or_disjoint}
use pg_plugins.Base.Memory.{◌>>=◌}

-- The four bytes that memcpy copies from htonl(n), whatever the byte order of the host.
htonl : ℕ → Bytes
htonl n = (n / 2 ^ 24 % 256) ∷ (n / 2 ^ 16 % 256) ∷ (n / 2 ^ 8 % 256) ∷ (n % 256) ∷ []

-- The value of ntohl on the four bytes that memcpy copied.
ntohl : ℕ → ℕ → ℕ → ℕ → ℕ
ntohl a b c d = a * 2 ^ 24 + b * 2 ^ 16 + c * 2 ^ 8 + d

-- High order half first; the casts to uint32 reduce.
unfoldable pub fe_sendint64 : ℕ → Bytes
unfolding htonl
fe_sendint64 i = htonl (i / 2 ^ 32 % 2 ^ 32) ++ htonl (i % 2 ^ 32)

recv_uint32 : Bytes → ℕ → Option ℕ
unfolding ntohl
recv_uint32 buf at = do
  a ← get_elem? buf at
  b ← get_elem? buf (at + 1)
  c ← get_elem? buf (at + 2)
  d ← get_elem? buf (at + 3)
  some (ntohl a b c d)

-- fe_recvint64(&buf[at]): `result <<= 32` on 64 bits, then `result |= l32`.
unfoldable pub fe_recvint64 : Bytes → ℕ → Option ℕ
unfolding recv_uint32
fe_recvint64 buf at = do
  h32 ← recv_uint32 buf at
  l32 ← recv_uint32 buf (at + 4)
  some (bit_or (h32 * 2 ^ 32 % 2 ^ 64) l32)

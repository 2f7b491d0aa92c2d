-- ===== src/Metadata.antt =====
-- What cache/client.go and cache/server.go use of gRPC's `metadata`: pairs are appended to an outgoing
-- context, and the other side asks what it received for the values under a key.
use go.Common.{
  ℕ, Bool, true, not, ◌&&◌, ◌||◌, leb, nat_beq, take, ◌≡◌, List, [], ◌∷◌, Bytes, ◌==◌, bytes_eq,
  if◌then◌else◌,
}

abbrev pub Pairs : Type 0
Pairs = List (Bytes × Bytes)

-- The values that a list of pairs has under a key, in their order.
abbrev pub values_of : Bytes → Pairs → List Bytes
values_of key [] = []
values_of key ((k, v) ∷ pairs) = if k == key then v ∷ values_of key pairs else values_of key pairs

-- A lower-case letter, a digit, or one of "-", "_" and ".".
abbrev pub is_plain_byte : ℕ → Bool
is_plain_byte c =
    (leb b'a' c && leb c b'z')
    || (leb b'0' c && leb c b'9')
    || (nat_beq c b'-' || nat_beq c b'_' || nat_beq c b'.')

abbrev pub is_plain : Bytes → Bool
is_plain [] = true
is_plain (c ∷ cs) = is_plain_byte c && is_plain cs

-- "grpc-": keys that begin so are gRPC's own.
abbrev pub reserved : Bytes
reserved = b'g' ∷ b'r' ∷ b'p' ∷ b'c' ∷ b'-' ∷ []

abbrev pub is_key : Bytes → Bool
is_key key = is_plain key && not (take 5 key == reserved)

-- Keys that are not rewritten, reserved or refused on the way, with values of the same bytes.
abbrev pub are_plain : Pairs → Bool
are_plain [] = true
are_plain ((k, v) ∷ pairs) = is_key k && is_plain v && are_plain pairs

pub record Metadata : Type 1 where
  pub Wire : Type 0
  -- What the receiver of a call finds, where the sender appended these pairs.
  pub deliver : Pairs → Wire
  pub get : Wire → Bytes → List Bytes
  pub get-deliver :
      (pairs : Pairs) (key : Bytes)
      → are_plain pairs ≡ true
      → is_key key ≡ true
      → get (deliver pairs) key ≡ values_of key pairs

-- The two marks of a request's context.
pub record Marks : Type 0 where
  pub from_peer : go.Common.Bool
  pub from_migration : go.Common.Bool

-- "from-peer"
abbrev pub from_peer_key : Bytes
from_peer_key = b'f' ∷ b'r' ∷ b'o' ∷ b'm' ∷ b'-' ∷ b'p' ∷ b'e' ∷ b'e' ∷ b'r' ∷ []

-- "from-migration"
abbrev pub from_migration_key : Bytes
from_migration_key =
    b'f' ∷ b'r' ∷ b'o' ∷ b'm' ∷ b'-' ∷ b'm' ∷ b'i' ∷ b'g' ∷ b'r' ∷ b'a' ∷ b't' ∷ b'i' ∷ b'o' ∷ b'n'
    ∷ []

-- "true"
abbrev pub true_text : Bytes
true_text = b't' ∷ b'r' ∷ b'u' ∷ b'e' ∷ []

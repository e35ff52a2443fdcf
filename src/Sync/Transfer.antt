-- ===== src/Sync/Transfer.antt =====
-- crates/sg-sync/src/transfer.rs and the sealing of crates/sg-sync/src/pairing.rs: the sealed payload
-- on the wire, four bytes of length and then the bytes.
pub mod RoundTrip
use server_glass.Base.{
  ℕ, ◌+◌, ◌-◌, ◌*◌, ◌/◌, ◌%◌, ◌^◌, Bool, true, false, Option, none, some, Text, codes, List, [],
  ◌∷◌, ◌++◌, ltb, length, take, drop, if◌then◌else◌, ◌⊎◌, inl, inr,
}

-- `SyncError` of crates/sg-sync/src/lib.rs
pub data SyncError : Type 0 where
  malformed version handshake crypto transfer : Text → SyncError

-- ChaCha20-Poly1305, of another library: the key, the nonce and the message.
pub record Cipher : Type 0 where
  pub encrypt : List ℕ → List ℕ → List ℕ → Option (List ℕ)
  pub decrypt : List ℕ → List ℕ → List ℕ → Option (List ℕ)

-- `Session`
pub record Session : Type 0 where
  pub key : List ℕ
  pub verification_code : ℕ

-- `MAX_TRANSFER`
abbrev pub max_transfer : ℕ
max_transfer = 2 ^ 20

unfoldable pub sealed_with : List ℕ → Option (List ℕ) → SyncError ⊎ List ℕ
sealed_with nonce none = inl (crypto (codes "could not encrypt the transfer"))
sealed_with nonce (some sealed) = inr (nonce ++ sealed)

-- `Session::seal`, with the nonce that was drawn.
unfoldable pub seal : Cipher → Session → List ℕ → List ℕ → SyncError ⊎ List ℕ
unfolding sealed_with
seal c s nonce plaintext = sealed_with nonce (c.encrypt s.key nonce plaintext)

unfoldable pub opened_as : Option (List ℕ) → SyncError ⊎ List ℕ
opened_as none = inl (crypto (codes "the transfer could not be decrypted"))
opened_as (some plaintext) = inr plaintext

-- `Session::open`
unfoldable pub open_sealed : Cipher → Session → List ℕ → SyncError ⊎ List ℕ
unfolding opened_as
open_sealed c s sealed =
    if ltb (length sealed) 12
    then inl (crypto (codes "the transfer was truncated"))
    else opened_as (c.decrypt s.key (take 12 sealed) (drop 12 sealed))

-- `u32::to_be_bytes` and `u32::from_be_bytes`
unfoldable pub be_bytes : ℕ → List ℕ
be_bytes n = n / 2 ^ 24 % 256 ∷ n / 2 ^ 16 % 256 ∷ n / 2 ^ 8 % 256 ∷ n % 256 ∷ []

unfoldable pub from_be_bytes : ℕ → ℕ → ℕ → ℕ → ℕ
from_be_bytes a b c d = a * 2 ^ 24 + b * 2 ^ 16 + c * 2 ^ 8 + d

-- What is written of a sealed payload, if its length fits a `u32`.
unfoldable pub written : SyncError ⊎ List ℕ → SyncError ⊎ List ℕ
unfolding be_bytes
written (inl error) = inl error
written (inr sealed) =
    if ltb (length sealed) (2 ^ 32)
    then inr (be_bytes (length sealed) ++ sealed)
    else inl (transfer (codes "the inventory is too large to send"))

-- `write_payload_inner`: the bytes that go out on a stream that takes them.
unfoldable pub write_payload : Cipher → Session → List ℕ → List ℕ → SyncError ⊎ List ℕ
unfolding written seal
write_payload c s nonce plaintext =
    if ltb (max_transfer - 28) (length plaintext)
    then inl (transfer (codes "the inventory is too large to send"))
    else written (seal c s nonce plaintext)

-- The bytes behind the length.
unfoldable pub read_sealed : Cipher → Session → ℕ → List ℕ → SyncError ⊎ List ℕ
unfolding open_sealed
read_sealed c s len stream =
    if ltb max_transfer len
    then inl (transfer (codes "the other device offered more than an inventory could be"))
    else if ltb (length stream) len
    then inl (transfer (codes "the transfer stopped early"))
    else open_sealed c s (take len stream)

-- `accept_transfer_inner`, on the bytes that come in before the stream ends. Of a read that fails
-- the message leaves out what the stream says.
unfoldable pub accept_transfer : Cipher → Session → List ℕ → SyncError ⊎ List ℕ
unfolding read_sealed from_be_bytes
accept_transfer c s (a ∷ b ∷ d ∷ e ∷ stream) = read_sealed c s (from_be_bytes a b d e) stream
accept_transfer c s _ = inl (transfer (codes "the transfer stopped early"))

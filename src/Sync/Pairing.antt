-- ===== src/Sync/Pairing.antt =====
-- crates/sg-sync/src/pairing.rs: the handshake of two devices and the code that both show.
pub mod Agreement
use server_glass.Base.{
  ℕ, zero, suc, ◌-◌, ◌%◌, Bool, true, false, not, Option, none, some, Text, codes, List, [], ◌∷◌,
  ◌++◌, length, take, drop, show_nat, if◌then◌else◌, ◌⊎◌, inl, inr,
}
use server_glass.Sync.Transfer.{SyncError, handshake, Session, from_be_bytes}

-- X25519 and HKDF over SHA-256, of other libraries. `expand` is given the salt, the input key, the
-- label and the number of bytes.
pub record KeyExchange : Type 0 where
  pub public_of : List ℕ → List ℕ
  pub diffie_hellman : List ℕ → List ℕ → List ℕ
  pub was_contributory : List ℕ → Bool
  pub expand : List ℕ → List ℕ → Text → ℕ → Option (List ℕ)

pub record Offer : Type 0 where
  pub public_key : List ℕ
  pub nonce : List ℕ
  pub addresses : List Text

pub record Handshake : Type 0 where
  pub secret : List ℕ
  pub public_key : List ℕ
  pub nonce : List ℕ

-- `Handshake::offering`, with the secret and the nonce that were drawn.
unfoldable pub offering : KeyExchange → List ℕ → List ℕ → List Text → Handshake × Offer
offering x secret nonce addresses = (
  record { secret = secret; public_key = x.public_of secret; nonce = nonce },
  record { public_key = x.public_of secret; nonce = nonce; addresses = addresses },
)

-- `Handshake::accepting`
unfoldable pub accepting : KeyExchange → List ℕ → Offer → Handshake
accepting x secret offer = record {
  secret = secret;
  public_key = x.public_of secret;
  nonce = offer.nonce;
}

-- `VERSION`
abbrev pub version_byte : ℕ
version_byte = 1

-- Both public keys in the same order on both sides, the offering device's first.
unfoldable pub transcript : Handshake → List ℕ → Bool → List ℕ
transcript h theirs true = version_byte ∷ (h.public_key ++ (theirs ++ h.nonce))
transcript h theirs false = version_byte ∷ (theirs ++ (h.public_key ++ h.nonce))

-- `u32::from_be_bytes(sas) % 1_000_000`, of four bytes.
unfoldable pub code_of : List ℕ → ℕ
unfolding from_be_bytes
code_of (a ∷ b ∷ c ∷ d ∷ rest) = from_be_bytes a b c d % 1000000
code_of _ = 0

unfoldable pub derived : Option (List ℕ) → Option (List ℕ) → SyncError ⊎ Session
unfolding code_of
derived none sas = inl (handshake (codes "key derivation failed"))
derived (some key) none = inl (handshake (codes "key derivation failed"))
derived (some key) (some sas) = inr (record { key = key; verification_code = code_of sas })

unfoldable pub derive_session : KeyExchange → List ℕ → List ℕ → SyncError ⊎ Session
unfolding derived
derive_session x shared salt =
    if x.was_contributory shared
    then derived (x.expand salt shared (codes "serverglass pairing key") 32)
        (x.expand salt shared (codes "serverglass verification code") 4)
    else inl (handshake (codes "the other device sent an unusable key"))

-- `Handshake::complete`
unfoldable pub complete : KeyExchange → Handshake → List ℕ → Bool → SyncError ⊎ Session
unfolding derive_session transcript
complete x h theirs is_offering =
    derive_session x (x.diffie_hellman h.secret theirs) (transcript h theirs is_offering)

abbrev pub zeros : ℕ → Text
zeros zero = []
zeros (suc n) = b'0' ∷ zeros n

-- `Session::verification_code`, with `{:06}` written out.
unfoldable pub shown_code : Session → Text
unfolding show_nat
shown_code s =
    let code = zeros (6 - length (show_nat s.verification_code)) ++ show_nat s.verification_code in
    take 3 code ++ (b' ' ∷ drop 3 code)

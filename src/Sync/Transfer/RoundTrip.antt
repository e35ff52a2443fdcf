-- ===== src/Sync/Transfer/RoundTrip.antt =====
-- crates/sg-sync/src/transfer.rs: what one device sends against what the other reads.
use server_glass.Base.{
  ℕ, ◌+◌, ◌-◌, ◌/◌, ◌%◌, ◌^◌, ◌≤◌, ◌<◌, ◌≡◌, refl, ap, ◌∙◌, some, true, false, List, [], ◌∷◌, ◌++◌,
  arith, ltb, length, length-append, take, drop, inr,
}
use mathlib.Core.Path.{subst}
use server_glass.Sync.Transfer.{
  Cipher, Session, max_transfer, seal, sealed_with, opened_as, open_sealed, be_bytes, from_be_bytes,
  written, write_payload, read_sealed, accept_transfer,
}

take-append : (xs ys : List ℕ) → take (length xs) (xs ++ ys) ≡ xs
take-append [] ys = refl
take-append (x ∷ xs) ys = ap (λ t. x ∷ t) (take-append xs ys)

drop-append : (xs ys : List ℕ) → drop (length xs) (xs ++ ys) ≡ ys
drop-append [] ys = refl
drop-append (x ∷ xs) ys = drop-append xs ys

from_be_bytes-be_bytes :
    (n : ℕ)
    → n < 2 ^ 32
    → from_be_bytes (n / 2 ^ 24 % 256) (n / 2 ^ 16 % 256) (n / 2 ^ 8 % 256) (n % 256) ≡ n
unfolding from_be_bytes
from_be_bytes-be_bytes n h = omega (arith, h)

open_sealed-append :
    (c : Cipher) (s : Session) (nonce sealed plaintext : List ℕ)
    → length nonce ≡ 12
    → c.decrypt s.key nonce sealed ≡ some plaintext
    → open_sealed c s (nonce ++ sealed) ≡ inr plaintext
unfolding open_sealed opened_as
open_sealed-append c s nonce sealed plaintext twelve dec =
    let long : ltb (length (nonce ++ sealed)) 12 ≡ false =
      ground (arith, length-append nonce sealed, twelve) in
    let front : take 12 (nonce ++ sealed) ≡ nonce =
      subst (λ n. take n (nonce ++ sealed) ≡ nonce) twelve (take-append nonce sealed) in
    let back : drop 12 (nonce ++ sealed) ≡ sealed =
      subst (λ n. drop n (nonce ++ sealed) ≡ sealed) twelve (drop-append nonce sealed) in
    rw (open_sealed, long, front, back, dec) refl

read_sealed-append :
    (c : Cipher) (s : Session) (body rest : List ℕ)
    → length body ≤ max_transfer
    → read_sealed c s (length body) (body ++ rest) ≡ open_sealed c s body
unfolding read_sealed
read_sealed-append c s body rest fits =
    let small : ltb max_transfer (length body) ≡ false = ground (arith, fits) in
    let whole : ltb (length (body ++ rest)) (length body) ≡ false =
      ground (arith, length-append body rest) in
    rw (read_sealed, small, whole, take-append body rest) refl

-- A payload that the sender's limit allows reaches the other device as it was, whatever follows it
-- on the stream. The cipher encrypts it to as many bytes and a tag of 16, and decrypts that with the
-- same key and nonce; the nonce has 12 bytes.
pub accept_transfer-write_payload :
    (c : Cipher) (s : Session) (nonce plaintext sealed rest : List ℕ)
    → length plaintext ≤ max_transfer - 28
    → length nonce ≡ 12
    → c.encrypt s.key nonce plaintext ≡ some sealed
    → length sealed ≡ length plaintext + 16
    → c.decrypt s.key nonce sealed ≡ some plaintext
    → (write_payload c s nonce plaintext
        ≡ inr (be_bytes (length (nonce ++ sealed)) ++ (nonce ++ sealed)))
      × (accept_transfer c s ((be_bytes (length (nonce ++ sealed)) ++ (nonce ++ sealed)) ++ rest)
          ≡ inr plaintext)
unfolding write_payload accept_transfer
accept_transfer-write_payload c s nonce plaintext sealed rest fits twelve enc tag dec =
    let body = nonce ++ sealed in
    let size : length body ≤ max_transfer =
      omega (arith, fits, tag, twelve, length-append nonce sealed) in
    let allowed : ltb (max_transfer - 28) (length plaintext) ≡ false = ground (arith, fits) in
    let narrow : ltb (length body) (2 ^ 32) ≡ true = ground (arith, size) in
    (
      rw (write_payload, allowed, seal, enc, sealed_with, written, narrow) refl,
      rw (from_be_bytes-be_bytes (length body) (omega (arith, size))) (
          read_sealed-append c s body rest size
          ∙ open_sealed-append c s nonce sealed plaintext twelve dec),
    )

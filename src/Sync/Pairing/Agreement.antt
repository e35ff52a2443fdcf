-- ===== src/Sync/Pairing/Agreement.antt =====
-- crates/sg-sync/src/pairing.rs: what both sides of a handshake derive.
use server_glass.Base.{
  ℕ, ◌<◌, ◌≡◌, Bool, true, false, Option, none, some, Text, List, [], ◌∷◌, arith, Bool-cases, ◌⊎◌,
  inl, inr,
}
use server_glass.Sync.Transfer.{SyncError, Session}
use server_glass.Sync.Pairing.{
  KeyExchange, Handshake, offering, accepting, transcript, code_of, derived, derive_session,
  complete,
}

-- The offering device that receives the other's public key and the accepting device that has
-- scanned the offer come to the same result: the same error, or the same key and the same code. The
-- key exchange gives both the same secret.
pub complete_agrees :
    (x : KeyExchange) (ours theirs nonce : List ℕ) (addresses : List Text)
    → x.diffie_hellman ours (x.public_of theirs) ≡ x.diffie_hellman theirs (x.public_of ours)
    → complete x
        (offering x ours nonce addresses).0
        (accepting x theirs (offering x ours nonce addresses).1).public_key
        true
      ≡ complete x
          (accepting x theirs (offering x ours nonce addresses).1)
          (offering x ours nonce addresses).1.public_key
          false
unfolding complete offering accepting transcript
complete_agrees x ours theirs nonce addresses same = cc same

code_of-bound : (sas : List ℕ) → code_of sas < 1000000
unfolding code_of
code_of-bound [] = omega arith
code_of-bound (a ∷ []) = omega arith
code_of-bound (a ∷ b ∷ []) = omega arith
code_of-bound (a ∷ b ∷ c ∷ []) = omega arith
code_of-bound (a ∷ b ∷ c ∷ d ∷ rest) = omega arith

-- A session's code is below a million, where there is a session.
abbrev pub HasCode : SyncError ⊎ Session → Type 0
HasCode (inl error) = Unit
HasCode (inr s) = s.verification_code < 1000000

derived-HasCode : (key sas : Option (List ℕ)) → HasCode (derived key sas)
unfolding derived
derived-HasCode none sas = tt
derived-HasCode (some key) none = tt
derived-HasCode (some key) (some sas) = code_of-bound sas

-- The code of a completed handshake has six digits at most.
pub complete-HasCode :
    (x : KeyExchange) (h : Handshake) (theirs : List ℕ) (is_offering : Bool)
    → HasCode (complete x h theirs is_offering)
unfolding complete derive_session
complete-HasCode x h theirs is_offering =
    let shared = x.diffie_hellman h.secret theirs in
    elim (Bool-cases (x.was_contributory shared)) [
      | inl y ↦ rw (complete, derive_session, y) (derived-HasCode _ _)
      | inr n ↦ rw (complete, derive_session, n) tt
    ]

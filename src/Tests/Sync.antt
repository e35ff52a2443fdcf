-- ===== src/Tests/Sync.antt =====
-- Two devices: their servers and pins, a transfer, and a handshake.
use server_glass.Base.{
  true, false, ◌+◌, ℕ, ◌-◌, List, ◌++◌, some, inr, take, arith, refl, ◌≡◌, none, Text, codes, [],
  ◌∷◌, length,
}
use server_glass.Sync.Transfer.{Cipher, Session, write_payload, accept_transfer, be_bytes}
use server_glass.Sync.Transfer.RoundTrip.{accept_transfer-write_payload}
use server_glass.Sync.Pairing.{KeyExchange, offering, accepting, complete}
use server_glass.Sync.Pairing.Agreement.{complete_agrees}
use server_glass.Sync.Payload.{SyncHost, Payload}
use server_glass.Sync.Merge.{merge}
use server_glass.Sync.Merge.Hosts.{MergesServers, merge-servers}
use server_glass.Sync.Merge.Pins.{MergesPins, merge-pins}

abbrev server : Text → SyncHost
server address = record {
  address = address;
  port = 22;
  user = codes "root";
  auth_kind = codes "agent";
  key_path = none;
  host_key_policy = codes "strict";
  refresh_ms = 1000;
}

abbrev mine : Payload
mine = record { hosts = server (codes "a") ∷ []; known_hosts = codes "a ssh-ed25519 AAAA" ∷ [] }

abbrev theirs : Payload
theirs = record {
  hosts = server (codes "b") ∷ server (codes "a") ∷ [];
  known_hosts = codes "# pins" ∷ codes "a ssh-ed25519 BBBB" ∷ codes "b ssh-ed25519 CCCC" ∷ [];
}

merge-servers_example : MergesServers mine theirs (merge mine theirs)
merge-servers_example = merge-servers mine theirs

merge-pins_example : MergesPins mine (merge mine theirs)
merge-pins_example = merge-pins mine theirs

-- A cipher that appends a tag of sixteen zeros and takes it off again.
abbrev tag : List ℕ
tag = 0 ∷ 0 ∷ 0 ∷ 0 ∷ 0 ∷ 0 ∷ 0 ∷ 0 ∷ 0 ∷ 0 ∷ 0 ∷ 0 ∷ 0 ∷ 0 ∷ 0 ∷ 0 ∷ []

abbrev tagging : Cipher
tagging = record {
  encrypt = λ key nonce message. some (message ++ tag);
  decrypt = λ key nonce sealed. some (take (length sealed - 16) sealed);
}

abbrev session : Session
session = record { key = 7 ∷ []; verification_code = 42913 }

abbrev nonce : List ℕ
nonce = 1 ∷ 2 ∷ 3 ∷ 4 ∷ 5 ∷ 6 ∷ 7 ∷ 8 ∷ 9 ∷ 10 ∷ 11 ∷ 12 ∷ []

abbrev message : List ℕ
message = 104 ∷ 105 ∷ []

accept_transfer-write_payload_example :
    (write_payload tagging session nonce message
      ≡ inr (be_bytes (length (nonce ++ (message ++ tag))) ++ (nonce ++ (message ++ tag))))
    × (accept_transfer tagging session (
          (be_bytes (length (nonce ++ (message ++ tag))) ++ (nonce ++ (message ++ tag)))
          ++ (99 ∷ []))
        ≡ inr message)
accept_transfer-write_payload_example =
    accept_transfer-write_payload tagging session nonce message (message ++ tag) (99 ∷ [])
      (omega arith) refl refl refl refl

-- A key exchange that only looks at lengths, and whose keys are the salt.
abbrev toy : KeyExchange
toy = record {
  public_of = λ secret. 0 ∷ secret;
  diffie_hellman = λ secret theirs. (length secret + length theirs) ∷ [];
  was_contributory = λ shared. true;
  expand = λ salt shared label n. some (take n (salt ++ shared));
}

abbrev ours : List ℕ
ours = 1 ∷ 2 ∷ []

abbrev scanned : List ℕ
scanned = 3 ∷ 4 ∷ 5 ∷ []

complete_agrees_example :
    complete toy
      (offering toy ours nonce (codes "10.0.0.2:7000" ∷ [])).0
      (accepting toy scanned (offering toy ours nonce (codes "10.0.0.2:7000" ∷ [])).1).public_key
      true
    ≡ complete toy
        (accepting toy scanned (offering toy ours nonce (codes "10.0.0.2:7000" ∷ [])).1)
        (offering toy ours nonce (codes "10.0.0.2:7000" ∷ [])).1.public_key
        false
complete_agrees_example = complete_agrees toy ours scanned nonce (codes "10.0.0.2:7000" ∷ []) refl

-- ===== src/Transport/Receive.antt =====
-- crates/sg-transport/src/session.rs: sending a batch and collecting the reply's bytes.
pub mod Tail
pub mod Loop
pub mod Trips
use server_glass.Base.{
  ℕ, ◌+◌, ◌-◌, ◌*◌, ◌%◌, ◌^◌, Bool, true, false, Option, none, some, is_some, Text, codes, List, [],
  ◌∷◌, ◌++◌, ltb, length, drop, find_split, as_bytes, if◌then◌else◌, ◌⊎◌, inl, inr,
}
use server_glass.Model.Request.{Request, Responses}
use server_glass.Transport.Error.{TransportError, output_too_large, closed, timeout}
use server_glass.Transport.Frame.{Framing, encode, decode, terminator}

-- What waiting on the channel yields before the deadline. The list of what comes ends where the
-- deadline passes.
pub data Message : Type 0 where
  data_bytes : List ℕ → Message
  extended_data eof close exit_status other hung_up : Message

-- `find(…).is_some()` for a text that is not empty.
unfoldable pub contains : List ℕ → List ℕ → Bool
unfolding find_split
contains needle haystack = is_some (find_split needle haystack)

abbrev pub max_batch_bytes : ℕ
max_batch_bytes = 16 * 1024 * 1024

-- The part of the buffer that is searched after `count` bytes came in.
unfoldable pub tail_of : List ℕ → List ℕ → ℕ → List ℕ
tail_of needle buf count = drop (length buf - (count + length needle)) buf

-- The loop of `SshSession::batch`, with the buffer so far.
unfoldable pub receive : List ℕ → ℕ → List Message → List ℕ → TransportError ⊎ List ℕ
unfolding contains tail_of
receive needle ms [] buf = inl (timeout (codes "collection batch") ms)
receive needle ms (data_bytes chunk ∷ more) buf =
    let rest = receive needle ms more (buf ++ chunk) in
    if ltb (max_batch_bytes - length buf) (length chunk)
    then inl (output_too_large max_batch_bytes)
    else if contains needle (tail_of needle (buf ++ chunk) (length chunk))
    then inr (buf ++ chunk)
    else rest
receive needle ms (extended_data ∷ more) buf = receive needle ms more buf
receive needle ms (eof ∷ more) buf = inl closed
receive needle ms (close ∷ more) buf = inl closed
receive needle ms (exit_status ∷ more) buf = inl closed
receive needle ms (other ∷ more) buf = receive needle ms more buf
receive needle ms (hung_up ∷ more) buf = inl closed

-- A session as far as a batch uses it. `lossy` is `String::from_utf8_lossy`.
pub record Session : Type 0 where
  pub framing : Framing
  pub batch_timeout_ms : ℕ
  pub round_trips : ℕ
  pub lossy : List ℕ → Text

unfoldable pub decoded : Session → TransportError ⊎ List ℕ → TransportError ⊎ Responses
unfolding decode
decoded s (inl error) = inl error
decoded s (inr buf) = inr (decode s.framing (s.lossy buf))

-- What writing the script gives, and then what the channel yields.
unfoldable pub exchanged :
    Session → Option TransportError → List Message → TransportError ⊎ Responses
unfolding decoded receive terminator
exchanged s (some error) messages = inl error
exchanged s none messages =
    decoded s (receive (as_bytes (terminator s.framing)) s.batch_timeout_ms messages [])

-- `SshSession::batch`
unfoldable pub batch :
    Session
    → List Request
    → Option TransportError
    → List Message
    → Session × (TransportError ⊎ Responses)
unfolding exchanged encode
batch s requests writing messages = elim (encode s.framing requests).1 [
  | [] ↦ (s, inr [])
  | id ∷ ids ↦
      (record s { round_trips = (s.round_trips + 1) % 2 ^ 64 }, exchanged s writing messages)
]

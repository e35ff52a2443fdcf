-- ===== src/Transport/Receive/Loop.antt =====
-- crates/sg-transport/src/session.rs: what the receive loop of a batch yields.
use server_glass.Base.{
  ℕ, ◌-◌, ◌≤◌, ◌≡◌, refl, sym, ◌∙◌, true, false, List, [], ◌∷◌, ◌++◌, arith, ap, ltb, length,
  length-append, append_assoc, Bool-cases, inl, inr, ◌⊎◌, if◌then◌else◌, codes,
}
use server_glass.Transport.Error.{TransportError, output_too_large, closed, timeout}
use server_glass.Transport.Receive.{
  Message, data_bytes, extended_data, eof, close, exit_status, other, hung_up, contains,
  max_batch_bytes, receive,
}
use server_glass.Transport.Receive.Tail.{contains-tail_of}

-- The loop with a search of the whole buffer in each round.
unfoldable pub receive_all : List ℕ → ℕ → List Message → List ℕ → TransportError ⊎ List ℕ
receive_all needle ms [] buf = inl (timeout (codes "collection batch") ms)
receive_all needle ms (data_bytes chunk ∷ more) buf =
    let rest = receive_all needle ms more (buf ++ chunk) in
    if ltb (max_batch_bytes - length buf) (length chunk)
    then inl (output_too_large max_batch_bytes)
    else if contains needle (buf ++ chunk)
    then inr (buf ++ chunk)
    else rest
receive_all needle ms (extended_data ∷ more) buf = receive_all needle ms more buf
receive_all needle ms (eof ∷ more) buf = inl closed
receive_all needle ms (close ∷ more) buf = inl closed
receive_all needle ms (exit_status ∷ more) buf = inl closed
receive_all needle ms (other ∷ more) buf = receive_all needle ms more buf
receive_all needle ms (hung_up ∷ more) buf = inl closed

-- From a buffer that does not hold the terminator, searching only the end of the buffer in each
-- round gives the same result, errors included, as searching all of it.
pub receive-receive_all :
    (needle : List ℕ) (ms : ℕ) (messages : List Message) (buf : List ℕ)
    → contains needle buf ≡ false
    → receive needle ms messages buf ≡ receive_all needle ms messages buf
unfolding receive receive_all
receive-receive_all needle ms [] buf h = refl
receive-receive_all needle ms (data_bytes chunk ∷ more) buf h =
    elim (Bool-cases (contains needle (buf ++ chunk))) [
      | inl y ↦ rw (receive, receive_all, contains-tail_of needle buf chunk h, y) refl
      | inr n ↦
          rw
            (
              receive,
              receive_all,
              contains-tail_of needle buf chunk h,
              n,
              receive-receive_all needle ms more (buf ++ chunk) n,
            )
            refl
    ]
receive-receive_all needle ms (extended_data ∷ more) buf h =
    receive-receive_all needle ms more buf h
receive-receive_all needle ms (eof ∷ more) buf h = refl
receive-receive_all needle ms (close ∷ more) buf h = refl
receive-receive_all needle ms (exit_status ∷ more) buf h = refl
receive-receive_all needle ms (other ∷ more) buf h = receive-receive_all needle ms more buf h
receive-receive_all needle ms (hung_up ∷ more) buf h = refl

-- All bytes of a list of messages.
abbrev pub arrived : List Message → List ℕ
arrived [] = []
arrived (data_bytes chunk ∷ more) = chunk ++ arrived more
arrived (m ∷ more) = arrived more

-- The reply starts what arrives, holds the terminator, and is within the limit.
pub record IsReply (needle stream out : List ℕ) : Type 0 where
  pub unread : List ℕ
  pub front : out ++ unread ≡ stream
  pub ended : contains needle out ≡ true
  pub limited : length out ≤ max_batch_bytes

refused : {error : TransportError} {out : List ℕ} → inl error ≡ inr out → ⊥
refused e = cc

out_of : List ℕ → TransportError ⊎ List ℕ → List ℕ
out_of d (inl error) = d
out_of d (inr out) = out

abbrev reply : List ℕ → TransportError ⊎ List ℕ
reply out = inr out

inr_injective : {a b : List ℕ} → reply a ≡ reply b → a ≡ b
unfolding out_of
inr_injective {a} e = ap (out_of a) e

receive_all-IsReply :
    (needle : List ℕ) (ms : ℕ) (messages : List Message) (buf out : List ℕ)
    → length buf ≤ max_batch_bytes
    → receive_all needle ms messages buf ≡ inr out
    → IsReply needle (buf ++ arrived messages) out
unfolding receive_all
receive_all-IsReply needle ms [] buf out l e = absurd (refused e)
receive_all-IsReply needle ms (data_bytes chunk ∷ more) buf out l e =
    elim (Bool-cases (ltb (max_batch_bytes - length buf) (length chunk))) [
      | inl big ↦ absurd (refused (rw (big, receive_all) at e))
      | inr fits ↦ elim (Bool-cases (contains needle (buf ++ chunk))) [
        | inl y ↦
            let same : buf ++ chunk ≡ out = inr_injective (rw (fits, y, receive_all) at e) in
            rw (← same) (record {
              unread = arrived more;
              front = append_assoc buf chunk (arrived more);
              ended = y;
              limited = ground (arith, l, fits, length-append buf chunk);
            })
        | inr n ↦ rw (← append_assoc buf chunk (arrived more)) (
            receive_all-IsReply needle ms more (buf ++ chunk) out
              (ground (arith, l, fits, length-append buf chunk)) (rw (fits, n, receive_all) at e))
      ]
    ]
receive_all-IsReply needle ms (extended_data ∷ more) buf out l e =
    receive_all-IsReply needle ms more buf out l e
receive_all-IsReply needle ms (eof ∷ more) buf out l e = absurd (refused e)
receive_all-IsReply needle ms (close ∷ more) buf out l e = absurd (refused e)
receive_all-IsReply needle ms (exit_status ∷ more) buf out l e = absurd (refused e)
receive_all-IsReply needle ms (other ∷ more) buf out l e =
    receive_all-IsReply needle ms more buf out l e
receive_all-IsReply needle ms (hung_up ∷ more) buf out l e = absurd (refused e)

-- A reply that the loop accepts is the front of the bytes that arrive, holds the terminator, and is
-- at most 16 MiB long.
pub receive-IsReply :
    (needle : List ℕ) (ms : ℕ) (messages : List Message) (out : List ℕ)
    → contains needle [] ≡ false
    → receive needle ms messages [] ≡ inr out
    → IsReply needle (arrived messages) out
receive-IsReply needle ms messages out h e =
    receive_all-IsReply needle ms messages [] out (omega arith)
      (sym (receive-receive_all needle ms messages [] h) ∙ e)

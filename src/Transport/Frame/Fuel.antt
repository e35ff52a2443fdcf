-- ===== src/Transport/Frame/Fuel.antt =====
-- crates/sg-transport/src/frame.rs: the fuel of the decoder's loop.
use server_glass.Base.{
  ℕ, zero, suc, ◌<◌, ◌≤◌, [], ◌≡◌, refl, Option, none, some, Text, ◌∷◌, arith, length, Option-cases,
  inl, inr, find_split, split_once, ◌==◌, insert,
}
use server_glass.Base.Search.{find_split-length, split_once-length}
use server_glass.Model.Request.{Response, Responses}
use server_glass.Transport.Frame.{
  Framing, Round, done, skip, frame, read_code, read_body, read_id, read_begin, begin_marker,
  end_prefix, decode_round, decode_loop, decode, newline,
}

-- What a round leaves is shorter than the stream.
abbrev pub Consumes : Text → Round → Type 0
Consumes stream done = Unit
Consumes stream (skip rest) = length rest < length stream
Consumes stream (frame id response rest) = length rest < length stream

Shorter : Text → Option (Text × Text) → Type 0
Shorter s none = Unit
Shorter s (some r) = length (r.1) < length s

find_split-Shorter : (c : ℕ) (p s : Text) → Shorter s (find_split (c ∷ p) s)
unfolding Shorter
find_split-Shorter c p s = elim (Option-cases (find_split (c ∷ p) s)) [
  | inl e ↦ rw e tt
  | inr (r, e) ↦ rw e (find_split-length c p s r e)
]

split_once-Shorter : (s : Text) → Shorter s (split_once (λ c. c == newline) s)
unfolding Shorter
split_once-Shorter s = elim (Option-cases (split_once (λ c. c == newline) s)) [
  | inl e ↦ rw e tt
  | inr (r, e) ↦ rw e (split_once-length _ s r e)
]

read_code-Consumes :
    (s t id body : Text) (o : Option (Text × Text))
    → length t < length s
    → Shorter t o
    → Consumes s (read_code id body o)
unfolding Shorter read_code
read_code-Consumes s t id body none h k = tt
read_code-Consumes s t id body (some (code, rest)) h k = omega arith

read_body-Consumes :
    (s t id : Text) (o : Option (Text × Text))
    → length t < length s
    → Shorter t o
    → Consumes s (read_body id t o)
unfolding Shorter read_body
read_body-Consumes s t id none h k = h
read_body-Consumes s t id (some (body, u)) h k =
    read_code-Consumes s u id body _ (omega arith) (split_once-Shorter u)

read_id-Consumes :
    (f : Framing) (s t : Text) (o : Option (Text × Text))
    → length t < length s
    → Shorter t o
    → Consumes s (read_id f o)
unfolding Shorter read_id end_prefix
read_id-Consumes f s t none h k = tt
read_id-Consumes f s t (some (id, u)) h k =
    read_body-Consumes s u id _ (omega arith) (find_split-Shorter newline _ u)

read_begin-Consumes :
    (f : Framing) (s : Text) (o : Option (Text × Text)) → Shorter s o → Consumes s (read_begin f o)
unfolding Shorter read_begin
read_begin-Consumes f s none k = tt
read_begin-Consumes f s (some (junk, t)) k = read_id-Consumes f s t _ k (split_once-Shorter t)

pub decode_round-Consumes : (f : Framing) (s : Text) → Consumes s (decode_round f s)
unfolding decode_round begin_marker
decode_round-Consumes f s = read_begin-Consumes f s _ (find_split-Shorter newline _ s)

-- With more fuel than the stream is long, the result does not depend on the fuel.
decode_loop_fuel :
    (f : Framing) (n m : ℕ) (s : Text) (responses : Responses)
    → length s < n
    → length s < m
    → decode_loop f n s responses ≡ decode_loop f m s responses
unfolding decode_loop
decode_loop_fuel f zero m s responses h k = absurd (omega arith)
decode_loop_fuel f (suc n) zero s responses h k = absurd (omega arith)
decode_loop_fuel f (suc n) (suc m) s responses h k =
    go (decode_round f s) (decode_round-Consumes f s) (decode_loop_fuel f n m)
  where
    go :
        (r : Round)
        → Consumes s r
        → ((t : Text) (rs : Responses)
            → length t < n
            → length t < m
            → decode_loop f n t rs ≡ decode_loop f m t rs)
        → (elim r [
          | done ↦ responses
          | skip rest ↦ decode_loop f n rest responses
          | frame id response rest ↦ decode_loop f n rest (insert id response responses)
        ])
          ≡ (elim r [
            | done ↦ responses
            | skip rest ↦ decode_loop f m rest responses
            | frame id response rest ↦ decode_loop f m rest (insert id response responses)
          ])
    go done c ih = refl
    go (skip rest) c ih = ih rest responses (omega arith) (omega arith)
    go (frame id response rest) c ih =
        ih rest (insert id response responses) (omega arith) (omega arith)

-- The runs of the loop of `decode`, without fuel: `Decodes f k stream responses out` is one of `k`
-- rounds that ends, from the stream and the responses so far, with `out`.
pub data Decodes (f : Framing) : ℕ → Text → Responses → Responses → Type 0 where
  breaks :
      (s : Text) (responses : Responses)
      → decode_round f s ≡ done
      → Decodes f 1 s responses responses
  skips :
      (k : ℕ) (s rest : Text) (responses out : Responses)
      → decode_round f s ≡ skip rest
      → Decodes f k rest responses out
      → Decodes f (suc k) s responses out
  reads :
      (k : ℕ) (s id rest : Text) (response : Response) (responses out : Responses)
      → decode_round f s ≡ frame id response rest
      → Decodes f k rest (insert id response responses) out
      → Decodes f (suc k) s responses out

-- The loop ends on the stream, after one round more than it is long at most, with `out`.
pub record Ends (f : Framing) (s : Text) (responses out : Responses) : Type 0 where
  pub rounds : ℕ
  pub within : rounds ≤ suc (length s)
  pub run : Decodes f rounds s responses out

decode_loop-Ends :
    (f : Framing) (n : ℕ) (s : Text) (responses : Responses)
    → length s < n
    → Ends f s responses (decode_loop f n s responses)
unfolding decode_loop
decode_loop-Ends f zero s responses h = absurd (omega arith)
decode_loop-Ends f (suc n) s responses h =
    go (decode_round f s) refl (decode_round-Consumes f s) (decode_loop-Ends f n)
  where
    go :
        (r : Round)
        → decode_round f s ≡ r
        → Consumes s r
        → ((t : Text) (rs : Responses) → length t < n → Ends f t rs (decode_loop f n t rs))
        → Ends f s responses (elim r [
          | done ↦ responses
          | skip rest ↦ decode_loop f n rest responses
          | frame id response rest ↦ decode_loop f n rest (insert id response responses)
        ])
    go done e c ih = record { rounds = 1; within = omega arith; run = breaks s responses e }
    go (skip rest) e c ih =
        let r = ih rest responses (omega arith) in
        record {
          rounds = suc r.rounds;
          within = omega (arith, r.within);
          run = skips r.rounds s rest responses _ e r.run;
        }
    go (frame id response rest) e c ih =
        let r = ih rest (insert id response responses) (omega arith) in
        record {
          rounds = suc r.rounds;
          within = omega (arith, r.within);
          run = reads r.rounds s id rest response responses _ e r.run;
        }

-- On every stream the decoder's loop, run without fuel, ends by its own `break` after at most one
-- round more than the stream is long, and the decoder's result is that of this run.
pub decode-Ends : (f : Framing) (s : Text) → Ends f s [] (decode f s)
unfolding decode
decode-Ends f s = decode_loop-Ends f (suc (length s)) s [] (omega arith)

-- ===== src/Transport/Receive/Trips.antt =====
-- crates/sg-transport/src/session.rs: the count of round trips.
use server_glass.Base.{
  ◌+◌, ◌%◌, ◌^◌, ◌≡◌, refl, sym, ap, ◌∙◌, Bool, true, false, Option, is_some, Text, List, [], ◌∷◌,
  arith, any, text_eq, text_eq_refl, if◌then◌else◌,
}
use server_glass.Model.Request.{Request, request_id}
use server_glass.Transport.Error.{TransportError}
use server_glass.Transport.Frame.{command_for, encode}
use server_glass.Transport.Frame.Encode.{serves, encode_ids}
use server_glass.Transport.Receive.{Message, Session, batch}

-- The host can serve the request.
abbrev pub servable : Request → Bool
servable r = is_some (command_for r)

serves-servable : (k : Text) (rs : List Request) → any (serves k) rs ≡ true → any servable rs ≡ true
unfolding any
serves-servable k [] h = h
serves-servable k (r ∷ rs) h = ground (arith, h, serves-servable k rs)

none-servable :
    (rs : List Request) → ((k : Text) → any (serves k) rs ≡ false) → any servable rs ≡ false
unfolding any
none-servable [] h = refl
none-servable (r ∷ rs) h = ground (
  arith,
  h (request_id r),
  text_eq_refl (request_id r),
  none-servable rs (λ k. ground (arith, h k)),
)

tripped :
    (s : Session) (rs : List Request) (w : Option TransportError) (messages : List Message)
    (ids : List Text)
    → (encode s.framing rs).1 ≡ ids
    → (batch s rs w messages).0.round_trips
      ≡ (if any servable rs then (s.round_trips + 1) % 2 ^ 64 else s.round_trips)
unfolding batch any
tripped s rs w messages [] e =
    let z = none-servable rs (λ k. sym ((encode_ids s.framing rs).1 k) ∙ ap (any (text_eq k)) e) in
    rw (batch, e, z) refl
tripped s rs w messages (id ∷ ids) e =
    let found : any (text_eq id) (encode s.framing rs).1 ≡ true =
      ap (any (text_eq id)) e ∙ ground (arith, text_eq_refl id) in
    let y = serves-servable id rs (sym ((encode_ids s.framing rs).1 id) ∙ found) in
    rw (batch, e, y) refl

-- A batch in which the host can serve any request costs exactly one round trip, and any other batch
-- none, whatever comes of it.
pub batch-round_trips :
    (s : Session) (rs : List Request) (w : Option TransportError) (messages : List Message)
    → (batch s rs w messages).0.round_trips
      ≡ (if any servable rs then (s.round_trips + 1) % 2 ^ 64 else s.round_trips)
batch-round_trips s rs w messages = tripped s rs w messages (encode s.framing rs).1 refl

-- ===== src/Model/Request.antt =====
-- crates/sg-model/src/request.rs: requests, their ids, and the responses of a batch.
pub mod Id
use server_glass.Base.{
  ℕ, ◌*◌, ◌%◌, ◌^◌, Bool, true, false, Option, none, some, Text, codes, Map, get, insert, List, [],
  ◌∷◌, as_bytes, show_hex, if◌then◌else◌, ◌>>=◌, ◌==◌,
}
use Prim.Native.Nat.{bit_xor}
use server_glass.Base.Int.{ℤ, pos, negsuc}

pub data Request : Type 0 where
  read_file : Text → Request
  read_dir : Text → Request
  exec : List Text → Request
  http : Text → Text → List (Text × Text) → Request

unfoldable pub is_remote : Request → Bool
is_remote (http url method headers) = false
is_remote _ = true

abbrev pub u64_mod : ℕ
u64_mod = 2 ^ 64

-- One round of FNV-1a: `hash ^= b; hash = hash.wrapping_mul(prime)`.
unfoldable pub fnv_step : ℕ → ℕ → ℕ
fnv_step hash b = bit_xor hash b * 0x100000001b3 % u64_mod

-- `feed`
unfoldable pub feed : ℕ → List ℕ → ℕ
unfolding fnv_step
feed hash [] = hash
feed hash (b ∷ bs) = feed (fnv_step hash b) bs

unfoldable pub feed_args : ℕ → List Text → ℕ
unfolding feed
feed_args hash [] = hash
feed_args hash (arg ∷ argv) = feed_args (feed (feed hash (as_bytes arg)) (0 ∷ [])) argv

unfoldable pub feed_headers : ℕ → List (Text × Text) → ℕ
unfolding feed
feed_headers hash [] = hash
feed_headers hash ((k, v) ∷ hs) = feed_headers (feed (feed hash (as_bytes k)) (as_bytes v)) hs

abbrev pub fnv_basis : ℕ
fnv_basis = 0xcbf29ce484222325

unfoldable pub fnv : Request → ℕ
unfolding feed feed_args feed_headers
fnv (read_file path) = feed (feed fnv_basis (b'f' ∷ 0 ∷ [])) (as_bytes path)
fnv (read_dir path) = feed (feed fnv_basis (b'd' ∷ 0 ∷ [])) (as_bytes path)
fnv (exec argv) = feed_args (feed fnv_basis (b'x' ∷ 0 ∷ [])) argv
fnv (http url method headers) =
    feed_headers (feed (feed (feed fnv_basis (b'h' ∷ 0 ∷ [])) (as_bytes method)) (as_bytes url))
      headers

-- `Request::id`
unfoldable pub request_id : Request → Text
unfolding fnv show_hex
request_id r = show_hex 16 (fnv r)

pub record Response : Type 0 where
  pub exit_code : ℤ
  pub body : Text

abbrev pub Responses : Type 0
Responses = Map Response

-- `Request::get`
unfoldable pub get_url : Text → Request
get_url url = http url (codes "GET") []

-- `Response::ok` and `Response::failed`
unfoldable pub ok_response : Text → Response
ok_response body = record { exit_code = pos 0; body = body }

unfoldable pub failed_response : ℤ → Response
failed_response exit_code = record { exit_code = exit_code; body = [] }

abbrev is_zero : ℤ → Bool
is_zero (pos n) = n == 0
is_zero (negsuc n) = false

-- `Response::is_ok`
unfoldable pub is_ok : Response → Bool
is_ok r = is_zero r.exit_code

-- `Responses::insert`
unfoldable pub insert_response : Responses → Text → Response → Responses
insert_response rs id r = insert id r rs

-- `Responses::get`
unfoldable pub get_response : Responses → Request → Option Response
get_response rs r = get (request_id r) rs

-- `Responses::text`: the body of a successful request.
unfoldable pub text_of : Responses → Request → Option Text
text_of rs r = do found ← get_response rs r; if is_ok found then some found.body else none

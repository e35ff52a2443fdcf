-- ===== src/Transport/Frame.antt =====
-- crates/sg-transport/src/frame.rs: compiling a batch into one script and parsing the framed reply.
pub mod Fuel
pub mod RoundTrip
pub mod Encode
use server_glass.Base.{
  ℕ, zero, suc, ◌^◌, ◌-◌, true, false, Option, none, some, Text, codes, List, [], ◌∷◌, ◌++◌, ◌==◌,
  ◌>>=◌, if◌then◌else◌, unwrap_or, length, insert, trim, find_split, split_once, parse_signed,
  text_eq, any,
}
use server_glass.Base.Int.{ℤ, pos, negsuc}
use server_glass.Model.Request.{
  Request, read_file, read_dir, exec, http, Response, Responses, request_id,
}
use server_glass.Transport.Quote.{shell_quote, shell_join}

pub record Framing : Type 0 where
  pub nonce : Text

abbrev pub newline : ℕ
newline = 10

-- `Framing::begin`
unfoldable pub begin : Framing → Text → Text
begin f id = newline ∷ (f.nonce ++ (b'B' ∷ (id ++ newline ∷ [])))

unfoldable pub begin_marker : Framing → Text
begin_marker f = newline ∷ (f.nonce ++ b'B' ∷ [])

unfoldable pub end_prefix : Framing → Text → Text
end_prefix f id = newline ∷ (f.nonce ++ (b'E' ∷ (id ++ b' ' ∷ [])))

unfoldable pub terminator : Framing → Text
terminator f = newline ∷ (f.nonce ++ (b'Z' ∷ newline ∷ []))

-- `Framing::command_for`
unfoldable pub command_for : Request → Option Text
unfolding shell_quote shell_join
command_for (read_file path) = some (codes "cat -- " ++ shell_quote path)
command_for (read_dir path) = some (codes "ls -1 -- " ++ shell_quote path)
command_for (exec []) = none
command_for (exec (a ∷ argv)) = some (shell_join (a ∷ argv))
command_for (http url method headers) = none

-- The lines that `encode` appends for one command.
unfoldable pub frame_script : Framing → Text → Text → Text
unfolding shell_quote begin end_prefix
frame_script f id command =
    codes "printf "
    ++ (shell_quote (begin f id)
        ++ (codes "\n{ "
            ++ (command
                ++ (codes "; } </dev/null 2>/dev/null\n__sg=$?\nprintf "
                    ++ (shell_quote (end_prefix f id ++ codes "%s\n") ++ codes " \"$__sg\"\n")))))

-- The loop of `encode` over the requests, with the script and the ids so far.
unfoldable pub encode_loop : Framing → List Request → Text → List Text → Text × List Text
encode_loop f [] script ids = (script, ids)
encode_loop f (r ∷ rs) script ids =
    let id = request_id r in
    elim (any (text_eq id) ids) [
      | true ↦ encode_loop f rs script ids
      | false ↦ elim (command_for r) [
        | none ↦ encode_loop f rs script ids
        | some command ↦ encode_loop f rs (script ++ frame_script f id command) (ids ++ id ∷ [])
      ]
    ]

unfoldable pub encode : Framing → List Request → Text × List Text
unfolding encode_loop terminator shell_quote
encode f requests =
    let (script, ids) = encode_loop f requests [] [] in
    (script ++ (codes "printf " ++ (shell_quote (terminator f) ++ newline ∷ [])), ids)

-- `trim().parse::<i32>().unwrap_or(-1)`
unfoldable pub parse_exit : Text → ℤ
unfolding trim parse_signed
parse_exit s = unwrap_or (negsuc 0) (parse_signed (2 ^ 31 - 1) (trim s))

-- What one round of the loop of `decode` does with the rest of the stream: `break`, `continue`
-- behind a frame that has no end, or a response and what follows its frame.
pub data Round : Type 0 where
  done : Round
  skip : Text → Round
  frame : Text → Response → Text → Round

unfoldable pub read_code : Text → Text → Option (Text × Text) → Round
read_code id body none = done
read_code id body (some (code, rest)) =
    frame id (record { exit_code = parse_exit code; body = body }) rest

unfoldable pub read_body : Text → Text → Option (Text × Text) → Round
read_body id body_start none = skip body_start
read_body id body_start (some (body, code_start)) =
    read_code id body (split_once (λ c. c == newline) code_start)

unfoldable pub read_id : Framing → Option (Text × Text) → Round
read_id f none = done
read_id f (some (id, body_start)) =
    read_body id body_start (find_split (end_prefix f id) body_start)

unfoldable pub read_begin : Framing → Option (Text × Text) → Round
read_begin f none = done
read_begin f (some (junk, id_start)) = read_id f (split_once (λ c. c == newline) id_start)

unfoldable pub decode_round : Framing → Text → Round
decode_round f stream = read_begin f (find_split (begin_marker f) stream)

-- The loop of `decode`, on fuel; `stream` is what follows the cursor.
unfoldable pub decode_loop : Framing → ℕ → Text → Responses → Responses
decode_loop f zero stream responses = responses
decode_loop f (suc n) stream responses = elim (decode_round f stream) [
  | done ↦ responses
  | skip rest ↦ decode_loop f n rest responses
  | frame id response rest ↦ decode_loop f n rest (insert id response responses)
]

unfoldable pub decode : Framing → Text → Responses
unfolding decode_loop decode_round read_begin read_id read_body read_code parse_exit find_split
    split_once begin_marker end_prefix
decode f stream = decode_loop f (suc (length stream)) stream []

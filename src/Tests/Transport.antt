-- ===== src/Tests/Transport.antt =====
-- Framing, quoting and request ids on a small batch.
use server_glass.Base.{
  ◌+◌, ◌%◌, ◌^◌, if◌then◌else◌, ℕ, false, ◌&&◌, ◌||◌, inr, strip_prefix, ◌≡◌, refl, some, none,
  Text, codes, List, [], ◌∷◌, ◌++◌, arith, find_split, any, text_eq,
}
use server_glass.Base.Distinct.{IsDistinct}
use server_glass.Base.Search.{Lacks}
use server_glass.Model.Request.{Request, read_file, exec, http}
use server_glass.Transport.HostKey.{
  PinStore, opened, key_changed, accept_new, check_server_key, is_accepted,
}
use server_glass.Transport.HostKey.Decision.{
  trusts_any, consults, is_match, pins_new, check_server_key_lem,
}
use server_glass.Transport.Receive.{Message, data_bytes, extended_data, contains, receive}
use server_glass.Transport.Receive.Loop.{
  receive_all, receive-receive_all, arrived, IsReply, receive-IsReply,
}
use server_glass.Transport.Receive.{Session, batch}
use server_glass.Transport.Receive.Trips.{servable, batch-round_trips}
use server_glass.Transport.Quote.{shell_join}
use server_glass.Transport.Quote.Shell.{sh_words}
use server_glass.Transport.Quote.RoundTrip.{sh_words-shell_join}
use server_glass.Transport.Frame.{
  Framing, newline, begin_marker, end_prefix, command_for, encode, decode,
}
use server_glass.Transport.Frame.Fuel.{Ends, decode-Ends}
use server_glass.Transport.Frame.RoundTrip.{
  Reply, IsClean, write_frames, record_replies, decode-write_frames,
}
use server_glass.Transport.Frame.Encode.{meant, serves, sh_words-command_for, encode_ids}

abbrev framing : Framing
framing = record { nonce = codes "__SG_ab" }

abbrev first : Reply
first = record { id = codes "aa"; body = codes "cpu 1 2\ncpu0 1"; code = codes "0" }

abbrev second : Reply
second = record { id = codes "bb"; body = []; code = codes "127" }

abbrev replies : List Reply
replies = first ∷ second ∷ []

abbrev greeting : Text
greeting = codes "Welcome\n"

first-IsClean : IsClean framing first
unfolding find_split end_prefix
first-IsClean = record { id_line = ground arith; code_line = ground arith; unforged = refl }

second-IsClean : IsClean framing second
unfolding find_split end_prefix
second-IsClean = record { id_line = ground arith; code_line = ground arith; unforged = refl }

nonce_clean : Lacks newline framing.nonce
nonce_clean = ground arith

greeting_clean : find_split (begin_marker framing) greeting ≡ none
unfolding find_split begin_marker
greeting_clean = refl

decode-write_frames_example :
    decode framing (greeting ++ write_frames framing replies) ≡ record_replies replies []
decode-write_frames_example =
    decode-write_frames framing nonce_clean replies greeting (first-IsClean, (second-IsClean, tt))
      greeting_clean

sh_words-shell_join_example :
    sh_words (shell_join (codes "echo" ∷ codes "it's; rm -rf $HOME" ∷ []))
    ≡ some (codes "echo" ∷ codes "it's; rm -rf $HOME" ∷ [])
sh_words-shell_join_example = sh_words-shell_join (codes "echo" ∷ codes "it's; rm -rf $HOME" ∷ [])

abbrev odd_path : Request
odd_path = read_file (codes "/tmp/a b'c")

odd_command : command_for odd_path ≡ some (codes "cat -- '/tmp/a b'\\''c'")
unfolding command_for
odd_command = refl

sh_words-command_for_example : sh_words (codes "cat -- '/tmp/a b'\\''c'") ≡ some (meant odd_path)
sh_words-command_for_example =
    sh_words-command_for odd_path (codes "cat -- '/tmp/a b'\\''c'") odd_command

abbrev requested : List Request
requested =
    odd_path
    ∷ http (codes "http://localhost") (codes "GET") []
    ∷ odd_path
    ∷ exec (codes "uptime" ∷ [])
    ∷ []

encode_ids_example :
    IsDistinct (encode framing requested).1
    × ((k : Text) → any (text_eq k) (encode framing requested).1 ≡ any (serves k) requested)
encode_ids_example = encode_ids framing requested

-- A frame that has no end, which the loop skips.
abbrev unterminated : Text
unterminated = begin_marker framing ++ codes "aa\ncpu 1"

decode-Ends_example : Ends framing unterminated [] (decode framing unterminated)
decode-Ends_example = decode-Ends framing unterminated

abbrev pins : PinStore
pins = record {
  path = some (codes "/root/.ssh/known_hosts");
  opening = opened;
  known = key_changed;
  learned = none;
  fingerprint = codes "SHA256:abc";
}

check_server_key_lem_example :
    (is_accepted (check_server_key accept_new pins).0 ≡ (
      trusts_any accept_new
      || ((consults pins && is_match pins.known) || pins_new accept_new pins)))
    × ((check_server_key accept_new pins).1 ≡ pins_new accept_new pins)
check_server_key_lem_example = check_server_key_lem accept_new pins

-- The end marker `90 10` is split over two chunks.
abbrev chunks : List Message
chunks = data_bytes (1 ∷ 2 ∷ 90 ∷ []) ∷ extended_data ∷ data_bytes (10 ∷ []) ∷ []

abbrev marker : List ℕ
marker = 90 ∷ 10 ∷ []

marker-contains : contains marker [] ≡ false
unfolding contains find_split
marker-contains = refl

receive-receive_all_example : receive marker 1000 chunks [] ≡ receive_all marker 1000 chunks []
receive-receive_all_example = receive-receive_all marker 1000 chunks [] marker-contains

chunks_received : receive marker 1000 chunks [] ≡ inr (1 ∷ 2 ∷ 90 ∷ 10 ∷ [])
unfolding receive find_split strip_prefix
chunks_received = refl

receive-IsReply_example : IsReply marker (arrived chunks) (1 ∷ 2 ∷ 90 ∷ 10 ∷ [])
receive-IsReply_example =
    receive-IsReply marker 1000 chunks (1 ∷ 2 ∷ 90 ∷ 10 ∷ []) marker-contains chunks_received

abbrev names : List Text
names = codes "docker" ∷ codes "nvidia-smi" ∷ []

abbrev session : Session
session = record {
  framing = framing;
  batch_timeout_ms = 1000;
  round_trips = 4;
  lossy = λ bytes. bytes;
}

batch-round_trips_example :
    (batch session requested none chunks).0.round_trips
    ≡ (if any servable requested then (4 + 1) % 2 ^ 64 else 4)
batch-round_trips_example = batch-round_trips session requested none chunks

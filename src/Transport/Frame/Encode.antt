-- ===== src/Transport/Frame/Encode.antt =====
-- crates/sg-transport/src/frame.rs: the ids and the commands of a batch's script.
use server_glass.Base.{
  ◌≡◌, refl, inl, inr, Bool, ◌&&◌, ◌||◌, some, is_some, Text, codes, List, [], ◌∷◌, ◌++◌, arith,
  any, any-append, text_eq, text_eq_iff, Bool-cases, Option-cases,
}
use server_glass.Base.Distinct.{IsDistinct, IsDistinct-append}
use server_glass.Model.Request.{Request, read_file, read_dir, exec, http, request_id}
use server_glass.Transport.Quote.{shell_quote}
use server_glass.Transport.Quote.Shell.{lex, sh_words}
use server_glass.Transport.Quote.RoundTrip.{sh_words-shell_join, lex-shell_quote_last}
use server_glass.Transport.Frame.{Framing, command_for, frame_script, encode_loop, encode}

-- The program and the arguments that a request means.
abbrev pub meant : Request → List Text
meant (read_file path) = codes "cat" ∷ codes "--" ∷ path ∷ []
meant (read_dir path) = codes "ls" ∷ codes "-1" ∷ codes "--" ∷ path ∷ []
meant (exec argv) = argv
meant (http url method headers) = []

cat_words :
    (path : Text)
    → sh_words (codes "cat -- " ++ shell_quote path) ≡ some (codes "cat" ∷ codes "--" ∷ path ∷ [])
unfolding sh_words lex
cat_words path = rw lex-shell_quote_last refl

ls_words :
    (path : Text)
    → sh_words (codes "ls -1 -- " ++ shell_quote path)
      ≡ some (codes "ls" ∷ codes "-1" ∷ codes "--" ∷ path ∷ [])
unfolding sh_words lex
ls_words path = rw lex-shell_quote_last refl

-- The command of a request is read by the shell as the words that the request means, whatever the
-- path or the arguments hold.
pub sh_words-command_for :
    (r : Request) (c : Text) → command_for r ≡ some c → sh_words c ≡ some (meant r)
unfolding command_for
sh_words-command_for (read_file path) c h = cc (cat_words path)
sh_words-command_for (read_dir path) c h = cc (ls_words path)
sh_words-command_for (exec []) c h = cc
sh_words-command_for (exec (a ∷ argv)) c h = cc (sh_words-shell_join (a ∷ argv))
sh_words-command_for (http url method headers) c h = cc

-- A request that the host can serve, with the id `k`.
abbrev pub serves : Text → Request → Bool
serves k r = is_some (command_for r) && text_eq k (request_id r)

module _ (f : Framing) where
  encode_loop-IsDistinct :
      (rs : List Request) (script : Text) (ids : List Text)
      → IsDistinct ids
      → IsDistinct (encode_loop f rs script ids).1
  unfolding encode_loop
  encode_loop-IsDistinct [] script ids d = d
  encode_loop-IsDistinct (r ∷ rs) script ids d =
      elim (Bool-cases (any (text_eq (request_id r)) ids)) [
        | inl e ↦ rw (e, encode_loop) (encode_loop-IsDistinct rs script ids d)
        | inr n ↦ elim (Option-cases (command_for r)) [
          | inl e ↦ rw (n, e, encode_loop) (encode_loop-IsDistinct rs script ids d)
          | inr (c, e) ↦
              rw (n, e, encode_loop) (encode_loop-IsDistinct rs _ _ (IsDistinct-append ids _ d n))
        ]
      ]

  encode_loop-any :
      (k : Text) (rs : List Request) (script : Text) (ids : List Text)
      → any (text_eq k) (encode_loop f rs script ids).1 ≡ (any (text_eq k) ids || any (serves k) rs)
  unfolding encode_loop any
  encode_loop-any k [] script ids = ground arith
  encode_loop-any k (r ∷ rs) script ids = elim (Bool-cases (any (text_eq (request_id r)) ids)) [
    | inl e ↦
        rw (e, encode_loop)
          (ground (arith, encode_loop-any k rs script ids, text_eq_iff k (request_id r)))
    | inr n ↦ elim (Option-cases (command_for r)) [
      | inl c ↦ rw (n, c, encode_loop) (ground (arith, encode_loop-any k rs script ids))
      | inr (c, e) ↦
          rw (n, e, encode_loop)
            (ground (
              arith,
              encode_loop-any k rs (script ++ frame_script f (request_id r) c)
                  (ids ++ request_id r ∷ []),
              any-append (text_eq k) ids (request_id r ∷ []),
            ))
    ]
  ]

-- The ids of a batch are distinct, and they are exactly the ids of the requests that the host can
-- serve.
pub encode_ids :
    (f : Framing) (rs : List Request)
    → IsDistinct (encode f rs).1
      × ((k : Text) → any (text_eq k) (encode f rs).1 ≡ any (serves k) rs)
unfolding encode any
encode_ids f rs = (encode_loop-IsDistinct f rs [] [] tt, λ k. encode_loop-any f k rs [] [])

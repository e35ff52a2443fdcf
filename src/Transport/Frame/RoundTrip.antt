-- ===== src/Transport/Frame/RoundTrip.antt =====
-- crates/sg-transport/src/frame.rs: decoding what the remote shell writes for a batch.
use server_glass.Base.{
  ℕ, zero, suc, ◌<◌, ◌≡◌, refl, none, some, Text, List, [], ◌∷◌, ◌++◌, arith, length, insert,
  find_split, All, All-append, append_assoc,
}
use server_glass.Base.Search.{
  Lacks, find_split-append, find_split-none_of_last, find_split-none_cons, find_split-none_append,
  split_once-append, strip_prefix_differ, strip_prefix-nil,
}
use server_glass.Model.Request.{Responses}
use server_glass.Transport.Frame.{
  Framing, done, frame, begin, begin_marker, end_prefix, terminator, parse_exit, decode_round,
  decode_loop, decode, newline, read_code, read_body, read_id, read_begin,
}
use server_glass.Transport.Frame.Fuel.{decode_round-Consumes}

-- One command's frame: its id, what it printed, and its exit status as the shell prints it.
pub record Reply : Type 0 where
  pub id : Text
  pub body : Text
  pub code : Text

-- What the script makes the remote shell write for one command, and for a batch.
unfoldable pub write_frame : Framing → Reply → Text
unfolding begin end_prefix
write_frame f r = begin f r.id ++ (r.body ++ (end_prefix f r.id ++ (r.code ++ newline ∷ [])))

unfoldable pub write_frames : Framing → List Reply → Text
write_frames f [] = terminator f
write_frames f (r ∷ rs) = write_frame f r ++ write_frames f rs

-- The frame can be told from its body: no part of it holds a newline but the body, and the body
-- does not hold this frame's end marker.
pub record IsClean (f : Framing) (r : Reply) : Type 0 where
  pub id_line : Lacks newline r.id
  pub code_line : Lacks newline r.code
  pub unforged : find_split (end_prefix f r.id) r.body ≡ none

abbrev pub record_replies : List Reply → Responses → Responses
record_replies [] responses = responses
record_replies (r ∷ rs) responses =
    record_replies rs
      (insert r.id (record { exit_code = parse_exit r.code; body = r.body }) responses)

module _ (f : Framing) (r : Reply) (rest : Text) where
  -- The parts of a frame and what follows it.
  after_code : Text
  after_code = r.code ++ newline ∷ rest

  after_body : Text
  after_body = r.body ++ (end_prefix f r.id ++ after_code)

  after_id : Text
  after_id = r.id ++ newline ∷ after_body

  write_frame-append : write_frame f r ++ rest ≡ begin_marker f ++ after_id
  unfolding write_frame begin_marker after_id after_body after_code
  write_frame-append = simp append_assoc

marker_line :
    (f : Framing) (s : Text)
    → Lacks newline f.nonce
    → Lacks newline s
    → Lacks newline (f.nonce ++ s)
marker_line f s h k = All-append _ f.nonce s h k

module _ (f : Framing) (nonce_line : Lacks newline f.nonce) where
  begin_found :
      (junk t : Text)
      → find_split (begin_marker f) junk ≡ none
      → find_split (begin_marker f) (junk ++ (begin_marker f ++ t)) ≡ some (junk, t)
  unfolding begin_marker
  begin_found junk t h =
      find_split-append newline _ junk t (marker_line f _ nonce_line (omega arith)) h

  end_found :
      (id body t : Text)
      → Lacks newline id
      → find_split (end_prefix f id) body ≡ none
      → find_split (end_prefix f id) (body ++ (end_prefix f id ++ t)) ≡ some (body, t)
  unfolding end_prefix
  end_found id body t k h =
      find_split-append newline _ body t
        (marker_line f _ nonce_line (omega arith, All-append _ id _ k (omega arith))) h

  -- Behind text with no begin marker, a frame is read whole.
  decode_round-write_frame :
      (r : Reply) (junk rest : Text)
      → IsClean f r
      → find_split (begin_marker f) junk ≡ none
      → decode_round f (junk ++ (write_frame f r ++ rest))
        ≡ frame r.id (record { exit_code = parse_exit r.code; body = r.body }) rest
  unfolding decode_round read_begin read_id read_body read_code after_id after_body after_code
  decode_round-write_frame r junk rest c h =
      rw
        (
          write_frame-append f r rest,
          begin_found junk (after_id f r rest) h,
          split_once-append newline r.id (after_body f r rest) c.id_line,
          end_found r.id r.body (after_code f r rest) c.id_line c.unforged,
          split_once-append newline r.code rest c.code_line,
        )
        refl

  terminator-none : find_split (begin_marker f) (terminator f) ≡ none
  unfolding begin_marker terminator
  terminator-none =
      find_split-none_cons newline _ newline _
        (strip_prefix_differ (newline ∷ f.nonce) [] (newline ∷ []) (omega arith))
        (rw (← append_assoc f.nonce (b'Z' ∷ []) (newline ∷ [])) (
          find_split-none_of_last newline _ (f.nonce ++ b'Z' ∷ []) (strip_prefix-nil f.nonce _ [])
            (marker_line f _ nonce_line (omega arith))))

  -- No frame begins at the terminator or before it.
  decode_round-terminator :
      (junk : Text)
      → find_split (begin_marker f) junk ≡ none
      → decode_round f (junk ++ terminator f) ≡ done
  unfolding decode_round read_begin begin_marker terminator
  decode_round-terminator junk h =
      rw
        (find_split-none_append newline _ junk _ (marker_line f _ nonce_line (omega arith)) h
          terminator-none)
        refl

  decode_loop-write_frames :
      (rs : List Reply) (n : ℕ) (junk : Text) (responses : Responses)
      → All (IsClean f) rs
      → find_split (begin_marker f) junk ≡ none
      → length (junk ++ write_frames f rs) < n
      → decode_loop f n (junk ++ write_frames f rs) responses ≡ record_replies rs responses
  unfolding decode_loop write_frames
  decode_loop-write_frames rs zero junk responses c h k = absurd (omega arith)
  decode_loop-write_frames [] (suc n) junk responses c h k =
      rw (decode_round-terminator junk h, decode_loop) refl
  decode_loop-write_frames (r ∷ rs) (suc n) junk responses (cr, crs) h k =
      let whole = decode_round-write_frame r junk (write_frames f rs) cr h in
      let shorter =
        rw whole at (decode_round-Consumes f (junk ++ (write_frame f r ++ write_frames f rs))) in
      rw (whole, decode_loop)
        (decode_loop-write_frames rs n [] _ crs (unfold find_split in refl) (omega arith))

  -- Decoding what the shell wrote for a batch gives one response for each frame, in order.
  pub decode-write_frames :
      (rs : List Reply) (junk : Text)
      → All (IsClean f) rs
      → find_split (begin_marker f) junk ≡ none
      → decode f (junk ++ write_frames f rs) ≡ record_replies rs []
  unfolding decode
  decode-write_frames rs junk c h =
      decode_loop-write_frames rs (suc (length (junk ++ write_frames f rs))) junk [] c h
        (omega arith)

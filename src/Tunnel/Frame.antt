-- ===== src/Tunnel/Frame.antt =====
-- tunnel/protocol.go, and the reading and writing of frames in tunnel/server.go. A connection is the
-- list of the bytes that come in, after which it ends. The JSON library is the record `Json`.
pub mod RoundTrip
use navmesh_go.Base.{
  ℕ, ◌+◌, ◌*◌, ◌≡◌, Bool, true, false, Option, none, some, List, [], ◌∷◌, ◌++◌, ◌⊎◌, inl, inr, ltb,
  ◌==◌, if◌then◌else◌, length, refl,
}
use navmesh_go.Base.Int.{ℤ}
use navmesh_go.Base.Text.{Text}

-- The texts are bytes.
pub record Frame : Type 0 where
  pub frame_type : Text
  pub role : Text
  pub transport : Text
  pub request_id : Text
  pub token : Text
  pub device_guid : Text
  pub sn_code : Text
  pub host_ip : Text
  pub wan_ip : Text
  pub hostname : Text
  pub client_version : Text
  pub target_host : Text
  pub target_port : ℤ
  pub service_name : Text
  pub tail : ℤ
  pub ok : Bool
  pub message : Text

-- json.Marshal and json.Unmarshal; none is an error.
pub record Json : Type 0 where
  pub marshal : Frame → Option (List ℕ)
  pub unmarshal : List ℕ → Option Frame

abbrev end_line : Option (List ℕ) → Option (List ℕ)
end_line none = none
end_line (some data_bytes) = some (data_bytes ++ (b'\n' ∷ []))

unfoldable pub encode_frame : Json → Frame → Option (List ℕ)
encode_frame json frame = end_line (json.marshal frame)

pub data ReadError : Type 0 where
  end_of_input frame_too_large bad_json : ReadError

abbrev pub frame_limit : ℕ
frame_limit = 64 * 1024

-- The result of a read, with the bytes that are left.
abbrev pub Read : Type 0 → Type 0
Read A = ReadError ⊎ (A × List ℕ)

-- The loop over single bytes, for a reader without a buffer.
unfoldable pub read_bytes : List ℕ → List ℕ → Read (List ℕ)
read_bytes line [] = inl end_of_input
read_bytes line (b ∷ rest) =
    let line' = line ++ (b ∷ []) in
    let more = read_bytes line' rest in
    if b == b'\n'
    then inr (line', rest)
    else if ltb frame_limit (length line')
    then inl frame_too_large
    else more

-- ReadBytes('\n') of a bufio.Reader.
unfoldable pub read_until : List ℕ → List ℕ → Read (List ℕ)
read_until line [] = inl end_of_input
read_until line (b ∷ rest) =
    let line' = line ++ (b ∷ []) in
    let more = read_until line' rest in if b == b'\n' then inr (line', rest) else more

-- What ReadBytes has read when the input ends.
abbrev limited : List ℕ → Read (List ℕ) → Read (List ℕ)
limited input (inl e) = if ltb frame_limit (length input) then inl frame_too_large else inl e
limited input (inr (line, rest)) =
    if ltb frame_limit (length line) then inl frame_too_large else inr (line, rest)

-- readFrameLine, for a buffered reader or another.
unfoldable pub read_frame_line : Bool → List ℕ → Read (List ℕ)
unfolding read_bytes read_until
read_frame_line true input = limited input (read_until [] input)
read_frame_line false input = read_bytes [] input

abbrev parsed : Option Frame → List ℕ → Read Frame
parsed none rest = inl bad_json
parsed (some frame) rest = inr (frame, rest)

abbrev parse_line : Json → Read (List ℕ) → Read Frame
parse_line json (inl e) = inl e
parse_line json (inr (line, rest)) = parsed (json.unmarshal line) rest

unfoldable pub read_frame : Json → Bool → List ℕ → Read Frame
unfolding read_frame_line
read_frame json buffered input = parse_line json (read_frame_line buffered input)

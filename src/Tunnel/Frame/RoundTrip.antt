-- ===== src/Tunnel/Frame/RoundTrip.antt =====
-- A frame that is written is read back, whatever follows it.
use mathlib.Core.List.{append_assoc}
use navmesh_go.Base.{
  ℕ, zero, suc, ◌+◌, ◌≤◌, ◌≡◌, ◌∙◌, refl, ap, Bool, true, false, Option, none, some, List, [], ◌∷◌,
  ◌++◌, inl, inr, arith, ltb, ◌==◌, length, length-append, All,
}
use navmesh_go.Tunnel.Frame.{
  Frame, Json, encode_frame, frame_limit, Read, read_bytes, read_until, read_frame_line, read_frame,
}

abbrev pub NoNewline : List ℕ → Type 0
NoNewline line = All (λ b. (b == b'\n') ≡ false) line

read_bytes-line :
    (line text rest : List ℕ)
    → NoNewline text
    → length line + length text ≤ frame_limit
    → read_bytes line (text ++ (b'\n' ∷ rest)) ≡ inr (line ++ (text ++ (b'\n' ∷ [])), rest)
unfolding read_bytes
read_bytes-line line [] rest h le = refl
read_bytes-line line (b ∷ text) rest (hb, hs) le =
    let room : ltb frame_limit (length (line ++ (b ∷ []))) ≡ false =
      ground (arith, length-append line (b ∷ [])) in
    rw (hb, room)
      (read_bytes-line (line ++ (b ∷ [])) text rest hs (omega (arith, length-append line (b ∷ [])))
        ∙ ap (λ l. inr (l, rest)) (append_assoc line (b ∷ []) (text ++ (b'\n' ∷ []))))

read_until-line :
    (line text rest : List ℕ)
    → NoNewline text
    → read_until line (text ++ (b'\n' ∷ rest)) ≡ inr (line ++ (text ++ (b'\n' ∷ [])), rest)
unfolding read_until
read_until-line line [] rest h = refl
read_until-line line (b ∷ text) rest (hb, hs) = rw hb (
    read_until-line (line ++ (b ∷ [])) text rest hs
    ∙ ap (λ l. inr (l, rest)) (append_assoc line (b ∷ []) (text ++ (b'\n' ∷ []))))

-- A line of at most 64 KiB with its newline is read by both kinds of readers.
read_frame_line-line :
    (buffered : Bool) (text rest : List ℕ)
    → NoNewline text
    → suc (length text) ≤ frame_limit
    → read_frame_line buffered (text ++ (b'\n' ∷ rest)) ≡ inr (text ++ (b'\n' ∷ []), rest)
unfolding read_frame_line
read_frame_line-line true text rest h le =
    let room : ltb frame_limit (length (text ++ (b'\n' ∷ []))) ≡ false =
      ground (arith, length-append text (b'\n' ∷ [])) in
    rw (read_until-line [] text rest h, room) refl
read_frame_line-line false text rest h le = read_bytes-line [] text rest h (omega arith)

-- What the library does for a frame: it writes it in one line that fits, and reads that line back.
pub record Carries (json : Json) (frame : Frame) : Type 0 where
  pub text : List ℕ
  pub written : json.marshal frame ≡ some text
  pub one_line : NoNewline text
  pub fits : suc (length text) ≤ frame_limit
  pub read : json.unmarshal (text ++ (b'\n' ∷ [])) ≡ some frame

-- A frame that is written is read by either reader, and what follows is left.
pub read_frame-encode_frame :
    (json : Json) (buffered : Bool) (frame : Frame) (rest : List ℕ) (c : Carries json frame)
    → (encode_frame json frame ≡ some (c.text ++ (b'\n' ∷ [])))
      × (read_frame json buffered ((c.text ++ (b'\n' ∷ [])) ++ rest) ≡ inr (frame, rest))
unfolding encode_frame read_frame
read_frame-encode_frame json buffered frame rest c = (
  rw c.written refl,
  rw
      (
        append_assoc c.text (b'\n' ∷ []) rest,
        read_frame_line-line buffered c.text rest c.one_line c.fits,
        c.read,
      )
      refl,
)

abbrev append_to : Option (List ℕ) → Option (List ℕ) → Option (List ℕ)
append_to none other = none
append_to (some line) none = none
append_to (some line) (some rest) = some (line ++ rest)

-- The bytes of some frames, one after the other, and of what follows.
abbrev pub encode_all : Json → List Frame → List ℕ → Option (List ℕ)
encode_all json [] rest = some rest
encode_all json (f ∷ fs) rest = append_to (encode_frame json f) (encode_all json fs rest)

abbrev go_on : List ℕ → (List ℕ → List Frame × List ℕ) → Read Frame → List Frame × List ℕ
go_on input more (inl e) = ([], input)
go_on input more (inr (frame, rest)) = (frame ∷ (more rest).0, (more rest).1)

-- The frames of as many reads, until one fails, and what is left.
abbrev pub read_all : Json → Bool → ℕ → List ℕ → List Frame × List ℕ
read_all json buffered zero input = ([], input)
read_all json buffered (suc n) input =
    go_on input (λ rest. read_all json buffered n rest) (read_frame json buffered input)

-- Frames that the library carries, in lines of at most 64 KiB, are all encoded; and what is encoded,
-- one after the other, is read back by as many calls of readFrame, with a buffer or without, which
-- leave what follows.
pub read_all-encode_all :
    (json : Json) (buffered : Bool) (fs : List Frame) (rest : List ℕ)
    → All (Carries json) fs
    → (input : List ℕ) × (encode_all json fs rest ≡ some input)
      × (read_all json buffered (length fs) input ≡ (fs, rest))
read_all-encode_all json buffered [] rest h = (rest, refl, refl)
read_all-encode_all json buffered (f ∷ fs) rest (c, cs) =
    let (input, written, read) = read_all-encode_all json buffered fs rest cs in
    let (one, back) = read_frame-encode_frame json buffered f input c in
    ((c.text ++ (b'\n' ∷ [])) ++ input, rw (one, written) refl, rw (back, read) refl)

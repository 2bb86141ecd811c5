-- ===== src/Relay/Protocol.antt =====
-- The wire format of image_relay/protocol.py. A byte string is a list of numbers; a frame is a
-- header of 22 bytes, big-endian, and the payload.
pub mod Stream
pub mod RoundTrip
pub mod Total
use network_backend_article.Base.{
  ℕ, zero, suc, ◌+◌, ◌-◌, ◌*◌, ◌/◌, ◌%◌, ◌^◌, Bool, true, false, not, ◌&&◌, ◌||◌, Option, none,
  some, List, [], ◌∷◌, ◌++◌, ltb, leb, ◌==◌, if◌then◌else◌, length,
}
use network_backend_article.Base.Result.{Result, ok, err, protocol_error, struct_error}

abbrev pub magic : ℕ
magic = 0x52464A46

abbrev pub version : ℕ
version = 1

abbrev pub header_size : ℕ
header_size = 22

abbrev pub max_frame_bytes : ℕ
max_frame_bytes = 8 * 1024 * 1024

abbrev pub is_empty : List ℕ → Bool
is_empty [] = true
is_empty (b ∷ bytes) = false

pub record Frame : Type 0 where
  pub seq : ℕ
  pub ts_ms : ℕ
  pub payload : List ℕ
  pub flags : ℕ

-- `width` bytes of a number, the highest first, in front of more bytes.
unfoldable pub put_bytes : ℕ → ℕ → List ℕ → List ℕ
put_bytes zero n bytes = bytes
put_bytes (suc width) n bytes = put_bytes width (n / 256) (n % 256 ∷ bytes)

-- The number of the next `width` bytes, behind those that were read.
unfoldable pub get_bytes : ℕ → ℕ → List ℕ → ℕ × List ℕ
get_bytes zero n bytes = (n, bytes)
get_bytes (suc width) n [] = (n, [])
get_bytes (suc width) n (b ∷ bytes) = get_bytes width (n * 256 + b) bytes

-- `_HEADER.pack`; a field that does not fit its width raises `struct.error`.
abbrev pub header : Frame → List ℕ
header f = put_bytes 4 magic (
    put_bytes 1 version (
      put_bytes 1 f.flags
        (put_bytes 4 f.seq (put_bytes 8 f.ts_ms (put_bytes 4 (length f.payload) [])))))

abbrev pub fits : Frame → Bool
fits f =
    ltb f.flags (2 ^ 8)
    && ltb f.seq (2 ^ 32)
    && ltb f.ts_ms (2 ^ 64)
    && ltb (length f.payload) (2 ^ 32)

-- `Frame.raw`
unfoldable pub raw : Frame → Result (List ℕ)
raw f = if fits f then ok (header f ++ f.payload) else err struct_error

abbrev pub time_or_now : Option ℕ → ℕ → ℕ
time_or_now none now = now
time_or_now (some t) now = t

unfoldable pub encode_frame : List ℕ → ℕ → Option ℕ → ℕ → ℕ → Result (List ℕ)
encode_frame payload seq ts_ms flags now =
    if ltb max_frame_bytes (length payload)
    then err protocol_error
    else raw (record { seq = seq; ts_ms = time_or_now ts_ms now; payload = payload; flags = flags })

-- `_HEADER.unpack`
pub record Header : Type 0 where
  pub magic : ℕ
  pub version : ℕ
  pub flags : ℕ
  pub seq : ℕ
  pub ts_ms : ℕ
  pub length : ℕ

unfoldable pub unpack : List ℕ → Header
unpack bytes =
    let m = get_bytes 4 0 bytes in
    let v = get_bytes 1 0 m.1 in
    let flags = get_bytes 1 0 v.1 in
    let seq = get_bytes 4 0 flags.1 in
    let ts_ms = get_bytes 8 0 seq.1 in
    let size = get_bytes 4 0 ts_ms.1 in
    record {
      magic = m.0;
      version = v.0;
      flags = flags.0;
      seq = seq.0;
      ts_ms = ts_ms.0;
      length = size.0;
    }

-- The guards of `read_frame` on a header.
unfoldable pub check_header : Header → Result Header
check_header h =
    if not (h.magic == magic)
    then err protocol_error
    else if not (h.version == version)
    then err protocol_error
    else if ltb max_frame_bytes h.length
    then err protocol_error
    else ok h

abbrev pub frame_of : Header → List ℕ → Frame
frame_of h payload = record { seq = h.seq; ts_ms = h.ts_ms; payload = payload; flags = h.flags }

-- A socket's `recv`, as far as the source relies on it: it returns at most as many bytes as it is
-- asked for, the next ones of those still to come, and none only at the end of the stream.
pub record Socket : Type 1 where
  pub State : Type 0
  pub to_come : State → List ℕ
  pub recv : ℕ → State → List ℕ × State

module _ (socket : Socket) where
  open socket use {State, recv}

  -- The loop of `read_exactly`; without fuel it stops with none.
  unfoldable pub fill : ℕ → ℕ → List ℕ → State → Option (List ℕ) × State
  fill zero n chunks s = (none, s)
  fill (suc fuel) n chunks s =
      let (chunk, s') = recv (n - length chunks) s in
      let more = fill fuel n (chunks ++ chunk) s' in
      if ltb (length chunks) n
      then if is_empty chunk then (some [], s') else more
      else (some chunks, s)

  unfoldable pub read_exactly : ℕ → State → Option (List ℕ) × State
  unfolding fill
  read_exactly n s = fill (n + 1) n [] s

  -- The end of `read_frame`, from the payload's bytes.
  abbrev pub finish : Header → Option (List ℕ) × State → Option (Result (Option Frame)) × State
  finish h (none, s) = (none, s)
  finish h (some payload, s) =
      if not (h.length == 0) && is_empty payload
      then (some (ok none), s)
      else (some (ok (some (frame_of h payload))), s)

  abbrev pub read_payload : Result Header → State → Option (Result (Option Frame)) × State
  read_payload (err e) s = (some (err e), s)
  read_payload (ok h) s = elim (h.length == 0) [
    | true ↦ finish h (some [], s)
    | false ↦ finish h (read_exactly h.length s)
  ]

  abbrev pub from_header : Option (List ℕ) × State → Option (Result (Option Frame)) × State
  from_header (none, s) = (none, s)
  from_header (some bytes, s) =
      if is_empty bytes then (some (ok none), s) else read_payload (check_header (unpack bytes)) s

  -- One frame, none at the end of the stream, or the exception; the outer none is missing fuel.
  unfoldable pub read_frame : State → Option (Result (Option Frame)) × State
  read_frame s = from_header (read_exactly header_size s)

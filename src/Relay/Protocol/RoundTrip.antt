-- ===== src/Relay/Protocol/RoundTrip.antt =====
-- `encode_frame` and `read_frame` of image_relay/protocol.py together.
use network_backend_article.Base.{
  ℕ, zero, suc, ◌+◌, ◌*◌, ◌/◌, ◌%◌, ◌^◌, ◌≤◌, ◌<◌, Bool, true, false, Option, none, some, List, [],
  ◌∷◌, ◌++◌, length, ltb, ◌==◌, if◌then◌else◌, arith, ◌≡◌, refl, sym, ◌∙◌, ap, subst,
}
use network_backend_article.Base.Result.{Result, ok, err, protocol_error, struct_error}
use network_backend_article.Relay.Protocol.{
  Socket, Frame, Header, put_bytes, get_bytes, header, fits, raw, time_or_now, unpack, check_header,
  encode_frame, read_exactly, read_frame, read_payload, from_header, finish, is_empty,
  max_frame_bytes, header_size, magic, version,
}
use network_backend_article.Relay.Protocol.Stream.{IsSocket, Reads, assoc, read_exactly-next}

put_bytes-append : (w n : ℕ) (xs ys : List ℕ) → put_bytes w n (xs ++ ys) ≡ put_bytes w n xs ++ ys
unfolding put_bytes
put_bytes-append zero n xs ys = refl
put_bytes-append (suc w) n xs ys = put_bytes-append w (n / 256) (n % 256 ∷ xs) ys

length-put_bytes : (w n : ℕ) (xs : List ℕ) → length (put_bytes w n xs) ≡ w + length xs
unfolding put_bytes
length-put_bytes zero n xs = omega arith
length-put_bytes (suc w) n xs = let h = length-put_bytes w (n / 256) (n % 256 ∷ xs) in omega arith

-- The number of bytes `w + k` to read is free, for the induction.
get-put_from :
    (w k m n : ℕ) (xs : List ℕ)
    → m ≡ w + k
    → n < 256 ^ w
    → get_bytes m 0 (put_bytes w n xs) ≡ get_bytes k n xs
unfolding put_bytes get_bytes
get-put_from zero k m n xs e small =
    let same : m ≡ k = omega arith in
    let none_left : 0 ≡ n = omega arith in
    ap (λ i. get_bytes i 0 xs) same ∙ ap (λ i. get_bytes k i xs) none_left
get-put_from (suc w) k m n xs e small =
    let h = get-put_from w (suc k) m (n / 256) (n % 256 ∷ xs) (omega arith) (omega arith) in
    let whole : n / 256 * 256 + n % 256 ≡ n = omega arith in h ∙ ap (λ i. get_bytes k i xs) whole

get-put_bytes : (w n : ℕ) (xs : List ℕ) → n < 256 ^ w → get_bytes w 0 (put_bytes w n xs) ≡ (n, xs)
unfolding get_bytes
get-put_bytes w n xs small = get-put_from w 0 w n xs (omega arith) small

length-header : (f : Frame) → length (header f) ≡ header_size
unfolding put_bytes
length-header f = refl

unpacked : Frame → Header
unpacked f = record {
  magic = magic;
  version = version;
  flags = f.flags;
  seq = f.seq;
  ts_ms = f.ts_ms;
  length = length f.payload;
}

bounds :
    (f : Frame)
    → fits f ≡ true
    → (f.flags < 256 ^ 1) × (f.seq < 256 ^ 4) × (f.ts_ms < 256 ^ 8) × (length f.payload < 256 ^ 4)
bounds f small = ground arith

unpack-header : (f : Frame) → fits f ≡ true → unpack (header f) ≡ unpacked f
unfolding unpack unpacked
unpack-header f small =
    let (flags, seq, ts_ms, size) = bounds f small in
    rw (get-put_bytes 4 magic _ (omega arith)) (
      rw (get-put_bytes 1 version _ (omega arith)) (
        rw (get-put_bytes 1 f.flags _ flags) (
          rw (get-put_bytes 4 f.seq _ seq) (
            rw (get-put_bytes 8 f.ts_ms _ ts_ms)
              (rw (get-put_bytes 4 (length f.payload) [] size) refl)))))

check-unpacked :
    (f : Frame) → length f.payload ≤ max_frame_bytes → check_header (unpacked f) ≡ ok (unpacked f)
unfolding check_header unpacked
check-unpacked f small = ground arith

header_filled : (f : Frame) → is_empty (header f) ≡ false
unfolding put_bytes
header_filled f = refl

no_bytes : (xs : List ℕ) → (length xs == 0) ≡ true → xs ≡ []
no_bytes [] e = refl
no_bytes (x ∷ xs) e = ground arith

guards :
    (long small : Bool) (xs bytes : List ℕ)
    → (if long then err protocol_error else if small then ok xs else err struct_error) ≡ ok bytes
    → (long ≡ false) × (small ≡ true) × (bytes ≡ xs)
guards long small xs bytes e = ground arith

encoded :
    (f : Frame) (bytes : List ℕ)
    → (if ltb max_frame_bytes (length f.payload) then err protocol_error else raw f) ≡ ok bytes
    → (fits f ≡ true) × (length f.payload ≤ max_frame_bytes) × (bytes ≡ header f ++ f.payload)
unfolding raw
encoded f bytes e =
    let (short, small, whole) =
      guards (ltb max_frame_bytes (length f.payload)) (fits f) (header f ++ f.payload) bytes e in
    (small, ground arith, whole)

module _ (socket : Socket) (laws : IsSocket socket) where
  open socket use {State, to_come}

  abbrev Gives : Option (Result (Option Frame)) × State → Frame → List ℕ → Type 0
  Gives r f rest = (r.0 ≡ some (ok (some f))) × (to_come r.1 ≡ rest)

  finish-Gives :
      (f : Frame) (rest : List ℕ) (r : Option (List ℕ) × State)
      → Reads socket laws r f.payload rest
      → Gives (finish socket (unpacked f) r) f rest
  unfolding unpacked
  finish-Gives f rest (some (b ∷ bytes), s) (e, left) = ground arith
  finish-Gives f rest (some [], s) (e, left) = ground arith
  finish-Gives f rest (none, s) (e, left) = ground arith

  choose :
      (f : Frame) (rest : List ℕ) (s : State) (empty : Bool)
      → (empty ≡ true → f.payload ≡ [])
      → to_come s ≡ f.payload ++ rest
      → Gives
          (elim empty as (λ _. Option (Result (Option Frame)) × State) [
            | true ↦ finish socket (unpacked f) (some [], s)
            | false ↦ finish socket (unpacked f) (read_exactly socket (length f.payload) s)
          ])
          f
          rest
  choose f rest s true nothing e =
      let h = nothing refl in finish-Gives f rest (some [], s) (ground arith, ground arith)
  choose f rest s false nothing e =
      finish-Gives f rest (read_exactly socket (length f.payload) s)
        (read_exactly-next socket laws (length f.payload) f.payload rest s refl e)

  payload-Gives :
      (f : Frame) (rest : List ℕ) (s : State)
      → to_come s ≡ f.payload ++ rest
      → Gives (read_payload socket (ok (unpacked f)) s) f rest
  unfolding unpacked
  payload-Gives f rest s e = choose f rest s (length f.payload == 0) (no_bytes f.payload) e

  read_header :
      (f : Frame) (rest : List ℕ) (s : State)
      → fits f ≡ true
      → length f.payload ≤ max_frame_bytes
      → to_come s ≡ f.payload ++ rest
      → Gives (from_header socket (some (header f), s)) f rest
  read_header f rest s small short e =
      rw (header_filled f)
        (rw (unpack-header f small) (rw (check-unpacked f short) (payload-Gives f rest s e)))

  header-Gives :
      (f : Frame) (rest : List ℕ) (r : Option (List ℕ) × State)
      → fits f ≡ true
      → length f.payload ≤ max_frame_bytes
      → Reads socket laws r (header f) (f.payload ++ rest)
      → Gives (from_header socket r) f rest
  header-Gives f rest (some bytes, s) small short (e, left) =
      let same : bytes ≡ header f = ground arith in
      subst (λ l. Gives (from_header socket (some l, s)) f rest) (sym same)
        (read_header f rest s small short left)
  header-Gives f rest (none, s) small short (e, left) = ground arith

  -- What `encode_frame` makes, `read_frame` reads back: the frame with its number, time and flags,
  -- in whatever pieces the bytes arrive, and what follows the frame stays in the stream.
  pub read_frame-encode_frame :
      (payload : List ℕ) (seq : ℕ) (ts_ms : Option ℕ) (flags now : ℕ) (bytes rest : List ℕ)
      (s : State)
      → encode_frame payload seq ts_ms flags now ≡ ok bytes
      → to_come s ≡ bytes ++ rest
      → ((read_frame socket s).0
          ≡ some (
              ok (
                some (record {
                  seq = seq;
                  ts_ms = time_or_now ts_ms now;
                  payload = payload;
                  flags = flags;
                }))))
        × (to_come (read_frame socket s).1 ≡ rest)
  unfolding read_frame encode_frame
  read_frame-encode_frame payload seq ts_ms flags now bytes rest s e stream =
      let f : Frame = record {
        seq = seq;
        ts_ms = time_or_now ts_ms now;
        payload = payload;
        flags = flags;
      } in
      let (small, short, whole) = encoded f bytes e in
      header-Gives f rest (read_exactly socket header_size s) small short (
        read_exactly-next socket laws header_size (header f) (payload ++ rest) s (length-header f)
          (stream ∙ (ap (λ l. l ++ rest) whole ∙ assoc (header f) payload rest)))

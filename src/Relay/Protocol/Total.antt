-- ===== src/Relay/Protocol/Total.antt =====
-- The reads of image_relay/protocol.py return from every stream, whatever is on it.
use network_backend_article.Base.{
  ℕ, zero, suc, ◌+◌, ◌-◌, ◌≤◌, ◌<◌, ◌≡◌, refl, Bool, true, false, not, ◌&&◌, ◌||◌, Option, none,
  some, List, [], ◌∷◌, ◌++◌, length, length-append, ltb, leb, ◌==◌, arith, inl, inr, Bool-cases,
}
use network_backend_article.Base.Result.{Result, ok, err}
use network_backend_article.Relay.Protocol.{
  Frame, Header, Socket, fill, read_exactly, read_frame, is_empty, check_header, unpack, finish,
  frame_of, read_payload, from_header, header_size, max_frame_bytes,
}
use network_backend_article.Relay.Protocol.Stream.{IsSocket}

-- As many bytes as were asked for, or none.
abbrev pub is_whole : ℕ → List ℕ → Bool
is_whole n bytes = is_empty bytes || length bytes == n

-- A frame that is read is no larger than the limit.
abbrev pub is_limited : Result (Option Frame) → Bool
is_limited (err e) = true
is_limited (ok none) = true
is_limited (ok (some f)) = leb (length f.payload) max_frame_bytes

nonempty : (c : List ℕ) → is_empty c ≡ false → 0 < length c
nonempty [] h = ground arith
nonempty (b ∷ c) h = omega arith

check_header-le : (h h' : Header) → check_header h ≡ ok h' → h'.length ≤ max_frame_bytes
unfolding check_header
check_header-le h h' e = ground arith

module _ {S : Type 0} where
  abbrev pub Read : ℕ → Option (List ℕ) × S → Type 0
  Read n r = (bytes : List ℕ) × (r.0 ≡ some bytes) × (is_whole n bytes ≡ true)

  abbrev pub Returned : Option (Result (Option Frame)) × S → Type 0
  Returned r = (result : Result (Option Frame)) × (r.0 ≡ some result) × (is_limited result ≡ true)

module _ (socket : Socket) (laws : IsSocket socket) where
  open socket use {State, recv}

  fill-Read :
      (fuel n : ℕ) (chunks : List ℕ) (s : State)
      → length chunks ≤ n
      → n < fuel + length chunks
      → Read n (fill socket fuel n chunks s)
  unfolding fill
  fill-Read zero n chunks s le enough = ground arith
  fill-Read (suc fuel) n chunks s le enough =
      let chunk = (recv (n - length chunks) s).0 in
      let s' = (recv (n - length chunks) s).1 in
      let bound = laws.bounded (n - length chunks) s in
      let size = length-append chunks chunk in
      elim (Bool-cases (ltb (length chunks) n)) [
        | inr e ↦ rw (e, fill) (chunks, refl, ground arith)
        | inl e ↦ elim (Bool-cases (is_empty chunk)) [
          | inl e' ↦ rw (e, e', fill) ([], refl, refl)
          | inr e' ↦
              let some_more = nonempty chunk e' in
              rw (e, e', fill) (fill-Read fuel n (chunks ++ chunk) s' (ground arith) (omega arith))
        ]
      ]

  -- `read_exactly` returns n bytes, or none where the stream ends before.
  pub read_exactly-Read : (n : ℕ) (s : State) → Read n (read_exactly socket n s)
  unfolding read_exactly
  read_exactly-Read n s = fill-Read (n + 1) n [] s (omega arith) (omega arith)

  payload_le :
      (n m : ℕ) (bytes : List ℕ) → n ≤ m → is_whole n bytes ≡ true → leb (length bytes) m ≡ true
  payload_le n m [] le h = ground arith
  payload_le n m (b ∷ bytes) le h = ground arith

  finish-some :
      (h : Header) (bytes : List ℕ) (s : State)
      → h.length ≤ max_frame_bytes
      → is_whole h.length bytes ≡ true
      → Returned (finish socket h (some bytes, s))
  finish-some h bytes s le whole = elim (Bool-cases (not (h.length == 0) && is_empty bytes)) [
    | inl e ↦ rw e (ok none, refl, refl)
    | inr e ↦
        rw e
          (ok (some (frame_of h bytes)), refl, payload_le h.length max_frame_bytes bytes le whole)
  ]

  finish-Returned :
      (h : Header) (r : Option (List ℕ) × State)
      → h.length ≤ max_frame_bytes
      → Read h.length r
      → Returned (finish socket h r)
  finish-Returned h (none, s) le (bytes, e, whole) = ground arith
  finish-Returned h (some c, s) le (bytes, e, whole) = finish-some h c s le (ground arith)

  read_payload-Returned :
      (h : Header) (r : Result Header) (s : State)
      → check_header h ≡ r
      → Returned (read_payload socket r s)
  read_payload-Returned h (err e) s c = (err e, refl, refl)
  read_payload-Returned h (ok h') s c =
      let le = check_header-le h h' c in
      elim (Bool-cases (h'.length == 0)) [
        | inl e ↦ rw (e, read_payload) (finish-some h' [] s le refl)
        | inr e ↦
            rw (e, read_payload)
              (finish-Returned h' (read_exactly socket h'.length s) le
                (read_exactly-Read h'.length s))
      ]

  from_header-Returned :
      (r : Option (List ℕ) × State) → Read header_size r → Returned (from_header socket r)
  from_header-Returned (none, s) (bytes, e, whole) = ground arith
  from_header-Returned (some c, s) read = elim (Bool-cases (is_empty c)) [
    | inl e ↦ rw e (ok none, refl, refl)
    | inr e ↦ rw e (read_payload-Returned (unpack c) (check_header (unpack c)) s refl)
  ]

  -- On every stream `read_frame` returns: a frame whose payload is no longer than the limit, the
  -- end of the stream, or an exception. The loop never runs out of fuel.
  pub read_frame-Returned : (s : State) → Returned (read_frame socket s)
  unfolding read_frame
  read_frame-Returned s =
      from_header-Returned (read_exactly socket header_size s) (read_exactly-Read header_size s)

-- ===== src/Relay/Protocol/Stream.antt =====
-- `read_exactly` of image_relay/protocol.py over a stream that arrives in pieces.
use network_backend_article.Base.{
  ℕ, zero, suc, ◌+◌, ◌-◌, ◌≤◌, ◌<◌, Bool, true, false, Option, some, List, [], ◌∷◌, ◌++◌, length,
  length-append, if◌then◌else◌, ltb, arith, ◌≡◌, refl, sym, ◌∙◌, ap,
}
use network_backend_article.Relay.Protocol.{Socket, fill, read_exactly, is_empty}

-- What the documentation of `recv` says: the bytes come in order, at most as many as were asked
-- for, and no bytes are the end of the stream.
pub record IsSocket (socket : Socket) : Type 0 where
  pub in_order :
      (n : ℕ) (s : socket.State)
      → socket.to_come s ≡ (socket.recv n s).0 ++ socket.to_come (socket.recv n s).1
  pub bounded : (n : ℕ) (s : socket.State) → length (socket.recv n s).0 ≤ n
  pub at_end :
      (n : ℕ) (s : socket.State)
      → 0 < n
      → is_empty (socket.recv n s).0 ≡ true
      → socket.to_come s ≡ []

-- Two ways to cut one list: the shorter front is a part of the longer.
cut :
    (c t xs rest : List ℕ)
    → c ++ t ≡ xs ++ rest
    → length c ≤ length xs
    → (ys : List ℕ) × (xs ≡ c ++ ys) × (t ≡ ys ++ rest)
cut [] t xs rest e le = (xs, refl, e)
cut (b ∷ c) t [] rest e le = ground arith
cut (b ∷ c) t (x ∷ xs) rest e le =
    let (ys, left, right) = cut c t xs rest (ground arith) (omega arith) in
    (ys, ground arith, right)

pub assoc : (xs ys zs : List ℕ) → (xs ++ ys) ++ zs ≡ xs ++ (ys ++ zs)
assoc [] ys zs = refl
assoc (x ∷ xs) ys zs = ap (λ l. x ∷ l) (assoc xs ys zs)

right_nil : (xs : List ℕ) → xs ++ [] ≡ xs
right_nil [] = refl
right_nil (x ∷ xs) = ap (λ l. x ∷ l) (right_nil xs)

some_bytes :
    (c stream : List ℕ) (x : ℕ) (xs : List ℕ)
    → stream ≡ x ∷ xs
    → (is_empty c ≡ true → stream ≡ [])
    → (is_empty c ≡ false) × (0 < length c)
some_bytes [] stream x xs e stop = let h = stop refl in ground arith
some_bytes (b ∷ c) stream x xs e stop = (refl, omega arith)

module _ (socket : Socket) (laws : IsSocket socket) where
  open socket use {State, to_come, recv}

  abbrev pub Reads : Option (List ℕ) × State → List ℕ → List ℕ → Type 0
  Reads r bytes rest = (r.0 ≡ some bytes) × (to_come r.1 ≡ rest)

  advance :
      (r r' r'' : Option (List ℕ) × State) (bytes bytes' rest : List ℕ) (more stop : Bool)
      → more ≡ true
      → stop ≡ false
      → Reads r bytes rest
      → bytes ≡ bytes'
      → Reads (if more then if stop then r' else r else r'') bytes' rest
  advance r r' r'' bytes bytes' rest more stop e e' h same = ground arith

  fill_lem :
      (fuel n : ℕ) (chunks xs rest : List ℕ) (s : State)
      → to_come s ≡ xs ++ rest
      → length chunks + length xs ≡ n
      → length xs < fuel
      → Reads (fill socket fuel n chunks s) (chunks ++ xs) rest
  unfolding fill
  fill_lem zero n chunks xs rest s e len enough = ground arith
  fill_lem (suc fuel) n chunks [] rest s e len enough = let h = right_nil chunks in ground arith
  fill_lem (suc fuel) n chunks (x ∷ xs) rest s e len enough =
      let k = n - length chunks in
      let order = laws.in_order k s in
      let bound = laws.bounded k s in
      let stop = laws.at_end k s (omega arith) in
      let (ys, left, right) =
        cut (recv k s).0 (to_come (recv k s).1) (x ∷ xs) rest (sym order ∙ e) (omega arith) in
      let size = length-append (recv k s).0 ys in
      let size' = length-append chunks (recv k s).0 in
      let more = fill_lem fuel n (chunks ++ (recv k s).0) ys rest (recv k s).1 right in
      let total = ap length left in
      let joined = assoc chunks (recv k s).0 ys in
      let full = some_bytes (recv k s).0 (to_come s) x (xs ++ rest) e stop in
      let h =
        more (omega (arith, size, size', total, len))
          (omega (arith, size, total, full.1, enough)) in
      advance _ _ _ _ _ _ (ltb (length chunks) n) (is_empty (recv k s).0) (ground arith) full.0 h
        (joined ∙ ap (λ l. chunks ++ l) (sym left))

  -- If at least n more bytes come, `read_exactly` returns the next n, in whatever pieces they
  -- come, and leaves the others.
  pub read_exactly-next :
      (n : ℕ) (bytes rest : List ℕ) (s : State)
      → length bytes ≡ n
      → to_come s ≡ bytes ++ rest
      → Reads (read_exactly socket n s) bytes rest
  unfolding read_exactly
  read_exactly-next n bytes rest s len e =
      fill_lem (n + 1) n [] bytes rest s e (omega arith) (omega arith)

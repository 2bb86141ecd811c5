-- ===== src/Relay/Tests.antt =====
-- Frames of image_relay/, and the theorems on them.
use network_backend_article.Base.{
  ℕ, ◌+◌, ◌≤◌, ◌≡◌, refl, suc, zero, true, none, some, List, [], ◌∷◌, ◌++◌, map, All, count, arith,
  length,
}
use network_backend_article.Base.Result.{ok}
use network_backend_article.Relay.Protocol.{
  Socket, Frame, encode_frame, raw, read_exactly, read_frame, put_bytes, is_empty,
}
use network_backend_article.Relay.Protocol.Stream.{IsSocket, read_exactly-next}
use network_backend_article.Relay.Protocol.Total.{Returned, read_frame-Returned}
use network_backend_article.Relay.Protocol.RoundTrip.{read_frame-encode_frame}
use network_backend_article.Relay.Producer.{relay_loop}
use network_backend_article.Relay.Producer.Stream.{IsEncoded, relay_all, relay_loop-relay_all}
use network_backend_article.Relay.Viewers.{RelayServer, relay_frame}
use network_backend_article.Relay.Viewers.Fanout.{IsFresh, is_behind, relay_frame-newest}

-- A socket that gives one byte at a time.
abbrev drip : ℕ → List ℕ → List ℕ × List ℕ
drip zero bytes = ([], bytes)
drip (suc n) [] = ([], [])
drip (suc n) (b ∷ bytes) = (b ∷ [], bytes)

abbrev slow : Socket
slow = record { State = List ℕ; to_come = λ s. s; recv = drip }

slow-in_order : (n : ℕ) (s : List ℕ) → s ≡ (drip n s).0 ++ (drip n s).1
slow-in_order zero s = refl
slow-in_order (suc n) [] = refl
slow-in_order (suc n) (b ∷ bytes) = refl

slow-bounded : (n : ℕ) (s : List ℕ) → length (drip n s).0 ≤ n
slow-bounded zero s = omega arith
slow-bounded (suc n) [] = omega arith
slow-bounded (suc n) (b ∷ bytes) = omega arith

slow-at_end : (n : ℕ) (s : List ℕ) → suc 0 ≤ n → is_empty (drip n s).0 ≡ true → s ≡ []
slow-at_end zero s more e = ground arith
slow-at_end (suc n) [] more e = refl
slow-at_end (suc n) (b ∷ bytes) more e = ground arith

slow-IsSocket : IsSocket slow
slow-IsSocket = record { in_order = slow-in_order; bounded = slow-bounded; at_end = slow-at_end }

abbrev frame_bytes : List ℕ
frame_bytes =
    82 ∷ 70 ∷ 74 ∷ 70 ∷ 1 ∷ 0 ∷ 0 ∷ 0 ∷ 0 ∷ 7 ∷ 0 ∷ 0 ∷ 0 ∷ 0 ∷ 0 ∷ 0 ∷ 1 ∷ 0 ∷ 0 ∷ 0 ∷ 0 ∷ 2 ∷ 255
    ∷ 216 ∷ []

frame_bytes-encoded : encode_frame (255 ∷ 216 ∷ []) 7 (some 256) 0 1 ≡ ok frame_bytes
unfolding encode_frame raw put_bytes
frame_bytes-encoded = refl

read_frame-encode_frame_example :
    ((read_frame slow (frame_bytes ++ 82 ∷ [])).0
      ≡ some (ok (some (record { seq = 7; ts_ms = 256; payload = 255 ∷ 216 ∷ []; flags = 0 }))))
    × ((read_frame slow (frame_bytes ++ 82 ∷ [])).1 ≡ 82 ∷ [])
read_frame-encode_frame_example =
    read_frame-encode_frame slow slow-IsSocket (255 ∷ 216 ∷ []) 7 (some 256) 0 1 frame_bytes
      (82 ∷ []) (frame_bytes ++ 82 ∷ []) frame_bytes-encoded refl

abbrev jpeg : Frame
jpeg = record { seq = 7; ts_ms = 256; payload = 255 ∷ 216 ∷ []; flags = 0 }

abbrev server : RelayServer
server = record {
  stats = record {
    frames_in = 0;
    bytes_in = 0;
    frames_out = 0;
    frames_dropped = 0;
    producers = 1;
    viewers = 2;
  };
  viewers = record { addr = 1; queue = none } ∷ record { addr = 2; queue = some (1 ∷ []) } ∷ [];
}

relay_frame-newest_example :
    All (IsFresh frame_bytes) (relay_frame jpeg frame_bytes server).viewers
    × (map (λ v. v.addr) (relay_frame jpeg frame_bytes server).viewers
        ≡ map (λ v. v.addr) server.viewers)
    × ((relay_frame jpeg frame_bytes server).stats.frames_dropped
        ≡ server.stats.frames_dropped + count is_behind server.viewers)
relay_frame-newest_example = relay_frame-newest jpeg frame_bytes server

read_exactly-next_example :
    ((read_exactly slow 2 (1 ∷ 2 ∷ 3 ∷ [])).0 ≡ some (1 ∷ 2 ∷ []))
    × ((read_exactly slow 2 (1 ∷ 2 ∷ 3 ∷ [])).1 ≡ 3 ∷ [])
read_exactly-next_example =
    read_exactly-next slow slow-IsSocket 2 (1 ∷ 2 ∷ []) (3 ∷ []) (1 ∷ 2 ∷ 3 ∷ []) refl refl

-- The stream ends in the middle of a header.
read_frame-Returned_example : Returned (read_frame slow (82 ∷ 70 ∷ []))
read_frame-Returned_example = read_frame-Returned slow slow-IsSocket (82 ∷ 70 ∷ [])

jpeg_bytes-IsEncoded : All IsEncoded ((jpeg, frame_bytes) ∷ (jpeg, frame_bytes) ∷ [])
unfolding encode_frame raw put_bytes
jpeg_bytes-IsEncoded = (refl, (refl, tt))

relay_loop-relay_all_example :
    (relay_loop slow 3 (frame_bytes ++ frame_bytes) server).0
    ≡ relay_all ((jpeg, frame_bytes) ∷ (jpeg, frame_bytes) ∷ []) server
relay_loop-relay_all_example =
    relay_loop-relay_all slow slow-IsSocket ((jpeg, frame_bytes) ∷ (jpeg, frame_bytes) ∷ []) 3
      (frame_bytes ++ frame_bytes) server (omega arith) jpeg_bytes-IsEncoded refl

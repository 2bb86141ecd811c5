-- ===== src/Bridge/Topic.antt =====
-- The tests on topics in backend/mqtt_bridge.py: `endswith`, `startswith`, `split("/")[1]`.
use Prim.Native.Char.{Char, code}
use Prim.Native.String.{String, [], ◌∷◌}
use mathlib.Core.Bool.{Bool, true, false, ◌&&◌, ◌||◌}
use mathlib.Core.Option.{Option, none, some}
use text.Mathlib.Text.{◌==◌ as str_eq}
use network_backend_article.Base.{◌==◌, if◌then◌else◌}
use network_backend_article.Base.Result.{Result, ok, err, index_error}

pub ends_with : String → String → Bool
ends_with suffix [] = str_eq suffix []
ends_with suffix (c ∷ s) = str_eq suffix (c ∷ s) || ends_with suffix s

pub starts_with : String → String → Bool
starts_with [] s = true
starts_with (c ∷ prefix) [] = false
starts_with (c ∷ prefix) (d ∷ s) = code c == code d && starts_with prefix s

is_slash : Char → Bool
is_slash c = code c == 0x2f

-- The text up to the next slash.
level : String → String
level [] = []
level (c ∷ s) = let rest = level s in if is_slash c then [] else c ∷ rest

after_slash : String → Option String
after_slash [] = none
after_slash (c ∷ s) = let rest = after_slash s in if is_slash c then some s else rest

abbrev second_level : Option String → Result String
second_level none = err index_error
second_level (some s) = ok (level s)

unfoldable pub is_lwt : String → Bool
unfolding ends_with
is_lwt topic = ends_with "/lwt" topic

unfoldable pub is_gateway : String → Bool
unfolding starts_with
is_gateway topic = starts_with "gateway/" topic

-- `topic.split("/")[1]`
unfoldable pub node_of_topic : String → Result String
unfolding level after_slash is_slash
node_of_topic topic = second_level (after_slash topic)

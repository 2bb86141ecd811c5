-- ===== src/Base/Python.antt =====
-- The values that `json.loads` returns, and the built-in conversions of Python and of its SQLite
-- driver on them. Floats are a type of the record `Python`, with the operations that the source
-- uses of them; the conversions may raise, as the language reference says they do.
use Prim.Native.String.{String}
use mathlib.Core.Bool.{Bool, true, false, not}
use mathlib.Core.Option.{Option, none, some}
use text.Mathlib.Text.{◌==◌ as str_eq}
use network_backend_article.Base.Tests.{◌==◌, if◌then◌else◌}
use network_backend_article.Base.Int.{ℤ, pos, negsuc}
use network_backend_article.Base.Result.{Result}

-- A dict is `obj`, with its keys in order; a key stands once.
mutual
  pub data Value (F : Type 0) : Type 0 where
    null : Value F
    bool : Bool → Value F
    int : ℤ → Value F
    float : F → Value F
    str : String → Value F
    arr : Items F → Value F
    obj : Fields F → Value F

  pub data Items (F : Type 0) : Type 0 where
    nil : Items F
    cons : Value F → Items F → Items F

  pub data Fields (F : Type 0) : Type 0 where
    end : Fields F
    field : String → Value F → Fields F → Fields F

module _ {F : Type 0} where
  -- `d[key]`, or nothing where the key is missing.
  abbrev pub find : String → Fields F → Option (Value F)
  find key end = none
  find key (field k v d) = if str_eq k key then some v else find key d

  -- `key in d`
  abbrev pub has_key : String → Fields F → Bool
  has_key key d = elim (find key d) [ none ↦ false | some _ ↦ true ]

  -- `d.get(key, default)`
  abbrev pub get_or : String → Value F → Fields F → Value F
  get_or key default d = elim (find key d) [ none ↦ default | some v ↦ v ]

  -- `d.get(key)`
  abbrev pub get : String → Fields F → Value F
  get key d = get_or key null d

  -- `{**d, key: v}`: a known key keeps its place.
  abbrev pub put : String → Value F → Fields F → Fields F
  put key v end = field key v end
  put key v (field k w d) = if str_eq k key then field k v d else field k w (put key v d)

  abbrev pub is_null : Value F → Bool
  is_null null = true
  is_null _ = false

-- What Python and `sqlite3` do with the values; `float_of`, `int_of` and `str_of` are the
-- constructors `float`, `int` and `str`, and `sql_text` binds a value to a TEXT column.
pub record Python : Type 1 where
  pub Float : Type 0
  pub str_of : Value Float → String
  pub int_of : Value Float → Result ℤ
  pub float_of : Value Float → Result Float
  pub trunc : Float → Result ℤ
  pub round : Float → Result ℤ
  pub le : Float → Float → Bool
  pub is_zero : Float → Bool
  pub is_one : Float → Bool
  pub is_nan : Float → Bool
  pub divide : Float → Float → Float
  pub show : Float → String
  pub sql_text : Value Float → Result (Option String)

-- `bool(v)`
abbrev pub truthy : (py : Python) → Value py.Float → Bool
truthy py null = false
truthy py (bool b) = b
truthy py (int (pos n)) = not (n == 0)
truthy py (int (negsuc n)) = true
truthy py (float x) = not (py.is_zero x)
truthy py (str s) = not (str_eq s "")
truthy py (arr nil) = false
truthy py (arr (cons v vs)) = true
truthy py (obj end) = false
truthy py (obj (field k v d)) = true

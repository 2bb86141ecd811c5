-- ===== src/Samples.antt =====
-- Concrete inputs for the examples: floats are whole numbers or NaN, and the conversions are those
-- of Python on such values.
use network_backend_article.Export.Statistics.{Statistics}
use network_backend_article.Base.{
  ℕ, ◌+◌, ◌-◌, ◌*◌, List, [], ◌∷◌, leb, String, Bool, true, false, Option, none, some,
}
use network_backend_article.Base.Int.{ℤ, pos, leb_ℤ, eqb_ℤ}
use network_backend_article.Base.Text.{decimal_ℤ}
use network_backend_article.Base.Result.{Result, ok, err, type_error, value_error}
use network_backend_article.Base.Python.{Python, Value, null, bool, int, float, str, arr, obj}

abbrev whole : Option ℤ → Result ℤ
whole none = err value_error
whole (some n) = ok n

abbrev as_int : Value (Option ℤ) → Result ℤ
as_int (int n) = ok n
as_int (bool true) = ok (pos 1)
as_int (bool false) = ok (pos 0)
as_int (float x) = whole x
as_int (str s) = err value_error
as_int null = err type_error
as_int (arr _) = err type_error
as_int (obj _) = err type_error

abbrev as_float : Value (Option ℤ) → Result (Option ℤ)
as_float (int n) = ok (some n)
as_float (bool true) = ok (some (pos 1))
as_float (bool false) = ok (some (pos 0))
as_float (float x) = ok x
as_float (str s) = err value_error
as_float null = err type_error
as_float (arr _) = err type_error
as_float (obj _) = err type_error

abbrev as_text : Value (Option ℤ) → String
as_text (str s) = s
as_text (int n) = decimal_ℤ n
as_text _ = ""

abbrev below : Option ℤ → Option ℤ → Bool
below (some a) (some b) = leb_ℤ a b
below none _ = false
below (some a) none = false

abbrev equals : ℤ → Option ℤ → Bool
equals n none = false
equals n (some m) = eqb_ℤ m n

abbrev is_none : Option ℤ → Bool
is_none none = true
is_none (some _) = false

abbrev as_column : Value (Option ℤ) → Result (Option String)
as_column null = ok none
as_column (str s) = ok (some s)
as_column _ = ok (some "")

abbrev pub python : Python
python = record {
  Float = Option ℤ;
  str_of = as_text;
  int_of = as_int;
  float_of = as_float;
  trunc = whole;
  round = whole;
  le = below;
  is_zero = equals (pos 0);
  is_one = equals (pos 1);
  is_nan = is_none;
  divide = λ x _. x;
  show = λ _. "";
  sql_text = as_column;
}

-- Whole numbers for floats, and the first value for each of the statistics.
abbrev first_or_zero : List ℕ → ℕ
first_or_zero [] = 0
first_or_zero (x ∷ xs) = x

abbrev pub numbers : Statistics
numbers = record {
  Float = ℕ;
  zero = 0;
  one = 1;
  of_nat = λ n. n;
  trunc = λ n. n;
  le = leb;
  add = λ a b. a + b;
  sub = λ a b. a - b;
  mul = λ a b. a * b;
  round3 = λ n. n;
  median = first_or_zero;
  fmean = λ xs. ok (first_or_zero xs);
  stdev = λ xs. ok (first_or_zero xs);
  quarter = 0;
  three_quarters = 1;
}

-- ===== src/Pdata/Simple.antt =====
-- Attribute maps as association lists with small values, and tenths for `float64`: the
-- parameters of Pdata at concrete data, for tests.
use otel_tail_sampler.Base.{
  ℕ, ◌*◌, ◌/◌, ◌≡◌, refl, Bool, true, false, Option, none, some, List, [], ◌∷◌, ◌++◌, arith,
  if◌then◌else◌,
}
use otel_tail_sampler.Base.Int.{ℤ, pos, ltb_ℤ, ◌+ℤ◌, ◌*ℤ◌}
use otel_tail_sampler.Base.Text.{GoString, codes, eqb, eqb_iff, format_int}
use otel_tail_sampler.Pdata.{Pcommon, IsLawful, Float64}

pub data SimpleValue : Type 0 where
  text : GoString → SimpleValue
  bool : Bool → SimpleValue
  number : ℤ → SimpleValue

abbrev pub Attrs : Type 0
Attrs = List (GoString × SimpleValue)

unfoldable pub get : Attrs → GoString → Option SimpleValue
get [] k = none
get ((j, v) ∷ m) k = if eqb j k then some v else get m k

unfoldable pub put : Attrs → GoString → SimpleValue → Attrs
put [] k v = (k, v) ∷ []
put ((j, w) ∷ m) k v = if eqb j k then (j, v) ∷ m else (j, w) ∷ put m k v

unfoldable pub remove : Attrs → GoString → Attrs
remove [] k = []
remove ((j, w) ∷ m) k = let rest = remove m k in if eqb j k then rest else (j, w) ∷ rest

unfoldable pub as_string : SimpleValue → GoString
as_string (text s) = s
as_string (bool true) = codes "true"
as_string (bool false) = codes "false"
as_string (number z) = format_int z

abbrev str : SimpleValue → GoString
str (text s) = s
str _ = []

abbrev int : SimpleValue → ℤ
int (number z) = z
int _ = pos 0

abbrev pub simple : Pcommon
simple = record {
  Value = SimpleValue;
  Map = Attrs;
  Opaque = ℕ;
  empty = [];
  range = λ m. m;
  get = get;
  put = put;
  remove = remove;
  as_string = as_string;
  str = str;
  int = int;
  of_bool = bool;
  of_int = number;
}

range-put :
    (m : Attrs) (k : GoString) (v : SimpleValue) → get m k ≡ none → put m k v ≡ m ++ (k, v) ∷ []
unfolding get put
range-put [] k v h = refl
range-put ((j, w) ∷ m) k v h = ground (arith, range-put m k v)

get-put :
    (m : Attrs) (k j : GoString) (v : SimpleValue)
    → get (put m k v) j ≡ (if eqb k j then some v else get m j)
unfolding get put
get-put [] k j v = refl
get-put ((i, w) ∷ m) k j v = ground (arith, eqb_iff i k, eqb_iff i j, eqb_iff k j, get-put m k j v)

get-remove : (m : Attrs) (k j : GoString) → get (remove m k) j ≡ (if eqb k j then none else get m j)
unfolding get remove
get-remove [] k j = ground arith
get-remove ((i, w) ∷ m) k j =
    ground (arith, eqb_iff i k, eqb_iff i j, eqb_iff k j, get-remove m k j)

pub simple-IsLawful : IsLawful simple
unfolding get
simple-IsLawful = record {
  range-empty = refl;
  range-put = range-put;
  get-empty = λ k. refl;
  get-put = get-put;
  get-remove = get-remove;
  int-of_int = λ z _. refl;
}

abbrev mul_tenths : ℤ → ℤ → ℤ
mul_tenths (pos a) (pos b) = pos (a * b / 10)
mul_tenths _ _ = pos 0

-- Numbers counted in tenths, which the values of the tests are; products are of positive numbers.
abbrev pub tenths : Float64
tenths = record {
  Double = ℤ;
  zero = pos 0;
  add = ◌+ℤ◌;
  mul = mul_tenths;
  less = ltb_ℤ;
  of_int = λ z. z *ℤ pos 10;
  four_fifths = pos 8;
}

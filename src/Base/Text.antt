-- ===== src/Base/Text.antt =====
-- Go strings as lists of bytes: literals, equality, order, prefixes, and `%d`.
use Prim.Native.Char.{code}
use Prim.Native.String.{String}
use Prim.Native.Nat.{ℕ, zero, suc, ◌+◌, ◌/◌, ◌%◌}
use mathlib.Core.Path.{◌≡◌, refl}
use mathlib.Core.Logic.{◌↔◌}
use mathlib.Core.Bool.{Bool, true, false, ◌&&◌}
use mathlib.Core.List.{List, [], ◌∷◌}
use native.Mathlib.Omega.{arith}
use otel_tail_sampler.Base.Bools.{ltb, ◌==◌, if◌then◌else◌}
use otel_tail_sampler.Base.Int.{ℤ, pos, negsuc}

abbrev pub GoString : Type 0
GoString = List ℕ

-- The bytes of an ASCII literal.
abbrev pub codes : String → GoString
codes String.[] = []
codes (String.◌∷◌ c s) = code c ∷ codes s

unfoldable pub eqb : GoString → GoString → Bool
eqb [] [] = true
eqb [] (d ∷ t) = false
eqb (c ∷ s) [] = false
eqb (c ∷ s) (d ∷ t) = (c == d) && eqb s t

pub eqb_iff : (s t : GoString) → (eqb s t ≡ true) ↔ (s ≡ t)
unfolding eqb
eqb_iff [] [] = (λ h. refl, λ h. refl)
eqb_iff [] (d ∷ t) = (λ h. cc, λ h. cc)
eqb_iff (c ∷ s) [] = (λ h. cc, λ h. cc)
eqb_iff (c ∷ s) (d ∷ t) = ground (arith, eqb_iff s t)

pub eqb_refl : (s : GoString) → eqb s s ≡ true
eqb_refl s = (eqb_iff s s).1 refl

-- The order of Go's `<` on strings.
unfoldable pub less_str : GoString → GoString → Bool
less_str s [] = false
less_str [] (d ∷ t) = true
less_str (c ∷ s) (d ∷ t) = if ltb c d then true else if c == d then less_str s t else false

unfoldable pub has_prefix : GoString → GoString → Bool
has_prefix s [] = true
has_prefix [] (d ∷ t) = false
has_prefix (c ∷ s) (d ∷ t) = (c == d) && has_prefix s t

-- `%d` of a number below 10 ^ fuel.
digits_of : ℕ → ℕ → GoString → GoString
digits_of zero n acc = acc
digits_of (suc f) n acc =
    let rest = digits_of f (n / 10) ((48 + n % 10) ∷ acc) in
    if ltb n 10 then (48 + n) ∷ acc else rest

-- Twenty digits hold every 64-bit number.
unfoldable pub format_int : ℤ → GoString
unfolding digits_of
format_int (pos n) = digits_of 20 n []
format_int (negsuc n) = b'-' ∷ digits_of 20 (suc n) []

format_int_test : format_int (negsuc 1204) ≡ codes "-1205"
unfolding format_int
format_int_test = refl

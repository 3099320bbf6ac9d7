-- ===== src/Python/Args.antt =====
-- The values of an `argparse.Namespace`, and `int` and `str` of them. A suite file sets attributes
-- to texts, so every attribute may hold any of these.
pub mod Decimal
use tls_interop_framework.Prelude.{
  Bool, Option, [], false, if◌then◌else◌, leb, negsuc, none, pos, some, suc, true, zero, ℕ, ℤ, ◌&&◌,
  ◌*◌, ◌+◌, ◌-◌, ◌==◌, ◌∷◌,
}
use tls_interop_framework.Python.Dict.{Dict, lookup}
use tls_interop_framework.Python.Json.{decimal}
use tls_interop_framework.Python.Result.{Result, bad_integer, err, ok}
use tls_interop_framework.Python.Text.{Text, lit, strip}
use mathlib.Core.Option

pub data Arg : Type 0 where
  none_arg : Arg
  flag : Bool → Arg
  number : ℤ → Arg
  word : Text → Arg

-- Attributes by name; `getattr(args, name, None)` is a lookup.
abbrev pub Namespace : Type 0
Namespace = Dict Arg

unfoldable pub attribute : Text → Namespace → Arg
attribute name args = elim (lookup name args) [ none ↦ none_arg | some a ↦ a ]

unfoldable pub is_digit : ℕ → Bool
is_digit c = leb b'0' c && leb c b'9'

-- Decimal digits with single underscores between them; the flag says that the last one was a digit.
unfoldable pub read_digits : ℕ → Bool → Text → Option ℕ
read_digits n after [] = if after then some n else none
read_digits n after (c ∷ s) = elim (is_digit c) [
  | true ↦ read_digits (n * 10 + (c - 48)) true s
  | false ↦ elim (after && c == b'_') [ true ↦ read_digits n false s | false ↦ none ]
]

-- -n
unfoldable pub negate : ℕ → ℤ
negate zero = pos 0
negate (suc n) = negsuc n

unfoldable pub read_signed : Text → Option ℤ
unfolding read_digits is_digit negate
read_signed [] = none
read_signed (c ∷ s) =
    if c == b'-'
    then Option.map negate (read_digits 0 false s)
    else if c == b'+'
    then Option.map pos (read_digits 0 false s)
    else Option.map pos (read_digits 0 false (c ∷ s))

-- `int(text)`
unfoldable pub int_of_text : Text → Option ℤ
unfolding read_signed
int_of_text s = read_signed (strip s)

unfoldable pub text_of_int : ℤ → Text
text_of_int (pos n) = decimal n
text_of_int (negsuc n) = b'-' ∷ decimal (suc n)

-- `str(value or "")`
unfoldable pub arg_text : Arg → Text
arg_text none_arg = []
arg_text (flag b) = if b then lit "True" else []
arg_text (number (pos zero)) = []
arg_text (number n) = text_of_int n
arg_text (word t) = t

-- `int(value or 0)`
unfoldable pub arg_int : Arg → Result ℤ
arg_int none_arg = ok (pos 0)
arg_int (flag b) = ok (pos (if b then 1 else 0))
arg_int (number n) = ok n
arg_int (word []) = ok (pos 0)
arg_int (word t) = elim (int_of_text t) [ none ↦ err (bad_integer t) | some n ↦ ok n ]

-- `str(getattr(args, name, "") or "")`
unfoldable pub option_text : Text → Namespace → Text
option_text name args = arg_text (attribute name args)

-- ===== src/Codec/Decimal.antt =====
-- Decimal numbers: `{}` and `parse::<usize>()` of the standard library, and `number_of_digits` of
-- src/codec.rs.
pub mod Print
pub mod RoundTrip
use tower_lsp.Base.{
  ℕ, zero, suc, ◌+◌, ◌-◌, ◌*◌, ◌/◌, ◌%◌, ◌^◌, ◌<◌, ◌≤◌, ◌≡◌, refl, Bool, true, false, ◌&&◌, List,
  [], ◌∷◌, if◌then◌else◌, ltb, nat_eq, Result, ok, err, arith,
}

-- `while n > 0 { n /= 10; num_digits += 1; }`
unfoldable pub count_digits : ℕ → ℕ → ℕ → ℕ
count_digits zero n num_digits = num_digits
count_digits (suc f) n num_digits =
    let rest = count_digits f (n / 10) (num_digits + 1) in if nat_eq n 0 then num_digits else rest

-- A number is fuel enough for its own digits.
unfoldable pub number_of_digits : ℕ → ℕ
unfolding count_digits
number_of_digits n = count_digits n n 0

-- The digits of `n`, in front of those in `acc`.
unfoldable pub print_digits : ℕ → ℕ → List ℕ → List ℕ
print_digits zero n acc = (b'0' + n % 10) ∷ acc
print_digits (suc f) n acc =
    let rest = print_digits f (n / 10) ((b'0' + n % 10) ∷ acc) in
    if ltb n 10 then (b'0' + n % 10) ∷ acc else rest

unfoldable pub print_usize : ℕ → List ℕ
unfolding print_digits
print_usize n = print_digits n n []

pub data ParseIntError : Type 0 where
  empty invalid_digit pos_overflow : ParseIntError

abbrev is_digit : ℕ → Bool
is_digit c = ltb 47 c && ltb c 58

abbrev pub usize_mod : ℕ
usize_mod = 2 ^ 64

unfoldable pub parse_digits : ℕ → List ℕ → Result ℕ ParseIntError
parse_digits n [] = ok n
parse_digits n (c ∷ cs) =
    let n' = n * 10 + (c - b'0') in
    let rest = parse_digits n' cs in
    if is_digit c then (if ltb n' usize_mod then rest else err pos_overflow) else err invalid_digit

-- A sign is allowed in front of digits.
unfoldable pub parse_usize : List ℕ → Result ℕ ParseIntError
unfolding parse_digits
parse_usize [] = err empty
parse_usize (c ∷ []) = parse_digits 0 (c ∷ [])
parse_usize (c ∷ d ∷ cs) =
    if nat_eq c b'+' then parse_digits 0 (d ∷ cs) else parse_digits 0 (c ∷ d ∷ cs)

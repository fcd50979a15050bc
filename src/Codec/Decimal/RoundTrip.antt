-- ===== src/Codec/Decimal/RoundTrip.antt =====
-- Printed numbers are read back: `{}` and `parse::<usize>()` in src/codec.rs.
use tower_lsp.Base.{
  ℕ, zero, suc, ◌+◌, ◌-◌, ◌*◌, ◌/◌, ◌%◌, ◌<◌, ◌≤◌, ◌≡◌, refl, ◌∙◌, inl, inr, true, false, List, [],
  ◌∷◌, ltb, ltb→lt, lt→ltb, ap, nat_eq, arith, Bool-cases, ok,
}
use tower_lsp.Codec.Decimal.{
  print_digits, print_usize, parse_digits, parse_usize, usize_mod, is_digit,
}

parse_digits-cons :
    (m d : ℕ) (cs : List ℕ)
    → d < 10
    → m * 10 + d < usize_mod
    → parse_digits m ((b'0' + d) ∷ cs) ≡ parse_digits (m * 10 + d) cs
unfolding parse_digits
parse_digits-cons m d cs small bound =
    let value : m * 10 + (b'0' + d - b'0') ≡ m * 10 + d = omega arith in
    let digit : is_digit (b'0' + d) ≡ true = ground arith in
    let fits : ltb (m * 10 + d) usize_mod ≡ true = lt→ltb (m * 10 + d) usize_mod bound in
    rw (digit, value, fits)

parse_digits-print :
    (f n : ℕ) (acc : List ℕ)
    → n ≤ f
    → n < usize_mod
    → parse_digits 0 (print_digits f n acc) ≡ parse_digits n acc
unfolding print_digits
parse_digits-print zero n acc h b =
    parse_digits-cons 0 (n % 10) acc (omega arith) (omega arith)
    ∙ ap (λ m. parse_digits m acc) (omega arith)
parse_digits-print (suc f) n acc h b = elim (Bool-cases (ltb n 10)) [
  | inl small ↦
      let lt : n < 10 = ltb→lt n 10 small in
      rw (small, print_digits)
        (parse_digits-cons 0 (n % 10) acc (omega arith) (omega arith)
          ∙ ap (λ m. parse_digits m acc) (omega arith))
  | inr large ↦
      let ge : 10 ≤ n = ground arith in
      rw (large, print_digits)
        (parse_digits-print f (n / 10) ((b'0' + n % 10) ∷ acc) (omega arith) (omega arith)
          ∙ parse_digits-cons (n / 10) (n % 10) acc (omega arith) (omega arith)
          ∙ ap (λ m. parse_digits m acc) (omega arith))
]

-- A list that starts with a digit, so with no sign.
abbrev StartsWithDigit : List ℕ → Type 0
StartsWithDigit [] = ⊥
StartsWithDigit (c ∷ cs) = nat_eq c b'+' ≡ false

print_digits-StartsWithDigit : (f n : ℕ) (acc : List ℕ) → StartsWithDigit (print_digits f n acc)
unfolding print_digits
print_digits-StartsWithDigit zero n acc = ground arith
print_digits-StartsWithDigit (suc f) n acc = elim (Bool-cases (ltb n 10)) [
  | inl small ↦ rw (small, print_digits) (ground arith)
  | inr large ↦
      rw (large, print_digits) (print_digits-StartsWithDigit f (n / 10) ((b'0' + n % 10) ∷ acc))
]

parse_usize-unsigned : (cs : List ℕ) → StartsWithDigit cs → parse_usize cs ≡ parse_digits 0 cs
unfolding parse_usize
parse_usize-unsigned [] h = absurd h
parse_usize-unsigned (c ∷ []) h = refl
parse_usize-unsigned (c ∷ d ∷ cs) h = rw h

-- Every `usize` is read back from the decimal digits that the encoder writes for it.
pub parse_usize-print : (n : ℕ) → n < usize_mod → parse_usize (print_usize n) ≡ ok n
unfolding print_usize parse_digits
parse_usize-print n b =
    parse_usize-unsigned (print_digits n n []) (print_digits-StartsWithDigit n n [])
    ∙ parse_digits-print n n [] (omega arith) b

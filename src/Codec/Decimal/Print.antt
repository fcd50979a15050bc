-- ===== src/Codec/Decimal/Print.antt =====
-- How long a printed number is: `number_of_digits` of src/codec.rs.
use tower_lsp.Base.{
  ℕ, zero, suc, ◌+◌, ◌/◌, ◌%◌, ◌<◌, ◌≤◌, ◌≡◌, refl, inl, inr, List, [], ◌∷◌, ltb, arith, length,
  Bool-cases,
}
use tower_lsp.Codec.Decimal.{count_digits, number_of_digits, print_digits, print_usize}

count_digits-zero : (f k : ℕ) → count_digits f 0 k ≡ k
unfolding count_digits
count_digits-zero zero k = refl
count_digits-zero (suc f) k = refl

count_digits-print :
    (f n k : ℕ) (acc : List ℕ)
    → 0 < n
    → n ≤ f
    → count_digits f n k + length acc ≡ k + length (print_digits f n acc)
unfolding count_digits print_digits
count_digits-print zero n k acc p h = absurd (omega arith)
count_digits-print (suc f) n k acc p h = elim (Bool-cases (ltb n 10)) [
  | inl small ↦ ground (arith, count_digits-zero f (k + 1))
  | inr large ↦ ground (arith, count_digits-print f (n / 10) (k + 1) ((48 + n % 10) ∷ acc))
]

-- The number that the encoder reserves space by is the number of the digits that it writes, for
-- every length but 0.
pub number_of_digits-eq-length : (n : ℕ) → 0 < n → number_of_digits n ≡ length (print_usize n)
unfolding number_of_digits print_usize
number_of_digits-eq-length n p = omega (arith, count_digits-print n n 0 [] p (omega arith))

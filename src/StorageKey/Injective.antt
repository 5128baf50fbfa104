-- ===== src/StorageKey/Injective.antt =====
-- No two pairs of an adapter and a conversation share a storage key.
use omp_bundler.Prelude.{
  ℕ, zero, suc, ◌+◌, ◌-◌, ◌*◌, ◌/◌, ◌%◌, ◌<◌, ◌≡◌, refl, ap, ◌∙◌, ◌≢◌, inl, inr, [], ◌∷◌, ◌++◌,
  Text, length, All, ltb, arith, Bool-cases,
}
use omp_bundler.StorageKey.{digits, decimal, storage_key}

abbrev value : ℕ → Text → ℕ
value acc [] = acc
value acc (d ∷ ds) = value (acc * 10 + (d - 48)) ds

value-digits : (fuel n : ℕ) (acc : Text) → n < fuel → value 0 (digits fuel n acc) ≡ value n acc
unfolding digits
value-digits zero n acc h = absurd (omega arith)
value-digits (suc fuel) n acc h = elim (Bool-cases (ltb n 10)) [
  | inl small ↦ rw small (ap (λ m. value m acc) (omega arith))
  | inr large ↦ rw large (
      value-digits fuel (n / 10) ((48 + n % 10) ∷ acc) (ground arith)
      ∙ ap (λ m. value m acc) (omega arith))
]

abbrev NoColon : Text → Type 0
NoColon = All (λ c. c ≢ b':')

digits-NoColon : (fuel n : ℕ) (acc : Text) → NoColon acc → NoColon (digits fuel n acc)
unfolding digits
digits-NoColon zero n acc h = h
digits-NoColon (suc fuel) n acc h = elim (Bool-cases (ltb n 10)) [
  | inl small ↦ rw small (ground arith, h)
  | inr large ↦ rw large (digits-NoColon fuel (n / 10) ((48 + n % 10) ∷ acc) (omega arith, h))
]

split_at_colon :
    (ds es r s : Text)
    → NoColon ds
    → NoColon es
    → ds ++ (b':' ∷ r) ≡ es ++ (b':' ∷ s)
    → (ds ≡ es) × (r ≡ s)
split_at_colon [] [] r s hd he e = (refl, cc)
split_at_colon [] (x ∷ es) r s hd he e = absurd (he.0 (cc))
split_at_colon (x ∷ ds) [] r s hd he e = absurd (hd.0 (cc))
split_at_colon (x ∷ ds) (y ∷ es) r s hd he e =
    let (p, q) = split_at_colon ds es r s hd.1 he.1 (cc) in (cc, q)

append_injective : (a b c d : Text) → length a ≡ length b → a ++ c ≡ b ++ d → (a ≡ b) × (c ≡ d)
append_injective [] [] c d l e = (refl, e)
append_injective [] (y ∷ b) c d l e = absurd (omega arith)
append_injective (x ∷ a) [] c d l e = absurd (omega arith)
append_injective (x ∷ a) (y ∷ b) c d l e =
    let (p, q) = append_injective a b c d (omega arith) (cc) in (cc, q)

decimal_injective : (m n : ℕ) → decimal m ≡ decimal n → m ≡ n
unfolding decimal
decimal_injective m n e = omega (
  arith,
  value-digits (suc m) m [] (omega arith),
  value-digits (suc n) n [] (omega arith),
  ap (value 0) e,
)

-- Two conversations with the same storage key are the same conversation of the same adapter,
-- whatever characters the two opaque strings hold.
pub storage_key_injective : (a b c d : Text) → storage_key a c ≡ storage_key b d → (a ≡ b) × (c ≡ d)
unfolding storage_key
storage_key_injective a b c d e =
    let (p, q) =
      split_at_colon (decimal (length a)) (decimal (length b)) (a ++ c) (b ++ d)
        (digits-NoColon (suc (length a)) (length a) [] tt)
        (digits-NoColon (suc (length b)) (length b) [] tt) e in
    append_injective a b c d (decimal_injective (length a) (length b) p) q

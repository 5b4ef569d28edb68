-- ===== src/Symposium/Seats.antt =====
-- symposium.c: LEFT and RIGHT are the two neighbours at a round table.
use disasteros.Common.{
  ℕ, ◌+◌, ◌-◌, ◌%◌, ◌<◌, ◌≡◌, ◌≢◌, ◌∙◌, ap, ◌==◌, if◌then◌else◌, Bool-cases, inl, inr, arith,
}
use native.Mathlib.Nat.{mod-eq_of_lt, mod_self, add-mod_right}
use disasteros.Symposium.{left_of, right_of}

pub left_of_lem : (i n : ℕ) → i < n → left_of i n ≡ (if i + 1 == n then 0 else i + 1)
unfolding left_of
left_of_lem i n h = elim (Bool-cases (i + 1 == n)) [
  | inl e ↦ let q : i + 1 ≡ n = ground arith in ap (λ k. k % n) q ∙ mod_self n ∙ ground arith
  | inr e ↦ let q : i + 1 < n = ground arith in mod-eq_of_lt q ∙ ground arith
]

pub right_of_lem : (i n : ℕ) → i < n → right_of i n ≡ (if i == 0 then n - 1 else i - 1)
unfolding right_of
right_of_lem i n h = elim (Bool-cases (i == 0)) [
  | inl e ↦
      let q : i + n - 1 ≡ n - 1 = ground arith in
      let l : n - 1 < n = ground arith in ap (λ k. k % n) q ∙ mod-eq_of_lt l ∙ ground arith
  | inr e ↦
      let q : i + n - 1 ≡ i - 1 + n = ground arith in
      let l : i - 1 < n = ground arith in
      ap (λ k. k % n) q ∙ add-mod_right (i - 1) n ∙ mod-eq_of_lt l ∙ ground arith
]

-- What the two have to do with each other, with at least two seats.
pub record Seat (i n : ℕ) : Type 0 where
  pub left_in : left_of i n < n
  pub right_in : right_of i n < n
  pub right-left : right_of (left_of i n) n ≡ i
  pub left-right : left_of (right_of i n) n ≡ i
  pub left_other : left_of i n ≢ i
  pub right_other : right_of i n ≢ i

pub seat : (i n : ℕ) → i < n → 1 < n → Seat i n
seat i n h h2 =
    let l = left_of_lem i n h in
    let r = right_of_lem i n h in
    let l_in : left_of i n < n = ground arith in
    let r_in : right_of i n < n = ground arith in
    record {
      left_in = l_in;
      right_in = r_in;
      right-left = ground (arith, right_of_lem (left_of i n) n l_in);
      left-right = ground (arith, left_of_lem (right_of i n) n r_in);
      left_other = ground arith;
      right_other = ground arith;
    }

-- ===== src/ObjectHeader/Marks.antt =====
-- The marks of the leak check in the headers of include/objectheader.hh, and its test of sizes.
use double_take.Prelude.{
  ℕ, zero, suc, ◌+◌, ◌-◌, ◌*◌, ◌/◌, ◌%◌, ◌^◌, ◌≤◌, ◌<◌, ◌≡◌, ◌≢◌, refl, ap, ◌∙◌, ◌↔◌, min, bit_and,
  bit_or, bit_and_halves, bit_or_halves, bit_and-zero, true, false, not, arith, pow_suc,
}
use native.Mathlib.Decide.{ℕ_discrete}
use double_take.ObjectHeader.{
  ObjectHeader, mark_object_checked, clean_object_checked, is_object_checked, is_object_free,
  do_check_object, check_leakage_and_clean, is_valid_object_size,
}

bit_and_one : (x : ℕ) → bit_and x 1 ≡ x % 2
bit_and_one x = omega (arith, bit_and_halves x 1, bit_and-zero (x / 2) (x / 2) (omega arith))

bit_and_self : (n x : ℕ) → x ≤ n → bit_and x x ≡ x
bit_and_self n zero h = refl
bit_and_self zero (suc x) h = absurd (omega (arith, h))
bit_and_self (suc n) (suc x) h =
    omega (arith, bit_and_halves (suc x) (suc x), bit_and_self n (suc x / 2) (omega arith))

bit_and_ones : (n x : ℕ) → x < 2 ^ n → bit_and x (2 ^ n - 1) ≡ x
bit_and_ones zero x h = let e : x ≡ 0 = omega (arith, h) in rw e refl
bit_and_ones (suc n) x h =
    let e : (2 ^ suc n - 1) / 2 ≡ 2 ^ n - 1 = omega (arith, pow_suc 2 n) in
    let lt : x / 2 < 2 ^ n = omega (arith, h, pow_suc 2 n) in
    let low : (2 ^ suc n - 1) % 2 ≡ 1 = omega (arith, pow_suc 2 n, lt) in
    let ih = bit_and_ones n (x / 2) lt in
    let halves = bit_and_halves x (2 ^ suc n - 1) in rw (halves, e, low, ih) (omega arith)

bit_or-zero : (n x : ℕ) → x ≤ n → bit_or x 0 ≡ x
bit_or-zero n zero h = refl
bit_or-zero zero (suc x) h = absurd (omega (arith, h))
bit_or-zero (suc n) (suc x) h =
    omega (arith, bit_or_halves (suc x) 0, bit_or-zero n (suc x / 2) (omega arith))

marked_size : (x : ℕ) → x % 2 ≡ 0 → bit_or x 1 ≡ x + 1
marked_size x even =
    omega (arith, even, bit_or_halves x 1, bit_or-zero (x / 2) (x / 2) (omega arith))

cleaned_size : (x : ℕ) → x < 2 ^ 32 → bit_and x 0xFFFFFFFE ≡ 2 * (x / 2)
cleaned_size x small =
    omega (arith, bit_and_halves x 0xFFFFFFFE, bit_and_ones 31 (x / 2) (omega (arith, small)))

checked_case :
    (p : ObjectHeader)
    → is_object_checked p ≡ true
    → check_leakage_and_clean p ≡ (false, clean_object_checked p)
unfolding check_leakage_and_clean
checked_case p e = ground (arith, e)

module _ (o : ObjectHeader) (even : o.block_size % 2 ≡ 0) (small : o.block_size < 2 ^ 32) where
  marked : is_object_checked (mark_object_checked o) ≡ true
  unfolding is_object_checked mark_object_checked
  marked = ground (arith, even, marked_size o.block_size even, bit_and_one (o.block_size + 1))

  cleaned : clean_object_checked (mark_object_checked o) ≡ o
  unfolding clean_object_checked mark_object_checked
  cleaned =
      ap (λ (b : ℕ). record o { block_size = b })
        (rw (marked_size o.block_size even)
          (omega (arith, even, cleaned_size (o.block_size + 1) (omega (arith, even, small)))))

  -- On a header with an even block size below 2 ^ 32, which has no mark: the leak check
  -- reports the object exactly if it is not free, and leaves its header; after a mark it
  -- reports nothing, does not follow the object again, and takes the mark off.
  pub check_leakage_and_clean-mark :
      (check_leakage_and_clean o ≡ (not (is_object_free o), o))
      × (check_leakage_and_clean (mark_object_checked o) ≡ (false, o))
      × (do_check_object (mark_object_checked o) ≡ false)
      × (do_check_object o ≡ not (is_object_free o))
  unfolding check_leakage_and_clean mark_object_checked is_object_free is_object_checked
      clean_object_checked do_check_object
  check_leakage_and_clean-mark = (
    ground (arith, even, small, bit_and_one o.block_size, cleaned_size o.block_size small),
    checked_case (mark_object_checked o) marked ∙ ap (λ (p : ObjectHeader). (false, p)) cleaned,
    ground (arith, even, small, marked_size o.block_size even, bit_and_one (o.block_size + 1)),
    ground (arith, even, small, bit_and_one o.block_size),
  )

abbrev pub IsPower : ℕ → Type 0
IsPower x = (k : ℕ) × (x ≡ 2 ^ k)

is_power : (n x : ℕ) → x ≤ n → x ≢ 0 → bit_and x (x - 1) ≡ 0 → IsPower x
is_power zero x h ne e = absurd (omega (arith, h, ne))
is_power (suc n) x h ne e = elim (ℕ_discrete (x % 2) 0) [
  | yes even ↦
      let e' : (x - 1) / 2 ≡ x / 2 - 1 = omega (arith, even, ne) in
      let halves = bit_and_halves x (x - 1) in
      let rest : bit_and (x / 2) (x / 2 - 1) ≡ 0 = rw (← e') (omega (arith, even, halves, e)) in
      let (k, p) = is_power n (x / 2) (omega (arith, h, ne)) (omega (arith, even, ne)) rest in
      (suc k, omega (arith, even, p, pow_suc 2 k))
  | no odd ↦
      let e' : (x - 1) / 2 ≡ x / 2 = omega (arith, odd) in
      let halves : bit_and x (x - 1) ≡ min (x % 2) ((x - 1) % 2) + 2 * bit_and (x / 2) (x / 2) =
        bit_and_halves x (x - 1)
        ∙ ap (λ (y : ℕ). min (x % 2) ((x - 1) % 2) + 2 * bit_and (x / 2) y) e' in
      (0, omega (arith, odd, ne, e, halves, bit_and_self (x / 2) (x / 2) (omega arith)))
]

power_and : (k : ℕ) → bit_and (2 ^ k) (2 ^ k - 1) ≡ 0
power_and zero = refl
power_and (suc k) =
    let half : 2 ^ suc k / 2 ≡ 2 ^ k = omega (arith, pow_suc 2 k) in
    let half' : (2 ^ suc k - 1) / 2 ≡ 2 ^ k - 1 = omega (arith, pow_suc 2 k) in
    let low : 2 ^ suc k % 2 ≡ 0 = omega (arith, pow_suc 2 k) in
    rw (bit_and_halves (2 ^ suc k) (2 ^ suc k - 1), half, half', low, power_and k) (omega arith)

power-ne : (k : ℕ) → 2 ^ k ≢ 0
power-ne zero = λ e. absurd (omega (arith, e))
power-ne (suc k) = λ e. power-ne k (omega (arith, e, pow_suc 2 k))

-- `isValidObjectSize` accepts the powers of two and nothing else.
pub is_valid_object_size-IsPower : (x : ℕ) → (is_valid_object_size x ≡ true) ↔ IsPower x
unfolding is_valid_object_size
is_valid_object_size-IsPower x = (
  λ e. is_power x x (omega arith) (λ z. absurd (ground (arith, e, z))) (ground (arith, e)),
  λ p. rw p.1 (ground (arith, power_and p.0, power-ne p.0)),
)

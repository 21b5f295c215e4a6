-- ===== src/Characteristic/Potential.antt =====
-- A number that `Update` of src/characteristic.cpp makes smaller: the conditions as numbers, each weighed with the step
-- updates that a change of it may add, and the step updates that are left.
use nldtool.Base.{
  ℕ, zero, suc, ◌+◌, ◌-◌, ◌*◌, ◌/◌, ◌%◌, ◌^◌, ◌≤◌, ◌<◌, ◌≡◌, ◌≢◌, refl, arith, ap, sym, ◌∙◌, Bool,
  true, length, inl, inr,
}
use native.Mathlib.Decide.{ℕ_discrete}
use nldtool.Bits.{bit, two_pow-suc}
use nldtool.Characteristic.{Characteristic, proxy_get, Crypto}
use nldtool.Characteristic.Writes.{IsWritten}

-- The sum of the conditions of the proxies below a number.
unfoldable pub sum_cells : Crypto → ℕ → Characteristic → ℕ
sum_cells crypto zero c = 0
sum_cells crypto (suc m) c = proxy_get (crypto.proxy m) c + sum_cells crypto m c

module _ (crypto : Crypto) (c e : Characteristic) where
  pub sum_same :
      (m : ℕ)
      → ((j : ℕ) → j < m → proxy_get (crypto.proxy j) e ≡ proxy_get (crypto.proxy j) c)
      → sum_cells crypto m e ≡ sum_cells crypto m c
  unfolding sum_cells
  sum_same zero same = refl
  sum_same (suc m) same =
      omega (arith, same m (omega arith), sum_same m (λ j lt. same j (omega arith)))

  -- A change at one proxy.
  sum_change :
      (m k : ℕ)
      → k < m
      → ((j : ℕ) → j < m → j ≢ k → proxy_get (crypto.proxy j) e ≡ proxy_get (crypto.proxy j) c)
      → sum_cells crypto m e + proxy_get (crypto.proxy k) c
        ≡ sum_cells crypto m c + proxy_get (crypto.proxy k) e
  unfolding sum_cells
  sum_change zero k lt same = absurd (omega arith)
  sum_change (suc m) k lt same = elim (ℕ_discrete k m) [
    | yes q ↦
        let low =
          sum_same m (λ j hj. same j (omega arith) (λ h. absurd (omega (arith, h, hj, q)))) in
        let left = ap (λ x. proxy_get (crypto.proxy x) c) q in
        let right = ap (λ x. proxy_get (crypto.proxy x) e) q in omega (arith, low, left, right)
    | no ne ↦
        let low = sum_change m k (omega arith) (λ j hj. same j (omega arith)) in
        omega (arith, low, same m (omega arith) (λ h. ne (sym h)))
  ]

abbrev pub potential : Crypto → ℕ → ℕ → Characteristic → ℕ
potential crypto n most c = sum_cells crypto n c * (most + 1) + length (c.step_update_list)

weighed : (low high most : ℕ) → low + 1 ≤ high → low * (most + 1) + (most + 1) ≤ high * (most + 1)
weighed low high most h =
    let split : high ≡ low + 1 + (high - (low + 1)) = omega arith in
    let gap : high * (most + 1) ≡ low * (most + 1) + (most + 1) + (high - (low + 1)) * (most + 1) =
      ap (λ x. x * (most + 1)) split ∙ omega arith in
    omega (arith, gap)

-- A write of no greater a value does not raise it.
pub written-potential :
    (crypto : Crypto) (n steps word_size : ℕ) (priority : ℕ → ℕ) (most : ℕ) (c : Characteristic)
    (k value : ℕ) (r : Characteristic × Bool)
    → IsWritten crypto n steps word_size priority c k value r
    → k < n
    → length ((crypto.proxy k).step_update_list) ≤ most
    → value ≤ proxy_get (crypto.proxy k) c
    → potential crypto n most r.0 ≤ potential crypto n most c
written-potential crypto n steps word_size priority most c k value r w hk few le =
    let change = sum_change crypto c r.0 n k hk w.others in
    elim w.grows [
      | inl (same, queue) ↦
          let total : sum_cells crypto n r.0 ≡ sum_cells crypto n c =
            omega (arith, change, w.at, same) in
          rw total (omega (arith, queue))
      | inr (differ, queue) ↦
          let less : value + 1 ≤ proxy_get (crypto.proxy k) c = ground (arith, le, differ) in
          let lower : sum_cells crypto n r.0 + 1 ≤ sum_cells crypto n c =
            omega (arith, change, w.at, less) in
          omega
            (arith, weighed (sum_cells crypto n r.0) (sum_cells crypto n c) most lower, queue, few)
    ]

-- A word whose bits are among those of another is no greater.
pub bits_le : (w x y : ℕ) → x < 2 ^ w → ((b : ℕ) → bit x b ≡ true → bit y b ≡ true) → x ≤ y
unfolding bit
bits_le zero x y hx h = omega arith
bits_le (suc w) x y hx h =
    let rest = bits_le w (x / 2) (y / 2) (omega (arith, two_pow-suc w)) (λ b. h (suc b)) in
    let low : x % 2 ≤ y % 2 = elim (ℕ_discrete (x % 2) 1) [
      | yes one ↦ let here : bit y 0 ≡ true = h 0 (ground (arith, one)) in ground (arith, here)
      | no ne ↦ omega (arith, ne)
    ] in
    omega (arith, rest, low)

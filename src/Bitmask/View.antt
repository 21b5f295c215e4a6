-- ===== src/Bitmask/View.antt =====
-- The invariant of `Bitmask` in src/bitmask.cpp, and every word's mask after `SetBits` and `ClearBits`.

use nldtool.Base.{
  tri, ℕ, suc, ◌≤◌, ◌<◌, ◌≡◌, ◌≢◌, refl, arith, Bool, true, false, List, [], ◌∷◌, bit_and, bit_or,
  ltb, ◌==◌, ◌&&◌, ◌||◌, if◌then◌else◌, Bool-cases, inl, inr,
}
use nldtool.Bits.{
  not64, IsWord, bit_and-lt, bit_or-lt, zero_and, bit_or-zero, bit_or-ge, not64-IsWord,
}
use nldtool.Bitmask.{WordMask, less, probe, find_mask, clear_entry, clear_masks, set_masks}

-- Words from `lo` on in increasing order, each with a mask that is not zero and fits a word.
abbrev pub Ascending : ℕ → List WordMask → Type 0
Ascending lo [] = Unit {0}
Ascending lo (it ∷ rest) =
    (lo ≤ it.word) × (it.bits ≢ 0) × IsWord it.bits × Ascending (suc it.word) rest

ltb-zero : (n : ℕ) → ltb n 0 ≡ false
ltb-zero n = ground arith

or-and_false : (a b : Bool) → (a || (b && false)) ≡ a
or-and_false true b = refl
or-and_false false true = refl
or-and_false false false = refl

-- The search of `std::lower_bound` for `{word, 0}` looks at the words only.
less-probe : (it : WordMask) (word : ℕ) → less it (probe word) ≡ ltb it.word word
less-probe it word = rw (ltb-zero it.bits) (or-and_false (ltb it.word word) (it.word == word))

pub find_mask-step :
    (word : ℕ) (it : WordMask) (rest : List WordMask)
    → find_mask word (it ∷ rest)
      ≡ (if ltb it.word word then find_mask word rest else if it.word == word then it.bits else 0)
unfolding find_mask
find_mask-step word it rest = rw (less-probe it word) refl

clear_masks-step :
    (word bits : ℕ) (it : WordMask) (rest : List WordMask)
    → clear_masks word bits (it ∷ rest) ≡ (
        if ltb it.word word
        then it ∷ clear_masks word bits rest
        else if it.word == word
        then clear_entry it bits rest
        else it ∷ rest)
unfolding clear_masks
clear_masks-step word bits it rest = rw (less-probe it word) refl

set_masks-step :
    (word bits : ℕ) (it : WordMask) (rest : List WordMask)
    → set_masks word bits (it ∷ rest) ≡ (
        if ltb it.word word
        then it ∷ set_masks word bits rest
        else if it.word == word
        then record it { bits = bit_or it.bits bits } ∷ rest
        else record { word = word; bits = bits } ∷ it ∷ rest)
unfolding set_masks
set_masks-step word bits it rest = rw (less-probe it word) refl

pub find_mask-below :
    (word lo : ℕ) (masks : List WordMask)
    → Ascending lo masks
    → word < lo
    → find_mask word masks ≡ 0
unfolding find_mask
find_mask-below word lo [] a h = refl
find_mask-below word lo (it ∷ rest) a h =
    ground (arith, find_mask-below word (suc it.word) rest a.3)

pub Ascending-mono :
    {m n : ℕ} (masks : List WordMask) → n ≤ m → Ascending m masks → Ascending n masks
Ascending-mono [] h a = tt
Ascending-mono (it ∷ rest) h a = (omega arith, a.1, a.2, a.3)

find_mask-if :
    (w : ℕ) (b : Bool) (x y : List WordMask)
    → find_mask w (if b then x else y) ≡ (if b then find_mask w x else find_mask w y)
find_mask-if w true x y = refl
find_mask-if w false x y = refl

pub find_mask-nil : (w : ℕ) → find_mask w [] ≡ 0
unfolding find_mask
find_mask-nil w = refl

pub find_mask-set_masks :
    (word bits lo w : ℕ) (masks : List WordMask)
    → Ascending lo masks
    → find_mask w (set_masks word bits masks)
      ≡ (if word == w then bit_or (find_mask w masks) bits else find_mask w masks)
find_mask-set_masks word bits lo w [] a =
    let base : set_masks word bits [] ≡ record { word = word; bits = bits } ∷ [] =
      unfold set_masks in refl in
    rw (base, find_mask-step w (record { word = word; bits = bits }) [], find_mask-nil w)
      (ground (arith, bit_or-zero bits))
find_mask-set_masks word bits lo w (it ∷ rest) a =
    let one : WordMask = record { word = word; bits = bits } in
    rw
      (
        set_masks-step word bits it rest,
        find_mask-if w (ltb it.word word) (it ∷ set_masks word bits rest) (
            if it.word == word
            then record it { bits = bit_or it.bits bits } ∷ rest
            else one ∷ it ∷ rest),
        find_mask-if w (it.word == word) (record it { bits = bit_or it.bits bits } ∷ rest)
            (one ∷ it ∷ rest),
        find_mask-step w it (set_masks word bits rest),
        find_mask-step w (record it { bits = bit_or it.bits bits }) rest,
        find_mask-step w one (it ∷ rest),
        find_mask-step w it rest,
      )
      (ground (
        arith,
        find_mask-set_masks word bits (suc it.word) w rest a.3,
        find_mask-below w (suc it.word) rest a.3,
        bit_or-zero bits,
      ))

find_mask-clear_entry :
    (w bits lo : ℕ) (it : WordMask) (rest : List WordMask)
    → Ascending (suc it.word) rest
    → find_mask w (clear_entry it bits rest)
      ≡ (if it.word == w then bit_and it.bits (not64 bits) else find_mask w (it ∷ rest))
find_mask-clear_entry w bits lo it rest a =
    let left = bit_and it.bits (not64 bits) in
    let entry : clear_entry it bits rest
        ≡ (if left == 0 then rest else record it { bits = left } ∷ rest) =
      unfold clear_entry in refl in
    rw
      (
        entry,
        find_mask-if w (left == 0) rest (record it { bits = left } ∷ rest),
        find_mask-step w (record it { bits = left }) rest,
        find_mask-step w it rest,
      )
      (ground (arith, find_mask-below w (suc it.word) rest a))

pub find_mask-clear_masks :
    (word bits lo w : ℕ) (masks : List WordMask)
    → Ascending lo masks
    → find_mask w (clear_masks word bits masks)
      ≡ (if word == w then bit_and (find_mask w masks) (not64 bits) else find_mask w masks)
find_mask-clear_masks word bits lo w [] a =
    unfold find_mask clear_masks in ground (arith, zero_and (not64 bits))
find_mask-clear_masks word bits lo w (it ∷ rest) a =
    rw
      (
        clear_masks-step word bits it rest,
        find_mask-if w (ltb it.word word) (it ∷ clear_masks word bits rest)
            (if it.word == word then clear_entry it bits rest else it ∷ rest),
        find_mask-if w (it.word == word) (clear_entry it bits rest) (it ∷ rest),
        find_mask-clear_entry w bits lo it rest a.3,
        find_mask-step w it (clear_masks word bits rest),
        find_mask-step w it rest,
      )
      (ground (
        arith,
        find_mask-clear_masks word bits (suc it.word) w rest a.3,
        find_mask-below w (suc it.word) rest a.3,
        zero_and (not64 bits),
      ))

pub set_masks-Ascending :
    (word bits lo : ℕ) (masks : List WordMask)
    → lo ≤ word
    → bits ≢ 0
    → IsWord bits
    → Ascending lo masks
    → Ascending lo (set_masks word bits masks)
set_masks-Ascending word bits lo [] le ne lt a = unfold set_masks in (le, ne, lt, tt)
set_masks-Ascending word bits lo (it ∷ rest) le ne lt a =
    rw (set_masks-step word bits it rest) (elim (tri it.word word) [
      | inl l ↦
          let test : ltb it.word word ≡ true = ground arith in
          rw test (
            a.0,
            a.1,
            a.2,
            set_masks-Ascending word bits (suc it.word) rest (omega arith) ne lt a.3,
          )
      | inr (inl e) ↦
          let t₁ : ltb it.word word ≡ false = ground arith in
          let t₂ : (it.word == word) ≡ true = ground arith in
          rw (t₁, t₂)
            (
              a.0,
              (λ z. ne (omega (arith, z, bit_or-ge it.bits bits))),
              bit_or-lt 64 it.bits bits a.2 lt,
              a.3,
            )
      | inr (inr g) ↦
          let t₁ : ltb it.word word ≡ false = ground arith in
          let t₂ : (it.word == word) ≡ false = ground arith in
          rw (t₁, t₂) (le, ne, lt, (omega arith, a.1, a.2, a.3))
    ])

clear_entry-Ascending :
    (bits lo : ℕ) (it : WordMask) (rest : List WordMask)
    → Ascending lo (it ∷ rest)
    → Ascending lo (clear_entry it bits rest)
unfolding clear_entry
clear_entry-Ascending bits lo it rest a = elim (Bool-cases (bit_and it.bits (not64 bits) == 0)) [
  | inl t ↦ rw t (Ascending-mono rest (omega (arith, a.0)) a.3)
  | inr t ↦ rw t (
    a.0,
    (let ne : bit_and it.bits (not64 bits) ≢ 0 = ground arith in ne),
    bit_and-lt 64 it.bits (not64 bits) (not64-IsWord bits),
    a.3,
  )
]

pub clear_masks-Ascending :
    (word bits lo : ℕ) (masks : List WordMask)
    → Ascending lo masks
    → Ascending lo (clear_masks word bits masks)
clear_masks-Ascending word bits lo [] a = unfold clear_masks in tt
clear_masks-Ascending word bits lo (it ∷ rest) a =
    rw (clear_masks-step word bits it rest) (elim (tri it.word word) [
      | inl l ↦
          let test : ltb it.word word ≡ true = ground arith in
          rw test (a.0, a.1, a.2, clear_masks-Ascending word bits (suc it.word) rest a.3)
      | inr (inl e) ↦
          let t₁ : ltb it.word word ≡ false = ground arith in
          let t₂ : (it.word == word) ≡ true = ground arith in
          rw (t₁, t₂) (clear_entry-Ascending bits lo it rest a)
      | inr (inr g) ↦
          let t₁ : ltb it.word word ≡ false = ground arith in
          let t₂ : (it.word == word) ≡ false = ground arith in rw (t₁, t₂) a
    ])

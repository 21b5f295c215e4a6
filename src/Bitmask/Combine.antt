-- ===== src/Bitmask/Combine.antt =====
-- `SetBits`, `ClearBits`, `operator|=` and `operator&=` of src/bitmask.cpp against the set of bits that a
-- `Bitmask` stands for.
use native.Mathlib.Decide.{ℕ_discrete}
use nldtool.Base.{
  ℕ, zero, suc, ◌+◌, ◌≤◌, ◌<◌, ◌≡◌, ◌≢◌, refl, arith, Bool, true, false, not, List, [], ◌∷◌,
  bit_and, bit_or, ltb, leb, ◌==◌, ◌&&◌, if◌then◌else◌, Bool-cases, inl, inr, ◌∙◌,
}
use nldtool.Bits.{bit, not64, IsWord, bit_and-lt, zero_and, or_zero, bit-bit_and, bit-not64}
use nldtool.Utils.{mask}
use nldtool.Utils.Windows.{bit-mask}
use nldtool.Bitmask.{
  WordMask, Bitmask, find_mask, get_word_mask, clear_bits, set_bits, last_word, and_loop, or_loop,
}
use nldtool.Bitmask.View.{
  Ascending, find_mask-below, find_mask-set_masks, find_mask-clear_masks, set_masks-Ascending,
  clear_masks-Ascending, find_mask-nil, find_mask-step,
}

-- What `CheckMask` asserts, and more: the masks are in order, and the object has a word's size.
abbrev pub IsBitmask : Bitmask → Type 0
IsBitmask m =
    (m.word_size ≤ 64) × (m.word_mask ≡ mask m.word_size) × IsWord m.word_mask × Ascending 0 m.masks

-- The same size and masks still in order.
abbrev pub SameShape : Bitmask → Bitmask → Type 0
SameShape m n = (n.word_size ≡ m.word_size) × (n.word_mask ≡ m.word_mask) × Ascending 0 n.masks

pub SameShape-IsBitmask : (m n : Bitmask) → IsBitmask m → SameShape m n → IsBitmask n
SameShape-IsBitmask m n w s = rw (s.0, s.1) (w.0, w.1, w.2, s.2)

-- For masks in order, `SetBits` adds the bits within the word mask to its word, and leaves the others.
pub set_bits-view :
    (m : Bitmask) (word bits w : ℕ)
    → Ascending 0 m.masks
    → get_word_mask (set_bits m word bits) w ≡ (
        if word == w
        then bit_or (get_word_mask m w) (bit_and bits m.word_mask)
        else get_word_mask m w)
unfolding set_bits get_word_mask
set_bits-view m word bits w a = elim (Bool-cases (bit_and bits m.word_mask == 0)) [
  | inl t ↦ rw t (ground (arith, or_zero (find_mask w m.masks)))
  | inr t ↦ rw t (find_mask-set_masks word (bit_and bits m.word_mask) 0 w m.masks a)
]

pub set_bits-SameShape :
    (m : Bitmask) (word bits : ℕ)
    → Ascending 0 m.masks
    → IsWord m.word_mask
    → SameShape m (set_bits m word bits)
unfolding set_bits
set_bits-SameShape m word bits a h = elim (Bool-cases (bit_and bits m.word_mask == 0)) [
  | inl t ↦ rw t (refl, refl, a)
  | inr t ↦
      let ne : bit_and bits m.word_mask ≢ 0 = ground arith in
      rw t (
        refl,
        refl,
        set_masks-Ascending word (bit_and bits m.word_mask) 0 m.masks (omega arith) ne
            (bit_and-lt 64 bits m.word_mask h) a,
      )
]

-- For masks in order, `ClearBits` takes the bits within the word mask from its word, and leaves the others.
pub clear_bits-view :
    (m : Bitmask) (word bits w : ℕ)
    → Ascending 0 m.masks
    → get_word_mask (clear_bits m word bits) w ≡ (
        if word == w
        then bit_and (get_word_mask m w) (not64 (bit_and bits m.word_mask))
        else get_word_mask m w)
unfolding clear_bits get_word_mask
clear_bits-view m word bits w a =
    find_mask-clear_masks word (bit_and bits m.word_mask) 0 w m.masks a

pub clear_bits-SameShape :
    (m : Bitmask) (word bits : ℕ) → Ascending 0 m.masks → SameShape m (clear_bits m word bits)
unfolding clear_bits
clear_bits-SameShape m word bits a =
    (refl, refl, clear_masks-Ascending word (bit_and bits m.word_mask) 0 m.masks a)

pub or_loop-view :
    (masks : List WordMask) (m : Bitmask) (lo w : ℕ)
    → Ascending lo masks
    → Ascending 0 m.masks
    → IsWord m.word_mask
    → (get_word_mask (or_loop masks m) w
        ≡ bit_or (get_word_mask m w) (bit_and (find_mask w masks) m.word_mask))
      × SameShape m (or_loop masks m)
unfolding or_loop
or_loop-view [] m lo w r a h = (
  ground (arith, or_zero (get_word_mask m w), zero_and m.word_mask, find_mask-nil w),
  (refl, refl, a),
)
or_loop-view (it ∷ rest) m lo w r a h =
    let next = set_bits m it.word it.bits in
    let s = set_bits-SameShape m it.word it.bits a h in
    let later = or_loop-view rest next (suc it.word) w r.3 s.2 (rw s.1 h) in
    (
      ground (
        arith,
        later.0,
        s.1,
        set_bits-view m it.word it.bits w a,
        find_mask-step w it rest,
        find_mask-below w (suc it.word) rest r.3,
        zero_and m.word_mask,
        or_zero (get_word_mask next w),
        or_zero (get_word_mask m w),
      ),
      (later.1.0 ∙ s.0, later.1.1 ∙ s.1, later.1.2),
    )

last_word-ge :
    (it : WordMask) (rest : List WordMask) (lo : ℕ)
    → Ascending lo (it ∷ rest)
    → lo ≤ last_word (it ∷ rest)
unfolding last_word
last_word-ge it [] lo a = a.0
last_word-ge it (next ∷ rest) lo a = omega (arith, a.0, last_word-ge next rest (suc it.word) a.3)

pub find_mask-above :
    (masks : List WordMask) (lo w : ℕ)
    → Ascending lo masks
    → last_word masks < w
    → find_mask w masks ≡ 0
unfolding last_word
find_mask-above [] lo w a h = find_mask-nil w
find_mask-above (it ∷ []) lo w a h = ground (arith, find_mask-step w it [], find_mask-nil w)
find_mask-above (it ∷ next ∷ rest) lo w a h = ground (
  arith,
  last_word-ge next rest (suc it.word) a.3,
  find_mask-step w it (next ∷ rest),
  find_mask-above (next ∷ rest) (suc it.word) w a.3 h,
)

-- What is left of word `w` in `m &= rhs`.
abbrev pub kept : Bitmask → Bitmask → ℕ → ℕ
kept m rhs w =
    bit_and (get_word_mask m w) (not64 (bit_and (not64 (get_word_mask rhs w)) m.word_mask))

pub and_loop-view :
    (left i w : ℕ) (m rhs : Bitmask)
    → Ascending 0 m.masks
    → (get_word_mask (and_loop left i m rhs) w
        ≡ (if leb i w && ltb w (i + left) then kept m rhs w else get_word_mask m w))
      × SameShape m (and_loop left i m rhs)
unfolding and_loop
and_loop-view zero i w m rhs a = (ground arith, (refl, refl, a))
and_loop-view (suc left) i w m rhs a =
    let bits = not64 (get_word_mask rhs i) in
    let next = clear_bits m i bits in
    let s = clear_bits-SameShape m i bits a in
    let later = and_loop-view left (i + 1) w next rhs s.2 in
    (
      elim (ℕ_discrete i w) [
        | yes e ↦ ground (arith, e, later.0, clear_bits-view m i bits w a)
        | no n ↦ ground (arith, later.0, s.1, clear_bits-view m i bits w a)
      ],
      (later.1.0 ∙ s.0, later.1.1 ∙ s.1, later.1.2),
    )

not-not_and : (a b : Bool) → (a && not (not b && true)) ≡ (a && b)
not-not_and a true = refl
not-not_and a false = refl

-- A bit of the mask `kept` is the conjunction, in a word of `m`.
pub kept-bit :
    (m rhs : Bitmask) (w b : ℕ)
    → m.word_size ≤ 64
    → m.word_mask ≡ mask m.word_size
    → IsWord m.word_mask
    → IsWord (get_word_mask rhs w)
    → b < m.word_size
    → bit (kept m rhs w) b ≡ (bit (get_word_mask m w) b && bit (get_word_mask rhs w) b)
kept-bit m rhs w b le e h r lt =
    let x = get_word_mask rhs w in
    let k = bit_and (not64 x) m.word_mask in
    let in_word : b < 64 = omega arith in
    let full : bit m.word_mask b ≡ true = rw (e, bit-mask m.word_size b le) (ground arith) in
    rw
      (
        bit-bit_and (get_word_mask m w) (not64 k) b,
        bit-not64 k b (bit_and-lt 64 (not64 x) m.word_mask h) in_word,
        bit-bit_and (not64 x) m.word_mask b,
        bit-not64 x b r in_word,
        full,
      )
      (not-not_and (bit (get_word_mask m w) b) (bit x b))

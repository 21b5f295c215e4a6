-- ===== src/Bitmask/Assign.antt =====
-- `operator&=` and `operator|=` of src/bitmask.cpp: the set of bits that the result stands for.
use nldtool.Base.{
  tri, ℕ, suc, ◌+◌, ◌<◌, ◌≡◌, refl, arith, Bool, true, false, List, [], ◌∷◌, ◌&&◌, ◌||◌, ap, ◌∙◌,
  max, bit_and, inl, inr,
}
use nldtool.Bits.{bit, not64, IsWord, bit-bit_and, bit-bit_or, zero_and}
use nldtool.Bitmask.{WordMask, Bitmask, find_mask, get_word_mask, last_word, and_assign, or_assign}
use nldtool.Utils.Windows.{bit-mask}
use nldtool.Bitmask.View.{Ascending, find_mask-nil, find_mask-step}
use nldtool.Bitmask.Combine.{
  IsBitmask, SameShape-IsBitmask, kept, kept-bit, and_loop-view, or_loop-view, find_mask-above,
}

find_mask-IsWord :
    (masks : List WordMask) (lo w : ℕ) → Ascending lo masks → IsWord (find_mask w masks)
find_mask-IsWord [] lo w a = omega (arith, find_mask-nil w)
find_mask-IsWord (it ∷ rest) lo w a =
    ground (arith, find_mask-step w it rest, find_mask-IsWord rest (suc it.word) w a.3)

-- The bit `b` of word `w` is selected.
abbrev pub selected : Bitmask → ℕ → ℕ → Bool
selected m w b = bit (get_word_mask m w) b

and_true : (a b : Bool) → (a || (b && true)) ≡ (a || b)
and_true a true = refl
and_true a false = refl

module _ (m rhs : Bitmask) (wm : IsBitmask m) (wr : IsBitmask rhs) where
  and_assign-kept : (w : ℕ) → get_word_mask (and_assign m rhs) w ≡ kept m rhs w
  unfolding and_assign
  and_assign-kept w =
      let last = max (last_word m.masks) (last_word rhs.masks) + 1 in
      let loop = and_loop-view last 0 w m rhs wm.3 in
      elim (tri w last) [
        | inl l ↦ ground (arith, loop.0)
        | inr g ↦
            let above : get_word_mask m w ≡ 0 =
              unfold get_word_mask in find_mask-above m.masks 0 w wm.3 (omega arith) in
            ground (
              arith,
              loop.0,
              above,
              zero_and (not64 (bit_and (not64 (get_word_mask rhs w)) m.word_mask)),
            )
      ]

  -- For two well-formed masks, `m &= rhs` is well formed and selects a bit of the word size just when
  -- both do.
  pub and_assign-IsBitmask :
      IsBitmask (and_assign m rhs)
      × ((w b : ℕ)
          → b < m.word_size
          → selected (and_assign m rhs) w b ≡ (selected m w b && selected rhs w b))
  and_assign-IsBitmask =
      let last = max (last_word m.masks) (last_word rhs.masks) + 1 in
      (
        SameShape-IsBitmask m (and_assign m rhs) wm
            (unfold and_assign in (and_loop-view last 0 0 m rhs wm.3).1),
        λ w b lt. rw (and_assign-kept w) (
            kept-bit m rhs w b wm.0 wm.1 wm.2
              (unfold get_word_mask in find_mask-IsWord rhs.masks 0 w wr.3) lt),
      )

  -- For two well-formed masks, `m |= rhs` is well formed and selects a bit of the word size just when
  -- one of them does.
  pub or_assign-IsBitmask :
      IsBitmask (or_assign m rhs)
      × ((w b : ℕ)
          → b < m.word_size
          → selected (or_assign m rhs) w b ≡ (selected m w b || selected rhs w b))
  unfolding or_assign get_word_mask
  or_assign-IsBitmask = (
    SameShape-IsBitmask m (or_assign m rhs) wm (or_loop-view rhs.masks m 0 0 wr.3 wm.3 wm.2).1,
    λ w b lt.
        let view = (or_loop-view rhs.masks m 0 w wr.3 wm.3 wm.2).0 in
        let full : bit m.word_mask b ≡ true =
          rw (wm.1, bit-mask m.word_size b wm.0) (ground arith) in
        ap (λ (t : ℕ). bit t b) view
        ∙ rw
            (
              bit-bit_or (find_mask w m.masks) (bit_and (find_mask w rhs.masks) m.word_mask) b,
              bit-bit_and (find_mask w rhs.masks) m.word_mask b,
              full,
            )
            (and_true (bit (find_mask w m.masks) b) (bit (find_mask w rhs.masks) b)),
  )

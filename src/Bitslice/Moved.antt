-- ===== src/Bitslice/Moved.antt =====
-- A condition of src/bitslice_data.h copied to a parameter of as many bits.
use nldtool.Base.{ℕ, ◌≤◌, ◌<◌, ◌≡◌, arith, ap, ◌∙◌, true, false, List, ◌==◌, if◌then◌else◌, length}
use native.Mathlib.Decide.{ℕ_discrete}
use nldtool.Bits.{word_ext}
use nldtool.Bitslice.{BitFunction, params, num_words, get_condition, set_condition}
use nldtool.Bitslice.Conditions.{
  IsBitFunction, bit-get_set, get_set_ne, bit-get_condition_ge, width,
}
use nldtool.Bitslice.Closure.{get_condition-IsWord}

module _ (f : BitFunction) (ok : IsBitFunction f) (cur tmp : List ℕ) (m n : ℕ)
    (long : num_words f ≤ length cur) (hm : m < params f) (hn : n < params f)
    (bits : f.bitsize m ≡ f.bitsize n) where
  pub get_set_copy :
      get_condition f (set_condition f cur m (get_condition f tmp n)) m ≡ get_condition f tmp n
  get_set_copy =
      let c = get_condition f tmp n in
      word_ext (get_condition f (set_condition f cur m c) m) c
        (get_condition-IsWord f (set_condition f cur m c) m) (get_condition-IsWord f tmp n)
        (λ b below. ground (
          arith,
          ap width bits,
          bit-get_set f ok cur m m c b long hm hm,
          bit-get_condition_ge f ok tmp n b hn,
        ))

  pub get-set_copied :
      (k : ℕ)
      → k < params f
      → get_condition f (set_condition f cur m (get_condition f tmp n)) k
        ≡ (if k == m then get_condition f tmp n else get_condition f cur k)
  get-set_copied k hk = elim (ℕ_discrete k m) [
    | yes e ↦
        let t : (k == m) ≡ true = ground arith in
        rw t (ap (get_condition f (set_condition f cur m (get_condition f tmp n))) e ∙ get_set_copy)
    | no ne ↦
        let t : (k == m) ≡ false = ground arith in
        rw t (get_set_ne f ok cur k m (get_condition f tmp n) long hk hm ne)
  ]

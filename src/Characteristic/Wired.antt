-- ===== src/Characteristic/Wired.antt =====
-- What src/characteristic.h, src/crypto.cpp and the `Init` of src/bitslice_step.h set up: steps, proxies and step updates
-- that fit together. `Touch` and `SetCondition` keep it.
use nldtool.Base.{
  ℕ, ◌+◌, ◌≤◌, ◌<◌, ◌≡◌, ◌≢◌, ◌⊎◌, refl, arith, sym, subst, List, [], ◌∷◌, length, inl, inr,
}
use mathlib.Core.List.{Memᴰ}
use mathlib.Core.List.Memᴰ
use nldtool.Bitslice.{params, num_words, propagate, get_condition}
use nldtool.Bitslice.Conditions.{IsBitFunction}
use nldtool.Characteristic.{
  StepUpdate, update_key, insert_update, Characteristic, touch_steps, Crypto,
}
use nldtool.Characteristic.Cells.{IsPlaced, Apart}
use nldtool.Characteristic.Queue.{insert-Memᴰ, Memᴰ-insert, length-insert, Memᴰ-insert_self}

-- The step update that `Init` makes for the bit `p` of the step `s`.
abbrev pub own : (ℕ → ℕ) → ℕ → ℕ → StepUpdate
own priority s p = record { priority = priority s; step = s; bit = p }

-- A step update of one of the steps and one of the bits of a word.
abbrev pub IsKnown : ℕ → ℕ → (ℕ → ℕ) → StepUpdate → Type 0
IsKnown steps word_size priority u =
    (u.step < steps) × (u.bit < word_size) × (u ≡ own priority u.step u.bit)

-- `n` proxies and the steps on them: a step reads distinct proxies of its parameters' bits at a bit of the word, each proxy has the updates of the steps
-- that read it, and the order of the set tells updates apart. `Compute` gives what `Propagate` gives.
pub record IsWired (crypto : Crypto) (n steps word_size : ℕ) (priority : ℕ → ℕ) : Type 0 where
  pub function_ok : (s : ℕ) → s < steps → IsBitFunction ((crypto.get_step s).function)
  pub computes :
      (s j : ℕ) (d : List ℕ)
      → s < steps
      → num_words ((crypto.get_step s).function) ≤ length d
      → j < params ((crypto.get_step s).function)
      → get_condition ((crypto.get_step s).function) ((crypto.get_step s).compute d) j
        ≡ get_condition
            ((crypto.get_step s).function)
            (propagate ((crypto.get_step s).function) d)
            j
  pub below :
      (s p i : ℕ)
      → s < steps
      → p < word_size
      → i < params ((crypto.get_step s).function)
      → (crypto.get_step s).condition_proxy i p < n
  pub bits :
      (s p i : ℕ)
      → s < steps
      → p < word_size
      → i < params ((crypto.get_step s).function)
      → (crypto.proxy ((crypto.get_step s).condition_proxy i p)).num_bits
        ≡ (crypto.get_step s).function.bitsize i
  pub distinct :
      (s p i j : ℕ)
      → s < steps
      → p < word_size
      → i < params ((crypto.get_step s).function)
      → j < params ((crypto.get_step s).function)
      → (crypto.get_step s).condition_proxy i p ≡ (crypto.get_step s).condition_proxy j p
      → i ≡ j
  pub registered :
      (s p i : ℕ)
      → s < steps
      → p < word_size
      → i < params ((crypto.get_step s).function)
      → Memᴰ
          (own priority s p)
          ((crypto.proxy ((crypto.get_step s).condition_proxy i p)).step_update_list)
  pub known :
      (k : ℕ) (u : StepUpdate)
      → k < n
      → Memᴰ u ((crypto.proxy k).step_update_list)
      → IsKnown steps word_size priority u
  pub keys :
      (u v : StepUpdate)
      → IsKnown steps word_size priority u
      → IsKnown steps word_size priority v
      → update_key u ≡ update_key v
      → u ≡ v

-- The proxies have places of their own in the containers, and the set has updates of the steps.
pub record IsLaidOut (crypto : Crypto) (n steps word_size : ℕ) (priority : ℕ → ℕ)
    (c : Characteristic) : Type 0 where
  pub placed : (k : ℕ) → k < n → IsPlaced c (crypto.proxy k)
  pub apart : (j k : ℕ) → j < n → k < n → j ≢ k → Apart c (crypto.proxy j) (crypto.proxy k)
  pub queued : (u : StepUpdate) → Memᴰ u (c.step_update_list) → IsKnown steps word_size priority u

-- `Touch` leaves the conditions as they are.
abbrev pub SameConditions : Characteristic → Characteristic → Type 0
SameConditions c e =
    (c.bit_conditions ≡ e.bit_conditions)
    × (c.bit_conditions2 ≡ e.bit_conditions2)
    × (c.bit_conditions3 ≡ e.bit_conditions3)

pub touch_steps-SameConditions :
    (steps : List StepUpdate) (c : Characteristic) → SameConditions (touch_steps steps c) c
unfolding touch_steps
touch_steps-SameConditions [] c = (refl, refl, refl)
touch_steps-SameConditions (u ∷ us) c = touch_steps-SameConditions us _

pub touch_steps-keeps :
    (steps : List StepUpdate) (c : Characteristic) (v : StepUpdate)
    → Memᴰ v (c.step_update_list)
    → Memᴰ v ((touch_steps steps c).step_update_list)
unfolding touch_steps
touch_steps-keeps [] c v m = m
touch_steps-keeps (u ∷ us) c v m = touch_steps-keeps us _ v (Memᴰ-insert u v (c.step_update_list) m)

pub touch_steps-Memᴰ :
    (steps : List StepUpdate) (c : Characteristic) (v : StepUpdate)
    → Memᴰ v ((touch_steps steps c).step_update_list)
    → Memᴰ v steps ⊎ Memᴰ v (c.step_update_list)
unfolding touch_steps
touch_steps-Memᴰ [] c v m = inr m
touch_steps-Memᴰ (u ∷ us) c v m = elim (touch_steps-Memᴰ us _ v m) [
  | inl k ↦ inl (Memᴰ.tail k)
  | inr k ↦ elim (insert-Memᴰ u v (c.step_update_list) k) [
    | inl e ↦ inl (Memᴰ.head e)
    | inr r ↦ inr r
  ]
]

pub length-touch_steps :
    (steps : List StepUpdate) (c : Characteristic)
    → length ((touch_steps steps c).step_update_list) ≤ length (c.step_update_list) + length steps
unfolding touch_steps
length-touch_steps [] c = omega arith
length-touch_steps (u ∷ us) c = omega (
  arith,
  length-touch_steps us (record c {
    step_update_list = insert_update u c.step_update_list;
    twobit_bitslice_update_mask =
        nldtool.Bitmask.set_pos c.twobit_bitslice_update_mask
          (record { word = u.step; bit_index = u.bit });
  }),
  length-insert u (c.step_update_list),
)

module _ (P : StepUpdate → Type 0)
    (keys : (u v : StepUpdate) → P u → P v → update_key u ≡ update_key v → u ≡ v) where
  pub touch_steps-adds :
      (steps : List StepUpdate) (c : Characteristic) (v : StepUpdate)
      → ((u : StepUpdate) → Memᴰ u steps → P u)
      → ((u : StepUpdate) → Memᴰ u (c.step_update_list) → P u)
      → Memᴰ v steps
      → Memᴰ v ((touch_steps steps c).step_update_list)
  unfolding touch_steps
  touch_steps-adds [] c v ps pl m = absurd (Memᴰ.not-nil m)
  touch_steps-adds (u ∷ us) c v ps pl m = elim (Memᴰ.cases_cons m) [
    | inl e ↦
        touch_steps-keeps us _ v
          (Memᴰ.cast e (Memᴰ-insert_self P keys u (c.step_update_list) (ps u (Memᴰ.head refl)) pl))
    | inr k ↦
        touch_steps-adds us _ v (λ w h. ps w (Memᴰ.tail h))
          (λ w h. elim (insert-Memᴰ u w (c.step_update_list) h) [
            | inl e ↦ subst P (sym e) (ps u (Memᴰ.head refl))
            | inr r ↦ pl w r
          ])
          k
  ]

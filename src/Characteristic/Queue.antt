-- ===== src/Characteristic/Queue.antt =====
-- The `std::set` of step updates of src/characteristic.h: what `insert` and `erase` do to its elements.
use nldtool.Base.{
  ◌+◌, ◌≤◌, ◌≡◌, ◌≢◌, ◌⊎◌, refl, arith, ap, sym, ◌∙◌, List, [], ◌∷◌, ◌||◌, Bool-cases, length, inl,
  inr,
}
use mathlib.Core.List.{Memᴰ}
use mathlib.Core.List.Memᴰ
use nldtool.Characteristic.{StepUpdate, update_key, update_less, insert_update, erase_update}

pub insert-Memᴰ :
    (u v : StepUpdate) (l : List StepUpdate) → Memᴰ v (insert_update u l) → (v ≡ u) ⊎ Memᴰ v l
unfolding insert_update
insert-Memᴰ u v [] m = elim (Memᴰ.cases_cons m) [ inl e ↦ inl e | inr k ↦ absurd (Memᴰ.not-nil k) ]
insert-Memᴰ u v (w ∷ ws) m = elim (Bool-cases (update_less u w)) [
  | inl t ↦ let m' = rw t at m in Memᴰ.cases_cons m'
  | inr t ↦ elim (Bool-cases (update_less w u)) [
    | inl s ↦
        let m' = rw (t, s) at m in
        elim (Memᴰ.cases_cons m') [
          | inl e ↦ inr (Memᴰ.head e)
          | inr k ↦ elim (insert-Memᴰ u v ws k) [ inl e ↦ inl e | inr r ↦ inr (Memᴰ.tail r) ]
        ]
    | inr s ↦ let m' = rw (t, s) at m in inr m'
  ]
]

pub Memᴰ-insert : (u v : StepUpdate) (l : List StepUpdate) → Memᴰ v l → Memᴰ v (insert_update u l)
unfolding insert_update
Memᴰ-insert u v [] m = absurd (Memᴰ.not-nil m)
Memᴰ-insert u v (w ∷ ws) m = elim (Bool-cases (update_less u w)) [
  | inl t ↦ rw t (Memᴰ.tail m)
  | inr t ↦ elim (Bool-cases (update_less w u)) [
    | inl s ↦
        rw (t, s)
          (elim (Memᴰ.cases_cons m) [
            | inl e ↦ Memᴰ.head e
            | inr k ↦ Memᴰ.tail (Memᴰ-insert u v ws k)
          ])
    | inr s ↦ rw (t, s) m
  ]
]

pub length-insert :
    (u : StepUpdate) (l : List StepUpdate) → length (insert_update u l) ≤ length l + 1
unfolding insert_update
length-insert u [] = omega arith
length-insert u (w ∷ ws) = elim (Bool-cases (update_less u w)) [
  | inl t ↦ rw t (omega arith)
  | inr t ↦ elim (Bool-cases (update_less w u)) [
    | inl s ↦ rw (t, s) (omega (arith, length-insert u ws))
    | inr s ↦ rw (t, s) (omega arith)
  ]
]

pub erase-Memᴰ : (u v : StepUpdate) (l : List StepUpdate) → Memᴰ v (erase_update u l) → Memᴰ v l
unfolding erase_update
erase-Memᴰ u v [] m = m
erase-Memᴰ u v (w ∷ ws) m = elim (Bool-cases (update_less u w || update_less w u)) [
  | inl t ↦
      let m' = rw t at m in
      elim (Memᴰ.cases_cons m') [ inl e ↦ Memᴰ.head e | inr k ↦ Memᴰ.tail (erase-Memᴰ u v ws k) ]
  | inr t ↦ let m' = rw t at m in Memᴰ.tail m'
]

pub Memᴰ-erase :
    (u v : StepUpdate) (l : List StepUpdate)
    → update_key v ≢ update_key u
    → Memᴰ v l
    → Memᴰ v (erase_update u l)
unfolding erase_update
Memᴰ-erase u v [] ne m = m
Memᴰ-erase u v (w ∷ ws) ne m = elim (Bool-cases (update_less u w || update_less w u)) [
  | inl t ↦ rw t (elim (Memᴰ.cases_cons m) [
    | inl e ↦ Memᴰ.head e
    | inr k ↦ Memᴰ.tail (Memᴰ-erase u v ws ne k)
  ])
  | inr t ↦ rw t (elim (Memᴰ.cases_cons m) [
    | inl e ↦
        let same : update_key u ≡ update_key w = ground (arith, t) in
        absurd (ne (ap (λ q. update_key q) e ∙ sym same))
    | inr k ↦ k
  ])
]

-- Erasing an element makes the set smaller.
pub length-erase :
    (u : StepUpdate) (l : List StepUpdate) → Memᴰ u l → length (erase_update u l) + 1 ≤ length l
unfolding erase_update
length-erase u [] m = absurd (Memᴰ.not-nil m)
length-erase u (w ∷ ws) m = elim (Bool-cases (update_less u w || update_less w u)) [
  | inl t ↦ rw t (elim (Memᴰ.cases_cons m) [
    | inl e ↦
        let same : update_key u ≡ update_key w = ap (λ q. update_key q) e in
        absurd (ground (arith, t, same))
    | inr k ↦ omega (arith, length-erase u ws k)
  ])
  | inr t ↦ rw t (omega arith)
]

module _ (P : StepUpdate → Type 0)
    (keys : (u v : StepUpdate) → P u → P v → update_key u ≡ update_key v → u ≡ v) where
  -- Where the key tells the elements apart, an element that was inserted is there.
  pub Memᴰ-insert_self :
      (u : StepUpdate) (l : List StepUpdate)
      → P u
      → ((v : StepUpdate) → Memᴰ v l → P v)
      → Memᴰ u (insert_update u l)
  unfolding insert_update
  Memᴰ-insert_self u [] p all = Memᴰ.head refl
  Memᴰ-insert_self u (w ∷ ws) p all = elim (Bool-cases (update_less u w)) [
    | inl t ↦ rw t (Memᴰ.head refl)
    | inr t ↦ elim (Bool-cases (update_less w u)) [
      | inl s ↦ rw (t, s) (Memᴰ.tail (Memᴰ-insert_self u ws p (λ v m. all v (Memᴰ.tail m))))
      | inr s ↦ rw (t, s) (Memᴰ.head (keys u w p (all w (Memᴰ.head refl)) (ground (arith, t, s))))
    ]
  ]

-- ===== src/Characteristic/Cells.antt =====
-- Proxies of src/container_condition_proxy.cpp over the containers of src/characteristic.h: reading after writing.
use nldtool.Base.{
  ℕ, zero, suc, ◌≤◌, ◌<◌, ◌≡◌, ◌≢◌, ◌⊎◌, refl, arith, ap, sym, ◌∙◌, true, false, ◌==◌,
  if◌then◌else◌, Bool-cases, length, length-set, get_or-set_self, get_or-set_ne, inl, inr,
}
use native.Mathlib.Decide.{ℕ_discrete}
use nldtool.Characteristic.{
  ConditionContainer, container_index, container_get, container_set, ConditionProxy, Characteristic,
  proxy_get, set_container_condition,
}

-- The container of a proxy.
abbrev pub container : Characteristic → ℕ → ConditionContainer
container c n =
    if n == 1 then c.bit_conditions else if n == 2 then c.bit_conditions2 else c.bit_conditions3

-- The proxy has one to three bits and a place in its container.
abbrev pub IsPlaced : Characteristic → ConditionProxy → Type 0
IsPlaced c cp =
    (1 ≤ cp.num_bits)
    × (cp.num_bits ≤ 3)
    × (container_index (container c cp.num_bits) cp.container_pos
        < length ((container c cp.num_bits).conditions))

-- Two proxies of different containers or of different places.
abbrev pub Apart : Characteristic → ConditionProxy → ConditionProxy → Type 0
Apart c cp cq =
    (cp.num_bits ≢ cq.num_bits)
    ⊎ (container_index (container c cp.num_bits) cp.container_pos
        ≢ container_index (container c cp.num_bits) cq.container_pos)

bits-cases : (n : ℕ) → 1 ≤ n → n ≤ 3 → (n ≡ 1) ⊎ ((n ≡ 2) ⊎ (n ≡ 3))
bits-cases zero h k = absurd (omega arith)
bits-cases (suc zero) h k = inl refl
bits-cases (suc (suc zero)) h k = inr (inl refl)
bits-cases (suc (suc (suc zero))) h k = inr (inr refl)
bits-cases (suc (suc (suc (suc n)))) h k = absurd (omega arith)

-- `GetCondition` reads the container.
proxy_get-container :
    (c : Characteristic) (cp : ConditionProxy)
    → 1 ≤ cp.num_bits
    → cp.num_bits ≤ 3
    → proxy_get cp c ≡ container_get (container c cp.num_bits) cp.container_pos
unfolding proxy_get
proxy_get-container c cp lo hi = elim (bits-cases cp.num_bits lo hi) [
  | inl e ↦ rw e refl
  | inr (inl e) ↦ rw e refl
  | inr (inr e) ↦ rw e refl
]

-- The containers after a write.
container-set :
    (c : Characteristic) (cp : ConditionProxy) (value n : ℕ)
    → 1 ≤ cp.num_bits
    → cp.num_bits ≤ 3
    → 1 ≤ n
    → n ≤ 3
    → container (set_container_condition cp value c) n ≡ (
        if cp.num_bits == n
        then container_set (container c n) cp.container_pos value
        else container c n)
unfolding set_container_condition
container-set c cp value n lo hi lo' hi' = elim (bits-cases cp.num_bits lo hi) [
  | inl e ↦ elim (bits-cases n lo' hi') [
    | inl k ↦ rw (e, k) refl
    | inr (inl k) ↦ rw (e, k) refl
    | inr (inr k) ↦ rw (e, k) refl
  ]
  | inr (inl e) ↦ elim (bits-cases n lo' hi') [
    | inl k ↦ rw (e, k) refl
    | inr (inl k) ↦ rw (e, k) refl
    | inr (inr k) ↦ rw (e, k) refl
  ]
  | inr (inr e) ↦ elim (bits-cases n lo' hi') [
    | inl k ↦ rw (e, k) refl
    | inr (inl k) ↦ rw (e, k) refl
    | inr (inr k) ↦ rw (e, k) refl
  ]
]

-- A write does not move or resize a container.
pub container-shape :
    (c : Characteristic) (cp : ConditionProxy) (value n : ℕ)
    → 1 ≤ cp.num_bits
    → cp.num_bits ≤ 3
    → 1 ≤ n
    → n ≤ 3
    → ((container (set_container_condition cp value c) n).log_of_word_size
        ≡ (container c n).log_of_word_size)
      × (length ((container (set_container_condition cp value c) n).conditions)
          ≡ length ((container c n).conditions))
unfolding container_set
container-shape c cp value n lo hi lo' hi' =
    let after = container-set c cp value n lo hi lo' hi' in
    elim (Bool-cases (cp.num_bits == n)) [
      | inl t ↦
          let after' = rw t at after in
          (
            ap (λ q. q.log_of_word_size) after',
            ap (λ q. length (q.conditions)) after'
                ∙ length-set ((container c n).conditions)
                    (container_index (container c n) cp.container_pos) value,
          )
      | inr e ↦
          let after' = rw e at after in
          (ap (λ q. q.log_of_word_size) after', ap (λ q. length (q.conditions)) after')
    ]

-- What was written is read.
pub proxy_get-set :
    (c : Characteristic) (cp : ConditionProxy) (value : ℕ)
    → IsPlaced c cp
    → proxy_get cp (set_container_condition cp value c) ≡ value
unfolding container_get container_set
proxy_get-set c cp value (lo, hi, inside) =
    let after = container-set c cp value cp.num_bits lo hi lo hi in
    let same : (cp.num_bits == cp.num_bits) ≡ true = ground arith in
    let after' = rw same at after in
    proxy_get-container (set_container_condition cp value c) cp lo hi
    ∙ ap (λ q. container_get q cp.container_pos) after'
    ∙ get_or-set_self ((container c cp.num_bits).conditions)
        (container_index (container c cp.num_bits) cp.container_pos) value 0 inside

-- Another proxy reads what was there.
pub proxy_get-set-Apart :
    (c : Characteristic) (cp cq : ConditionProxy) (value : ℕ)
    → IsPlaced c cp
    → IsPlaced c cq
    → Apart c cp cq
    → proxy_get cq (set_container_condition cp value c) ≡ proxy_get cq c
unfolding container_get container_set
proxy_get-set-Apart c cp cq value (lo, hi, inside) (lo', hi', inside') apart =
    let after = container-set c cp value cq.num_bits lo hi lo' hi' in
    let start = proxy_get-container (set_container_condition cp value c) cq lo' hi' in
    let end = sym (proxy_get-container c cq lo' hi') in
    elim (ℕ_discrete cp.num_bits cq.num_bits) [
      | no ne ↦
          let differ : (cp.num_bits == cq.num_bits) ≡ false = ground arith in
          let after' = rw differ at after in
          start ∙ ap (λ q. container_get q cq.container_pos) after' ∙ end
      | yes e ↦
          let same : (cp.num_bits == cq.num_bits) ≡ true = ground arith in
          let after' = rw same at after in
          let places : container_index (container c cq.num_bits) cp.container_pos
              ≢ container_index (container c cq.num_bits) cq.container_pos =
            elim apart [
              | inl differ ↦ absurd (differ e)
              | inr differ ↦ λ h. differ (
                  ap (λ n. container_index (container c n) cp.container_pos) e
                  ∙ h
                  ∙ sym (ap (λ n. container_index (container c n) cq.container_pos) e))
            ] in
          start
          ∙ ap (λ q. container_get q cq.container_pos) after'
          ∙ get_or-set_ne ((container c cq.num_bits).conditions)
              (container_index (container c cq.num_bits) cp.container_pos)
              (container_index (container c cq.num_bits) cq.container_pos) value 0 places
          ∙ end
    ]

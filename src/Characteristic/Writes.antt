-- ===== src/Characteristic/Writes.antt =====
-- `SetCondition` of src/container_condition_proxy.cpp on one of the proxies of a characteristic.
use nldtool.Base.{
  ℕ, ◌+◌, ◌≤◌, ◌<◌, ◌≡◌, ◌≢◌, ◌⊎◌, refl, arith, ap, sym, ◌∙◌, subst, Bool, true, false, ◌==◌,
  Bool-cases, length, inl, inr, bit_or,
}
use native.Mathlib.Decide.{ℕ_discrete}
use mathlib.Core.List.{Memᴰ}
use nldtool.Bits.{shl}
use nldtool.Characteristic.{
  StepUpdate, ConditionProxy, Characteristic, touch, touch_steps, proxy_get,
  set_container_condition, converted, proxy_set, Crypto,
}
use nldtool.Characteristic.Cells.{container, container-shape, proxy_get-set, proxy_get-set-Apart}
use nldtool.Characteristic.Wired.{
  IsKnown, IsWired, IsLaidOut, SameConditions, touch_steps-SameConditions, touch_steps-keeps,
  touch_steps-Memᴰ, length-touch_steps, touch_steps-adds,
}

-- Containers that agree in shape.
SameShape : Characteristic → Characteristic → Type 0
SameShape c e =
    (m : ℕ)
    → 1 ≤ m
    → m ≤ 3
    → ((container c m).log_of_word_size ≡ (container e m).log_of_word_size)
      × (length ((container c m).conditions) ≡ length ((container e m).conditions))

container-same :
    (c e : Characteristic) → SameConditions c e → (m : ℕ) → container c m ≡ container e m
container-same c e (h1, h2, h3) m = rw (h1, h2, h3) refl

pub proxy_get-same :
    (cp : ConditionProxy) (c e : Characteristic)
    → SameConditions c e
    → proxy_get cp c ≡ proxy_get cp e
unfolding proxy_get
proxy_get-same cp c e (h1, h2, h3) = rw (h1, h2, h3) refl

module _ (crypto : Crypto) (n steps word_size : ℕ) (priority : ℕ → ℕ) where
  abbrev pub LaidOut : Characteristic → Type 0
  LaidOut c = IsLaidOut crypto n steps word_size priority c

  -- The layout depends on the shape of the containers only.
  reshaped :
      (c e : Characteristic)
      → SameShape e c
      → ((u : StepUpdate) → Memᴰ u (e.step_update_list) → IsKnown steps word_size priority u)
      → LaidOut c
      → LaidOut e
  unfolding SameShape
  reshaped c e shape queued l = record {
    placed = λ k hk.
        let (lo, hi, inside) = l.placed k hk in
        let m = (crypto.proxy k).num_bits in
        let pos = (crypto.proxy k).container_pos in
        let (log, long) = shape m lo hi in
        (
          lo,
          hi,
          subst (λ g. bit_or (shl pos.word g) pos.bit_index < length ((container e m).conditions))
              (sym log) (omega (arith, inside, long)),
        );
    apart = λ j k hj hk ne.
        let (lo, hi, inside) = l.placed j hj in
        let m = (crypto.proxy j).num_bits in
        let pos = (crypto.proxy j).container_pos in
        let other = (crypto.proxy k).container_pos in
        let (log, long) = shape m lo hi in
        elim (l.apart j k hj hk ne) [
          | inl differ ↦ inl differ
          | inr differ ↦ inr (
              subst
                (λ g.
                  bit_or (shl pos.word g) pos.bit_index ≢ bit_or (shl other.word g) other.bit_index)
                (sym log) differ)
        ];
    queued = queued;
  }

  -- What `SetCondition` leaves: the value at its proxy, the others as they were, the proxy's steps in the set if it has
  -- changed, and false only for the value zero.
  pub record IsWritten (c : Characteristic) (k value : ℕ) (r : Characteristic × Bool) : Type 0 where
    pub laid_out : LaidOut r.0
    pub at : proxy_get (crypto.proxy k) r.0 ≡ value
    pub others :
        (j : ℕ) → j < n → j ≢ k → proxy_get (crypto.proxy j) r.0 ≡ proxy_get (crypto.proxy j) c
    pub keeps : (u : StepUpdate) → Memᴰ u (c.step_update_list) → Memᴰ u (r.0.step_update_list)
    pub touched :
        (u : StepUpdate)
        → Memᴰ u ((crypto.proxy k).step_update_list)
        → (proxy_get (crypto.proxy k) c ≡ value) ⊎ Memᴰ u (r.0.step_update_list)
    pub grows :
        ((proxy_get (crypto.proxy k) c ≡ value)
          × (length (r.0.step_update_list) ≡ length (c.step_update_list)))
        ⊎ ((proxy_get (crypto.proxy k) c ≢ value)
            × (length (r.0.step_update_list)
                ≤ length (c.step_update_list) + length ((crypto.proxy k).step_update_list)))
    pub fails : r.1 ≡ false → value ≡ 0

  module _ (w : IsWired crypto n steps word_size priority) where
    pub touch-LaidOut :
        (c : Characteristic) (k : ℕ) → k < n → LaidOut c → LaidOut (touch (crypto.proxy k) c)
    unfolding touch SameShape
    touch-LaidOut c k hk l =
        let list = (crypto.proxy k).step_update_list in
        reshaped c (touch_steps list c)
          (λ m lo hi.
            let same =
              container-same (touch_steps list c) c (touch_steps-SameConditions list c) m in
            (ap (λ q. q.log_of_word_size) same, ap (λ q. length (q.conditions)) same))
          (λ u m. elim (touch_steps-Memᴰ list c u m) [
            | inl h ↦ w.known k u hk h
            | inr h ↦ l.queued u h
          ])
          l

    queue-set :
        (cp : ConditionProxy) (value : ℕ) (c : Characteristic)
        → (set_container_condition cp value c).step_update_list ≡ c.step_update_list
    unfolding set_container_condition
    queue-set cp value c = elim (Bool-cases (cp.num_bits == 1)) [
      | inl t ↦ rw t refl
      | inr t ↦ elim (Bool-cases (cp.num_bits == 2)) [
        | inl s ↦ rw (t, s) refl
        | inr s ↦ elim (Bool-cases (cp.num_bits == 3)) [
          | inl q ↦ rw (t, s, q) refl
          | inr q ↦ rw (t, s, q) refl
        ]
      ]
    ]

    pub proxy_set-IsWritten :
        (c : Characteristic) (k value : ℕ)
        → k < n
        → converted (crypto.proxy k).num_bits value ≡ value
        → LaidOut c
        → IsWritten c k value (proxy_set (crypto.proxy k) value c)
    unfolding proxy_set touch SameShape
    proxy_set-IsWritten c k value hk fit l =
        elim (ℕ_discrete (proxy_get (crypto.proxy k) c) value) [
          | yes e ↦
              let t : (proxy_get (crypto.proxy k) c == value) ≡ true = ground arith in
              rw t record {
                laid_out = l;
                at = e;
                others = λ j hj ne. refl;
                keeps = λ u m. m;
                touched = λ u m. inl e;
                grows = inl (e, refl);
                fails = λ h. absurd (ground (arith, h));
              }
          | no ne ↦
              let t : (proxy_get (crypto.proxy k) c == value) ≡ false = ground arith in
              let cp = crypto.proxy k in
              let list = cp.step_update_list in
              let mid = touch_steps list c in
              let l' = touch-LaidOut c k hk l in
              let end = set_container_condition cp value mid in
              let queue = queue-set cp value mid in
              let (lo, hi, inside) = l'.placed k hk in
              rw (t, fit)
                record {
                  laid_out =
                      reshaped mid end (λ m lo' hi'. container-shape mid cp value m lo hi lo' hi')
                        (λ u m. l'.queued u (subst (Memᴰ u) queue m)) l';
                  at = proxy_get-set mid cp value (l'.placed k hk);
                  others = λ j hj ne'.
                      proxy_get-set-Apart mid cp (crypto.proxy j) value (l'.placed k hk)
                        (l'.placed j hj) (l'.apart k j hk hj (λ q. ne' (sym q)))
                      ∙ proxy_get-same (crypto.proxy j) mid c (touch_steps-SameConditions list c);
                  keeps = λ u m. subst (Memᴰ u) (sym queue) (touch_steps-keeps list c u m);
                  touched = λ u m. inr (
                      subst (Memᴰ u) (sym queue) (
                        touch_steps-adds (IsKnown steps word_size priority) w.keys list c u
                          (λ v h. w.known k v hk h) l.queued m));
                  grows = inr (ne, omega (arith, ap length queue, length-touch_steps list c));
                  fails = λ h. ground (arith, h);
                }
        ]

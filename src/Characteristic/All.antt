-- ===== src/Characteristic/All.antt =====
-- `UpdateAll` of src/characteristic.cpp: whatever the set of step updates was, all steps run until they are settled.
use nldtool.Base.{ℕ, zero, suc, ◌+◌, ◌*◌, ◌≤◌, ◌<◌, ◌≡◌, arith, subst, Bool, some, length, inr}
use native.Mathlib.Decide.{ℕ_discrete}
use mathlib.Core.List.{Memᴰ}
use nldtool.Characteristic.{StepUpdate, Characteristic, Crypto, touch, touch_all, update_all}
use nldtool.Characteristic.Wired.{
  own, IsKnown, IsWired, touch_steps-keeps, touch_steps-adds, length-touch_steps,
  touch_steps-SameConditions,
}
use nldtool.Characteristic.Writes.{LaidOut, touch-LaidOut, proxy_get-same}
use nldtool.Characteristic.Potential.{potential, sum_same}
use nldtool.Characteristic.Update.{IsPending, Outcome, update-Outcome}

module _ (crypto : Crypto) (n steps word_size : ℕ) (priority : ℕ → ℕ)
    (w : IsWired crypto n steps word_size priority) where
  touch_all-LaidOut :
      (left k : ℕ) (c : Characteristic)
      → k + left ≤ n
      → LaidOut crypto n steps word_size priority c
      → LaidOut crypto n steps word_size priority (touch_all crypto left k c)
  unfolding touch_all
  touch_all-LaidOut zero k c h l = l
  touch_all-LaidOut (suc left) k c h l =
      touch_all-LaidOut left (k + 1) (touch (crypto.proxy k) c) (omega arith)
        (touch-LaidOut crypto n steps word_size priority w c k (omega arith) l)

  touch_all-keeps :
      (left k : ℕ) (c : Characteristic) (u : StepUpdate)
      → Memᴰ u (c.step_update_list)
      → Memᴰ u ((touch_all crypto left k c).step_update_list)
  unfolding touch_all touch
  touch_all-keeps zero k c u m = m
  touch_all-keeps (suc left) k c u m =
      touch_all-keeps left (k + 1) (touch (crypto.proxy k) c) u
        (touch_steps-keeps ((crypto.proxy k).step_update_list) c u m)

  -- The steps of each proxy are in the set.
  touch_all-adds :
      (left k j : ℕ) (c : Characteristic) (u : StepUpdate)
      → k + left ≤ n
      → k ≤ j
      → j < k + left
      → LaidOut crypto n steps word_size priority c
      → Memᴰ u ((crypto.proxy j).step_update_list)
      → Memᴰ u ((touch_all crypto left k c).step_update_list)
  unfolding touch_all touch
  touch_all-adds zero k j c u h le lt l m = absurd (omega arith)
  touch_all-adds (suc left) k j c u h le lt l m = elim (ℕ_discrete j k) [
    | yes e ↦ touch_all-keeps left (k + 1) (touch (crypto.proxy k) c) u (
        touch_steps-adds (IsKnown steps word_size priority) w.keys
          ((crypto.proxy k).step_update_list) c u (λ v h'. w.known k v (omega arith) h') l.queued
          (subst (λ x. Memᴰ u ((crypto.proxy x).step_update_list)) e m))
    | no ne ↦
        touch_all-adds left (k + 1) j (touch (crypto.proxy k) c) u (omega arith) (omega arith)
          (omega arith) (touch-LaidOut crypto n steps word_size priority w c k (omega arith) l) m
  ]

  module _ (most : ℕ)
      (few : (k : ℕ) → k < n → length ((crypto.proxy k).step_update_list) ≤ most) where
    touch_all-potential :
        (left k : ℕ) (c : Characteristic)
        → k + left ≤ n
        → potential crypto n most (touch_all crypto left k c)
          ≤ potential crypto n most c + left * most
    unfolding touch_all touch
    touch_all-potential zero k c h = omega arith
    touch_all-potential (suc left) k c h =
        let next = touch (crypto.proxy k) c in
        let list = (crypto.proxy k).step_update_list in
        let rest = touch_all-potential left (k + 1) next (omega arith) in
        let same =
          sum_same crypto c next n
            (λ j hj. proxy_get-same (crypto.proxy j) next c (touch_steps-SameConditions list c)) in
        let more = length-touch_steps list c in
        let bound = few k (omega arith) in
        let one : potential crypto n most next ≤ potential crypto n most c + most =
          rw same (omega (arith, more, bound)) in
        omega (arith, rest, one)

    -- For steps and proxies that fit together, each proxy of as many bits as the parameters it stands for, priorities up
    -- to the limit and fuel for the conditions, the step updates that are there and those of the proxies, `UpdateAll`
    -- returns. It returns true with every step settled:
    -- propagating its function once more at any bit changes none of the conditions it reads. It returns false with a
    -- condition that is zero.
    pub update_all-Outcome :
        (fuel limit : ℕ) (c : Characteristic)
        → ((s : ℕ) → s < steps → priority s ≤ limit)
        → LaidOut crypto n steps word_size priority c
        → potential crypto n most c + n * most < fuel
        → (r : Characteristic × Bool) × (update_all crypto n fuel limit c ≡ some r)
          × Outcome crypto n steps word_size priority w most few r
    unfolding update_all
    update_all-Outcome fuel limit c low l enough =
        let start = touch_all crypto n 0 c in
        let pending : IsPending crypto n steps word_size priority w most few start = λ t q ht hq.
          let some_param = (w.function_ok t ht).some_input in
          let first = w.below t q 0 ht hq (omega (arith, some_param)) in
          inr (
            touch_all-adds n 0 ((crypto.get_step t).condition_proxy 0 q) c (own priority t q)
              (omega arith) (omega arith) (omega (arith, first)) l
              (w.registered t q 0 ht hq (omega (arith, some_param)))) in
        update-Outcome crypto n steps word_size priority w most few fuel limit start low
          (touch_all-LaidOut n 0 c (omega arith) l) pending
          (omega (arith, touch_all-potential n 0 c (omega arith), enough))

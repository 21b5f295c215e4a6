-- ===== src/Characteristic.antt =====
-- src/characteristic.h and src/characteristic.cpp with what they work on: src/condition_container.h, src/step_update.h,
-- src/container_condition_proxy.cpp, and Update of src/bitslice_step.h. All steps are bitslice steps: the data of linear
-- steps, whose `PropagateConditions` is the only one that does more than return true, is not modelled. A proxy stands for
-- shared memory: steps name it by its number.
pub mod Cells
pub mod Queue
pub mod Wired
pub mod Converted
pub mod Writes
pub mod Steps
pub mod Potential
pub mod Runs
pub mod Settles
pub mod Update
pub mod All
use nldtool.Base.{
  ℕ, zero, suc, ◌+◌, ◌*◌, ◌%◌, bit_and, Bool, true, false, List, [], ◌∷◌, Option, none, some,
  bit_or, ◌==◌, ◌&&◌, ◌||◌, not, ltb, if◌then◌else◌, get_or, set,
}
use nldtool.Bits.{shl}
use nldtool.Bitmask.{Bitmask, Bitpos, set_pos}
use nldtool.Bitslice.{BitFunction, params, no_conditions}
use nldtool.Bitslice as Bitslice

-- `ConditionContainer`, of which the values are in a list.
pub record ConditionContainer : Type 0 where
  pub log_of_word_size : ℕ
  pub conditions : List ℕ

abbrev pub container_index : ConditionContainer → Bitpos → ℕ
container_index container pos = bit_or (shl pos.word container.log_of_word_size) pos.bit_index

-- `GetCondition(pos)` and `SetCondition(pos, condition)` of the container.
unfoldable pub container_get : ConditionContainer → Bitpos → ℕ
container_get container pos = get_or container.conditions (container_index container pos) 0

unfoldable pub container_set : ConditionContainer → Bitpos → ℕ → ConditionContainer
container_set container pos condition = record container {
  conditions = set container.conditions (container_index container pos) condition;
}

-- `StepUpdate` and its `operator<`.
pub record StepUpdate : Type 0 where
  pub priority : ℕ
  pub step : ℕ
  pub bit : ℕ

abbrev pub update_key : StepUpdate → ℕ
update_key u = bit_or (bit_or (shl u.priority 32) (shl u.step 16)) u.bit

abbrev pub update_less : StepUpdate → StepUpdate → Bool
update_less u v = ltb (update_key u) (update_key v)

-- `insert` and `erase` of the `std::set` of step updates, kept in order.
unfoldable pub insert_update : StepUpdate → List StepUpdate → List StepUpdate
insert_update u [] = u ∷ []
insert_update u (v ∷ vs) =
    if update_less u v
    then u ∷ v ∷ vs
    else if update_less v u
    then v ∷ insert_update u vs
    else v ∷ vs

unfoldable pub erase_update : StepUpdate → List StepUpdate → List StepUpdate
erase_update u [] = []
erase_update u (v ∷ vs) = if update_less u v || update_less v u then v ∷ erase_update u vs else vs

-- `ContainerConditionProxy`.
pub record ConditionProxy : Type 0 where
  pub num_bits : ℕ
  pub container_pos : Bitpos
  pub step_update_list : List StepUpdate

pub record Characteristic : Type 0 where
  pub bit_conditions : ConditionContainer
  pub bit_conditions2 : ConditionContainer
  pub bit_conditions3 : ConditionContainer
  pub step_update_list : List StepUpdate
  pub twobit_bitslice_update_mask : Bitmask

-- `Touch(cp)`, on the steps of the proxy.
unfoldable pub touch_steps : List StepUpdate → Characteristic → Characteristic
touch_steps [] c = c
touch_steps (pos ∷ steps) c = touch_steps steps (record c {
  step_update_list = insert_update pos c.step_update_list;
  twobit_bitslice_update_mask =
      set_pos c.twobit_bitslice_update_mask (record { word = pos.step; bit_index = pos.bit });
})

unfoldable pub touch : ConditionProxy → Characteristic → Characteristic
touch cp c = touch_steps (cp.step_update_list) c

-- `GetCondition(characteristic)` of the proxy.
unfoldable pub proxy_get : ConditionProxy → Characteristic → ℕ
proxy_get cp c =
    if cp.num_bits == 1
    then container_get c.bit_conditions cp.container_pos
    else if cp.num_bits == 2
    then container_get c.bit_conditions2 cp.container_pos
    else if cp.num_bits == 3
    then container_get c.bit_conditions3 cp.container_pos
    else 0

-- `SetContainerCondition1` and its kin, by the number of bits.
unfoldable pub set_container_condition : ConditionProxy → ℕ → Characteristic → Characteristic
set_container_condition cp value c =
    if cp.num_bits == 1
    then record c { bit_conditions = container_set c.bit_conditions cp.container_pos value }
    else if cp.num_bits == 2
    then record c { bit_conditions2 = container_set c.bit_conditions2 cp.container_pos value }
    else if cp.num_bits == 3
    then record c { bit_conditions3 = container_set c.bit_conditions3 cp.container_pos value }
    else c

-- `Condition<1>(value)`, `Condition<2>(value)` and `Condition<3>(value)`, whose arguments are of 8, 16 and 64 bits.
unfoldable pub converted : ℕ → ℕ → ℕ
converted num_bits value =
    if num_bits == 1
    then bit_and (value % 256) 0xf
    else if num_bits == 2
    then bit_and (value % 65536) 0xffff
    else value

-- `SetCondition(characteristic, value)` of the proxy.
unfoldable pub proxy_set : ConditionProxy → ℕ → Characteristic → Characteristic × Bool
proxy_set cp value c = if proxy_get cp c == value then (c, true) else (
  set_container_condition cp (converted cp.num_bits value) (touch cp c),
  not (converted cp.num_bits value == 0),
)

-- `*begin()`, where the set is not empty.
unfoldable pub first_update : List StepUpdate → Option StepUpdate
first_update [] = none
first_update (u ∷ us) = some u

-- `erase(pos)` on the characteristic.
abbrev pub erased : StepUpdate → Characteristic → Characteristic
erased pos c = record c { step_update_list = erase_update pos (c.step_update_list) }

-- A bitslice step: its function, what `Bitslice<F>::Compute` gives, and `GetConditionProxy(i, bit)`.
pub record BitsliceStep : Type 0 where
  pub function : BitFunction
  pub compute : List ℕ → List ℕ
  pub condition_proxy : ℕ → ℕ → ℕ

-- `Crypto`: the proxies and the steps.
pub record Crypto : Type 0 where
  pub proxy : ℕ → ConditionProxy
  pub get_step : ℕ → BitsliceStep

module _ (crypto : Crypto) where
  -- The loops of `Update(characteristic, pos)` of the step, over the parameters from `i` on.
  unfoldable pub input_from : BitsliceStep → ℕ → Characteristic → ℕ → ℕ → List ℕ → List ℕ
  input_from st pos c zero i input = input
  input_from st pos c (suc left) i input = input_from st pos c left (i + 1) (
      Bitslice.set_condition st.function input i
        (proxy_get (crypto.proxy (st.condition_proxy i pos)) c))

  unfoldable pub output_from :
      BitsliceStep → ℕ → List ℕ → ℕ → ℕ → Characteristic → Characteristic × Bool
  output_from st pos output zero i c = (c, true)
  output_from st pos output (suc left) i c =
      let done =
        proxy_set (crypto.proxy (st.condition_proxy i pos))
          (Bitslice.get_condition st.function output i) c in
      let rest = output_from st pos output left (i + 1) done.0 in (rest.0, done.1 && rest.1)

  unfoldable pub step_update : BitsliceStep → ℕ → Characteristic → Characteristic × Bool
  step_update st pos c =
      let num = params st.function in
      let input = input_from st pos c num 0 (no_conditions st.function) in
      output_from st pos (st.compute input) num 0 c

  -- `Update(backtrack, priority)`, with fuel; without fuel there is no result.
  unfoldable pub update : ℕ → ℕ → Characteristic → Option (Characteristic × Bool)
  update zero priority c = none
  update (suc fuel) priority c = elim (first_update (c.step_update_list)) [
    | none ↦ some (c, true)
    | some pos ↦
        let next =
          if ltb priority pos.priority
          then (erased pos c, true)
          else (let done = step_update (crypto.get_step pos.step) pos.bit c in
              (erased pos done.0, done.1)) in
        let later = update fuel priority next.0 in if next.1 then later else some next
  ]

  -- `UpdateAll()` over the proxies from `k` on; the loops of the source go through the words and their bits.
  unfoldable pub touch_all : ℕ → ℕ → Characteristic → Characteristic
  touch_all zero k c = c
  touch_all (suc left) k c = touch_all left (k + 1) (touch (crypto.proxy k) c)

  unfoldable pub update_all : ℕ → ℕ → ℕ → Characteristic → Option (Characteristic × Bool)
  update_all n fuel priority c = update fuel priority (touch_all n 0 c)

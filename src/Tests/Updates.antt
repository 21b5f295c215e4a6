-- ===== src/Tests/Updates.antt =====
-- src/characteristic.cpp with one step, the exclusive or of two bits.
use nldtool.Base.{ℕ, ◌+◌, ◌*◌, ◌<◌, ◌≡◌, refl, arith, ap, sym, ◌∙◌, Bool, [], ◌∷◌, some, inr}
use mathlib.Core.List.{Memᴰ}
use mathlib.Core.List.Memᴰ
use nldtool.Bits.{shl, bit_or-zero}
use nldtool.Bitslice.{propagate}
use nldtool.Bitslice.Conditions.{IsBitFunction}
use nldtool.Bitslice.Classes.{xor_class}
use nldtool.Bitslice.Bitwise.{xor-IsBitFunction}
use nldtool.Characteristic.{
  StepUpdate, ConditionProxy, Characteristic, BitsliceStep, Crypto, update, update_all,
}
use nldtool.Characteristic.Wired.{own, IsWired, IsLaidOut}
use nldtool.Characteristic.Potential.{potential}
use nldtool.Characteristic.Update.{IsPending, Outcome, update-Outcome}
use nldtool.Characteristic.All.{update_all-Outcome}

xor2_ok : IsBitFunction (xor_class 2)
xor2_ok = xor-IsBitFunction 1 2 (omega arith) (omega arith) (omega arith)

abbrev first_priority : ℕ → ℕ
first_priority s = 0

abbrev only_update : StepUpdate
only_update = own first_priority 0 0

abbrev proxy_at : ℕ → ConditionProxy
proxy_at k = record {
  num_bits = 1;
  container_pos = record { word = 0; bit_index = k };
  step_update_list = only_update ∷ [];
}

abbrev xor_step : BitsliceStep
xor_step = record {
  function = xor_class 2;
  compute = propagate (xor_class 2);
  condition_proxy = λ i bit. i;
}

abbrev xor_crypto : Crypto
xor_crypto = record { proxy = proxy_at; get_step = λ s. xor_step }

-- The inputs have no difference, the output may have any values.
abbrev start : Characteristic
start = record {
  bit_conditions = record { log_of_word_size = 2; conditions = 9 ∷ 9 ∷ 15 ∷ [] };
  bit_conditions2 = record { log_of_word_size = 2; conditions = [] };
  bit_conditions3 = record { log_of_word_size = 2; conditions = [] };
  step_update_list = [];
  twobit_bitslice_update_mask = record { word_size = 1; word_mask = 1; masks = [] };
}

xor-IsWired : IsWired xor_crypto 3 1 1 first_priority
xor-IsWired = record {
  function_ok = λ s hs. xor2_ok;
  computes = λ s j d hs long hj. refl;
  below = λ s p i hs hp hi. hi;
  bits = λ s p i hs hp hi. refl;
  distinct = λ s p i j hs hp hi hj e. e;
  registered = λ s p i hs hp hi.
      let step_zero : s ≡ 0 = omega arith in
      let bit_zero : p ≡ 0 = omega arith in rw (step_zero, bit_zero) (Memᴰ.head refl);
  known = λ k u hk m.
      let e = Memᴰ.eq_of_singleton m in
      (
        omega (arith, ap (λ (v : StepUpdate). v.step) e),
        omega (arith, ap (λ (v : StepUpdate). v.bit) e),
        rw e refl,
      );
  keys = λ u v hu hv e.
      let steps : u.step ≡ v.step = omega (arith, hu.0, hv.0) in
      let bits : u.bit ≡ v.bit = omega (arith, hu.1, hv.1) in
      hu.2
      ∙ ap (λ s. own first_priority s u.bit) steps
      ∙ ap (λ b. own first_priority v.step b) bits
      ∙ sym hv.2;
}

xor-IsLaidOut : IsLaidOut xor_crypto 3 1 1 first_priority start
unfolding shl
xor-IsLaidOut = record {
  placed = λ k hk. (omega arith, omega arith, rw (bit_or-zero k) hk);
  apart = λ j k hj hk ne. inr (rw (bit_or-zero j, bit_or-zero k) ne);
  queued = λ u m. absurd (Memᴰ.not-nil m);
}

enough_fuel : potential xor_crypto 3 1 start + 3 * 1 < 400
unfolding nldtool.Characteristic.Potential.sum_cells nldtool.Characteristic.proxy_get
    nldtool.Characteristic.container_get shl
enough_fuel = omega arith

update_all-Outcome_example :
    (r : Characteristic × Bool) × (update_all xor_crypto 3 400 10000 start ≡ some r)
    × Outcome xor_crypto 3 1 1 first_priority xor-IsWired 1 (λ k hk. omega arith) r
update_all-Outcome_example =
    update_all-Outcome xor_crypto 3 1 1 first_priority xor-IsWired 1 (λ k hk. omega arith) 400 10000
      start (λ s hs. omega arith) xor-IsLaidOut enough_fuel

-- The output has been touched.
abbrev touched_start : Characteristic
touched_start = record start { step_update_list = only_update ∷ [] }

touched_start-IsLaidOut : IsLaidOut xor_crypto 3 1 1 first_priority touched_start
touched_start-IsLaidOut = record {
  placed = xor-IsLaidOut.placed;
  apart = xor-IsLaidOut.apart;
  queued = λ u m. xor-IsWired.known 0 u (omega arith) m;
}

touched_start-IsPending :
    IsPending xor_crypto 3 1 1 first_priority xor-IsWired 1 (λ k hk. omega arith) touched_start
touched_start-IsPending t q ht hq =
    let step_zero : t ≡ 0 = omega arith in
    let bit_zero : q ≡ 0 = omega arith in inr (rw (step_zero, bit_zero) (Memᴰ.head refl))

touched_fuel : potential xor_crypto 3 1 touched_start < 400
unfolding nldtool.Characteristic.Potential.sum_cells nldtool.Characteristic.proxy_get
    nldtool.Characteristic.container_get shl
touched_fuel = omega arith

update-Outcome_example :
    (r : Characteristic × Bool) × (update xor_crypto 400 10000 touched_start ≡ some r)
    × Outcome xor_crypto 3 1 1 first_priority xor-IsWired 1 (λ k hk. omega arith) r
update-Outcome_example =
    update-Outcome xor_crypto 3 1 1 first_priority xor-IsWired 1 (λ k hk. omega arith) 400 10000
      touched_start (λ s hs. omega arith) touched_start-IsLaidOut touched_start-IsPending
      touched_fuel

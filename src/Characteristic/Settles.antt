-- ===== src/Characteristic/Settles.antt =====
-- `Update(characteristic, pos)` of src/bitslice_step.h and `Update` of src/characteristic.cpp.
use nldtool.Base.{ℕ, ◌≤◌, ◌<◌, ◌≡◌, ◌⊎◌, arith, sym, ◌∙◌, subst, Bool, false, length, inl, inr}
use mathlib.Core.List.{Memᴰ}
use nldtool.Bitslice.{params, propagate, get_condition}
use nldtool.Bitslice.Closure.{get_condition-IsWord, propagate-restricts}
use nldtool.Characteristic.{StepUpdate, Characteristic, proxy_get, Crypto, step_update}
use nldtool.Characteristic.Wired.{own, IsWired}
use nldtool.Characteristic.Writes.{LaidOut}
use nldtool.Characteristic.Steps.{
  all_below-or, st, f, cell, gathered, Settled, length-gathered, bit-gathered, Settled-kept,
  propagated-Settled,
}
use nldtool.Characteristic.Potential.{potential, bits_le}
use nldtool.Characteristic.Runs.{output_from-IsRun}

module _ (crypto : Crypto) (n steps word_size : ℕ) (priority : ℕ → ℕ)
    (w : IsWired crypto n steps word_size priority) where
  -- What a step leaves: it is settled itself, a step that was settled is so still or is in the set, and false is
  -- returned only with a condition that is zero.
  pub record IsStepped (s p : ℕ) (c : Characteristic) (r : Characteristic × Bool) : Type 0 where
    pub laid_out : LaidOut crypto n steps word_size priority r.0
    pub settled : Settled crypto s p r.0
    pub others :
        (t q : ℕ)
        → t < steps
        → q < word_size
        → Settled crypto t q c
        → Settled crypto t q r.0 ⊎ Memᴰ (own priority t q) (r.0.step_update_list)
    pub keeps : (u : StepUpdate) → Memᴰ u (c.step_update_list) → Memᴰ u (r.0.step_update_list)
    pub fails : r.1 ≡ false → (k : ℕ) × (k < n) × (proxy_get (crypto.proxy k) r.0 ≡ 0)
    pub lowers :
        (most : ℕ)
        → ((k : ℕ) → k < n → length ((crypto.proxy k).step_update_list) ≤ most)
        → potential crypto n most r.0 ≤ potential crypto n most c

  pub step_update-IsStepped :
      (s p : ℕ) (c : Characteristic)
      → s < steps
      → p < word_size
      → LaidOut crypto n steps word_size priority c
      → IsStepped s p c (step_update crypto (crypto.get_step s) p c)
  unfolding step_update
  step_update-IsStepped s p c hs hp l =
      let ok = w.function_ok s hs in
      let d = gathered crypto s p c in
      let out = (crypto.get_step s).compute d in
      let num = params (f crypto s p) in
      let long = length-gathered crypto s p ok c in
      let right = λ (j : ℕ) (hj : j < num). w.computes s j d hs (omega (arith, long)) hj in
      let run =
        output_from-IsRun crypto n steps word_size priority w s p hs hp out num 0 c (omega arith)
          l in
      record {
        laid_out = run.laid_out;
        settled =
            propagated-Settled crypto s p ok _ d
              (λ j hj. run.written j (omega arith) (omega arith) ∙ right j hj);
        others = λ t q ht hq h.
            elim (all_below-or (λ j. cell crypto t q j c ≡ cell crypto t q j _)
              (Memᴰ (own priority t q) _) (params (f crypto t q))
              (λ j hj.
                run.touched ((st crypto t q).condition_proxy j q) (own priority t q)
                  (w.below t q j ht hq hj) (w.registered t q j ht hq hj))) [
                    | inl same ↦ inl (Settled-kept crypto t q c _ same h)
                    | inr there ↦ inr there
                  ];
        keeps = run.keeps;
        fails = λ e.
            let (j, lo, hj, zero_there) = run.fails e in
            (
              (st crypto s p).condition_proxy j p,
              w.below s p j hs hp (omega arith),
              run.written j lo hj ∙ zero_there,
            );
        lowers = λ most few. run.lowers most few (λ j lo hj.
            let hj' : j < num = omega arith in
            subst (λ x. x ≤ cell crypto s p j c) (sym (right j hj'))
              (bits_le 64 (get_condition (f crypto s p) (propagate (f crypto s p) d) j)
                (cell crypto s p j c)
                (get_condition-IsWord (f crypto s p) (propagate (f crypto s p) d) j)
                (λ b t.
                  let before = propagate-restricts (f crypto s p) ok d j b hj' t in
                  ground (arith, before, bit-gathered crypto s p ok c j b hj'))));
      }

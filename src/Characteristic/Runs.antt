-- ===== src/Characteristic/Runs.antt =====
-- The writing loop of `Update(characteristic, pos)` of src/bitslice_step.h.
use nldtool.Base.{
  ℕ, zero, suc, ◌+◌, ◌≤◌, ◌<◌, ◌≡◌, ◌≢◌, ◌⊎◌, refl, arith, ap, sym, ◌∙◌, subst, Bool, false, List,
  Bool-cases, length, inl, inr,
}
use native.Mathlib.Decide.{ℕ_discrete}
use mathlib.Core.List.{Memᴰ}
use nldtool.Bitslice.{params, get_condition}
use nldtool.Characteristic.{StepUpdate, Characteristic, proxy_get, proxy_set, Crypto, output_from}
use nldtool.Characteristic.Wired.{IsWired}
use nldtool.Characteristic.Converted.{converted-get_condition}
use nldtool.Characteristic.Writes.{LaidOut, proxy_set-IsWritten}
use nldtool.Characteristic.Steps.{st, f, cell}
use nldtool.Characteristic.Potential.{potential, written-potential}

module _ (crypto : Crypto) (n steps word_size : ℕ) (priority : ℕ → ℕ)
    (w : IsWired crypto n steps word_size priority) (s p : ℕ) (hs : s < steps) (hp : p < word_size)
    (out : List ℕ) where
  abbrev wanted : ℕ → ℕ
  wanted j = get_condition (f crypto s p) out j

  abbrev id : ℕ → ℕ
  id j = (st crypto s p).condition_proxy j p

  -- What the loop leaves when it has written the parameters from `i` on, `left` of them.
  pub record IsRun (c : Characteristic) (i left : ℕ) (r : Characteristic × Bool) : Type 0 where
    pub laid_out : LaidOut crypto n steps word_size priority r.0
    pub written : (j : ℕ) → i ≤ j → j < i + left → cell crypto s p j r.0 ≡ wanted j
    pub others :
        (k : ℕ)
        → k < n
        → ((j : ℕ) → i ≤ j → j < i + left → k ≢ id j)
        → proxy_get (crypto.proxy k) r.0 ≡ proxy_get (crypto.proxy k) c
    pub keeps : (u : StepUpdate) → Memᴰ u (c.step_update_list) → Memᴰ u (r.0.step_update_list)
    pub touched :
        (k : ℕ) (u : StepUpdate)
        → k < n
        → Memᴰ u ((crypto.proxy k).step_update_list)
        → (proxy_get (crypto.proxy k) c ≡ proxy_get (crypto.proxy k) r.0)
          ⊎ Memᴰ u (r.0.step_update_list)
    pub fails : r.1 ≡ false → (j : ℕ) × (i ≤ j) × (j < i + left) × (wanted j ≡ 0)
    pub lowers :
        (most : ℕ)
        → ((k : ℕ) → k < n → length ((crypto.proxy k).step_update_list) ≤ most)
        → ((j : ℕ) → i ≤ j → j < i + left → wanted j ≤ cell crypto s p j c)
        → potential crypto n most r.0 ≤ potential crypto n most c

  pub output_from-IsRun :
      (left i : ℕ) (c : Characteristic)
      → i + left ≤ params (f crypto s p)
      → LaidOut crypto n steps word_size priority c
      → IsRun c i left (output_from crypto (st crypto s p) p out left i c)
  unfolding output_from
  output_from-IsRun zero i c h l = record {
    laid_out = l;
    written = λ j le lt. absurd (omega arith);
    others = λ k hk ne. refl;
    keeps = λ u m. m;
    touched = λ k u hk m. inl refl;
    fails = λ e. absurd (ground (arith, e));
    lowers = λ most few small. omega arith;
  }
  output_from-IsRun (suc left) i c h l =
      let hi : i < params (f crypto s p) = omega arith in
      let k = id i in
      let hk = w.below s p i hs hp hi in
      let one = proxy_set (crypto.proxy k) (wanted i) c in
      let fit =
        converted-get_condition (f crypto s p) (w.function_ok s hs) out i (crypto.proxy k).num_bits
          hi (w.bits s p i hs hp hi) in
      let first = proxy_set-IsWritten crypto n steps word_size priority w c k (wanted i) hk fit l in
      let rest = output_from-IsRun left (i + 1) one.0 (omega arith) first.laid_out in
      let apart = λ (j : ℕ) (lo : i + 1 ≤ j) (hi' : j < i + 1 + left).
        let ne : id i ≢ id j =
          λ e. absurd (omega (arith, w.distinct s p i j hs hp hi (omega arith) e, lo)) in
        ne in
      record {
        laid_out = rest.laid_out;
        written = λ j le lt. elim (ℕ_discrete j i) [
          | yes e ↦
              let here = rest.others k hk apart ∙ first.at in
              ap
                (λ x.
                  proxy_get (crypto.proxy (id x))
                    (output_from crypto (st crypto s p) p out left (i + 1) one.0).0)
                e
              ∙ here
              ∙ ap wanted (sym e)
          | no ne ↦ rest.written j (omega arith) (omega arith)
        ];
        others = λ m hm ne.
            rest.others m hm (λ j le lt. ne j (omega arith) (omega arith))
            ∙ first.others m hm (ne i (omega arith) (omega arith));
        keeps = λ u m. rest.keeps u (first.keeps u m);
        touched = λ m u hm mem. elim (rest.touched m u hm mem) [
          | inr there ↦ inr there
          | inl later ↦ elim (ℕ_discrete m k) [
            | no ne ↦ inl (sym (first.others m hm ne) ∙ later)
            | yes e ↦
                let mem' = subst (λ x. Memᴰ u ((crypto.proxy x).step_update_list)) e mem in
                elim (first.touched u mem') [
                  | inr there ↦ inr (rest.keeps u there)
                  | inl same ↦
                      let now : proxy_get (crypto.proxy m) c ≡ proxy_get (crypto.proxy m) one.0 =
                        ap (λ x. proxy_get (crypto.proxy x) c) e
                        ∙ same
                        ∙ sym first.at
                        ∙ ap (λ x. proxy_get (crypto.proxy x) one.0) (sym e) in
                      inl (now ∙ later)
                ]
          ]
        ];
        fails = λ e. elim (Bool-cases one.1) [
          | inr now ↦ (i, omega arith, omega arith, first.fails now)
          | inl t ↦
              let later = rw t at e in
              let (j, lo, hi', zero_there) = rest.fails later in
              (j, omega (arith, lo), omega (arith, hi'), zero_there)
        ];
        lowers = λ most few small.
            let down =
              written-potential crypto n steps word_size priority most c k (wanted i) one first hk
                (few k hk) (small i (omega arith) (omega arith)) in
            let on = rest.lowers most few (λ j lo hi'.
              let same =
                first.others (id j) (w.below s p j hs hp (omega arith))
                  (λ e. apart j lo hi' (sym e)) in
              omega (arith, same, small j (omega arith) (omega arith))) in
            omega (arith, down, on);
      }

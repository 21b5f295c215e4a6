-- ===== src/Characteristic/Update.antt =====
-- The loop of `Update` of src/characteristic.cpp: it ends, and then no step can restrict a condition further.
use nldtool.Base.{
  ℕ, zero, suc, ◌+◌, ◌≤◌, ◌<◌, ◌≡◌, ◌⊎◌, refl, arith, ap, sym, ◌∙◌, subst, Bool, true, false,
  List-cases, none, some, ltb, if◌then◌else◌, Bool-cases, length, inl, inr,
}
use native.Mathlib.Decide.{ℕ_discrete}
use mathlib.Core.List.{Memᴰ}
use mathlib.Core.List.Memᴰ
use nldtool.Characteristic.{
  StepUpdate, update_key, Characteristic, proxy_get, Crypto, step_update, erased, update,
}
use nldtool.Characteristic.{first_update}
use nldtool.Characteristic.Queue.{erase-Memᴰ, Memᴰ-erase, length-erase}
use nldtool.Characteristic.Wired.{own, IsKnown, IsWired}
use nldtool.Characteristic.Writes.{LaidOut, proxy_get-same}
use nldtool.Characteristic.Steps.{Settled, Settled-kept}
use nldtool.Characteristic.Potential.{potential, sum_same}
use nldtool.Characteristic.Settles.{IsStepped, step_update-IsStepped}

module _ (crypto : Crypto) (n steps word_size : ℕ) (priority : ℕ → ℕ)
    (w : IsWired crypto n steps word_size priority) (most : ℕ)
    (few : (k : ℕ) → k < n → length ((crypto.proxy k).step_update_list) ≤ most) where
  -- Each step is settled at each bit, or in the set.
  abbrev pub IsPending : Characteristic → Type 0
  IsPending c =
      (t q : ℕ)
      → t < steps
      → q < word_size
      → Settled crypto t q c ⊎ Memᴰ (own priority t q) (c.step_update_list)

  -- True comes with conditions that no step restricts further, false with a condition that nothing meets.
  abbrev pub Outcome : Characteristic × Bool → Type 0
  Outcome r =
      ((r.1 ≡ true) × ((t q : ℕ) → t < steps → q < word_size → Settled crypto t q r.0))
      ⊎ ((r.1 ≡ false) × (k : ℕ) × (k < n) × (proxy_get (crypto.proxy k) r.0 ≡ 0))

  erased-LaidOut :
      (u : StepUpdate) (c : Characteristic)
      → LaidOut crypto n steps word_size priority c
      → LaidOut crypto n steps word_size priority (erased u c)
  erased-LaidOut u c l = record {
    placed = l.placed;
    apart = l.apart;
    queued = λ v m. l.queued v (erase-Memᴰ u v (c.step_update_list) m);
  }

  erased-same :
      (u : StepUpdate) (c : Characteristic) (k : ℕ)
      → proxy_get (crypto.proxy k) (erased u c) ≡ proxy_get (crypto.proxy k) c
  erased-same u c k = proxy_get-same (crypto.proxy k) (erased u c) c (refl, refl, refl)

  erased-Settled :
      (u : StepUpdate) (c : Characteristic) (t q : ℕ)
      → Settled crypto t q c
      → Settled crypto t q (erased u c)
  erased-Settled u c t q h =
      Settled-kept crypto t q c (erased u c)
        (λ j hj. sym (erased-same u c ((crypto.get_step t).condition_proxy j q))) h

  -- After the step of `u` and without `u` in the set, each step is settled or in the set.
  stepped-IsPending :
      (u : StepUpdate) (c : Characteristic) (r : Characteristic × Bool)
      → IsKnown steps word_size priority u
      → IsStepped crypto n steps word_size priority w u.step u.bit c r
      → IsPending c
      → IsPending (erased u r.0)
  stepped-IsPending u c r known done pending t q ht hq =
      let v = own priority t q in
      let away = λ (m : Memᴰ v (r.0.step_update_list)).
        let result : Settled crypto t q (erased u r.0) ⊎ Memᴰ v ((erased u r.0).step_update_list) =
          elim (ℕ_discrete (update_key v) (update_key u)) [
            | no ne ↦ inr (Memᴰ-erase u v (r.0.step_update_list) ne m)
            | yes e ↦
                let same : v ≡ u = w.keys v u (ht, hq, refl) known e in
                let here : Settled crypto t q r.0 =
                  subst (λ (x : StepUpdate). Settled crypto x.step x.bit r.0) (sym same)
                    done.settled in
                inl (erased-Settled u r.0 t q here)
          ] in
        result in
      elim (pending t q ht hq) [
        | inr m ↦ away (done.keeps v m)
        | inl h ↦ elim (done.others t q ht hq h) [
          | inl still ↦ inl (erased-Settled u r.0 t q still)
          | inr m ↦ away m
        ]
      ]

  erased-potential :
      (u : StepUpdate) (c : Characteristic)
      → Memᴰ u (c.step_update_list)
      → potential crypto n most (erased u c) + 1 ≤ potential crypto n most c
  erased-potential u c m =
      let total = sum_same crypto c (erased u c) n (λ j hj. erased-same u c j) in
      rw total (omega (arith, length-erase u (c.step_update_list) m))

  update-empty :
      (fuel limit : ℕ) (c : Characteristic)
      → first_update (c.step_update_list) ≡ none
      → update crypto (suc fuel) limit c ≡ some (c, true)
  unfolding update
  update-empty fuel limit c e = rw (e, update) refl

  -- One round of the loop.
  update-round :
      (fuel limit : ℕ) (c : Characteristic) (u : StepUpdate)
      → first_update (c.step_update_list) ≡ some u
      → ltb limit u.priority ≡ false
      → let r = step_update crypto (crypto.get_step u.step) u.bit c in
        update crypto (suc fuel) limit c
        ≡ (if r.1 then update crypto fuel limit (erased u r.0) else some (erased u r.0, r.1))
  unfolding update
  update-round fuel limit c u e in_time = rw (e, update, in_time) refl

  -- For steps and proxies that fit together, each proxy of as many bits as the parameters it stands for, each priority
  -- up to the limit, a step in the set wherever it is not
  -- settled, and fuel for the potential, `Update` returns. It returns true with every step settled: propagating its
  -- function once more at any bit changes none of the conditions it reads. It returns false with a condition that is
  -- zero.
  pub update-Outcome :
      (fuel limit : ℕ) (c : Characteristic)
      → ((s : ℕ) → s < steps → priority s ≤ limit)
      → LaidOut crypto n steps word_size priority c
      → IsPending c
      → potential crypto n most c < fuel
      → (r : Characteristic × Bool) × (update crypto fuel limit c ≡ some r) × Outcome r
  unfolding first_update
  update-Outcome zero limit c low l pending enough = absurd (omega arith)
  update-Outcome (suc fuel) limit c low l pending enough = elim (List-cases (c.step_update_list)) [
    | inl none_left ↦ (
      (c, true),
      update-empty fuel limit c (ap first_update none_left),
      inl (
        refl,
        λ t q ht hq. elim (pending t q ht hq) [
          | inl h ↦ h
          | inr m ↦ absurd (Memᴰ.not-nil (subst (Memᴰ (own priority t q)) none_left m))
        ],
      ),
    )
    | inr (u, rest, e) ↦
        let there : Memᴰ u (c.step_update_list) = subst (Memᴰ u) (sym e) (Memᴰ.head refl) in
        let known = l.queued u there in
        let in_time : ltb limit u.priority ≡ false =
          let same = ap (λ (x : StepUpdate). x.priority) known.2 in
          ground (arith, same, low u.step known.0) in
        let r = step_update crypto (crypto.get_step u.step) u.bit c in
        let done =
          step_update-IsStepped crypto n steps word_size priority w u.step u.bit c known.0 known.1
            l in
        let next = erased u r.0 in
        let down = erased-potential u r.0 (done.keeps u there) in
        let (final, found, outcome) =
          update-Outcome fuel limit next low (erased-LaidOut u r.0 done.laid_out)
            (stepped-IsPending u c r known done pending)
            (omega (arith, down, done.lowers most few, enough)) in
        let round = update-round fuel limit c u (ap first_update e) in_time in
        let choose = λ (b : Bool). if b then update crypto fuel limit next else some (next, r.1) in
        elim (Bool-cases r.1) [
          | inl t ↦ (final, round ∙ ap choose t ∙ found, outcome)
          | inr t ↦
              let (k, hk, none_left) = done.fails t in
              (
                (next, false),
                round ∙ ap choose t ∙ ap (λ b. some (next, b)) t,
                inr (refl, k, hk, erased-same u r.0 k ∙ none_left),
              )
        ]
  ]

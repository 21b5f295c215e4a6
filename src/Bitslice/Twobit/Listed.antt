-- ===== src/Bitslice/Twobit/Listed.antt =====
-- `Initialize` and `Finalize` of src/propagate_twobit.h: which two-bit conditions are in their lists.
use nldtool.Base.{
  ℕ, zero, suc, ◌+◌, ◌≤◌, ◌<◌, ◌≡◌, ◌≢◌, ◌↔◌, refl, arith, ap, ap₂, sym, ◌∙◌, true, List, [], ◌∷◌,
  ◌==◌, ◌||◌, Bool-cases, inl, inr, bit_and, tabulate-agree,
}
use native.Mathlib.Decide.{ℕ_discrete}
use mathlib.Core.List.{Memᴰ}
use mathlib.Core.List.Memᴰ
use nldtool.Utils.{hamming_weight}
use nldtool.Bitslice.{BitFunction, params, get_condition}
use nldtool.Bitslice.Twobit.{
  BitsliceTwobitCondition, is_candidate, twobits_at, twobits_from, finalize,
}

pub twobit_eq : (s t : BitsliceTwobitCondition) → s.a ≡ t.a → s.b ≡ t.b → s.c ≡ t.c → s ≡ t
twobit_eq s t ea eb ec =
    ap (λ x. record s { a = x }) ea
    ∙ ap (λ y. record s { a = t.a; b = y }) eb
    ∙ ap (λ z. record { a = t.a; b = t.b; c = z }) ec

pub and_three : (c : ℕ) → c < 4 → bit_and c 3 ≡ c
and_three c lt = tabulate-agree 4 (λ n. bit_and n 3) (λ n. n) refl c lt

module _ (f : BitFunction) (d : List ℕ) where
  -- Two parameters that `PropagateTwobit` compares: the condition of each does not have the weight 1, and if both are
  -- bits, they have the same condition.
  abbrev pub IsCompared : ℕ → ℕ → Type 0
  IsCompared a b =
      (hamming_weight (get_condition f d a) ≢ 1)
      × (hamming_weight (get_condition f d b) ≢ 1)
      × (f.bitsize a ≡ 1 → f.bitsize b ≡ 1 → get_condition f d a ≡ get_condition f d b)

  pub is_candidate-IsCompared : (a b : ℕ) → (is_candidate f d a b ≡ true) ↔ IsCompared a b
  unfolding is_candidate
  is_candidate-IsCompared a b = (
    λ h. (ground (arith, h), ground (arith, h), λ u v. ground (arith, h, u, v)),
    λ (ha, hb, both). elim (ℕ_discrete (f.bitsize a) 1) [
      | yes ea ↦ elim (ℕ_discrete (f.bitsize b) 1) [
        | yes eb ↦ ground (arith, ha, hb, ea, eb, both ea eb)
        | no nb ↦ ground (arith, ha, hb, nb)
      ]
      | no na ↦ ground (arith, ha, hb, na)
    ],
  )

  -- What `Initialize` starts with.
  abbrev pub Started : BitsliceTwobitCondition → Type 0
  Started t = (t.b < t.a) × (t.a < params f) × (is_candidate f d t.a t.b ≡ true) × (t.c ≡ 0)

  twobits_at-Memᴰ :
      (t : BitsliceTwobitCondition) (a left b : ℕ)
      → Memᴰ t (twobits_at f d a left b)
      → (t.a ≡ a) × (t.b < b + left) × (is_candidate f d t.a t.b ≡ true) × (t.c ≡ 0)
  unfolding twobits_at
  twobits_at-Memᴰ t a zero b m = absurd (Memᴰ.not-nil m)
  twobits_at-Memᴰ t a (suc left) b m = elim (Bool-cases (is_candidate f d a b)) [
    | inl c ↦
        let m' = rw c at m in
        elim (Memᴰ.cases_cons m') [
          | inl e ↦ rw e (refl, omega arith, c, refl)
          | inr later ↦
              let (ea, lt, cand, none) = twobits_at-Memᴰ t a left (b + 1) later in
              (ea, omega (arith, lt), cand, none)
        ]
    | inr c ↦
        let m' = rw c at m in
        let (ea, lt, cand, none) = twobits_at-Memᴰ t a left (b + 1) m' in
        (ea, omega (arith, lt), cand, none)
  ]

  Memᴰ-twobits_at :
      (t : BitsliceTwobitCondition) (a left b : ℕ)
      → t.a ≡ a
      → b ≤ t.b
      → t.b < b + left
      → is_candidate f d t.a t.b ≡ true
      → t.c ≡ 0
      → Memᴰ t (twobits_at f d a left b)
  unfolding twobits_at
  Memᴰ-twobits_at t a zero b ea le lt cand none = absurd (omega arith)
  Memᴰ-twobits_at t a (suc left) b ea le lt cand none = elim (ℕ_discrete (t.b) b) [
    | yes e ↦
        let here : is_candidate f d a b ≡ true = sym (ap₂ (is_candidate f d) ea e) ∙ cand in
        rw here (Memᴰ.head (twobit_eq t (record { a = a; b = b; c = 0 }) ea e none))
    | no ne ↦
        let later = Memᴰ-twobits_at t a left (b + 1) ea (omega arith) (omega arith) cand none in
        elim (Bool-cases (is_candidate f d a b)) [
          | inl c ↦ rw c (Memᴰ.tail later)
          | inr c ↦ rw c later
        ]
  ]

  pub twobits_from-Memᴰ :
      (t : BitsliceTwobitCondition) (left a : ℕ)
      → a + left ≤ params f
      → Memᴰ t (twobits_from f d left a)
      → Started t
  unfolding twobits_from
  twobits_from-Memᴰ t zero a h m = absurd (Memᴰ.not-nil m)
  twobits_from-Memᴰ t (suc left) a h m = elim (Memᴰ.append_cases (twobits_at f d a a 0) m) [
    | inl now ↦
        let (ea, lt, cand, none) = twobits_at-Memᴰ t a a 0 now in
        (omega (arith, ea, lt), omega (arith, ea, h), cand, none)
    | inr later ↦ twobits_from-Memᴰ t left (a + 1) (omega arith) later
  ]

  pub Memᴰ-twobits_from :
      (t : BitsliceTwobitCondition) (left a : ℕ)
      → a ≤ t.a
      → t.a < a + left
      → Started t
      → Memᴰ t (twobits_from f d left a)
  unfolding twobits_from
  Memᴰ-twobits_from t zero a le lt s = absurd (omega arith)
  Memᴰ-twobits_from t (suc left) a le lt (below, most, cand, none) = elim (ℕ_discrete (t.a) a) [
    | yes e ↦
        Memᴰ.append_left (twobits_from f d left (a + 1))
          (Memᴰ-twobits_at t a a 0 e (omega arith) (omega (arith, e, below)) cand none)
    | no ne ↦
        Memᴰ.append_right (twobits_at f d a a 0)
          (Memᴰ-twobits_from t left (a + 1) (omega arith) (omega arith) (below, most, cand, none))
  ]

-- What `Finalize` does to a two-bit condition.
abbrev pub masked : BitsliceTwobitCondition → BitsliceTwobitCondition
masked s = record s { c = bit_and s.c 3 }

pub finalize-Memᴰ :
    (t : BitsliceTwobitCondition) (twobits : List BitsliceTwobitCondition)
    → Memᴰ t (finalize twobits)
    → (s : BitsliceTwobitCondition) × Memᴰ s twobits
      × (t ≡ masked s)
      × ((t.c == 1 || t.c == 2) ≡ true)
unfolding finalize
finalize-Memᴰ t [] m = absurd (Memᴰ.not-nil m)
finalize-Memᴰ t (s ∷ twobits) m = elim (Bool-cases (bit_and s.c 3 == 1 || bit_and s.c 3 == 2)) [
  | inl h ↦
      let m' = rw h at m in
      elim (Memᴰ.cases_cons m') [
        | inl e ↦ (s, Memᴰ.head refl, e, ap (λ q. q.c == 1 || q.c == 2) e ∙ h)
        | inr later ↦
            let (q, there, e, k) = finalize-Memᴰ t twobits later in (q, Memᴰ.tail there, e, k)
      ]
  | inr h ↦
      let m' = rw h at m in
      let (q, there, e, k) = finalize-Memᴰ t twobits m' in (q, Memᴰ.tail there, e, k)
]

pub Memᴰ-finalize :
    (s : BitsliceTwobitCondition) (twobits : List BitsliceTwobitCondition)
    → Memᴰ s twobits
    → (bit_and s.c 3 == 1 || bit_and s.c 3 == 2) ≡ true
    → Memᴰ (masked s) (finalize twobits)
unfolding finalize
Memᴰ-finalize s [] m h = absurd (Memᴰ.not-nil m)
Memᴰ-finalize s (q ∷ twobits) m h = elim (Memᴰ.cases_cons m) [
  | inl e ↦
      let h' : (bit_and q.c 3 == 1 || bit_and q.c 3 == 2) ≡ true =
        ap (λ x. bit_and (x.c) 3 == 1 || bit_and (x.c) 3 == 2) (sym e) ∙ h in
      rw h' (Memᴰ.head (ap masked e))
  | inr later ↦
      let rest = Memᴰ-finalize s twobits later h in
      elim (Bool-cases (bit_and q.c 3 == 1 || bit_and q.c 3 == 2)) [
        | inl k ↦ rw k (Memᴰ.tail rest)
        | inr k ↦ rw k rest
      ]
]

-- ===== src/Functions/Lift.antt =====
-- src/functions.h on pairs of bytes and on bytes, and what the additions compute.
use nldtool.Base.{
  ℕ, zero, suc, ◌+◌, ◌*◌, ◌/◌, ◌%◌, ◌^◌, ◌<◌, ◌≤◌, ◌≡◌, refl, arith, Bool, true, false, List, [],
  ◌∷◌, ◌++◌, bit_and, map, ap, ◌∙◌, get_or,
}
use nldtool.Bits.{bit_and-zero, bit_and_step}
use nldtool.Pair.{Pair, add, conj, disj, exor, conj_value, shift_right, negate}
use nldtool.Functions.{
  byte_operators, pair_operators, accumulate, onx, if_f, maj, xor_f, add_f, addb_f, sbox, sbox_pair,
  sbox_input, sbox_output, sbox_pair_input, sbox_pair_output,
}

-- One member of a pair.
abbrev pub member : Bool → Pair → ℕ
member true p = p.first
member false p = p.second

accumulate-member :
    (b : Bool) (f : Pair → Pair → Pair) (g : ℕ → ℕ → ℕ)
    → ((p q : Pair) → member b (f p q) ≡ g (member b p) (member b q))
    → (xs : List Pair) (acc : Pair)
    → member b (accumulate f xs acc) ≡ accumulate g (map (member b) xs) (member b acc)
accumulate-member b f g h [] acc = refl
accumulate-member b f g h (x ∷ xs) acc =
    accumulate-member b f g h xs (f acc x) ∙ ap (accumulate g (map (member b) xs)) (h acc x)

-- On pairs, `ONX`, `IF`, `MAJ`, `XOR` and `ADD` compute each member from the members alone.
pub functions-member :
    (b : Bool) (x y z : Pair) (rest : List Pair)
    → (member b (onx pair_operators x y z)
        ≡ onx byte_operators (member b x) (member b y) (member b z))
      × (member b (if_f pair_operators x y z)
          ≡ if_f byte_operators (member b x) (member b y) (member b z))
      × (member b (maj pair_operators x y z)
          ≡ maj byte_operators (member b x) (member b y) (member b z))
      × (member b (xor_f pair_operators x rest)
          ≡ xor_f byte_operators (member b x) (map (member b) rest))
      × (member b (add_f pair_operators x rest).0
          ≡ (add_f byte_operators (member b x) (map (member b) rest)).0)
      × (member b (add_f pair_operators x rest).1
          ≡ (add_f byte_operators (member b x) (map (member b) rest)).1)
unfolding onx if_f maj xor_f add_f add conj disj exor conj_value shift_right negate
functions-member true x y z rest = (
  refl,
  refl,
  refl,
  accumulate-member true exor byte_operators.exor_op (λ p q. refl) rest x,
  ap (λ t. bit_and t 1) (accumulate-member true add byte_operators.plus (λ p q. refl) rest x),
  ap (λ t. t / 2 ^ 1) (accumulate-member true add byte_operators.plus (λ p q. refl) rest x),
)
functions-member false x y z rest = (
  refl,
  refl,
  refl,
  accumulate-member false exor byte_operators.exor_op (λ p q. refl) rest x,
  ap (λ t. bit_and t 1) (accumulate-member false add byte_operators.plus (λ p q. refl) rest x),
  ap (λ t. t / 2 ^ 1) (accumulate-member false add byte_operators.plus (λ p q. refl) rest x),
)

map-member-append :
    (b : Bool) (xs ys : List Pair)
    → map (member b) (xs ++ ys) ≡ map (member b) xs ++ map (member b) ys
map-member-append b [] ys = refl
map-member-append b (x ∷ xs) ys = ap (λ l. member b x ∷ l) (map-member-append b xs ys)

sbox_pair_output-member :
    (b : Bool) (left : ℕ) (o : Pair)
    → map (member b) (sbox_pair_output left o.first o.second) ≡ sbox_output left (member b o)
unfolding sbox_pair_output sbox_output
sbox_pair_output-member b zero o = refl
sbox_pair_output-member true (suc left) o =
    map-member-append true (sbox_pair_output left (o.first / 2) (o.second / 2)) _
    ∙ ap (λ l. l ++ bit_and o.first 1 ∷ [])
        (sbox_pair_output-member true left (record { first = o.first / 2; second = o.second / 2 }))
sbox_pair_output-member false (suc left) o =
    map-member-append false (sbox_pair_output left (o.first / 2) (o.second / 2)) _
    ∙ ap (λ l. l ++ bit_and o.second 1 ∷ [])
        (sbox_pair_output-member false left (record { first = o.first / 2; second = o.second / 2 }))

sbox_pair_input-members :
    (xs : List Pair) (input1 input2 : ℕ)
    → ((sbox_pair_input xs input1 input2).0 ≡ sbox_input (map (member true) xs) input1)
      × ((sbox_pair_input xs input1 input2).1 ≡ sbox_input (map (member false) xs) input2)
unfolding sbox_pair_input sbox_input
sbox_pair_input-members [] input1 input2 = (refl, refl)
sbox_pair_input-members (x ∷ xs) input1 input2 = sbox_pair_input-members xs _ _

-- On pairs, an S-box of any table computes the members of its outputs from the members of its inputs alone.
pub sbox-member :
    (b : Bool) (lut : List ℕ) (outputs : ℕ) (xs : List Pair)
    → map (member b) (sbox_pair lut outputs xs) ≡ sbox lut outputs (map (member b) xs)
unfolding sbox_pair sbox
sbox-member true lut outputs xs =
    sbox_pair_output-member true outputs (record {
      first = get_or lut (sbox_pair_input xs 0 0).0 0;
      second = get_or lut (sbox_pair_input xs 0 0).1 0;
    })
    ∙ ap (λ i. sbox_output outputs (get_or lut i 0)) (sbox_pair_input-members xs 0 0).0
sbox-member false lut outputs xs =
    sbox_pair_output-member false outputs (record {
      first = get_or lut (sbox_pair_input xs 0 0).0 0;
      second = get_or lut (sbox_pair_input xs 0 0).1 0;
    })
    ∙ ap (λ i. sbox_output outputs (get_or lut i 0)) (sbox_pair_input-members xs 0 0).1

-- The sum that the summands have as numbers.
abbrev pub total : ℕ → List ℕ → ℕ
total x [] = x
total x (y ∷ rest) = total (x + y) rest

total-ge : (x : ℕ) (rest : List ℕ) → x ≤ total x rest
total-ge x [] = omega arith
total-ge x (y ∷ rest) = omega (arith, total-ge (x + y) rest)

accumulate-total :
    (x : ℕ) (rest : List ℕ)
    → total x rest < 256
    → accumulate byte_operators.plus rest x ≡ total x rest
accumulate-total x [] h = refl
accumulate-total x (y ∷ rest) h =
    let small : (x + y) % 256 ≡ x + y = omega (arith, total-ge (x + y) rest) in
    ap (accumulate byte_operators.plus rest) small ∙ accumulate-total (x + y) rest h

total-append : (x : ℕ) (rest : List ℕ) (c : ℕ) → total x (rest ++ c ∷ []) ≡ total x rest + c
total-append x [] c = refl
total-append x (y ∷ rest) c = total-append (x + y) rest c

low_one : (n : ℕ) → bit_and n 1 ≡ n % 2
low_one n = omega (arith, bit_and-zero (n / 2), bit_and_step n 1)

low_three : (n : ℕ) → bit_and n 3 ≡ n % 4
low_three n = omega (arith, low_one (n / 2), bit_and_step n 3)

-- Where the summands stay below 256, the sum bit of `ADD` and twice its carry are their sum, and the two sum bits of
-- `ADDB` and four times its carry are their sum with the carry input.
pub additions-total :
    (x : ℕ) (rest : List ℕ) (carry : ℕ)
    → total x rest + carry < 256
    → ((add_f byte_operators x rest).0 + 2 * (add_f byte_operators x rest).1 ≡ total x rest)
      × ((addb_f byte_operators x rest carry).0 + 4 * (addb_f byte_operators x rest carry).2
          ≡ total x rest + carry)
unfolding add_f addb_f
additions-total x rest carry h =
    let plain = accumulate-total x rest (omega arith) in
    let carried =
      accumulate-total x (rest ++ carry ∷ []) (omega (arith, total-append x rest carry)) in
    let s = accumulate byte_operators.plus rest x in
    let t = accumulate byte_operators.plus (rest ++ carry ∷ []) x in
    (
      omega (arith, low_one s, plain),
      omega (arith, low_three t, carried, total-append x rest carry),
    )

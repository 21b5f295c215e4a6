-- ===== src/Tests/Steps.antt =====
-- src/functions.h at concrete bytes.
use nldtool.Base.{◌+◌, ◌*◌, ◌≡◌, arith, true, [], ◌∷◌, map}
use nldtool.Pair.{Pair}
use nldtool.Functions.{byte_operators, add_f, addb_f, sbox, sbox_pair}
use nldtool.Functions.Lift.{member, total, sbox-member, additions-total}

abbrev p01 : Pair
p01 = record { first = 0; second = 1 }

abbrev p10 : Pair
p10 = record { first = 1; second = 0 }

sbox-member_example :
    map (member true) (sbox_pair (3 ∷ 0 ∷ 2 ∷ 1 ∷ []) 2 (p01 ∷ p10 ∷ []))
    ≡ sbox (3 ∷ 0 ∷ 2 ∷ 1 ∷ []) 2 (map (member true) (p01 ∷ p10 ∷ []))
sbox-member_example = sbox-member true (3 ∷ 0 ∷ 2 ∷ 1 ∷ []) 2 (p01 ∷ p10 ∷ [])

additions-total_example :
    ((add_f byte_operators 3 (2 ∷ 1 ∷ [])).0 + 2 * (add_f byte_operators 3 (2 ∷ 1 ∷ [])).1
      ≡ total 3 (2 ∷ 1 ∷ []))
    × ((addb_f byte_operators 3 (2 ∷ 1 ∷ []) 1).0 + 4 * (addb_f byte_operators 3 (2 ∷ 1 ∷ []) 1).2
        ≡ total 3 (2 ∷ 1 ∷ []) + 1)
additions-total_example = additions-total 3 (2 ∷ 1 ∷ []) 1 (omega arith)

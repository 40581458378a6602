-- ===== src/Robots/Address/Blocks.antt =====
-- The judgement on four parts, against the reserved blocks of the 32-bit address space.
use geo_readiness.Common.{
  ℕ, ◌+◌, ◌-◌, ◌*◌, ◌/◌, ◌^◌, ◌<◌, ◌≡◌, Bool, true, false, List, [], ◌∷◌, ◌==◌, not, any, arith,
  ◌&&◌, ◌||◌, leb, if◌then◌else◌,
}
use geo_readiness.Robots.Address.{Quad, quad_is_public}

-- The address as one number.
abbrev pub address : Quad → ℕ
address q = q.first * 2 ^ 24 + q.second * 2 ^ 16 + q.third * 2 ^ 8 + q.fourth

-- A block in the notation `a.b.0.0/bits`.
pub record Block : Type 0 where
  pub network : ℕ
  pub bits : ℕ

abbrev pub block : ℕ → ℕ → ℕ → Block
block a b bits = record { network = a * 2 ^ 24 + b * 2 ^ 16; bits = bits }

-- The leading bits agree.
abbrev pub in_block : ℕ → Block → Bool
in_block n k = n / 2 ^ (32 - k.bits) == k.network / 2 ^ (32 - k.bits)

abbrev pub reserved : List Block
reserved =
    block 0 0 8
    ∷ block 10 0 8
    ∷ block 127 0 8
    ∷ block 169 254 16
    ∷ block 172 16 12
    ∷ block 192 168 16
    ∷ block 100 64 10
    ∷ block 198 18 15
    ∷ block 192 0 16
    ∷ block 198 51 16
    ∷ block 203 0 16
    ∷ block 224 0 3
    ∷ []

abbrev pub IsQuad : Quad → Type 0
IsQuad q = (q.first < 256) × (q.second < 256) × (q.third < 256) × (q.fourth < 256)

-- The quotients that the blocks compare, in terms of the first two parts.
quotients :
    (q : Quad)
    → IsQuad q
    → (address q / 2 ^ 24 ≡ q.first)
      × (address q / 2 ^ 16 ≡ q.first * 256 + q.second)
      × (address q / 2 ^ 20 ≡ q.first * 16 + q.second / 16)
      × (address q / 2 ^ 22 ≡ q.first * 4 + q.second / 64)
      × (address q / 2 ^ 17 ≡ q.first * 128 + q.second / 2)
      × (address q / 2 ^ 29 ≡ q.first / 32)
quotients q h = (omega arith, omega arith, omega arith, omega arith, omega arith, omega arith)

-- Each block's test on the quotient, as the test of the code on the two parts.
module _ (a b : ℕ) (h : b < 256) where
  two_parts : (x y : ℕ) → y < 256 → (a * 256 + b == x * 256 + y) ≡ (a == x && b == y)
  two_parts x y k = ground arith

  test_172 : (a * 16 + b / 16 == 2753) ≡ (a == 172 && leb 16 b && leb b 31)
  test_172 = ground arith

  test_100 : (a * 4 + b / 64 == 401) ≡ (a == 100 && leb 64 b && leb b 127)
  test_100 = ground arith

  test_198 : (a * 128 + b / 2 == 25353) ≡ (a == 198 && (b == 18 || b == 19))
  test_198 = ground arith

test_224 : (a : ℕ) → a < 256 → (a / 32 == 7) ≡ leb 224 a
test_224 a h = ground arith

-- The ladder of early returns is the negation of the disjunction of its tests.
ladder :
    (t0 t1 t2 t3 t4 t5 t6 t7 t8 t9 t10 t11 : Bool)
    → (if t0 || t1 || t2
        then false
        else if t3
        then false
        else if t4
        then false
        else if t5
        then false
        else if t6
        then false
        else if t7
        then false
        else if t8
        then false
        else if t9
        then false
        else if t10
        then false
        else if t11
        then false
        else true)
      ≡ not (any (λ t. t) (t0 ∷ t1 ∷ t2 ∷ t3 ∷ t4 ∷ t5 ∷ t6 ∷ t7 ∷ t8 ∷ t9 ∷ t10 ∷ t11 ∷ []))
ladder t0 t1 t2 t3 t4 t5 t6 t7 t8 t9 t10 t11 = ground arith

-- Four parts below 256 are judged public exactly when the 32-bit address lies in none of the
-- twelve reserved blocks.
pub quad_is_public-eq-not-any :
    (q : Quad) → IsQuad q → quad_is_public q ≡ not (any (in_block (address q)) reserved)
unfolding quad_is_public
quad_is_public-eq-not-any q h =
    let a = q.first in
    let b = q.second in
    let (e24, e16, e20, e22, e17, e29) = quotients q h in
    let k : b < 256 = h.1 in
    rw (e24, e16, e20, e22, e17, e29)
      (rw
        (
          two_parts a b k 169 254 (omega arith),
          test_172 a b k,
          two_parts a b k 192 168 (omega arith),
          test_100 a b k,
          test_198 a b k,
          two_parts a b k 192 0 (omega arith),
          two_parts a b k 198 51 (omega arith),
          two_parts a b k 203 0 (omega arith),
          test_224 a h.0,
        )
        (ladder (a == 0) (a == 10) (a == 127) (a == 169 && b == 254)
          (a == 172 && leb 16 b && leb b 31) (a == 192 && b == 168)
          (a == 100 && leb 64 b && leb b 127) (a == 198 && (b == 18 || b == 19))
          (a == 192 && b == 0) (a == 198 && b == 51) (a == 203 && b == 0) (leb 224 a)))

-- ===== src/Names/Packed.antt =====
-- The number that `getIdentificationFromName` makes of a name.
use tasking_framework.Base.{
  ℕ, zero, suc, ◌+◌, ◌*◌, ◌%◌, ◌^◌, ◌≡◌, ◌≤◌, ◌<◌, refl, ◌∙◌, Bool, false, some, List, [], ◌∷◌,
  arith, ◌==◌,
}
use native.Mathlib.Nat.{mod-eq_of_lt, mul-le-mul_right, le_trans, mul_assoc}
use tasking_framework.Names.{widen, pack, get_identification_from_name}

-- The bytes are ASCII characters other than the terminating zero.
abbrev pub IsAscii : List ℕ → Type 0
IsAscii [] = Unit {0}
IsAscii (c ∷ cs) = (0 < c) × (c < 128) × IsAscii cs

-- A name as a number of so many bytes, the first character in the highest byte: the name is cut
-- or filled up with zeros.
abbrev pub value : ℕ → List ℕ → ℕ
value zero cs = 0
value (suc left) [] = 0
value (suc left) (c ∷ cs) = c * 256 ^ left + value left cs

pub pow-suc : (n : ℕ) → 256 ^ suc n ≡ 256 * 256 ^ n
pow-suc n = omega arith

pub pow_pos : (n : ℕ) → 0 < 256 ^ n
pow_pos zero = omega arith
pow_pos (suc n) = omega (arith, pow_pos n, pow-suc n)

pub value-lt : (left : ℕ) (cs : List ℕ) → IsAscii cs → value left cs < 256 ^ left
value-lt zero cs h = omega arith
value-lt (suc left) [] h = pow_pos (suc left)
value-lt (suc left) (c ∷ cs) h = grind (arith, value-lt left cs h.2, pow-suc left)

pub value-nil : (left : ℕ) → value left [] ≡ 0
value-nil zero = refl
value-nil (suc left) = refl

pub nonzero : (c : ℕ) → 0 < c → (c == 0) ≡ false
nonzero c h = ground arith

widen-ascii : (signed : Bool) (c : ℕ) → c < 128 → widen signed c ≡ c
unfolding widen
widen-ascii signed c h = ground arith

next_fits : (id c p w : ℕ) → c < 256 → (id + 1) * (256 * p) ≤ w → (id * 256 + c + 1) * p ≤ w
next_fits id c p w h b =
    let le : id * 256 + c + 1 ≤ (id + 1) * 256 = omega arith in
    le_trans (mul-le-mul_right p le) (omega (arith, mul_assoc (id + 1) 256 p, b))

below_width : (k p w : ℕ) → 0 < p → (k + 1) * p ≤ w → k < w
below_width k p w h b = grind arith

pub regroup : (id c p v : ℕ) → (id * 256 + c) * p + v ≡ id * (256 * p) + (c * p + v)
regroup id c p v = grind arith

-- The loop on a name that fits: the characters that are read go below the number so far.
pub pack-value :
    (signed : Bool) (width : ℕ) (left id : ℕ) (cs : List ℕ)
    → IsAscii cs
    → (id + 1) * 256 ^ left ≤ 256 ^ width
    → (id' left' : ℕ) × (pack signed width left id cs ≡ (id', left'))
      × (id' * 256 ^ left' ≡ id * 256 ^ left + value left cs)
unfolding pack
pack-value signed width left id [] h b = (id, left, refl, omega (arith, value-nil left))
pack-value signed width zero id (c ∷ cs) h b = (id, zero, refl, omega arith)
pack-value signed width (suc left) id (c ∷ cs) h b =
    let fits = next_fits id c (256 ^ left) (256 ^ width) (omega arith) (rw (← pow-suc left) b) in
    let small = below_width (id * 256 + c) (256 ^ left) (256 ^ width) (pow_pos left) fits in
    let step : (id * 256 + widen signed c) % 256 ^ width ≡ id * 256 + c =
      rw (widen-ascii signed c h.1) (mod-eq_of_lt small) in
    let (id', left', r, e) = pack-value signed width left (id * 256 + c) cs h.2 fits in
    (
      id',
      left',
      rw (nonzero c h.0, step) r,
      e ∙ rw (pow-suc left) (regroup id c (256 ^ left) (value left cs)),
    )

-- An ASCII name of at least one character has the number of its characters.
pub get_identification_from_name-value :
    (signed : Bool) (width : ℕ) (c : ℕ) (cs : List ℕ)
    → IsAscii (c ∷ cs)
    → get_identification_from_name signed width (some (c ∷ cs)) ≡ value width (c ∷ cs)
unfolding get_identification_from_name
get_identification_from_name-value signed width c cs h =
    let (id, left, r, e) = pack-value signed width width 0 (c ∷ cs) h (omega arith) in
    let exact : id * 256 ^ left ≡ value width (c ∷ cs) = omega (arith, e) in
    rw (nonzero c h.0, r, exact) (mod-eq_of_lt (value-lt width (c ∷ cs) h))

-- ===== src/Names/RoundTrip.antt =====
-- The bytes that `convertIdentificationToString` writes, and the way from a name to its
-- identification and back.
use tasking_framework.Base.{
  length-append, ℕ, zero, suc, ◌+◌, ◌-◌, ◌*◌, ◌/◌, ◌%◌, ◌^◌, ◌≡◌, ◌≤◌, ◌<◌, refl, ◌∙◌, sym, ap,
  Bool, some, List, [], ◌∷◌, ◌++◌, arith, ltb, ◌==◌, if◌then◌else◌, set, length, get_elem?, true,
  drop, inl, inr, Bool-cases,
}
use mathlib.Core.List.{append_assoc}
use native.Mathlib.Nat.{mul-add-div_right, div-eq_of_lt}
use tasking_framework.Names.{unpack, convert_identification_to_string, get_identification_from_name}
use tasking_framework.Names.Packed.{
  IsAscii, value, value-lt, pow-suc, value-nil, regroup, nonzero,
  get_identification_from_name-value,
}

-- The bytes of a string, up to the terminating zero.
abbrev pub text : List ℕ → List ℕ
text [] = []
text (c ∷ cs) = if c == 0 then [] else c ∷ text cs

abbrev pub take : ℕ → List ℕ → List ℕ
take zero cs = []
take (suc n) [] = []
take (suc n) (c ∷ cs) = c ∷ take n cs

byte_at : (q low p : ℕ) → low < p → (q * p + low) / p ≡ q
byte_at q low p h = mul-add-div_right (omega arith) q low ∙ (rw (div-eq_of_lt h) (omega arith))

abbrev head : List ℕ → ℕ
head [] = 0
head (c ∷ cs) = c

abbrev tail : List ℕ → List ℕ
tail [] = []
tail (c ∷ cs) = cs

tail-IsAscii : (cs : List ℕ) → IsAscii cs → IsAscii (tail cs) × (head cs < 256)
tail-IsAscii [] h = (tt, omega arith)
tail-IsAscii (c ∷ cs) h = (h.2, omega arith)

-- The bytes of a name, filled up with zeros to that number.
abbrev filled : ℕ → List ℕ → List ℕ
filled zero cs = []
filled (suc n) cs = head cs ∷ filled n (tail cs)

value-head :
    (left : ℕ) (cs : List ℕ) → value (suc left) cs ≡ head cs * 256 ^ left + value left (tail cs)
value-head left [] = omega (arith, value-nil left)
value-head left (c ∷ cs) = refl

-- How often the loop writes.
abbrev rounds : ℕ → ℕ → ℕ → ℕ
rounds zero pos n = 0
rounds (suc left) pos n = if ltb pos (n - 1) then suc (rounds left (suc pos) n) else 0

rounds-min :
    (left pos n : ℕ)
    → pos < n
    → rounds left pos n ≡ (if ltb (left + pos + 1) n then left else n - 1 - pos)
rounds-min zero pos n h = ground arith
rounds-min (suc left) pos n h = ground (arith, rounds-min left (suc pos) n)

set-append : (xs : List ℕ) (y v : ℕ) (ys : List ℕ) → set (xs ++ y ∷ ys) (length xs) v ≡ xs ++ v ∷ ys
set-append [] y v ys = refl
set-append (x ∷ xs) y v ys = ap (λ l. x ∷ l) (set-append xs y v ys)

-- The bytes of an identification.
split_byte :
    (hi left : ℕ) (cs : List ℕ)
    → hi * 256 ^ suc left + value (suc left) cs
      ≡ (hi * 256 + head cs) * 256 ^ left + value left (tail cs)
split_byte hi left cs =
    rw (pow-suc left, value-head left cs)
      (sym (regroup hi (head cs) (256 ^ left) (value left (tail cs))))

byte_value :
    (hi left : ℕ) (cs : List ℕ) (id : ℕ)
    → IsAscii cs
    → id ≡ (hi * 256 + head cs) * 256 ^ left + value left (tail cs)
    → id / 256 ^ left % 256 ≡ head cs
byte_value hi left cs id h e =
    let (ascii, small) = tail-IsAscii cs h in
    let low = value-lt left (tail cs) ascii in
    rw (e, byte_at (hi * 256 + head cs) (value left (tail cs)) (256 ^ left) low) (omega arith)

written :
    (done rest : List ℕ) (r pos byte c : ℕ)
    → pos ≡ length done
    → byte ≡ c
    → set (done ++ r ∷ rest) pos byte ≡ (done ++ c ∷ []) ++ rest
written done rest r pos byte c p e =
    rw (p, e) (set-append done r c rest ∙ sym (append_assoc done (c ∷ []) rest))

unpack-filled :
    (width left pos n id hi : ℕ) (done rest cs : List ℕ)
    → IsAscii cs
    → id ≡ hi * 256 ^ left + value left cs
    → pos ≡ length done
    → rounds left pos n ≤ length rest
    → unpack width left pos n id (done ++ rest)
      ≡ done ++ (filled (rounds left pos n) cs ++ drop (rounds left pos n) rest)
unfolding unpack
unpack-filled width zero pos n id hi done rest cs h e p b = refl
unpack-filled width (suc left) pos n id hi done [] cs h e p b =
    elim (Bool-cases (ltb pos (n - 1))) [
      | inr end ↦ rw end refl
      | inl go ↦ let b' = rw go at b in absurd (omega arith)
    ]
unpack-filled width (suc left) pos n id hi done (r ∷ rest) cs h e p b =
    elim (Bool-cases (ltb pos (n - 1))) [
      | inr end ↦ rw end refl
      | inl go ↦
          let b' = rw go at b in
          let e' = e ∙ split_byte hi left cs in
          let byte = byte_value hi left cs id h e' in
          let longer = length-append done (head cs ∷ []) in
          let rest' =
            unpack-filled width left (suc pos) n id (hi * 256 + head cs) (done ++ head cs ∷ []) rest
              (tail cs) (tail-IsAscii cs h).0 e' (omega (arith, longer, p)) (omega arith) in
          rw (go, written done rest r pos (id / 256 ^ left % 256) (head cs) p byte)
            (rest'
              ∙ append_assoc done (head cs ∷ []) (
                  filled (rounds left (suc pos) n) (tail cs)
                  ++ drop (rounds left (suc pos) n) rest))
    ]

text-filled : (k : ℕ) (cs ys : List ℕ) → IsAscii cs → text (filled k cs ++ 0 ∷ ys) ≡ take k cs
text-filled zero cs ys h = refl
text-filled (suc k) [] ys h = refl
text-filled (suc k) (c ∷ cs) ys h = rw (nonzero c h.0) (ap (λ l. c ∷ l) (text-filled k cs ys h.2))

length-filled : (k : ℕ) (cs : List ℕ) → length (filled k cs) ≡ k
length-filled zero cs = refl
length-filled (suc k) cs = ap suc (length-filled k (tail cs))

drop-cons : (k : ℕ) (xs : List ℕ) → k < length xs → ((y : ℕ) × (ys : List ℕ) × (drop k xs ≡ y ∷ ys))
drop-cons zero [] h = absurd (omega arith)
drop-cons zero (x ∷ xs) h = (x, xs, refl)
drop-cons (suc k) [] h = absurd (omega arith)
drop-cons (suc k) (x ∷ xs) h = drop-cons k xs (omega arith)

-- An ASCII name of at least one character goes to its identification and back into a buffer of at
-- least two bytes: what the buffer then holds is the name, cut to the bytes of the identification
-- and to the buffer less the terminating zero.
pub convert_identification_to_string-get_identification_from_name :
    (signed : Bool) (width c : ℕ) (cs buffer : List ℕ) (n : ℕ)
    → IsAscii (c ∷ cs)
    → 1 < n
    → n ≤ length buffer
    → (out : List ℕ) × (convert_identification_to_string width
          (get_identification_from_name signed width (some (c ∷ cs)))
          (some buffer)
          n
        ≡ some out)
      × (text out ≡ take (if ltb (width + 1) n then width else n - 1) (c ∷ cs))
unfolding convert_identification_to_string
convert_identification_to_string-get_identification_from_name signed width c cs buffer n h low
      high =
    let id = get_identification_from_name signed width (some (c ∷ cs)) in
    let known = get_identification_from_name-value signed width c cs h in
    let k : ℕ = rounds width 0 n in
    let k' : ℕ = if ltb (width + 1) n then width else n - 1 in
    let min : k ≡ k' = ground (arith, rounds-min width 0 n (omega arith)) in
    let small : k < n = ground (arith, min) in
    let test : ltb 1 n ≡ true = ground arith in
    let unpacked =
      unpack-filled width width 0 n id 0 [] buffer (c ∷ cs) h (omega (arith, known)) refl
        (omega arith) in
    let (y, ys, d) = drop-cons k buffer (omega arith) in
    let name = filled k (c ∷ cs) in
    let written_name : set (unpack width width 0 n id buffer) k' 0 ≡ name ++ 0 ∷ ys =
      ap (λ l. set l k' 0) (unpacked ∙ ap (λ l. name ++ l) d)
      ∙ ap (λ i. set (name ++ y ∷ ys) i 0) (sym min ∙ sym (length-filled k (c ∷ cs)))
      ∙ set-append name y 0 ys in
    (
      name ++ 0 ∷ ys,
      rw test (ap some written_name),
      text-filled k (c ∷ cs) ys h ∙ ap (λ i. take i (c ∷ cs)) min,
    )

get_elem?-set : (xs : List ℕ) (i j v : ℕ) → i < j → get_elem? (set xs i v) j ≡ get_elem? xs j
get_elem?-set [] i j v h = refl
get_elem?-set (x ∷ xs) i zero v h = absurd (omega arith)
get_elem?-set (x ∷ xs) zero (suc j) v h = refl
get_elem?-set (x ∷ xs) (suc i) (suc j) v h = get_elem?-set xs i j v (omega arith)

get_elem?-unpack :
    (width left pos n id j : ℕ) (buffer : List ℕ)
    → n ≤ j + 1
    → get_elem? (unpack width left pos n id buffer) j ≡ get_elem? buffer j
unfolding unpack
get_elem?-unpack width zero pos n id j buffer h = refl
get_elem?-unpack width (suc left) pos n id j buffer h =
    let byte = id / 256 ^ left % 256 in
    elim (Bool-cases (ltb pos (n - 1))) [
      | inr end ↦ rw end refl
      | inl go ↦ rw go (
          get_elem?-unpack width left (suc pos) n id j (set buffer pos byte) h
          ∙ get_elem?-set buffer pos j byte (ground arith))
    ]

-- For any identification, buffer and length the conversion returns, and the bytes of the buffer from
-- the given length on stay as they are.
pub get_elem?-convert_identification_to_string :
    (width id n j : ℕ) (buffer : List ℕ)
    → n ≤ j
    → (out : List ℕ) × (convert_identification_to_string width id (some buffer) n ≡ some out)
      × (get_elem? out j ≡ get_elem? buffer j)
unfolding convert_identification_to_string
get_elem?-convert_identification_to_string width id n j buffer h = elim (Bool-cases (ltb 1 n)) [
  | inr end ↦ (buffer, rw end refl, refl)
  | inl go ↦
      let written_bytes = unpack width width 0 n id buffer in
      let k : ℕ = if ltb (width + 1) n then width else n - 1 in
      (
        set written_bytes k 0,
        rw go refl,
        get_elem?-set written_bytes k j 0 (ground arith)
            ∙ get_elem?-unpack width width 0 n id j buffer (omega arith),
      )
]

-- ===== src/Names.antt =====
-- include/impl/taskUtils_impl.h: identifications made from names, and names from identifications,
-- and src/taskUtils.cpp, which converts those of channels and tasks. A string is the list of its
-- bytes up to the terminating zero, and a buffer a list of bytes. `width` is the size of the
-- identification type in bytes, and shifts by 8 bits are products with 256.
pub mod Numbers
pub mod Packed
pub mod RoundTrip
use tasking_framework.Base.{
  ℕ, zero, suc, ◌+◌, ◌-◌, ◌*◌, ◌/◌, ◌%◌, ◌^◌, Bool, true, false, ◌&&◌, Option, none, some, List, [],
  ◌∷◌, ltb, leb, ◌==◌, if◌then◌else◌, set,
}

-- A byte of a `char` array, converted to `unsigned int`: where `char` is signed, bytes above 127 are
-- negative numbers.
unfoldable pub widen : Bool → ℕ → ℕ
widen signed_char c = if signed_char && leb 128 c then c + 2 ^ 32 - 256 else c

module _ (signed_char : Bool) (width : ℕ) where
  -- The loop, with the rounds that are left: the identification, and how many of them remain.
  unfoldable pub pack : ℕ → ℕ → List ℕ → ℕ × ℕ
  unfolding widen
  pack left id [] = (id, left)
  pack zero id (c ∷ cs) = (id, zero)
  pack (suc left) id (c ∷ cs) =
      if c == 0
      then (id, suc left)
      else pack left ((id * 256 + widen signed_char c) % 256 ^ width) cs

  shifted : ℕ × ℕ → ℕ
  shifted (id, left) = (id * 256 ^ left) % 256 ^ width

  -- `getIdentificationFromName`.
  unfoldable pub get_identification_from_name : Option (List ℕ) → ℕ
  unfolding shifted
  get_identification_from_name none = 0
  get_identification_from_name (some []) = 0
  get_identification_from_name (some (c ∷ cs)) =
      if c == 0 then 0 else shifted (pack width 0 (c ∷ cs))

module _ (width : ℕ) where
  -- The loop of `convertIdentificationToString`, with the bytes of the identification that are left.
  unfoldable pub unpack : ℕ → ℕ → ℕ → ℕ → List ℕ → List ℕ
  unpack zero pos length id buffer = buffer
  unpack (suc left) pos length id buffer =
      let rest = unpack left (suc pos) length id (set buffer pos (id / 256 ^ left % 256)) in
      if ltb pos (length - 1) then rest else buffer

  -- `convertIdentificationToString`.
  unfoldable pub convert_identification_to_string : ℕ → Option (List ℕ) → ℕ → Option (List ℕ)
  convert_identification_to_string id none length = none
  convert_identification_to_string id (some buffer) length =
      if ltb 1 length
      then some (
          set (unpack width 0 length id buffer)
            (if ltb (width + 1) length then width else length - 1) 0)
      else some buffer

-- `IdConverter`: the name of an identification of four bytes, in a buffer of its own.
unfoldable pub id_converter : ℕ → List ℕ → Option (List ℕ)
id_converter id name = convert_identification_to_string 4 id (some name) 5

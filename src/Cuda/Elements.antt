-- ===== src/Cuda/Elements.antt =====
-- cuda/elemtype.go: which element types a buffer outside the Go heap may have, and how many elements.
-- reflect's view of a type is a data type.
use simtgo.Base.{
  ℕ, zero, suc, ◌+◌, &&-true, ◌*◌, ◌/◌, ◌≤◌, ◌≡◌, refl, sym, ◌∙◌, ℤ, pos, negsuc, Bool, true, false,
  ◌&&◌, [], ◌∷◌, ◌++◌, Option, some, none, ltb, ◌==◌, if◌then◌else◌, arith, Bool-cases,
  Option-cases, ◌≢◌, inl, inr,
}
use native.Mathlib.Nat.{div-add-mod', mul-le-mul_right}
use simtgo.Cuda.Arch.{Str, max_int}
use simtgo.Cuda.Errors.{CudaError, length_mismatch, too_large}
pub mod Pointers

-- reflect.Kind, but for Invalid, which no type has, and for arrays and structs, which have parts.
pub data Kind : Type 0 where
  bool_kind : Kind
  int_kind int8_kind int16_kind int32_kind int64_kind : Kind
  uint_kind uint8_kind uint16_kind uint32_kind uint64_kind uintptr_kind : Kind
  float32_kind float64_kind complex64_kind complex128_kind : Kind
  chan_kind func_kind interface_kind map_kind pointer_kind slice_kind string_kind : Kind
  unsafe_pointer_kind : Kind

mutual
  -- A type: an array of a length, a struct, or of another kind.
  pub data GoType : Type 0 where
    of_kind : Kind → GoType
    array : ℕ → GoType → GoType
    struct : Fields → GoType

  pub data Fields : Type 0 where
    no_fields : Fields
    field : Str → GoType → Fields → Fields

-- strings.TrimSuffix(path, "[]")
abbrev pub trim_brackets : Str → Str
trim_brackets [] = []
trim_brackets (c ∷ []) = c ∷ []
trim_brackets (c ∷ d ∷ []) = if (c == 91) && (d == 93) then [] else c ∷ d ∷ []
trim_brackets (c ∷ d ∷ e ∷ s) = c ∷ trim_brackets (d ∷ e ∷ s)

-- "." is 46.
unfoldable pub join : Str → Str → Str
join [] name = name
join (c ∷ s) name = trim_brackets (c ∷ s) ++ (46 ∷ name)

-- The kinds that findPointer's switch names.
unfoldable pub allowed : Kind → Bool
allowed bool_kind = true
allowed int_kind = true
allowed int8_kind = true
allowed int16_kind = true
allowed int32_kind = true
allowed int64_kind = true
allowed uint_kind = true
allowed uint8_kind = true
allowed uint16_kind = true
allowed uint32_kind = true
allowed uint64_kind = true
allowed uintptr_kind = true
allowed float32_kind = true
allowed float64_kind = true
allowed complex64_kind = true
allowed complex128_kind = true
allowed _ = false

unfoldable mutual
  unfolding allowed

  -- The path and the kind of the first pointer.
  pub find_pointer : GoType → Str → Option (Str × Kind)
  find_pointer (of_kind k) path = if allowed k then none else some (path, k)
  find_pointer (array n t) path = find_pointer t (path ++ (91 ∷ 93 ∷ []))
  find_pointer (struct fs) path = find_in_fields fs path

  pub find_in_fields : Fields → Str → Option (Str × Kind)
  find_in_fields no_fields path = none
  find_in_fields (field name t fs) path = elim (find_pointer t (join path name)) [
    | some found ↦ some found
    | none ↦ find_in_fields fs path
  ]

-- ElementTypeError, without the operation and the type's name.
pub data ElementError : Type 0 where
  has_pointer : Str → Kind → ElementError  -- path, kind
  zero_sized : ElementError

-- checkElem, of a type and its size.
unfoldable pub check_elem : GoType → ℕ → Option ElementError
unfolding find_pointer
check_elem t size = elim (find_pointer t []) [
  | some (path, kind) ↦ some (has_pointer path kind)
  | none ↦ if size == 0 then some zero_sized else none
]

-- checkExtent, for elements of `size` bytes.
unfoldable pub check_extent : Str → ℕ → ℤ → Option CudaError
unfolding max_int
check_extent op size (negsuc n) = some (length_mismatch op 0 (negsuc n))
check_extent op size (pos n) =
    if ltb 0 size && ltb (max_int / size) n then some (too_large op (pos n) size) else none

-- ===== src/Cuda/Elements/Pointers.antt =====
-- cuda/elemtype.go: what checkElem and checkExtent promise of what they pass.
use simtgo.Base.{
  ℕ, zero, suc, ◌+◌, &&-true, ◌*◌, ◌/◌, ◌≤◌, ◌≡◌, refl, sym, ◌∙◌, ℤ, pos, negsuc, Bool, true, false,
  ◌&&◌, [], ◌∷◌, ◌++◌, some, none, ltb, ◌==◌, if◌then◌else◌, arith, Bool-cases, Option-cases, ◌≢◌,
  inl, inr,
}
use native.Mathlib.Nat.{div-add-mod', mul-le-mul_right}
use simtgo.Cuda.Arch.{Str, max_int}
use simtgo.Cuda.Elements.{
  Kind, bool_kind, int_kind, int8_kind, int16_kind, int32_kind, int64_kind, uint_kind, uint8_kind,
  uint16_kind, uint32_kind, uint64_kind, uintptr_kind, float32_kind, float64_kind, complex64_kind,
  complex128_kind, chan_kind, func_kind, interface_kind, map_kind, pointer_kind, slice_kind,
  string_kind, unsafe_pointer_kind, GoType, of_kind, array, struct, Fields, no_fields, field, join,
  allowed, find_pointer, find_in_fields, has_pointer, zero_sized, check_elem, check_extent,
}

-- The words of a value of a kind that the collector follows, by the layout of Go's values: one in what
-- refers to one object, two in an interface, of which one is its type.
abbrev words_of : Kind → ℕ
words_of chan_kind = 1
words_of func_kind = 1
words_of interface_kind = 2
words_of map_kind = 1
words_of pointer_kind = 1
words_of slice_kind = 1
words_of string_kind = 1
words_of unsafe_pointer_kind = 1
words_of _ = 0

abbrev mutual
  -- How many pointers a value of the type has.
  pub pointers_in : GoType → ℕ
  pointers_in (of_kind k) = words_of k
  pointers_in (array n t) = n * pointers_in t
  pointers_in (struct fs) = pointers_in_fields fs

  pub pointers_in_fields : Fields → ℕ
  pointers_in_fields no_fields = 0
  pointers_in_fields (field name t fs) = pointers_in t + pointers_in_fields fs

abbrev mutual
  -- No array in the type is of length 0.
  pub inhabited : GoType → Bool
  inhabited (of_kind k) = true
  inhabited (array n t) = ltb 0 n && inhabited t
  inhabited (struct fs) = fields_inhabited fs

  pub fields_inhabited : Fields → Bool
  fields_inhabited no_fields = true
  fields_inhabited (field name t fs) = inhabited t && fields_inhabited fs

allowed-words : (k : Kind) → allowed k ≡ true → words_of k ≡ 0
unfolding allowed
allowed-words bool_kind h = refl
allowed-words int_kind h = refl
allowed-words int8_kind h = refl
allowed-words int16_kind h = refl
allowed-words int32_kind h = refl
allowed-words int64_kind h = refl
allowed-words uint_kind h = refl
allowed-words uint8_kind h = refl
allowed-words uint16_kind h = refl
allowed-words uint32_kind h = refl
allowed-words uint64_kind h = refl
allowed-words uintptr_kind h = refl
allowed-words float32_kind h = refl
allowed-words float64_kind h = refl
allowed-words complex64_kind h = refl
allowed-words complex128_kind h = refl
allowed-words chan_kind h = cc
allowed-words func_kind h = cc
allowed-words interface_kind h = cc
allowed-words map_kind h = cc
allowed-words pointer_kind h = cc
allowed-words slice_kind h = cc
allowed-words string_kind h = cc
allowed-words unsafe_pointer_kind h = cc

words-allowed : (k : Kind) → words_of k ≡ 0 → allowed k ≡ true
unfolding allowed
words-allowed bool_kind h = refl
words-allowed int_kind h = refl
words-allowed int8_kind h = refl
words-allowed int16_kind h = refl
words-allowed int32_kind h = refl
words-allowed int64_kind h = refl
words-allowed uint_kind h = refl
words-allowed uint8_kind h = refl
words-allowed uint16_kind h = refl
words-allowed uint32_kind h = refl
words-allowed uint64_kind h = refl
words-allowed uintptr_kind h = refl
words-allowed float32_kind h = refl
words-allowed float64_kind h = refl
words-allowed complex64_kind h = refl
words-allowed complex128_kind h = refl
words-allowed chan_kind h = cc
words-allowed func_kind h = cc
words-allowed interface_kind h = cc
words-allowed map_kind h = cc
words-allowed pointer_kind h = cc
words-allowed slice_kind h = cc
words-allowed string_kind h = cc
words-allowed unsafe_pointer_kind h = cc

mutual
  unfolding find_pointer

  find_pointer-none : (t : GoType) (path : Str) → find_pointer t path ≡ none → pointers_in t ≡ 0
  find_pointer-none (of_kind k) path h = allowed-words k (ground arith)
  find_pointer-none (array n t) path h =
      let e = find_pointer-none t (path ++ (91 ∷ 93 ∷ [])) h in rw e (omega arith)
  find_pointer-none (struct fs) path h = find_in_fields-none fs path h

  find_in_fields-none :
      (fs : Fields) (path : Str) → find_in_fields fs path ≡ none → pointers_in_fields fs ≡ 0
  find_in_fields-none no_fields path h = refl
  find_in_fields-none (field name t fs) path h =
      let a = find_pointer-none t (join path name) in
      let b = find_in_fields-none fs path in ground arith

mutual
  unfolding find_pointer

  find_pointer-free :
      (t : GoType) (path : Str)
      → pointers_in t ≡ 0
      → inhabited t ≡ true
      → find_pointer t path ≡ none
  find_pointer-free (of_kind k) path h i = rw (words-allowed k h) refl
  find_pointer-free (array zero t) path h i = cc
  find_pointer-free (array (suc n) t) path h i =
      find_pointer-free t (path ++ (91 ∷ 93 ∷ [])) (omega (arith, h))
        (&&-true (ltb 0 (suc n)) (inhabited t) i).1
  find_pointer-free (struct fs) path h i = find_in_fields-free fs path h i

  find_in_fields-free :
      (fs : Fields) (path : Str)
      → pointers_in_fields fs ≡ 0
      → fields_inhabited fs ≡ true
      → find_in_fields fs path ≡ none
  find_in_fields-free no_fields path h i = refl
  find_in_fields-free (field name t fs) path h i =
      let both = &&-true (inhabited t) (fields_inhabited fs) i in
      let a = find_pointer-free t (join path name) (omega (arith, h)) both.0 in
      let b = find_in_fields-free fs path (omega (arith, h)) both.1 in ground arith

nonzero : (size : ℕ) → (if size == 0 then some zero_sized else none) ≡ none → size ≢ 0
nonzero size h e = ground arith

check_elem-found :
    (t : GoType) (size : ℕ) (f : Str × Kind)
    → find_pointer t [] ≡ some f
    → check_elem t size ≡ some (has_pointer f.0 f.1)
unfolding check_elem
check_elem-found t size f e = rw (check_elem, e) refl

check_elem-plain :
    (t : GoType) (size : ℕ)
    → find_pointer t [] ≡ none
    → check_elem t size ≡ (if size == 0 then some zero_sized else none)
unfolding check_elem
check_elem-plain t size e = rw (check_elem, e) refl

-- A type that checkElem passes has a size other than 0, and no value of it has a pointer that the
-- collector follows. A type without such pointers and with such a size is passed, unless an array of
-- length 0 is a part of it.
pub check_elem-pointers_in :
    (t : GoType) (size : ℕ)
    → (check_elem t size ≡ none → (pointers_in t ≡ 0) × (size ≢ 0))
      × (inhabited t ≡ true → pointers_in t ≡ 0 → size ≢ 0 → check_elem t size ≡ none)
check_elem-pointers_in t size = (
  λ h. elim (Option-cases (find_pointer t [])) [
    | inl e ↦
        let h' = sym (check_elem-plain t size e) ∙ h in (find_pointer-none t [] e, nonzero size h')
    | inr (f, e) ↦ let bad = sym (check_elem-found t size f e) ∙ h in cc
  ],
  λ i p n.
      let e = find_pointer-free t [] p i in
      let z : (size == 0) ≡ false = ground arith in check_elem-plain t size e ∙ rw z refl,
)

-- A count that checkExtent passes is not negative, and the size of that many elements is at most the
-- largest int.
pub check_extent-none :
    (op : Str) (size : ℕ) (n : ℤ)
    → check_extent op size n ≡ none
    → (m : ℕ) × (n ≡ pos m) × (m * size ≤ max_int)
unfolding check_extent
check_extent-none op size (negsuc n) h = cc
check_extent-none op size (pos n) h = elim (Bool-cases (ltb 0 size)) [
  | inl e ↦
      let le : n ≤ max_int / size = ground arith in
      let m = mul-le-mul_right size le in
      let s = div-add-mod' max_int size in (n, refl, omega (arith, m, s))
  | inr e ↦ let z : size ≡ 0 = ground arith in (n, refl, rw z (omega arith))
]

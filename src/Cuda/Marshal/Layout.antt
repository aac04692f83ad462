-- ===== src/Cuda/Marshal/Layout.antt =====
-- cuda/driver_cuda.go: the driver reads each argument whole at the address it is given.
use simtgo.Base.{
  ℕ, zero, suc, ◌+◌, ◌%◌, ◌≤◌, ◌<◌, ◌≡◌, refl, ap, sym, ◌∙◌, List, [], ◌∷◌, some, length, get_elem?,
  arith,
}
use simtgo.Cuda.Args.{Arg}
use simtgo.Cuda.Marshal.{max, slot, offsets_from, total_from, copy, copy_at, zeros, fill, marshal}

-- What the driver reads: n bytes from an offset on.
unfoldable pub read : List ℕ → ℕ → ℕ → List ℕ
read st o zero = []
read [] o (suc n) = []
read (x ∷ st) zero (suc n) = x ∷ read st zero n
read (x ∷ st) (suc o) (suc n) = read st o (suc n)

slot-bounds : (a : Arg) → (length a ≤ slot a) × (slot a % 8 ≡ 0) × (0 < slot a)
unfolding slot
slot-bounds a = ground arith

length-zeros : (n : ℕ) → length (zeros n) ≡ n
unfolding zeros
length-zeros zero = refl
length-zeros (suc n) = ap suc (length-zeros n)

length-copy : (st b : List ℕ) → length (copy st b) ≡ length st
unfolding copy
length-copy [] b = refl
length-copy (x ∷ st) [] = refl
length-copy (x ∷ st) (c ∷ b) = ap suc (length-copy st b)

length-copy_at : (st : List ℕ) (o : ℕ) (b : List ℕ) → length (copy_at st o b) ≡ length st
unfolding copy_at
length-copy_at st zero b = length-copy st b
length-copy_at [] (suc o) b = refl
length-copy_at (x ∷ st) (suc o) b = ap suc (length-copy_at st o b)

read-copy : (st b : List ℕ) → length b ≤ length st → read (copy st b) 0 (length b) ≡ b
unfolding read copy
read-copy st [] h = refl
read-copy [] (c ∷ b) h = elim h [ ]
read-copy (x ∷ st) (c ∷ b) h = ap (λ t. c ∷ t) (read-copy st b (omega arith))

read-nil : (o n : ℕ) → read [] o n ≡ []
unfolding read
read-nil o zero = refl
read-nil o (suc n) = refl

read-copy_at :
    (st : List ℕ) (o : ℕ) (b : List ℕ)
    → o + length b ≤ length st
    → read (copy_at st o b) o (length b) ≡ b
unfolding read copy_at
read-copy_at st zero b h = read-copy st b (omega arith)
read-copy_at [] (suc o) b h = let bad : 1 ≤ 0 = omega arith in elim bad [ ]
read-copy_at (x ∷ st) (suc o) [] h = refl
read-copy_at (x ∷ st) (suc o) (c ∷ b) h = read-copy_at st o (c ∷ b) (omega arith)

-- A write at o leaves what lies before o.
read-copy_at_before :
    (st : List ℕ) (o : ℕ) (b : List ℕ) (p n : ℕ)
    → p + n ≤ o
    → read (copy_at st o b) p n ≡ read st p n
unfolding read copy_at
read-copy_at_before st o b p zero h = refl
read-copy_at_before [] (suc o) b p (suc n) h = refl
read-copy_at_before [] zero b p (suc n) h = refl
read-copy_at_before (x ∷ st) (suc o) b zero (suc n) h =
    ap (λ t. x ∷ t) (read-copy_at_before st o b 0 n (omega arith))
read-copy_at_before (x ∷ st) (suc o) b (suc p) (suc n) h =
    read-copy_at_before st o b p (suc n) (omega arith)
read-copy_at_before (x ∷ st) zero b p (suc n) h = let bad : 1 ≤ 0 = omega arith in elim bad [ ]

-- Arguments laid out from `total` on leave what lies before it.
read-fill_before :
    (l : List Arg) (st : List ℕ) (total p n : ℕ)
    → p + n ≤ total
    → read (fill st (offsets_from total l) l) p n ≡ read st p n
unfolding fill offsets_from
read-fill_before [] st total p n h = refl
read-fill_before (a ∷ l) st total p n h =
    read-fill_before l (copy_at st total a) (total + slot a) p n (omega arith)
    ∙ read-copy_at_before st total a p n h

total_from-ge : (l : List Arg) (total : ℕ) → total ≤ total_from total l
unfolding total_from
total_from-ge [] total = omega arith
total_from-ge (a ∷ l) total = omega (arith, total_from-ge l (total + slot a))

read-fill :
    (l : List Arg) (st : List ℕ) (total i : ℕ) (a : Arg)
    → total % 8 ≡ 0
    → total_from total l ≤ length st
    → get_elem? l i ≡ some a
    → (o : ℕ) × (get_elem? (offsets_from total l) i ≡ some o)
      × (o % 8 ≡ 0)
      × (o + length a ≤ length st)
      × (read (fill st (offsets_from total l) l) o (length a) ≡ a)
unfolding fill offsets_from total_from
read-fill [] st total i a m fits h = cc
read-fill (b ∷ l) st total zero a m fits h =
    let e : b ≡ a = cc in
    let s = slot-bounds b in
    let ge = total_from-ge l (total + slot b) in
    let in_block : total + length b ≤ length st = omega (arith, ge, s) in
    let kept =
      read-fill_before l (copy_at st total b) (total + slot b) total (length b)
        (omega (arith, s)) in
    rw (sym e) (total, refl, m, in_block, kept ∙ read-copy_at st total b in_block)
read-fill (b ∷ l) st total (suc i) a m fits h =
    let s = slot-bounds b in
    let long = length-copy_at st total b in
    let (o, e, m', fits', r) =
      read-fill l (copy_at st total b) (total + slot b) i a (omega (arith, s)) (omega (arith, long))
        h in
    (o, e, m', omega (arith, long, fits'), r)

length-fill : (l : List Arg) (st os : List ℕ) → length (fill st os l) ≡ length st
unfolding fill
length-fill l st [] = refl
length-fill [] st (o ∷ os) = refl
length-fill (a ∷ l) st (o ∷ os) = length-fill l (copy_at st o a) os ∙ length-copy_at st o a

-- Every argument has an entry in the table; its address is a multiple of 8, the argument's bytes lie
-- within the block from there on, and they are what is read there.
pub marshal-read :
    (l : List Arg) (i : ℕ) (a : Arg)
    → get_elem? l i ≡ some a
    → (o : ℕ) × (get_elem? (marshal l).1 i ≡ some o)
      × (o % 8 ≡ 0)
      × (o + length a ≤ length (marshal l).0)
      × (read (marshal l).0 o (length a) ≡ a)
unfolding marshal
marshal-read l i a h =
    let n = max (total_from 0 l) 8 in
    let enough : total_from 0 l ≤ length (zeros n) = rw (length-zeros n) (ground arith) in
    let (o, e, m, fits, r) = read-fill l (zeros n) 0 i a refl enough h in
    (o, e, m, rw (length-fill l (zeros n) (offsets_from 0 l)) fits, r)

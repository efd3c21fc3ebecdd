-- ===== src/Arrow/Make/Rows.antt =====
-- The shapes of the rows of an array that is made of rows of many shapes.
use arcae.Prelude.{
  ℕ, zero, suc, ◌+◌, ◌-◌, ◌*◌, ◌<◌, ◌≤◌, ◌≡◌, refl, sym, ap, ◌∙◌, Bool, true, false, ◌&&◌, not,
  List, [], ◌∷◌, ◌++◌, map, reverse, take, length, length-map, length-append, append_assoc, get_or,
  sum, product, All, ltb, ◌==◌, ==_iff, arith, Result, ok, ◌>>=◌, ◌>>◌, fail_if, not_implemented,
  invalid,
}
use mathlib.Core.List.{reverse-cons}
use arcae.Arrow.{ListLevel, ArrowArray, list, array_length}
use arcae.Arrow.Shape.{same_lengths, row_shape_loop}
use arcae.Arrow.Offsets.Nested.{
  steps, runs_of, tail, AllRank, AllPositive, AllRank-tail, AllPositive-tail, offsets_of,
}
use arcae.Arrow.Make.{Lists, nest_lists}

-- The elements of the rows before row `r`.
abbrev pub before : List (List ℕ) → ℕ → ℕ
before rows r = sum (map product (take r rows))

head : List ℕ → ℕ
head [] = 0
head (x ∷ xs) = x

steps-get :
    (n size start k : ℕ) (rest : List ℕ)
    → k ≤ n
    → get_or (start ∷ (steps n size start ++ rest)) k 0 ≡ start + k * size
steps-get n size start zero rest l = omega arith
steps-get zero size start (suc k) rest l = absurd (omega arith)
steps-get (suc n) size start (suc k) rest l =
    let times : suc k * size ≡ size + k * size = grind arith in
    steps-get n size (start + size) k rest (omega arith) ∙ omega (arith, times)

steps-skip :
    (n size start i : ℕ) (rest : List ℕ)
    → get_or (start ∷ (steps n size start ++ rest)) (n + i) 0
      ≡ get_or ((start + n * size) ∷ rest) i 0
steps-skip zero size start i rest =
    let at : 0 + i ≡ i = omega arith in
    let e : start ≡ start + 0 * size = omega arith in
    ap (λ i. get_or (start ∷ rest) i 0) at ∙ ap (λ n. get_or (n ∷ rest) i 0) e
steps-skip (suc n) size start i rest =
    let at : suc n + i ≡ suc (n + i) = omega arith in
    let times : start + size + n * size ≡ start + suc n * size = grind arith in
    ap (λ i. get_or (start ∷ (steps (suc n) size start ++ rest)) i 0) at
    ∙ steps-skip n size (start + size) i rest
    ∙ ap (λ n. get_or (n ∷ rest) i 0) times

-- The offset of the `k`th list that row `r` has.
runs_of-get :
    (n : ℕ) (rows : List (List ℕ)) (r k start : ℕ)
    → AllRank (suc n) rows
    → r < length rows
    → k ≤ product (tail (get_or rows r []))
    → get_or (start ∷ runs_of rows start) (before (map tail rows) r + k) 0
      ≡ start + before rows r + k * head (get_or rows r [])
unfolding head
runs_of-get n [] r k start h l m = absurd (omega arith)
runs_of-get n ([] ∷ rows) r k start h l m = absurd (omega (arith, h.0))
runs_of-get n ((size ∷ sizes) ∷ rows) zero k start h l m =
    let at : 0 + k ≡ k = omega arith in
    ap
      (λ i.
        get_or
          (start
            ∷ (steps (product sizes) size start ++ runs_of rows (start + product sizes * size)))
          i 0)
      at
    ∙ steps-get (product sizes) size start k (runs_of rows (start + product sizes * size)) m
    ∙ omega arith
runs_of-get n ((size ∷ sizes) ∷ rows) (suc r) k start h l m =
    let at : product sizes + before (map tail rows) r + k
        ≡ product sizes + (before (map tail rows) r + k) =
      omega arith in
    let times : product sizes * size ≡ size * product sizes = grind arith in
    ap
      (λ i.
        get_or
          (start
            ∷ (steps (product sizes) size start ++ runs_of rows (start + product sizes * size)))
          i 0)
      at
    ∙ steps-skip (product sizes) size start (before (map tail rows) r + k)
        (runs_of rows (start + product sizes * size))
    ∙ runs_of-get n rows r k (start + product sizes * size) h.1 (omega arith) m
    ∙ omega (arith, times)

before_next :
    (rows : List (List ℕ)) (r : ℕ)
    → r < length rows
    → before rows (suc r) ≡ before rows r + product (get_or rows r [])
before_next [] r l = absurd (omega arith)
before_next (sizes ∷ rows) zero l = omega arith
before_next (sizes ∷ rows) (suc r) l = omega (arith, before_next rows r (omega arith))

-- Lists of one length.
same_lengths-run :
    (level : ListLevel) (size s c rounds i : ℕ)
    → ((k : ℕ) → k < c → level.value_length (s + k) ≡ size)
    → i + rounds ≤ c
    → same_lengths level size rounds (s + i) ≡ true
unfolding same_lengths
same_lengths-run level size s c zero i h l = refl
same_lengths-run level size s c (suc rounds) i h l =
    let first : (size == level.value_length (s + i)) ≡ true =
      (==_iff size (level.value_length (s + i))).1 (sym (h i (omega arith))) in
    let at : suc (s + i) ≡ s + suc i = omega arith in
    ap (λ b. b && same_lengths level size rounds (suc (s + i))) first
    ∙ ap (same_lengths level size rounds) at
    ∙ same_lengths-run level size s c rounds (suc i) h (omega arith)

-- What is found for the values of each row.
abbrev pub FindsRows : ArrowArray → List (List ℕ) → (ℕ → List ℕ) → Type 0
FindsRows values rows found =
    (r : ℕ)
    → r < length rows
    → row_shape_loop values (before rows r) (before rows (suc r)) ≡ ok (found r)

get_or-map-tail :
    (rows : List (List ℕ)) (r : ℕ) → get_or (map tail rows) r [] ≡ tail (get_or rows r [])
get_or-map-tail [] r = refl
get_or-map-tail (sizes ∷ rows) zero = refl
get_or-map-tail (sizes ∷ rows) (suc r) = get_or-map-tail rows r

product-head-tail :
    (n : ℕ) (sizes : List ℕ)
    → length sizes ≡ suc n
    → product sizes ≡ product (tail sizes) * head sizes
unfolding head
product-head-tail n [] h = absurd (omega (arith, h))
product-head-tail n (size ∷ sizes) h = grind arith

All-get :
    (P : List ℕ → Type 0) (rows : List (List ℕ)) (r : ℕ)
    → All P rows
    → r < length rows
    → P (get_or rows r [])
All-get P [] r h l = absurd (omega arith)
All-get P (sizes ∷ rows) zero h l = h.0
All-get P (sizes ∷ rows) (suc r) h l = All-get P rows r h.1 (omega arith)

product-tail-pos : (sizes : List ℕ) → All (λ size. 0 < size) sizes → 0 < product (tail sizes)
product-tail-pos [] h = omega arith
product-tail-pos (size ∷ sizes) h = product_pos sizes h.1
  where
    product_pos : (sizes : List ℕ) → All (λ size. 0 < size) sizes → 0 < product sizes
    product_pos [] h = omega arith
    product_pos (size ∷ sizes) h =
        let rest = product_pos sizes h.1 in
        let e : size * product sizes ≡ product sizes + (size - 1) * product sizes =
          (let whole : size ≡ suc (size - 1) = omega (arith, h.0) in
            ap (λ n. n * product sizes) whole ∙ grind arith) in
        omega (arith, rest, e)

-- The lists of a dimension, over what the dimensions below hold.
module _ (n : ℕ) (rows : List (List ℕ)) (ranked : AllRank (suc n) rows)
    (positive : AllPositive rows) (level : ListLevel) (values : ArrowArray)
    (nulls : level.null_count ≡ 0)
    (offset : (i : ℕ) → level.value_offset i ≡ get_or (0 ∷ runs_of rows 0) i 0)
    (lengths : (i : ℕ)
      → level.value_length i
        ≡ get_or (0 ∷ runs_of rows 0) (suc i) 0 - get_or (0 ∷ runs_of rows 0) i 0) where
  module _ (r : ℕ) (inside : r < length rows) where
    count : ℕ
    count = product (tail (get_or rows r []))

    offset_at :
        (k : ℕ)
        → k ≤ count
        → get_or (0 ∷ runs_of rows 0) (before (map tail rows) r + k) 0
          ≡ before rows r + k * head (get_or rows r [])
    unfolding count
    offset_at k l = runs_of-get n rows r k 0 ranked inside l ∙ omega arith

    length_at :
        (k : ℕ)
        → k < count
        → level.value_length (before (map tail rows) r + k) ≡ head (get_or rows r [])
    length_at k l =
        let at : suc (before (map tail rows) r + k) ≡ before (map tail rows) r + suc k =
          omega arith in
        let times : suc k * head (get_or rows r [])
            ≡ head (get_or rows r []) + k * head (get_or rows r []) =
          grind arith in
        omega (
          arith,
          lengths (before (map tail rows) r + k),
          ap (λ i. get_or (0 ∷ runs_of rows 0) i 0) at,
          offset_at k (omega arith),
          offset_at (suc k) (omega arith),
          times,
        )

    next_list : before (map tail rows) (suc r) ≡ before (map tail rows) r + count
    unfolding count
    next_list =
        before_next (map tail rows) r (omega (arith, inside, length-map rows tail))
        ∙ ap (λ sizes. before (map tail rows) r + product sizes) (get_or-map-tail rows r)

    offset_start : level.value_offset (before (map tail rows) r) ≡ before rows r
    offset_start =
        let at : before (map tail rows) r ≡ before (map tail rows) r + 0 = omega arith in
        omega (
          arith,
          offset (before (map tail rows) r),
          ap (λ i. get_or (0 ∷ runs_of rows 0) i 0) at,
          offset_at 0 (omega arith),
        )

    offset_end : level.value_offset (before (map tail rows) (suc r)) ≡ before rows (suc r)
    unfolding count
    offset_end =
        let whole =
          product-head-tail n (get_or rows r [])
            (All-get (λ (sizes : List ℕ). length sizes ≡ suc n) rows r ranked inside) in
        ap level.value_offset next_list
        ∙ offset (before (map tail rows) r + count)
        ∙ offset_at count (omega arith)
        ∙ omega (arith, before_next rows r inside, whole)

    some_list : 0 < count
    unfolding count
    some_list =
        product-tail-pos (get_or rows r [])
          (All-get (λ (sizes : List ℕ). All (λ size. 0 < size) sizes) rows r positive inside)

    passes :
        (not level.is_fixed_size
          && not (
              same_lengths level
                (level.value_length (before (map tail rows) r))
                (before (map tail rows) (suc r) - (before (map tail rows) r + 1))
                (before (map tail rows) r + 1)))
        ≡ false
    unfolding count
    passes =
        let start = before (map tail rows) r in
        let size = head (get_or rows r []) in
        let at : start ≡ start + 0 = omega arith in
        let rounds : before (map tail rows) (suc r) - (start + 1) ≡ count - 1 =
          omega (arith, next_list) in
        ap (λ n. tested n (before (map tail rows) (suc r) - (start + 1)))
          (ap level.value_length at ∙ length_at 0 some_list)
        ∙ ap (tested size) rounds
        ∙ ap (λ b. not level.is_fixed_size && not b)
            (same_lengths-run level size start count (count - 1) 1 length_at
              (omega (arith, some_list)))
        ∙ and_false (not level.is_fixed_size)
      where
        tested : ℕ → ℕ → Bool
        tested size rounds =
            not level.is_fixed_size
            && not (same_lengths level size rounds (before (map tail rows) r + 1))

        and_false : (b : Bool) → (b && false) ≡ false
        and_false true = refl
        and_false false = refl

  FindsRows-list :
      (found : ℕ → List ℕ)
      → FindsRows values rows found
      → FindsRows (list level values) (map tail rows) (λ r. head (get_or rows r []) ∷ found r)
  unfolding row_shape_loop
  FindsRows-list found h r l =
      let inside : r < length rows = omega (arith, l, length-map rows tail) in
      let start = before (map tail rows) r in
      let end = before (map tail rows) (suc r) in
      let at : start ≡ start + 0 = omega arith in
      let first : level.value_length start ≡ head (get_or rows r []) =
        ap level.value_length at ∙ length_at r inside 0 (some_list r inside) in
      ap (λ n. fail_if (ltb 0 n) not_implemented >> after_nulls start end) nulls
      ∙ ap (λ b. fail_if b invalid >> after_check start end) (passes r inside)
      ∙ ap (λ s. inner start s (level.value_offset end)) (offset_start r inside)
      ∙ ap (λ e. inner start (before rows r) e) (offset_end r inside)
      ∙ ap (λ (shape : Result (List ℕ)). shape >>= λ rest. ok (level.value_length start ∷ rest))
          (h r inside)
      ∙ ap (λ n. ok (n ∷ found r)) first
    where
      inner : ℕ → ℕ → ℕ → Result (List ℕ)
      inner start s e = row_shape_loop values s e >>= λ rest. ok (level.value_length start ∷ rest)

      after_check : ℕ → ℕ → Result (List ℕ)
      after_check start end = inner start (level.value_offset start) (level.value_offset end)

      after_nulls : ℕ → ℕ → Result (List ℕ)
      after_nulls start end =
          fail_if
            (not level.is_fixed_size
              && not
                  (same_lengths level (level.value_length start) (end - (start + 1)) (start + 1)))
            invalid
          >> after_check start end

length-steps : (n size start : ℕ) → length (steps n size start) ≡ n
length-steps zero size start = refl
length-steps (suc n) size start = ap suc (length-steps n size (start + size))

length-runs_of :
    (n : ℕ) (rows : List (List ℕ)) (start : ℕ)
    → AllRank (suc n) rows
    → length (runs_of rows start) ≡ sum (map product (map tail rows))
length-runs_of n [] start h = refl
length-runs_of n ([] ∷ rows) start h = absurd (omega (arith, h.0))
length-runs_of n ((size ∷ sizes) ∷ rows) start h =
    length-append (steps (product sizes) size start) _
    ∙ omega (
      arith,
      length-steps (product sizes) size start,
      length-runs_of n rows (start + product sizes * size) h.1,
    )

-- Rows without dimensions have an element each.
before_scalars :
    (rows : List (List ℕ)) (r : ℕ) → AllRank 0 rows → r ≤ length rows → before rows r ≡ r
before_scalars rows zero h l = refl
before_scalars [] (suc r) h l = absurd (omega arith)
before_scalars ([] ∷ rows) (suc r) h l = omega (arith, before_scalars rows r h.1 (omega arith))
before_scalars ((size ∷ sizes) ∷ rows) (suc r) h l = absurd (omega (arith, h.0))

total_scalars : (rows : List (List ℕ)) → AllRank 0 rows → sum (map product rows) ≡ length rows
total_scalars [] h = refl
total_scalars ([] ∷ rows) h = omega (arith, total_scalars rows h.1)
total_scalars ((size ∷ sizes) ∷ rows) h = absurd (omega (arith, h.0))

reverse_scalar : (rows : List (List ℕ)) (r : ℕ) → AllRank 0 rows → reverse (get_or rows r []) ≡ []
reverse_scalar [] r h = refl
reverse_scalar ([] ∷ rows) zero h = refl
reverse_scalar ((size ∷ sizes) ∷ rows) zero h = absurd (omega (arith, h.0))
reverse_scalar (sizes ∷ rows) (suc r) h = reverse_scalar rows r h.1

reverse-head-tail :
    (n : ℕ) (sizes found : List ℕ)
    → length sizes ≡ suc n
    → reverse (tail sizes) ++ (head sizes ∷ found) ≡ reverse sizes ++ found
unfolding head
reverse-head-tail n [] found h = absurd (omega (arith, h))
reverse-head-tail n (size ∷ sizes) found h =
    sym (append_assoc (reverse sizes) (size ∷ []) found)
    ∙ ap (λ l. l ++ found) (sym (reverse-cons size sizes))

module _ ⦃lists : Lists⦄ where
  pub nest_lists-rows :
      (n : ℕ) (rows : List (List ℕ)) (found : ℕ → List ℕ) (values : ArrowArray)
      → AllRank n rows
      → AllPositive rows
      → array_length values ≡ sum (map product rows)
      → FindsRows values rows found
      → (a : ArrowArray) × (nest_lists (offsets_of n rows) values ≡ ok a)
        × (array_length a ≡ length rows)
        × ((r : ℕ)
            → r < length rows
            → row_shape_loop a r (suc r) ≡ ok (reverse (get_or rows r []) ++ found r))
  unfolding nest_lists
  nest_lists-rows zero rows found values ranked positive total h = (
    values,
    refl,
    total ∙ total_scalars rows ranked,
    λ r l.
        ap (λ s. row_shape_loop values s (suc r)) (sym (before_scalars rows r ranked (omega arith)))
        ∙ ap (row_shape_loop values (before rows r)) (sym (before_scalars rows (suc r) ranked l))
        ∙ h r l
        ∙ ap (λ l. ok (l ++ found r)) (sym (reverse_scalar rows r ranked)),
  )
  nest_lists-rows (suc n) rows found values ranked positive total h =
      let (level, made, varies, nulls, count, offset, lengths) =
        lists.offset_lists (0 ∷ runs_of rows 0) values (omega arith) in
      let above = FindsRows-list n rows ranked positive level values nulls offset lengths found h in
      let (a, nested, outer, shapes) =
        nest_lists-rows n (map tail rows) (λ r. head (get_or rows r []) ∷ found r)
          (list level values) (AllRank-tail n rows ranked) (AllPositive-tail rows positive)
          (count ∙ omega (arith, length-runs_of n rows 0 ranked)) above in
      (
        a,
        ap (λ (r : Result ArrowArray). r >>= nest_lists (offsets_of n (map tail rows))) made
            ∙ nested,
        outer ∙ length-map rows tail,
        λ r l.
            shapes r (omega (arith, l, length-map rows tail))
            ∙ ap (λ sizes. ok (reverse sizes ++ (head (get_or rows r []) ∷ found r)))
                (get_or-map-tail rows r)
            ∙ ap ok (
                reverse-head-tail n (get_or rows r []) (found r)
                  (All-get (λ (sizes : List ℕ). length sizes ≡ suc n) rows r ranked l)),
      )

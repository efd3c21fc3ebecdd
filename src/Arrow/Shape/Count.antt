-- ===== src/Arrow/Shape/Count.antt =====
-- The shape that is found accounts for the values that the lists hold.
use arcae.Prelude.{
  ℕ, zero, suc, ◌+◌, ◌-◌, ◌*◌, ◌<◌, ◌≤◌, ◌≡◌, refl, sym, ap, ◌∙◌, Bool, true, false, ◌&&◌, not,
  List, [], ◌∷◌, product, ltb, ◌==◌, arith, Bool-cases, inl, inr, &&-eq-true, ==_iff, fail_if-eq-ok,
  traverse, iota, map, sum, ok, >>=-eq-ok, fail_if, not_implemented, invalid,
}
use native.Mathlib.Decide.{dec_lt}
use arcae.Arrow.{ListLevel, ArrowArray, leaf, other, list, array_length}
use arcae.Arrow.Shape.{same_lengths, row_shape_loop, get_row_shapes}

-- A list ends where the next begins.
abbrev pub HasOffsets : ListLevel → Type 0
HasOffsets level =
    (i : ℕ)
    → i < level.length
    → level.value_offset (suc i) ≡ level.value_offset i + level.value_length i

-- What Arrow keeps, also of an array that is a slice of another: a list ends where the next begins, and
-- the last does not end behind the values. The lists of an array of fixed size have one length.
abbrev pub IsLevel : ListLevel → ArrowArray → Type 0
IsLevel level values =
    HasOffsets level
    × (level.value_offset level.length ≤ array_length values)
    × (level.is_fixed_size ≡ true → (i : ℕ) → level.value_length i ≡ level.value_length 0)

abbrev pub IsArray : ArrowArray → Type 0
IsArray (leaf n) = Unit
IsArray (other n) = Unit
IsArray (list level values) = IsLevel level values × IsArray values

-- The number of values at the end of the nesting that belong to the values before `i`.
abbrev pub leaf_offset : ArrowArray → ℕ → ℕ
leaf_offset (leaf n) i = i
leaf_offset (other n) i = i
leaf_offset (list level values) i = leaf_offset values (level.value_offset i)

-- No array of lists is a slice: the first list begins at the first value, and the last one ends at the
-- last.
abbrev pub IsWhole : ArrowArray → Type 0
IsWhole (leaf n) = Unit
IsWhole (other n) = Unit
IsWhole (list level values) =
    (level.value_offset 0 ≡ 0)
    × (level.value_offset level.length ≡ array_length values)
    × IsWhole values

-- Lists of one length one after the other.
pub run_length :
    (level : ListLevel) (dim_size rounds i : ℕ)
    → HasOffsets level
    → i + rounds ≤ level.length
    → same_lengths level dim_size rounds i ≡ true
    → level.value_offset (i + rounds) ≡ level.value_offset i + rounds * dim_size
unfolding same_lengths
run_length level dim_size zero i h l same =
    let at : i + 0 ≡ i = omega arith in ap level.value_offset at ∙ omega arith
run_length level dim_size (suc rounds) i h l same =
    let parts = &&-eq-true (dim_size == level.value_length i) _ same in
    let first : dim_size ≡ level.value_length i =
      (==_iff dim_size (level.value_length i)).0 parts.0 in
    let later = run_length level dim_size rounds (suc i) h (omega arith) parts.1 in
    let at : i + suc rounds ≡ suc i + rounds = omega arith in
    let times : suc rounds * dim_size ≡ dim_size + rounds * dim_size = grind arith in
    ap level.value_offset at ∙ omega (arith, later, h i (omega arith), first, times)

-- The lists of an array of fixed size.
pub fixed_length :
    (level : ListLevel) (start i : ℕ)
    → HasOffsets level
    → ((i : ℕ) → level.value_length i ≡ level.value_length 0)
    → (n : ℕ) → i + n ≤ level.length
    → level.value_offset (i + n) ≡ level.value_offset i + n * level.value_length start
fixed_length level start i h equal zero l =
    let at : i + 0 ≡ i = omega arith in ap level.value_offset at ∙ omega arith
fixed_length level start i h equal (suc n) l =
    let at : i + suc n ≡ suc (i + n) = omega arith in
    let times : suc n * level.value_length start
        ≡ level.value_length start + n * level.value_length start =
      grind arith in
    ap level.value_offset at
    ∙ omega (
      arith,
      h (i + n) (omega arith),
      fixed_length level start i h equal n (omega arith),
      equal (i + n),
      equal start,
      times,
    )

-- The check of `GetRowShapes` at a level.
abbrev pub checked : ListLevel → ℕ → ℕ → Bool
checked level start end =
    not level.is_fixed_size
    && not (same_lengths level (level.value_length start) (end - (start + 1)) (start + 1))

-- Lists that pass it hold as many values as there are lists, times the length of the first.
level_values :
    (level : ListLevel) (values : ArrowArray) (start end : ℕ)
    → IsLevel level values
    → start ≤ end
    → end ≤ level.length
    → checked level start end ≡ false
    → level.value_offset end ≡ level.value_offset start + (end - start) * level.value_length start
level_values level values start end h l inside check = elim (Bool-cases level.is_fixed_size) [
  | inl fixed ↦
      let at : end ≡ start + (end - start) = omega arith in
      ap level.value_offset at
      ∙ fixed_length level start start h.0 (h.2 fixed) (end - start) (omega arith)
  | inr varies ↦ elim (dec_lt start end) [
    | no empty ↦
        let same : end ≡ start = omega arith in
        ap level.value_offset same ∙ omega (arith, none_left (omega arith))
    | yes some_there ↦
        let at : end ≡ suc start + (end - (start + 1)) = omega arith in
        let next : start + 1 ≡ suc start = omega arith in
        let same : same_lengths level (level.value_length start) (end - (start + 1)) (suc start)
            ≡ true =
          ap (same_lengths level (level.value_length start) (end - (start + 1))) (sym next)
          ∙ grind arith in
        ap level.value_offset at
        ∙ run_length level (level.value_length start) (end - (start + 1)) (suc start) h.0
            (omega arith) same
        ∙ omega (arith, h.0 start (omega arith), times some_there)
  ]
]
  where
    none_left : end ≤ start → (end - start) * level.value_length start ≡ 0
    none_left le = let gap : end - start ≡ 0 = omega arith in rw gap (grind arith)

    times :
        start < end
        → level.value_length start + (end - (start + 1)) * level.value_length start
          ≡ (end - start) * level.value_length start
    times lt = let gap : end - start ≡ suc (end - (start + 1)) = omega arith in rw gap (grind arith)

rising :
    (level : ListLevel) (n i : ℕ)
    → HasOffsets level
    → i + n ≤ level.length
    → level.value_offset i ≤ level.value_offset (i + n)
rising level zero i h l =
    let at : i + 0 ≡ i = omega arith in omega (arith, ap level.value_offset at)
rising level (suc n) i h l =
    let at : i + suc n ≡ suc (i + n) = omega arith in
    omega
      (arith, ap level.value_offset at, rising level n i h (omega arith), h (i + n) (omega arith))

pub value_offset-le :
    (level : ListLevel) (values : ArrowArray) (i : ℕ)
    → IsLevel level values
    → i ≤ level.length
    → level.value_offset i ≤ array_length values
value_offset-le level values i h l =
    let at : i + (level.length - i) ≡ level.length = omega arith in
    omega
      (arith, rising level (level.length - i) i h.0 (omega arith), ap level.value_offset at, h.1)

-- The shape that `GetRowShapes` finds for the values from `start` up to `end` has as many elements as
-- the lists hold.
row_shape_loop-count :
    (data_array : ArrowArray) (start end : ℕ) {dims : List ℕ}
    → IsArray data_array
    → start ≤ end
    → end ≤ array_length data_array
    → row_shape_loop data_array start end ≡ ok dims
    → leaf_offset data_array end ≡ leaf_offset data_array start + (end - start) * product dims
unfolding row_shape_loop
row_shape_loop-count (leaf n) start end {dims} h l inside e =
    let same : [] ≡ dims = cc in ap_one same
  where
    ap_one : [] ≡ dims → end ≡ start + (end - start) * product dims
    ap_one same = rw⁻¹ same (omega arith)
row_shape_loop-count (other n) start end h l inside e = absurd cc
row_shape_loop-count (list level values) start end {dims} h l inside e =
    let (u, nulls, e') = >>=-eq-ok (fail_if (ltb 0 level.null_count) not_implemented) _ e in
    let (v, check, e'') = >>=-eq-ok (fail_if (checked level start end) invalid) _ e' in
    let (rest, inner, e''') =
      >>=-eq-ok (row_shape_loop values (level.value_offset start) (level.value_offset end)) _ e'' in
    let same : level.value_length start ∷ rest ≡ dims = cc in
    let span =
      level_values level values start end h.0 l inside
        (fail_if-eq-ok (checked level start end) invalid check) in
    let found =
      row_shape_loop-count values (level.value_offset start) (level.value_offset end) h.1
        (omega (arith, span)) (value_offset-le level values end h.0 inside) inner in
    found
    ∙ ap (λ n. leaf_offset values (level.value_offset start) + n)
        (ap (λ n. n * product rest) (gap span)
          ∙ times rest
          ∙ ap (λ dims. (end - start) * product dims) same)
  where
    gap :
        level.value_offset end ≡ level.value_offset start + (end - start) * level.value_length start
        → level.value_offset end - level.value_offset start
          ≡ (end - start) * level.value_length start
    gap span = omega (arith, span)

    times :
        (rest : List ℕ)
        → (end - start) * level.value_length start * product rest
          ≡ (end - start) * (level.value_length start * product rest)
    times rest = grind arith

-- The number of values at the end of the nesting.
abbrev pub n_values : ArrowArray → ℕ
n_values (leaf n) = n
n_values (other n) = n
n_values (list level values) = n_values values

pub leaf_offset-ends :
    (data_array : ArrowArray)
    → IsWhole data_array
    → (leaf_offset data_array 0 ≡ 0)
      × (leaf_offset data_array (array_length data_array) ≡ n_values data_array)
leaf_offset-ends (leaf n) h = (refl, refl)
leaf_offset-ends (other n) h = (refl, refl)
leaf_offset-ends (list level values) h =
    let ends = leaf_offset-ends values h.2 in
    (ap (leaf_offset values) h.0 ∙ ends.0, ap (leaf_offset values) h.1 ∙ ends.1)

-- The elements of the rows from `r` on.
rows-count :
    (data_array : ArrowArray) (n r : ℕ) {shapes : List (List ℕ)}
    → IsArray data_array
    → r + n ≤ array_length data_array
    → traverse (λ r. row_shape_loop data_array r (r + 1)) (iota r n) ≡ ok shapes
    → leaf_offset data_array (r + n) ≡ leaf_offset data_array r + sum (map product shapes)
rows-count data_array zero r {shapes} h l e =
    let same : [] ≡ shapes = cc in
    let at : r + 0 ≡ r = omega arith in rw⁻¹ same (ap (leaf_offset data_array) at ∙ omega arith)
rows-count data_array (suc n) r {shapes} h l e =
    let (first, e', h') = >>=-eq-ok (row_shape_loop data_array r (r + 1)) _ e in
    let (later, e'', h'') =
      >>=-eq-ok (traverse (λ r. row_shape_loop data_array r (r + 1)) (iota (suc r) n)) _ h' in
    let same : first ∷ later ≡ shapes = cc in
    let at : r + suc n ≡ suc r + n = omega arith in
    let next : r + 1 ≡ suc r = omega arith in
    let row = row_shape_loop-count data_array r (r + 1) h (omega arith) (omega arith) e' in
    let one : (r + 1 - r) * product first ≡ product first =
      (let w : r + 1 - r ≡ 1 = omega arith in rw w (omega arith)) in
    ap (leaf_offset data_array) at
    ∙ rows-count data_array n (suc r) h (omega arith) e''
    ∙ omega (arith, ap (leaf_offset data_array) next, row, one)
    ∙ ap (λ shapes. leaf_offset data_array r + sum (map product shapes)) same

-- The values that the lists hold: of a slice not all values there are.
abbrev pub n_held : ArrowArray → ℕ
n_held data_array = leaf_offset data_array (array_length data_array) - leaf_offset data_array 0

-- The shapes that `GetRowShapes` finds have as many elements in all as the lists hold values.
pub get_row_shapes-count :
    (data_array : ArrowArray) {shapes : List (List ℕ)}
    → IsArray data_array
    → get_row_shapes data_array ≡ ok shapes
    → sum (map product shapes) ≡ n_held data_array
unfolding get_row_shapes
get_row_shapes-count data_array h e =
    let rows = rows-count data_array (array_length data_array) 0 h (omega arith) e in
    let at : 0 + array_length data_array ≡ array_length data_array = omega arith in
    omega (arith, rows, ap (leaf_offset data_array) at)

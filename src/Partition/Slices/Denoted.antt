-- ===== src/Partition/Slices/Denoted.antt =====
-- The ranges that are read are the disk indices of the chunk.
use arcae.Prelude.{
  ℕ, zero, suc, ◌+◌, ◌-◌, ◌≤◌, ◌<◌, ◌≡◌, refl, sym, ap, ◌∙◌, true, List, [], ◌∷◌, ◌++◌, map, length,
  length-map, get_or, iota, map-iota, length-snoc, get_or-append_left, get_or-append_right, All,
  arith, Bool-cases, inl, inr, ℤ, pos, negsuc, eqb_ℤ, ◌-ℤ◌, pos_part,
}
use arcae.Partition.{SpanPair, disk_at, no_span}
use arcae.Partition.Split.{to_rownr}
use arcae.Partition.Chunks.{DataChunk}
use arcae.Partition.Slices.{
  RefRows, slice, rows, front, back, reference_rows_of, reference_rows, section_slicer,
}

-- Each index is larger than the one before.
abbrev pub Climbs : List ℕ → Type 0
Climbs [] = Unit
Climbs (x ∷ []) = Unit
Climbs (x ∷ y ∷ r) = (x < y) × Climbs (y ∷ r)

-- Each index follows the one before.
abbrev pub Consecutive : List ℕ → Type 0
Consecutive [] = Unit
Consecutive (x ∷ []) = Unit
Consecutive (x ∷ y ∷ r) = (y ≡ suc x) × Consecutive (y ∷ r)

-- The indices from the first to the last, which is the last one that is meant (`Slicer::endIsLast`).
abbrev pub range_of : ℤ × ℤ → List ℕ
range_of (first, last) = iota (pos_part first) (suc (pos_part last) - pos_part first)

abbrev pub rows_of : RefRows → List ℕ
rows_of (slice first last) = range_of (first, last)
rows_of (rows listed) = listed

last_of : ℕ → List ℕ → ℕ
last_of x [] = x
last_of x (y ∷ r) = last_of y r

back-last_of : (x : ℕ) (r : List ℕ) → disk_at (map pos (x ∷ r)) (length r) ≡ pos (last_of x r)
unfolding last_of
back-last_of x [] = refl
back-last_of x (y ∷ r) = back-last_of y r

iota-Consecutive : (x : ℕ) (r : List ℕ) → Consecutive (x ∷ r) → iota x (suc (length r)) ≡ x ∷ r
iota-Consecutive x [] c = refl
iota-Consecutive x (y ∷ r) c =
    ap (λ n. x ∷ iota n (suc (length r))) (sym c.0) ∙ ap (λ l. x ∷ l) (iota-Consecutive y r c.1)

last_of-Consecutive : (x : ℕ) (r : List ℕ) → Consecutive (x ∷ r) → last_of x r ≡ x + length r
unfolding last_of
last_of-Consecutive x [] c = omega arith
last_of-Consecutive x (y ∷ r) c = omega (arith, last_of-Consecutive y r c.1, c.0)

last_of-Climbs : (x : ℕ) (r : List ℕ) → Climbs (x ∷ r) → x + length r ≤ last_of x r
unfolding last_of
last_of-Climbs x [] c = omega arith
last_of-Climbs x (y ∷ r) c = omega (arith, last_of-Climbs y r c.1, c.0)

-- Rows that climb and span their own length follow one another.
Climbs-Consecutive :
    (x : ℕ) (r : List ℕ) → Climbs (x ∷ r) → last_of x r ≡ x + length r → Consecutive (x ∷ r)
unfolding last_of
Climbs-Consecutive x [] c e = tt
Climbs-Consecutive x (y ∷ r) c e =
    let low = last_of-Climbs y r c.1 in
    (omega (arith, low, e, c.0), Climbs-Consecutive y r c.1 (omega (arith, low, e, c.0)))

-- The section of indices that follow one another.
range_of-Consecutive :
    (ids : List ℕ)
    → 0 < length ids
    → Consecutive ids
    → range_of (front (map pos ids), back (map pos ids)) ≡ ids
range_of-Consecutive [] l c = absurd (omega arith)
range_of-Consecutive (x ∷ r) l c =
    let count : length (map pos (x ∷ r)) - 1 ≡ length r = omega (arith, length-map r pos) in
    let last : back (map pos (x ∷ r)) ≡ pos (x + length r) =
      ap (disk_at (map pos (x ∷ r))) count
      ∙ back-last_of x r
      ∙ ap pos (last_of-Consecutive x r c) in
    let size : suc (x + length r) - x ≡ suc (length r) = omega arith in
    ap (λ last. range_of (pos x, last)) last ∙ ap (iota x) size ∙ iota-Consecutive x r c

map-to_rownr : (ids : List ℕ) → map to_rownr (map pos ids) ≡ ids
map-to_rownr [] = refl
map-to_rownr (x ∷ r) = ap (λ l. x ∷ l) (map-to_rownr r)

tight :
    (n last x : ℕ)
    → x + n ≤ last
    → eqb_ℤ (pos (suc n)) (pos last -ℤ pos x -ℤ negsuc 0) ≡ true
    → last ≡ x + n
tight n last x l e = ground arith

reference_rows_of-Climbs :
    (ids : List ℕ) → Climbs ids → rows_of (reference_rows_of (map pos ids)) ≡ ids
unfolding reference_rows_of
reference_rows_of-Climbs [] c = refl
reference_rows_of-Climbs (x ∷ r) c =
    let s = map pos (x ∷ r) in
    let count : length s ≡ suc (length r) = ap suc (length-map r pos) in
    let at : length s - 1 ≡ length r = omega (arith, count) in
    let last : back s ≡ pos (last_of x r) = ap (disk_at s) at ∙ back-last_of x r in
    let low = last_of-Climbs x r c in
    elim (Bool-cases (eqb_ℤ (pos (length s)) (back s -ℤ front s -ℤ negsuc 0))) [
      | inl spans ↦
          let full : last_of x r ≡ x + length r = tight (length r) (last_of x r) x low (
            ap (λ n. eqb_ℤ (pos n) (pos (last_of x r) -ℤ pos x -ℤ negsuc 0)) (sym count)
            ∙ ap (λ b. eqb_ℤ (pos (length s)) (b -ℤ pos x -ℤ negsuc 0)) (sym last)
            ∙ spans) in
          rw spans (range_of-Consecutive (x ∷ r) (omega arith) (Climbs-Consecutive x r c full))
      | inr gaps ↦ rw gaps (map-to_rownr (x ∷ r))
    ]

-- The disk indices of the dimensions of a chunk, none of them negative.
abbrev pub HasDisk : DataChunk → List (List ℕ) → Type 0
HasDisk chunk dims = map (λ (span : SpanPair). span.disk) chunk.dim_spans ≡ map (map pos) dims

get_or-disk :
    (spans : List SpanPair) (dims : List (List ℕ)) (d : ℕ)
    → map (λ (span : SpanPair). span.disk) spans ≡ map (map pos) dims
    → (get_or spans d no_span).disk ≡ map pos (get_or dims d [])
get_or-disk [] [] d e = refl
get_or-disk [] (ids ∷ dims) d e = absurd cc
get_or-disk (span ∷ spans) [] d e = absurd cc
get_or-disk (span ∷ spans) (ids ∷ dims) zero e = cc
get_or-disk (span ∷ spans) (ids ∷ dims) (suc d) e =
    let rest : map (λ (span : SpanPair). span.disk) spans ≡ map (map pos) dims = cc in
    get_or-disk spans dims d rest

All-get_or {ℓ κ} :
    {A : Type ℓ} (P : A → Type κ) (xs : List A) (k : ℕ) (d : A)
    → All P xs
    → k < length xs
    → P (get_or xs k d)
All-get_or P [] k d h l = absurd (omega arith)
All-get_or P (x ∷ xs) zero d h l = h.0
All-get_or P (x ∷ xs) (suc k) d h l = All-get_or P xs k d h.1 (omega arith)

map-map {ℓ κ μ} :
    {A : Type ℓ} {B : Type κ} {C : Type μ} (g : B → C) (f : A → B) (xs : List A)
    → map g (map f xs) ≡ map (λ x. g (f x)) xs
map-map g f [] = refl
map-map g f (x ∷ xs) = ap (λ l. g (f x) ∷ l) (map-map g f xs)

-- What is asked of casacore for a chunk without negative indices, whose rows climb, and whose indices
-- follow one another in each other dimension, of which none is empty: the sections and the rows hold
-- the disk indices of the chunk, in their order, whether the rows are a range or a list.
pub reference_rows-section_slicer :
    (chunk : DataChunk) (dims : List (List ℕ)) (listed : List ℕ)
    → HasDisk chunk (dims ++ listed ∷ [])
    → All (λ ids. (0 < length ids) × Consecutive ids) dims
    → Climbs listed
    → (map range_of (section_slicer chunk) ≡ dims) × (rows_of (reference_rows chunk) ≡ listed)
reference_rows-section_slicer chunk dims listed disk consecutive climbs =
    let all = dims ++ listed ∷ [] in
    let count : length chunk.dim_spans ≡ length dims + 1 =
      sym (length-map chunk.dim_spans (λ (span : SpanPair). span.disk))
      ∙ ap length disk
      ∙ length-map all (map pos)
      ∙ length-snoc dims listed in
    let others : length chunk.dim_spans - 1 ≡ length dims = omega (arith, count) in
    let last : get_or all (length dims + 0) [] ≡ listed =
      get_or-append_right dims (listed ∷ []) 0 [] in
    let at : length chunk.dim_spans - 1 ≡ length dims + 0 = omega (arith, count) in
    let section : ℕ → ℤ × ℤ =
      λ d. let disk = (get_or chunk.dim_spans d no_span).disk in (front disk, back disk) in
    (
      map-map range_of section (iota 0 (length chunk.dim_spans - 1))
          ∙ ap (λ n. map (λ d. range_of (section d)) (iota 0 n)) others
          ∙ map-iota (λ d. range_of (section d)) 0 dims []
              (λ k l.
                let here : 0 + k ≡ k = omega arith in
                let (some_there, follow) =
                  All-get_or (λ ids. (0 < length ids) × Consecutive ids) dims k [] consecutive l in
                ap (λ d. range_of (section d)) here
                ∙ ap (λ ids. range_of (front ids, back ids))
                    (get_or-disk chunk.dim_spans all k disk
                      ∙ ap (map pos) (get_or-append_left dims (listed ∷ []) k [] l))
                ∙ range_of-Consecutive (get_or dims k []) some_there follow),
      ap (λ ids. rows_of (reference_rows_of ids))
            (ap (λ d. (get_or chunk.dim_spans d no_span).disk) at
              ∙ get_or-disk chunk.dim_spans all (length dims + 0) disk
              ∙ ap (map pos) last)
          ∙ reference_rows_of-Climbs listed climbs,
    )

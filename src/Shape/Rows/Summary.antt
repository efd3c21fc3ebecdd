-- ===== src/Shape/Rows/Summary.antt =====
-- The shapes of the rows, summarised at once.
use arcae.Prelude.{
  ◌<◌, get_or, &&-eq-true, &&-assoc, ℕ, zero, suc, ◌+◌, ◌≡◌, refl, sym, ap, ◌∙◌, subst, Bool, true,
  false, ◌&&◌, not, Option, none, some, List, [], ◌∷◌, ◌++◌, length, replicate, if◌then◌else◌,
  arith, Bool-cases, inl, inr,
}
use arcae.Shape.{IPosition, eqb_shape, is_degenerate_shape}
use arcae.Shape.Rows.{RowShapeData, add_shape, repeat_last}

-- How many rows are missing: they have no shape.
abbrev pub n_missing : List IPosition → ℕ
n_missing [] = 0
n_missing (shape ∷ shapes) =
    if is_degenerate_shape shape then suc (n_missing shapes) else n_missing shapes

abbrev pub all_equal : IPosition → List IPosition → Bool
all_equal first [] = true
all_equal first (shape ∷ shapes) = eqb_shape shape first && all_equal first shapes

-- No row is missing and all have one shape, or there is no row.
abbrev pub is_uniform : List IPosition → Bool
is_uniform [] = true
is_uniform (first ∷ shapes) = not (is_degenerate_shape first) && all_equal first shapes

abbrev pub first_shape : List IPosition → Option IPosition
first_shape [] = none
first_shape (shape ∷ shapes) = some shape

-- The shape that all rows share, or else the shapes of all of them.
abbrev pub summarise : List IPosition → RowShapeData
summarise shapes =
    if is_uniform shapes
    then record { common_shape = first_shape shapes; shapes = []; missing_rows = 0 }
    else record { common_shape = none; shapes = shapes; missing_rows = n_missing shapes }

pub eqb_shape_refl : (s : IPosition) → eqb_shape s s ≡ true
eqb_shape_refl [] = refl
eqb_shape_refl (n ∷ s) = let rest = eqb_shape_refl s in ground arith

pub eqb_shape-eq : (s t : IPosition) → eqb_shape s t ≡ true → s ≡ t
eqb_shape-eq [] [] h = refl
eqb_shape-eq [] (n ∷ t) h = cc
eqb_shape-eq (m ∷ s) [] h = cc
eqb_shape-eq (m ∷ s) (n ∷ t) h = elim (Bool-cases (eqb_shape s t)) [
  | inl e ↦ let rest = eqb_shape-eq s t e in let first : m ≡ n = ground arith in cc
  | inr e ↦ ground arith
]

pub all_equal-snoc :
    (f s : IPosition) (xs : List IPosition)
    → all_equal f (xs ++ s ∷ []) ≡ (all_equal f xs && eqb_shape s f)
all_equal-snoc f s [] = ground arith
all_equal-snoc f s (x ∷ xs) =
    let rest = all_equal-snoc f s xs in rw rest (&&-assoc (eqb_shape x f) _ _)

pub n_missing-snoc :
    (s : IPosition) (xs : List IPosition)
    → n_missing (xs ++ s ∷ []) ≡ n_missing xs + n_missing (s ∷ [])
n_missing-snoc s [] = omega arith
n_missing-snoc s (x ∷ xs) = let rest = n_missing-snoc s xs in ground arith

all_equal-n_missing :
    (f : IPosition) (xs : List IPosition)
    → is_degenerate_shape f ≡ false
    → all_equal f xs ≡ true
    → n_missing xs ≡ 0
all_equal-n_missing f [] d h = refl
all_equal-n_missing (m ∷ f) ([] ∷ xs) d h = cc
all_equal-n_missing (m ∷ f) ((n ∷ x) ∷ xs) d h =
    all_equal-n_missing (m ∷ f) xs d (&&-eq-true _ _ h).1
all_equal-n_missing [] (x ∷ xs) d h = cc

all_equal-replicate :
    (f : IPosition) (xs : List IPosition) → all_equal f xs ≡ true → xs ≡ replicate (length xs) f
all_equal-replicate f [] h = refl
all_equal-replicate f (x ∷ xs) h =
    let parts = &&-eq-true (eqb_shape x f) _ h in
    let rest = all_equal-replicate f xs parts.1 in let first = eqb_shape-eq x f parts.0 in cc

pub summarise-uniform :
    (shapes : List IPosition)
    → is_uniform shapes ≡ true
    → summarise shapes ≡ record { common_shape = first_shape shapes; shapes = []; missing_rows = 0 }
summarise-uniform shapes e = rw e refl

pub summarise-varied :
    (shapes : List IPosition) (k : ℕ)
    → is_uniform shapes ≡ false
    → n_missing shapes ≡ k
    → summarise shapes ≡ record { common_shape = none; shapes = shapes; missing_rows = k }
summarise-varied shapes k e n = rw (e, n) refl

-- A shape that is added to rows that share one: another one, or none.
add_shape-other :
    (m : ℕ) (f shape : IPosition) (rest : List IPosition)
    → all_equal (m ∷ f) rest ≡ true
    → eqb_shape shape (m ∷ f) ≡ false
    → add_shape
        (suc (length rest))
        shape
        (record { common_shape = some (m ∷ f); shapes = []; missing_rows = 0 })
      ≡ record {
        common_shape = none;
        shapes = (m ∷ f) ∷ (rest ++ shape ∷ []);
        missing_rows = n_missing (shape ∷ []);
      }
unfolding add_shape
add_shape-other m f [] rest h e = rw (sym (all_equal-replicate (m ∷ f) rest h)) refl
add_shape-other m f (n ∷ shape) rest h e =
    rw (e, sym (all_equal-replicate (m ∷ f) rest h), add_shape) refl

add_shape-same :
    (i m : ℕ) (f shape : IPosition)
    → eqb_shape shape (m ∷ f) ≡ true
    → add_shape i shape (record { common_shape = some (m ∷ f); shapes = []; missing_rows = 0 })
      ≡ record { common_shape = some (m ∷ f); shapes = []; missing_rows = 0 }
unfolding add_shape
add_shape-same i m f [] e = cc
add_shape-same i m f (n ∷ shape) e = rw (e, add_shape) refl

-- A shape that is added to rows that do not share one.
add_shape-varied :
    (i k : ℕ) (first shape : IPosition) (rest : List IPosition)
    → add_shape i shape (record { common_shape = none; shapes = first ∷ rest; missing_rows = k })
      ≡ record {
        common_shape = none;
        shapes = first ∷ (rest ++ shape ∷ []);
        missing_rows = k + n_missing (shape ∷ []);
      }
unfolding add_shape
add_shape-varied i k first shape rest =
    ap
      (λ k. record { common_shape = none; shapes = first ∷ (rest ++ shape ∷ []); missing_rows = k })
      (ground arith)

-- Adding the shape of a row to the summary of those before.
pub add_shape-summarise :
    (shapes : List IPosition) (shape : IPosition)
    → add_shape (length shapes) shape (summarise shapes) ≡ summarise (shapes ++ shape ∷ [])
unfolding add_shape
add_shape-summarise [] [] = refl
add_shape-summarise [] (n ∷ shape) = refl
add_shape-summarise ([] ∷ rest) shape =
    add_shape-varied (suc (length rest)) (suc (n_missing rest)) [] shape rest
    ∙ sym (
        summarise-varied ([] ∷ (rest ++ shape ∷ [])) _ refl
          (omega (arith, n_missing-snoc shape rest)))
add_shape-summarise ((m ∷ f) ∷ rest) shape =
    let count = n_missing-snoc shape rest in
    let snoc = all_equal-snoc (m ∷ f) shape rest in
    elim (Bool-cases (all_equal (m ∷ f) rest)) [
      | inl u ↦
          let before =
            ap (add_shape (suc (length rest)) shape) (summarise-uniform ((m ∷ f) ∷ rest) u) in
          elim (Bool-cases (eqb_shape shape (m ∷ f))) [
            | inl e ↦
                before
                ∙ add_shape-same (suc (length rest)) m f shape e
                ∙ sym (summarise-uniform ((m ∷ f) ∷ (rest ++ shape ∷ [])) (rw (snoc, u, e) refl))
            | inr e ↦
                before
                ∙ add_shape-other m f shape rest u e
                ∙ sym (
                    summarise-varied ((m ∷ f) ∷ (rest ++ shape ∷ [])) _ (rw (snoc, u, e) refl)
                      (omega (arith, count, all_equal-n_missing (m ∷ f) rest refl u)))
          ]
      | inr u ↦
          ap (add_shape (suc (length rest)) shape) (summarise-varied ((m ∷ f) ∷ rest) _ u refl)
          ∙ add_shape-varied (suc (length rest)) (n_missing rest) (m ∷ f) shape rest
          ∙ sym (summarise-varied ((m ∷ f) ∷ (rest ++ shape ∷ [])) _ (rw (snoc, u) refl) count)
    ]

-- A uniform row last: its shape is that of all rows.
pub uniform-last :
    (done : List IPosition) (c : IPosition)
    → is_uniform (done ++ c ∷ []) ≡ true
    → (first_shape (done ++ c ∷ []) ≡ some c) × (is_degenerate_shape c ≡ false)
uniform-last [] c u = (refl, ground arith)
uniform-last (f ∷ rest) c u =
    let parts = &&-eq-true (not (is_degenerate_shape f)) _ u in
    let last = &&-eq-true (all_equal f rest) _ (sym (all_equal-snoc f c rest) ∙ parts.1) in
    let e : c ≡ f = eqb_shape-eq c f last.1 in
    (ap some (sym e), ap is_degenerate_shape e ∙ ground arith)

-- Repeating the shape of the last row.
pub repeat-summarise :
    (shapes : List IPosition) (c : IPosition)
    → is_degenerate_shape c ≡ false
    → (is_uniform shapes ≡ true → first_shape shapes ≡ some c)
    → repeat_last c (summarise shapes) ≡ summarise (shapes ++ c ∷ [])
unfolding repeat_last
repeat-summarise [] c d u = let none_some : none ≡ some c = u refl in cc
repeat-summarise (f ∷ rest) c d u = elim (Bool-cases (is_uniform (f ∷ rest))) [
  | inl e ↦
      let first : f ≡ c = let both = u e in cc in
      let last : eqb_shape c f ≡ true =
        subst (λ f. eqb_shape c f ≡ true) (sym first) (eqb_shape_refl c) in
      ap (repeat_last c) (summarise-uniform (f ∷ rest) e)
      ∙ sym (
          summarise-uniform (f ∷ (rest ++ c ∷ [])) (
            rw
              (
                all_equal-snoc f c rest,
                &&-assoc (not (is_degenerate_shape f)) (all_equal f rest) (eqb_shape c f),
                e,
                last,
              )
              refl))
  | inr e ↦
      ap (repeat_last c) (summarise-varied (f ∷ rest) _ e refl)
      ∙ sym (
          summarise-varied (f ∷ (rest ++ c ∷ [])) _
            (rw
              (
                all_equal-snoc f c rest,
                &&-assoc (not (is_degenerate_shape f)) (all_equal f rest) (eqb_shape c f),
                e,
              )
              refl)
            (let seen : n_missing (c ∷ []) ≡ 0 = rw d refl in
              omega (arith, n_missing-snoc c (f ∷ rest), seen)))
]

-- All rows of a uniform result have the shape of the first.
pub uniform-get :
    (f : IPosition) (rest : List IPosition) (i : ℕ)
    → all_equal f rest ≡ true
    → i < suc (length rest)
    → get_or (f ∷ rest) i [] ≡ f
uniform-get f rest zero e l = refl
uniform-get f [] (suc i) e l = absurd (omega arith)
uniform-get f (x ∷ rest) (suc zero) e l = eqb_shape-eq x f (&&-eq-true (eqb_shape x f) _ e).0
uniform-get f (x ∷ rest) (suc (suc i)) e l =
    uniform-get f rest (suc i) (&&-eq-true (eqb_shape x f) _ e).1 (omega arith)

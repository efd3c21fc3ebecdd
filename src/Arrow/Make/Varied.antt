-- ===== src/Arrow/Make/Varied.antt =====
-- The shapes that are found for the array of a result whose rows have many shapes.
use native.Mathlib.Nat.{mod-eq_of_lt}
use arcae.Prelude.{
  ℕ, zero, suc, ◌+◌, ◌-◌, ◌*◌, ◌%◌, ◌^◌, ◌<◌, ◌≡◌, ◌≢◌, refl, sym, ap, ◌∙◌, Bool, true, false, none,
  some, List, [], ◌∷◌, ◌++◌, map, map-iota, reverse, length, length-map, get_or, iota, sum, product,
  replicate, ltb, ◌==◌, if◌then◌else◌, arith, pos, Result, ok, err, ◌>>=◌, ◌>>◌, fail_if,
  not_implemented, invalid, not, ◌&&◌, traverse,
}
use arcae.Shape.{IPosition, ResultShapeData, is_degenerate_shape}
use arcae.Shape.Offsets.{n_elements}
use arcae.Shape.Offsets.Rows.{accumulate-sum}
use arcae.Arrow.{ListLevel, ArrowArray, leaf, list, array_length}
use arcae.Arrow.Shape.{same_lengths, row_shape_loop, get_row_shapes}
use arcae.Arrow.Offsets.{size_at, row_sizes, get_offsets, Running, build_offsets, no_offsets}
use arcae.Arrow.Offsets.Nested.{AllRank, AllPositive, offsets_of, build_offsets-offsets_of}
use arcae.Arrow.Make.{
  Lists, ConvertStrategy, fixed_strategy, list_strategy, TypeKind, string_kind, complex_kind,
  primitive_kind, unhandled_kind, base_array, nest_lists, nest, make_array,
}
use arcae.Arrow.Make.RoundTrip.{pair_dims, is_handled}
use arcae.Arrow.Make.Rows.{nest_lists-rows}

-- A result of rows of `n` dimensions.
abbrev pub many_shapes : ℕ → ℕ → List IPosition → ResultShapeData
many_shapes dtype n shapes = record {
  fixed_shape = none;
  ndim = pos (n + 1);
  dtype = dtype;
  row_shapes = some shapes;
  cell_extents = none;
}

-- A value in each place.
traverse-get :
    (f : ℕ → Result (List ℕ)) (a : ℕ) (ys : List (List ℕ))
    → ((k : ℕ) → k < length ys → f (a + k) ≡ ok (get_or ys k []))
    → traverse f (iota a (length ys)) ≡ ok ys
traverse-get f a [] h = refl
traverse-get f a (y ∷ ys) h =
    let at : a ≡ a + 0 = omega arith in
    let rest =
      traverse-get f (suc a) ys
        λ k l. let e : suc a + k ≡ a + suc k = omega arith in ap f e ∙ h (suc k) (omega arith) in
    ap (λ r. r >>= λ t. traverse f (iota (suc a) (length ys)) >>= λ ts. ok (t ∷ ts))
      (ap f at ∙ h 0 (omega arith))
    ∙ ap (λ (r : Result (List (List ℕ))). r >>= λ ts. ok (y ∷ ts)) rest

row_sizes-shapes :
    (dtype n : ℕ) (shapes : List IPosition)
    → 0 < n
    → AllRank n shapes
    → row_sizes (many_shapes dtype n shapes) n ≡ shapes
row_sizes-shapes dtype n shapes some_dim ranked = map-iota _ 0 shapes [] λ k l.
    let at : 0 + k ≡ k = omega arith in
    ap sizes at ∙ row_of (get_or shapes k []) (ranked_at shapes k ranked l)
  where
    sizes : ℕ → List ℕ
    sizes row = map (size_at (many_shapes dtype n shapes) row) (iota 0 n)

    ranked_at :
        (shapes : List IPosition) (k : ℕ)
        → AllRank n shapes
        → k < length shapes
        → length (get_or shapes k []) ≡ n
    ranked_at [] k r l = absurd (omega arith)
    ranked_at (shape ∷ shapes) zero r l = r.0
    ranked_at (shape ∷ shapes) (suc k) r l = ranked_at shapes k r.1 (omega arith)

    row_of :
        (shape : IPosition)
        → length shape ≡ n
        → map (λ dim. if is_degenerate_shape shape then 0 else get_or shape dim 0) (iota 0 n)
          ≡ shape
    row_of [] e = absurd (omega arith)
    row_of (size ∷ shape) e =
        ap (λ n. map (λ dim. get_or (size ∷ shape) dim 0) (iota 0 n)) (sym e)
        ∙ map-iota (λ dim. get_or (size ∷ shape) dim 0) 0 (size ∷ shape) 0
            λ k l. let at : 0 + k ≡ k = omega arith in ap (λ dim. get_or (size ∷ shape) dim 0) at

get_offsets-many :
    (dtype n : ℕ) (shapes : List IPosition)
    → 0 < n
    → AllRank n shapes
    → AllPositive shapes
    → sum (map product shapes) < 2 ^ 31
    → get_offsets (many_shapes dtype n shapes) ≡ ok (offsets_of n shapes)
unfolding get_offsets
get_offsets-many dtype n shapes some_dim ranked positive small =
    let one_less : n + 1 - 1 ≡ n = omega arith in
    let some_left : (n + 1 == 0) ≡ false = ground arith in
    ap
      (λ (b : Bool).
        if b
        then err not_implemented
        else ok (built (n + 1 - 1) (row_sizes (many_shapes dtype n shapes) (n + 1 - 1))))
      some_left
    ∙ ap (λ n'. ok (built n' (row_sizes (many_shapes dtype n shapes) n'))) one_less
    ∙ ap (λ rows. ok (built n rows)) (row_sizes-shapes dtype n shapes some_dim ranked)
    ∙ ap ok (build_offsets-offsets_of n shapes ranked positive small)
  where
    built : ℕ → List (List ℕ) → List (List ℕ)
    built n rows = map (λ (run : Running). run.built) (build_offsets rows (replicate n no_offsets))

map-product :
    (shape_product : IPosition → ℕ) (n : ℕ) (shapes : List IPosition)
    → ((shape : IPosition) → 0 < length shape → shape_product shape ≡ product shape)
    → 0 < n
    → AllRank n shapes
    → map shape_product shapes ≡ map product shapes
map-product shape_product n [] h l ranked = refl
map-product shape_product n (shape ∷ shapes) h l ranked =
    ap (λ m. m ∷ map shape_product shapes) (h shape (omega (arith, l, ranked.0)))
    ∙ ap (◌∷◌ (product shape)) (map-product shape_product n shapes h l ranked.1)

n_elements-many :
    (shape_product : IPosition → ℕ) (dtype n : ℕ) (shapes : List IPosition)
    → ((shape : IPosition) → 0 < length shape → shape_product shape ≡ product shape)
    → 0 < n
    → AllRank n shapes
    → sum (map product shapes) < 2 ^ 31
    → n_elements shape_product (many_shapes dtype n shapes) ≡ sum (map product shapes)
unfolding n_elements
n_elements-many shape_product dtype n shapes h l ranked small =
    accumulate-sum shape_product 0 shapes (omega arith)
    ∙ ap (λ ns. (0 + sum ns) % 2 ^ 64) (map-product shape_product n shapes h l ranked)
    ∙ mod-eq_of_lt (omega (arith, small))
    ∙ omega arith

pair_found :
    (level : ListLevel) (n : ℕ)
    → level.is_fixed_size ≡ true
    → level.null_count ≡ 0
    → ((i : ℕ) → level.value_length i ≡ 2)
    → (start end : ℕ) → row_shape_loop (list level (leaf n)) start end ≡ ok (2 ∷ [])
unfolding row_shape_loop
pair_found level n fixed nulls lengths start end =
    let same = same_lengths level (level.value_length start) (end - (start + 1)) (start + 1) in
    ap
      (λ n.
        fail_if (ltb 0 n) not_implemented
        >> (fail_if (not level.is_fixed_size && not same) invalid
            >> ok (level.value_length start ∷ [])))
      nulls
    ∙ ap (λ b. fail_if (not b && not same) invalid >> ok (level.value_length start ∷ [])) fixed
    ∙ ap (λ n. ok (n ∷ [])) (lengths start)

get_or-map-shape :
    (f : List ℕ → List ℕ) (shapes : List (List ℕ)) (k : ℕ)
    → k < length shapes
    → get_or (map f shapes) k [] ≡ f (get_or shapes k [])
get_or-map-shape f [] k l = absurd (omega arith)
get_or-map-shape f (shape ∷ shapes) zero l = refl
get_or-map-shape f (shape ∷ shapes) (suc k) l = get_or-map-shape f shapes k (omega arith)

shapes_found :
    (shapes : List (List ℕ)) (pair : List ℕ) (a : ArrowArray)
    → array_length a ≡ length shapes
    → ((r : ℕ)
        → r < length shapes
        → row_shape_loop a r (suc r) ≡ ok (reverse (get_or shapes r []) ++ pair))
    → get_row_shapes a ≡ ok (map (λ shape. reverse shape ++ pair) shapes)
unfolding get_row_shapes
shapes_found shapes pair a outer found =
    let ys = map (λ (shape : List ℕ). reverse shape ++ pair) shapes in
    let count : length ys ≡ length shapes = length-map shapes _ in
    ap (λ n. traverse (λ r. row_shape_loop a r (r + 1)) (iota 0 n)) (outer ∙ sym count)
    ∙ traverse-get (λ r. row_shape_loop a r (r + 1)) 0 ys
        λ k l.
          let at : 0 + k ≡ k = omega arith in
          let next : 0 + k + 1 ≡ suc k = omega arith in
          let inside : k < length shapes = omega (arith, l, count) in
          ap (λ s. row_shape_loop a s (0 + k + 1)) at
          ∙ ap (row_shape_loop a k) next
          ∙ found k inside
          ∙ ap ok (sym (get_or-map-shape (λ shape. reverse shape ++ pair) shapes k inside))

module _ ⦃lists : Lists⦄ where
  base_array-rows :
      (kind : TypeKind) (strategy : ConvertStrategy) (m : ℕ)
      → kind ≢ unhandled_kind
      → (kind ≡ complex_kind → strategy ≡ fixed_strategy)
      → 2 * m < 2 ^ 64
      → (base : ArrowArray) × (base_array kind strategy m m ≡ ok base)
        × (array_length base ≡ m)
        × ((start end : ℕ) → row_shape_loop base start end ≡ ok (pair_dims kind))
  unfolding base_array row_shape_loop
  base_array-rows string_kind strategy m handled pairs small =
      (leaf m, refl, refl, λ start end. refl)
  base_array-rows primitive_kind strategy m handled pairs small =
      (leaf m, refl, refl, λ start end. refl)
  base_array-rows unhandled_kind strategy m handled pairs small = absurd (handled refl)
  base_array-rows complex_kind strategy m handled pairs small =
      let whole : 2 * m % 2 ^ 64 ≡ 2 * m = mod-eq_of_lt small in
      let (level, made, fixed, nulls, count, lengths) =
        lists.fixed_lists (leaf (2 * m % 2 ^ 64)) 2 m (omega arith) (omega (arith, whole)) in
      (
        list level (leaf (2 * m % 2 ^ 64)),
        ap (λ strategy. base_array complex_kind strategy m m) (pairs refl) ∙ made,
        count,
        pair_found level (2 * m % 2 ^ 64) fixed nulls lengths,
      )

  -- The rows of a result, all of one rank above 0 and with no empty dimension, with fewer than 2^31
  -- elements in all, as `IPosition::product` counts them, of a type that has an Arrow type: the array
  -- is made, and `GetRowShapes` finds the shape of each row in it, in C order, the dimension of a pair
  -- last. The strategy for complex numbers is that of lists of fixed size.
  pub make_array-get_row_shapes :
      (shape_product : IPosition → ℕ) (kind_of : ℕ → TypeKind) (strategy : ConvertStrategy)
      (dtype n : ℕ) (shapes : List IPosition)
      → 0 < n
      → AllRank n shapes
      → AllPositive shapes
      → sum (map product shapes) < 2 ^ 31
      → ((shape : IPosition) → 0 < length shape → shape_product shape ≡ product shape)
      → kind_of dtype ≢ unhandled_kind
      → (kind_of dtype ≡ complex_kind → strategy ≡ fixed_strategy)
      → (a : ArrowArray) × (make_array shape_product kind_of
            (ok strategy)
            (many_shapes dtype n shapes)
            (sum (map product shapes))
          ≡ ok a)
        × (get_row_shapes a
            ≡ ok (map (λ (shape : IPosition). reverse shape ++ pair_dims (kind_of dtype)) shapes))
  unfolding make_array nest
  make_array-get_row_shapes shape_product kind_of strategy dtype n shapes some_dim ranked positive
        small products handled pairs =
      let kind = kind_of dtype in
      let total = sum (map product shapes) in
      let data_shape = many_shapes dtype n shapes in
      let (base, based, count, finds) =
        base_array-rows kind strategy total handled pairs (omega (arith, small)) in
      let (a, nested, outer, found) =
        nest_lists-rows n shapes (λ r. pair_dims kind) base ranked positive count
          (λ r l. finds _ _) in
      (
        a,
        ap
              (λ (r : Result (Unit {0})).
                r
                >> (base_array kind strategy total (n_elements shape_product data_shape)
                    >>= nest strategy none data_shape))
              (is_handled kind handled)
            ∙ ap (λ m. base_array kind strategy total m >>= nest strategy none data_shape)
                (n_elements-many shape_product dtype n shapes products some_dim ranked small)
            ∙ ap (λ (r : Result ArrowArray). r >>= nest strategy none data_shape) based
            ∙ by_strategy strategy base
            ∙ ap (λ (r : Result (List (List ℕ))). r >>= λ offsets. nest_lists offsets base)
                (get_offsets-many dtype n shapes some_dim ranked positive small)
            ∙ nested,
        shapes_found shapes (pair_dims kind) a outer found,
      )
    where
      by_strategy :
          (strategy : ConvertStrategy) (base : ArrowArray)
          → nest strategy none (many_shapes dtype n shapes) base
            ≡ (get_offsets (many_shapes dtype n shapes) >>= λ offsets. nest_lists offsets base)
      by_strategy fixed_strategy base = refl
      by_strategy list_strategy base = refl

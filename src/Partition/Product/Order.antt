-- ===== src/Partition/Product/Order.antt =====
-- The chunks of a cartesian product, and their order.
use mathlib.Core.Path.{ap₂}
use mathlib.Core.List.{map-append}
use arcae.Prelude.{
  ℕ, ◌≡◌, refl, sym, ap, ◌∙◌, List, [], ◌∷◌, ◌++◌, map, append-nil, append_assoc, length, product,
  Bool-cases, inl, inr, Perm, concat, subst, ℤ, zip, Bool, true, false, not, zero, suc, set,
  replicate, length-replicate, get_or, ◌-◌, if◌then◌else◌,
}
use arcae.Prelude.Choices.{
  bind, choices, choices-map, bind-choices, length-choices, bind-map, bind-append,
}
use arcae.Partition.{SpanPair, SpanPairs}
use arcae.Partition.Product.{
  append_each, next_product, product_loop, cartesian_product, secondary_dimensions_contiguous, mark,
  mark_rows, stride_of, CartesianProduct,
}

-- What follows each of the given beginnings.
abbrev continued : List SpanPairs → List SpanPairs → List SpanPairs
continued starts ends = bind starts (λ s. map (λ e. s ++ e) ends)

map-start :
    (s : SpanPairs) (x : SpanPair) (ends : List SpanPairs)
    → map (λ e. (s ++ x ∷ []) ++ e) ends ≡ map (λ e. s ++ e) (map (◌∷◌ x) ends)
map-start s x [] = refl
map-start s x (e ∷ ends) = ap₂ ◌∷◌ (append_assoc s (x ∷ []) e) (map-start s x ends)

continued-nil : (starts : List SpanPairs) → continued starts ([] ∷ []) ≡ starts
continued-nil [] = refl
continued-nil (s ∷ starts) = ap₂ ◌∷◌ (append-nil s) (continued-nil starts)

continued-each :
    (s : SpanPairs) (spans : SpanPairs) (ends : List SpanPairs)
    → continued (append_each s spans) ends ≡ map (λ e. s ++ e) (bind spans (λ x. map (◌∷◌ x) ends))
unfolding append_each
continued-each s [] ends = refl
continued-each s (x ∷ spans) ends =
    ap₂ ◌++◌ (map-start s x ends) (continued-each s spans ends)
    ∙ sym (map-append (λ e. s ++ e) (map (◌∷◌ x) ends) _)

continued-next :
    (starts : List SpanPairs) (spans : SpanPairs) (ends : List SpanPairs)
    → continued (next_product starts spans) ends
      ≡ continued starts (bind spans (λ x. map (◌∷◌ x) ends))
unfolding next_product
continued-next [] spans ends = refl
continued-next (s ∷ starts) spans ends =
    bind-append (append_each s spans) (next_product starts spans) _
    ∙ ap₂ ◌++◌ (continued-each s spans ends) (continued-next starts spans ends)

product_loop-choices :
    (starts dims : List SpanPairs) → product_loop starts dims ≡ continued starts (choices dims)
unfolding product_loop
product_loop-choices starts [] = sym (continued-nil starts)
product_loop-choices starts (spans ∷ dims) =
    product_loop-choices (next_product starts spans) dims
    ∙ continued-next starts spans (choices dims)

choices_start : (cs : List SpanPairs) → continued ([] ∷ []) cs ≡ cs
choices_start [] = refl
choices_start (c ∷ cs) = ap (◌∷◌ c) (choices_start cs)

-- The chunks are all the choices of one sub-span in each dimension, each made once, with the last
-- dimension, that of the rows, changing fastest.
pub dim_spans-choices : (dims : List SpanPairs) → (cartesian_product dims).dim_spans ≡ choices dims
unfolding cartesian_product
dim_spans-choices dims = elim (Bool-cases (secondary_dimensions_contiguous dims)) [
  | inl e ↦ rw e (product_loop-choices ([] ∷ []) dims ∙ choices_start (choices dims))
  | inr e ↦ rw e (product_loop-choices ([] ∷ []) dims ∙ choices_start (choices dims))
]

-- The assertion `nproducts == product.size()`.
pub length-dim_spans :
    (dims : List SpanPairs) → length (cartesian_product dims).dim_spans ≡ product (map length dims)
length-dim_spans dims = ap length (dim_spans-choices dims) ∙ length-choices dims

-- The pairs of a disk and a memory index that a sub-span holds.
abbrev pub index_pairs : SpanPair → List (ℤ × ℕ)
index_pairs spans = zip spans.disk spans.mem

-- The elements of a chunk: a pair of indices in each dimension.
abbrev pub elements : SpanPairs → List (List (ℤ × ℕ))
elements chunk = choices (map index_pairs chunk)

map-choices :
    (dims : List SpanPairs)
    → bind (choices dims) elements ≡ bind (choices (map (map index_pairs) dims)) choices
map-choices dims =
    sym (bind-map (choices dims) (map index_pairs) choices)
    ∙ ap (λ cs. bind cs choices) (sym (choices-map index_pairs dims))

-- The elements of all chunks together are the elements of the array that the joined sub-spans
-- describe, and each belongs to one chunk.
pub elements-perm :
    (dims : List SpanPairs)
    → Perm
        (bind (cartesian_product dims).dim_spans elements)
        (choices (map (λ spans. concat (map index_pairs spans)) dims))
elements-perm dims =
    rw (dim_spans-choices dims, map-choices dims)
      (subst (λ joined. Perm (bind (choices blocks) choices) (choices joined)) (joins dims)
        (bind-choices blocks))
  where
    blocks : List (List (List (ℤ × ℕ)))
    blocks = map (map index_pairs) dims

    joins :
        (ds : List SpanPairs)
        → map concat (map (map index_pairs) ds) ≡ map (λ spans. concat (map index_pairs spans)) ds
    joins [] = refl
    joins (d ∷ ds) = ap (◌∷◌ (concat (map index_pairs d))) (joins ds)

length-set : (flags : List Bool) (i : ℕ) (v : Bool) → length (set flags i v) ≡ length flags
length-set [] i v = refl
length-set (b ∷ flags) zero v = refl
length-set (b ∷ flags) (suc i) v = ap suc (length-set flags i v)

length-mark :
    (n i : ℕ) (rows_contiguous : Bool) (flags : List Bool)
    → length (mark n i rows_contiguous flags) ≡ length flags
unfolding mark
length-mark zero i rows_contiguous flags = refl
length-mark (suc n) i rows_contiguous flags =
    length-mark n (suc i) rows_contiguous _ ∙ length-set flags i _

length-mark_rows :
    (stride rs : ℕ) (rows : SpanPairs) (flags : List Bool)
    → length (mark_rows stride rs rows flags) ≡ length flags
unfolding mark_rows
length-mark_rows stride rs [] flags = refl
length-mark_rows stride rs (row ∷ rows) flags =
    length-mark_rows stride (suc rs) rows _ ∙ length-mark stride _ _ flags

-- There is a flag for each chunk.
pub length-contiguous :
    (dims : List SpanPairs)
    → length (cartesian_product dims).contiguous ≡ length (cartesian_product dims).dim_spans
unfolding cartesian_product
length-contiguous dims =
    by_flag (secondary_dimensions_contiguous dims) refl ∙ sym (length-dim_spans dims)
  where
    flags : Bool → List Bool
    flags contiguous = replicate (product (map length dims)) contiguous

    made : Bool → CartesianProduct
    made secondary =
        if not secondary
        then record { dim_spans = product_loop ([] ∷ []) dims; contiguous = flags secondary }
        else record {
          dim_spans = product_loop ([] ∷ []) dims;
          contiguous =
              mark_rows (stride_of dims) 0 (get_or dims (length dims - 1) []) (flags secondary);
        }

    by_flag :
        (contiguous : Bool)
        → secondary_dimensions_contiguous dims ≡ contiguous
        → length (cartesian_product dims).contiguous ≡ product (map length dims)
    by_flag true e =
        ap (λ b. length (made b).contiguous) e
        ∙ length-mark_rows (stride_of dims) 0 (get_or dims (length dims - 1) []) (flags true)
        ∙ length-replicate (product (map length dims)) true
    by_flag false e =
        ap (λ b. length (made b).contiguous) e ∙ length-replicate (product (map length dims)) false

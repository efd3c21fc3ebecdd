-- ===== src/Arrow/Offsets/Nested.antt =====
-- The offsets of each dimension, and that they fit the dimension below.
use native.Mathlib.Nat.{mod-eq_of_lt}
use arcae.Prelude.{
  ℕ, zero, suc, ◌+◌, ◌-◌, ◌*◌, ◌%◌, ◌^◌, ◌<◌, ◌≤◌, ◌≡◌, refl, sym, ap, ◌∙◌, List, [], ◌∷◌, ◌++◌,
  append_assoc, append-nil, map, length, length-replicate, replicate, sum, product, All, arith,
}
use arcae.Arrow.Offsets.{Running, no_offsets, append_offsets, row_round, build_offsets}

-- The offsets after the first of `n` lists of `size` elements that begin at `start`.
abbrev pub steps : ℕ → ℕ → ℕ → List ℕ
steps zero size start = []
steps (suc n) size start = (start + size) ∷ steps n size (start + size)

append_offsets-steps :
    (n size : ℕ) (run : Running)
    → run.offset + n * size < 2 ^ 31
    → append_offsets n size run
      ≡ record { offset = run.offset + n * size; built = run.built ++ steps n size run.offset }
unfolding append_offsets
append_offsets-steps zero size run l =
    let e : run.offset + 0 * size ≡ run.offset = omega arith in
    ap (λ built. record { offset = run.offset; built = built }) (sym (append-nil run.built))
    ∙ ap (λ offset. record { offset = offset; built = run.built ++ [] }) (sym e)
append_offsets-steps (suc n) size run l =
    let times : suc n * size ≡ size + n * size = grind arith in
    let next = run.offset + size in
    let whole : next % 2 ^ 64 ≡ next = mod-eq_of_lt (omega (arith, times, l)) in
    let small : next % 2 ^ 64 % 2 ^ 32 ≡ next =
      ap (λ n. n % 2 ^ 32) whole ∙ mod-eq_of_lt (omega (arith, times, l)) in
    ap
      (λ built.
        append_offsets n size (record { offset = next % 2 ^ 64; built = run.built ++ built ∷ [] }))
      small
    ∙ ap
        (λ offset.
          append_offsets n size (record { offset = offset; built = run.built ++ next ∷ [] }))
        whole
    ∙ append_offsets-steps n size (record { offset = next; built = run.built ++ next ∷ [] })
        (omega (arith, times, l))
    ∙ ap (λ offset. record { offset = offset; built = run.built ++ next ∷ [] ++ steps n size next })
        (omega (arith, times))
    ∙ ap (λ built. record { offset = run.offset + suc n * size; built = built })
        (append_assoc run.built (next ∷ []) (steps n size next))

-- The offsets of the lists of the first dimension, after the first.
abbrev pub runs_of : List (List ℕ) → ℕ → List ℕ
runs_of [] start = []
runs_of ([] ∷ rows) start = runs_of rows start
runs_of ((size ∷ sizes) ∷ rows) start =
    steps (product sizes) size start ++ runs_of rows (start + product sizes * size)

abbrev pub tail : List ℕ → List ℕ
tail [] = []
tail (x ∷ xs) = xs

-- Rows that all have `n` dimensions.
abbrev pub AllRank : ℕ → List (List ℕ) → Type 0
AllRank n rows = All (λ (sizes : List ℕ). length sizes ≡ n) rows

-- The offsets of all dimensions.
abbrev pub offsets_of : ℕ → List (List ℕ) → List (List ℕ)
offsets_of zero rows = []
offsets_of (suc n) rows = (0 ∷ runs_of rows 0) ∷ offsets_of n (map tail rows)

-- No dimension of a row is empty.
abbrev pub AllPositive : List (List ℕ) → Type 0
AllPositive rows = All (λ (sizes : List ℕ). All (λ size. 0 < size) sizes) rows

product-tail-le :
    (sizes : List ℕ) → All (λ size. 0 < size) sizes → product (tail sizes) ≤ product sizes
product-tail-le [] h = omega arith
product-tail-le (size ∷ sizes) h =
    let positive : 0 < size = h.0 in
    let more : size * product sizes ≡ product sizes + (size - 1) * product sizes =
      (let e : size ≡ suc (size - 1) = omega arith in
        ap (λ n. n * product sizes) e ∙ grind arith) in
    omega (arith, more)

total-tail-le :
    (rows : List (List ℕ))
    → AllPositive rows
    → sum (map product (map tail rows)) ≤ sum (map product rows)
total-tail-le [] h = omega arith
total-tail-le (sizes ∷ rows) h = omega (arith, product-tail-le sizes h.0, total-tail-le rows h.1)

pub AllRank-tail : (n : ℕ) (rows : List (List ℕ)) → AllRank (suc n) rows → AllRank n (map tail rows)
AllRank-tail n [] h = tt
AllRank-tail n ([] ∷ rows) h = absurd (omega (arith, h.0))
AllRank-tail n ((size ∷ sizes) ∷ rows) h = (omega (arith, h.0), AllRank-tail n rows h.1)

pub AllPositive-tail : (rows : List (List ℕ)) → AllPositive rows → AllPositive (map tail rows)
AllPositive-tail [] h = tt
AllPositive-tail ([] ∷ rows) h = (tt, AllPositive-tail rows h.1)
AllPositive-tail ((size ∷ sizes) ∷ rows) h = (h.0.1, AllPositive-tail rows h.1)

row_round-product :
    (sizes : List ℕ) (runs : List Running)
    → length sizes ≡ length runs
    → All (λ size. 0 < size) sizes
    → product sizes < 2 ^ 31
    → (row_round sizes runs).1 ≡ product sizes
unfolding row_round
row_round-product [] runs n h l = refl
row_round-product (size ∷ sizes) [] n h l = absurd (omega (arith, n))
row_round-product (size ∷ sizes) (run ∷ runs) n h l =
    let inner =
      row_round-product sizes runs (omega (arith, n)) h.1
        (omega (arith, product-tail-le (size ∷ sizes) h, l)) in
    let turned : product sizes * size ≡ size * product sizes = grind arith in
    ap (λ p. p * size % 2 ^ 64) inner
    ∙ ap (λ p. p % 2 ^ 64) turned
    ∙ mod-eq_of_lt (omega (arith, l))

length-row_round :
    (sizes : List ℕ) (runs : List Running)
    → length sizes ≡ length runs
    → length (row_round sizes runs).0 ≡ length runs
unfolding row_round
length-row_round [] runs n = refl
length-row_round (size ∷ sizes) [] n = absurd (omega (arith, n))
length-row_round (size ∷ sizes) (run ∷ runs) n =
    ap suc (length-row_round sizes runs (omega (arith, n)))

-- The first dimension apart from the others.
build_offsets-first :
    (n : ℕ) (rows : List (List ℕ)) (run : Running) (runs : List Running)
    → AllRank (suc n) rows
    → length runs ≡ n
    → AllPositive rows
    → run.offset + sum (map product rows) < 2 ^ 31
    → build_offsets rows (run ∷ runs)
      ≡ record {
        offset = run.offset + sum (map product rows);
        built = run.built ++ runs_of rows run.offset;
      }
        ∷ build_offsets (map tail rows) runs
unfolding build_offsets row_round
build_offsets-first n [] run runs r c h l =
    let e : run.offset + 0 ≡ run.offset = omega arith in
    ap (λ built. record { offset = run.offset; built = built } ∷ runs) (sym (append-nil run.built))
    ∙ ap (λ offset. record { offset = offset; built = run.built ++ [] } ∷ runs) (sym e)
build_offsets-first n ([] ∷ rows) run runs r c h l = absurd (omega (arith, r.0))
build_offsets-first n ((size ∷ sizes) ∷ rows) run runs r c h l =
    let times : product sizes * size ≡ size * product sizes = grind arith in
    let rank : length sizes ≡ length runs = omega (arith, r.0, c) in
    let small : product sizes < 2 ^ 31 = omega (arith, product-tail-le (size ∷ sizes) h.0, l) in
    let next : Running = record {
      offset = run.offset + product sizes * size;
      built = run.built ++ steps (product sizes) size run.offset;
    } in
    let rest = (row_round sizes runs).0 in
    ap (λ p. build_offsets rows (append_offsets p size run ∷ rest))
      (row_round-product sizes runs rank h.0.1 small)
    ∙ ap (λ run. build_offsets rows (run ∷ rest))
        (append_offsets-steps (product sizes) size run (omega (arith, times, l)))
    ∙ build_offsets-first n rows next rest r.1 (length-row_round sizes runs rank ∙ c) h.1
        (omega (arith, times, l))
    ∙ ap
        (λ offset.
          record {
            offset = offset;
            built = run.built ++ steps (product sizes) size run.offset ++ runs_of rows next.offset;
          }
          ∷ build_offsets (map tail rows) rest)
        (omega (arith, times))
    ∙ ap
        (λ built.
          record {
            offset = run.offset + (size * product sizes + sum (map product rows));
            built = built;
          }
          ∷ build_offsets (map tail rows) rest)
        (append_assoc run.built (steps (product sizes) size run.offset) (runs_of rows next.offset))

build_offsets-nil : (rows : List (List ℕ)) → build_offsets rows [] ≡ []
unfolding build_offsets row_round
build_offsets-nil [] = refl
build_offsets-nil ([] ∷ rows) = build_offsets-nil rows
build_offsets-nil ((size ∷ sizes) ∷ rows) = build_offsets-nil rows

pub build_offsets-offsets_of :
    (n : ℕ) (rows : List (List ℕ))
    → AllRank n rows
    → AllPositive rows
    → sum (map product rows) < 2 ^ 31
    → map (λ (run : Running). run.built) (build_offsets rows (replicate n no_offsets))
      ≡ offsets_of n rows
build_offsets-offsets_of zero rows r h l =
    ap (map (λ (run : Running). run.built)) (build_offsets-nil rows)
build_offsets-offsets_of (suc n) rows r h l =
    ap (map (λ (run : Running). run.built)) (
      build_offsets-first n rows no_offsets (replicate n no_offsets) r
        (length-replicate n no_offsets) h (omega (arith, l)))
    ∙ ap (λ rest. (0 ∷ runs_of rows 0) ∷ rest)
        (build_offsets-offsets_of n (map tail rows) (AllRank-tail n rows r)
          (AllPositive-tail rows h) (omega (arith, total-tail-le rows h, l)))

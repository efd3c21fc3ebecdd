-- ===== src/Transfer/Copy/Moves.antt =====
-- A loop over the positions of a chunk that moves the element of each from one place to another: what
-- is at the places afterwards.
use native.Mathlib.Decide.{ℕ_discrete}
use arcae.Prelude.{
  All-append, ℕ, zero, suc, ◌+◌, ◌*◌, ◌<◌, ◌≤◌, ◌≡◌, ◌≢◌, refl, sym, ap, ◌∙◌, subst, true, false,
  some, List, [], ◌∷◌, ◌++◌, map, length, iota, replicate, product, All, ◌==◌, arith, length-append,
  none, Option, if◌then◌else◌, length-map, length-iota,
}
use arcae.Prelude.Choices.{bind}
use arcae.Shape.Offsets.Exact.{Inside}
use arcae.Transfer.Copy.{advance, write}
use arcae.Transfer.Copy.Order.{Run, last, more, positions, positions-Run}

All-bind {ℓ κ} :
    {A : Type ℓ} {B : Type κ} (P : B → Type 0) (Q : A → Type 0) (xs : List A) (f : A → List B)
    → ((x : A) → Q x → All P (f x))
    → All Q xs
    → All P (bind xs f)
All-bind P Q [] f h a = tt
All-bind P Q (x ∷ xs) f h a = All-append P (f x) (bind xs f) (h x a.0) (All-bind P Q xs f h a.1)

All-row :
    (p n size : ℕ) (sizes rest : List ℕ)
    → p + n ≤ size
    → Inside rest sizes
    → All (λ pos. Inside pos (size ∷ sizes)) (map (λ p. p ∷ rest) (iota p n))
All-row p zero size sizes rest l h = tt
All-row p (suc n) size sizes rest l h =
    ((omega arith, h), All-row (suc p) n size sizes rest (omega arith) h)

positions-Inside : (sizes : List ℕ) → All (λ pos. Inside pos sizes) (positions sizes)
positions-Inside [] = (tt, tt)
positions-Inside (size ∷ sizes) =
    All-bind (λ pos. Inside pos (size ∷ sizes)) (λ pos. Inside pos sizes) (positions sizes) _
      (λ rest h. All-row 0 size size sizes rest (omega arith) h) (positions-Inside sizes)

data Contains {ℓ} {A : Type ℓ} (a : A) : List A → Type ℓ where
  here : {x : A} {xs : List A} → x ≡ a → Contains a (x ∷ xs)
  there : {x : A} {xs : List A} → Contains a xs → Contains a (x ∷ xs)

Contains-append_left {ℓ} :
    {A : Type ℓ} {a : A} {xs : List A} (ys : List A) → Contains a xs → Contains a (xs ++ ys)
Contains-append_left ys (here e) = here e
Contains-append_left ys (there h) = there (Contains-append_left ys h)

Contains-append_right {ℓ} :
    {A : Type ℓ} {a : A} (xs : List A) {ys : List A} → Contains a ys → Contains a (xs ++ ys)
Contains-append_right [] h = h
Contains-append_right (x ∷ xs) h = there (Contains-append_right xs h)

Contains-bind {ℓ κ} :
    {A : Type ℓ} {B : Type κ} {x : A} {y : B} {xs : List A} (f : A → List B)
    → Contains x xs
    → Contains y (f x)
    → Contains y (bind xs f)
Contains-bind {y = y} f (here {xs = xs} e) m =
    Contains-append_left (bind xs f) (subst (λ a. Contains y (f a)) (sym e) m)
Contains-bind f (there {x = x} h) m = Contains-append_right (f x) (Contains-bind f h m)

Contains-row :
    (p n i : ℕ) (rest : List ℕ)
    → p ≤ i
    → i < p + n
    → Contains (i ∷ rest) (map (λ p. p ∷ rest) (iota p n))
Contains-row p zero i rest l l' = absurd (omega arith)
Contains-row p (suc n) i rest l l' = elim (ℕ_discrete p i) [
  | yes e ↦ here (ap (λ p. p ∷ rest) e)
  | no e ↦ there (Contains-row (suc p) n i rest (omega arith) (omega arith))
]

Contains-positions : (sizes pos : List ℕ) → Inside pos sizes → Contains pos (positions sizes)
Contains-positions [] [] h = here refl
Contains-positions [] (p ∷ pos) h = absurd h
Contains-positions (size ∷ sizes) [] h = absurd h
Contains-positions (size ∷ sizes) (p ∷ pos) h =
    Contains-bind _ (Contains-positions sizes pos h.1)
      (Contains-row 0 size p pos (omega arith) (omega (arith, h.0)))

length-positions : (sizes : List ℕ) → length (positions sizes) ≡ product sizes
length-positions [] = refl
length-positions (size ∷ sizes) =
    length_rows (positions sizes) ∙ ap (λ n. size * n) (length-positions sizes)
  where
    length_rows :
        (rests : List (List ℕ))
        → length (bind rests (λ rest. map (λ p. p ∷ rest) (iota 0 size))) ≡ size * length rests
    length_rows [] = omega arith
    length_rows (rest ∷ rests) =
        length-append (map (λ p. p ∷ rest) (iota 0 size)) _
        ∙ omega (
          arith,
          length-map (iota 0 size) (λ p. p ∷ rest),
          length-iota 0 size,
          length_rows rests,
          times,
        )
      where
        times : size * suc (length rests) ≡ size + size * length rests
        times = grind arith

All-map {ℓ κ μ} :
    {A : Type ℓ} {P : A → Type κ} {Q : A → Type μ} (xs : List A)
    → ((x : A) → P x → Q x)
    → All P xs
    → All Q xs
All-map [] h a = tt
All-map (x ∷ xs) h a = (h x a.0, All-map xs h a.1)

module _ {ℓ} {A : Type ℓ} (sizes : List ℕ) (src dst : List ℕ → ℕ) (in_ptr : ℕ → A) where
  -- The element of a position is moved.
  unfoldable pub move_at : List ℕ → (ℕ → A) → ℕ → A
  move_at pos buffer = write buffer (dst pos) (in_ptr (src pos))

  -- The loop over the positions.
  unfoldable pub move_loop : ℕ → List ℕ → (ℕ → A) → Option (ℕ → A)
  move_loop zero pos buffer = none
  move_loop (suc fuel) pos buffer =
      let next = advance sizes pos in
      let rest = move_loop fuel next.0 (move_at pos buffer) in
      if next.1 then some (move_at pos buffer) else rest

  -- The element at each of the positions is moved, in their order.
  move_all : List (List ℕ) → (ℕ → A) → ℕ → A
  move_all [] buffer = buffer
  move_all (pos ∷ rest) buffer = move_all rest (move_at pos buffer)

  move_loop-all :
      (fuel : ℕ) (pos : List ℕ) (visited : List (List ℕ)) (buffer : ℕ → A)
      → Run sizes pos visited
      → length visited ≤ fuel
      → move_loop fuel pos buffer ≡ some (move_all visited buffer)
  unfolding move_loop move_all
  move_loop-all zero pos visited buffer (last done) l = absurd (omega arith)
  move_loop-all zero pos visited buffer (more next r) l = absurd (omega arith)
  move_loop-all (suc fuel) pos visited buffer (last done) l = rw (done, move_loop) refl
  move_loop-all (suc fuel) pos visited buffer (more {rest = rest} next r) l =
      rw (next, move_loop) (move_loop-all fuel _ rest (move_at pos buffer) r (omega arith))

  written : (buffer : ℕ → A) (pos : List ℕ) → move_at pos buffer (dst pos) ≡ in_ptr (src pos)
  unfolding move_at
  written buffer pos = let e : (dst pos == dst pos) ≡ true = ground arith in rw e refl

  unwritten :
      (buffer : ℕ → A) (pos : List ℕ) (o : ℕ) → dst pos ≢ o → move_at pos buffer o ≡ buffer o
  unfolding move_at
  unwritten buffer pos o e = let e' : (o == dst pos) ≡ false = ground arith in rw e' refl

  -- A value that no later copy changes.
  kept :
      (visited : List (List ℕ)) (buffer : ℕ → A) (o : ℕ) (value : A)
      → All (λ pos. dst pos ≡ o → in_ptr (src pos) ≡ value) visited
      → buffer o ≡ value
      → move_all visited buffer o ≡ value
  unfolding move_all
  kept [] buffer o value h e = e
  kept (pos ∷ rest) buffer o value h e =
      kept rest (move_at pos buffer) o value h.1 (elim (ℕ_discrete (dst pos) o) [
        | yes same ↦ subst (λ o. move_at pos buffer o ≡ value) same (written buffer pos ∙ h.0 same)
        | no away ↦ unwritten buffer pos o away ∙ e
      ])

  copied :
      (visited : List (List ℕ)) (buffer : ℕ → A) (pos : List ℕ)
      → Contains pos visited
      → All (λ other. dst other ≡ dst pos → in_ptr (src other) ≡ in_ptr (src pos)) visited
      → move_all visited buffer (dst pos) ≡ in_ptr (src pos)
  unfolding move_all
  copied [] buffer pos m h = elim m [ ]
  copied (first ∷ rest) buffer pos (here e) h =
      kept rest (move_at first buffer) (dst pos) _ h.1
        (subst (λ pos. move_at first buffer (dst pos) ≡ in_ptr (src pos)) e (written buffer first))
  copied (first ∷ rest) buffer pos (there m) h = copied rest (move_at first buffer) pos m h.1

  untouched :
      (visited : List (List ℕ)) (buffer : ℕ → A) (o : ℕ)
      → All (λ pos. dst pos ≢ o) visited
      → move_all visited buffer o ≡ buffer o
  unfolding move_all
  untouched [] buffer o h = refl
  untouched (pos ∷ rest) buffer o h =
      untouched rest (move_at pos buffer) o h.1 ∙ unwritten buffer pos o h.0

  -- If as many rounds are made as there are positions, and no dimension is empty, the loop ends. Then
  -- the element of a position whose destination no other has is there, and what is at no destination
  -- is as it was.
  pub move_loop_lem :
      (fuel : ℕ) (buffer : ℕ → A)
      → All (λ size. 0 < size) sizes
      → product sizes ≤ fuel
      → (after : ℕ → A) × (move_loop fuel (replicate (length sizes) 0) buffer ≡ some after)
        × ((pos : List ℕ)
            → Inside pos sizes
            → ((other : List ℕ) → Inside other sizes → dst other ≡ dst pos → other ≡ pos)
            → after (dst pos) ≡ in_ptr (src pos))
        × ((o : ℕ) → ((other : List ℕ) → Inside other sizes → dst other ≢ o) → after o ≡ buffer o)
  move_loop_lem fuel buffer some_size enough =
      let all = positions sizes in
      (
        move_all all buffer,
        move_loop-all fuel _ all buffer (positions-Run sizes some_size)
            (omega (arith, length-positions sizes)),
        λ pos inside alone. copied all buffer pos (Contains-positions sizes pos inside) (
            All-map all (λ other i e. ap (λ q. in_ptr (src q)) (alone other i e))
              (positions-Inside sizes)),
        λ o away. untouched all buffer o (All-map all away (positions-Inside sizes)),
      )

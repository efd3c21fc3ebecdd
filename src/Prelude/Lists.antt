-- ===== src/Prelude/Lists.antt =====
-- Sequences measured and indexed by native numbers, under the library's names.
use Prim.Native.Nat.{ℕ, zero, suc, ◌+◌, ◌-◌, ◌*◌, ◌≤◌, ◌<◌, min}
use mathlib.Core.Path.{◌≡◌, refl, sym, ap, ap₂, ◌∙◌}
use mathlib.Core.List.{List, [], ◌∷◌, ◌++◌, map, reverse, append_assoc, append-nil, reverse-cons}
use mathlib.Core.Option.{Option, none, some}
use mathlib.Core.Bool.{Bool, true, false}
use native.Mathlib.Decide.{dec_lt}
use native.Mathlib.Omega.{arith}

module _ {ℓ} {A : Type ℓ} where
  abbrev pub length : List A → ℕ
  length [] = 0
  length (x ∷ xs) = suc (length xs)

  abbrev pub is_empty : List A → Bool
  is_empty [] = true
  is_empty (x ∷ xs) = false

  abbrev pub get_elem? : List A → ℕ → Option A
  get_elem? [] i = none
  get_elem? (x ∷ xs) zero = some x
  get_elem? (x ∷ xs) (suc i) = get_elem? xs i

  abbrev pub get_or : List A → ℕ → A → A
  get_or [] i d = d
  get_or (x ∷ xs) zero d = x
  get_or (x ∷ xs) (suc i) d = get_or xs i d

  -- A write out of bounds changes nothing.
  abbrev pub set : List A → ℕ → A → List A
  set [] i v = []
  set (x ∷ xs) zero v = v ∷ xs
  set (x ∷ xs) (suc i) v = x ∷ set xs i v

  abbrev pub take : ℕ → List A → List A
  take zero xs = []
  take (suc n) [] = []
  take (suc n) (x ∷ xs) = x ∷ take n xs

  abbrev pub drop : ℕ → List A → List A
  drop zero xs = xs
  drop (suc n) [] = []
  drop (suc n) (x ∷ xs) = drop n xs

  abbrev pub replicate : ℕ → A → List A
  replicate zero a = []
  replicate (suc n) a = a ∷ replicate n a

  abbrev pub concat : List (List A) → List A
  concat [] = []
  concat (xs ∷ xss) = xs ++ concat xss

  -- `absl::Span::subspan(start, n)`.
  abbrev pub subspan : List A → ℕ → ℕ → List A
  subspan xs start n = take n (drop start xs)

  pub length-append : (xs ys : List A) → length (xs ++ ys) ≡ length xs + length ys
  length-append [] ys = omega arith
  length-append (x ∷ xs) ys = omega (arith, length-append xs ys)

  pub length-take : (n : ℕ) (xs : List A) → length (take n xs) ≡ min n (length xs)
  length-take zero xs = omega arith
  length-take (suc n) [] = omega arith
  length-take (suc n) (x ∷ xs) = omega (arith, length-take n xs)

  pub length-drop : (n : ℕ) (xs : List A) → length (drop n xs) ≡ length xs - n
  length-drop zero xs = omega arith
  length-drop (suc n) [] = omega arith
  length-drop (suc n) (x ∷ xs) = omega (arith, length-drop n xs)

  pub take_all : (n : ℕ) (xs : List A) → length xs ≤ n → take n xs ≡ xs
  take_all zero [] h = refl
  take_all zero (x ∷ xs) h = absurd (omega arith)
  take_all (suc n) [] h = refl
  take_all (suc n) (x ∷ xs) h = ap (◌∷◌ x) (take_all n xs (omega arith))

  take-nil : (n : ℕ) → ◌≡◌ {A = List A} (take n []) []
  take-nil zero = refl
  take-nil (suc n) = refl

  -- What stands before `c` is what stands before `s`, and the part from `s` up to `c`.
  pub take-subspan : (s c : ℕ) (xs : List A) → s ≤ c → take s xs ++ subspan xs s (c - s) ≡ take c xs
  take-subspan zero c xs h = let e : c - 0 ≡ c = omega arith in rw e
  take-subspan (suc s) zero xs h = absurd (omega arith)
  take-subspan (suc s) (suc c) [] h = take-nil (suc c - suc s)
  take-subspan (suc s) (suc c) (x ∷ xs) h =
      let e : suc c - suc s ≡ c - s = omega arith in
      rw e (ap (◌∷◌ x) (take-subspan s c xs (omega arith)))

  pub get_or-drop : (n i : ℕ) (xs : List A) (d : A) → get_or (drop n xs) i d ≡ get_or xs (n + i) d
  get_or-drop zero i xs d = let e : 0 + i ≡ i = omega arith in rw e
  get_or-drop (suc n) i [] d = refl
  get_or-drop (suc n) i (x ∷ xs) d =
      let e : suc n + i ≡ suc (n + i) = omega arith in rw e (get_or-drop n i xs d)

  take-append-drop : (n : ℕ) (xs : List A) → take n xs ++ drop n xs ≡ xs
  take-append-drop zero xs = refl
  take-append-drop (suc n) [] = refl
  take-append-drop (suc n) (x ∷ xs) = ap (◌∷◌ x) (take-append-drop n xs)

  drop-drop : (s n : ℕ) (xs : List A) → drop n (drop s xs) ≡ drop (s + n) xs
  drop-drop zero n xs = let e : 0 + n ≡ n = omega arith in rw e
  drop-drop (suc s) zero [] = let e : suc s + 0 ≡ suc s = omega arith in rw e
  drop-drop (suc s) (suc n) [] = let e : suc s + suc n ≡ suc (s + suc n) = omega arith in rw e
  drop-drop (suc s) n (x ∷ xs) =
      let e : suc s + n ≡ suc (s + n) = omega arith in rw e (drop-drop s n xs)

  -- A part from `s` on, and what follows the part.
  pub subspan-drop : (s n : ℕ) (xs : List A) → subspan xs s n ++ drop (s + n) xs ≡ drop s xs
  subspan-drop s n xs = rw (← drop-drop s n xs) (take-append-drop n (drop s xs))

  pub drop_all : (n : ℕ) (xs : List A) → length xs ≤ n → drop n xs ≡ []
  drop_all zero [] h = refl
  drop_all zero (x ∷ xs) h = absurd (omega arith)
  drop_all (suc n) [] h = refl
  drop_all (suc n) (x ∷ xs) h = drop_all n xs (omega arith)

  pub concat-append : (xss yss : List (List A)) → concat (xss ++ yss) ≡ concat xss ++ concat yss
  concat-append [] yss = refl
  concat-append (xs ∷ xss) yss =
      ap (◌++◌ xs) (concat-append xss yss) ∙ sym (append_assoc xs (concat xss) (concat yss))

  pub length-reverse : (xs : List A) → length (reverse xs) ≡ length xs
  length-reverse [] = refl
  length-reverse (x ∷ xs) =
      omega (
        arith,
        ap length (reverse-cons x xs),
        length-append (reverse xs) (x ∷ []),
        length-reverse xs,
      )

  pub get_or-append_left :
      (xs ys : List A) (i : ℕ) (d : A) → i < length xs → get_or (xs ++ ys) i d ≡ get_or xs i d
  get_or-append_left [] ys i d h = absurd (omega arith)
  get_or-append_left (x ∷ xs) ys zero d h = refl
  get_or-append_left (x ∷ xs) ys (suc i) d h = get_or-append_left xs ys i d (omega arith)

  pub get_or-append_right :
      (xs ys : List A) (i : ℕ) (d : A) → get_or (xs ++ ys) (length xs + i) d ≡ get_or ys i d
  get_or-append_right [] ys i d = let e : 0 + i ≡ i = omega arith in rw e
  get_or-append_right (x ∷ xs) ys i d =
      let e : suc (length xs) + i ≡ suc (length xs + i) = omega arith in
      rw e (get_or-append_right xs ys i d)

  pub get_or_default :
      (xs : List A) (i : ℕ) (d d' : A) → i < length xs → get_or xs i d ≡ get_or xs i d'
  get_or_default [] i d d' h = absurd (omega arith)
  get_or_default (x ∷ xs) zero d d' h = refl
  get_or_default (x ∷ xs) (suc i) d d' h = get_or_default xs i d d' (omega arith)

  pub get_or_outside : (xs : List A) (i : ℕ) (d : A) → length xs ≤ i → get_or xs i d ≡ d
  get_or_outside [] i d h = refl
  get_or_outside (x ∷ xs) zero d h = absurd (omega arith)
  get_or_outside (x ∷ xs) (suc i) d h = get_or_outside xs i d (omega arith)

  pub get_or-reverse :
      (xs : List A) (i : ℕ) (d : A)
      → i < length xs
      → get_or (reverse xs) i d ≡ get_or xs (length xs - i - 1) d
  get_or-reverse [] i d h = absurd (omega arith)
  get_or-reverse (x ∷ xs) i d h = rw (reverse-cons x xs) (elim (dec_lt i (length xs)) [
    | yes inside ↦
        let e : length (x ∷ xs) - i - 1 ≡ suc (length xs - i - 1) = omega arith in
        rw e (
          get_or-append_left (reverse xs) (x ∷ []) i d (omega (arith, length-reverse xs))
          ∙ get_or-reverse xs i d inside)
    | no last ↦
        let e : length (x ∷ xs) - i - 1 ≡ 0 = omega arith in
        let e' : i ≡ length (reverse xs) + 0 = omega (arith, length-reverse xs) in
        rw (e, e') (get_or-append_right (reverse xs) (x ∷ []) 0 d)
  ])

  -- One more element of a part that does not reach the end.
  pub take_next :
      (n : ℕ) (xs : List A) (d : A)
      → n < length xs
      → take (suc n) xs ≡ take n xs ++ get_or xs n d ∷ []
  take_next n [] d h = absurd (omega arith)
  take_next zero (x ∷ xs) d h = refl
  take_next (suc n) (x ∷ xs) d h = ap (◌∷◌ x) (take_next n xs d (omega arith))

-- `std::iota`.
abbrev pub iota : ℕ → ℕ → List ℕ
iota start zero = []
iota start (suc n) = start ∷ iota (suc start) n

pub length-iota : (start n : ℕ) → length (iota start n) ≡ n
length-iota start zero = refl
length-iota start (suc n) = ap suc (length-iota (suc start) n)

abbrev pub sum : List ℕ → ℕ
sum [] = 0
sum (x ∷ xs) = x + sum xs

-- `IPosition::product`, of a shape that has an axis.
abbrev pub product : List ℕ → ℕ
product [] = 1
product (x ∷ xs) = x * product xs

module _ {ℓ κ} {A : Type ℓ} {B : Type κ} where
  pub length-map : (xs : List A) (f : A → B) → length (map f xs) ≡ length xs
  length-map [] f = refl
  length-map (x ∷ xs) f = ap suc (length-map xs f)

module _ {ℓ κ} {A : Type ℓ} {B : Type κ} where
  pub concat-map-snoc :
      (f : A → List B) (xs : List A) (x : A)
      → concat (map f (xs ++ x ∷ [])) ≡ concat (map f xs) ++ f x
  concat-map-snoc f [] x = append-nil (f x)
  concat-map-snoc f (y ∷ xs) x =
      ap (◌++◌ (f y)) (concat-map-snoc f xs x) ∙ sym (append_assoc (f y) (concat (map f xs)) (f x))

module _ {ℓ} {B : Type ℓ} where
  pub map-iota :
      (f : ℕ → B) (a : ℕ) (xs : List B) (d : B)
      → ((k : ℕ) → k < length xs → f (a + k) ≡ get_or xs k d)
      → map f (iota a (length xs)) ≡ xs
  map-iota f a [] d h = refl
  map-iota f a (x ∷ xs) d h = ap₂ ◌∷◌ first (
      map-iota f (suc a) xs d
        λ k hk. let e : suc a + k ≡ a + suc k = omega arith in rw e (h (suc k) (omega arith)))
    where
      first : f a ≡ x
      first = let e : a ≡ a + 0 = omega arith in ap f e ∙ h 0 (omega arith)

-- A predicate on each element.
abbrev pub All {ℓ κ} : {A : Type ℓ} → (A → Type κ) → List A → Type κ
All P [] = Unit
All P (x ∷ xs) = P x × All P xs

module _ {ℓ κ} {A : Type ℓ} (P : A → Type κ) where
  pub All-append : (xs ys : List A) → All P xs → All P ys → All P (xs ++ ys)
  All-append [] ys h k = k
  All-append (x ∷ xs) ys h k = (h.0, All-append xs ys h.1 k)

pub get_or-map-iota {ℓ} :
    {B : Type ℓ} (f : ℕ → B) (a n i : ℕ) (d : B) → i < n → get_or (map f (iota a n)) i d ≡ f (a + i)
get_or-map-iota f a zero i d l = absurd (omega arith)
get_or-map-iota f a (suc n) zero d l = ap f (omega arith)
get_or-map-iota f a (suc n) (suc i) d l =
    get_or-map-iota f (suc a) n i d (omega arith) ∙ ap f (omega arith)

pub take-snoc {ℓ} : {A : Type ℓ} (xs : List A) (x : A) → take (length xs) (xs ++ x ∷ []) ≡ xs
take-snoc [] x = refl
take-snoc (y ∷ xs) x = ap (◌∷◌ y) (take-snoc xs x)

pub length-snoc {ℓ} : {A : Type ℓ} (xs : List A) (x : A) → length (xs ++ x ∷ []) ≡ length xs + 1
length-snoc xs x = length-append xs (x ∷ [])

pub length-replicate {ℓ} : {A : Type ℓ} (n : ℕ) (x : A) → length (replicate n x) ≡ n
length-replicate zero x = refl
length-replicate (suc n) x = ap suc (length-replicate n x)

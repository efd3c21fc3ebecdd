-- ===== src/Prelude/Choices.antt =====
-- Choosing one element from each of several lists: the elements of an array, by their coordinates.
use mathlib.Core.Path.{◌≡◌, refl, sym, ap, ◌∙◌, subst, fun_ext}
use mathlib.Core.List.{
  List, [], ◌∷◌, ◌++◌, map, Perm, Permᴰ, append_assoc, map-append, perm_append_comm,
}
use mathlib.Core.List.Perm
use mathlib.Core.Logic.{∥∥₁_elim}
use Prim.Native.Nat.{ℕ, ◌*◌}
use native.Mathlib.Omega.{arith}
use arcae.Prelude.Lists.{concat, length, product, length-append, length-map}

exchange {ℓ} : {B : Type ℓ} (a b c d : List B) → Perm ((a ++ b) ++ (c ++ d)) ((a ++ c) ++ (b ++ d))
exchange a b c d =
    rw (append_assoc a b (c ++ d), append_assoc a c (b ++ d))
      (Perm.append_left a (
        rw (← append_assoc b c d, ← append_assoc c b d)
          (Perm.append_right d (perm_append_comm b c))))

module _ {ℓ κ} {A : Type ℓ} {B : Type κ} where
  -- The results for each element, joined.
  abbrev pub bind : List A → (A → List B) → List B
  bind [] f = []
  bind (x ∷ xs) f = f x ++ bind xs f

  pub bind-append : (xs ys : List A) (f : A → List B) → bind (xs ++ ys) f ≡ bind xs f ++ bind ys f
  bind-append [] ys f = refl
  bind-append (x ∷ xs) ys f =
      ap (◌++◌ (f x)) (bind-append xs ys f) ∙ sym (append_assoc (f x) (bind xs f) (bind ys f))

  -- The same for each list of a list.
  abbrev bind_all : List (List A) → (A → List B) → List B
  bind_all [] f = []
  bind_all (xs ∷ xss) f = bind xs f ++ bind_all xss f

  bind-nil : (xs : List A) → bind xs (λ _. []) ≡ []
  bind-nil [] = refl
  bind-nil (x ∷ xs) = bind-nil xs

  pub bind-concat : (xss : List (List A)) (f : A → List B) → bind (concat xss) f ≡ bind_all xss f
  bind-concat [] f = refl
  bind-concat (xs ∷ xss) f =
      bind-append xs (concat xss) f ∙ ap (◌++◌ (bind xs f)) (bind-concat xss f)

  pub bind-perm :
      (xs : List A) {f g : A → List B} → ((x : A) → Perm (f x) (g x)) → Perm (bind xs f) (bind xs g)
  bind-perm [] h = Perm.refl []
  bind-perm (x ∷ xs) h = Perm.append (h x) (bind-perm xs h)

  bind-both :
      (xs : List A) (f g : A → List B) → Perm (bind xs f ++ bind xs g) (bind xs (λ x. f x ++ g x))
  bind-both [] f g = Perm.refl []
  bind-both (x ∷ xs) f g =
      Perm.trans (exchange (f x) (bind xs f) (g x) (bind xs g))
        (Perm.append_left (f x ++ g x) (bind-both xs f g))

module _ {ℓ κ μ} {A : Type ℓ} {B : Type κ} {C : Type μ} where
  -- The order of two nested loops.
  pub bind_swap :
      (xs : List A) (ys : List B) (f : A → B → List C)
      → Perm (bind xs (λ x. bind ys (f x))) (bind ys (λ y. bind xs (λ x. f x y)))
  bind_swap [] ys f = rw (bind-nil {B = C} ys) (Perm.refl [])
  bind_swap (x ∷ xs) ys f =
      Perm.trans (Perm.append_left (bind ys (f x)) (bind_swap xs ys f))
        (bind-both ys (f x) (λ y. bind xs (λ x. f x y)))

  pub bind-bind :
      (xs : List A) (f : A → List B) (g : B → List C)
      → bind (bind xs f) g ≡ bind xs (λ x. bind (f x) g)
  bind-bind [] f g = refl
  bind-bind (x ∷ xs) f g =
      bind-append (f x) (bind xs f) g ∙ ap (◌++◌ (bind (f x) g)) (bind-bind xs f g)

  pub bind-map :
      (xs : List A) (f : A → B) (g : B → List C) → bind (map f xs) g ≡ bind xs (λ x. g (f x))
  bind-map [] f g = refl
  bind-map (x ∷ xs) f g = ap (◌++◌ (g (f x))) (bind-map xs f g)

  pub map-bind :
      (xs : List A) (f : A → List B) (g : B → C) → map g (bind xs f) ≡ bind xs (λ x. map g (f x))
  map-bind [] f g = refl
  map-bind (x ∷ xs) f g = map-append g (f x) (bind xs f) ∙ ap (◌++◌ (map g (f x))) (map-bind xs f g)

module _ {ℓ} {A : Type ℓ} where
  -- One element of each list. The last coordinate changes fastest.
  abbrev pub choices : List (List A) → List (List A)
  choices [] = [] ∷ []
  choices (xs ∷ xss) = bind xs (λ x. map (◌∷◌ x) (choices xss))

  length-bind :
      (xs : List A) (f : A → List (List A)) (n : ℕ)
      → ((x : A) → length (f x) ≡ n)
      → length (bind xs f) ≡ length xs * n
  length-bind [] f n h = omega arith
  length-bind (x ∷ xs) f n h =
      omega (arith, length-append (f x) (bind xs f), h x, length-bind xs f n h)

  pub length-choices : (xss : List (List A)) → length (choices xss) ≡ product (map length xss)
  length-choices [] = refl
  length-choices (xs ∷ xss) =
      length-bind xs _ (product (map length xss))
        (λ x. length-map (choices xss) (◌∷◌ x) ∙ length-choices xss)

bind_all-perm {ℓ κ} :
    {A : Type ℓ} {B : Type κ} (xss : List (List A)) (f : List A → List B) (g : A → List B)
    → ((xs : List A) → Perm (f xs) (bind xs g))
    → Perm (bind xss f) (bind_all xss g)
bind_all-perm [] f g h = Perm.refl []
bind_all-perm (xs ∷ xss) f g h = Perm.append (h xs) (bind_all-perm xss f g h)

-- To choose a block in each dimension, and then an element in each block, is to choose an element
-- in each dimension: no choice is lost, and none is made twice.
pub bind-choices {ℓ} :
    {A : Type ℓ} (dims : List (List (List A)))
    → Perm (bind (choices dims) choices) (choices (map concat dims))
bind-choices [] = Perm.refl _
bind-choices {A} (blocks ∷ dims) =
    rw (bind-bind blocks (λ b. map (◌∷◌ b) chosen) choices, bind-concat blocks with_rest)
      (bind_all-perm blocks _ with_rest λ b. rw (bind-map chosen (◌∷◌ b) choices) (
        Perm.trans (bind_swap chosen b (λ c x. map (◌∷◌ x) (choices c))) (
          bind-perm b λ x.
            subst (λ l. Perm l (with_rest x)) (map-bind chosen choices (◌∷◌ x))
              (Perm.map (◌∷◌ x) (bind-choices dims)))))
  where
    chosen : List (List (List A))
    chosen = choices dims

    with_rest : A → List (List A)
    with_rest x = map (◌∷◌ x) (choices (map concat dims))

module _ {ℓ κ} {A : Type ℓ} {B : Type κ} (f : A → B) where
  map-cons :
      (x : A) (cs : List (List A)) → map (◌∷◌ (f x)) (map (map f) cs) ≡ map (map f) (map (◌∷◌ x) cs)
  map-cons x [] = refl
  map-cons x (c ∷ cs) = ap (◌∷◌ (f x ∷ map f c)) (map-cons x cs)

  pub choices-map : (dims : List (List A)) → choices (map (map f) dims) ≡ map (map f) (choices dims)
  choices-map [] = refl
  choices-map (xs ∷ dims) =
      bind-map xs f (λ y. map (◌∷◌ y) (choices (map (map f) dims)))
      ∙ ap (bind xs)
          (fun_ext λ x. ap (map (◌∷◌ (f x))) (choices-map dims) ∙ map-cons x (choices dims))
      ∙ sym (map-bind xs (λ x. map (◌∷◌ x) (choices dims)) (map f))

module _ {ℓ κ} {A : Type ℓ} {B : Type κ} (f : A → List B) where
  bind-perm_cases : {xs ys : List A} → Permᴰ xs ys → Perm (bind xs f) (bind ys f)
  bind-perm_cases Permᴰ.nil = Perm.refl []
  bind-perm_cases (Permᴰ.cons {a = a} {b = b} {l₁ = xs} {l₂ = ys} e p) =
      subst (λ b. Perm (f a ++ bind xs f) (f b ++ bind ys f)) e
        (Perm.append_left (f a) (bind-perm_cases p))
  bind-perm_cases (Permᴰ.swap {a = a} {b = b} {a' = c} {b' = d} {l = l} e e') =
      subst (λ d. Perm (f a ++ (f b ++ bind l f)) (f c ++ (f d ++ bind l f))) e
        (subst (λ c. Perm (f a ++ (f b ++ bind l f)) (f c ++ (f a ++ bind l f))) e'
          (rw (← append_assoc (f a) (f b) (bind l f), ← append_assoc (f b) (f a) (bind l f))
            (Perm.append_right (bind l f) (perm_append_comm (f a) (f b)))))
  bind-perm_cases (Permᴰ.trans p q) = Perm.trans (bind-perm_cases p) (bind-perm_cases q)

  -- The elements in another order.
  pub bind-perm_left : {xs ys : List A} → Perm xs ys → Perm (bind xs f) (bind ys f)
  bind-perm_left p = ∥∥₁_elim p (hlevel) (λ d. bind-perm_cases d)

-- Lists that are the same up to order, one by one.
abbrev pub AllPerm : {A : Type 0} → List (List A) → List (List A) → Type 0
AllPerm [] [] = Unit
AllPerm (xs ∷ xss) (ys ∷ yss) = Perm xs ys × AllPerm xss yss
AllPerm _ _ = ⊥

pub choices-perm :
    {A : Type 0} (xss yss : List (List A)) → AllPerm xss yss → Perm (choices xss) (choices yss)
choices-perm [] [] h = Perm.refl _
choices-perm [] (ys ∷ yss) h = absurd h
choices-perm (xs ∷ xss) [] h = absurd h
choices-perm (xs ∷ xss) (ys ∷ yss) h =
    Perm.trans (bind-perm_left (λ x. map (◌∷◌ x) (choices xss)) h.0)
      (bind-perm ys (λ y. Perm.map (◌∷◌ y) (choices-perm xss yss h.1)))

-- ===== src/Prelude/Outcome.antt =====
-- `arrow::Status` and `arrow::Result<T>`: the code of a failure, without its message.
use Prim.Native.Nat.{ℕ, zero, suc, ◌<◌}
use mathlib.Core.Path.{◌≡◌, refl, sym, ap, subst, ◌∙◌}
use native.Mathlib.Omega.{arith}
use arcae.Prelude.Lists.{length, get_or}
use mathlib.Core.Bool.{Bool, true, false}
use mathlib.Core.List.{List, [], ◌∷◌}
use mathlib.Core.Logic.{◌⊎◌, inl, inr}

pub data Status : Type 0 where
  invalid index_error key_error type_error not_implemented : Status

pub data Result {ℓ} (T : Type ℓ) : Type ℓ where
  err : Status → Result T
  ok : T → Result T

pub Result-cases {ℓ} :
    {T : Type ℓ} (r : Result T) → ((t : T) × (r ≡ ok t)) ⊎ ((status : Status) × (r ≡ err status))
Result-cases (err status) = inr (status, refl)
Result-cases (ok t) = inl (t, refl)

infixl 5 ◌>>=◌ ◌>>◌
-- `ARROW_ASSIGN_OR_RAISE`.
abbrev pub ◌>>=◌ {ℓ κ} : {T : Type ℓ} {U : Type κ} → Result T → (T → Result U) → Result U
err status >>= next = err status
ok t >>= next = next t

pub >>=-eq-ok {ℓ κ} :
    {T : Type ℓ} {U : Type κ} (r : Result T) (next : T → Result U) {u : U}
    → (r >>= next) ≡ ok u
    → (t : T) × (r ≡ ok t) × (next t ≡ ok u)
>>=-eq-ok (err status) next h = cc
>>=-eq-ok (ok t) next h = (t, refl, h)

-- `ARROW_RETURN_NOT_OK`.
abbrev pub ◌>>◌ {ℓ} : {U : Type ℓ} → Result (Unit {0}) → Result U → Result U
check >> next = check >>= λ _. next

-- `if (test) return status;`
abbrev pub fail_if : Bool → Status → Result (Unit {0})
fail_if true status = err status
fail_if false status = ok tt

pub fail_if-eq-ok :
    (test : Bool) (status : Status) {u : Unit {0}} → fail_if test status ≡ ok u → test ≡ false
fail_if-eq-ok true status h = cc
fail_if-eq-ok false status h = refl

-- What follows a test that does not fail.
pub fail_if->>-eq-ok {ℓ} :
    {U : Type ℓ} (test : Bool) (status : Status) (next : Result U) {u : U}
    → (fail_if test status >> next) ≡ ok u
    → (test ≡ false) × (next ≡ ok u)
fail_if->>-eq-ok true status next h = cc
fail_if->>-eq-ok false status next h = (refl, h)

-- The results of all elements, or the first failure.
abbrev pub traverse {ℓ κ} : {A : Type ℓ} {T : Type κ} → (A → Result T) → List A → Result (List T)
traverse f [] = ok []
traverse f (a ∷ rest) = f a >>= λ t. traverse f rest >>= λ ts. ok (t ∷ ts)

pub length-traverse {ℓ κ} :
    {A : Type ℓ} {T : Type κ} (f : A → Result T) (xs : List A) {ts : List T}
    → traverse f xs ≡ ok ts
    → length ts ≡ length xs
length-traverse f [] {ts} h = let e : [] ≡ ts = cc in ap length (sym e)
length-traverse f (a ∷ rest) {ts} h =
    let (t, e, h') = >>=-eq-ok (f a) _ h in
    let (later, e', h'') = >>=-eq-ok (traverse f rest) _ h' in
    let same : t ∷ later ≡ ts = cc in ap length (sym same) ∙ ap suc (length-traverse f rest e')

pub get_or-traverse {ℓ κ} :
    {A : Type ℓ} {T : Type κ} (f : A → Result T) (xs : List A) {ts : List T} (i : ℕ) (d : A)
    (d' : T)
    → traverse f xs ≡ ok ts
    → i < length xs
    → f (get_or xs i d) ≡ ok (get_or ts i d')
get_or-traverse f [] i d d' h l = absurd (omega arith)
get_or-traverse f (a ∷ rest) {ts} i d d' h l =
    let (t, e, h') = >>=-eq-ok (f a) _ h in
    let (later, e', h'') = >>=-eq-ok (traverse f rest) _ h' in
    let same : t ∷ later ≡ ts = cc in
    subst (λ ts. f (get_or (a ∷ rest) i d) ≡ ok (get_or ts i d')) same
      (elim i
          as (λ i.
            i < suc (length rest) → f (get_or (a ∷ rest) i d) ≡ ok (get_or (t ∷ later) i d')) [
              | zero ↦ λ l. e
              | suc i ↦ λ l. get_or-traverse f rest i d d' e' (omega arith)
            ]
        l)

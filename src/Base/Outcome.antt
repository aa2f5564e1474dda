-- ===== src/Base/Outcome.antt =====
-- What a Go call comes to: a value with a nil error, an error with its message, or a panic.
use mathlib.Core.Path.{◌≡◌, refl}
use mathlib.Core.Logic.{◌⊎◌, inl, inr}
use mathlib.Core.List.{◌++◌}
use pricefeeder.Base.Strings.{Text}

pub data Result {ℓ} (A : Type ℓ) : Type ℓ where
  panic : Result A
  err : Text → Result A
  ok : A → Result A

-- What follows a call runs only on its value.
module _ {ℓ κ} {A : Type ℓ} {B : Type κ} where
  infixl 5 ◌>>=◌
  abbrev pub ◌>>=◌ : Result A → (A → Result B) → Result B
  panic >>= k = panic
  err message >>= k = err message
  ok x >>= k = k x

infixl 5 ◌>>◌
abbrev pub ◌>>◌ {κ} : {B : Type κ} → Result (Unit {0}) → Result B → Result B
call >> rest = call >>= λ done. rest

-- An error's text behind a prefix, `fmt.Errorf("...: %w", err)`, also with `%v`.
abbrev pub wrap_error {ℓ} : {A : Type ℓ} → Text → Result A → Result A
wrap_error prefix (ok a) = ok a
wrap_error prefix (err message) = err (prefix ++ message)
wrap_error prefix panic = panic

pub wrap_error-eq-ok {ℓ} :
    {A : Type ℓ} (prefix : Text) (call : Result A) {x : A}
    → wrap_error prefix call ≡ ok x
    → call ≡ ok x
wrap_error-eq-ok prefix (ok a) h = h
wrap_error-eq-ok prefix (err message) h = cc
wrap_error-eq-ok prefix panic h = h

-- A call whose error the caller turns into a panic, `if err != nil { panic(err) }`.
abbrev pub must {ℓ} : {A : Type ℓ} → Result A → Result A
must (ok a) = ok a
must (err e) = panic
must panic = panic

-- A call that went through, and so did what follows it.
pub >>=-eq-ok {ℓ κ} :
    {A : Type ℓ} {B : Type κ} (call : Result A) (k : A → Result B) {y : B}
    → (call >>= k) ≡ ok y
    → (x : A) × (call ≡ ok x) × (k x ≡ ok y)
>>=-eq-ok panic k through = cc
>>=-eq-ok (err message) k through = cc
>>=-eq-ok (ok x) k through = (x, refl, through)

pub must-eq-ok {ℓ} : {A : Type ℓ} (r : Result A) {a : A} → must r ≡ ok a → r ≡ ok a
must-eq-ok (ok b) h = h
must-eq-ok (err e) h = cc
must-eq-ok panic h = cc

pub ok-injective {ℓ} : {A : Type ℓ} {a b : A} → ok a ≡ ok b → a ≡ b
ok-injective h = cc

-- A call that ends in an error, or what follows it does.
pub >>=-eq-err {ℓ κ} :
    {A : Type ℓ} {B : Type κ} (call : Result A) (k : A → Result B) {e : Text}
    → (call >>= k) ≡ err e
    → (call ≡ err e) ⊎ ((x : A) × (call ≡ ok x) × (k x ≡ err e))
>>=-eq-err panic k h = absurd cc
>>=-eq-err (err message) k h = inl cc
>>=-eq-err (ok x) k h = inr (x, refl, h)

pub must-never-err {ℓ} : {A : Type ℓ} (call : Result A) {e : Text} → must call ≡ err e → ⊥
must-never-err (ok a) h = cc
must-never-err (err message) h = cc
must-never-err panic h = cc

-- The same, with what follows as a function of the value.
pub through {ℓ κ ρ} :
    {A : Type ℓ} {B : Type κ} {P : Type ρ} (call : Result A) (k : A → Result B) {y : B}
    → (call >>= k) ≡ ok y
    → ((x : A) → call ≡ ok x → k x ≡ ok y → P)
    → P
through panic k went next = absurd cc
through (err message) k went next = absurd cc
through (ok x) k went next = next x refl went

-- A call that returns a value or panics: it hands no error on.
pub data NeverErrs {ℓ} {A : Type ℓ} : Result A → Type ℓ where
  returned : (a : A) → NeverErrs (ok a)
  panicked : NeverErrs panic

pub must-NeverErrs {ℓ} : {A : Type ℓ} (r : Result A) → NeverErrs (must r)
must-NeverErrs (ok a) = returned a
must-NeverErrs (err e) = panicked
must-NeverErrs panic = panicked

pub NeverErrs-cases {ℓ} :
    {A : Type ℓ} {r : Result A} → NeverErrs r → ((a : A) × (r ≡ ok a)) ⊎ (r ≡ panic)
NeverErrs-cases (returned a) = inl (a, refl)
NeverErrs-cases panicked = inr refl

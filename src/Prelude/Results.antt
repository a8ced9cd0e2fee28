-- ===== src/Prelude/Results.antt =====
-- Go's `error` results over mutable state: an action returns a result and the state that it leaves,
-- which is changed also where the action fails.
use Prim.Native.Nat.{ℕ}
use mathlib.Core.Path.{◌≡◌, refl}
use mathlib.Core.Logic.{◌⊎◌, inl, inr}

-- What an operation can end with. `panic` is a Go panic; `io` is an error of a library that the
-- code calls; the others are errors that the code itself makes.
pub data Error : Type 0 where
  panic invalid_height unknown_data not_supported not_found not_listed still_running : Error
  io : ℕ → Error

pub data Result {ℓ} (A : Type ℓ) : Type ℓ where
  ok : A → Result A
  err : Error → Result A

abbrev pub bind : {A B : Type 0} → Result A → (A → Result B) → Result B
bind (ok a) f = f a
bind (err e) f = err e

abbrev pub Exec : Type 0 → Type 0 → Type 0
Exec S A = S → Result A × S

abbrev pub pure : {S A : Type 0} → A → Exec S A
pure a s = (ok a, s)

abbrev pub raise : {S A : Type 0} → Error → Exec S A
raise e s = (err e, s)

-- The rest of a block, after an action that left `r`.
abbrev pub continue_with : {S A B : Type 0} → Result A × S → (A → Exec S B) → Result B × S
continue_with (ok a, s) f = f a s
continue_with (err e, s) f = (err e, s)

infixl 5 ◌>>=◌ ◌>>◌
abbrev pub ◌>>=◌ : {S A B : Type 0} → Exec S A → (A → Exec S B) → Exec S B
◌>>=◌ m f s = continue_with (m s) f

abbrev pub ◌>>◌ : {S B : Type 0} → Exec S (Unit {0}) → Exec S B → Exec S B
m >> k = m >>= λ _. k

pub ok_injective : {A : Type 0} {a b : A} → ok a ≡ ok b → a ≡ b
ok_injective h = cc

pub err_is_not_ok : {A B : Type 0} {e : Error} {a : A} → err e ≡ ok a → B
err_is_not_ok h = cc

pub Result-cases :
    {A : Type 0} (o : Result A) → ((a : A) × (o ≡ ok a)) ⊎ ((e : Error) × (o ≡ err e))
Result-cases (ok a) = inl (a, refl)
Result-cases (err e) = inr (e, refl)

-- Two actions that end well: the first has, and the second goes on from where it ended.
pub >>-ok :
    {S : Type 0} (m k : Exec S (Unit {0})) (s : S)
    → ((m >> k) s).0 ≡ ok tt
    → ((m s).0 ≡ ok tt) × ((m >> k) s ≡ k (m s).1)
>>-ok m k s h = from (m s) h
  where
    from :
        (q : Result (Unit {0}) × _)
        → (continue_with q (λ _. k)).0 ≡ ok tt
        → (q.0 ≡ ok tt) × (continue_with q (λ _. k) ≡ k q.1)
    from (ok _, s) h = (refl, refl)
    from (err e, s) h = err_is_not_ok h

-- ===== src/Prelude/Errors.antt =====
-- A function that may throw returns a `Result`. The constructors of `Error` are the places that
-- throw; the text of a message is not modelled.
use mathlib.Core.Path.{◌≡◌, refl}
use mathlib.Core.Logic.{◌⊎◌, inl, inr}
use mathlib.Core.Bool.{Bool, true, false}
use mathlib.Core.Option.{Option, none, some}
use mathlib.Core.List.{List, [], ◌∷◌}

pub data Error : Type 0 where
  currency_mismatch unit_mismatch : Error
  currency_not_found account_not_found bank_not_found stock_not_found no_unit : Error
  parent_not_found wrong_bank no_accounts tag_not_found category_not_found : Error
  missing_timestamp missing_category missing_vendor missing_payer missing_currency : Error
  no_asset_line no_expense_line no_receivable_line no_split_context no_bank_account : Error
  asset_line_count no_direction unknown_type no_category unknown_kind : Error
  source_not_found linked_not_found not_an_expense not_an_income not_third_party : Error
  not_personal no_previous_value decreasing_as_of bad_range duplicate_active : Error
  bad_percentile no_data bad_window no_item endless_walk missing_form missing_received
        bad_transition missing_repayment invalid_timestamp :
      Error

pub data Result {ℓ} (A : Type ℓ) : Type ℓ where
  ok : A → Result A
  err : Error → Result A

infixl 5 ◌>>=◌
-- An error ends the call; a result goes on.
abbrev pub ◌>>=◌ {ℓ κ} : {B : Type κ} {A : Type ℓ} → Result A → (A → Result B) → Result B
err e >>= next = err e
ok result >>= next = next result

-- `assert(condition)`
abbrev pub guard : Bool → Error → Result (Unit {0})
guard true e = ok tt
guard false e = err e

infixl 5 ◌>>◌
abbrev pub ◌>>◌ {ℓ} : {B : Type ℓ} → Result (Unit {0}) → Result B → Result B
check >> next = check >>= λ _. next

-- `if (!x) throw …`
abbrev pub or_throw {ℓ} : {A : Type ℓ} → Option A → Error → Result A
or_throw none e = err e
or_throw (some a) e = ok a

-- `xs.map(f)` where `f` may throw: the first that throws ends the call.
unfoldable pub map_result {ℓ κ} :
    {A : Type ℓ} {B : Type κ} → (A → Result B) → List A → Result (List B)
map_result f [] = ok []
map_result f (x ∷ xs) = do y ← f x; ys ← map_result f xs; ok (y ∷ ys)

-- A bind that succeeds has a first step that succeeds, and so does the rest on its result.
pub >>=-eq-ok {ℓ κ} :
    {B : Type κ} {A : Type ℓ} (first : Result A) (rest : A → Result B) {out : B}
    → first >>= rest ≡ ok out
    → (mid : A) × (first ≡ ok mid) × (rest mid ≡ ok out)
>>=-eq-ok (err e) rest p = cc
>>=-eq-ok (ok mid) rest p = (mid, refl, p)

pub >>=_congr {ℓ κ} :
    {A : Type ℓ} {B : Type κ} {m n : Result A} {f g : A → Result B}
    → m ≡ n
    → ((a : A) → f a ≡ g a)
    → (m >>= f) ≡ (n >>= g)
>>=_congr {m = m} {n} {f} {g} p h = rw p (at n)
  where
    at : (r : Result _) → (r >>= f) ≡ (r >>= g)
    at (ok a) = h a
    at (err e) = refl

pub or_throw-eq-ok {ℓ} :
    {A : Type ℓ} (o : Option A) (e : Error) {a : A} → or_throw o e ≡ ok a → o ≡ some a
or_throw-eq-ok none e h = cc
or_throw-eq-ok (some a) e h = cc

pub Result-cases {ℓ} :
    {A : Type ℓ} (r : Result A) → ((e : Error) × (r ≡ err e)) ⊎ ((a : A) × (r ≡ ok a))
Result-cases (ok a) = inr (a, refl)
Result-cases (err e) = inl (e, refl)

pub ok-injective {ℓ} : {A : Type ℓ} {a b : A} → ok a ≡ ok b → a ≡ b
ok-injective h = cc

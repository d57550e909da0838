-- ===== src/Run.antt =====
-- Go code that may panic: a value, or a run-time panic that ends the goroutine.
use aave_v3_flash_liquidator.Prelude.{
  ◌≡◌, refl, ◌≢◌, false, true, if◌then◌else◌, Bool, ℤ, div_ℤ, is_zero,
}

pub data Run {ℓ} (A : Type ℓ) : Type ℓ where
  ok : A → Run A
  panic : Run A

infixl 5 ◌>>=◌
abbrev pub ◌>>=◌ {ℓ κ} : {A : Type ℓ} {B : Type κ} → Run A → (A → Run B) → Run B
ok a >>= f = f a
panic >>= f = panic

-- `new(big.Int).Div(a, b)`, which panics on a zero divisor.
unfoldable pub div_go : ℤ → ℤ → Run ℤ
div_go a b = if is_zero b then panic else ok (div_ℤ a b)

pub div_go-ok : (a b : ℤ) → is_zero b ≡ false → div_go a b ≡ ok (div_ℤ a b)
unfolding div_go
div_go-ok a b h = rw (div_go, h)

pub Run-cases {ℓ} : {A : Type ℓ} (r : Run A) → r ≢ panic → (a : A) × (r ≡ ok a)
Run-cases (ok a) h = (a, refl)
Run-cases panic h = absurd (h refl)

-- The run ends normally, in a value that satisfies `P`.
pub data Ends {ℓ κ} {A : Type ℓ} (P : A → Type κ) : Run A → Type (ℓ ⊔ κ) where
  ends : {a : A} → P a → Ends P (ok a)

module _ {ℓ κ} {A : Type ℓ} {P : A → Type κ} where
  pub Ends-value : {r : Run A} → Ends P r → (a : A) × (r ≡ ok a) × P a
  Ends-value (ends p) = (_, refl, p)

  pub Ends-weaken {κ'} : {Q : A → Type κ'} {r : Run A} → ((a : A) → P a → Q a) → Ends P r → Ends Q r
  Ends-weaken k (ends p) = ends (k _ p)

  pub Ends->>= {ℓ' κ'} :
      {B : Type ℓ'} {Q : B → Type κ'} {r : Run A} {f : A → Run B}
      → Ends P r
      → ((a : A) → P a → Ends Q (f a))
      → Ends Q (r >>= f)
  Ends->>= (ends p) k = k _ p

  pub Ends-if :
      (b : Bool) {x y : Run A}
      → (b ≡ true → Ends P x)
      → (b ≡ false → Ends P y)
      → Ends P (if b then x else y)
  Ends-if true f g = f refl
  Ends-if false f g = g refl

-- If the run ends normally, then in a value that satisfies `P`.
pub data OnOk {ℓ κ} {A : Type ℓ} (P : A → Type κ) : Run A → Type (ℓ ⊔ κ) where
  on_ok : {a : A} → P a → OnOk P (ok a)
  on_panic : OnOk P panic

module _ {ℓ κ} {A : Type ℓ} {P : A → Type κ} where
  pub OnOk-value : {a : A} → OnOk P (ok a) → P a
  OnOk-value (on_ok p) = p

  pub OnOk->>= {ℓ'} :
      {B : Type ℓ'} (r : Run B) (f : B → Run A)
      → ((b : B) → r ≡ ok b → OnOk P (f b))
      → OnOk P (r >>= f)
  OnOk->>= (ok b) f k = k b refl
  OnOk->>= panic f k = on_panic

-- ===== src/Kube/Exec.antt =====
-- Computations that read and change a state and may return a Go error. The state that was reached
-- before an error stays.
use paas_controlplane.Base.{Result, ok, err, ◌≡◌, refl, List, [], ◌∷◌}

abbrev pub Exec : Type 0 → Type 0 → Type 0 → Type 0
Exec S E A = S → Result E A × S

module _ {S E A : Type 0} where
  unfoldable pub pure : A → Exec S E A
  pure a s = (ok a, s)

  unfoldable pub raise : E → Exec S E A
  raise e s = (err e, s)

  unfoldable pub lift : Result E A → Exec S E A
  lift r s = (r, s)

  -- The error becomes a value, for code that looks at it.
  unfoldable pub try : Exec S E A → Exec S E (Result E A)
  try m s = let (r, s') = m s in (ok r, s')

abbrev pub relabel : {E A : Type 0} → (E → E) → Result E A → Result E A
relabel f (ok a) = ok a
relabel f (err e) = err (f e)

module _ {S E A : Type 0} where
  -- A handler that returns the error, changed by f: `return fmt.Errorf("...: %w", err)`.
  unfoldable pub on_error : (E → E) → Exec S E A → Exec S E A
  on_error f m s = let (r, s') = m s in (relabel f r, s')

module _ {S E A B : Type 0} where
  abbrev pub continue : Result E A → (A → Exec S E B) → Exec S E B
  continue (ok a) f s = f a s
  continue (err e) f s = (err e, s)

  infixl 10 ◌>>=◌ ◌>>◌
  unfoldable pub ◌>>=◌ : Exec S E A → (A → Exec S E B) → Exec S E B
  unfolding pure raise lift try on_error
  ◌>>=◌ m f s = let (r, s') = m s in continue r f s'

  abbrev pub ◌>>◌ : Exec S E A → Exec S E B → Exec S E B
  m >> n = m >>= λ _. n

module _ {S E A B : Type 0} where
  continue-pure : (r : Result E A) (b : B) (s : S) → (continue r (λ _. pure {E = E} b) s).1 ≡ s
  unfolding pure
  continue-pure (ok a) b s = refl
  continue-pure (err e) b s = refl

  -- Returning a value after a computation leaves the state that the computation left.
  pub bind-pure_state : (m : Exec S E A) (b : B) (s : S) → ((m >> pure b) s).1 ≡ (m s).1
  unfolding ◌>>=◌
  bind-pure_state m b s = continue-pure (m s).0 b (m s).1

module _ {S E A B : Type 0} where
  continue-ok :
      (r : Result E A) (f : A → Exec S E B) (s : S) (b : B)
      → (continue r f s).0 ≡ ok b
      → (a : A) × (r ≡ ok a) × ((f a s).0 ≡ ok b)
  continue-ok (ok a) f s b h = (a, refl, h)
  continue-ok (err e) f s b h = absurd (cc)

  -- Inversion: a block that returns a value does so from one of its first part.
  pub bind-ok :
      (m : Exec S E A) (f : A → Exec S E B) (s : S) (b : B)
      → ((m >>= f) s).0 ≡ ok b
      → (a : A) × ((m s).0 ≡ ok a) × ((f a (m s).1).0 ≡ ok b)
  unfolding ◌>>=◌
  bind-ok m f s b h = continue-ok (m s).0 f (m s).1 b h

-- Runs the action on each element in turn, up to the first error.
unfoldable pub for_each {ℓ} :
    {S E : Type 0} {A : Type ℓ} → (A → Exec S E (Unit {0})) → List A → Exec S E (Unit {0})
for_each f [] = pure tt
for_each f (x ∷ xs) = do f x; for_each f xs

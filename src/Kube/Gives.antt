-- ===== src/Kube/Gives.antt =====
-- A discipline for results: every value that a computation returns satisfies Q, from whatever state. One
-- rule for each way to build a computation.
use paas_controlplane.Base.{
  Bool, true, false, Option, none, some, ◌≡◌, refl, subst, Result, ok, err, ok-injective,
  if◌then◌else◌,
}
use paas_controlplane.Kube.Client.{Kube, Err}
use paas_controlplane.Kube.Exec.{pure, raise, on_error, relabel, ◌>>=◌, bind-ok}
use paas_controlplane.Kube.Calls.{Cluster, Io, returns}

pub record Gives (K : Kube) {A : Type 0} (Q : A → Type 0) (m : Io K A) : Type 0 where
  pub at : (s : Cluster K) (a : A) → (m s).0 ≡ ok a → Q a

pub relabel-ok : {E A : Type 0} (f : E → E) (r : Result E A) (a : A) → relabel f r ≡ ok a → r ≡ ok a
relabel-ok f (ok b) a e = e
relabel-ok f (err x) a e = absurd (cc)

module _ {K : Kube} {A : Type 0} {Q : A → Type 0} where
  pub Gives-pure : (a : A) → Q a → Gives K Q (pure a)
  unfolding pure
  Gives-pure a h = record { at = λ s b e. subst Q (ok-injective a b e) h }

  pub Gives-raise : (e : Err K.Error) → Gives K Q (raise e)
  unfolding raise
  Gives-raise x = record { at = λ s b e. absurd (cc) }

  pub Gives-returns : (a : A) (o : Option (Err K.Error)) → Q a → Gives K Q (returns K a o)
  Gives-returns a none h = record { at = λ s b e. subst Q (ok-injective a b e) h }
  Gives-returns a (some x) h = record { at = λ s b e. absurd (cc) }

  pub Gives-if :
      (b : Bool) (m n : Io K A)
      → (b ≡ true → Gives K Q m)
      → (b ≡ false → Gives K Q n)
      → Gives K Q (if b then m else n)
  Gives-if true m n gm gn = gm refl
  Gives-if false m n gm gn = gn refl

  pub Gives-on_error :
      (f : Err K.Error → Err K.Error) (m : Io K A) → Gives K Q m → Gives K Q (on_error f m)
  unfolding on_error
  Gives-on_error f m g = record { at = λ s a e. g.at s a (relabel-ok f (m s).0 a e) }

module _ {K : Kube} {A B : Type 0} {Q : B → Type 0} where
  -- The rest of the block may use what is known of the first value.
  pub Gives-bind :
      {P : A → Type 0} (m : Io K A) (f : A → Io K B)
      → Gives K P m
      → ((a : A) → P a → Gives K Q (f a))
      → Gives K Q (m >>= f)
  Gives-bind m f gm gf = record {
    at = λ s b e.
        let (a, first, rest) = bind-ok m f s b e in (gf a (gm.at s a first)).at (m s).1 b rest;
  }

  pub Gives-then : (m : Io K A) (f : A → Io K B) → ((a : A) → Gives K Q (f a)) → Gives K Q (m >>= f)
  Gives-then m f g = record {
    at = λ s b e. let (a, first, rest) = bind-ok m f s b e in (g a).at (m s).1 b rest;
  }

pub ruleset gives_rules =
    (Gives-pure, Gives-raise, Gives-returns, Gives-if, Gives-on_error, Gives-then)

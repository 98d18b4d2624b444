-- ===== src/Kube/Strict.antt =====
-- A discipline for errors: a computation that returns a value made only calls that satisfy P, so that an
-- error of any other call is not lost. One rule for each way to build a computation.
use paas_controlplane.Base.{
  List, [], ◌∷◌, Bool, true, false, Option, ◌≡◌, refl, Result, ok, if◌then◌else◌,
}
use paas_controlplane.Kube.Client.{Kube, Err}
use paas_controlplane.Kube.Exec.{pure, raise, lift, try, on_error, for_each, ◌>>=◌, bind-ok}
use paas_controlplane.Kube.Calls.{Verb, Target, Call, Cluster, Io, record_call, read_call, returns}
use paas_controlplane.Kube.Gives.{relabel-ok}
use paas_controlplane.Kube.Writes.{
  Made, Made-trans, Writes, Writes-pure, Writes-raise, Writes-lift, Writes-returns,
  Writes-read_call,
}

-- The calls of a computation that returned a value: each succeeded, or is one whose error the
-- program may lose.
pub data IsSettled (Lost : Call → Type 0) : Call → Type 0 where
  success :
      (v : Verb) (t : Target) → IsSettled Lost (record { verb = v; target = t; succeeded = true })
  lost : {c : Call} → Lost c → IsSettled Lost c

pub record Strict (K : Kube) {A : Type 0} (P : Call → Type 0) (m : Io K A) : Type 0 where
  pub at : (s : Cluster K) (a : A) → (m s).0 ≡ ok a → Made P s.calls (m s).1.calls

module _ {K : Kube} {P : Call → Type 0} {A : Type 0} where
  Strict-Writes : (m : Io K A) → Writes K P m → Strict K P m
  Strict-Writes m w = record { at = λ s a e. w.at s }

  pub Strict-pure : (a : A) → Strict K P (pure a)
  Strict-pure a = Strict-Writes (pure a) (Writes-pure a)

  pub Strict-raise : (e : Err K.Error) → Strict K {A = A} P (raise e)
  Strict-raise e = Strict-Writes (raise e) (Writes-raise e)

  pub Strict-lift : (r : Result (Err K.Error) A) → Strict K P (lift r)
  Strict-lift r = Strict-Writes (lift r) (Writes-lift r)

  pub Strict-returns : (a : A) (o : Option (Err K.Error)) → Strict K P (returns K a o)
  Strict-returns a o = Strict-Writes (returns K a o) (Writes-returns a o)

  pub Strict-read_call : (f : K.World → Result K.Error A × K.World) → Strict K P (read_call K f)
  Strict-read_call f = Strict-Writes (read_call K f) (Writes-read_call f)

  -- A call whose error is not caught is only seen to succeed.
  pub Strict-record_call :
      (v : Verb) (t : Target) (f : K.World → Result (Err K.Error) A × K.World)
      → P (record { verb = v; target = t; succeeded = true })
      → Strict K P (record_call K v t f)
  unfolding record_call
  Strict-record_call v t f p = record { at = λ s a e. (_ ∷ [], refl, (rw e p, tt)) }

  -- A caught error is lost, so each call must satisfy P, whatever its outcome.
  pub Strict-try : (m : Io K A) → Writes K P m → Strict K P (try m)
  unfolding try
  Strict-try m w = record { at = λ s a e. w.at s }

  pub Strict-on_error :
      (f : Err K.Error → Err K.Error) (m : Io K A) → Strict K P m → Strict K P (on_error f m)
  unfolding on_error
  Strict-on_error f m w = record { at = λ s a e. w.at s a (relabel-ok f (m s).0 a e) }

  pub Strict-if :
      (b : Bool) (m n : Io K A)
      → (b ≡ true → Strict K P m)
      → (b ≡ false → Strict K P n)
      → Strict K P (if b then m else n)
  Strict-if true m n wm wn = wm refl
  Strict-if false m n wm wn = wn refl

module _ {K : Kube} {P : Call → Type 0} {A B : Type 0} where
  pub Strict-bind :
      (m : Io K A) (f : A → Io K B)
      → Strict K P m
      → ((a : A) → Strict K P (f a))
      → Strict K P (m >>= f)
  unfolding ◌>>=◌
  Strict-bind m f wm wf = record {
    at = λ s b e.
        let (a, first, rest) = bind-ok m f s b e in
        rw first (Made-trans (wm.at s a first) ((wf a).at (m s).1 b rest));
  }

pub Strict-for_each {ℓ} :
    {K : Kube} {P : Call → Type 0} {A : Type ℓ} (f : A → Io K (Unit {0})) (xs : List A)
    → ((a : A) → Strict K P (f a))
    → Strict K P (for_each f xs)
unfolding for_each
Strict-for_each f [] w = Strict-pure tt
Strict-for_each f (x ∷ xs) w = Strict-bind (f x) _ (w x) (λ _. Strict-for_each f xs w)

pub ruleset strict_rules = (
  Strict-pure, Strict-raise, Strict-lift, Strict-returns, Strict-read_call, Strict-record_call,
  Strict-try, Strict-if, Strict-on_error, Strict-bind, Writes-read_call, success,
)

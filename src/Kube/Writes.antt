-- ===== src/Kube/Writes.antt =====
-- A discipline for writing calls: every call that a computation makes satisfies P. One rule for each
-- way to build a computation.
use paas_controlplane.Base.{
  List, [], ◌∷◌, Bool, true, false, Option, none, some, ◌≡◌, refl, Result, ok, err, All, All-append,
  All-map, ◌++◌, ap, sym, ◌∙◌, if◌then◌else◌,
}
use mathlib.Core.List.{append_assoc}
use paas_controlplane.Kube.Client.{Kube, Err}
use paas_controlplane.Kube.Exec.{pure, raise, lift, try, on_error, for_each, ◌>>=◌}
use paas_controlplane.Kube.Calls.{Verb, Target, Call, Cluster, Io, record_call, read_call, returns}

-- The calls that were made, in front of those that were there before.
abbrev pub Made : (Call → Type 0) → List Call → List Call → Type 0
Made P before after = (made : List Call) × (after ≡ made ++ before) × All P made

pub record Writes (K : Kube) {A : Type 0} (P : Call → Type 0) (m : Io K A) : Type 0 where
  pub at : (s : Cluster K) → Made P s.calls (m s).1.calls

pub Made-trans :
    {P : Call → Type 0} {xs ys zs : List Call} → Made P xs ys → Made P ys zs → Made P xs zs
Made-trans {P} {xs} (new, e, h) (later, f, k) = (
  later ++ new,
  f ∙ ap (λ l. later ++ l) e ∙ sym (append_assoc later new xs),
  All-append P later new k h,
)

module _ {K : Kube} {P : Call → Type 0} {A : Type 0} where
  pub Writes-pure : (a : A) → Writes K P (pure a)
  unfolding pure
  Writes-pure a = record { at = λ s. ([], refl, tt) }

  pub Writes-raise : (e : Err K.Error) → Writes K {A = A} P (raise e)
  unfolding raise
  Writes-raise e = record { at = λ s. ([], refl, tt) }

  pub Writes-lift : (r : Result (Err K.Error) A) → Writes K P (lift r)
  unfolding lift
  Writes-lift r = record { at = λ s. ([], refl, tt) }

  pub Writes-returns : (a : A) (o : Option (Err K.Error)) → Writes K P (returns K a o)
  Writes-returns a none = record { at = λ s. ([], refl, tt) }
  Writes-returns a (some e) = record { at = λ s. ([], refl, tt) }

  pub Writes-read_call : (f : K.World → Result K.Error A × K.World) → Writes K P (read_call K f)
  unfolding read_call
  Writes-read_call f = record { at = λ s. ([], refl, tt) }

  pub Writes-record_call :
      (v : Verb) (t : Target) (f : K.World → Result (Err K.Error) A × K.World)
      → ((b : Bool) → P (record { verb = v; target = t; succeeded = b }))
      → Writes K P (record_call K v t f)
  unfolding record_call
  Writes-record_call v t f p = record { at = λ s. (_ ∷ [], refl, (p _, tt)) }

  pub Writes-try : (m : Io K A) → Writes K P m → Writes K P (try m)
  unfolding try
  Writes-try m w = record { at = w.at }

  pub Writes-if :
      (b : Bool) (m n : Io K A)
      → (b ≡ true → Writes K P m)
      → (b ≡ false → Writes K P n)
      → Writes K P (if b then m else n)
  Writes-if true m n wm wn = wm refl
  Writes-if false m n wm wn = wn refl

  pub Writes-on_error :
      (f : Err K.Error → Err K.Error) (m : Io K A) → Writes K P m → Writes K P (on_error f m)
  unfolding on_error
  Writes-on_error f m w = record { at = w.at }

module _ {K : Kube} {P : Call → Type 0} {A B : Type 0} where
  -- The rest of the block may use that the first part succeeded.
  pub Writes-bind_lift :
      (r : Result (Err K.Error) A) (f : A → Io K B)
      → ((a : A) → r ≡ ok a → Writes K P (f a))
      → Writes K P (lift r >>= f)
  unfolding ◌>>=◌
  Writes-bind_lift (ok a) f w = w a refl
  Writes-bind_lift (err e) f w = record { at = λ s. ([], refl, tt) }

  -- The rest of the block may use what the first part can return.
  pub Writes-bind_ok :
      (m : Io K A) (f : A → Io K B)
      → Writes K P m
      → ((s : Cluster K) (a : A) → (m s).0 ≡ ok a → Writes K P (f a))
      → Writes K P (m >>= f)
  unfolding ◌>>=◌
  Writes-bind_ok m f wm wf = record {
    at = λ s. Made-trans (wm.at s) ((Writes-bind_lift (m s).0 f (λ a e. wf s a e)).at (m s).1);
  }

  pub Writes-bind :
      (m : Io K A) (f : A → Io K B)
      → Writes K P m
      → ((a : A) → Writes K P (f a))
      → Writes K P (m >>= f)
  Writes-bind m f wm wf = Writes-bind_ok m f wm (λ s a _. wf a)

-- What satisfies P satisfies a weaker Q.
pub Writes-mono :
    {K : Kube} {P Q : Call → Type 0} {A : Type 0} {m : Io K A}
    → ((c : Call) → P c → Q c)
    → Writes K P m
    → Writes K Q m
Writes-mono {P = P} {Q = Q} h w = record {
  at = λ s. let (made, same, each) = w.at s in (made, same, All-map P Q h made each);
}

pub Writes-for_each {ℓ} :
    {K : Kube} {P : Call → Type 0} {A : Type ℓ} (f : A → Io K (Unit {0})) (xs : List A)
    → ((a : A) → Writes K P (f a))
    → Writes K P (for_each f xs)
unfolding for_each
Writes-for_each f [] w = Writes-pure tt
Writes-for_each f (x ∷ xs) w = Writes-bind (f x) _ (w x) (λ _. Writes-for_each f xs w)

pub ruleset writes_rules = (
  Writes-pure, Writes-raise, Writes-lift, Writes-returns, Writes-read_call, Writes-record_call,
  Writes-try, Writes-if, Writes-on_error, Writes-bind,
)

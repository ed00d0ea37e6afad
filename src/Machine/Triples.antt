-- ===== src/Machine/Triples.antt =====
-- Hoare triples for the store's operations: what holds before, behind a value, and behind an error
-- or an exception, of the disk and the registry.
use windows_fido_logon.Base.{ℕ, ◌+◌, ◌≡◌, refl, Bool, true, false, Option, none, some, ◌==◌}
use windows_fido_logon.Machine.{
  System, World, Disk, Registry, Outcome, done, failed, thrown, M, recover, on_failure, choose,
  branch, require, or_throw, bind_outcome, ◌>>=◌, os_call,
}

-- What is said of a state: the disk and the registry, not the calls that were made.
abbrev pub Assertion : Type 1
Assertion = Disk → Registry → Type 0

abbrev pub Behind : {A : Type 0} → (A → Assertion) → Assertion → Outcome A × World → Type 0
Behind Q E (done a, w) = Q a w.disk w.registry
Behind Q E (failed e, w) = E w.disk w.registry
Behind Q E (thrown, w) = E w.disk w.registry

abbrev pub Triple : {A : Type 0} → Assertion → M A → (A → Assertion) → Assertion → Type 0
Triple P m Q E = (w : World) → P w.disk w.registry → Behind Q E (m w)

abbrev pub Implies : Assertion → Assertion → Type 0
Implies P Q = (d : Disk) (r : Registry) → P d r → Q d r

-- An operation that keeps whatever holds of the disk and the registry.
abbrev pub IsReadOnly : {A : Type 0} → M A → Type 1
IsReadOnly m = (P : Assertion) → Triple P m (λ _. P) P

module _ {A C : Type 0} where
  Behind-bind :
      (o : Outcome A) (w : World) (f : A → M C) (R : A → Assertion) (Q : C → Assertion)
      (E : Assertion)
      → Behind R E (o, w)
      → ((a : A) → Triple (R a) (f a) Q E)
      → Behind Q E (bind_outcome (o, w) f)
  Behind-bind (done a) w f R Q E h k = k a w h
  Behind-bind (failed e) w f R Q E h k = h
  Behind-bind thrown w f R Q E h k = h

  pub Triple-bind :
      (P : Assertion) (m : M A) (R : A → Assertion) (f : A → M C) (Q : C → Assertion)
      (E : Assertion)
      → Triple P m R E
      → ((a : A) → Triple (R a) (f a) Q E)
      → Triple P (m >>= f) Q E
  Triple-bind P m R f Q E h k w p = Behind-bind (m w).0 (m w).1 f R Q E (h w p) k

  Behind-choose :
      (o : Outcome A) (w : World) (f : A → M C) (g : ℕ → M C) (R : A → Assertion) (F : Assertion)
      (Q : C → Assertion) (E : Assertion)
      → Behind R F (o, w)
      → ((a : A) → Triple (R a) (f a) Q E)
      → ((e : ℕ) → Triple F (g e) Q E)
      → Implies F E
      → Behind Q E (choose (o, w) f g)
  Behind-choose (done a) w f g R F Q E h k l i = k a w h
  Behind-choose (failed e) w f g R F Q E h k l i = l e w h
  Behind-choose thrown w f g R F Q E h k l i = i w.disk w.registry h

  pub Triple-branch :
      (P : Assertion) (m : M A) (R : A → Assertion) (F : Assertion) (f : A → M C) (g : ℕ → M C)
      (Q : C → Assertion) (E : Assertion)
      → Triple P m R F
      → ((a : A) → Triple (R a) (f a) Q E)
      → ((e : ℕ) → Triple F (g e) Q E)
      → Implies F E
      → Triple P (branch m f g) Q E
  Triple-branch P m R F f g Q E h k l i w p =
      Behind-choose (m w).0 (m w).1 f g R F Q E (h w p) k l i

module _ {A : Type 0} where
  Behind-recover :
      (o : Outcome A) (w : World) (g : ℕ → M A) (F : Assertion) (Q : A → Assertion) (E : Assertion)
      → Behind Q F (o, w)
      → ((e : ℕ) → Triple F (g e) Q E)
      → Implies F E
      → Behind Q E (recover (o, w) g)
  Behind-recover (done a) w g F Q E h l i = h
  Behind-recover (failed e) w g F Q E h l i = l e w h
  Behind-recover thrown w g F Q E h l i = i w.disk w.registry h

  pub Triple-on_failure :
      (P : Assertion) (m : M A) (g : ℕ → M A) (F : Assertion) (Q : A → Assertion) (E : Assertion)
      → Triple P m Q F
      → ((e : ℕ) → Triple F (g e) Q E)
      → Implies F E
      → Triple P (on_failure m g) Q E
  Triple-on_failure P m g F Q E h l i w p = Behind-recover (m w).0 (m w).1 g F Q E (h w p) l i

  Behind-weaken :
      (o : Outcome A) (w : World) (Q Q' : A → Assertion) (E E' : Assertion)
      → Behind Q E (o, w)
      → ((a : A) → Implies (Q a) (Q' a))
      → Implies E E'
      → Behind Q' E' (o, w)
  Behind-weaken (done a) w Q Q' E E' h q e = q a w.disk w.registry h
  Behind-weaken (failed _) w Q Q' E E' h q e = e w.disk w.registry h
  Behind-weaken thrown w Q Q' E E' h q e = e w.disk w.registry h

  pub Triple-weaken :
      (P P' : Assertion) (m : M A) (Q Q' : A → Assertion) (E E' : Assertion)
      → Triple P m Q E
      → Implies P' P
      → ((a : A) → Implies (Q a) (Q' a))
      → Implies E E'
      → Triple P' m Q' E'
  Triple-weaken P P' m Q Q' E E' h p q e w p' =
      Behind-weaken (m w).0 (m w).1 Q Q' E E' (h w (p w.disk w.registry p')) q e

  pub or_throw-IsReadOnly : (o : Option A) → IsReadOnly (or_throw o)
  or_throw-IsReadOnly none P w p = p
  or_throw-IsReadOnly (some a) P w p = p

pub require-IsReadOnly : (b : Bool) (e : ℕ) → IsReadOnly (require b e)
require-IsReadOnly true e P w p = p
require-IsReadOnly false e P w p = p

pub os_call-IsReadOnly : (sys : System) → IsReadOnly (os_call sys)
os_call-IsReadOnly sys P w p =
    require-IsReadOnly (sys.fault w.calls == 0) (sys.fault w.calls) P
      (record w { calls = w.calls + 1 }) p

pub IsReadOnly-bind :
    {A C : Type 0} (m : M A) (f : A → M C)
    → IsReadOnly m
    → ((a : A) → IsReadOnly (f a))
    → IsReadOnly (m >>= f)
IsReadOnly-bind m f h k P = Triple-bind P m (λ _. P) f (λ _. P) P (h P) (λ a. k a P)

pub IsReadOnly-on_failure :
    {A : Type 0} (m : M A) (g : ℕ → M A)
    → IsReadOnly m
    → ((e : ℕ) → IsReadOnly (g e))
    → IsReadOnly (on_failure m g)
IsReadOnly-on_failure m g h l P =
    Triple-on_failure P m g P (λ _. P) P (h P) (λ e. l e P) (λ d r p. p)

pub require-Triple :
    (b : Bool) (e : ℕ) (P : Assertion) → Triple P (require b e) (λ _ d r. P d r × (b ≡ true)) P
require-Triple true e P w p = (p, refl)
require-Triple false e P w p = p

pub or_throw-Triple :
    {A : Type 0} (o : Option A) (P : Assertion)
    → Triple P (or_throw o) (λ a d r. P d r × (o ≡ some a)) P
or_throw-Triple none P w p = p
or_throw-Triple (some a) P w p = (p, refl)

-- What an operation that only reads leaves, with less behind an error.
pub os_call-Triple :
    (sys : System) (P E : Assertion) → Implies P E → Triple P (os_call sys) (λ _. P) E
os_call-Triple sys P E h =
    Triple-weaken P P (os_call sys) (λ _. P) (λ _. P) P E (os_call-IsReadOnly sys P) (λ d r p. p)
      (λ _ d r p. p) h

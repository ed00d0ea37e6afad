-- ===== src/BrokerService/Replies.antt =====
-- What a run of the broker's operations that returns a value has passed through, step by step.
use windows_fido_logon.Base.{
  ◌≡◌, refl, ap, sym, ◌∙◌, ◌⊎◌, inl, inr, Bool, true, false, Option, none, some, List, Bytes,
}
use windows_fido_logon.Machine
use windows_fido_logon.Machine.{World, Outcome, done, failed, thrown}
use windows_fido_logon.BrokerService.State.{
  Session, Service, Reply, ok, err, BrokerError, B, pure, require, found, stored_reply, store_call,
  bind_reply, ◌>>=◌, ◌>>◌,
}

bind_reply-eq-ok :
    {A C : Type 0} (r : Reply A) (s : Service) (f : A → B C) {c : C} {t : Service}
    → bind_reply (r, s) f ≡ (ok c, t)
    → (a : A) × (r ≡ ok a) × (f a s ≡ (ok c, t))
bind_reply-eq-ok (ok a) s f h = (a, refl, h)
bind_reply-eq-ok (err e) s f h = absurd (cc)

pub >>=-eq-ok :
    {A C : Type 0} (m : B A) (f : A → B C) {s : Service} {c : C} {t : Service}
    → (m >>= f) s ≡ (ok c, t)
    → (a : A) × (s₁ : Service) × (m s ≡ (ok a, s₁)) × (f a s₁ ≡ (ok c, t))
>>=-eq-ok m f {s} h =
    let (a, e, k) = bind_reply-eq-ok (m s).0 (m s).1 f h in
    (a, (m s).1, ap (λ r. (r, (m s).1)) e, k)

pub >>-eq-ok :
    {C : Type 0} (b : Bool) (e : BrokerError) (k : B C) {s : Service} {c : C} {t : Service}
    → (require b e >> k) s ≡ (ok c, t)
    → (b ≡ true) × (k s ≡ (ok c, t))
>>-eq-ok true e k h = (refl, h)
>>-eq-ok false e k h = absurd (cc)

pub found->>=-eq-ok :
    {A C : Type 0} (o : Option A) (e : BrokerError) (f : A → B C) {s : Service} {c : C}
    {t : Service}
    → (found o e >>= f) s ≡ (ok c, t)
    → (a : A) × (o ≡ some a) × (f a s ≡ (ok c, t))
found->>=-eq-ok none e f h = absurd (cc)
found->>=-eq-ok (some a) e f h = (a, refl, h)

stored_reply-eq-ok :
    {A : Type 0} (e : BrokerError) (l : List (Bytes × Session)) (o : Outcome A) (w : World) {a : A}
    {t : Service}
    → stored_reply e l (o, w) ≡ (ok a, t)
    → (o ≡ done a) × (t ≡ record { world = w; sessions = l })
stored_reply-eq-ok e l (done a) w h = (cc, cc)
stored_reply-eq-ok e l (failed c) w h = absurd (cc)
stored_reply-eq-ok e l thrown w h = absurd (cc)

-- A call of the store that returns a value has done so, and has left the sessions alone.
pub store_call-eq-ok :
    {A : Type 0} (m : Machine.M A) (e : BrokerError) {s : Service} {a : A} {t : Service}
    → store_call m e s ≡ (ok a, t)
    → (m s.world ≡ (done a, t.world)) × (t.sessions ≡ s.sessions)
store_call-eq-ok m e {s} {a} h =
    let (d, e) = stored_reply-eq-ok e s.sessions (m s.world).0 (m s.world).1 h in
    (
      ap (λ o. (o, (m s.world).1)) d ∙ ap (λ w. (done a, w)) (sym (ap (λ t. t.world) e)),
      ap (λ t. t.sessions) e,
    )

pub pure-eq-ok : {A : Type 0} {a b : A} {s t : Service} → pure a s ≡ (ok b, t) → (a ≡ b) × (s ≡ t)
pure-eq-ok h = (cc, cc)

-- The two ways on from a guard.
pub require-cases :
    {C : Type 0} (b : Bool) (e : BrokerError) (k : B C) (s : Service)
    → ((require b e >> k) s ≡ (err e, s)) ⊎ ((b ≡ true) × ((require b e >> k) s ≡ k s))
require-cases true e k s = inr (refl, refl)
require-cases false e k s = inl refl

-- ===== src/FidoDevice/Ended.antt =====
-- SelectByTouch ends, and what it selects.
use windows_fido_logon.Base.{
  ℕ, zero, suc, ◌+◌, ◌-◌, ◌*◌, ◌≡◌, refl, subst, ◌≤◌, ◌<◌, le_of_not-ltb, Bool, true, false, not,
  List, [], ◌∷◌, All, length, ltb, ◌==◌, if_elim, arith, ltb→lt,
}
use windows_fido_logon.External.Fido.{DeviceLibrary}
use windows_fido_logon.FidoDevice.{
  Failure, library_status, invalid_argument, keepalive_cancel, user_action_timeout, notfound,
  Result, ok, err, checked, FidoDevice, open_device,
}
use windows_fido_logon.FidoDevice.Touch.{
  Selection, selected_key, not_selected, Candidate, keep_open, open_all, keep_begun, begin_all,
  Round, ended, pending, with_pending, polled, poll_round, wait_for_touch, select_by_touch,
}

-- The clock of GetTickCount64: it never goes back, and over a Sleep it advances by the time slept, less
-- its resolution and Sleep's, of at most 16 milliseconds each.
pub record IsClock (fido : DeviceLibrary) : Type 0 where
  pub monotone : (slept ms n : ℕ) → fido.ticks slept n ≤ fido.ticks (slept + ms) (suc n)
  pub sleeps : (slept ms n : ℕ) → fido.ticks slept n + ms ≤ fido.ticks (slept + ms) (suc n) + 32

module _ (fido : DeviceLibrary) where
  open fido use {Dev}

  -- How a round ends the selection: a key was touched, or the last one that was pending failed.
  pub data IsEnding (n bound : ℕ) : Selection → Type 0 where
    touched_key :
        {index : ℕ} {device : Dev}
        → index < bound
        → fido.dev_get_touch_status n device ≡ (0, true)
        → IsEnding n bound (selected_key index)
    last_failed :
        {device : Dev} {status : ℕ} {touched : Bool}
        → fido.dev_get_touch_status n device ≡ (suc status, touched)
        → IsEnding n bound (not_selected (library_status (suc status)))

  -- The n-th round begins less than two minutes after the start, and is one of the first 715.
  abbrev pub IsInTime : ℕ → Type 0
  IsInTime n = (fido.ticks (n * 200) (suc n) < fido.ticks 0 0 + 120000) × (n ≤ 714)

  -- How SelectByTouch ends: before its loop, in a round that began in time, or, with a timeout, once two
  -- minutes are over.
  pub data IsEnded (continues : ℕ → Bool) (devices : List FidoDevice) : Selection → Type 0 where
    too_few : length devices < 2 → IsEnded continues devices (not_selected invalid_argument)
    none_begun :
        {e : Failure}
        → (let opened = open_all fido 0 devices notfound in
            (begin_all fido opened.0 opened.1).0 ≡ [])
        → IsEnded continues devices (not_selected e)
    in_round :
        {selection : Selection} (n : ℕ)
        → IsInTime n
        → continues n ≡ true
        → IsEnding n (length devices) selection
        → IsEnded continues devices selection
    cancelled :
        (n : ℕ)
        → IsInTime n
        → continues n ≡ false
        → IsEnded continues devices (not_selected keepalive_cancel)
    timed_out :
        (n : ℕ)
        → fido.ticks 0 0 + 120000 ≤ fido.ticks (n * 200) (suc n)
        → n ≤ 715
        → IsEnded continues devices (not_selected user_action_timeout)

  abbrev Below : ℕ → List (Candidate fido) → Type 0
  Below bound candidates = All (λ (c : Candidate fido). c.index < bound) candidates

  data IsRound (n bound : ℕ) : Round fido → Type 0 where
    ends : {selection : Selection} → IsEnding n bound selection → IsRound n bound (ended selection)
    goes_on :
        {candidates : List (Candidate fido)} {e : Failure}
        → Below bound candidates
        → IsRound n bound (pending candidates e)

  with_pending-IsRound :
      (n bound : ℕ) (c : Candidate fido) (round : Round fido)
      → c.index < bound
      → IsRound n bound round
      → IsRound n bound (with_pending fido c round)
  with_pending-IsRound n bound c (ended selection) below (ends e) = ends e
  with_pending-IsRound n bound c (pending candidates e) below (goes_on all) = goes_on (below, all)

  polled-IsRound :
      (n bound : ℕ) (c : Candidate fido) (status : ℕ × Bool) (count : ℕ) (e : Failure)
      (next : ℕ → Failure → Round fido)
      → fido.dev_get_touch_status n c.device ≡ status
      → c.index < bound
      → ((k : ℕ) (f : Failure) → IsRound n bound (next k f))
      → IsRound n bound (polled fido c status count e next)
  polled-IsRound n bound c (suc status, touched) count e next answers below rest =
      if_elim (IsRound n bound) ((count - 1) == 0) (λ _. ends (last_failed answers)) (λ _. rest _ _)
  polled-IsRound n bound c (zero, false) count e next answers below rest =
      with_pending-IsRound n bound c (next count e) below (rest count e)
  polled-IsRound n bound c (zero, true) count e next answers below rest =
      ends (touched_key below answers)

  poll_round-IsRound :
      (n bound : ℕ) (candidates : List (Candidate fido)) (count : ℕ) (e : Failure)
      → Below bound candidates
      → IsRound n bound (poll_round fido n candidates count e)
  unfolding poll_round
  poll_round-IsRound n bound [] count e all = goes_on tt
  poll_round-IsRound n bound (c ∷ candidates) count e (below, all) =
      polled-IsRound n bound c (fido.dev_get_touch_status n c.device) count e
        (poll_round fido n candidates) refl below
        (λ k f. poll_round-IsRound n bound candidates k f all)

  open_all-Below :
      (bound index : ℕ) (devices : List FidoDevice) (e : Failure)
      → index + length devices ≤ bound
      → Below bound (open_all fido index devices e).0
  unfolding open_all
  open_all-Below bound index [] e fits = tt
  open_all-Below bound index (device ∷ devices) e fits =
      keep_open-Below (open_device fido device.path) (open_all fido (suc index) devices _)
        (omega arith) (open_all-Below bound (suc index) devices _ (omega arith))
    where
      keep_open-Below :
          (opened : Result Dev) (rest : List (Candidate fido) × Failure)
          → index < bound
          → Below bound rest.0
          → Below bound (keep_open fido index opened rest).0
      keep_open-Below (ok device) rest below all = (below, all)
      keep_open-Below (err e) rest below all = all

  begin_all-Below :
      (bound : ℕ) (candidates : List (Candidate fido)) (e : Failure)
      → Below bound candidates
      → Below bound (begin_all fido candidates e).0
  unfolding begin_all
  begin_all-Below bound [] e all = tt
  begin_all-Below bound (c ∷ candidates) e (below, all) =
      keep_begun-Below (checked (fido.dev_get_touch_begin c.device)) (begin_all fido candidates _)
        below (begin_all-Below bound candidates _ all)
    where
      keep_begun-Below :
          (begun : Result Dev) (rest : List (Candidate fido) × Failure)
          → c.index < bound
          → Below bound rest.0
          → Below bound (keep_begun fido c begun rest).0
      keep_begun-Below (ok device) rest below all = (below, all)
      keep_begun-Below (err e) rest below all = all

  module _ (clock : IsClock fido) (continues : ℕ → Bool) (devices : List FidoDevice) where
    abbrev Waits : (fuel n : ℕ) → List (Candidate fido) → Failure → Type 0
    Waits fuel n candidates e =
        IsEnded continues devices
          (wait_for_touch fido fuel continues (fido.ticks 0 0 + 120000) (n * 200) n candidates e)

    after_round-IsEnded :
        (fuel n : ℕ) (round : Round fido)
        → IsInTime n
        → continues n ≡ true
        → ((left : List (Candidate fido)) (e : Failure)
            → Below (length devices) left
            → Waits fuel (suc n) left e)
        → IsRound n (length devices) round
        → IsEnded continues devices (elim round as (λ _. Selection) [
          | ended selection ↦ selection
          | pending left e ↦
              wait_for_touch fido fuel continues
                (fido.ticks 0 0 + 120000)
                (n * 200 + 200)
                (suc n)
                left
                e
        ])
    after_round-IsEnded fuel n (ended selection) timely goes again (ends done) =
        in_round n timely goes done
    after_round-IsEnded fuel n (pending left e) timely goes again (goes_on all) =
        subst
          (λ slept.
            IsEnded continues devices
              (wait_for_touch fido fuel continues (fido.ticks 0 0 + 120000) slept (suc n) left e))
          next_slept (again left e all)
      where
        next_slept : suc n * 200 ≡ n * 200 + 200
        next_slept = omega arith

    -- Before the n-th round the clock has advanced by 168 milliseconds in each round.
    one_round-IsEnded :
        (fuel n : ℕ) (candidates : List (Candidate fido)) (e : Failure)
        → n ≤ 715
        → fido.ticks 0 0 + n * 168 ≤ fido.ticks (n * 200) (suc n)
        → (n ≤ 714
            → (left : List (Candidate fido)) (e : Failure) → Below (length devices) left
            → Waits fuel (suc n) left e)
        → Below (length devices) candidates
        → Waits (suc fuel) n candidates e
    unfolding wait_for_touch
    one_round-IsEnded fuel n candidates e few late again all =
        if_elim (IsEnded continues devices)
          (not (ltb (fido.ticks (n * 200) (suc n)) (fido.ticks 0 0 + 120000)))
          (λ over. timed_out n (le_of_not-ltb _ _ over) few)
          (λ early.
            let before = ltb→lt _ _ (eq_of_not_false _ early) in
            let timely : IsInTime n = (before, omega (arith, before, late)) in
            if_elim (IsEnded continues devices) (not (continues n))
              (λ stops. cancelled n timely (eq_of_not_true _ stops))
              (λ goes.
                after_round-IsEnded fuel n (poll_round fido n candidates (length candidates) e)
                  timely (eq_of_not_false _ goes) (again timely.1)
                  (poll_round-IsRound n (length devices) candidates (length candidates) e all)))
      where
        eq_of_not_false : (b : Bool) → not b ≡ false → b ≡ true
        eq_of_not_false b h = ground arith

        eq_of_not_true : (b : Bool) → not b ≡ true → b ≡ false
        eq_of_not_true b h = ground arith

    advanced :
        (n : ℕ)
        → fido.ticks 0 0 + n * 168 ≤ fido.ticks (n * 200) (suc n)
        → fido.ticks 0 0 + suc n * 168 ≤ fido.ticks (suc n * 200) (suc (suc n))
    advanced n late =
        subst (λ slept. fido.ticks 0 0 + suc n * 168 ≤ fido.ticks slept (suc (suc n)))
          (next_slept n) (omega (arith, late, clock.sleeps (n * 200) 200 (suc n)))
      where
        next_slept : (n : ℕ) → n * 200 + 200 ≡ suc n * 200
        next_slept n = omega arith

    wait_for_touch-IsEnded :
        (spare fuel n : ℕ) (candidates : List (Candidate fido)) (e : Failure)
        → n + spare ≡ 715
        → spare < fuel
        → fido.ticks 0 0 + n * 168 ≤ fido.ticks (n * 200) (suc n)
        → Below (length devices) candidates
        → Waits fuel n candidates e
    wait_for_touch-IsEnded spare zero n candidates e counts enough late all =
        absurd (omega (arith, enough))
    wait_for_touch-IsEnded zero (suc fuel) n candidates e counts enough late all =
        one_round-IsEnded fuel n candidates e (omega (arith, counts)) late
          (λ few left f rest. absurd (omega (arith, few, counts))) all
    wait_for_touch-IsEnded (suc spare) (suc fuel) n candidates e counts enough late all =
        one_round-IsEnded fuel n candidates e (omega (arith, counts)) late
          (λ few left f rest.
            wait_for_touch-IsEnded spare fuel (suc n) left f (omega (arith, counts))
              (omega (arith, enough)) (advanced n late) rest)
          all

-- SelectByTouch ends, on fuel of 716 rounds or more: before its loop, with fewer than two devices or where none begins
-- to wait for a touch; in one of at most 715 rounds, which began less than two minutes after the start
-- and in which the caller wants to go on, with the index of one of the devices and a key that was
-- touched, or with the error of a key that failed; in such a round, where the caller cancels; or with a
-- timeout, once the clock shows that two minutes are over. The clock never goes back, and advances over a
-- Sleep by the time slept, less at most 32 milliseconds.
pub select_by_touch-IsEnded :
    (fido : DeviceLibrary) (fuel : ℕ) (continues : ℕ → Bool) (devices : List FidoDevice)
    → IsClock fido
    → 716 ≤ fuel
    → IsEnded fido continues devices (select_by_touch fido fuel continues devices)
unfolding select_by_touch
select_by_touch-IsEnded fido fuel continues devices clock enough =
    let opened = open_all fido 0 devices notfound in
    let begun = begin_all fido opened.0 opened.1 in
    if_elim (IsEnded fido continues devices) (ltb (length devices) 2)
      (λ few. too_few (ltb→lt _ _ few))
      (λ _.
        if_elim (IsEnded fido continues devices) (length begun.0 == 0)
          (λ none. none_begun (empty_of begun.0 none))
          (λ _.
            wait_for_touch-IsEnded fido clock continues devices 715 fuel 0 begun.0 begun.1 refl
              (omega (arith, enough)) (omega (arith, clock.monotone 0 0 0))
              (begin_all-Below fido (length devices) opened.0 opened.1
                (open_all-Below fido (length devices) 0 devices notfound (omega arith)))))
  where
    empty_of : {A : Type 0} (l : List A) → (length l == 0) ≡ true → l ≡ []
    empty_of [] h = refl
    empty_of (a ∷ l) h = absurd (ground arith)

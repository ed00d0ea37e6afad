-- ===== src/FidoDevice/Touch.antt =====
-- `FIDODevice::SelectByTouch`: its rounds, on fuel.
use windows_fido_logon.Base.{
  ℕ, zero, suc, ◌+◌, ◌-◌, Bool, true, false, not, List, [], ◌∷◌, length, ltb, ◌==◌, if◌then◌else◌,
}
use windows_fido_logon.External.Fido.{DeviceLibrary}
use windows_fido_logon.FidoDevice.{
  Failure, library_status, invalid_argument, notfound, keepalive_cancel, user_action_timeout,
  Result, ok, err, checked, ceremony_timeout_ms, FidoDevice, open_device,
}

-- A selection, a failure, or a loop that has not ended on its fuel.
pub data Selection : Type 0 where
  selected_key : ℕ → Selection
  not_selected : Failure → Selection
  running : Selection

abbrev pub touch_poll_interval_ms : ℕ
touch_poll_interval_ms = 200

module _ (fido : DeviceLibrary) where
  open fido use {Dev}

  -- A candidate that is pending; one that is no longer so is left out.
  pub record Candidate : Type 0 where
    pub index : ℕ
    pub device : Dev

  abbrev pub keep_open : ℕ → Result Dev → List Candidate × Failure → List Candidate × Failure
  keep_open index (ok device) rest = (record { index = index; device = device } ∷ rest.0, rest.1)
  keep_open index (err e) rest = rest

  -- The error of the last device that does not open.
  abbrev pub open_error : Result Dev → Failure → Failure
  open_error (ok device) last_error = last_error
  open_error (err e) last_error = e

  unfoldable pub open_all : ℕ → List FidoDevice → Failure → List Candidate × Failure
  open_all index [] last_error = ([], last_error)
  open_all index (device ∷ devices) last_error =
      let opened = open_device fido device.path in
      keep_open index opened (open_all (suc index) devices (open_error opened last_error))

  abbrev pub keep_begun :
      Candidate → Result Dev → List Candidate × Failure → List Candidate × Failure
  keep_begun c (ok device) rest = (record { index = c.index; device = device } ∷ rest.0, rest.1)
  keep_begun c (err e) rest = rest

  unfoldable pub begin_all : List Candidate → Failure → List Candidate × Failure
  begin_all [] last_error = ([], last_error)
  begin_all (c ∷ candidates) last_error =
      let begun = checked (fido.dev_get_touch_begin c.device) in
      keep_begun c begun (begin_all candidates (open_error begun last_error))

  -- A round over the pending candidates ends the selection, or leaves those that are still pending.
  pub data Round : Type 0 where
    ended : Selection → Round
    pending : List Candidate → Failure → Round

  abbrev pub with_pending : Candidate → Round → Round
  with_pending c (ended selection) = ended selection
  with_pending c (pending candidates e) = pending (c ∷ candidates) e

  -- The status of a candidate; `count` are pending before it.
  abbrev pub polled : Candidate → ℕ × Bool → (count : ℕ) → Failure → (ℕ → Failure → Round) → Round
  polled c (suc status, touched) count last_error next =
      let e = library_status (suc status) in
      if (count - 1) == 0 then ended (not_selected e) else next (count - 1) e
  polled c (zero, false) count last_error next = with_pending c (next count last_error)
  polled c (zero, true) count last_error next = ended (selected_key c.index)

  unfoldable pub poll_round : ℕ → List Candidate → (count : ℕ) → Failure → Round
  poll_round n [] count last_error = pending [] last_error
  poll_round n (c ∷ candidates) count last_error =
      polled c (fido.dev_get_touch_status n c.device) count last_error (poll_round n candidates)

  -- The loop up to the deadline; `slept` are the milliseconds of its calls of Sleep so far, and `continues`
  -- answers `shouldContinue` in the n-th round.
  unfoldable pub wait_for_touch :
      (fuel : ℕ) → (ℕ → Bool) → (deadline slept n : ℕ) → List Candidate → Failure → Selection
  wait_for_touch zero continues deadline slept n candidates last_error = running
  wait_for_touch (suc fuel) continues deadline slept n candidates last_error =
      if not (ltb (fido.ticks slept (suc n)) deadline)
      then not_selected user_action_timeout
      else if not (continues n)
      then not_selected keepalive_cancel
      else elim (poll_round n candidates (length candidates) last_error) as (λ _. Selection) [
        | ended selection ↦ selection
        | pending left e ↦
            wait_for_touch fuel continues deadline (slept + touch_poll_interval_ms) (suc n) left e
      ]

  -- `SelectByTouch`.
  unfoldable pub select_by_touch : (fuel : ℕ) → (ℕ → Bool) → List FidoDevice → Selection
  select_by_touch fuel continues devices =
      if ltb (length devices) 2
      then not_selected invalid_argument
      else let (opened, open_failure) = open_all 0 devices notfound in
        let (begun, last_error) = begin_all opened open_failure in
        if length begun == 0
        then not_selected last_error
        else wait_for_touch fuel continues (fido.ticks 0 0 + ceremony_timeout_ms) 0 0 begun
            last_error

-- ===== src/CredentialProvider/Credential/Steps.antt =====
-- The calls that LogonUI makes of a tile, in any order.
use windows_fido_logon.Base.{ℕ, [], Wide}
use windows_fido_logon.CredentialProviderFilter.{Scenario}
use windows_fido_logon.CredentialProvider.Credential.{
  Credential, initialize, full_reset, retire, set_string_value,
}
use windows_fido_logon.CredentialProvider.Credential.Connect.{Environment, connect}
use windows_fido_logon.CredentialProvider.Credential.Serialization.{
  Packing, get_serialization, report_result,
}

-- One call. `Met` says which environments a Connect has met.
pub data Step (Met : Environment → Type 0) : Credential → Credential → Type 0 where
  set_string_value_step :
      (field : ℕ) (value : Wide) (s : Credential) → Step Met s (set_string_value field value s).0
  connect_step : (env : Environment) (s : Credential) → Met env → Step Met s (connect env s).0
  get_serialization_step : (p : Packing) (s : Credential) → Step Met s (get_serialization p s).0
  report_result_step :
      (status substatus : ℕ) (s : Credential) → Step Met s (report_result status substatus s).0
  -- `SetDeselected` and `Disconnect`.
  full_reset_step : (s : Credential) → Step Met s (full_reset s)
  retire_step : (s : Credential) → Step Met s (retire s)

-- The states of a tile, which a provider makes without a password.
pub data Reachable (Met : Environment → Type 0) : Credential → Type 0 where
  initial :
      (scenario : Scenario) (username domain user_sid : Wide)
      → Reachable Met (initialize scenario username domain [] user_sid)
  next : {s t : Credential} → Reachable Met s → Step Met s t → Reachable Met t

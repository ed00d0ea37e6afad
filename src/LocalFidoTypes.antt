-- ===== src/LocalFidoTypes.antt =====
-- CppClient/CppClient/LocalFidoTypes.h and FIDOSignResponse.h: the records that the parts share.
-- An `int` is its 32-bit pattern.
use windows_fido_logon.Base.{ℕ, ◌-◌, ◌*◌, ◌^◌, Bool, List, Bytes, Wide}

abbrev pub schema_version : ℕ
schema_version = 1

abbrev pub es256_algorithm : ℕ
es256_algorithm = 2 ^ 32 - 7

abbrev pub broker_protocol_version : ℕ
broker_protocol_version = 1

abbrev pub max_broker_message_bytes : ℕ
max_broker_message_bytes = 64 * 1024

pub record CredentialRecord : Type 0 where
  pub credential_id : Bytes
  pub cose_public_key : Bytes
  pub algorithm : ℕ
  pub aaguid : Bytes
  pub label : Bytes
  pub created_at : Bytes
  pub sign_count : ℕ

pub record AccountRecord : Type 0 where
  pub sid : Wide
  pub username : Wide
  pub enforced : Bool
  pub credentials : List CredentialRecord

pub record Vault : Type 0 where
  pub schema : ℕ
  pub machine_id : Bytes
  pub rp_id : Bytes
  pub accounts : List AccountRecord

pub record RegistrationResult : Type 0 where
  pub credential_id : Bytes
  pub cose_public_key : Bytes
  pub aaguid : Bytes
  pub client_data_json : Bytes
  pub authenticator_data : Bytes
  pub attestation_statement : Bytes
  pub attestation_format : Bytes
  pub algorithm : ℕ
  pub sign_count : ℕ

pub record FidoAssertionData : Type 0 where
  pub credential_id : Bytes
  pub authenticator_data : Bytes
  pub signature_data : Bytes
  pub user_handle : Bytes
  pub username : Bytes
  pub display_name : Bytes

pub record FidoSignResponse : Type 0 where
  pub client_data : Bytes
  pub assertions : List FidoAssertionData

-- The parts of a FIDOSignRequest that the program fills; of an AllowCredential, its id.
pub record SignRequest : Type 0 where
  pub challenge : Bytes
  pub rp_id : Bytes
  pub user_verification : Bytes
  pub type : Bytes
  pub allow_credentials : List Bytes

pub record AuthenticationChallenge : Type 0 where
  pub enforced : Bool
  pub session_id : Bytes
  pub rp_id : Bytes
  pub origin : Bytes
  pub request : SignRequest

-- ===== src/Lib.antt =====
-- Verification of Windows FIDO Logon: the enforcement of FIDO security keys at the local logon of
-- Windows. A broker service, which runs as LocalSystem, keeps a vault of accounts and credentials,
-- hands out challenges, verifies the answers of the keys and publishes the policy; a credential
-- provider and its filter act on the policy at logon. The models are written out from the C++
-- sources, operation by operation.
--
-- The parts, and the code that each is about:
--   * Convert: CppClient/CppClient/Convert.cpp, the strict base64 and base64url codings. The loops
--     are recursions on the text; the 32-bit accumulator keeps its wrap-around.
--   * LocalFidoTypes: the records of CppClient/CppClient/LocalFidoTypes.h and FIDOSignResponse.h.
--   * FidoVerifier: CppClient/CppClient/FidoVerifier.cpp. ClientData is VerifyClientData,
--     AuthenticatorData is VerifyAuthenticatorData, Cose is CoseEs256Coordinates and
--     ExtractAttestedCredential (Entries with the code's int, Integers with those of CBOR), Assertion is VerifyAssertion and Registration VerifyRegistration.
--     A result is a value or one of the texts that the code leaves in `error` (Errors).
--   * Machine: what the broker runs on. A World is the four files of the vault (primary, backup,
--     temporary, rollback), the two registry values of the policy, the number of calls made so far and
--     the steady clock. Every call of Windows asks an oracle, `fault`, whether it fails, so that a
--     statement over all systems is one over all patterns of failures; a write that fails leaves in
--     its file what `torn` says. Machine.Triples are Hoare triples for these operations, with an
--     assertion behind a value and one behind an error or an exception.
--   * LocalCredentialStore: CppClient/CppClient/LocalCredentialStore.cpp. VaultJson is the JSON of the
--     vault, Validity is IsVaultValid, Files the protected files and Load, Save is Save and
--     LoadOrCreate, Accounts the operations on accounts, and Policy the registry with
--     RegistryReader::GetMultiSZ.
--   * BrokerService: BrokerService/BrokerService.cpp. State has the state (the machine and the sessions)
--     and the exceptions, Sessions is PutSession and TakeSession, Ceremony the challenges and
--     VerifySessionAssertion, Authentication and Management the ten operations of Handle, Handle the
--     dispatch and ProcessRequest. The broker calls the store on the machine (`store_call`), and the
--     store and the verifier know nothing of the broker.
--   * CredentialProviderFilter: CredentialProviderFilter/CCredentialProviderFilter.cpp and
--     CppClient/CppClient/CredentialProviderFilters.h.
--   * BrokerClient: CppClient/CppClient/BrokerClient.cpp. IsTrustedPipeServer and Call over a Pipe, which
--     has the answers of Windows, and the operations over it; a result is a value, one of the error
--     texts, or an exception that leaves the function. It speaks to BrokerService by JSON; Messages has the texts of both directions.
--   * LocalAccount: CppClient/CppClient/LocalAccount.cpp. ResolveLocalAccount, ResolveLocalSid and
--     EnumerateLocalAccounts over the calls of Windows (Accounts). The calls of NetUserEnum are an
--     inductive sequence that ends with the first one that does not return ERROR_MORE_DATA. Offered
--     is which of their entries are returned.
--   * FidoDevice: CppClient/CppClient/FIDODevice.cpp. Touch is SelectByTouch with its
--     Sleep, Ended that it ends, Ceremony Sign and SetPin, and Agreement what VerifyClientData makes
--     of a signature's client data; libfido2 is the record DeviceLibrary of External.Fido.
--   * CredentialProvider: CredentialProvider/. Kerb and Password are helpers.cpp, the packing of a logon
--     and the protection of its password; Ui has the fields and tables of scenario.h. Credential is
--     core/CCredential.cpp: the state of a tile and its operations, Connect is Connect over an
--     Environment (the accounts, the client of the broker, the keys, the user who cancels), and
--     Serialization GetSerialization and ReportResult. Steps are the calls of LogonUI in any order,
--     Approved the invariant that ties the flags of a tile to the broker's answers, Connected that
--     Connect keeps it, and LocalUser joins the tile with LocalAccount. Provider is
--     core/CProvider.cpp, which makes the tiles: Visited and Walked are which users get one,
--     Failing which calls end the enumeration.
--   * Base has what all share, External the third-party libraries, Tests runs on small machines.
--
-- nlohmann::json, libcbor and libfido2 are parameters, records of operations (External), and so are
-- the functions of Windows (System in Machine, Platform in BrokerService.State). A byte string is a
-- list of numbers, a wide string the list of its UTF-16 units, and a C++ int its 32-bit pattern. All
-- recursion is structural but for two loops on fuel: the drawing of session identifiers, whose number
-- of attempts is the code's own, 4, and the rounds of SelectByTouch, for which 716 are enough: each
-- sleeps for 200 milliseconds, of which the clock of its deadline of two minutes shows at least 168.
-- That clock is a parameter of the calls made and the time slept; the broker's clock stands still
-- within one request.
--
-- Not modelled: the named pipe's transfers, threads and the service control of the broker, tokens, the
-- wiping of passwords from memory, the COM entry points, the references and the event sinks of the
-- credential provider, failures of its allocations of strings, Register of FIDODevice.cpp with its
-- attestation object, RepackNative and DomainUsernameStringAlloc of helpers.cpp, which nothing calls, the
-- manager's window, and the log; they are calls of Windows around what is modelled. Requests are
-- handled one by one, as the single thread of the broker does, and so are the calls of LogonUI.
pub mod Base
pub mod Convert
pub mod External
pub mod LocalFidoTypes
pub mod FidoDevice
pub mod FidoVerifier
pub mod Machine
pub mod LocalAccount
pub mod LocalCredentialStore
pub mod BrokerClient
pub mod BrokerService
pub mod CredentialProvider
pub mod CredentialProviderFilter
pub mod Tests

-- ===== src/Tests/Provider.antt =====
-- Runs of the provider on a machine with one local user.
use windows_fido_logon.Base.{refl, true, false, none, some, [], bytes_eq, if◌then◌else◌}
use windows_fido_logon.CredentialProviderFilter.{logon}
use windows_fido_logon.CredentialProvider.HResult.{ok}
use windows_fido_logon.CredentialProvider.Provider.{Users, Provider, Directory, create_credentials}
use windows_fido_logon.CredentialProvider.Provider.Tiles.{Created, create_credentials-Created}
use windows_fido_logon.Tests.Accounts.{ann, computer, ann_sid}

-- The same user twice.
abbrev users : Users
users = record {
  get_count = ok 2;
  get_at = λ index. ok (some (record { is_local = ok true; get_sid = ok (some ann_sid) }));
  empty_local = ok true;
}

abbrev directory : Directory
directory = record {
  resolve_local_sid = λ sid. if bytes_eq sid ann_sid then some (ann, computer) else none;
}

abbrev provider : Provider
provider = record {
  is_remote = false;
  scenario = logon;
  users = some users;
  credentials = [];
  ready = false;
}

create_credentials-Created_example :
    Created directory provider users (create_credentials directory provider)
create_credentials-Created_example = create_credentials-Created directory provider users refl

-- ===== src/Backup/Certs.antt =====
-- The keys and certificates that a rollback removes (convert2rhel/backup/certs.py). The calls of rpm,
-- os and shutil are parameters.
use convert2rhel.Prelude.{
  ℕ, String, Bool, true, false, not, ◌&&◌, Option, none, some, ◌==◌, nat_eq, Exn, os_error,
  critical_error, other, Result, ok, raise, if◌then◌else◌,
}
use convert2rhel.Backup.Methods.{Method, ◌>>=◌, ◌>>◌, throw, self, set, call, no_change, catch}

-- `previously_installed` is None before `enable`.
pub record RpmKey : Type 0 where
  pub enabled : Bool
  pub previously_installed : Option Bool
  pub keyfile : String
  pub keyid : String

pub record PemCert : Type 0 where
  pub enabled : Bool
  pub previously_installed : Bool
  pub source_cert_path : String
  pub target_cert_dir : String
  pub target_cert_path : String

-- What `rpm -qf` tells of a file
pub data Owner : Type 0 where
  owned : Owner
  not_owned : Owner
  no_file : Owner
  unknown : Owner

pub record CertCalls (W : Type 0) : Type 0 where
  -- `rpm -q` of a key, its return code, and that its output says that it is not installed
  pub query_key : String → W → Result (ℕ × Bool) × W
  -- `rpm --import` and `rpm -e`, the return code
  pub import_key : String → W → Result ℕ × W
  pub erase_key : String → W → Result ℕ × W
  pub exists : String → W → Bool
  pub mkdir_p : String → W → Result (Unit {0}) × W
  -- `shutil.copy2` to a directory
  pub copy2 : String → String → W → Result (Unit {0}) × W
  pub owner : String → W → Result Owner × W
  -- `os.remove`, where the file is gone already or not
  pub remove : String → W → Result (Unit {0}) × W
  pub is_missing : Exn → Bool

-- `ImportGPGKeyError`
abbrev pub import_key_error : Exn
import_key_error = other "ImportGPGKeyError"

-- `except (OSError, IOError)`
abbrev pub critical_for_os : Exn → Exn
critical_for_os os_error = critical_error
critical_for_os e = e

module _ {W : Type 0} (calls : CertCalls W) where
  -- `RestorableRpmKey.installed`
  unfoldable pub installed : Method RpmKey W Bool
  installed o w =
      let (r, w') = calls.query_key o.keyid w in
      elim r [
        | raise e ↦ (raise e, o, w')
        | ok (status, not_installed) ↦
            if status == 0
            then (ok true, o, w')
            else if status == 1 && not_installed
            then (ok false, o, w')
            else (raise import_key_error, o, w')
      ]

  unfoldable pub import_new : Method RpmKey W (Unit {0})
  import_new = do
    keyfile ← self (λ o. o.keyfile)
    code ← call (calls.import_key keyfile)
    if code == 0
        then set (λ o. record o { previously_installed = some false })
        else throw import_key_error

  -- `RestorableRpmKey.enable`
  unfoldable pub enable_key : Method RpmKey W (Unit {0})
  enable_key = do
    enabled ← self (λ o. o.enabled)
    if enabled then no_change else (do
      there ← installed
      if there then set (λ o. record o { previously_installed = some true }) else import_new
      set (λ o. record o { enabled = true }))

  -- The key is to be removed.
  abbrev pub imported_here : RpmKey → Bool
  imported_here o = o.enabled && (elim o.previously_installed [ none ↦ false | some b ↦ not b ])

  -- `RestorableRpmKey.restore`: the return code of rpm is not looked at.
  unfoldable pub restore_key : Method RpmKey W (Unit {0})
  restore_key = do
    here ← self imported_here
    keyid ← self (λ o. o.keyid)
    if here then (call (calls.erase_key keyid) >>= λ code. no_change) else no_change
    set (λ o. record o { enabled = false })

  unfoldable pub copy_cert : Method PemCert W (Unit {0})
  copy_cert = do
    source ← self (λ o. o.source_cert_path)
    target ← self (λ o. o.target_cert_dir)
    catch (call (calls.mkdir_p target) >> call (calls.copy2 source target))
        (λ e. throw (critical_for_os e))

  -- `RestorablePEMCert.enable`
  unfoldable pub enable_cert : Method PemCert W (Unit {0})
  enable_cert = do
    enabled ← self (λ o. o.enabled)
    there ← (λ o w. (ok (calls.exists o.target_cert_path w), o, w))
    if enabled then no_change else (do
      if there then set (λ o. record o { previously_installed = true }) else copy_cert
      set (λ o. record o { enabled = true }))

  abbrev pub missing_is_fine : Exn → Method PemCert W (Unit {0})
  missing_is_fine e = if calls.is_missing e then no_change else throw e

  -- `RestorablePEMCert._restore`
  unfoldable pub remove_cert : Method PemCert W (Unit {0})
  remove_cert = do
    path ← self (λ o. o.target_cert_path)
    owner ← call (calls.owner path)
    elim owner [
      | not_owned ↦ catch (call (calls.remove path)) missing_is_fine
      | owned ↦ no_change
      | no_file ↦ no_change
      | unknown ↦ no_change
    ]

  -- `RestorablePEMCert.restore`
  unfoldable pub restore_cert : Method PemCert W (Unit {0})
  restore_cert = do
    enabled ← self (λ o. o.enabled)
    before ← self (λ o. o.previously_installed)
    if enabled && not before then remove_cert else no_change
    set (λ o. record o { enabled = false })

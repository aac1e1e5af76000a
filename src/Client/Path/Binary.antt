-- ===== src/Client/Path/Binary.antt =====
-- The program of the carrier that src/starfive_tunnel.py downloads: `EVGT_ASSETS` and
-- `ensure_evgt_binary`. Opening the new file and writing it are one step.
use evgenium_network_linux.Prelude.{
  nat_eq, string_eq, Bool, Exec, Option, String, ◌<>◌, ◌==◌, ◌||◌, ◌>>=◌, ◌>>◌, err, finally_do,
  gets, false, true, if◌then◌else◌, ltb, none, not, ok, or_raise, os_error, pure, raise_if,
  runtime_error, some,
}
use Prim.Native.String.{count}
use evgenium_network_linux.Client.Machine.{
  System, Tunnel, make_parents, move_to, set_mode, unlink, write_file,
}
use evgenium_network_linux.Client.Machine.Actions.{change_file}
use evgenium_network_linux.Client.Path.{root}

abbrev pub evgt_path : String
evgt_path = root <> "/evgenium-tunnel-0.3.0"

-- the name and the digest for a kind of machine
unfoldable pub evgt_asset : String → Option (String × String)
evgt_asset machine =
    if machine == "x86_64"
    then some ("amd64", "fdcc94d65ea6c3da768f66660021783daa45c3656cc946bafd5111a86bb285a6")
    else if machine == "aarch64"
    then some ("arm64", "4333c1a74badab6387e8a5bbf2f1e2f4f409da2037e94b32e8466b700688c02d")
    else if machine == "riscv64"
    then some ("riscv64", "fc0c14c0fb4bd0aec22d771bad2131f7a5df059d6f7fb537c465f1f2ae25a21f")
    else none

abbrev pub evgt_url : String → String
evgt_url arch =
    "https://github.com/velikiievgeniusultimate/Evgenium_Network_Linux/releases/download/evgenium-tunnel-v0.3.0/evgenium-tunnel-linux-"
    <> arch

abbrev pub is_some : Option String → Bool
is_some none = false
is_some (some s) = true

-- whether a file that is there has a digest
abbrev pub has_digest : Option String → String → Bool
has_digest none digest = false
has_digest (some d) digest = d == digest

module _ {E : Type 0} (system : System E) where
  -- `urllib.request.urlopen(url)`, of which one byte more than the limit is read at most
  unfoldable pub fetch : String → Exec (Tunnel E) String
  fetch url t =
      let (blob, env) = system.fetch url t.env in
      (elim blob [ none ↦ err os_error | some b ↦ ok b ], record t { env = env })

  unfoldable pub download_binary : String → String → Exec (Tunnel E) (Unit {0})
  unfolding fetch
  download_binary arch digest = do
    change_file system (make_parents root)
    blob ← fetch (evgt_url arch)
    raise_if (ltb 16777216 (count blob) || not (system.sha256 blob == digest))
        (runtime_error "evgt_binary_checksum_failed")
    finally_do
        (do
          change_file system (write_file (evgt_path <> ".new") blob)
          change_file system (set_mode (evgt_path <> ".new") 448)
          change_file system (move_to (evgt_path <> ".new") evgt_path))
        (change_file system (unlink (evgt_path <> ".new")))

  unfoldable pub ensure_evgt_binary : Exec (Tunnel E) String
  unfolding evgt_asset download_binary
  ensure_evgt_binary = do
    asset ← or_raise (evgt_asset system.machine) (runtime_error "evgt_arch_unsupported")
    link ← gets (λ t. system.read_link evgt_path t.env)
    raise_if (is_some link) (runtime_error "evgt_binary_symlink")
    digest ← gets (λ t. system.digest_of evgt_path t.env)
    if has_digest digest asset.1
        then change_file system (set_mode evgt_path 448)
        else download_binary asset.0 asset.1
    pure evgt_path

-- ===== src/Issuer/Wireguard/Peers/Laws.antt =====
-- What `sync` relies on of the `wg` command, over a view of the kernel's peers.
use evgenium_network_linux.Prelude.{
  string_eq, Option, String, contains, false, if◌then◌else◌, none, some, words, ◌==◌, ◌≡◌, ◌≢◌,
}
use evgenium_network_linux.Issuer.Host.{Host, exited}
use evgenium_network_linux.Issuer.Wireguard.Peers.{set_peer, show_peers, unset_peer}

-- `peers e k` is the allowed address of the peer with the key `k`, if there is such a peer. An
-- address belongs to one peer at most: setting it for a peer takes it from another one.
pub record Wg {E : Type 0} (host : Host E) : Type 0 where
  pub peers : E → String → Option String
  pub set_self :
      (i k a out : String) (e e' : E)
      → host.exec (set_peer i k a) "" e ≡ (exited 0 out, e')
      → peers e' k ≡ some a
  pub set_other :
      (i k a out j : String) (e e' : E)
      → host.exec (set_peer i k a) "" e ≡ (exited 0 out, e')
      → j ≢ k
      → peers e j ≢ some a
      → peers e' j ≡ peers e j
  pub unset :
      (i k out j : String) (e e' : E)
      → host.exec (unset_peer i k) "" e ≡ (exited 0 out, e')
      → peers e' j ≡ (if j == k then none else peers e j)
  pub show_same :
      (i out j : String) (e e' : E)
      → host.exec (show_peers i) "" e ≡ (exited 0 out, e')
      → peers e' j ≡ peers e j
  pub show_all :
      (i out j : String) (e e' : E)
      → host.exec (show_peers i) "" e ≡ (exited 0 out, e')
      → contains (words out) j ≡ false
      → peers e j ≡ none

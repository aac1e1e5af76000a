-- ===== src/Tests/Kernel.antt =====
-- The one peer of the machine obeys the laws of `wg`, and `sync` sets it.
use evgenium_network_linux.Prelude.{
  nat_eq, string_eq, Bool, String, some, none, Option, if◌then◌else◌, ◌&&◌, ◌==◌, ◌≡◌, ap, arith,
  contains, false, refl, sym, true, words, ℕ, ◌∙◌, split, str,
}
use evgenium_network_linux.Issuer.Host.{Outcome, exited, run_or}
use evgenium_network_linux.Issuer.Wireguard.Peers.{
  sync, owned_devices, address_of, check_config, config, gather, key_of, want, apply_all,
  apply_peer, is_live, remove_unknown,
}
use evgenium_network_linux.Issuer.Wireguard.Peers.Gather.{peer_of}
use evgenium_network_linux.Issuer.Wireguard.Peers.Laws.{Wg}
use evgenium_network_linux.Issuer.Wireguard.Peers.Sync.{sync-peers, asked}
use evgenium_network_linux.Tests.Machine.{machine, demo_key, demo_address, demo_accounts, world}
use evgenium_network_linux.Issuer.Wireguard.Key.{public_key}
use evgenium_network_linux.Issuer.Wireguard.Address.{address}

abbrev view_of : Bool → String → Option String
view_of peer k = if peer && k == demo_key then some demo_address else none

abbrev status : Outcome → ℕ
status (exited n output) = n
status _ = 2

abbrev text_of : Outcome → String
text_of (exited n output) = output
text_of _ = ""

failed : {A : Type 0} (out : String) → exited 1 "" ≡ exited 0 out → A
failed out h = let e : 1 ≡ 0 = ap status h in absurd (omega (arith, e))

ran_set :
    (b : Bool) (e e' : Bool) (out : String)
    → ◌≡◌ {A = Outcome × Bool}
        (if b then (exited 0 "", true) else (exited 1 "", e))
        (exited 0 out, e')
    → (b ≡ true) × (e' ≡ true)
ran_set true e e' out h = (refl, sym (ap (λ r. r.1) h))
ran_set false e e' out h = failed out (ap (λ r. r.0) h)

ran_unset :
    (b : Bool) (e e' : Bool) (out : String)
    → ◌≡◌ {A = Outcome × Bool}
        (if b then (exited 0 "", false) else (exited 0 "", e))
        (exited 0 out, e')
    → e' ≡ (if b then false else e)
ran_unset true e e' out h = sym (ap (λ r. r.1) h)
ran_unset false e e' out h = sym (ap (λ r. r.1) h)

listed :
    (e : Bool) (j : String)
    → contains (words (if e then demo_key else "")) j ≡ false
    → view_of e j ≡ none
unfolding words
listed true j h = ground (arith, h)
listed false j h = refl

wg : Wg machine
wg = record {
  peers = view_of;
  set_self = λ i k a out e e' h.
      let r = ran_set (k == demo_key && a == demo_address) e e' out h in
      ground (arith, r, string_eq.beq_iff k demo_key, string_eq.beq_iff a demo_address);
  set_other = λ i k a out j e e' h other free.
      let r = ran_set (k == demo_key && a == demo_address) e e' out h in
      ground (
        arith,
        r,
        other,
        free,
        string_eq.beq_iff k demo_key,
        string_eq.beq_iff a demo_address,
        string_eq.beq_iff j demo_key,
      );
  unset = λ i k out j e e' h.
      let r = ran_unset (k == demo_key) e e' out h in
      ground (
        arith,
        r,
        string_eq.beq_iff k demo_key,
        string_eq.beq_iff j demo_key,
        string_eq.beq_iff j k,
      );
  show_same = λ i out j e e' h.
      let r : e ≡ e' = ap (λ (q : Outcome × Bool). q.1) h in ap (λ b. view_of b j) (sym r);
  show_all = λ i out j e e' h absent.
      let r : ◌≡◌ {A = Outcome} (exited 0 (if e then demo_key else "")) (exited 0 out) =
        ap (λ (q : Outcome × Bool). q.0) h in
      listed e j (ap (λ o. contains (words (text_of o)) j) r ∙ absent);
}

sync-peers_example :
    wg.peers (sync machine demo_accounts (world demo_accounts)).1.env demo_key
    ≡ asked (peer_of demo_key (owned_devices demo_accounts))
unfolding sync config check_config gather want key_of address_of public_key address words split
    is_live run_or remove_unknown apply_all apply_peer str
sync-peers_example =
    sync-peers machine wg demo_accounts (world demo_accounts)
      (sync machine demo_accounts (world demo_accounts)).1 1 demo_key refl

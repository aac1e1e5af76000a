-- ===== src/Lib.antt =====
-- Evgenium Network Linux: the token issuer, its WireGuard backend, the panel's broker, the
-- diagnostic collector, the packet and transfer probes, the health of the server link, the path
-- ranking of the client, its tunnel and its policy of exceptions.
--
-- The server hands out tokens to customers. A token opens an account; a device of that account
-- enrolls with its own key and gets an address, or has its certificate signed. The issuer
-- (server/token_issuer.py) keeps all accounts in one file, accounts.json, which the panel's
-- broker reads and writes too, under the same lock; it drives the kernel's WireGuard peers
-- through server/wireguard_backend.py. Apart from these, server/packet_probe.py answers synthetic
-- packets of clients that hold a ticket; a program between the servers chooses their transport,
-- and the client ranks its own paths.
--
-- Issuer.Model holds the records of accounts.json. Issuer.Host is the machine below: commands,
-- the clock, `secrets`, `hashlib`, the disk and the tables of Unicode are the fields of a record
-- `Host` over an unknown state, a parameter of everything. A `World` is that state, the file as
-- it stands on the disk, and the commands run so far, each with the file as it stood at that
-- moment. A method maps a world to a result and a world, and what was written before an exception
-- stays written. `write_json` ends in three ways: written, failed before `os.replace`, or failed
-- after it. Issuer.Names models ensure_device_names, active_device_count and reserve_device_name;
-- Issuer.Accounts models issue, authenticate, normalize_device_name and device_info;
-- Issuer.Certificates models session_ids and revoke_certificates; Issuer.Revoke models
-- revoke_records, delete_account and revoke_device; Issuer.Enrollment models enroll_wireguard.
-- Issuer.Certify models enroll, and Issuer.Server models Handler.handle with its `except`
-- clauses; a request is the line that was read, `json.loads` is a parameter, and the answer is a
-- value: its writing to the socket is not modelled, nor is an AttributeError of a field of
-- another type. Issuer.Wireguard.Key, Address and Peers model public_key, address,
-- allocate_address, config, apply_peer, remove_peer and sync of the backend, and Connections its
-- listing for the panel, where the splitting of a text into lines and `int` are parameters.
-- Issuer.Quiet and Issuer.TwoPhase hold the argument that the deletion and the revocation share,
-- with its two writes: what runs between them leaves the file alone. Issuer.Enrollment.Committed
-- has the same of an enrollment, and Named the account that it stores. Panel models
-- server/panel/broker.py: Panel.Names is name_key and the test for a name that is taken,
-- Panel.Vault the encrypted tokens beside the issuer's world, Panel.Accounts the methods of
-- Accounts; its requests to the issuer are calls of Issuer.Server's dispatch, as root, whose
-- answer may be lost. Collector.Blob models blob_chunks and the ranges of
-- server/diagnostic_collector.py, Collector.Report the branch of clean_report for connection
-- diagnostics, Collector.SiteReport its branch for reports on sites, and Collector.GlobalReport
-- models clean_global_report; Python's `str` and `int` of a value are parameters. Collector.Store
-- models prune and store_report from the cleaned record on, with the disk as a parameter.
-- Probes.Transfer models the class TransferSessions of server/transfer_probe.py; the clock, the
-- reads of the connection and the receipt are parameters. Probes.Packet models the class
-- ProbeSessions; its HMAC is a parameter and its clock is read in whole ticks. Link.Health models
-- choose, stalled_transport and one round of the loop of
-- scripts/server-link/resilience/resilient-health.py, which switches the transport between the
-- servers; what a round reads is its input. Link.Repair models the decision of one run of
-- scripts/server-link/health.py and its memory. Ranking models candidates, bootstrap, lose and
-- next_after of src/path_ranking.py on its order and losses. Prelude holds Python's dicts, texts,
-- sorting and exceptions. Tests runs the methods on a machine whose kernel knows one peer, which
-- obeys the laws that `sync` relies on.
--
-- Client is the tunnel client, src/starfive_tunnel.py, with src/network_policy.py, whose
-- exceptions go around the tunnel. Client.Nft has the scripts of nft by statement, and which
-- table is the guard: under its name, with an output and a forward chain that drop by policy, in
-- which each rule makes one of the listed tests of an interface, a mark, an address or a reply; a
-- table that is added under its name is merged with it, so it leaves a guard only if it is one.
-- Client.Rules has the tables that the tunnel prints, and Client.Policy.Firewall the one that the
-- policy prints. Client.Policy and its Routing are the exceptions, ports, direct_networks and the
-- routing rules of config. Client.Machine is the machine below: what a command, a file, a
-- process, the clock or a DNS server answers is a field of a record `System` over an unknown
-- state, and a `Tunnel` is that state with the variables of the two modules, the files that they
-- read again and the journal of the commands run so far, each with whether it exited with status
-- 0; Client.Machine.Actions has command, inside, write, stage and stop_process. Client.Guard
-- models clear_dns_mappings, full_guard_active and the networks of the machine, Client.Network
-- physical_route, setup_network and, in Removal, cleanup, Client.Egress egress_health and
-- system_dns_health, Client.Resolver the private DNS and the resolver file, Client.Full
-- full_namespace and persist_guard, with activate_full and refresh_retained_guard in Activation
-- and cleanup_full and cleanup in Leaving, Client.Apply the steps of apply of the policy with
-- install, stop and ensure_route, and its child Whole apply itself and the synchronisation with
-- Waydroid, Client.Path daemon_configs and start_daemon, with ensure_evgt_binary in Binary,
-- start_candidate in Start and path_healthy and speed_sample in Speed, and Client.Worker the loop
-- of worker over the ranked paths. That loop and its inner one run for ever, and take the number
-- of rounds to be run. Client.Closed has a rule for each way to build an action from others, and
-- its children apply them to the functions one by one; Client.Closed.Armed replays the journal,
-- Client.Policy.Decisions and Client.Policy.Clear are about the exceptions, and
-- Client.Worker.Exhaustion is about losses. A command that keeps the guard is one that cannot
-- take it away: a script of nft is one transaction, and a command that fails changes nothing; the
-- program vpnctl, which is called once, is taken to leave the table of the guard alone. The
-- engine that reads the routing rules, and `ipaddress` of Python, are parameters with what is
-- documented of them.
--
-- What is documented of `wg` is the record `Wg` of Issuer.Wireguard.Peers.Laws: which peers the
-- kernel has after a `wg set`, a removal and a listing that exit with status 0. Loops are
-- structural recursion; the searches of three rounds and of the 253 addresses recurse on the
-- number of rounds left, which is the bound of the source's own `range`. The loop of `consume`
-- and that of blob_chunks take fuel, one more than the bytes to come: each round takes at least
-- one. The file lock and the probe's lock are held around each method, so a method is one action;
-- a `consume` lets other requests in between its reads, and is modelled without them. Expected
-- errors are values; numbers are natural, since the code stores times and counters that are not
-- negative.
--
-- Not modelled: the scores, load and save of the path ranking, the probe's listener thread, the
-- request handlers of the transfer probe, of the panel's broker and of the collector, the
-- broker's listing of connections and its health page, the support bundles of the collector, the
-- relays; of the tunnel client, its enrollment, connect, disconnect and status, the start of the
-- worker with its measurements, and the metrics, heartbeat and support record of the stage; of
-- the policy, normalize, change, migration and public; src/vpnctl.py apart from ensure_runtime;
-- and the programs in other languages. The desktop interface, the web pages and the installation
-- scripts are input and output only.
mod Prelude
pub mod Issuer
pub mod Panel
pub mod Collector
pub mod Probes
pub mod Link
pub mod Ranking
pub mod Client
mod Tests

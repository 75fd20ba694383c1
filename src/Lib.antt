-- ===== src/Lib.antt =====
-- kin: a peer-to-peer file sharing program. Peers join by signed invite tokens, keep each other's
-- keys in a peer store, exchange catalogs of their files over length-framed protobuf messages, and
-- request files from each other by SHA-256.
--
-- The parts and their files:
-- Base          bytes, results with errors, machine integers, times, io.Reader and io.Writer.
-- Protocol      internal/protocol/framing.go: `write_msg` is WriteMsg, `read_msg` is ReadMsg. The
--               state is what a writer has written and what a reader has pending.
--               internal/protocol/handler.go is Protocol/Handler: `serve`, `dispatch`,
--               `handle_catalog_offer` and `broadcast_catalog` are the methods, on a `Handler` with
--               the links of all its connections; Protocol/Handler/Exchange puts the catalog's store
--               in the place of the interface CatalogExchanger.
-- Invite        internal/invite/invite.go: `create`, `encode`, `decode`, `validate` are the
--               functions of those names; `NonceStore` is the interface of that name.
-- Bolt          bbolt's buckets and encoding/json, which are not code of the repository, as
--               records of operations and laws; Bolt/Memory shows that the laws can be met.
-- Peerstore     internal/peerstore/store.go and peer.go: `Store` has the two buckets, and
--               `put_peer`, `get_peer`, `list_peers`, `update_last_seen`, `has_nonce` and
--               `save_nonce` are the methods. It is the nonce store that invites are checked with.
-- Catalog       internal/catalog/store.go and entry.go: `Store` has the entries, the index of owners
--               and the node's own id. `put_local`, `delete_local`, `put_peer_entries`,
--               `remove_peer` and the queries are the methods; `list_by_prefix` is ListLocal
--               and ListByOwner as well. Catalog/Convert is internal/catalog/convert.go.
--               `catalog_offer` and the other messages of proto/kin.proto stand in Messages.
-- Transfer      internal/transfer: `handle_request` is Sender.HandleRequest with its loop `stream`,
--               `request_file` is RequestFile with its loop `receive`, and `LocalIndex` is the index
--               of local files.
-- Download      internal/download/download.go: `download`, `try_owner`, `rename_to_original` and
--               `filter_self` are the methods, over `request_file` of Transfer.
-- Watcher       internal/watcher/watcher.go: `handle_event`, `index_file`, `handle_remove` and `scan`
--               are the methods; `schedule`, `stop_timer` and `fire` are the debouncer's timers, and
--               `watch` is the loop on events with their times.
-- Relay         internal/relay/server.go: `register` is Serve up to its loop, `serve_message` a turn of
--               the loop and `handle_connect` is handleConnect; `Step` is one of these, or the end of
--               Serve, on any of the connections that are served at the same time.
--               internal/relay/client.go is Relay/Client: `await` and `give_up` are the first and the
--               last part of RequestRendezvous and WaitForRendezvous, `received` what they return,
--               `close_locked`, `dispatch_rendezvous` and `read_loop` the methods. Relay/Client/Connect
--               has `connect` and `request_rendezvous`, over a `Link`, and Connect/Served the server
--               as the other end of it.
-- Tui           internal/tui/peer_model.go: `key_update` is Update, the other operations have the
--               names of the methods; `PeerModel` leaves out the width, which only the view reads.
--               internal/tui/catalog_model.go is Tui/Files, in the same way: `press` is the switch of
--               Update, `update_search` is updateSearch. internal/tui/model.go is Tui/Model: `update`
--               is Update on a `Msg`, with the commands that it issues; Tui/Overlays is
--               internal/tui/overlay_*.go, and Tui/Progress internal/tui/progress.go.
-- Connmgr       internal/connmgr/dial.go: `dial`, `try_each`, `split_endpoints`, `punch_via_relay` and
--               `external_port` are the functions; `Network` has what they call. Connmgr/Serve is
--               internal/connmgr/serve.go and internal/nat/punch.go: `serve_punch` and `prime_nat`.
-- Daemon        internal/daemon/handler.go: `handle` is Handle and `handle_join` is handleJoin, over
--               Invite, Peerstore, Catalog and Connmgr; the other handlers are the functions that end
--               in `_response`, and `handle_invite`. Daemon/Presence has `relay_loop`, relayLoop of
--               internal/daemon/daemon.go. It and `serve_punch` are run for a number of turns, which
--               the theorems leave open. Daemon/Sessions has acceptLoop and serveJoinedPeer as a `Step`
--               of the goroutines that share the store, the protocol handler and the subscribers.
-- Ipc           internal/daemon/framing.go is Ipc/Framing, internal/daemon/server.go is Ipc/Server with
--               `handle_conn` and Ipc/Subscribers with `broadcast`, `subscribe` and `close_server`, and
--               internal/ipc/client.go is Ipc/Client with `call`. `handle_conn` takes as many turns as
--               the connection has bytes, and one more; a turn that goes on takes four bytes.
--               Ipc/Client/Subscribe is Subscribe; `listen`, its goroutine, takes as many turns.
-- Identity      internal/identity/identity.go: `load_or_generate`, `save`, `load` and `generate`, over
--               `Ed25519` and a disk.
-- Transport     internal/transport/listener.go, tls.go and conn.go: `dial` and `accept` are those of
--               Listener, and `verify_peer` is the check in clientTLSConfig, over `Quic`.
-- Cli           cmd/kin/main.go, where no daemon is running: `invite_direct` and `join_direct` are
--               cmdInvite and cmdJoin up to the exchange, which is `exchange_catalog`.
--
-- A Go function that returns an error returns a `Result`, or a `Bool` where nothing looks at the
-- error. A method that changes state takes it as an argument and returns it. A transaction that
-- fails leaves the buckets as they were, as bbolt documents; a commit that fails by itself is not
-- modelled. The cursor of deleteByPrefix is taken to visit the pairs that were there when it
-- started, each once. Loops are recursions on what they go through: a list, a count of endpoints, or
-- the reads that an open file gives, so that no fuel is needed; the loops on connections in Connmgr,
-- Daemon, Relay/Client/Connect and Ipc are run for a number of turns.
--
-- Parameters: protobuf (`Codec`), ed25519 and base64 (`Crypto`, `Ed25519`), QUIC, TLS and X.509
-- (`Quic`), bbolt and encoding/json (`Bolt`, `Json`), the file system and SHA-256 (`Host`, `Disk`),
-- contexts (whether each look finds them cancelled) and clocks (their readings in order). Ids are
-- byte lists; where the length of an id matters, a theorem names it.
--
-- Not modelled: opening and closing of databases, locks, goroutines but as the steps that are named
-- above, logging, the views of the terminal interface, the paths of the configuration, the wiring of
-- the daemon and of the commands, and the listening of the transport.
pub mod Messages
pub mod Base
pub mod Bolt
pub mod Protocol
pub mod Invite
pub mod Peerstore
pub mod Catalog
pub mod Transfer
pub mod Relay
pub mod Tui
pub mod Download
pub mod Watcher
pub mod Connmgr
pub mod Daemon
pub mod Ipc
pub mod Identity
pub mod Transport
pub mod Cli

-- ===== src/Lib.antt =====
-- Models and proofs for the Go code of a platform that sells VPN subscriptions.
--
-- Parts and where they stand:
-- - Vpn.Net: what the code uses of Go's net package, IPv4 networks and their texts.
-- - Vpn.Routing: internal/vpn/routing.go. `IpRange` is ipRange; range_to_cidrs, merge_ranges,
--   compute_complement, excluded_ranges and allowed_ips_for are the functions of those names, with
--   ranges of 32-bit words as natural numbers and the wrap-around written out. A network is kept as
--   the pair `Cidr` until it is printed by cidr_text.
-- - Vpn.Wireguard: internal/vpn/wireguard.go, allocateWireGuardIP and renderWireGuardConfig.
-- - Vpn.Crypto: internal/vpn/crypto.go, with what it calls of other packages in `Primitives`.
-- - Vpn.Fleet: internal/vpn/service.go, repository.go, provisioner.go and the import URIs. Model and
--   Store hold the tables of migrations/00003_vpn.sql as lists of rows in `Tables`, and a `World` of
--   tables, stored objects, the requests that nodes have accepted, and the faults to come. Queries
--   and Updates are the Repository, Issue, Service and Migrations the Service, function by function.
-- - Agent: cmd/agent/main.go. Xray, over Base.Json, is the edits of the Xray configuration, Node the
--   files and commands of the node, Server the handlers and the token. A `Fault` says how an access
--   fails; a write that fails may leave a first part of the new text in the file.
-- - Billing.Model, Billing.Store: internal/billing/model.go and the tables of
--   migrations/00004_billing.sql as lists of rows in a record `Db`. An action of type `M A` reads
--   and changes a `World`: the database, a list that says which of the statements to come the
--   database refuses, the clock, and the orders for which the issuer of VPNs has been called.
-- - Billing.Repository, Billing.Settlement: internal/billing/repository.go, one function per
--   statement and per transaction. A transaction that fails restores the database.
-- - Billing.Service: internal/billing/service.go. Gateways are the record `Provider`, the issuer
--   and the hash functions are fields of `Service`.
-- - Billing.Providers: the gateways in internal/billing/provider_cryptomus.go, provider_mock.go and
--   provider_stars.go as values of `Provider`, over the libraries in `Wire`.
-- - Billing.Expirer: internal/billing/expirer.go.
-- - Billing.Requests: the operations as requests that are served one after the other.
-- - Auth.Model, Auth.Store, Auth.Repository, Auth.Service, Auth.Registration, Auth.Totp:
--   internal/auth, with its tables and the blacklist in Redis in a record `Site`, and a list that
--   says which accesses are refused. `Crypto` holds the cryptography that the service calls.
-- - Auth.Http: internal/auth/middleware.go and handler.go. A handler takes a request to an action on
--   the `Site` that answers; the context's principal is a field of the request. `Codec` decodes.
-- - Monitoring.Engine: internal/monitoring/engine.go, a check of a node on a record `Fleet`.
-- - Platform.Security: internal/platform/httpx/security.go, the limiter on one key of Redis.
--
-- Representation: an identifier is a number and 0 is uuid.Nil; amounts are whole cents and a
-- percentage is in hundredths, where the code rounds a float64 to cents; times are seconds. A text
-- is the list of its bytes.
--
-- Fuel: cidrs_from has one round per address of the range, and each round covers at least one;
-- free_from has one round per offset. The loops of Vpn.Fleet and Agent are recursions on lists.
--
-- Not modelled: interleavings of requests, but for two refreshes in Auth.Race, the tables' foreign
-- keys, IPv6, the HTTP handlers but for the agent's and those in Auth.Http, the servers of the
-- payment gateways, the Telegram bot, logging, and the parts that only connect to other systems.
-- Rows that a query does not order come as a function of the service arranges them, and of rows
-- that sort alike a query with LIMIT 1 returns the first in the table.
pub mod Base
pub mod Agent
pub mod Vpn
pub mod Billing
pub mod Auth
pub mod Monitoring
pub mod Platform

-- ===== src/Lib.antt =====
-- A verification library for the MikroTik operator, a Kubernetes controller that keeps RouterOS
-- devices as its custom resources describe them.
--
-- The program. The reconcilers in internal/controller turn resources into desired entries (DNS
-- records, routes, NAT and firewall rules) and call the client in internal/routeros, which reads
-- and changes the tables of a device by sentences of the RouterOS API. Every entry that the
-- operator makes carries a comment that names its owner; this is how it finds its own entries
-- and leaves the others alone. The same client exports the configuration of a device, and imports
-- a backup from files of a limited size.
--
-- The files.
--   Base        what the parts share: Boolean tests, lists, texts (lists of bytes), Go's integers,
--               calls that may fail.
--   RouterOs    the device and the library go-routeros, a parameter: a state, the call
--               `run` (`RunArgsContext` under its time limit, so that running out of time is one of
--               its errors) and the four tables. `IsLawful` states the documented behaviour of
--               print, add and remove; a command that fails may still have been carried out.
--               RouterOs.Memory is a device in memory that obeys the laws, on which the runs in
--               Tests are computed.
--   Client      internal/routeros/client.go. Client.Entries: `FirewallRule`, `PortForward`, the
--               comments, the tests of the early returns and the attributes that are sent.
--               Client.Operations: the methods of `apiClient`, from `managedEntries` and
--               `deleteMatching` up to `EnsureDNS`, `EnsureRoutes`, `EnsurePortForward`,
--               `EnsureFirewallRule` and `DeleteManagedConfiguration`. The other files prove what
--               each operation does to the tables.
--   Restore     internal/routeros/export.go: `restoreStatements`, `splitRestoreScript` and what
--               they call. The console of RouterOS, which reads the text of a file, is the
--               parameter of Restore.Console; `IsExported` states what the code takes for granted
--               of a statement: where it ends, that a path statement chooses its menu by its first
--               line, that a comment does nothing and a command stays in its menu.
--   Endpoints   internal/controller/router_helpers.go and `endpointKey` of router_controller.go:
--               the devices that a MikroTikRouter names, and `ensureRouterActive`, which lets a
--               router through only if it owns them. The list that `kube.List` returns is an
--               argument. Endpoints.Targets: `durableRouterTargets`, whose annotation is an
--               argument. `net.ParseIP` and `strings.ToLower` are the parameter `Net`.
--   Hostnames   internal/controller/router_controller.go: `effectiveHostnameIntersection`,
--               `acceptedRouteHostnames` and `validateGeneratedDNSCandidates`. An absent name of a
--               listener is the empty text.
--   References  internal/controller/router_controller.go and router_helpers.go: how a reference
--               names a router, `getMikroTikRouter`, `resolveRouterReference` and
--               `generatedClaimRouterRefs`. The reads of the Kubernetes client are the parameter
--               `RouterApi`; a list is that of one moment.
--   Cluster     internal/controller/cluster_routes.go with `routeGateways`: the gateways of a
--               service's routes, `desiredClusterRouteHops` and
--               `clusterRouteAppliesToEndpoint`. The list of nodes is an argument.
--   Fence       internal/controller/router_fence.go. Fence.Registry: the two critical sections, on
--               a map of pointers and a heap of entries. Fence.Threads: the callers of `withFence`
--               as a step relation, each step being one critical section, one use of the channel
--               or the end of a wait by the context. Fence.Invariant and Fence.Preserved: what
--               holds between the steps. `refs` is a natural number, and 1 less than 0 is 0 there;
--               a reference is only released by a caller that the count includes.
--   OwnedRoutes internal/controller/cluster_routes.go: the MikroTikRoute objects of a source.
--               OwnedRoutes.Candidates: `clusterRouteHops` and `desiredClusterRouteCandidates`;
--               package sha1 is the argument `sha1_hex`. OwnedRoutes.Operations:
--               `reconcileOwnedClusterRoutes` and `deleteLabeledClusterRoutes` on the parameter
--               `Kube`, the calls of the Kubernetes client on a server. OwnedRoutes.Laws states
--               the documented behaviour of these calls; a write that is refused may still have
--               been carried out on its own object. OwnedRoutes.Memory is a server in memory that
--               obeys the laws, with and without a cache that lags behind. `Get` may miss a route
--               that the server holds, since it reads from a cache and other passes may run at the
--               same time; what it finds is what is stored. An absent label is the empty text.
--   Finalization internal/controller/router_controller.go: `reconcileDeletionLocked` and
--               `cleanupRemovedEndpoints`, with `connectRouterClients` of router_helpers.go. A pass
--               is a list of events, and the answers of what lies outside are the parameter
--               `Outside`, which may depend on the events so far; the list that `kube.List`
--               returns is an argument. Endpoints.History is `durableRouterEndpointUnion`.
--   Status      internal/controller/status_helpers.go: `readyCondition`.
--   Strings     what the code uses of the package `strings`.
--   Tests       runs on concrete inputs.
--
-- How the code is read. A Go string is its sequence of bytes. A sentence is a list of keys and
-- values, and an absent key reads as the empty text, as in a Go map. A word is the command, or an
-- attribute with its key and its value apart, which `=key=value` puts together. A method of the
-- client is a function of the device's state that returns a result or an error, with the state
-- after it. `R.Canonical k v` says that the device stores the value as it was sent: RouterOS may
-- write some values in another form, and then the operator's comparison never settles.
--
-- Bounds and fuel. `%d` writes a number by repeated division, on as much fuel as the number,
-- which is more than its digits. The loop of `splitRestoreScript` takes a step back to try a
-- statement again; its fuel is twice the number of statements, which is proved to be enough.
--
-- What is not modelled. Replies hold no nil sentences. Logging, metrics and the connection's
-- reader are left out. The reconcilers, the claims and the rest of the helpers of
-- internal/controller, the web interface in internal/uiapi, the commands under cmd, and the
-- operations of export.go that write the files to the device are not part of this library yet.
pub mod Base
pub mod Strings
pub mod RouterOs
pub mod Client
pub mod Restore
pub mod Endpoints
pub mod Hostnames
pub mod References
pub mod Cluster
pub mod Fence
pub mod Finalization
pub mod Status
pub mod OwnedRoutes
mod Tests

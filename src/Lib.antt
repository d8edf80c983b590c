-- ===== src/Lib.antt =====
-- kube-overlay-operator gives pods addresses in overlay networks and connects them by tunnels. Its
-- parts run as Kubernetes controllers and webhooks, and share the objects of the API server:
--   * the pod controller allocates an address to each pod that names a network, records routers in
--     the network's status, and takes deleted pods out of all networks;
--   * the network controller keeps a finalizer on a network while addresses of it are allocated;
--   * the namespace controller creates the service account, its token secret and the role binding
--     of the sidecar;
--   * the validating webhook admits networks, and the pod webhook adds the sidecar to pods;
--   * the tunnel controller runs in each pod's sidecar: it makes the links and routes of the pod's
--     kernel those that the networks' statuses ask for;
--   * the resolver answers DNS queries for services with addresses of a network.
--
-- Files, and the code that they model:
--   * Api: api/v1alpha1/overlaynetwork_types.go, and the fields of Kubernetes objects in use.
--   * Iputil: controllers/iputil/pickip.go. `search_from` is the loop of FirstFreeHost, `inc` is inc.
--     Iputil/Value is about inc, Iputil/Search, Iputil/Fuel and Iputil/Host about the search.
--   * PodController/Allocation: allocateIP (`allocate_ip`) and deallocateIP (`deallocate_ip`) of
--     controllers/pod_controller.go. `allocated_status` and `deallocated_status` are their effect on
--     the status, before the update is sent. PodController/Reconcile: Reconcile, with one function
--     per step; `LoopState` holds what its loop updates. The other files of PodController hold
--     what is proved of them.
--   * OverlayController: controllers/overlaynetwork_controller.go.
--   * NamespaceController: controllers/namespace_controller.go.
--   * Webhooks/Validator: webhooks/validating.go. Webhooks/Injector: webhooks/pod.go.
--   * Resolver: resolver/dns_controller.go. `network_cache` is the cache that Reconcile makes, and
--     `handle_dns_request` gives the message that handleDnsRequest writes.
--   * Tunneler: tunneler/network_controller.go. Tunneler/Naming: getNetworkId (`get_network_id`) and
--     getTunnelId (`get_tunnel_id`). Tunneler/Reconcile: Reconcile; `links_to` makes the target state.
--     Tunneler/Interfaces: reconcileTunnelInterfaces. Tunneler/Links: setupTunnelIface, reconcileFOU
--     and the two loops over links. Tunneler/Routes: reconcileRoutes, with `reconcile_link` for a turn
--     of its loop, and netEqual. Tunneler/Shutdown: Shutdown. An `Action` changes the reconciler and
--     the kernel, and returns, fails or panics; what was done before stays done. Tunneler/Keeps is
--     about actions that change no links, and Tunneler/Calm about actions that do not panic. These
--     and the files below the others hold what is proved.
--   * KernelModules: modInitFunc, finitModule and initModule of cmd/dns/main.go and
--     cmd/sidecar/main.go, which are alike. `System` holds the calls of the system.
--   * External and Net/Text: the code outside the repository, as parameters. A `Client` is the API
--     server: what it answers to a read may depend on all writes before, and a write is data that
--     is appended to a log. A `Netlink` is the kernel. `Lo`, `Finalizers`, `Dns` and `NetText` are
--     libraries, with what they document as hypotheses `IsLo`, `IsFinalizers`, `IsDns`, `IsNetText`
--     and `IsNetlink`. `RefusesRepeats` is the refusal of a route that is there. A `Server` is the API
--     server as it keeps one network: `IsServer` says that a version names one state of the network,
--     that an update is accepted at the stored version only, that the status has updates of its own,
--     and that a network under deletion goes away with its last finalizer. A `Runtime` is what the
--     functions main call.
--   * Net/Bytes: net.IP and net.IPNet as bytes, with To4 and Contains of package net, on which the
--     search for an address depends byte by byte. Net/Masks: the sizes of masks, and Equal.
--   * Cluster: the pod controller, the network controller and users at one network that the API
--     server stores, as a step relation. `Snapshot` is the network at a resource version; a
--     controller works on any snapshot that was read before (`seen`), and its write is submitted
--     at the version of that snapshot. `Sends` are the writes that it may compute there, with the
--     pod that it takes out of the network. `Admits` is what the API server lets users create and
--     edit; with `IsAdmitted` it is the validating webhook. Cluster/Always is about what all steps
--     keep. The other files are about the writes, and about `Reach`, the systems that come from
--     one without the network, and `Run`, steps that leave a pod in it.
--   * Startup: the functions init and main of cmd/operator/main.go, cmd/webhook/main.go,
--     cmd/sidecar/main.go and cmd/dns/main.go, as programs that make calls and may exit with a code.
--     `sidecar_run` is main of the sidecar up to the return of Start, with all that the controllers do
--     meanwhile as the effect of that call, and `sidecar_main` goes on with Shutdown.
--   * Base: notation, texts, lists, maps as association lists, and errors as values.
--   * Tests: concrete parameters and data.
--
-- Bounds: bytes wrap around at 256, ports are integers. The search for an address runs on fuel, one
-- more than there are allocated addresses: it passes over allocated addresses only, and it comes
-- back to an address after 2^128 steps only, so it ends before the fuel does.
--
-- The numbers of networks wrap around at 2^32, and a rune stands for a network up to the end of
-- Unicode. The order in which Go goes over a map is a parameter, `Orders`.
--
-- Not modelled: the generated code, the stubs of api/v1alpha1/overlaynetwork_webhook.go, which no
-- program registers, the tests, logging, and the sockets of the resolver. Of a program, calls that
-- cannot fail and change nothing are left out, flags are those of a command line that parses, and the
-- server of the resolver, which runs besides Start, is a call in front of it. The steps of Cluster are
-- atomic at the API server; users there create, edit and delete a network, but leave its status and
-- the controller's finalizer alone, and one network is followed. In Tunneler, a reconciliation runs
-- alone between its calls. Lists and maps of Go that are nil read as empty ones.
pub mod Base
pub mod Net
pub mod Api
pub mod External
pub mod Iputil
pub mod PodController
pub mod OverlayController
pub mod NamespaceController
pub mod Webhooks
pub mod Resolver
pub mod KernelModules
pub mod Tunneler
pub mod Cluster
pub mod Startup
mod Tests

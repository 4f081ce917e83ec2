-- ===== src/Lib.antt =====
-- A verification library for localizer, the tool that makes the services of a Kubernetes cluster
-- reachable on a developer's machine and exposes local ports in the cluster.
--
-- The parts of the program, and the files that model them:
--
--   pkg/hostsfile/parser.go          Hostsfile.antt and its children
--     A hosts file with one managed block. Hostsfile.File is the struct `File`, and load, marshal,
--     save, add_hosts and remove_address are its methods; Hostsfile.Scanner is the bufio.Scanner loop
--     that Load and Marshal share, and Hostsfile.Block is parseMetadata and generateBlock.
--   internal/proxier/portforward.go  Proxier/Worker.antt, Proxier/Create.antt, Proxier/Setup.antt,
--                                    Proxier/Endpoints.antt
--     The worker that owns the pool of addresses, the hosts file and the map of port-forwards.
--     Proxier.Worker.Worker is the struct `worker`; stop_port_forward, delete_port_forward,
--     create_port_forward and handle are stopPortForward, DeletePortForward, CreatePortForward and one
--     turn of the loop of Start.
--     Proxier/System.antt has the worker with its channel, the reconciler and the goroutines of the
--     tunnels as a step relation, and Proxier/Lifecycle.antt a specification of the port-forwards.
--   internal/proxier/types.go        Proxier/Types.antt
--   internal/proxier/proxy.go        Proxier/Events.antt, Proxier/Reconcile.antt, Proxier/Endpoints.antt
--     The events of the informers put keys into the work queue; reconcile compares the service of a key
--     with the worker's map and sends requests.
--   internal/kube/client.go          Kube.antt
--     ResolveServicePorts and FindControllersForService.
--   internal/server/expose.go, internal/server/list.go   Server.antt
--     The port maps, the exposer with its instances, and the listing of ports.
--   internal/ssh/client.go           Ssh.antt
--     The ports of a reverse tunnel and its listeners.
--   internal/expose/client.go, internal/expose/port.go,
--   internal/reflectconversions/conversions.go   Expose.antt, Expose/Tunnel.antt, Expose/Controllers.antt
--     The scale of the controllers, the pod that stands in for a service, and the loop that keeps the
--     tunnel up.
--   internal/server/grpc.go, internal/server/grpc_server.go, internal/server/kill.go,
--   internal/server/ping.go, pkg/localizer/localizer.go   Daemon.antt
--     The socket of the daemon: Run in steps, and IsRunning and Connect of its clients.
--     Daemon/Starting.antt has several daemons at one socket.
--   cmd/localizer/list.go, cmd/localizer/expose.go, cmd/localizer/localizer.go   Cli.antt, Cli/Start.antt
--     The actions of `localizer list` and `localizer expose`, and the start of the daemon.
--
-- How they interact: a command connects to the socket of the daemon and asks its server. In the
-- daemon, the reconciler sends requests to the worker, which takes an address from the pool, writes
-- the hosts file and opens a tunnel; when the tunnel ends, its goroutine sends a request for a
-- recreation. The server exposes a service by the exposer, which runs the loop of the expose
-- package, which makes a pod and a tunnel and starts the ssh client.
--
-- State is passed explicitly. A method returns the new state and a Result: a value, an error with
-- its text, a panic, or a wait for ever on a lock (Base.Results). Strings are lists of bytes, maps
-- with string keys are association lists with `lookup`, `insert` and `delete` (Base.Dict), as their
-- order is not observable in Go. Code outside the repository is a parameter: encoding/json,
-- net.ParseIP and govalidator (Hostsfile.Block.Platform), go-ipam (Proxier.Worker.Ipam), what the
-- Kubernetes API, the port-forwards and the clock answer during one request (Proxier.Worker.World),
-- the informers (Proxier.Reconcile.Cluster, Kube.Stores), the work queue and its rate limiter
-- (Proxier.Events.WorkQueue, Proxier.Reconcile.Limiter), the flags of urfave/cli (Cli.Start.Flags),
-- discovery and EnforcePtr (Expose.Objects, Expose.Controllers.Reflection), and strconv. What is
-- relied on of them is a record of named laws beside the theorems that use it.
--
-- Loops are structural recursion: over the lines that the scanner yields, over the requests that
-- arrive, over the rounds of the tunnel loop and over the checks of a pod until the context is
-- done, so there is no fuel but one: the start of the daemon has six steps at most, which is the
-- bound in Daemon.run, and Daemon.Running shows that it is enough. A line of 65536 bytes or more
-- ends a scan with an error, as in bufio. Ports, replicas and times are natural numbers; the
-- program adds and subtracts none of them but times.
--
-- Not modelled: the generated grpc code in api, the parsing of arguments and the log file in
-- cmd/localizer/localizer.go, the columns that tabwriter makes of the cells of `localizer list`,
-- the traffic of grpc, the global informer cache, logging, the wiring in NewProxier and Start of
-- the proxier, the containers of the pod, and the traffic of a tunnel. Goroutines are sequences of
-- steps: a request of a tunnel that ended stands in the sequence of the worker's requests, and an
-- exit of an exposed service is a step of the exposer. What two methods of a hosts file do at the
-- same time is ordered by its lock.
pub mod Base
pub mod Hostsfile
pub mod Kube
pub mod Proxier
pub mod Server
pub mod Ssh
pub mod Expose
pub mod Daemon
pub mod Cli
pub mod Tests

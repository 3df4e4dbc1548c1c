-- ===== src/Lib.antt =====
-- InfraKit (docker-archive/deploykit): a toolkit of controllers and plugins that keep infrastructure
-- in a declared state. This library models its decision logic and proves what makes it correct.
--
-- The state machine engine (pkg/fsm) is what the controllers of resources, pools and inventories run
-- on. `Define` compiles the states of a machine into a spec; a set runs instances of the machine: one
-- goroutine turns calls, clock ticks and reads into transactions on a buffered channel, and another
-- takes them off and runs them, one after the other. A transaction may move an instance along a
-- transition, run the action of the transition, set a deadline in a heap of instances, count visits and
-- flaps, and put further signals on the channel.
--
-- Files, and the code that each is about:
--   Base             lists, fixed-width integers and maps as association lists
--   Fsm/Types        pkg/fsm/types.go, errors.go
--   Fsm/Spec         pkg/fsm/fsm.go: Define, compile, SetAction and the queries on a spec
--   Fsm/Flap         pkg/fsm/flap.go: CheckFlapping, the history of moves and the count of flaps
--   Fsm/Fifo         pkg/fsm/fifo.go: the circular array of events
--   Fsm/Queue        pkg/fsm/queue.go and the loops of the standard library's container/heap, and
--                    the record of pkg/fsm/instance.go
--   Fsm/Set          pkg/fsm/set.go: NewSet and what the handlers share
--   Fsm/Set/Handlers pkg/fsm/set.go: handleAdd, handleDelete, handleEvent, handleClockTick
--   Fsm/Set/Run      pkg/fsm/set.go, run: the two goroutines as a relation between sets
--
-- The group controller (pkg/controller/group) keeps a group of instances at a size, or at a list of
-- logical ids, through two plugins: one that lists, labels, provisions and destroys instances, and a
-- flavor that prepares their specs, drains them and reports their health. A commit of a changed
-- configuration starts a rolling update, which replaces the instances that lack the hash of the new
-- configuration one at a time, and waits for the replacements to be healthy.
--
--   Group/Types      pkg/spi/instance, pkg/spi/flavor, pkg/controller/group/state.go: the data, and the
--                    plugins as operations on a world
--   Group/Scaled     pkg/controller/group/scaled.go
--   Group/Scaler     pkg/controller/group/scaler.go and quorum.go: a round of each supervisor
--   Group/Rolling    pkg/controller/group/rollingupdate.go
--   Group/Controller pkg/controller/group/group.go: the table of groups, commits and releases, the update
--                    plans, and sizes that are read from documents and set in them
--
-- A selector (pkg/plugin/instance/selector) is an instance plugin that passes a request on to one of
-- several others: by weights, to the one with the fewest instances, or to the one that has the logical
-- id that is asked for.
--
--   Selector         selector.go, weighted/weighted.go, spread/spread.go and internal/base.go there
--   Selector/Tiered  tiered/tiered.go and internal/base.go there
--
-- The controllers of pools, resources, inventories, of the garbage of a swarm and of load balancers keep
-- each of their items in a state machine of the engine. A model is such a machine with the clock that
-- drives it; its actions send an item on a channel, and the controller answers with signals.
--
--   Workflow           pkg/controller/pool/fsm.go and what the other models share with it
--   Workflow/Pool      pkg/controller/pool/fsm.go: the machine
--   Workflow/Resource  pkg/controller/resource/fsm.go
--   Workflow/Inventory pkg/controller/inventory/fsm.go
--   Workflow/Swarm     pkg/controller/gc/model/swarm/fsm.go
--   Workflow/Ingress   pkg/controller/ingress/fsm.go: the machine
--   Workflow/Polling   pkg/controller/ingress/fsm.go, init: the poller that drives the machine
--
-- The enrollment controller keeps the instances of one plugin, the enrollments, in step with a list of
-- sources.
--
--   Enrollment       pkg/spi/instance/description.go, pkg/controller/enrollment/set.go: what to add and remove
--   Enrollment/Sync  pkg/controller/enrollment/sync.go
--
--   Depends          pkg/types/depend.go: the order in which specs that depend on each other are taken
--
-- The ingress controller brings the routes of a load balancer to those that its services ask for.
--
--   Routes           pkg/controller/ingress/l4.go
--
-- The manager keeps the specs of all groups and controllers in a store. It replays them when its node
-- becomes the leader, and stands between the clients and the group plugin. All that it asks of plugins goes
-- through one queue, whose buffer has 100 places; its worker sends to the same queue.
--
--   Manager          pkg/manager/stored.go
--   Manager/Proxy    pkg/manager/group_proxy.go
--   Manager/Adapter  pkg/manager/controller_proxy.go
--   Manager/Exec     pkg/manager/manager.go: execPlugins, the changes of leadership, the worker
--   Manager/Leading  pkg/leader/poller.go, pkg/manager/manager.go: the events of the leadership
--
--   Paths            pkg/types/path.go: the paths by which metadata and dependencies are named
--
-- A pointer to an instance is its place in a store that only grows, so that the members, the index by
-- state and the deadline queue share one instance as they do in the code. A handler returns, blocks on
-- the full channel or panics (`Outcome`). A place outside the slice of the deadline queue that is read
-- or written marks the queue as stray, and the handler panics there. Ids wrap at 2 ^ 64 and times at
-- 2 ^ 63; the theorems about runs ask that ids are left. Go's int is
-- taken as unbounded in the counts of events and of instances.
--
-- Fuel: `up` has one more than the place it starts at, which halves; `down` one more than the length of
-- the queue, and its place at least doubles; the loop of handleClockTick one more than the length of
-- the queue, each of its rounds takes one instance off. A wait of a rolling update recurses on the list
-- of what it receives, and the update has one more than the length of that list.
--
-- The plugins are processes of their own: they are parameters, any operations that take a world to an
-- answer or an error and the next world. Strings compare by their bytes, as the native ones do.
--
-- Not modelled: the names of states and signals and the messages, which nothing but the log reads;
-- the locks, since one goroutine runs all transactions; the unbuffered channels between callers
-- and the input goroutine, and Stop. Of the group controller: the limit of parallel operations,
-- and the digest of a configuration, which is a field. Of the selectors: the merge of descriptions
-- and the fan-out of destroy. Of the models: the names of their states and signals, and the
-- goroutines that answer the channels. Of the paths: JSON pointers and the sorting of lists of
-- paths. Of the enrollments: the commit of specs. Of the dependencies: the depend expressions in
-- documents. Of the manager: metadata, status, and the delay between the test of the leadership
-- and the worker's turn. Of the load balancers: where the desired routes come from, and their
-- backends. Of the actions of a state machine: what they do besides their answer, which may differ
-- each time. An action that panics or never returns is outside the model.
pub mod Base
pub mod Fsm
pub mod Group
pub mod Selector
pub mod Workflow
pub mod Paths
pub mod Enrollment
pub mod Depends
pub mod Manager
pub mod Routes

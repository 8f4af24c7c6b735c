-- ===== src/Lib.antt =====
-- rMake builds packages in clean chroots, on one machine or on a cluster of worker nodes. This
-- library models the parts of it that decide: which node gets which command, and what state a
-- trove, a build and a job are in.
--
-- The parts and their files
--   Flavors       rmake/lib/flavorutil.py: the instruction sets of a flavor (getArchFlags,
--                 getCrossCompile, isCrossCompiler), and in Flavors/Built the flavor that a package is
--                 built with. conary.deps is the parameters `Conary` and `Overrides`.
--   Dispatcher    rmake/multinode/server/dispatcher.py. Dispatcher/Types has the commands of
--                 rmake/multinode/messages.py and the WorkerNode of rmake/multinode/nodetypes.py.
--                 Dispatcher/NodeList is the class NodeList, field by field: nodes, their slot and
--                 chroot counters, the commands each holds, and the commands by job.
--                 Dispatcher/NodeList/Choice is getOpenNodes, rankNodes, getNodeForFlavors and
--                 assignCommands. Dispatcher/Server is DispatcherServer with its queue, and
--                 messageReceived of DispatcherNodeClient, which calls it; its listings and the
--                 suspension of nodes are in Dispatcher/Server/Listing. The other modules below
--                 these are proofs, named for what they prove.
--   Build         Build/Trove and Build/Trove/Changes are the states and methods of BuildTrove in
--                 rmake/build/buildtrove.py, Build/Trove/Events the events of
--                 rmake/build/publisher.py, Build/State is rmake/build/buildstate.py, Build/Job the
--                 states and methods of BuildJob in rmake/build/buildjob.py, with its tables of troves
--                 and contexts in Build/Job/Troves. Build/Resolve is the class ResolveResult, and
--                 Build/Trove/Changes/Histories any sequence of the methods of a trove.
--   Deps          rmake/build/dephandler.py. Deps/State and its children are the class
--                 DependencyBasedBuildState, which extends Build/State; Deps/Failing is _troveFailed,
--                 Deps/Handler the state of DependencyHandler and its handlers of events,
--                 Deps/Handler/Resolving, Complete and Choosing what it does before and after the
--                 resolution of the requirements of a trove. The DirectedGraph of conary is the
--                 parameter `Graphs`, and what the handler relies on of it is `GraphLaws`; what it reads
--                 of a trove that does not change during a build is in `World`.
--   Publisher     rmake/lib/publisher.py: corking, emitting and subscribing.
--   Chroot        Chroot/Pool is ChrootQueue of rmake/worker/chroot/rootmanager.py, the slots of a
--                 worker; Chroot/Cache is the choosing and pruning of rmake/lib/chrootcache.py and
--                 the score of rmake/worker/chroot/rootmanifest.py. What the code reads of the disk
--                 is a value that is passed in.
--   Bus           rmake/multinode/server/messagebus.py: the sessions of the message bus, their
--                 subscriptions, and what it does with a message. The texts, the formats of ids and
--                 channels and the clock are the parameter `Texts`.
--   Envelope      rmake/messagebus/envelope.py: Envelope/Writer is EnvelopeWriter, Envelope/Header the
--                 reading of PHeader. Envelope/Processor is the sending side of MessageProcessor in
--                 rmake/messagebus/messageprocessor.py.
--   Payload       rmake/multinode/messages.py: the payloads of the messages of the nodes and the
--                 dictionaries they are sent as. The objects that freeze themselves are known by
--                 their class, a parameter of which nothing is assumed.
--   Freezing      rmake/lib/apiutils.py: how the tuples of troves, jobs and requirements are frozen
--                 and thawed. Versions, flavors, labels and dependency sets are the parameter
--                 `Conary` with `ConaryLaws`.
--   Base          Boolean tests on the native numbers, lists, dictionaries and predicates on lists.
--
-- How the code is read
--   An object that changes is a record that is passed on. A call that may raise returns an Option,
--   and `none` is the exception; what an exception leaves behind is not modelled, and the theorems
--   show that the calls do not raise in a state that satisfies the invariant. A dict is an
--   association list in the order of insertion, one entry for each key; a set of keys is a
--   list. Session ids, command ids, names, paths, keys of troves and texts are natural numbers,
--   since the code only compares them. A load average is in hundredths, as the kernel reports it,
--   and `usedSlots / float(slots)` is a fraction compared by cross multiplication. `time.time()`
--   is an argument; where one method reads the clock several times, it is read once. Loops over
--   lists are structural recursion. Two loops run on fuel: that of _createRootPath, which tries names
--   until one is free, with one more than there are taken paths, and that of _troveFailed, with one
--   more than the graph has edges. What the handler of requirements publishes reaches its own
--   subscriptions only, in the order in which it publishes; the graph's troves compare as their keys.
--
-- What is not modelled
--   Sockets, processes, files, SQL, the log, and the calls of conary. The node database, which
--   NodeList only writes to, has no part in the state. The freezing of troves and jobs, the
--   configurations of a job, the cache and the reports of the dependency handler, the reading of
--   leads and payloads, what is done inside a chroot and the command line are left out.
pub mod Base
pub mod Build
pub mod Bus
pub mod Chroot
pub mod Deps
pub mod Dispatcher
pub mod Envelope
pub mod Flavors
pub mod Freezing
pub mod Payload
pub mod Publisher

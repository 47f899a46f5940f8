-- ===== src/Lib.antt =====
-- The nodes of a reliable broadcast, and the Python programs around them.
--
-- The repository has a node in C++ (src/), a router (router/), the clients that send messages to
-- the nodes and measure what the nodes deliver (client/), scripts that configure the nodes
-- (process_manager/, ops/tests/), and the inventory of the machines that Ansible deploys them to
-- (ops/ansible/ec2.py). A client encodes a message and sends it to every node; each node parses it
-- and opens a session for it; what the nodes deliver comes back to the testers.
--
-- Client/Message, Client/Bytes: the encoders of client/message.py, over bytes as numbers below 256,
-- with the OverflowError of `int.to_bytes`. Client/UdpClient: client/udp_client.py, with the nonce
-- in the client's state. Client/Utf8: `bytes.decode`, Client/Delivery: what `on_delivery` of the
-- two testers shares. Client/ConsistencyTester: client/consistency_tester.py.
-- Client/QueueSizeTester: client/queue_size_tester.py; a reading of the clock is an argument of
-- each handler. Inventory/Names, Inventory/Groups: `to_safe`, `uncammelize`, `push` and
-- `push_group` of ops/ansible/ec2.py. Inventory/Settings: the settings that its handlers read, and
-- its state. Inventory/Filing, Inventory/Address, Inventory/HostVars and Inventory/Instances:
-- `add_instance`, with `get_instance_route53_names` and `get_host_info_dict_from_instance`.
-- Inventory/Databases: `add_rds_instance`. Inventory/Caches and Inventory/Describe: the three
-- handlers for ElastiCache, with `get_host_info_dict_from_describe_dict`. Inventory/Filters:
-- `tags_match_filters`. Inventory/Route53: `get_route53_records`. Inventory/Calls and
-- Inventory/Report: `get_instances_by_region` and its errors, where a connection is what it
-- answers. Inventory/Listings: the methods that list databases and caches. Inventory/Cache: the run
-- from `__init__` to what is printed, with the cache files. Inventory/Reading: the choices of
-- `read_settings`. Inventory/Indexed and Inventory/Reachable: the handlers as steps.
--
-- Node/Parse: `AbstractMessage::parse` of src/abstract_message.cpp for plain messages, and
-- `Session::getId` of src/session.cpp. Node/Thresholds, Node/Session: src/session.cpp, one session
-- at one node; a call of `processMessage` returns the session, the message, which broadcasts
-- change, and the effects, and a broadcast calls it again, on fuel; three are enough. The log holds
-- what is asked of the owner: a broadcast, as the message stands when it is posted, while
-- src/packet_manager.cpp encodes it later, when its type may have changed, so that an ECHO of the
-- log may never be sent; and a delivery, for which src/reliablebroadcast.cpp tries as long as Redis
-- is disconnected, which need not end. Session/Moves: the atomic steps that it makes, with the log
-- of the node's effects. Node/Network: the nodes of a chain for one session, whose steps are calls
-- of `processMessage`. The network is assumed to be authenticated, which no code sees to: a message
-- that is taken in is a SEND of the client, or names a member of the chain, and names a correct one
-- only for what it has posted. Network/Run, Network/Quiet: runs by evaluation. Node/Pool: the
-- sessions of a node, as src/reliablebroadcast.cpp keeps them.
--
-- Client/Words: the words of client/tester.py. Files: a disk as state, with the operations that the
-- scripts use. ProcessManager: the scripts of process_manager/. Configuration:
-- ops/tests/generate_configs.py. Decimal: `str` of a number.
--
-- A Python exception is a value of Result. Where a client's handler fails, its state comes with the
-- failure; the handlers of the inventory and the scripts drop what they had changed when they fail.
-- Dictionaries are association lists that keep the order of insertion. A text is a list of code
-- points; the names in the inventory are ASCII. Integers are the naturals, without Python's
-- negative numbers; the sizes of the queue are integers. A list of calls has the latest call first.
-- All loops are structural recursion over the data, but for the calls of a session, the digits of a
-- number, where one more than the number is enough, the slices of a list, where its length is
-- enough, and the pages of databases, where their number is.
--
-- Parameters: what a connection to the cloud answers, the environment and the paths that are files,
-- what a connection lists of Route53, `str.format` and the compiled patterns of the settings, the
-- order in which Python lists a set, the difference of two readings of the clock. The entry `_meta`
-- of the inventory is kept apart from its groups. The objects of boto are records of the attributes
-- that are read.
--
-- Not modelled: the packets, sockets and threads of the C++ nodes, the delivery to Redis and the
-- removal of sessions, which nothing asks for; the router; the generated code in capnproto/; the
-- parsers of the settings and of the command line; `include_rds_clusters_by_region`; the coroutines
-- of client/redis_listener.py; the loop of client/tester.py, which sleeps by floating-point
-- differences of the clock, and the programs that drive the testers; send_signal.py.
pub mod Prelude
pub mod Result
pub mod Dict
pub mod Decimal
pub mod Node
pub mod Client
pub mod Files
pub mod Inventory
pub mod Configuration
pub mod ProcessManager
mod Witness

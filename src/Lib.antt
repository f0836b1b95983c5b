-- ===== src/Lib.antt =====
-- A distributed hash table in C: servers keep pairs of a key and a value in a local hash table, and a
-- client sends each put or get to the N nodes that follow the key's SHA-1 digest on a ring, over UDP.
--
-- How the parts stand to one another, and the files that model them:
--   hashtable.c        HashTable: the table of a server, and of the votes that a get counts. Chains has
--                      its buckets as lists, Tables the well-formed tables; Lookup, Content,
--                      Enumeration, Distinct, Order (the content as a bag of pairs), Failures
--                      and Memory are about what callers rely on.
--   network-utils.c    NetworkUtils: the bytes of a put request; RoundTrip.
--   pps-launch-server.c  Server: a round of the server, by the table and these bytes, and the loop;
--                      Dump (the datagrams of a whole table), Session, Rounds, and Refinement, which
--                      compares the loop with a map from keys to values, Availability, for messages
--                      of any bytes; Start is what comes before the loop.
--   args.c             Args: the options N, R and W; Bounds, Options, and RoundTrip.
--   node.c             Node: a virtual node, its digest and its order.
--   system.c           System: sockets; get_server_addr is in Node.
--   node_list.c        NodeList: growing arrays of nodes; Reader (the file of servers), Lines,
--                      Rounds and RoundTrip (a file that is well-formed), Scans and Ending (any file).
--                      Lifetimes has nodes and lists in memory, with the digests that are allocated and
--                      freed; Loading, Growing, Sorted and Ownership are about it.
--   ring.c             Ring: the nodes of a key; Places (the first loop), Servers and Collect (the
--                      second one), Storage.
--   network.c          Network: a put and a get of a client; Quorum and Requests.
--   client.c           Client: its start; Start, and Successor, on the ring that it makes; Ending has
--                      its end.
--   pps-client-*.c     Client/Commands: the programs of the command line; Substrings, Slices, Search,
--                      Concatenation and Programs for what they compute and report.
--   scenario_1.c       Client/Scenario: a load of puts and gets.
--   pps-list-nodes.c   Client/Listing: the ping of every server; Addresses (their texts) and Statuses.
--   pps-dump-node.c    Client/Dumps: the content of a server, from its datagrams; Packets, RoundTrip,
--                      Packed, Filled and Content on a dump of one packet, Sessions on one that follows
--                      puts and gets, Endings on a dump of any number of packets, Shifted and TwoPackets
--                      on one of two.
--   log-packets.c      LogPackets: a sendto that writes packets to a log; Lines.
--   error.h, error.c   Errors: the codes and their messages.
-- Text and Numbers have what string.h, ctype.h, stdlib.h and printf do with strings and numbers, Prelude
-- what all modules share, and Tests concrete runs. Server/Rounds has the server's loop as a relation
-- between tables.
--
-- Server/Service is the interface between the two sides: what a client relies on of a server, as a
-- record of operations and laws, and the server of pps-launch-server.c as an instance. Cluster puts the
-- clients of network.c together with their servers: a request reaches a server or is lost, requests of
-- other clients come in between, and the replies are some of the answers in any order. Arrivals is about
-- one request at a server, Replicas about those of a put, Votes about the answers to a get, Exchanges
-- about what a client's report tells; ReadYourWrites, NoLoss, Provenance and Regular are about a get
-- behind a put and about where a value comes from; Programs and Commands have the same of pps-client-put,
-- pps-client-cat and pps-client-get.
--
-- A C function is a function of the same name in small letters. State that it changes is a further
-- result: a table, a list of nodes, the datagrams that are sent. A function that may read or write out
-- of bounds, or through NULL, returns a `Run`, which is `ok` with the result, or `fault`, or `no_fuel`
-- where a loop has run longer than its fuel. Memory is a list of bytes, a string the list of its bytes
-- before the NUL, a NULL pointer is `none`. `size_t` has 64 bits, `int` 32 and `char` 8, signed; sums
-- that may pass these bounds are written with their wrap-around.
--
-- Fuel: the options are read in one round for each argument and one more; the second loop of the ring
-- takes two rounds for each node and one more. The file of servers is read in one round for each byte
-- and two more; a round reads a byte. A file whose last line has no newline keeps the code waiting for
-- one, which is `no_fuel`. The dump of a server does not end for a pair that is larger than a packet, so
-- its fuel is an argument; otherwise a round takes a pair, or sends a packet before the round that takes
-- the pair, so two rounds for each pair and one more are enough.
--
-- Arguments of the model stand for what the code calls and is not here: SHA1 of openssl, inet_pton,
-- qsort, inet_ntoa, strtod, what the operating system answers about sockets, the text of the file of
-- servers, the list of nodes that it gives (where a client starts), the replies that a socket receives
-- before its timeout, the memory behind a buffer and in an array of pps-client-substr.c that is not
-- initialised, and whether an allocation succeeds.
--
-- Not modelled: the freeing of the nodes that are read from the file, of requests and of values; and the
-- tests and the course's exercise, which are written for other versions of the table's types. The
-- network itself is not code: Cluster is an abstract view of it.
pub mod Prelude
pub mod Errors
pub mod Text
pub mod Numbers
pub mod HashTable
pub mod NetworkUtils
pub mod Server
pub mod Args
pub mod Node
pub mod System
pub mod NodeList
pub mod Ring
pub mod Network
pub mod Client
pub mod Cluster
pub mod LogPackets
mod Tests

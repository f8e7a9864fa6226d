-- ===== src/Lib.antt =====
-- setinstone keeps timelines of signed nodes under addresses that are hashes of public keys. This
-- library models its core and proves what makes it correct.
--
-- The parts and where they are modelled:
-- - address/ (address.go, base58.go, keypair.go): `Address` and its children. A key pair is the
--   hexadecimal text of an ECDSA key (`Address/Keys`); an address is the Base58 text
--   (`Address/Base58`) of a version byte, the hash of the key and a checksum (`Address/Checksum`).
--   `Address/Pem` has new key pairs and their files, `Address/Generated` new addresses, and
--   `Address/Xdr` the bytes of an address.
-- - crypto/crypto.go and internal/util/bytes.go: `Crypto`. A signature is a padded pair of numbers;
--   `Crypto/Encryption` has Encrypt and Decrypt.
-- - internal/multihash/id.go: `Multihash`.
-- - message/ and resolver/messages.go: `Message`, signed messages with a payload, and `Message/Json`,
--   their JSON.
-- - cache/: `Cache`, values under keys with an expiry.
-- - event/: `Event/Subscriptions` has the callbacks of each event, `Event/Manager` the manager, its
--   factory and the round of its loop, `Event/Loop` the loop, and `Event/Delivery` puts Emit and a
--   round together.
-- - datastore/ (data-store.go, local-data-store.go, ipfs-data-store.go): `DataStore`, the interface as
--   a record of operations on a state, `DataStore/Local`, the store in memory, and `DataStore/Ipfs`.
-- - resolver/ (resolver.go, local_resolver.go): `Resolver` and `Resolver/Local`, in the same way.
-- - resolver/ (backend.go, memory_backend.go, bolt_backend.go, ipfs_backend.go): `Resolver/Backend` and
--   its children; `BackendLaws` is what a resolver relies on.
-- - resolver/ipfs_resolver.go: `Resolver/Network`. The parent has the state, the addresses that are
--   followed and Add; `Network/Answer` has the handlers of events, queries and resolutions, and
--   `Network/Query` Resolve, the query and the steps that other goroutines take meanwhile. The other
--   children are named for what they are about. It calls event managers through the record `Events`;
--   `Network/Live` fills that record with the managers of `Event/Manager`, which stand in a list, and
--   lets their loops call the handlers; `Live/Reachable` says which states a node reaches.
-- - internal/util/rand.go: `Random`.
-- - dag/ (dag.go, node.go, util.go): `Dag`. `Dag/Node` has the node and its signature, `Dag/Core` what
--   only reads, `Dag/Verify` the checks of VerifyNode, `Dag/Write` SetRoot, Append and what they
--   store. A Dag has a store and a resolver on a common state; `Dag/Laws` says what it relies on,
--   and `Dag/Local` puts the two in memory together (`Dag/Open` and `Dag/Progress` are about when
--   their operations succeed, `Dag/Names` about its names, and `Dag/History` and
--   `Dag/Timelines` about calls in a row).
-- - graph/ (graph.go, util.go, iterator.go): `Graph` and `Graph/Iterator`, the timeline of an owner.
-- The code of these packages is called in this order: graph calls dag, dag calls the store, the
-- resolver, address and crypto, and the resolver checks addresses. The resolver on the network calls a
-- backend and an event manager (`Env`), and hands the manager its own handler as the callback.
--
-- How code is modelled. Strings and slices are lists of numbers below 256 (`Bytes`). A function that
-- may fail returns an `Outcome`: a value, an error or a panic. A method that writes is an `Action`,
-- which returns the state beside every outcome, so that what was written before an error stays
-- written. A pair of a value and a nil error is `ok`. Methods that only read take the state. int32 is
-- its bit pattern below 2^32. The order in which a map is walked is the order of a list. Reading from
-- a store or a resolver does not change the state, and a context is done only
-- where a query, `Next` or a read of the store on IPFS waits for it.
--
-- Bounds. The digits of a number are made with the number itself as fuel, since it has no more digits
-- than its value; the swaps of a slice with its length. `getFullPath` recurses on the depth of the
-- stack, `stack` of a Dag, and a chain of branch roots that is longer overflows it, which is a panic.
-- The loop of `All` has a number of rounds, and its theorem says how many are enough. A reader is the
-- list of what its reads return. The loop of a query polls once for each round of its schedule, which is
-- what the other goroutines do in one pause, and the deadline passes behind the last one; what is proved
-- of it holds for every schedule. A clock, the identifiers of subscriptions and the randomness of
-- signatures are arguments.
--
-- Parameters. SHA-256, RIPEMD-160, ECDSA on P-256 and time.Parse are the record `Primitives`, with
-- their documented behaviour in `PrimitivesLaws`; json.Marshal and json.Unmarshal of nodes are fields
-- of a Dag. encoding/hex and the used part of math/big are written out (`Hex`, `BigInt`), and so are path.Split and
-- path.Dir (`Ipfs`). encoding/json of messages is the record `Json`, the pubsub interface of IPFS is
-- `PubSub`, a bolt database is `Bolt`, AES-GCM is `Aes`, x509 and PEM are `Pem`, XDR is `Xdr`, content
-- identifiers are `Cids`, an IPFS node is `Ipfs`, and each has its laws beside it where
-- the program relies on some.
--
-- Not modelled. The mocks are test doubles. Whether the backoff library gives up is an argument of the
-- event loop. What is logged or
-- printed is left out. The fields tip and pairs of the stores, which nothing reads, and the loggers are left
-- out. A handler of the network resolver runs as one step; its goroutine
-- that sends an answer is a step of its own after its sleep.
pub mod Prelude
pub mod BigInt
pub mod Primitives
pub mod Hex
pub mod Crypto
pub mod Address
pub mod Message
pub mod Cache
pub mod Event
pub mod Random
pub mod Multihash
pub mod Ipfs
pub mod DataStore
pub mod Resolver
pub mod Dag
pub mod Graph
pub mod Tests

-- ===== src/Lib.antt =====
-- A verification library for ln-node, a Lightning node on LDK with a bdk wallet and bitcoind.
--
-- The program. `Node` (src/node.rs) shares four pieces of state among its tasks, each behind a
-- lock of its own: the store of payments and peers, LDK's channel manager, the bdk wallet and the
-- cache of fee estimates. A client's calls change the store and the channel manager; LDK delivers
-- events to src/event_handler.rs, which changes all but the cache; a background task of
-- src/bitcoind_client.rs refreshes the cache from bitcoind; its `ChainListener` hands blocks to
-- LDK and to the wallet.
--
-- The files.
--   Prelude         what the others share: `Result`, `Outcome` (a call returns, or its thread
--                   panics), Boolean tests on the native numbers, and facts on lists and texts
--   Kv, Kv/Memory   the key-value store as an interface with its documented laws, and a store in
--                   memory that has them
--   Json            serde_json's values and floating-point numbers, as an interface;
--                   Json/Records has how `Payment` and `ChannelInfo` are serialised
--   Storage         src/storage.rs: `Payment`, `PeerInfo`, `PaymentDirection`, `PaymentStatus`
--   Storage/Codec   their `write` and `read`, over LDK's TLV macros (`Formats`)
--   Storage/Store   `NodeStore`, one function per method, with Store/Payments,
--                   Store/Listing and Store/Peers; Store/Refinement has what the payments are to
--                   a client, a function from ids to payments
--   Fees            src/bitcoind_client.rs: `CONF_TARGETS`, `confirmation_target_to_blocks`,
--                   `get_fallback_fee`; Fees/Cache has the cache, `fetch_fee_estimate` and
--                   `update_fee_estimates`, Fees/Bounds the cache's invariant, Fees/Rpc
--                   `get_best_block` and `broadcast_transactions`
--   Chain           `ChainListener` of the same file, with Chain/Reorg; Chain/Following has the
--                   task of `start` in src/node.rs that follows the chain, Chain/Source the
--                   traits by which LDK asks for blocks
--   Ldk             LDK's channel manager, as an interface
--   Wallet          src/onchain_wallet.rs: what `WalletManager` does with the bdk wallet, with
--                   Wallet/Spending; Wallet/Startup has `WalletManager::new` over the seed file and
--                   the database, Wallet/Signing the traits by which LDK asks for keys
--   World           the state that the tasks share, with whether the wallet's lock is poisoned
--   Events          src/event_handler.rs: `handle_event`, with Events/Payments, Events/Panics,
--                   Events/Funds and Events/Frame
--   Node            src/node.rs: Node/Channels has `open_channel`, `close_channel`,
--                   `list_channels` and `balance`, Node/Payments `pay_bolt11_invoice`,
--                   `create_bolt11_invoice` and `get_payment`; Node/Race has payments and events
--                   together; Node/Peers has `connect`, and what `start` does to reconnect to
--                   the stored peers and to store the connected ones; Node/Start has `start`
--                   from its call to its return, Node/Background its task for LDK's events,
--                   Node/Inbound its task for inbound connections; Node/Lifecycle has the
--                   node's operations, LDK's events and the other tasks as steps that interleave
--   Config          src/config.rs, the setters of `NodeBuilder` in src/node.rs, and what `main` in
--                   src/bin/lnnode.rs makes of config.json, with Config/Builder
--   Builder         `NodeBuilder::build` in src/node.rs
--   Lnnode          `main` in src/bin/lnnode.rs: a run of the binary up to its exit, with
--                   Lnnode/Joining, Lnnode/Runs and Lnnode/Handler
--   Server          src/server.rs: the answer to one request, with Server/Protocol, Server/Reads,
--                   Server/Opening, Server/Closing, Server/Paying, Server/Receiving, Server/Panics,
--                   and Server/Sound, where the server is one of the tasks of Node/Lifecycle;
--                   Server/Answers has what these share
--   Cli             src/bin/lncli.rs: the request that each command sends
--   Exchange        the bytes between the two: the client's write and read in src/bin/lncli.rs,
--                   and in src/server.rs the loop of `start_server`, with what it reads and
--                   writes; with Exchange/Messages, Exchange/Answers, Exchange/Whole,
--                   Exchange/Crashed and Exchange/Sound
--   Logger          src/logger.rs
--   Tests           sample stores, formats, a wallet and a channel manager that meet the
--                   interfaces, and runs of the code on them
--
-- How code is turned into functions. A method that changes state takes the state and returns the
-- new one beside its result. Where a method takes a lock several times, the state at the n-th
-- acquisition is `at n`; where it changes two locked objects in turn, what the other tasks do
-- between them is the argument `meanwhile`; the n-th answer of bitcoind is `call n`. Theorems
-- hold for every choice of these, unless they say that nobody interferes. A panic of `unwrap` is
-- an outcome. `wallet_poisoned` says that a task has panicked with the wallet locked, after which
-- locking it panics. That the handler reads a payment's record and writes it back under two
-- acquisitions of the store's lock is one step here. Errors are values; the boxed ones of
-- src/node.rs are `NodeError`, by their messages. u32 and u64 arithmetic is written out on the
-- natural numbers: the sum of capacities wraps at 2^64, the height is cut to 32 bits, the fee
-- buffer saturates. Floating-point arithmetic is an interface, of which only `as u32` is used in
-- a theorem: its result fits 32 bits. The loop that refreshes the fees runs over the list of its
-- wakes, the one in `connect` over the list of its rounds, the one of the listener for peers over
-- the list of its connections, the one of the server over the list of its connections and of what
-- the other tasks do between them, the one that processes events over the list of its turns and
-- the ones that follow the chain over the lists of what bitcoind answers, so no fuel is needed;
-- every other loop is over a list of the program. Where such a list ends, the loop still waits,
-- which the result says.
--
-- Interfaces and hypotheses. LDK, bdk, serde_json, hex, the key-value store and bitcoind are
-- records of operations. `IsLawful` (Kv) and `IsFaithful` (Storage/Codec) state what is relied
-- on: a write is read back, a removal removes, every key that can be read is listed; each type's
-- own `write` and `read` invert one another, the TLV macros return the fields written, and hex is
-- injective. `IsJson` (Json) states that a JSON value is read back as it was built, `IsDurable`
-- (Wallet/Startup) that the seed file and the database keep what was written and a wallet is
-- loaded for its own descriptors and network only, `IsSeeded` (Wallet/Signing) that LDK's keys
-- depend on the seed alone, `IsSocketFile` (Lnnode) that a socket is bound only where there is no
-- file, `IsWire` (Exchange) that a request is read back as it was printed and that no start of a
-- printed object is JSON, `IsStream` (Exchange) that a read takes a start of the bytes, all where
-- they fit. Kv/Memory, Tests/Formats, Tests/Server, Tests/Startup, Tests/Start and Tests/Tokens
-- have instances with all of it.
--
-- Not modelled: the constructors of LDK's router, messenger, gossip and peer manager in `build`,
-- which cannot fail and only pass on what was made before; LDK's own loop around the event
-- handler, of which the events that it hands over and how it ends, with an error too, count here;
-- what env_logger does with a line of src/logger.rs. Other log lines matter only where their
-- arguments can panic.
pub mod Prelude
pub mod Kv
pub mod Storage
pub mod Json
pub mod Fees
pub mod Chain
pub mod Ldk
pub mod Wallet
pub mod World
pub mod Events
pub mod Exchange
pub mod Config
pub mod Node
pub mod Builder
pub mod Lnnode
pub mod Server
pub mod Cli
pub mod Logger
pub mod Tests

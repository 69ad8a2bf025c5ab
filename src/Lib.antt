-- ===== src/Lib.antt =====
-- Capsi: messages, files and small workplaces between devices of one local network.
--
-- The core is the Rust crate Capsi/crates/capsi-core. A device announces itself by signed beacons
-- (discovery), keeps the keys it has seen in a trust store (identity), opens TCP connections with
-- a signed handshake and sealed, numbered frames (crypto, protocol, transport), and keeps its
-- conversations and one workplace (storage, workplace). A Rust bridge, Capsi/flutter/native,
-- connects the core to the user interface.
--
-- What is modelled, by file:
-- In Base and its children: lists, texts as lists of code points, results, decimal numbers, bits of
--   a machine word.
-- In Workplace: Capsi/crates/capsi-core/src/workplace.rs. State holds its data, Workspace the state
--   of one device, and each other module a group of its methods under the method's own name. A
--   method on `&mut self` is a function to the new workspace and its result. A reading of the
--   clock is an argument. Sync is `apply_network_state`, with one definition for each loop and
--   guard; History has the calls as a step relation.
-- In Protocol.Message: Capsi/crates/capsi-core/src/protocol/message.rs.
-- In Protocol.Framing: Capsi/crates/capsi-core/src/protocol/framing.rs. The reader is the bytes
--   that are still to come and whether they end by a close or a failure, the writer a buffer that
--   takes all bytes; an outcome of `read_exact` is a value.
-- In Storage: Capsi/crates/capsi-core/src/storage/conversation.rs. Conversation has `Conversation`,
--   Store has `MessageStore`, whose files are a map from device ids beside the one in memory and
--   whose directory takes writes or does not; a write that fails may have emptied its file, which
--   can then be read no more and is among the files no longer.
-- In Identity: Capsi/crates/capsi-core/src/identity. Device has the ids and fingerprints (a
--   fingerprint of a text beyond ASCII is cut at characters instead of bytes), Keys the operations
--   on keys over `Primitives`, the functions of the cryptographic packages, and Trust the trust list
--   without its file. Toy has functions for evaluation.
-- In Discovery: Capsi/crates/capsi-core/src/discovery. Beacon and Peers have the types of
--   beacon.rs, Absorb the decision of service.rs on a datagram, with the JSON parser as a
--   parameter, Interfaces the targets of interfaces.rs on the answer of `getifaddrs`; Beacon.Signed
--   has what the tests on a beacon ask.
-- In Native: the calls on the workplace of Capsi/flutter/native/src/lib.rs. Disk has what they
--   read and write, Outbox the deliveries and distributions, Calls the calls, each as the closure
--   that the code passes to `workplace_mutate_path`, Deletion, Founding and Sending three calls
--   with a course of their own. Whether a connection succeeds is a function of its address, device
--   and envelope, and all readings of the clock in milliseconds during a call are one.
--   A write of the workplace or of the trust list that fails may have emptied its file.
-- In Native.Inbox: the listener of `capsi_message_start` in the same file. Files, Texts and
--   Workplaces have an arm of its match each, over the data directory (the conversations and other
--   files by their path); Receive has the match, the loop over what arrives and the queue of
--   events. What the file system lets happen is a record of functions of the path, and the
--   transport answers the peer and its envelope.
-- In Native.Messaging: the call that sends a text message, up to what the listener of the other
--   device makes of it.
-- In Native.Transfer: the calls that send, accept, decline and cancel a file. What the store says
--   while a call waits or sends is a function of the round, since another thread writes it.
-- In Native.Trusting: the calls that accept and ignore a device, and the two threads that share the
--   trust list, as lists of steps.
-- In Util: the checks of addresses and names of Capsi/crates/capsi-core/src/util.rs. An address is
--   its four bytes or its first segment and the others.
-- In Crypto.ReplayWindow: `ReplayWindow` of Capsi/crates/capsi-core/src/crypto/session.rs, on
--   sixteen words of 64 bits. The left shift is cut to 64 bits.
-- In Crypto.Handshake and Crypto.Session: the handshake, the key schedule and the channel of the
--   same file, over `Primitives`. `open` is open_frame. What is assumed of the cryptography stands in
--   IsHex, IsDocumented and IsSealing; secrecy is not stated.
--
-- Bounds: counters, sizes and clocks are natural numbers or integers without an upper bound, except
-- where the code relies on a width: the words of the replay window, the 32 bits of `attempts`, the
-- 64 bits of the frame counter and those of the age of a beacon, which wrap around as in a release
-- build. The receiver's loop takes as many reads as there are frames and
-- one for the end. The wait for the receipt of an offer has 301 rounds of fuel, one for each sleep
-- of 100 ms until the deadline of 30 s and the last; every other loop runs over a list or a count.
--
-- Not modelled: JSON and sockets, the key file and the trust file's format, the user interface, the
-- timers of discovery and transport, and the table of sessions of the native bridge.
pub mod Base
pub mod Crypto
pub mod Discovery
pub mod Identity
pub mod Native
pub mod Protocol
pub mod Storage
pub mod Util
pub mod Workplace

-- ===== src/Lib.antt =====
-- A model of enkit's own logic, in Go, and the theorems that make it correct.
--
-- Flextape is flextape/service, the license server. Queue (queue.go) is the queue of one
-- license, Prioritizer (prioritizer.go) decides its order, License (license.go) joins both with
-- the allocations, and Service (service.go) has the gRPC handlers, the janitor and the adoption
-- period. Messages holds the protocol messages that they read. A method of the source is the
-- function of its name: `enqueue`, `promote`, `expire_queued`, and so on; it takes the state and
-- returns the new one. The children of each module prove what it keeps: Queue/Numbering,
-- Queue/Sorting, Queue/Totals, Queue/Span and Queue/Least, Prioritizer/Counts and
-- Prioritizer/Requests, License/Books (the invariant), License/Keeping, License/Promotion,
-- License/Expiry, License/Requests and License/Priority, Service/Touch,
-- Service/Books, Service/Calls, Service/Runs, Service/Cleaning and Service/Answers.
--
-- Allocation is allocation_manager/service, the service that gives the hosts of a topology to
-- those who wait. Store has its state: an invocation is a cell behind a pointer, since units and
-- the queue share it, and a unit belongs to its name. Units (unit.go), Queue (queue.go),
-- Matching (Matchmaker and Promote) and Service (service.go) have the operations; a loop over a
-- Go map takes the order of the names. The children of Matching are about what Promote leaves
-- (Progress, Origin, Next), what it gives to those it takes from the queue (Whole), and who
-- still waits (Settled). Those of Service have the loops that take units away (Sweep, Janitor,
-- Release), the loop of Refresh (Rounds, Renewal, Refresh), positions (Queueing), and runs from
-- New on (Made, Runs).
--
-- Nasshp is proxy/nasshp/window.go, the buffers that survive a reconnection of the SSH proxy.
-- Absolute has ToAbsolute, Buffer and Send the SendWindow, with a blist as the list of its
-- buffers; the children of Send are View (what a window keeps and has still to send, as byte
-- strings) and a module each for filling, emptying, acknowledging, and rewinding after a
-- reconnection. Runs has any sequence of these, against the stream of bytes that were filled.
-- Receive has Reset, ToFill and Fill of the ReceiveWindow, and Receive/Resending what they do
-- with bytes sent again.
--
-- Retry is lib/retry/retry.go, with New of lib/multierror: Attempts has how RunAttempt ends,
-- Delays how long it waits. The world that the operation and the clock change is passed on as a
-- state.
--
-- Config is lib/config, the stores of configuration values. KeyCodec (key_codec.go), ListOptions
-- (list_options.go) and Path (path.go) are the keys, the cuts of a listing and the paths; Loader
-- has the interfaces of store.go as records: a Loader over a world that it changes, a KeyCodec,
-- and a FileMarshaller, which stands for the libraries that encode values. Memory
-- (memory/memory.go) is one loader, and Simple (simple.go) and Multi (multi.go) are the stores
-- over any loader. The children of each have its theorems. Text has what these files use of Go's
-- strings, path and sort; a string is the list of its bytes, and a condition AreBytes says that
-- they are below 256.
--
-- Token is lib/token, encoders of binary tokens as a record of two functions: Chain (token.go)
-- has encoders in sequence, Associated those that bind data they do not carry, Time (time.go)
-- those that add a time, MultiKey (multi.go) the one for several keys. Ciphers are encoders that
-- are given, and the varints of Go's encoding/binary are a record with its laws. The children of
-- each have its theorems; MultiKey/Encoding and MultiKey/Holders are the lemmas for
-- MultiKey/Roundtrip.
--
-- Blob is lib/config/blob/url_codec.go, how a key and its parameters stand in a URL. Params has
-- the parameters as entries of a token, Codec the codecs, over the encoders of Token, with JSON
-- as a marshaller that is given; url.Values is an association list of different names.
-- Codec/Laws is about what each codec gives back, and Codec/Chain about a chain of them.
-- Token/Typed is the encoder of typed values that they use.
--
-- A handler holds the service's mutex throughout, so an interleaving of calls is a list of
-- events. Times are natural numbers, read from a clock that is an argument of the call; ids that
-- the server makes are arguments too. Integers of Go's uint64 and uint32 wrap, and so do the
-- durations of lib/retry, which are the bit patterns of an int64. Invocations are
-- values in the container that holds them: the invariant that an id stands in a license at most
-- once is what lets a value stand for Go's pointer. Go maps that are iterated or measured are
-- association lists, and maps of counters are functions with default 0.
--
-- The loop of Promote recurs on the number of free licenses, and the other loops on the list
-- that they go through, so no fuel is needed. RunAttempt, which may be unlimited, has fuel: one
-- more than the number of attempts is enough. So has the binary search: as many rounds as the
-- listing has entries are enough, since each halves what is left; the loop of MultiKey over the
-- keys of a message has as many rounds as the message has bytes. Runs are shorter than 2^31
-- events, so that neither queue lengths nor QueueIDs wrap.
--
-- Not modelled: the Prometheus metrics, which are only written; GetStats, LicensesStatus and Status,
-- which only read; ToEmpty and Empty of the ReceiveWindow, the pool of buffers and the pointers
-- of a blist; the callbacks of a configuration listing, namespaces and
-- workspaces, white space that is not ASCII, and negative offsets, at which Go panics; and the
-- rest of the repository (see the components of the manifest).
pub mod Common
pub mod Flextape
pub mod Nasshp
pub mod Retry
pub mod Config
pub mod Token
pub mod Allocation
pub mod Blob

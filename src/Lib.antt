-- ===== src/Lib.antt =====
-- The server of the XPRC plugin for X-Plane: the parts of it that hold its own logic.
--
-- Bytes of a client are cut into lines, and bytes for it wait in a ring buffer (src/network.c). The
-- lines are first those of a handshake and then requests (src/server.c), and the answers are messages
-- on the channels of its session (src/session.c). A request names a channel, a command, options and
-- parameters (src/requests.c); its channel is registered in the session's table of channels
-- (src/channels.c), and what it configures is a table of feature flags (src/command.c) in a hash map
-- (src/hashmap.c). Calls that have to be made from X-Plane's flight loop wait in a queue (src/xpqueue.c). The settings with
-- their files and the password are those of src/settings.c and src/password.c. Strings, numbers, dates,
-- growing arrays, linked lists, files of lines and the names of data types are handled by src/utils.c,
-- src/arrays.c, src/lists.c, src/fileio.c and src/protocol.c, on which the others stand.
--
-- Files. Each component has a file with its definitions, and the files below it prove about them; the
-- file `Tests` below each runs the code and applies its theorems at concrete inputs. A definition has
-- the name of the C function it translates, and helpers stand beside it for its loops and branches.
--   Common    Booleans, lists, signed integers, bits, and `Run`, the outcome of code that may fault
--   Channels  src/channels.c; RoundTrip: IDs and names; Table: the table as a map from IDs to
--             channels; Bounds: which names stay inside the table
--   HashMap   src/hashmap.c; Hash: the hash; Laws: the table as a map; Keys: walks over the table
--   Text      the strings and numbers of src/utils.c; Search, Numbers, Escapes
--   Dates     the dates of src/utils.c; Laws: the calendar; Iso: the written form
--   Password  src/password.c; Rules
--   Requests  src/requests.c; Parameters, Options, RoundTrip: the parser; Lookup: the accessors
--   Settings  src/settings.c; Serialize: the text form; Validation; Files and Loading: loading and
--             saving; Storing: over the files of src/fileio.c
--   Command   src/command.c; Features: the configuration as a map from names to states
--   Arrays    src/arrays.c; Items: growing; Copying: writing and copying items
--   XpQueue   src/xpqueue.c; Delivery: sequences of calls by threads
--   FileIo    src/fileio.c; Lines: splitting and joining; Segments: reading and writing files
--   Lists     src/lists.c, the linked list on a heap; Chains: what lies on the heap; Sequences and
--             Deletion: operations as those of sequences
--   Protocol  src/protocol.c, the names of types; Types
--   Errors    the error codes of src/errors.h, src/network.h and src/session.h
--   Network   src/network.c; Sending: the ring buffer as a queue of bytes, Sending/Fifo: any order of
--             the threads' turns; Receiving: chunks and lines
--   Session   src/session.c; Encoding: lines as a client reads them; Protocol: the life-cycle of a
--             channel; Operations: the four kinds of messages, in any order
--   Factory   src/commands.c; Laws: what the server relies on of commands, from what each of them does
--   Srid      src/command_srid.c, one of the commands; Messages: starting it
--   Server    src/server.c; Handshake: who is logged in; Login: that the right lines are enough;
--             Handling: command requests; Locks: the two mutexes
--
-- Conventions. A C string is the list of its bytes without the zero at its end, and reading past the
-- list gives that zero. An access outside an object, or an overflow of a signed integer, is the result
-- `fault`; unsigned arithmetic is written with its remainder. Objects are passed and returned; checks
-- of the objects themselves for NULL are left out, since they are taken to be there, while a string or
-- a value that may be NULL is an option. Whether memory was allocated is a Boolean argument where a
-- result depends on it, and taken to succeed in the parsers. What the operating system, the random
-- number generator and the mutex answer are arguments as well; logging is left out, and so is
-- freeing except of the items of a linked list.
--
-- Loops that C bounds by a length recurse over the list, or over the number of rounds left, which the
-- definitions set to the length of what is walked, so no round is missing; the digits of a number are
-- counted with one round more than the number, which it never needs. The loop that generates passwords
-- recurses over the results of the generator that it is given.
--
-- Not modelled: the preallocated lists of src/lists.c and the task schedule over them, sorting of lists,
-- the protocol's values and arrays, the life of sessions and of the server as a whole, the data proxy
-- and the handlers of the commands but SRID, which are the next parts to add; and sockets, the system's files, logging,
-- threads, licences, the user interface and the entry points of the plugin, which are calls of the
-- operating system and of X-Plane.
pub mod Common
pub mod Channels
pub mod Errors
pub mod HashMap
pub mod Text
pub mod Dates
pub mod Password
pub mod Requests
pub mod Settings
pub mod Command
pub mod Arrays
pub mod XpQueue
pub mod Network
pub mod Factory
pub mod Srid
pub mod FileIo
pub mod Lists
pub mod Protocol
pub mod Session
pub mod Server

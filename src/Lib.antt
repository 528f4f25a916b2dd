-- ===== src/Lib.antt =====
-- SofaDB, a document database over a key-value store: a model of its library, libsofadb, and
-- what is proved of it.
--
-- A document is stored under two kinds of keys. The revision log of a document, a JSON value, is
-- stored under the document's path; each revision's body under the path with the revision's text
-- behind it. Database::put reads the log, compares its last entry with the revision that the
-- caller names, writes the body, extends the log or has the conflict resolver merge into it, and
-- writes the log. Database::get reads the log to find the last revision, and reads that body.
-- Both go through the JSON reader and writer.
--
--   Prelude      the library's names, Boolean tests, lists and signed numbers
--   Text         jstring_t (libsofadb/common.h), and the number parsing of the C library
--   Failure      result_code_t, sofa_exception, err, die (libsofadb/errors.h, errors.cpp)
--   Json         Value, Access, Containers: json_value (libsofadb/native_json.h); Cell: the same in
--                memory, a discriminator and a storage for objects; Bignum:
--                bignum_t and normalize_int; Compare: do_operation; Events: rapid_json_printer;
--                Reading: rapid_read_handler; Text: string_to_json, json_to_string and
--                str_json_stream; Input: json_from_stream (libsofadb/native_json.cpp,
--                json_stream.h)
--   Streams      StringWriteStream, BufReadStream and, in Input, StdStreamReadStream over a
--                std::istream (libsofadb/native_json_helpers.h)
--   Revision     revision_num_t (libsofadb/database.h, database.cpp)
--   Revlog       revlog_wrapper (libsofadb/database.h); View: what a log says, apart from JSON
--   Conflict     resolver (libsofadb/conflict.h, conflict.cpp); Spec: merging as sets
--   Storage      storage_t (libsofadb/storage_interface.h), and a storage in memory
--   Database     Database (libsofadb/database.h, database.cpp); Put, Get: its two operations
--   Concurrent   puts of several threads, Database::put step by step between its calls of the
--                storage, as the threads of main run it (server/server_main.cpp)
--   Engine       DbEngine and db_storage_t (libsofadb/engine.h, engine.cpp); Life: the engine from
--                its constructor to its destructor
--   Server       the socket's strings (server/server_common.cpp); Commands, Session: the commands
--                and the loop of a session (server/server_main.cpp)
--   Tools        loadtags, dumpldb and benchcouch (tools/loadtags.cpp, dumpldb.cpp, benchcouch.cpp)
--   Utils        libsofadb/binary_stream.hpp and vector_map.h, which no other file includes
--   Externals    the libraries that the code calls, and their documented behaviour
--   Tests        concrete inputs, and libraries that meet what is supposed of them
--
-- State is passed explicitly: a storage is a record of operations with a type of states, and a put
-- takes a state and returns one. Exceptions, failed assertions and steps that C++ leaves undefined
-- are values of Failure.Result. A text is a list of bytes. A double is its bit pattern. A char is
-- signed. A moved-from text or container is empty. A pointer into a JSON value is the value itself,
-- and the reader's stack of pointers settles a value in its parent when the pointer is dropped. The
-- spare capacity of the log's vector, which decides whether an append moves it, is a parameter of
-- merge. Decimal printing takes as much fuel as the number and one more, and each step divides by
-- ten, so that it is enough. A session's loop takes as much fuel as bytes come on its socket and
-- one more, and each command takes bytes. loadtags takes as much fuel as bytes stand in its file
-- and one more, and each round reads one. dumpldb takes a unit for each pair and one more.
-- benchcouch takes as much for its batches as bytes stand in its file and one more, and a batch
-- that is full has read some. No other function takes fuel.
--
-- Boost.Karma's printing of an int, MD5, RapidJSON's reader and writer (libsofadb/rapidjson is a
-- copy of that library) and the conversion of doubles are parameters. Theorems suppose that an
-- int below 2 ^ 31 is printed in decimal, that a digest is sixteen bytes, and that the reader
-- reports what the writer was told of an object or an array, on a stream too, where it stops at
-- what follows, if that is no white space. LevelDB's Get and Put are
-- parameters of the engine (Engine.Store.IsDocumented), and so are opening, closing and destroying
-- its files (Engine.Life.IsPersistent).
--
-- Threads are told apart by numbers, and a schedule is a list of them. A step of a put ends at a
-- call of the storage, which is where another thread can see it: its local variables are the phase
-- that the thread is in. A write that throws leaves the storage as it was, and the writes before it
-- stay. A put has three steps at most.
--
-- Not modelled: gets and other commands that are interrupted, the flags and the socket of the
-- server's main, the client (server), snapshots, batches, attachments, the deleters of grafts, and
-- logging. A pretty writer's text is a parameter of which nothing is supposed.
pub mod Prelude
pub mod Text
pub mod Failure
pub mod Json
pub mod Externals
pub mod Streams
pub mod Revision
pub mod Revlog
pub mod Conflict
pub mod Storage
pub mod Database
pub mod Engine
pub mod Server
pub mod Utils
pub mod Concurrent
pub mod Tools
pub mod Tests

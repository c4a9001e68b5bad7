-- ===== src/Lib.antt =====
-- The database drivers of rbdc: their protocols, buffers and tables.
--
-- The program has a common library (src/), which reads and writes buffers and streams, and one
-- driver for each database. The drivers for MySQL (rbdc-mysql/) and PostgreSQL (rbdc-pg/) speak the
-- protocols of their servers themselves; those for SQLite and SQL Server call other libraries. A
-- driver writes its packets into the write buffer of a stream and flushes it, and reads packets from
-- the stream, which it decodes with the reads of the buffers.
--
-- Base has the numbers, lists and outcomes that all parts share. A result is a value, an error or a
-- panic. A byte is a number below 256, and a text is the list of its UTF-8 bytes, or of its
-- characters in the password file. An integer of the program keeps its width: where it wraps, the
-- model takes the remainder.
--
-- Crates holds the operations of the third-party crates bytes, byteorder, memchr and bitflags as a
-- parameter of the model, with what their documentation says of them as a hypothesis. The reference
-- functions show that it can be met.
--
--   Io             src/io/buf.rs, src/io/buf_mut.rs: get_bytes_nul, get_bytes, get_str_nul, get_str and
--                  put_str_nul; a read takes the buffer and returns what is left of it
--   Io.Stream      src/io/buf_stream.rs, src/io/write_and_flush.rs: BufStream with its two buffers, read_raw,
--                  write_with and flush; the socket is the list of what it delivers and what it accepts
--   Mysql.Lenenc   rbdc-mysql/src/io: length-encoded integers, texts and bytes
--   Mysql.Packet   rbdc-mysql/src/protocol/packet.rs: a payload as packets with headers
--   Mysql.Response, Mysql.Status, Mysql.Capabilities
--                  rbdc-mysql/src/protocol/response, rbdc-mysql/src/protocol/capabilities.rs: OK, EOF and
--                  ERR packets and the flags
--   Mysql.Connect  rbdc-mysql/src/protocol/connect, rbdc-mysql/src/protocol/auth.rs: the first packets of a
--                  connection
--   Mysql.Column   rbdc-mysql/src/protocol/text/column.rs: the types of columns and their definitions
--   Mysql.Statement
--                  rbdc-mysql/src/stmt.rs, rbdc-mysql/src/result_set.rs, rbdc-mysql/src/protocol/statement and the
--                  commands of rbdc-mysql/src/protocol/text: the arguments of a statement with their null
--                  bitmap; a value is given by what its traits TypeInfo and Encode say of it
--   Mysql.BinaryRow
--                  rbdc-mysql/src/protocol/statement/row.rs: a row of the binary protocol
--   Mysql.Row      rbdc-mysql/src/protocol/row.rs, rbdc-mysql/src/protocol/text/row.rs: a row's values as ranges of
--                  its buffer
--   Mysql.Stream   rbdc-mysql/src/connection/stream.rs: the methods of MySqlStream as actions on its state
--   Mysql.Connection
--                  rbdc-mysql/src/connection/mod.rs: the closing of the cached statements, by the cache and the
--                  stream; the removals from a cache of n statements have fuel n + 1
--   Mysql.Collation
--                  rbdc-mysql/src/collation.rs: the tables of character sets and collations
--   Cache          src/common/statement_cache.rs: the cache of prepared statements over the crate lru, whose
--                  operations are a parameter with their documented behaviour
--   Postgres.Message
--                  rbdc-pg/src/message: the formats of messages and those of the server; DataRow, Notice
--                  and Frontend have the rows, the fields of errors and the messages of the driver
--   Postgres.Stream
--                  rbdc-pg/src/connection/stream.rs: the messages of a connection, as actions on its state
--   Postgres.Io    rbdc-pg/src/io/buf_mut.rs: length-prefixed messages and the names of statements
--   Postgres.TypeInfo
--                  rbdc-pg/src/type_info.rs: the tables of types, and their comparison
--   Postgres.Pgpass
--                  rbdc-pg/src/options/pgpass.rs: the password file
--
-- The loop of recv_packet over the parts of a large payload has fuel: two more than the bytes that the
-- socket can still deliver, and every part takes at least the four bytes of its header, as every round
-- of wait_until_ready does, whose fuel is one more than these bytes, as is that of PostgreSQL's recv, whose rounds take at least a
-- header of five bytes. The loop over the fields of a notice has the length of the notice as its fuel: a
-- field has at least two bytes, as long as the offsets of 16 bits do not wrap. The digits of a port have fuel five.
--
-- Not modelled: sockets and TLS, the calls of the libraries of SQLite and SQL Server, the conversion
-- of values, the hashes of passwords and SASL, the pools, and the executors.
pub mod Base
pub mod Cache
pub mod Crates
pub mod Io
pub mod Mysql
pub mod Postgres

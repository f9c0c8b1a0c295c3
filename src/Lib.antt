-- ===== src/Lib.antt =====
-- cpp-pcp-client, the client library of the PCP protocol: an agent keeps a WebSocket connection to
-- a message broker, associates with it and exchanges messages whose JSON content is validated.
--
-- The parts of the program, from the bottom up, and the files here:
-- * V1/Serialization (lib/inc/cpp-pcp-client/protocol/v1/serialization.hpp and the .cc beside it
--   under lib/src) writes strings and integers into a buffer and reads them back. A buffer is a
--   list of bytes; an iterator is the list from there on. What depends on the machine, the byte
--   order, the width of size_t and the most bytes that a vector holds, is a `Host`.
-- * V1/Chunks and V1/Message (lib/src/protocol/v1/chunks.cc and message.cc) are the binary message
--   of version 1: a version, an envelope chunk, an optional data chunk and debug chunks. V1/Parser
--   is `parseMessage`: its loop takes one unit of fuel for each byte, and every round takes at
--   least five bytes, so that it never runs out. V1/Parser/Format states the format on its own.
-- * Validator/Schema and Validator/Registry (lib/src/validator/schema.cc and validator.cc) are the
--   JSON schemas and the registry of schemas. The valijson library under them is the parameter
--   Validator/Valijson, with what it documents of its constraints; Validator/Documents is an
--   instance of it. V1/Schemas and V2/Schemas are the schemas of the protocol.
-- * ParsedChunks (lib/src/protocol/parsed_chunks.cc), V1/Content (`getParsedChunks` of version 1)
--   and V2/Message (lib/src/protocol/v2/message.cc) turn a message into validated documents, by a
--   JsonContainer, which is a parameter, too; Documents is an instance of it.
-- * Connector/Timings (lib/src/connector/timings.cc) are the instants of a connection and of a
--   session; Connector/Durations are their differences, cut to a unit and stored in an int.
-- * Connector/Connection (lib/src/connector/connection.cc) is the connection: its state, the
--   handlers of the events and the choice of the broker. Connector/Connection/Connect is `connect`.
--   The event loop's thread is a list of events, cut into the rounds of the loop of `connect`; what
--   websocketpp answers, the clock and the drawn numbers are in the rounds as well. A run over a
--   list of rounds says `still_trying` where they are used up: with a limit of n attempts, n rounds
--   are enough.
-- * Connector/Connection/Sending and Connector/Connection/Tls are what the connection hands to
--   websocketpp and how it sets up TLS. Connector/ClientMetadata (lib/src/connector/client_metadata.cc)
--   is the identity of a client. websocketpp, asio and OpenSSL are parameters.
-- * Connector/Base and Connector/Monitor (lib/src/connector/connector_base.cc) are what both
--   connectors share: the registration of callbacks by schema, `connect`, and the task that watches
--   the connection. A pass of its loop is a `Tick`, with what `connect` and `ping` throw.
-- * JsonWriter is the making of documents, by leatherman's JsonContainer, which is a parameter.
-- * V1/Connector (lib/src/connector/v1/connector.cc) is the connector of version 1, with
--   V1/Connector/Sending for outgoing messages, V1/Connector/Dispatch for incoming ones and
--   V1/Connector/Connect for `connect`. The event loop's thread is there a list of events of the
--   session. V1/Association (lib/src/connector/v1/session_association.cc and the callbacks of the
--   connector) is the session alone: what each kind of message does to it, and how `connect` ends
--   by it.
-- * V2/Connector and V2/Connector/Dispatch (lib/src/connector/v2/connector.cc) are the connector of
--   version 2.
--
-- C++ exceptions are values of `Result`. Undefined behaviour that the code could run into, reads
-- and writes outside a buffer, and failed asserts are faults, which are values as well. Integers
-- are natural numbers, with the wrap-around of uint32_t and size_t written out.
--
-- Not modelled: the callbacks of the client, of which only the calls and whether they throw are
-- known; the start of websocketpp's event loop; the adapter of valijson for rapidjson
-- (lib/inc/cpp-pcp-client/valijson), which is a copy of that project's; the log, locks, the threads'
-- interleavings but for the lists of events above, and the text of the messages in exceptions.
pub mod Base
pub mod V1
pub mod V2
pub mod Connector
pub mod Validator
pub mod ParsedChunks
pub mod Documents
pub mod JsonWriter

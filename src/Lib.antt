-- ===== src/Lib.antt =====
-- farseer: a verification of the C++ client-server socket library.
--
-- A protocol file defines messages, and requests with their responses. A generator turns it into C++
-- classes whose nested Metadata serializes them bit by bit behind a header: a 32-bit identifier, for
-- requests and responses a 64-bit sequence number, and the size in bits where it is not static. The
-- classes register themselves in a registry by identifier. A socket appends the bytes it receives to
-- its inbound buffer and calls a protocol reader, which looks each identifier up in the registry,
-- deserializes the protocol and hands it to the consumer that the user registered; the answer to a
-- request is serialized into an outbound buffer that the socket sends.
--
-- Paths below are from sources/main/dansandu/farseer/.
--
--   Base        names of the library passed on, tests on numbers, lists, association lists for
--               std::map, and Outcome for functions that may throw one of the classes of exception.hpp
--   Expected    expected.hpp: Expected<T> as the data type `value` or `error`
--   Definition  internal/protocol_definition.hpp and .cpp: Definition.Hash and Definition.Text are the
--               hash codes and the texts
--   Validation  internal/protocol_validation.cpp: check_queue is the loop over the queue of a field
--   Parsing     internal/protocol_definition_parsing.cpp: Parsing holds the local variables of the
--               loop; Parsing.Syntax has the trees of the grammar and what they stand for
--   Wire        binary_serialization.hpp. Wire.Bits and Wire.Buffer are the bits of numbers and the
--               packing of bits in bytes; Wire.Ballotin is what is called of the ballotin library,
--               as a record of operations with laws, and an implementation by lists of bits;
--               Wire.Ordered is std::map with its order; Wire.Serializer has each BinarySerializer;
--               Wire.Codec has the encodings in bits, and that each serializer writes and reads them
--   Generated   the functions that internal/cpp_protocol.cpp writes for a protocol: Generated.Message,
--               Generated.Request and Generated.Response (serializeWithHeader and
--               tryDeserializeWithHeader), Generated.Payload (the functions without a header, by the fields
--               of a class, and the Metadata made of its definition), Generated.Callback
--               (invokeCallback), Generated.Registration (what is registered); Generated.Framing
--               relates both directions to one layout of bits
--   Registry    protocol_registry.hpp and .cpp
--   Reader      internal/protocol_reader.hpp and .cpp: the state is ProtocolReader with the outbound
--               bytes and a log of events in ReadState, the loop of readInboundBytes is read_loop.
--               Reader.Frames cuts a stream of bytes in frames, Reader.Stream and Reader.Chunks read
--               one, Reader.Generated shows that what the generated functions write are frames
--   Sockets     internal/linux/linux_socket.hpp and .cpp: the outgoing buffer of sendBytes and the loop
--               of receiveBytes, with the answers of ::send and ::recv as arguments; Sockets.Opening has
--               listen, connect and accept;
--               Sockets.Transport goes from one socket to the consumers behind the other
--   Tasks       internal/linux/task_queue.hpp and .cpp, and the consumption of tasks by the event thread
--               in internal/linux/linux_socket_provider_implementation.cpp; Tasks.Order is about any
--               interleaving of the threads, each operation on the queue being one step
--   Sequencer   internal/sequencer.hpp
--   Containers  internal/linux/socket_container.hpp and .cpp: the state of SocketContainer with
--               insertSocket and eraseSocket; Containers.Operations has what tasks call,
--               Containers.Handlers the handlers of events, with the answers of system calls and
--               callbacks to one event as an Environment. The calls of callbacks are logged in the
--               container. Containers.Moves is what a container may go through, Containers.Refines
--               that the handlers do no more
--   Provider    the tasks of internal/linux/*_task.cpp, internal/linux/linux_socket_provider_implementation.cpp,
--               socket_provider.hpp and .cpp; Provider.System has the threads as a step relation, in
--               which the execution of the waiting tasks is one step and the events of one file
--               descriptor are another
--   Scheduler   internal/windows/operation_scheduler.cpp: the word state_, the completion port, and who
--               holds which operation; Scheduler.Handling is what one operation does, Scheduler.Steps
--               the threads as a step relation, in which the calls of users, the posting of packets,
--               the completion of I/O and each entry of the consumer are steps of their own. What
--               operations do is any function
--   Samples     a small protocol file and concrete runs
--
-- A byte, a char and an unsigned integer is a natural number below its bound; a signed integer is an
-- integer with its two's complement written out; a vector, a string and a buffer is a list. An
-- in-out parameter is an argument and a result. A std::any is a value of a type `Any`, with a
-- conversion from each class and a cast back that may fail. The fuel of read_loop is one more than the
-- number of bytes: a round moves the offset by four bytes at least. The fuel of check_queue is the
-- number of type definitions in a field.
--
-- The ballotin library, the glyph parser and the hash functions are parameters: `Ballotin` with its laws
-- `IsBallotin`, a function from the text to nodes, and `Hashing`.
--
-- Not modelled: the sockets and operations of Windows, the destructors that close file descriptors, the polling of
-- events, an accepted socket that shares its identifiers with a thread while one event is handled, the
-- text of the generated C++, the command line of the generator, allocation failures, what consumers do
-- beside their result, the texts of log entries and exceptions, and what is left in a buffer behind an
-- exception that makes the caller drop it.
pub mod Base
pub mod Expected
pub mod Definition
pub mod Validation
pub mod Parsing
pub mod Wire
pub mod Generated
pub mod Registry
pub mod Reader
pub mod Sockets
pub mod Tasks
pub mod Sequencer
pub mod Containers
pub mod Provider
pub mod Scheduler
pub mod Samples

-- ===== src/Lib.antt =====
-- A verification library for the PIPE, a framework that connects processes by pipes into a graph.
--
-- The parts of the program and the files that model them:
--
-- src/utils: Utils. FlatSet is flat_set over an unsigned type; Segments is trim and
--   for_each_disjoint_segment, whose calls of `func` are a list; StructInfo is
--   compute_struct_info; Random is utils.cpp. A w-bit unsigned type is given by its modulus, and sums
--   wrap at it.
-- src/log: Log. The global configuration is a record of a writer and a clock that act on a world;
--   a context stores the configuration that it replaces and puts it back. Log.Nesting has scripts of
--   nested contexts of one thread; Log.Captured has writers and clocks that are captured by reference, as
--   parts of the world; Log.Threads has several threads that share the mutex, whose steps come
--   in any order.
-- src/json_log: JsonLog. Converter is item_converter.hpp, Reader is reader.hpp and reader.cpp
--   (parse_buffer and reader::handle_event), with the class and its receiver in Reader.Receiver, and
--   Readers has several of them that share a receiver. Writer is writer.hpp and writer.cpp, with the
--   class in Writer.Channel. Delivery has writer and reader at the two ends of a pipe, Delivery.Partial
--   where the writer is broken off, and Delivery.Several with several pipes.
-- src/client_ctl: ClientCtl. StartupConfig is startup_config.hpp, ApplicationInfo is
--   client_application_info.hpp: the conversions to JSON objects and from them.
-- src/client: Client, the main function from the command line to the exit code, over the conversions
--   of ClientCtl and the contexts of Log. Client.Logged has it with the writer and the clock that it
--   makes, and Client.Received a reader at the other end of the standard error stream.
-- src/os_services: OsServices. Fd.Activity has the activity status and the handler ids of fd,
--   Fd.Descriptor the references to descriptors with their conversions and their owners, Fd.Opened
--   what closing does to the list of open descriptors, and Fd.Monitor activity_monitor. Io is
--   do_while_eintr, io_result, and read and write. IoMultiplexer is the epoll instance; its Invariant
--   says that the pointers in the kernel belong to listeners, Loop is the loop over events, Pending,
--   Transaction, Added and Chain are about config_transaction, and Lifetime is about the constructor
--   and the destructor. Ipc has the sockets, with the descriptors that are open, and abstract
--   addresses; Ipc.Pipe and Ipc.SocketPair are pipe.hpp, socket_pair.hpp and eventfd.hpp. ProcMgmt
--   has spawn: the child up to execve, which uses the segments of utils to mark what is not
--   forwarded, in Parent the parent with the descriptors that it leaves open, in Handshake the steps
--   of both behind fork, in any order, as a relation, where the calls on the event descriptor and the
--   child's write to the pipe succeed, and in Inherited what the calls of the child do to the
--   descriptors, over the interface FileTable. ProcMgmt.Process is kill, wait and the class process.
-- src/host: Host, the handler of the server socket in server.hpp with the clients that it keeps, and
--   Host.Load, which is client_process_repository::load: a pipe, a socket pair, spawn and a transaction,
--   one behind the other, and in Load.Clients the client's main function on what load has passed on,
--   and in Load.Delivery the log of that client at the other end of the pipe.
--   Host.Handlers has the handlers that load adds, and client_process.hpp.
--
-- The JSON library is third-party code. It is the interface Jopp (values, objects and their fields),
-- Parser (JsonLog.Reader: a parser that can be fed piece by piece) and Serializer (JsonLog.Writer).
-- Jopp.Sample, JsonLog.Reader.Toy and JsonLog.Writer.Fixed have instances, which show that the laws
-- of the interfaces can hold. Numbers in JSON are doubles; their conversions to ints and to clock ticks are
-- the parameters Doubles and Seconds; Texts (Client) has the texts of objects and of exceptions. The
-- kernel behind epoll is the interface Kernel: the interest list, what each call does to it, and which
-- descriptors are those of processes that their deleter can not signal and therefore leaves open;
-- OsServices.IoMultiplexer.Table has an instance. OsServices.ProcMgmt.Inherited.Table has one of
-- FileTable. The kernel behind pidfds is the interface Processes,
-- and a distribution of random numbers is UniformIntDistribution.
--
-- The kernel's other answers (read, write, fstat, socket, bind, dup2 and so on) are arguments. The
-- loop of parse_buffer takes fuel for one round more than it has bytes, which is enough since a
-- completed value takes at least one byte; the writer's loop likewise, unless its buffer size is 0.
--
-- Not modelled: unwrap, an adapter for references; the length of random strings in floating point; the
-- texts made by std::format; the calls of __gcov_dump in builds that have it.
pub mod Base
pub mod Jopp
pub mod Utils
pub mod OsServices
pub mod Log
pub mod JsonLog
pub mod ClientCtl
pub mod Client
pub mod Host

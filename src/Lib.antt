-- ===== src/Lib.antt =====
-- virtsock: Go bindings for Hyper-V sockets (pkg/hvsock) and virtio sockets (pkg/vsock), a stress test
-- of them (cmd/sock_stress) and a daemon that forwards ports and syslog datagrams (cmd/vsudd).
--
-- The parts, and the files that model them.
--   pkg/hvsock/hvsock.go           Hvsock/Guid: a GUID is the list of its bytes; `from_string` and
--                                  `string` are GUIDFromString and String, over the verbs of package
--                                  fmt that they use (Fmt). Hvsock/Addr: Addr, and the copies of GUIDs
--                                  into and out of a sockaddr_hv.
--   pkg/hvsock/hvsock_linux.go     Hvsock/Linux: Supported, Dial, Listen, Accept, half closes, File.
--                                  Hvsock/Write: the batching loop of Write, over the write of a batch.
--   pkg/hvsock/hvsock_windows.go   Hvsock/Windows/Close: prepareIo, close and the life of an operation,
--                                  as atomic steps of any number of threads. Hvsock/Windows/Io: what
--                                  asyncIo, Read and write make of the system's answers.
--                                  Hvsock/Windows/Deadline: deadlineHandler.set against its timer.
--                                  Hvsock/Windows/SetDeadline: SetDeadline, which sets two of them.
--                                  Hvsock/Windows/Close/Phases: the contract of closing.
--                                  Hvsock/Windows/Completion: the completion port and its processor.
--                                  Hvsock/Windows/Life: closing, deadlines and completions together.
--                                  Hvsock/Windows/Ports: initIo, and the handles tied to its port.
--                                  Hvsock/Windows/Sockets: Dial, Listen, Accept, newHVsockConn.
--   pkg/hvsock/zsyscall_windows.go Hvsock/Windows/Calls: the wrappers of system calls.
--   pkg/vsock                      Vsock: Addr. Vsock/Linux: Dial, Listen, Accept, closeFD, the rest.
--                                  System/Listening and System/Methods: a listener that is opened, and
--                                  the methods of a connection in any order, for all packages.
--                                  Vsock/Hyperkit: SocketMode, Dial and Listen on macOS.
--   cmd/sock_stress                Stress/VsockAddr, HvsockAddr, NetAddr: addresses on the command
--                                  line. Stress/Clients: the numbers that clients get. Stress/Echo:
--                                  the batches of a transfer; Stress/Echo/ReadFull: readFull;
--                                  Stress/Echo/Client: the stream client with its bytes;
--                                  Stress/Echo/Server: its server. Stress/Dgram: the datagram test.
--                                  Stress/Socks: the kinds of sockets and
--                                  parseSockStr. Stress/Main: main and its flags.
--                                  Stress/OnLinux: the sequential clients and the server over the
--                                  packages as they are on Linux. Stress/Platforms: what serves a
--                                  socket on each platform, with the files main_darwin.go,
--                                  main_fallback.go, pkg/hvsock/hvsock_fallback.go (Hvsock/Fallback)
--                                  and pkg/vsock/fallback.go (Vsock/Fallback).
--   cmd/vsudd/main.go              Vsudd/Forwards: the values of -inport and their listeners.
--                                  Vsudd/Start: the loop that makes them.
--                                  Vsudd/OnLinux: the same over the packages as they are on Linux.
--                                  Vsudd/Accept: the accept loops and their counter.
--                                  Vsudd/Main: main as a whole, with the pid file and detaching.
--                                  Vsudd/Proxy: handleOneIn and its goroutine, as atomic steps.
--   cmd/vsudd/vsyslog.go           Vsudd/Syslog: rfc5425Write and forwardSyslogDatagram.
--                                  Vsudd/Syslog/Sessions: the sessions that a receiver sees.
--                                  Vsudd/Syslog/Handle: handleSyslogForward.
-- The commands call the bindings: sock_stress and vsudd parse a GUID or a number, ask
-- hvsock.Supported which of the two packages serves, and dial or listen with it.
--
-- What stands outside. A `Kernel` (System) answers each socket call by any function of the calls made
-- so far; an operation is a run over the history of calls, which it extends, and the open descriptors
-- are read off that history. A `Network` (Vsudd/Network) does the same for the connections that vsudd
-- dials. Random numbers, answers of writes, readers and deadlines are parameters in the same way.
-- Strings models ParseUint, SplitN, SplitHostPort, Contains and the decimal printing of the packages
-- strconv, net, strings and fmt, and Fmt the verbs %02x, %08x and the scanning of %02x, as documented
-- there. System/OsFile models Close and Fd of os.File.
--
-- Bounds and fuel. Numbers are natural numbers; uint32 values carry the bound 2 ^ 32 and the
-- counter of parallel clients wraps. The limits on the command line of sock_stress are taken not to
-- be negative. The retry loops on EINTR run on fuel: a kernel that interrupts at most n calls needs
-- n + 1 rounds. The loop of Write has one round for each byte, and so have the loops of the echo
-- client and readFull, which is enough as each round advances by a byte or more.
--
-- md5, io.Copy in the echo server, url.Parse, the resolvers of net and filepath.Join are parameters too.
--
-- Not modelled: log output, the wait group of vsudd, the parsing of flags, time measurement, the C
-- programs, WSAStartup, the methods that return a stored field, and those that only pass a call on
-- to os.File or syscall. What is left of the Go files beside these is declarations. Stress/Echo
-- leaves out the bytes that are sent, which Stress/Echo/Client has.
pub mod Common
pub mod Fmt
pub mod Strings
pub mod System
pub mod Hvsock
pub mod Vsock
pub mod Stress
pub mod Vsudd
pub mod Tests

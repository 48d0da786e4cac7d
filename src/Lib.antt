-- ===== src/Lib.antt =====
-- apib, a tool that measures HTTP servers: models of its parts, and theorems on them.
--
-- A run of apib starts a few threads (IOThread). Each thread owns connections (ConnectionState) and
-- an event loop of libev; each connection takes a URL of the list (URLInfo), opens a socket
-- (Socket or TLSSocket) to one of its addresses (Addresses), writes a request, with a signature if
-- asked to (apib_oauth), reads the response with http_parser, adds to the counters of the thread,
-- and goes on to the next request. The main program reads the options, starts the threads, sends
-- them commands (CommandQueue), and reports what their counters come to. The line buffer
-- (LineState) cuts files, those of /proc and what the remote monitor is sent into lines.
--
-- Files and code, as paths of the repository:
--   Lines       apib/apib_lines.h, apib/apib_lines.cc. A buffer is its whole allocation, so that
--               `none` is an access outside it. Lines/View, Next, Http and Tokens follow one call
--               of next or nextToken; Lines/Words, NextWord and Frame a line as the words
--               that nextToken gives; Lines/Stream and its children the loop of the clients.
--   Util        apib/apib_util.cc: eqcase.
--   Oauth       apib/apib_oauth.cc: the parameters, the base string, the header; the
--               encoding in Oauth/Percent, the key in Oauth/Key.
--   Status      apib/status.h, apib/status.cc.
--   Addresses   apib/addresses.h, apib/addresses.cc: addresses as bytes, and their rotation.
--   Url         apib/apib_url.h, apib/apib_url.cc: init, InitOne, InitFile, GetNext, IsSameServer.
--   Thread      apib/apib_commandqueue.cc, and of apib/apib_iothread.cc the commands, the counters
--               and the number of connections. Calls of libev are a list of effects.
--   Connection  ConnectionState in apib/apib_iothread.cc and apib/apib_io_basic.cc: the fields and
--               the text of a request in Connection, one function per callback and operation in
--               Connection/Events, the invariant between events in Connection/Phases, all the
--               events that libev may call in any order in Connection/Life, and those behind the
--               stop of the thread in Connection/Winding.
--   Socket      apib/socket.cc, apib/tlssocket.cc: results, and the descriptors that are closed.
--   Reporting   apib/apib_reporting.cc: the totals of a run; in Reporting/Results what ReportResults
--               makes of them, with Seconds and Milliseconds of apib/apib_time.cc; in
--               Reporting/Monitors the connection to one of the two remote monitors; in
--               Reporting/Samples RecordInit and what RecordStart, SampleCPU and RecordStop
--               measure, where Reporting has their totals.
--   Cpu         apib/apib_cpu.h, apib/apib_cpu_proc.cc: the number of processors, the ticks and the
--               memory that the files of /proc tell of.
--   Main        apib/apib_main.cc: the split of the connections, the waiting and the headers; in
--               Main/Options the options, in Main/Run the limits and the set-up of a thread, in
--               Main/Program main, which answers the list of the calls that a run makes.
--   Monitor     apib/apib_mon.cc: the commands of one connection of the remote monitor.
--   Prelude     shared tests, lists and texts; integers in Prelude/Int, and in Prelude/Doubles the
--               arithmetic on doubles, a record that the code is a function of, with what IEEE 754
--               says of it as the named laws of IsIeee.
--
-- The laws of IsIeee are those of any operation that rounds to the nearest of numbers of 53 bits: a
-- bound on the error of a quotient and of a product, the order that rounding keeps, and the cut of a
-- conversion to an integer. What the code computes with them is proved in Reporting/Results/Rounding.
-- The parser is http_parser as far as its documentation goes: it takes a byte at least of what it is
-- given, or reports an error (Connection.Reading.Consumes). A read gives no more bytes than the
-- buffer has room for (Connection.Reading.ReadsFit), and a write takes no more than it is given.
--
-- Numbers are natural numbers. A byte is a number below 256; the patterns of negative `int`s are
-- written out where the code makes them (Oauth.Percent.char_to_int, Lines.read_fd). The counts of
-- results are cut to 32 bits, and the sum of the average has to fit 64. Times do not go back. The calls of the system, of libev, of OpenSSL, of getaddrinfo and the copies of http_parser and
-- base64 in third_party are arguments: what they answer is a value, and what they are asked for is
-- an effect or a field. The records of the counters happen one at a time.
--
-- Fuel: each_line takes the number of unread bytes and one more, as each line takes a byte;
-- url_file_loop the bytes of the file and one more, as each read that goes on takes a byte;
-- command_loop the number of queued commands and one more; command_lines of the monitor the bytes
-- of its buffer and one more; count_loop of cpu_Count the bytes of the file and one more; count_lines,
-- ticks_loop, mem_loop and columns the bytes of the buffer and one more, as each line and each column
-- takes a byte; start_threads NumThreads; wait_loop the seconds and one more; hex and to_string write out
-- numbers of a machine's width.
--
-- Not modelled: what is printed, getopt_long, the listening socket of the monitor, the processors of
-- other systems than Linux, the clock, the random generator, and the start and the end of threads.
pub mod Prelude
pub mod Lines
pub mod Util
pub mod Oauth
pub mod Status
pub mod Addresses
pub mod Url
pub mod Thread
pub mod Connection
pub mod Cpu
pub mod Socket
pub mod Reporting
pub mod Main
pub mod Monitor

-- ===== src/Lib.antt =====
-- The native part of sysjs, a command line JavaScript program for servers: sockets, system
-- utilities and shared objects for scripts that SpiderMonkey runs, and the program's own command
-- line.
--
-- The parts, and the files that model them:
--   Socket.antt (src/js_socket.cpp) is the private data of a socket object, `sock_obj_t`, as the
--     record Sock, and what its methods share. Its children follow the methods:
--     Lifecycle: js_sock_construct, js_sock_destroy, js_sock_close, js_sock_getProperty
--     Connect: js_sock_connect, js_sock_bind, js_sock_accept
--     Options: js_sock_set_timeout, js_sock_setbaud, js_sock_wait_for_input
--     Send: js_sock_send
--     ReadBytes: js_sock_read_bytes
--     ReadLine: js_sock_read
--     WebSocket: js_sock_read_ws_packet, js_sock_write_ws_packet
--     Eaton: js_sock_read_eaton_packet
--     Poll: js_sock_poll
--   SysUtil.antt (src/js_sysutil.cpp) is the static functions of the class SysUtil, each of which
--     checks its arguments and makes one call of the system; Constants is _SysUtilDefineProps.
--   Dso.antt (src/jsdso.cpp) is the table of handles, JS_DSOLoad, JS_DSOUnload, and the two
--     methods.
--   Shell.antt (src/js.cpp) is the command line program. Its children are GetLine; Args, which is
--     ProcessArgs; Options, which is js_options, MapContextOptionNameToFlag, Options and Version;
--     Watchdog, which is ScheduleWatchdog, WatchdogMain, KillWatchdog, CancelExecution and the
--     loop of Sleep_fn, with the steps of the script's thread and of the watchdog's as a
--     relation; Scatter, which is Scatter with RunScatterThread and DoScatteredWork, its threads
--     as a relation of steps and what it takes and gives back around them (Setup) as a function;
--     Report, which is my_ErrorReporter; CountHeap, which is CountHeap and CountHeapNotify;
--     Interactive, which is the interactive part of Process; Split, which is the class
--     split_global with its hooks and split_setup; Natives, which is Print, Write, GCParameter,
--     MakeAbsolutePathname and Snarf; ReadLine; Scripts, which is the rest of Process, and Load;
--     Traps, which is GetTrapArgs and the functions that take a place in a script, without
--     theorems; and Environment, which is the hooks of the object environment.
--   Host.antt is what the native functions share: the engine's values and the ways in which a
--     native function ends. Prelude.antt passes on the library's names and the lemmas on lists,
--     numbers and blocks of bytes. The theorems stand in the modules below the code that they are
--     about, and Tests.antt runs them on small inputs.
--
-- A native function is a function from the engine's and the system's answers, the arguments and
-- the object's data to an Outcome: a value and the data after the call, an error and the data,
-- undefined behaviour (`fault`), or a call of the system that does not return (`blocked`).
--
-- What stands for code outside the repository is a parameter: the engine's conversions (Engine),
-- the answers of read(2), write(2), select(2), poll(2), getaddrinfo(3) and of the other calls
-- (Answer, Written, Attempt, Selected, System), the dynamic loader (Loader), and whether an
-- action that an option of the command line has on the engine succeeds (Env). The loops that read
-- the socket recurse on the list of answers, and with no answer left the call blocks. The
-- watchdog's times are those of a clock that does not wrap, of which the code sees the low 32
-- bits. GetLine's loop has one step for each byte of the file, and each round takes one at least.
-- CountHeap's loop has one step for each thing of the heap and one more, and an interactive
-- session one unit for each thing that is typed and one more. The engine's heap and what it
-- traces (Heap), which calls find memory (Memories), what NSPR and the engine answer to scatter
-- (Workers, Answers), what the engine takes for a unit (Answering), what it answers to the hooks
-- of the split objects (PropertyEngine, Iterating), how each write ends, what js_fgets brings to
-- `readline` (Reading), what becomes of a script (ScriptEngine), what the engine makes of the
-- arguments of `trap` (TrapEngine), and what `snarf` is answered (SnarfAnswers) are given to the
-- functions. Memory that is asked for is given, but for the buffer that js_sock_read and
-- js_sock_read_ws_packet enlarge (`reallocs`), and in GetLine, Scatter, CountHeap, Interactive,
-- ReadLine, Split and Snarf. A block of memory is a function from offsets to bytes with the size
-- that was allocated, so that a read or write outside it is `fault`; a number of 32 bits that the
-- code must not overflow is checked against its bound.
--
-- Not modelled: the rest of src/js.cpp, which is the shell of SpiderMonkey (the functions that
-- only call the engine, and the versions of the watchdog without threads); the registration of
-- classes; what is printed; concurrent use of one socket by several threads; the headers of
-- SpiderMonkey in include; the scripts and the build files.
pub mod Prelude
pub mod Host
pub mod Socket
pub mod SysUtil
pub mod Dso
pub mod Shell
pub mod Tests

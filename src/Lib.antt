-- ===== src/Lib.antt =====
-- Verification of libjustasic, a C and C++ utility library: texts and their codings, flags,
-- templates, sockets, buffers, messages, threads, files, loadable modules and configurations.
--
-- Parts, and how they interact. `Flux::string` (include/Flux.h) is the text of all others: it is a
-- list of bytes here, and a `std::string` operation that throws `std::out_of_range` has a result in
-- `Run`. Its case-insensitive operations stand on `ci_char_traits`. The template formatter calls the
-- splitting and trimming of texts. Sockets keep their state in `Flags`; the multiplexer and the
-- virtual functions of derived sockets enter by their answers, and an event of a socket is a value.
-- The loader of modules calls itself for dependencies, copies files by `FileSystem`, and finds
-- modules by the case-insensitive equality; an announcement calls every module. The driver of the
-- configuration feeds the tokens of the scanner to the grammar, whose actions fill its sections, and
-- a value of a section is printed to a stream and read from it.
--
-- Files and their code:
--   Base, Base/*: shared lists, options, numbers, texts and `Run`, the outcome of code that throws
--     or, by the bound on its rounds, does not end.
--   Ci: `ci_char_traits` and the comparisons of include/Flux.h. Ci/Map is `insensitive_map`, a map in
--     the order of `ci::less`, whose keys are a quotient of the texts.
--   Secure: `TimingSafeStrcmp` of src/Utilities.cpp.
--   Flags: the class template `Flags` of include/Utilities.h and include/flags.h, as a list of bits.
--   Flux: the searches by `find`, `split`, `replace_all_cs`, `replace_all_ci`, `trim`, `isolate` and
--     `url_str` of include/Flux.h and src/Utilities.cpp.
--     Flux/Search has the other searches, Flux/Edit the constructors, edits and comparisons, and
--     Flux/Number the casts from and to numbers.
--   Placeholder: `ProcessString` of src/PlaceholderUtil.cpp, with its filters; its positions are kept
--     in an `int`.
--   Socket: src/Socket.cpp and include/Socket.h, with the search of src/SocketMultiplexer.cpp. The
--     child modules are the handlers of connections, the listening socket and the addresses.
--   Buffer: `ManagedBuffer` of src/Utilities.cpp and include/Utilities.h. Blocks stand in a store
--     by their addresses, with their reference counts of 32 bits.
--   Messages: src/MessageChannel.c; the listeners are a list, which no listener changes.
--   Cstr: include/cstr.h.
--   Random, DateTime: `RandomDataGenerator`, `DateTime` and `duration` of src/Utilities.cpp.
--   Threads: src/ThreadEngine.cpp and include/ThreadEngine.h, as a step relation over a place in
--     the code for each worker and each caller, the lock, the queue and the wake flags. `empty`,
--     `front` and `pop` are steps of their own, and Threads/Waking has `WakeThreads` as one call.
--   File: src/File.cpp and include/File.h. A write goes where the mode of the file says, and the system
--     takes some of its bytes or fails. File/Copy has `CopyFile`, File/Position what a file says
--     of itself, File/Directory the paths and directories.
--   Modules: src/ModuleHandler.cpp and src/Module.cpp. The file has `LoadModule`, `FindModule` and the
--     constructor of a module, Modules/Unloading has `DeleteModule`, `Unload` and `UnloadAll`, and
--     Modules/Startup has `LoadModules` and `SanitizeRuntime`, and Modules/About has the setters.
--   Timers: src/Timer.cpp and include/Timer.h, with the array of the vector, whose end the loop
--     reads once, and the timers that live. A `Tick` adds and deletes no timers.
--   Announce: the macros of include/ModuleAnnounce.h, as loops over the handlers. How a
--     loop is left says what becomes of the mutex.
--   Config: src/ConfigurationDriver.cpp and include/Config/ConfigurationDriver.h. Config/Scanner has
--     the rules of src/scanner.ll, Config/Grammar those of src/parser.yy as a state machine over the
--     tokens, and Config/Values the reading of an entry as a value of a type.
--   Log, Dynamic, Exceptions: include/Log.h, include/DLLLoader.h with src/DLLLoader.cpp, and
--     include/Exceptions.h.
-- A file `Tests` below a part evaluates it on small inputs.
--
-- Bounds. A loop with no structural measure has fuel, and `none` or `out_of_fuel` says that it
-- has not ended. `split` and the replacements have one round for each byte and one more; a round
-- passes the match, or puts text that is not searched again, so this is enough where the pattern
-- is not empty. `memrev` has as many rounds as bytes, each of which takes two of them. `CopyFile`
-- has a round for each started block of 1024 bytes. `GetHighestSize` has seven, since 64 bits are
-- divided six times by 1024 at most. The scanner has a round for each byte and one more, since
-- every rule takes a byte or more. The walks of `DeleteModule` and `UnloadAll` have a round for
-- each module and one more, where they end. Loading takes any fuel, and a depth above the rank of
-- the module is enough where the dependencies have ranks; the listing of directories and the
-- retries of the listening socket take any fuel, since the code itself does not bound them.
-- Native numbers stand for machine integers, and a size that a proof keeps below `2 ^ 64` or `2 ^
-- 32` has that as a hypothesis.
--
-- Not modelled: console variables, of which include/cvar.h only declares the class; the places in the
-- messages of the parser, and the set-up of spdlog in `Log`; iterators, the reading from streams, json and wide
-- characters of `Flux::string`; and the Windows branches that only rename calls. System calls, the C
-- library, `fmt`, the demangler, the copy of the vector library in src/vec.c, and the conversion of
-- addresses are parameters.
pub mod Base
pub mod Ci
pub mod Secure
pub mod Flags
pub mod Flux
pub mod Placeholder
pub mod Socket
pub mod Buffer
pub mod Messages
pub mod Cstr
pub mod Random
pub mod DateTime
pub mod Threads
pub mod File
pub mod Modules
pub mod Timers
pub mod Announce
pub mod Config
pub mod Log
pub mod Dynamic
pub mod Exceptions

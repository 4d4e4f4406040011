-- ===== src/Lib.antt =====
-- QuickLib, a header-only C++ library of data structures and utilities for low-latency programs.
-- Each part is modelled by a module of its own; paths below are from the repository's root.
--
-- - Orderbook (include/quick/structs/Orderbook.hh): a matching engine. A vector is a list in
--   index order, so `back()` is its last element; prices and quantities are integers, and
--   Orderbook.Printing has the text of an order. AddOrder is `add_order`: its loop is
--   `match_loop`, one round of it `match_step` and `fill`, on as much fuel as there are opposite
--   orders and one more, which Orderbook.Sweep shows to be enough; its end is `settle`, which
--   calls `insert_order`. `std::ranges::lower_bound` is modelled by its result on a sorted
--   range, the first order whose level does not come before. CancelOrder is `cancel_order`.
--   Quantities only ever go down, so no sum of the code overflows; reserve has no model.
-- - SpscQueue (include/quick/structs/SPSCQueue.hh): the lock-free ring. `emplace` and `pop` are
--   whole calls; `produce` and `consume` are their single atomic steps, and `run` interleaves
--   the steps of one producer and one consumer by any schedule. The slots are a function of the
--   index `slot_ptr` computes, `none` where no object lives. The counters wrap at 2^64. A load
--   of the other thread's counter may give an old store (`load_index`), and SpscQueue/Views
--   keeps what each thread has seen; padding has no model. The destructor is `drain`, on one
--   round more than the capacity.
-- - SpscQueue/Example (examples/spsc_queue_example.cc): the two threads of the example as loops
--   on the model of the queue.
-- - Text: the functions of `std::string`, `std::getline` and `std::stoi` as the parser uses
--   them, on lists of bytes.
-- - Toml (include/quick/utils/TomlParser.hh): one round of the loop of `extract_keys` is
--   `process_line`, the loop `process_lines`. A file is its bytes; the maps are association
--   lists. `std::stod` is a parameter.
-- - Config (include/quick/io/Config.hh): the configuration on the parser of Toml.
-- - Memory (include/quick/memory): `Memcpy`, `Memmove` and `Strcpy` on a memory that is a
--   function from addresses to bytes. The loop of `Strcpy` is on fuel, which its theorem bounds
--   by the length of the string.
-- - Vector (include/quick/structs/Vector.hh): the growing array on explicit storage, with the
--   objects alive in it. A construction may throw, as a parameter of each call says; `push_back`
--   is of an object outside of the vector, and `push_back_own` of one of its elements; an access
--   outside of the storage is the outcome `fault`. Vector/Runs compares sequences of calls with
--   the same calls on a list, for fewer than 2^64 / 9 elements, so that tripling the capacity
--   does not wrap.
-- - SharedPtr (include/quick/handle/SharedPtr.hh): `shared_ptr` objects and control blocks on a
--   heap, with the calls of the deleter as a log. The counts are 64-bit. A call that reads a
--   freed control block has no result. SharedPtr/Threads has the atomic steps of `add_ref` and
--   `release` on one control block, for objects in the hands of any number of threads, and
--   SharedPtr/Main the program at the end of the file.
-- - Socket (include/quick/io: SocketRAII.hh, Tcp.hh, TcpClient.hh, TcpServer.hh, and the errors
--   of include/quick/error/Error.hh): descriptors are integers, and the calls of `close` are a
--   log. The results of the system calls are parameters.
-- - UniquePtr (include/quick/handle/UniquePtr.hh): each operation on one or two pointers, with
--   the calls of the deleters as a log, and in UniquePtr/Runs sequences of calls on pointers by
--   index. Addresses are numbers, and the deleters any type.
-- - ThreadSafeQueue (include/quick/structs/ThreadSafeQueue.hh): any number of threads; a block
--   under the mutex is one step, and threads that wait sleep until one is woken, by a
--   notification or without.
-- - SpinMutex (include/quick/thread/SpinMutex.hpp): any number of threads, one step for each
--   atomic access in `lock` and `unlock`, in any order.
-- - ThreadPool (include/quick/thread/ThreadPool.hpp): the workers, `enqueue` and the destructor,
--   by the accesses of the shared state, in any order.
-- - XorBitant (include/quick/utils/XorBitant.hh): the generator on words below 2^64;
--   `next_state` is the three shifts of `operator()`.
-- - Any (include/quick/handle/Any.cc): the container for one element type, with its storage and
--   a heap of objects.
-- - Logger (include/quick/utils/Logger.hh, SimpleLogger.hh, LoggerImpl.hpp, Timer.hh): the text
--   of a line, the static instance with its name, and the timer. The clock is an argument.
--   Logger/Clock is about the time in a line, Logger/Names about sequences of calls.
-- - Cassandra (include/quick/io/Cassandra.hh): the calls of the database driver as uses of a
--   ledger of the objects that are not freed. What the driver answers is a parameter.
--   Cassandra/Values has the values that are bound and read.
-- Not modelled: JSONReader, whose code is commented out, the enums CoreError and Error of
-- include/quick/error/Error.hh, which nothing uses, `main` of include/quick/handle/Any.cc, which
-- prints two casts, and the tests, which call the library.
-- Prelude and Sums hold the helpers that the parts share: numbers and tests, lists, integers,
-- bits, and sums over the entries of a list.
pub mod Prelude
pub mod Orderbook
pub mod SpscQueue
pub mod Text
pub mod Toml
pub mod Config
pub mod Memory
pub mod Vector
pub mod SharedPtr
pub mod Sums
pub mod Socket
pub mod UniquePtr
pub mod ThreadSafeQueue
pub mod SpinMutex
pub mod ThreadPool
pub mod XorBitant
pub mod Any
pub mod Logger
pub mod Cassandra

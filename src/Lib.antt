-- ===== src/Lib.antt =====
-- mprpc_advanced_z: a model of an RPC framework in C++ over TCP and ZooKeeper.
--
-- A provider publishes services (src/rpcprovider.cc), listens with an epoll server
-- (src/tcpserver.cc) whose connections (src/tcpconnection.cc) keep a byte buffer for each direction
-- (src/include/buffer.h) and whose idle connections a heap of timers finds
-- (src/include/lst_timer.h). A client's channel (src/mprpcchannel.cc) lays a call out as a frame,
-- picks a provider on a consistent hash ring (src/include/ConsistentHash.h) that it caches for each
-- method and rebuilds when ZooKeeper reports a change, takes a connection from a pool
-- (src/connpool.cc), sends the frame and parses the answer; failures are kept in a controller
-- (src/mprpccontroller.cc). A bounded queue (src/include/block_queue.h) stands between the threads
-- that log and the one that writes, and a pool of threads (src/include/ThreadPool.h) is there for
-- tasks. A provider enters its address into ZooKeeper (src/zookeeperutil.cc). Both sides start with
-- the command line (src/mprpcapplication.cc) and a configuration file (src/mprpcconfig.cc), and write
-- log files (src/log.cpp).
--
-- Files and the code they model:
--   Base            numbers, lists, byte strings, maps, std::to_string and atoi
--   Buffer          class Buffer; a size_t is a number below 2 ^ 64, with sums and differences that wrap
--   ConsistentHash  class ConsistentHash; std::hash is a parameter, a std::map a list in key order
--   Wire            the frame of CallMethod and the parts that OnMessage reads
--   Provider        class RpcProvider: NotifyService, OnMessage, SendRpcResponse
--   Controller      class MprpcController
--   Channel         CallMethod, ZkChildWatcher and the globals of mprpcchannel.cc, as a call that no other
--                   thread disturbs, and as turns between the stretches under the mutex
--   ConnPool        class ConnectionPool, one function for each stretch under the mutex
--   BlockQueue      class BlockQueue, with what each call does to the condition variable
--   TimeHeap        class time_heap with its destructor, over a memory of timers, where a dangling
--                   pointer is an error
--   TcpConnection   class TcpConnection, with the results of recv and send as parameters
--   TcpServer       Start of tcpserver.cc, from the set-up through the event loop over the results of
--                   epoll_wait to the last calls; a call of the system is a value in a list
--   Registration    RpcProvider::Run up to the loop, and class ZkClient, whose Start and watcher are
--                   turns of two threads
--   ThreadPool      class ThreadPool
--   Log             class Log: file names, rotation, the line buffer, the queue, and the threads that
--                   log and write
--   Config          class MprpcConfig
--   Application     MprpcApplication::Init over what getopt returns
--   Example         the programs under example: the user service, its caller, and the load test
--   Tests           runs on concrete inputs
--
-- Concurrency is explicit: the pool and its waiting threads, the cache of rings, the queue, the workers, the threads that log
-- and the load test have a relation of single turns, each the code between two uses of a mutex, and
-- statements about all sequences of turns. Failures are values:
-- an exception, an exit, a pointer that leads nowhere or a loop that does not end each have a
-- constructor or `none` of their own. Loops that are not structural take fuel: the loops of the timer
-- heap one more than the number of entries, since each round goes up or down a level or takes an entry
-- out; the loop of LoadConfigFile one more than the bytes of the file, since each round takes a byte or
-- meets the end of the file, unless a read fails, when no fuel is enough; the digits of a number one more than the number, which each digit divides by ten.
--
-- Parameters: protobuf's messages, descriptors and generated classes, with the round trip of the
-- header's encoding as a law; the user's service; std::hash; ZooKeeper's answers; what socket, connect,
-- send and recv return; the clocks; the limit of the process on open descriptors.
--
-- Not modelled: the inside of ZooKeeper's client, generated code, the pool of threads that
-- TcpServer::Start makes and gives no task, the clock of the load test, and what atoi makes of a port that does not fit an int. A failed allocation ends
-- the program and is left out, and so are the messages that other components log.
pub mod Base
pub mod Buffer
pub mod ConsistentHash
pub mod Wire
pub mod Provider
pub mod Controller
pub mod Channel
pub mod ConnPool
pub mod BlockQueue
pub mod TimeHeap
pub mod TcpConnection
pub mod Config
pub mod Tests
pub mod TcpServer
pub mod Example
pub mod Registration
pub mod ThreadPool
pub mod Log
pub mod Application

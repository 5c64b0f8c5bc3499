-- ===== src/Lib.antt =====
-- Models of the programs of this repository, a C++ collection, and theorems about them.
--
-- Parts and files
--   TcMalloc, for TCmalloc/TCmallocSRC: a memory allocator in three layers. A thread asks its own
--   ThreadCache; that asks the CentralCache, which all threads share, for a batch of blocks; that
--   asks the PageCache for a span of pages, which asks the system.
--     ClassSize      Common.hpp, class ClassSize: _Round_up, Round_up, Index, NumMoveSize,
--                    NumMovePages
--     Memory         Common.hpp, GetNext: the first word of each block, by address
--     FreeList       Common.hpp, class FreeList
--     SpanList       Common.hpp, Span and class SpanList, over a store of spans by address
--     Os             Common.hpp, SystemAlloc and SystemFree on Linux
--     ObjectPool     ObjectPool.hpp, New and Delete
--     State          the state of the allocator: the words of memory, the spans, the program break,
--                    and the members of PageCache, CentralCache, ThreadCache and the TLS pointers;
--                    operations are functions of this state into a result with the next state
--     PageCache      PageCache.hpp: NewSpan, MapToSpan, ReleaseSpanToPageCache
--     CentralCache   CentralCache.hpp: GetOneSpan, FetchRangObj, ReleaseBackSpan
--     ThreadCache    ThreadCache.hpp: Allocate, Deallocate, GetBatchFromCentralCache, ListTooLong
--     Concurrent     Concurrentalloc.hpp: ConCurrentAlloc, ConCurrentFree, by a given thread
--   Vector, for 模拟实现vector/test.cpp: the class HML::vector. Cells are a list, iterators are
--   positions counted from the first cell.
--   RingQueue, for 循环队列版生产者消费者模型/RingQueue.hpp and Sem.hpp: the class RQ. `put` and
--   `take_out` are the accesses to the array. RingQueue.Threads makes push and pop steps of any number
--   of threads, taken in any order: moving an index on, the access to the place it had, and the wrap
--   of the index are three steps, and the semaphores and mutexes alone keep other threads from coming
--   between them.
--   Calculator, for 网络计算机NetCal/CalServer.cc and Protocol.hpp: CalculateHelp.
--   ThreadPool, for 线程池/ThreadPool.hpp and LockGuard.hpp: the singleton and its queue of tasks.
--   Protocol, for VSCodeProject/网络计算机NetCal/Protocol.hpp: Serialize and DeSerialize of a request.
--   A text is a list of byte values. It uses the Request of Calculator.
--   BlockingQueue, for 生产者消费者模型/BlockingQueue.hpp: `enqueue` and `dequeue` are the accesses to
--   the queue; BlockingQueue.Threads makes each statement of push and pop a step of one of any
--   number of threads. Its other children are the invariant, the steps that keep it, and what
--   follows for safety, for wake-ups and for progress.
--   Tickets, for 多线程抢票程序/src.cc: Ticketsbook, as steps of any number of threads; Tickets.Twice is
--   that of src2.cc, which unlocks its mutex a second time.
--   ProcessPool, for ProcessPool/Task.hpp and ProcessPool.c++: the table of tasks, WaitCommand,
--   sendAndWakeup, the loop of a child and the loop of the parent, over pipes of bytes.
--   Net, for the programs over sockets and pipes. A program is a function of the results of its system
--   calls, one list item for each call: Net holds those results and the array that bytes are read
--   into.
--     Tcp    TCP通信/tcp_server.hpp: serviceread, InitServer, and the accepting loop with its children
--     Udp    UDP通讯/udp_server.hpp and udp_client.cc: the loops of both sides
--     Cal    VSCodeProject/网络计算机NetCal/Sock.hpp, which 网络计算机NetCal/Sock.hpp has a part of, and
--            网络计算机NetCal/CalServer.hpp: class TcpServer
--     Fifo   fifo/server.cxx and client.cxx: GetMessage, and main of both sides
--   CondDemo, for 条件变量/mycond.cc: the threads and main as steps, taken in any order.
--   Shell, for Linux下自建一个简易shell程序/自己创建一个简易shell程.c: the round of the shell from a line of
--   input to a directory change or the arguments of a command.
--   Stack, for 栈的实现/Stack源文件.c and stack.h: all its functions.
--   Base holds what these share: numbers, lists, results, machine arithmetic, integers, and
--   (Base.Counting) sums of weights over threads.
--
-- How the allocator's parts fit together
--   PageCache.Provide states what NewSpan promises to the central cache (Provided) and from where it
--   keeps the promise (Source): a waiting span (Buckets), a longer one that is cut (Split, Search), or
--   the system (Supply, Grow), in a span that is cut or taken whole. CentralCache.Supply and Grow build on the promise alone, and ThreadCache.First
--   puts the three layers together for a first allocation. PageCache.Merge and Release go the other
--   way, for a span that joins the free one before it.
--
-- Conventions
--   Addresses and numbers are natural numbers. Arithmetic of size_t wraps around: add64, sub64 and
--   the shifts keep 64 bits. Failures are values: a failed assertion, a fault at the null pointer,
--   an access out of bounds, a lock that is held, a failed allocation, or fuel that has run out,
--   which is the model's own. A lock of the allocator is taken and given back in the state; a call
--   that would wait for its own lock ends in a deadlock. Where threads interleave, a lock that is
--   held leaves a thread without a step instead. A signal of a condition variable wakes one waiter,
--   any, or is lost if there is none; a waiter may also wake up without a signal.
--
-- Parameters
--   brk: the addresses that the system grants (Os.grants). The model does not tell memory apart that
--   lies behind a break that was refused: what Source takes from the system asks for a break that is
--   granted, and spans that are in a bucket already are taken to lie in granted memory. new Span: the
--   addresses it returns (State.fresh). ObjectPool: the type it pools, by its operations on a store
--   (Cells). The value of a cell before it is written (junk), in Vector and RingQueue. htons and
--   inet_addr, in Net.
--
-- Fuel and bounds
--   The cutting of a span has one round for each of its bytes; NumMovePages gives at most 64 pages,
--   so 2^20 rounds are enough. NewSpan calls itself once, after the largest bucket has been filled.
--   The merging loops have 129 rounds: a span has at most 128 pages. The walks over a bucket's spans
--   and over the blocks that come back have the fuel of the call. Vector's insert cuts its new
--   capacity to an int, which holds the doubles of fewer than 2^30 cells.
--   The digits of a number n are written with n + 1 rounds, more than it has digits.
--
-- Not modelled
--   Interleaved calls of the allocator: a call runs to its end. The copy constructor and resize of
--   vector do not compile when they are used; its destructor only frees. The older object pool of
--   TCmalloc/定长内存池 does not compile. Shared memory (shm), whose programs attach and detach a segment
--   without using it, logging, and the drivers of each part. In the thread pool, the starting of
--   threads and the waiting on the condition variable. The response of
--   the calculator has empty serializers, so the server's loop Calculate sends nothing and is left
--   out. The kernel's pipes.
pub mod Base
pub mod TcMalloc
pub mod Vector
pub mod RingQueue
pub mod Calculator
pub mod ThreadPool
pub mod Tickets
pub mod BlockingQueue
pub mod Protocol
pub mod Stack
pub mod Shell
pub mod Net
pub mod CondDemo
pub mod ProcessPool

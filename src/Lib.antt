-- ===== src/Lib.antt =====
-- A verification library for the network library: a reactor in the style of muduo, with an HTTP
-- server and a pooled allocator.
--
-- The parts of the program, and the files that model them:
--
--   src/net/Buffer.h, Buffer.cc        Buffer.antt. The vector, readerIndex_ and writerIndex_ are a
--     record; size_t arithmetic wraps at 2 ^ 64. Valid has the invariant of the indices, Contents
--     the readable bytes, Append and ReadFd the operations that add bytes, Refine the queue of
--     bytes that the buffer implements.
--   src/net/Channel.h, Channel.cc      Channel.antt. events_ and revents_ are records of the bits
--     that the code tests; handle_event lists the callbacks that handleEvemt runs, in order.
--   src/net/poller/EpollPoller.cc, Poller.cc   Poller.antt. The channel map, the index of each
--     channel, and the epoll_ctl calls as a trace; Protocol says what epoll accepts of them, and
--     History follows any calls for any number of channels.
--   src/net/TcpConnection.h, TcpConnection.cc  TcpConnection.antt. The connection with its channel
--     and two buffers. Callbacks, calls of the poller and tasks for the loop are a log. Events runs
--     a history of calls; Stream, Quiet, Stall, Partial and Lifecycle are about such histories, Answer
--     about the sending of a whole buffer, Direct about what a send brings to the kernel at once.
--   src/net/TcpServer.h, TcpServer.cc, Acceptor.h, Acceptor.cc   TcpServer.antt. The connection map is
--     the list of its connections, what the loops have to run is a log; Decimal, Names, Live and
--     History follow the names of the connections through any history, Addresses from the address
--     that the server listens at.
--   src/net/InetAddress.h, InetAddress.cc   InetAddress.antt: the address as it stands in memory, and
--     its text; Text has the text's laws, Reader an inet_addr for examples.
--   src/net/Socket.h, Socket.cc        Socket.antt: the options, bind, listen and accept, and what the
--     acceptor makes of them; Options follows the calls of the setters.
--   src/base/Thread.h, Thread.cc, CurrentThread.h, CurrentThread.cc   Thread.antt: the owner of a thread
--     object and the new thread take turns; Start has the invariant of all turns.
--   src/logger/lockqueue.h, logger.h, logger.cc, src/base/Timestamp.cc   Logger.antt: the threads that
--     log and the writer take turns over the queue and the files. Stamp has the text of a moment and
--     the name of a day's file, Lines the line of a message, Order, Files and Drains what becomes
--     of the messages.
--   src/net/EventLoop.h, EventLoop.cc  EventLoop.antt. The functor queue, the eventfd and quit; Steps
--     lets the thread of the loop and others take turns, Wakeup has the invariants of all turns, Quit what
--     becomes of a quit. Which other threads use the loop is a parameter, since the pool starts none.
--   src/net/EventLoopThreadPool.h, EventLoopThreadPool.cc   LoopPool.antt, with Turns for the order in
--     which the loops are handed out.
--   src/net/EventLoopThread.h, EventLoopThread.cc   LoopThread.antt. startLoop and the thread that it
--     starts take turns; HandOver has the invariant of all turns.
--   src/http/HttpRequest_test.h, HttpContext.h, HttpContext.cc   Http.antt. Request is the request,
--     Lines the two regular expressions, Post the decoding of a form, Context the state machine of
--     the parser and its loop over a Buffer, Matching, Parse and RoundTrip its correctness.
--   src/http/HttpResponse_test.h, HttpResponse_test.cc   Http/Response.antt, printed into a Buffer;
--     Http/Printing.antt has the text that this appends.
--   src/http/HttpServer_test.h, HttpServer_test.cc   HttpServer.antt: the answer with a file, over a file
--     system that is a parameter; Target has what a request is to be answered with, Pages
--     that it is.
--   src/http/WebServer.h, WebServer.cc   WebServer.antt: onMessage and onRequest on a TcpConnection, with
--     the user's callback as a parameter; Answers composes the parser, the response and the sending.
--   src/example/testserver.cc          EchoServer.antt: onMessage, and a read event that leads to it; Echo
--     composes the reading, the buffers and the sending.
--   src/timer/Timer.h, Timer.cc, TImerQueue.h, TimerQueue.cc, src/base/Timestamp.h   Timers.antt. The
--     std::set of timers is a list in its order; the timerfd's setting is part of the state, and the
--     answers of time() are a function of how often it was called. Order, Expiry and Arming are about
--     handleRead, Owned and Life about who deletes a timer.
--   src/memory/common.hpp              Memory/SizeClass.antt: classSize, the size classes of the
--     allocator, with size_t arithmetic; Bounds, Classes and Batches are its laws. Memory/Heap.antt:
--     memory as words by address, and how a run can end. Memory/FreeList.antt: FreeList, with Valid,
--     Refine and Batch. Memory/SpanList.antt: SpanList as a ring of links, which Ring, Splice and
--     Refine show to be the list of spans that Memory/PageCache.antt works with.
--   src/memory/PageMap.hpp             Memory/PageMap.antt: the radix tree, with Leaves and Range.
--   src/memory/ObjectPool.hpp          Memory/ObjectPool.antt, with Apart and Safe.
--   src/memory/PageCache.hpp, PageCache.cc   Memory/PageCache.antt: the state and the small steps,
--     Spans for new_Span and map_object_to_Span, Merge for relase_to_PageCache. Buckets has the invariant
--     of the buckets; Mapping, Supply, Block and Request follow new_Span through its branches, Merging
--     the loops of relase_to_PageCache to their end.
--   src/memory/CentralCache.hpp, CentralCache.cc   Memory/CentralCache.antt, with Carve for the
--     objects that a span is cut into, and Fetch for those that are handed out.
--   src/memory/ThreadCache.hpp, ThreadCache.cc, ConcurrentAlloc.hpp   Memory/ThreadCache.antt, with
--     Return for what deallocate does.
--
-- How they interact: a TcpConnection owns a Channel and two Buffers, and the poller learns of the
-- channel's events through updateChannel. The tasks that a connection hands to its loop go into the
-- functor queue of EventLoop. HttpContext reads requests out of the input Buffer. In the allocator,
-- ConcurrentAlloc asks the ThreadCache of its thread, which asks the CentralCache, which asks the
-- PageCache; the objects' links, the spans and the page map are in one heap that all of them share.
--
-- Bounds and fuel. A byte is any natural number. A Buffer's vector is at most max_size bytes, past
-- which vector::resize throws, which is `none`. parse_request runs its loop with one round more than
-- there are readable bytes, since every round but the last takes the two bytes of CR LF. The loop of
-- parsePost_ runs as many rounds as the body has bytes, since its index grows in every round.
--
-- In the allocator addresses are natural numbers, and sizes and counts wrap at 2 ^ 64. new_span calls
-- itself once, since it has filled the last bucket by then. A span has at most 128 pages and each
-- merge adds some, so npages rounds are enough. A span has no more objects than bytes, and a chain of
-- n objects is released in n + 1 rounds.
--
-- What the program takes from outside is an argument: what readv, write, epoll_ctl and epoll_wait
-- answer, whether the caller is the loop's thread, and the time. Hypotheses on them say only what
-- the manual pages say, as that readv returns no more bytes than it was offered.
--
-- In the logger a file is a text for each name, and opening one can fail. A std::function that is
-- moved from itself, as the constructor of Thread does, is an argument of the model, and so is in
-- EventLoopThread whether the Thread object still holds threadFunc.
--
-- Not modelled: of the allocator the locks, the effect of brk and the benchmarks. The logger is modelled
-- by itself: logging has no effect on the state of the other parts and is left out of their functions,
-- but for LOG_FAT, which ends the process.
pub mod Buffer
pub mod Channel
pub mod EchoServer
pub mod EventLoop
pub mod Http
pub mod HttpServer
pub mod InetAddress
pub mod Logger
pub mod LoopPool
pub mod LoopThread
pub mod Memory
pub mod Poller
pub mod Prelude
pub mod Socket
pub mod TcpConnection
pub mod TcpServer
pub mod Thread
pub mod Timers
pub mod WebServer

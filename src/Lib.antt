-- ===== src/Lib.antt =====
-- mimic-generator replays recorded network traffic: it reads connections and events from files and
-- makes each connection, as client or as server, at its recorded time. This library models its parts
-- and proves what makes them correct.
--
-- How the parts interact. A file thread (FileWorker) reads comma-separated files into events, orders
-- them in a heap (EventHeap) and adds them to a queue (EventQueue). The handler thread (EventHandler)
-- takes the events that are due, connects and accepts, and passes on what is to be sent through a
-- second queue. A server thread (ServerWorker) starts servers and reports accepted clients. The
-- threads share only the queues, which one thread fills and one empties, and the descriptors of
-- notifiers (EventNotifier), for which they wait with epoll (PollHandler).
--
-- Files. A component is a module, with its proofs in child modules named for what they prove, and its
-- tests in a child module Tests.
--   Common/          Booleans, lists, integers and maps over the native numbers. `int` fields are
--                    integers; where the code puts a `long int` into an `int` they wrap to 32 bits
--                    (`to_int`), and a `long int` is unbounded.
--   Event            include/mimic.h: the event record (ms_from_start, conn_id and so on).
--   EventQueue/      src/eventQueue.cpp, class EventQueue. Machine has the queue's nodes and a program
--                    counter for each thread, with one step for each access to shared memory
--                    (`produce_at` for addEvent and cleanUp, `consume_at` for getEvent and
--                    nextEventTime); Invariant the invariant of all interleavings; Calls whole calls;
--                    Spec the abstract queue, which the other components use; Destroy the
--                    destructor; Sockets the file's getSocket and setNonBlocking.
--   EventHeap/       src/eventQueue.cpp, class EventHeap. Contract is what is relied on of
--                    std::priority_queue, and ListHeap meets it.
--   Os               the system calls, as a parameter: what each answers is a function of the calls made
--                    before it, and the calls made are part of each component's state.
--   Connections/     src/connections.cpp: connectionPair, getConnString, getIPPortString and the making
--                    of sockets. inet_pton and inet_ntop are the parameter Inet; Dotted meets what is
--                    assumed of it.
--   EventNotifier/   src/eventNotifier.cpp.
--   PollHandler/     src/pollHandler.cpp.
--   EventHandler/    src/eventHandler.cpp: the record Handler has the maps of the class; Dispatch has
--                    dispatch, checkDeferred and acceptNewConnection, and Loop a round of loop
--                    (Rounds has the induction over one, Incoming the queue in it, Posix what is assumed of the
--                    calls); Peer has Connection::dstAddr, and Earlier what src/eventHandler-old.cpp
--                    does differently.
--   ServerWorker/    src/serverWorker.cpp: the record ServerWorker, its handlers and a round of loop.
--   FileWorker/      src/fileWorker.cpp: trim, loadFile and loadMMapFile; Events has the record
--                    FileWorker and loadEvents, and Startup startup and a round of loop. What std::stol,
--                    std::stoi and std::stod make of a text, and the texts of the files, are parameters.
--   Replay/          src/eventHandler.cpp and src/fileWorker.cpp: the loops of the handler thread and the
--                    file thread with the queue between them. A step of a thread is one access to the
--                    queue with what the thread does by itself until its next one (Delivery, Order,
--                    Loops, Queueing, Sleeping). `got` records what is taken from the queue, and not
--                    what checkDeferred dispatches again. A load adds `to_get` events, which is
--                    max_queued_file_events where a round of the file thread's loop is a run of
--                    steps (Queueing). Boot has what main of src/test.cpp makes before it starts
--                    them.
--   TestProgram/     src/test.cpp: serverSocketsThread and connectionHandlerThread, alone (Rounds) and with
--                    the queue of accepted sockets between them (Threads); readFromSocket (Reading); the
--                    options of main (Options).
--   NotifierTest/    src/eventTest.cpp: workerThread and workerThread2, which do the same with epoll and
--                    with a PollHandler (Versions).
--   EarlierHeap/     src/event.cpp: the heap of an earlier EventHandler, and what eventmain prints of it.
--   Client/          src/basicClient.cpp: a driver that connects to a server and sends to it from four
--                    threads, each with an epoll instance and a queue.
--   PerformanceTests/ src/performanceTests.cpp: the options (`parse`, `tests`), the loop that empties
--                    the file queue (`pull_events`), the connections that are made up (Peers) and the
--                    files that are written (DummyFiles). What rand answers, and what a stream writes
--                    for a float, are parameters.
--
-- Fuel. Loops that the code does not bound run on fuel, and give `none` where it runs out. A call of
-- addEvent takes at most 8 steps and 4 for each node that it cleans up, getEvent 5 and nextEventTime
-- 4. The loops over lines and fields take at least one character in each turn, so the length of the
-- text is enough. A round over the file queue takes one more than its length, and FileWorker's loop
-- over the heap one more than the heap's size. checkDeferred and loadEvents have no bound: for the
-- first see EventHandler/Deferred, for the second FileWorker/Endless; the second reads the files again
-- until it has as many events as it wants. The loops of
-- src/test.cpp over what a socket or epoll answers end where their results say; that of
-- src/eventTest.cpp ends only if the other thread signals often enough.
-- The loops over arguments, and over what getEvent finds, are
-- recursion on a list.
--
-- Memory order. The atomics of EventQueue are accessed with sequential consistency, except in the
-- constructor, which runs before the threads do; so an interleaving of accesses is what a run is. The
-- addresses that `new` returns are arbitrary unused ones, and what `delete` frees can be used again.
--
-- Not modelled. Output to the console and logs; the clock (the times are arguments) and
-- src/mimic.cpp, which reads it; the array count of src/basicClient.cpp, which its threads write
-- without a lock and which is only printed; the main functions of src/eventTest.cpp and
-- src/performanceTests.cpp where they make and start the components, and that of src/test.cpp
-- where it starts them; and the classes that include/sendWorker.h and include/recvWorker.h declare
-- and no file defines.
mod Common
pub mod Event
pub mod Client
pub mod Connections
pub mod EarlierHeap
pub mod EventHandler
pub mod EventHeap
pub mod EventNotifier
pub mod EventQueue
pub mod FileWorker
pub mod NotifierTest
pub mod Os
pub mod PerformanceTests
pub mod PollHandler
pub mod Replay
pub mod ServerWorker
pub mod TestProgram

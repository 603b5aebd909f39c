-- ===== src/Lib.antt =====
-- arclaunch starts the programs of a launch file and connects their file descriptors. The XML
-- parser generated from the schema (src/xsd/launch.xsd.in) yields elements; NodeContext
-- (src/NodeContext.cxx) makes a node of the right class for each; a node starts instances of
-- itself, which are processes (src/ExecutableNode.cxx, src/ScriptNode.cxx), groups of nodes
-- that run together (src/LaunchNode.cxx) or one after the other (src/SequenceNode.cxx). The
-- base class (src/Node.cxx) numbers the instances, calls the completion handlers when one ends,
-- and keeps the descriptors that the next instance gets. Ends come from the SIGCHLD handler and
-- travel up through the handlers.
--
-- Prelude holds the shared names; Prelude/Effects the outcomes of stateful code (a value, an
-- exception with the state that it leaves, the exit of a process, undefined behaviour, rounds
-- run out); Prelude/Map std::map<int, V> as an ascending association list, NameMap
-- std::map<std::string, Node*>. Text and Element hold the strings and the elements of the
-- schema.
--
-- Os holds the system calls as a record of operations on an abstract kernel state, with the
-- documented behaviour that the proofs use in the record Posix; Os/Table is a concrete kernel
-- that meets it. The calls on sockets are the record Net in it; what select answers to the
-- accepting threads while they are joined is its field selects. execve is a Boolean test in
-- Process.
--
-- Node, Node/Fds and Node/Instances model class Node: linkFd, closeFds, overwriteFds, passFds,
-- passFd, linkStdin and its like, startup, finishInstance. World holds all node objects by
-- their address, with what the derived classes add, the static members of ExecutableNode, and a
-- record of the calls of users' handlers. Launch, Sequence and Process model the derived
-- classes, with the virtual methods as parameters; Dispatch ties them together.
-- Sequence/Course, Sequence/Ready, Sequence/Stage and Sequence/Start describe a running
-- sequence, Process/Running a running process, and Dispatch/Programs, Dispatch/Entry and
-- Dispatch/Stages sequences of programs; Launch/Waiting a launch that runs, and
-- Dispatch/Members and Dispatch/Deaths one of programs. Dispatch/Service is about the start of
-- a socket node. Command models the argument, environment and path buffers; Context the choice
-- of a class for an element and the members of a group; Memory the lists that the nodes live
-- in, and Build the constructors, tied with execute, which make the nodes of a whole launch
-- file; Main (with Main/Nodes, the try block on the nodes) the command line (src/main.cxx).
--
-- Loops on fuel: a round of linkFd ends the loop or moves past one descriptor, and none is open
-- at the limit of the kernel, so that as many rounds as the limit are enough; startup takes one
-- round more than there are instances, and each round but the last passes one of them. The
-- depth of construct bounds the nesting of the elements, and is enough where IsValid holds. In
-- LaunchNode::startInstance the number that startup returns is computed before the place in
-- nodeInstances, as C++17 prescribes; the build is for C++11, which leaves the order open. The
-- depth in Dispatch bounds the nesting of virtual calls and handlers. Descriptors and instance
-- numbers are never negative here and are natural numbers; the stage of a sequence starts at -1
-- and is an integer.
--
-- A pointer to a LaunchInstance or a RunningSequence is the address of its owner and its key;
-- to follow it after the entry is erased is undefined, except that the last read of a destroyed
-- RunningSequence in proceed yields what the environment says freed memory holds. A missing
-- optional attribute, and a name that is not in a group, are undefined when read.
--
-- Socket models SocketNode: what it adds to LaunchNode stands in a field of World, and the
-- accepting thread goes in rounds over a list of the answers of select, each with what the
-- thread then reads of keep. Dispatch calls its startInstance and waitForInstance where a node
-- has that field; join_thread there is the rest of the accepting thread, which waitForInstance
-- waits for. Between two calls of the library the thread may go through a round: accept_round
-- of Runs/Events. The results on who holds a descriptor are for nodes without socket nodes,
-- whose accepting sockets stand in no map.
--
-- Process/Wait models ExecutableNode::waitForInstance: what the calls of waitpid answer is a
-- list, and in a call that fails the SIGCHLD handler may have run; where the call itself reaps
-- the process, the handler is taken to find no other child. Process/Wait/Race compares the two
-- ways.
--
-- examples/ws is a program that a launch file starts to speak RFC 6455 on a socket: WsFrame
-- models the functions on one frame (examples/ws/src/ws, utility/reversell.c), WsConnection the
-- connections, ws_tx_frame and ws_rx_frame (src/ws, src/ws_fd), WsHandlers the frame handlers
-- and their buffers (src/ws_simple), WsTrans the main program (src/ws_trans.c). The machine is
-- x86-64: little-endian, with six bytes of padding in struct ws_frame. Read, write and random
-- are a record of operations on an abstract outside, which also says what uninitialised memory
-- holds: bytes (IsTransport). IsStream says that writes to a descriptor join, IsSource that the
-- bytes of a stream are read in order, each read in full. WsConnection/Rfc is the format of RFC
-- 6455, which the theorems compare with. A chain of buffers is a list, the newest first; freed
-- memory is not modelled. The shared memory that ws_trans opens is the record of SharedMem. The
-- loop of ws_trans goes over the answers of select, a list; where the list ends before the
-- connection is closed, the outcome is no_fuel.
--
-- SharedMem models the functions of examples/ws on named shared memory (src/shared_mem.c), with
-- shm_open and shm_unlink as a record, and SharedMem/Manage the program of
-- src/shared_mem_manage.c. Client models the client of examples/3_ps (src/client.c): its system
-- calls are a record, and the answers of select are a list, with no_fuel where it ends.
--
-- Addresses of nodes are given out in order from 0; of a constructor that throws the memory
-- stays as it was written, and nobody has its address. Build/Trees says what the nodes of an
-- element look like, Build/Kept, Build/Places, Build/Names, Build/Found, Build/Groups and
-- Build/Made lead to Build/Library, where the nodes of a file are made.
--
-- Runs is about histories: Runs/Events has the calls of the public methods, the ends of
-- processes and the rounds of accepting threads as events, and the states that can be reached
-- by them. Runs/Closed lists the steps that the methods are made of; Runs/Calls, Runs/Launches,
-- Runs/Sequences, Runs/Sockets and Runs/Blocks show that a relation between states that these
-- steps keep is kept by every virtual call, handler and wait, at any depth, also when it
-- throws. Runs/Plain, Runs/WellFormed and Runs/Shape are such relations, and Runs/Reached is
-- what follows. Runs/Accounts is about who holds an open descriptor: a node or a running
-- sequence, whose map has it as a key, or whoever had it open before the first call. It covers
-- the calls that return: where linkFd throws in the middle of LaunchNode::startInstance, the
-- ends of the pipe stay open and nobody holds them.
--
-- Dispatch/Waiting is about LaunchNode::waitForInstance with programs as sub-nodes; the loops
-- of waitFor and waitForInstance take rounds as fuel, one for each instance or sub-node. What
-- waitpid answers is a parameter of Dispatch.wait_for_instance: a list for each instance of a
-- program.
--
-- Not modelled: FileNode (not built), the accepting thread of a SocketNode in the middle of
-- another call, the handshake and the scripts of the examples, the texts that arclaunch and
-- ws_trans write to the terminal, the XML parser, and signals that arrive in the middle of
-- another operation: the SIGCHLD handler runs between operations, or while waitpid is blocked.
pub mod Prelude
pub mod Text
pub mod Element
pub mod Command
pub mod Memory
pub mod NameMap
pub mod Os
pub mod World
pub mod SharedMem
pub mod Build
pub mod Client
pub mod WsFrame
pub mod WsConnection
pub mod WsHandlers
pub mod WsTrans
pub mod Node
pub mod Launch
pub mod Socket
pub mod Sequence
pub mod Process
pub mod Dispatch
pub mod Runs
pub mod Context
pub mod Main
pub mod Samples

-- ===== src/Lib.antt =====
-- lightframe: a server framework in C++. This library models its wire encoding and fixed strings, its
-- queues, its object pool, its heap, its red-black tree and its cipher.
--
-- Parts and files. Paths are from the repository's root.
--   Common       what the parts share: Boolean tests, arrays as lists under native indices, blocks of
--                bytes (memcpy), uint32_t sums, and the error codes of common/common_errordef.h with the
--                chaining of calls that return them.
--   Ring         bytes laid round an array, one by one (Ring) and in two blocks (Ring/Blocks): the view
--                that the two queues share.
--   Codec        common/common_codeengine.cpp. A Stream is the three arguments buf, size and offset.
--                The macros ENCODE and DECODE are encode_word and decode_word at a width in bytes, and
--                the overloads are their instances; Blocks has byte blocks and strings. `big` is the
--                byte order that CEndian finds out. What a call changes through a reference is
--                returned beside its status.
--   Heads        frame_protocolhead.h: ConnHead (Conn), MessageHeadCS (Client), MessageHeadSS (Server)
--                and ConnUin (Uin), each with its MessageEncode and MessageDecode as a chain of calls
--                that ends at the first error; Dal has the same functions of CFrameCodeEngine
--                (frame/dal/frame_common_codeengine.cpp). Fields and Trips prove once, for a list of
--                fields, what each head needs.
--   CodeQueue    common/common_codequeue.h: CCodeQueue, packets in a ring with their lengths. Push, Front
--                and Pop are push, front and pop; Holds is the invariant that ties the ring to a list
--                of packets, and Refine compares whole runs with a list of packets.
--   CycleBuffer  common/common_cyclebuffer.h: CycleBuffer, bytes in a ring with two ends. Write, Read,
--                PeekRead, WriteToHead, ReadFromTail are write_tail, read_head, peek_read,
--                write_to_head, read_from_tail; Holds ties the ring to the bytes that it holds.
--   Pool         common/common_pool.h: CPool, an array of nodes on a free list and a used list that are
--                linked both ways. CreateIndex and DestroyIndex are create_index and destroy_index;
--                Links and Moves have the linked runs and what the setters do to them, Holds is the
--                invariant, and Build and Fresh are about BuildIndexList and Initialize, Joins and
--                Create about CreateIndex, Leaves and Destroy about DestroyIndex. A node is its place
--                in the array, and what is read past the array is the parameter `past`.
--                Walk goes through the used nodes (First, Next, GetRandomIndex).
--   Heap         common/common_heap.h: CMinHeap, an array of pointers to nodes in heap order, with the
--                place of each node stored in it. Insert, Pop, Erase, First and Find are insert, pop,
--                erase_node and erase_key, first, and find. Swap has what holds of two slots swapped,
--                Up and Down are about the two shifts, Holds is the invariant of the whole, Remove and
--                Erase have what Pop and Erase share.
--   RbTree       common/common_rbtree.h: CRBTree, a red-black tree on the nodes of a pool. Insert, Erase and
--                Initialize are insert, erase_node and erase_key, and initialize; Nodes has the nodes, the
--                setters and the walks, Rotate the rotations, Insert and Erase the two rebalancings.
--                Shapes has the tree that the links stand for and the way from a node to the root,
--                Balance the colors, Place where a key belongs, Entries the list that the tree stands
--                for, and Holds is the invariant. Turns, TurnLeft and TurnRight are about the rotations,
--                Paint, Recolor, LiftLeft, LiftRight, RoundLeft, RoundRight, InnerLeft, InnerRight,
--                Rounds, Cases, Fixed, Loop and Blacken about InsertRebalance, Link and Grow about
--                Insert, Fill about runs of it, Find, Walk and Steps about the walks, Parts, CutOne and
--                EraseRed about Erase of a red node, and Loose about Erase of a node outside the
--                tree.
--   NetQueue     frame_netqueue.cpp and frame_commandqueue.cpp: queues of packet pointers; Order is about
--                interleavings of calls on the four queues of CFrameNetQueue, Served about when
--                a waiting packet is handed out.
--   CString      common/common_string.h: CString, a text in an array of SIZE + 1 characters. Text has the
--                invariant and the C library's copies, Copies and Joins are about construction,
--                assignment and operator+, Wire about comparison and the message functions.
--   LogQueue     common/common_logqueue.h and common/common_messagequeue.h: CLogQueue and CMessageQueue, on
--                a CCodeQueue. Push and Pop are push_log and pop_log, and push_named_log and
--                pop_named_log; Records has the layout of a record, Trips what Pop makes of it. Pop with
--                a type ends with take_log, once the queue has given a record.
--   Xtea         common/common_crypt.cpp: the cipher xtea, with Rounds about its two loops, and CXTEA, whose
--                Encrypt and Decrypt are encrypt and decrypt of Cipher. Bits has facts on bytes, Blocks is
--                about one block, Chain about the loops over a buffer, Trips about the two calls.
--
-- How they interact: the heads call the code engine, field by field, and a CString calls it with its
-- characters. The heap has a copy of the pool's code for its nodes, with pointers for indices, and the
-- red-black tree one with ids; both are modelled on the pool. The queues carry the encoded messages between threads; CCodeQueue keeps a
-- packet's length in the byte order of the machine, and the log and message queues lie on it.
--
-- Numbers are native; a uint32_t sum keeps its wrap (% 2 ^ 32). A signed value on the wire is its bit
-- pattern. Sums that the code makes in a size_t do not wrap at the sizes in question. The capacity of
-- a CCodeQueue is taken to be above 8 and at most 2 ^ 31, as in all its instances, so that the sum of
-- a place and the capacity does not wrap. In CycleBuffer an int32_t is a number that is not negative.
-- A store out of the bounds of an array, undefined in the code, is dropped in the model and a load
-- gives 0; the theorems about successful calls ask for arrays with room for what is stored, NULs
-- included, and those on the edge cases say where the bytes do not lie inside. The number of rounds
-- of xtea is the bit pattern of an int32_t.
-- The loops of ShiftUp and ShiftDown have fuel, one more than the slot they start from and one more than
-- the number of nodes, as each round moves to a smaller, or to a larger, slot. The loops of xtea have
-- fuel for one more than the number of rounds, and those of CXTEA for the number of bytes of the input,
-- of which each round takes eight. The walks and the
-- rebalancing of the red-black tree have fuel for one more than its capacity, as each round goes a level
-- up or down. Where fuel ends the model gives `none`, and the theorems on the
-- operations say that they give a result. Every other loop runs over a known number of rounds.
--
-- A key of the tree is a number, and its nodes are a function of the id, so that an id outside the
-- array is not told apart there; in a sound tree the ids are those of the pool.
--
-- Not modelled: the other containers over the object pool; timers, sessions, sockets,
-- threads, configuration, logging, authentication; the copies of TinyXML and of the MySQL headers. The
-- overload of the code engine for double, the printing of heads, and their constructors are left out
-- too. Locks are not modelled: a call of CycleBuffer is one step.
pub mod Common
pub mod Ring
pub mod Codec
pub mod Heads
pub mod CodeQueue
pub mod CycleBuffer
pub mod Pool
pub mod Heap
pub mod NetQueue
pub mod CString
pub mod LogQueue
pub mod Xtea
pub mod RbTree

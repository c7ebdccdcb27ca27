-- ===== src/Lib.antt =====
-- poser is a C library for network services: containers and string helpers, an event loop with
-- connections, timers and worker threads on top of them. This is a model of its containers, of
-- the rate limiter that stands on them, of the objects that its threads share, and of its addresses,
-- JSON values, random numbers and string helpers, with proofs of what they do.
--
-- The parts, each a file of src/lib/core and a module with child modules for its proofs:
--   base64.c         Base64: encoder and decoder; `PSC_Base64_encodeTo` is `encode_to`, and so on.
--   queue.c          Queue: the ring buffer of objects; `expand`, `enqueue`, `dequeue`, `destroy`.
--   list.c           PscList: the growing array of objects, `removeAt` is `remove_at`, its iterator.
--   hashtable.c      HashTable: buckets of chains under string keys; `PSC_HashTable_set` is `set_key`,
--                    `PSC_HashTable_delete` is `delete_key`, `PSC_HashTable_deleteAll` `delete_all`.
--   dictionary.c     Dictionary: the tree of tables by the bits of a hash, with chains at its end;
--                    `set` is `set_in`, `get` is `get_in`, `removeAll` is `remove_in`.
--   event.c          Event: handlers in order, and the raise that calls them; a handler is what it does
--                    to the event, an argument of `raise`.
--   stringbuilder.c  StringBuilder: the growing string.
--   sharedobj.c      SharedObj: objects that threads share, freed when no reservation of an epoch keeps
--                    them; SharedObj/World.antt has the threads that use them, as a step relation.
--   ipaddr.c         IpAddr: addresses and networks, `toString` is `to_string`; an address that a
--                    function makes is `new`, as all of them end alike.
--   ratelimit.c      RateLimit: counters over sliding windows; `checkLimit` is `check_limit`,
--                    `PSC_RateLimit_check` is `check`. It takes the dictionary as a record of
--                    operations with laws, which RateLimit/Store.antt fills with Dictionary.
--   random.c         Random: random bytes and strings; the outcomes of `getrandom` are an argument, and
--                    a call that waits for ever gives nothing.
--   stackmgr.c       StackMgr: stacks for threads, kept for reuse; a freed array is a block of its own
--                    kind, whose use gives nothing.
--   json.c           Json: values as trees; Json/Serializer.antt writes them, Json/Parser.antt reads them,
--                    `PSC_JsonSerializer_serialize` is `serialize_new`. Json/Stored.antt has an object as
--                    the code stores it, with a list of keys and a dictionary; `PSC_Json_setProperty`
--                    is `store_property` there and `set_property` on trees.
--   threadpool.c     JobQueue: the queue of jobs. JobQueue/Locked.antt has the functions with a lock,
--                    JobQueue/Atomic.antt the ones with atomics, as steps of threads.
--   util.c           Util: string helpers, `PSC_joinstr` is `joinstr`; the allocation is in Prelude.
-- Prelude holds what they share: lists over the native numbers, blocks of memory (`malloc`, `realloc`
-- of util.c, `memmove`), C strings, bit operations over small ranges, sums, and owned objects.
--
-- How the code is translated. A struct is a record and a union of tagged pointers a data type. An
-- operation takes the object's state and returns the new one with its results; the calls of deleters
-- that it makes are a list in its result, in their order. A `void *` is a value of any type, the null
-- pointer `none`; a memory cell that nothing has been written to is `none` too. A C string is the list
-- of its characters. Numbers are natural numbers, with wrap-around written out where a value
-- can leave the range of its type or count below 0. An allocation that fails ends the program, and is
-- not modelled.
-- Linked entries, each owned by the one before it, are lists; an array of fixed size in Dictionary is
-- a function of its index.
--
-- Fuel. `remove_all_loop` of PscList has a round for each item, since a round removes an item or
-- passes one. `grow` of StringBuilder has as many rounds as the wanted size, each of which adds 512.
-- `catch_up` of RateLimit has 2 ^ 16 rounds, since `last` takes each 16 bit value within them.
-- `parsev6_loop` of IpAddr takes a character a round at least, so its fuel is the length of the string;
-- its `print_words` passes a word a round, of eight. `numeral` of Prelude divides by the base a round.
-- `basename_loop` of Util takes a character a round at least.
-- `set_in` of Dictionary goes down one level a round, and there are 13 below the first.
-- `parse` of Json has twice the length of the text and two more: a round of a loop, and a call inside
-- one, takes a unit, and a character pays for two. `string_loop` takes a character a round at least.
-- `raise_loop` of Event has its rounds as an argument; as many as there are entries are enough where
-- handlers leave the event alone, and running out of them is an outcome of its own.
--
-- Parameters. The hash functions stand on a copy of the xxHash library, so the hash is any function.
-- What the clock gives is an argument of `check`. The addresses of deleters and
-- of entries are numbers, and so are the ids of events, which are only compared. What `getrandom` gives
-- and what a reservation is that no thread has stored are arguments too, and so is `tolower`. A
-- `double` is a value of any type, with its operations as a record that Json takes. The dictionary of
-- a stored object is a record of operations, with what dictionary.h documents of them for objects
-- that are not null as laws. `strtol`
-- and `sprintf` of the C library are those of Prelude/Numerals.antt.
--
-- Not modelled: the service loop, servers, clients, connections, processes, the daemon and logging
-- (service.c, server.c, client.c, connection.c, process.c, daemon.c, runopts.c, log.c, resolver.c,
-- certinfo.c), which mostly call the operating system or OpenSSL; the rest of threadpool.c, timers
-- (timer.c) and object pools (objectpool.c). Of random.c the variants without
-- `getrandom` are left out.
-- Locks are not modelled either: an operation under a lock is one step. An entry of the rate limiter has
-- its lock, since `checkLimit` clears it by its `memset`, but what another thread does from there to the
-- end of the call is not shown. Of the functions of
-- sharedobj.c, `SOM_reserve` is split into its accesses of atomic variables, and each of the others is
-- one step; threads register before the first step, and a thread releases an object before it reserves
-- another. Each access of an atomic variable by the job queue
-- is a step, and steps see each other in one order.
pub mod Prelude
pub mod Base64
pub mod Dictionary
pub mod Event
pub mod HashTable
pub mod IpAddr
pub mod JobQueue
pub mod Json
pub mod PscList
pub mod Queue
pub mod Random
pub mod RateLimit
pub mod SharedObj
pub mod StackMgr
pub mod StringBuilder
pub mod Util

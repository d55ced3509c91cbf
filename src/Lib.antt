-- ===== src/Lib.antt =====
-- Verification library of varc, a range-caching HTTP proxy and file layer over remote objects.
--
-- The program reads a remote object in chunks (internal/chunkedreader, with lib/rwbuffer between a
-- download and its reader), has downloaders write the chunks into a file of the cache for the
-- readers that wait for them (internal/cache/downloaders), keeps the byte ranges that are cached
-- (lib/ranges), and writes changed files back from a queue (internal/cache/writeback). A cached file
-- is an item (internal/cache/item.go); the cache has an index of them, and its cleaner removes or
-- resets them where space is short (internal/cache/cache.go). An engine opens files of the cache by
-- name (internal/engine.go), and the proxy serves HTTP requests from it (pkg/proxy).
--
-- Prelude.antt passes on the libraries' names and has Boolean tests, lists measured by native
-- numbers, association lists, and signed integers ℤ for Go's int64 and int. Sums of these do not
-- wrap: offsets and times stay far below 2 ^ 63. The handle of the write-back queue, a uint64, does.
--
-- lib/ranges/ranges.go: Ranges.antt has its types and functions under their names in snake case
-- (Range.End is end, Ranges.Insert is insert, Ranges.FindAll is find_all, Ranges.Intersection is
-- intersect, Ranges.search is search_pos). Its loops run on fuel that their lengths bound.
--
-- internal/cache/writeback/writeback.go: Writeback.antt. An item is a pointer into a store, the
-- heap is the bag of its pointers, of which _peekItem takes the least by Less, and the timer is the
-- time at which it fires. The goroutines that upload are a list of their items, and the end of one is
-- upload_done with an outcome. A call that waits in _cancelUpload is cut in two there, and resume
-- carries out what follows. Writeback/Run.antt makes these parts and the events steps on the queue. The
-- loop of processItems takes one item off the heap in each round, so the length of the heap is
-- enough fuel, which Writeback/Due.antt uses. Queue, which lists the items, is not modelled.
--
-- lib/rwbuffer/rwbuffer.go: RwBuffer.antt. Each locked part is a step on the state, the reader that
-- ReadFrom copies from is the list of its answers, and a blocked WaitWrite is given the states in
-- which it is woken.
--
-- internal/cache/downloaders/downloaders.go: Downloaders.antt, and Downloaders/Write.antt for Write
-- and the end of a downloader's goroutine. The file is the interface ItemOps, as in the source; the
-- answers that go through channels are returned as values; the ticker that kicks the waiters is a
-- call of kick_waiters at any time. What happens while Close gives up the lock is a list of events.
--
-- internal/chunkedreader: Chunked.antt for New, Chunked/Sequential.antt and Chunked/Parallel.antt
-- for the two readers. The answers of the object (Open, reading and closing its body) are
-- arguments, and so are the bytes that the goroutine of a stream appends while a read waits for it.
-- The loops of Read run over these lists and yield none while a list has run out.
--
-- internal/cache/item.go: Item.antt has the state of an item (its fields, the path and the metadata
-- file in the cache, the inodes, the write-back queue) and the helpers on it, Item/Data.antt reading
-- and writing, Item/Life.antt opening and closing, Item/Life/Resets.antt what the cleaner asks for.
-- What the operating system and the downloaders answer is a record Os (the outcome of an upload that a call on the queue waits for is one of its fields,
-- and nothing else comes in between), so the theorems hold for every
-- answer they allow. Each method is one step, also where the source gives up the lock for a call
-- in the middle. Item/Data/Missing.antt makes an item an instance of the downloaders' ItemOps. The
-- retries of Open and ReadAt, reload, and a metadata file that cannot be decoded are left out.
--
-- internal/cache/cache.go: Cache.antt has the index of the items by name, a store of the items that
-- the index points into, and the rounds of the cleaner. Names are clean names, as numbers; sort.Sort is
-- an argument, and so is the free space of the disk, which is taken to change with the index only, and a map is walked in the order of a list. Reload,
-- DirRename, the directories and the moves of files in Rename are left out.
--
-- internal/engine.go, dir.go, file.go and read.go: Engine.antt, over the cache: the files of the
-- root directory, OpenCached, Open, Remove and the handles that read. Item.Open and Item.ReadAt are
-- made once, without their retries, and a name that is opened is the item that the index has.
-- Engine/Leaks.antt makes the calls of an engine steps, each in a world of its own.
--
-- pkg/proxy and internal/types/remote.go: Proxy/Size.antt has parseSize, Proxy/Path.antt
-- hashCachePath, Proxy/Remote.antt the object that is fetched over HTTP and the headers of its
-- requests, Proxy/Serve.antt the handler with its mapping and its counters. Texts are lists of bytes.
-- MD5, the times of HTTP and what the HTTP client answers are parameters; what ServeContent, io.Copy
-- and proxyDirect send is not modelled, but that they are called, and with what, is. Fuel for the
-- digits of a number is the number and one.
--
-- Proxy/Setup.antt has the options that NewHandler makes for the engine, and the loop of the
-- cleaner that internal/cache/cache.go runs with them, over the turns that it takes.
--
-- caddy/module.go and main.go: Front.antt has the targets of requests and the handlers of the two
-- front ends, over the proxy. The Base64 decoders and the join of URLs are parameters.
--
-- Not modelled: the rest of NewHandler, ServeMetrics, the handles for writing and for directories, the
-- file helpers in lib/file, the flags, the Caddyfile and the servers. The times of timers, the
-- operating system, net/http and the logger are left out.
pub mod Prelude
pub mod Ranges
pub mod Writeback
pub mod RwBuffer
pub mod Downloaders
pub mod Chunked
pub mod Item
pub mod Cache
pub mod Engine
pub mod Proxy
pub mod Front

-- ===== src/Lib.antt =====
-- Ditto finds duplicate files, lets the user send copies to a trash, and restores or purges
-- them.
--
-- A scan (internal/scan) is a pipeline of stages joined by channels. The walker lists files
-- (Scan/Walker); the size accumulator passes on those whose size occurs twice
-- (Scan/Accumulator.antt); the cache check sends those whose size and time are those of a row
-- of file_cache straight to the DB writer (Scan/Cache.antt); the others are hashed on their
-- first 64 KB (Scan/Hasher.antt), those whose partial hash occurs twice pass
-- (Scan/Grouper.antt), and the router sends the small ones to the writer and the large ones, by
-- size (Scan/PriorityQueue.antt), to the full hashers. The DB writer gathers files by digest,
-- keeps file_cache up to date on the way, and writes the digests with two files or more in
-- batched transactions (Scan/Writer). Scan/Pipeline wires the stages as runPipeline of
-- internal/scan/scan.go does, Scan/Whole.antt puts the walk before them, and both show what the
-- whole delivers; Scan/Recorded.antt goes on to the tables that a first scan leaves, on the
-- view of Scan/Writer/View.antt, by digests, that forgets the ids and the order of the rows.
-- The trash manager (internal/trash/trash.go) and its handlers (internal/api/handlers/trash.go)
-- are Trash; the handlers that delete copies of a group, ignore it and reset it
-- (internal/api/handlers/groups.go) are Groups; one scan at a time is the matter of
-- Scan/Manager.antt (internal/scan/manager.go), its record that of Scan/Records.antt, its
-- progress that of Scan/Progress.antt, and its handlers (internal/api/handlers/scans.go) that
-- of Scan/Handlers.antt; the configuration (internal/config/config.go), its handler
-- (internal/api/handlers/config.go) and the settings form are Settings; the web pages with
-- their forms (internal/api/pages.go) are Pages: what they show is Groups, Detail, Trash,
-- Dashboard and Fragment, what the templates call is Format, and what the forms do is Delete
-- and Ignore; the status (internal/api/handlers/status.go) is Status.antt, that of single files
-- (internal/api/handlers/files.go) Files.antt; images (internal/media) are Media; the start of
-- the program (cmd/ditto/main.go) is Startup.antt; internal/scheduler/scheduler.go is
-- Scheduler.antt; the rows of the database are Tables.antt.
--
-- A function of the source keeps its name, in snake case: RunSizeAccumulator is
-- run_size_accumulator, lookupBatch is lookup_batch, MoveToTrash is move_to_trash. A stage is
-- the loop of Scan/Goroutine.antt over a step: each channel operation of the source is a select
-- with ctx.Done(), so a run takes the number of operations that go through before the context
-- is found done. Three operations for each item are enough for a run that is not cancelled.
-- Where several goroutines share a channel, the order of the items is not fixed: there the
-- pipeline takes a Mixing, any order that neither loses nor repeats an item. A map of Go is a
-- function of its keys, or a list of entries where the code iterates over it. The tables are
-- lists of rows; the keys that the schema makes unique are enforced. 64-bit counters wrap.
--
-- The file system, the database, the clock, SHA-256 and the functions on paths are outside the
-- repository. They are parameters: what the system refuses to do is Disk.Faults and ReadFaults,
-- what the database refuses is DbFaults, TxFaults, GroupFaults, PageFaults, ExecFaults and
-- IgnoreFaults, QueryFaults, DashboardFaults and StartFaults; float64 is Floats, encoding/json
-- and strconv are Codec, container/heap is SizeHeap, the cron library is Cron, the image
-- libraries are Images and Exif. Disk.antt says what an operation that is not refused does. The
-- loops on fuel are cache_worker and write_batches, each on the number of its items, of which
-- every turn takes one at least; update_cache, likewise if the batch size is positive, which
-- the theorems on the writer assume (with 0 the loop of the source does not end);
-- format_digits, on one more than its number; insert_commas, on the length of the text; and
-- unit_of, whose seven rounds take ten bits of a 64-bit integer each.
--
-- The workers of the walker share a queue. A worker's position in its loop is a state, a step
-- takes it to the next access to what the workers share, and a walk follows a schedule: a list
-- that says which worker steps, and whether it finds the context done. The mutex and the
-- condition variable are the atomicity of a step, and a wait in Pop is a step that changes
-- nothing. What a worker sends is taken at once: that the channel of files can be full, with
-- nothing to receive from it, is not modelled. A tree of directories is finite where each
-- directory can be given a weight that is more than the sum of its entries; that weight is the
-- fuel of files_in, and it is enough.
--
-- Not modelled: the decoding and drawing of images (the interfaces Images and Exif), the
-- rendering of templates, routing and the loop of the server, migrations. Directories are only
-- what os.MkdirAll may refuse, except in the walker, which sees nothing but them. Logging, and
-- counters that only the progress bar reads, are left out. Of the number of workers of a stage
-- behind the walker, the pipeline takes whether there is one, and the order that more of them
-- leave open. A context that is done is modelled in each stage by itself, save the cache check,
-- whose exits for it are left out, and not in the pipeline as a whole.
pub mod Prelude
pub mod Scan
pub mod Disk
pub mod Trash
pub mod Tables
pub mod Groups
pub mod Media
pub mod Settings
pub mod Scheduler
pub mod Pages
pub mod Status
pub mod Startup
pub mod Files
pub mod Tests

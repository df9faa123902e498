-- ===== src/Lib.antt =====
-- tssniff shows a set-top box an NTFS disk over USB, records what it writes, finds the MPEG-TS
-- packets among the writes, sends them to clients over HTTP, and gives the space of recorded video
-- back by punching holes into the sparse image.
--
-- How the parts interact. FUSE (fuse.go) numbers each write, stages its bytes in the overlay
-- (shm.go) and hands it to the dispatcher (pipeline.go), which puts the writes into the order of
-- their numbers and passes them to the sniffer (sniffer.go, mpegts.go). What the sniffer gives back
-- goes to the writer (writer.go) and to the reconciler (reconcile.go). The writer writes what is not
-- MPEG-TS into the image and releases the staged extent. The reconciler keeps the captured ranges in
-- a journal, asks the NTFS reader (ntfs.go) which bytes are file data, and requests punches of those
-- captures, which the writer makes unless a newer write is in the way.
--
-- Which file models which part:
--   Prelude    Boolean tests, uint64 with its wrap written out, lists over the native numbers
--   Ranges     the range lists of ntfs.go: coalesceByteRanges, subtractRanges,
--              rangesOverlapSnapshot; maxU64 and minU64 of shm.go
--   Events     types.go
--   Shm        shm.go. Shm/Extents is the extent list (coalesceSHM, replaceRangeLocked,
--              removeRangeGenerationLocked, coversGenerationLocked), Shm/Disk the methods of
--              SHMDisk, Shm/Io what calls on a file return
--   Scanner    mpegts.go: validTSPacket, findMPEGTS, and Feed, emit, keepTail, reset of TSScanner
--   Sniffer    the loop of Sniffer.run in sniffer.go
--   Pipeline   WritePipeline.run of pipeline.go with its closures dispatchWrite, acceptWrite and
--              handleBarrier. Pipeline/Submit is SubmitWrite with the goroutines that send late, and
--              CloseWrites; Pipeline/Punches is SubmitPunch, ClosePunches and runPunches;
--              Pipeline/Sync is Sync; Pipeline/Handover is what the dispatcher and the sniffer do
--              with the two channels between them while the dispatcher is away from its select
--   Journal    the rings: CaptureJournal of reconcile.go, rememberWrite and hasNewerOverlap of
--              writer.go, and WriteRecord
--   Writer     processWrite and processPunch of writer.go. Writer/Loop is run with processCommand and
--              its two channels, the sends into them and the closing
--   Hub        Broadcast of hub.go: the queue that drops its oldest entry. Hub/Clients is the set of
--              clients with Register, Unregister, dispatch and drain
--   Mbr        mbr.go and partition.go: findMBRPartition
--   Ntfs       the rest of ntfs.go. Ntfs/Boot is readBootSector, Ntfs/Runlist parseNTFSRunlist,
--              Ntfs/Fixup applyNTFSFixup, Ntfs/Record parseNTFSAttribute and parseNTFSRecord,
--              Ntfs/Volume the state and the reads through the run list of the MFT, Ntfs/Ids
--              mftRecordIDsForPhysicalRange, Ntfs/Files the record map with buildDataRanges,
--              rebuildRanges, buildMFTRanges and publishSnapshots, Ntfs/Observe NewNTFS,
--              refreshRecord, the scan and ObserveMFTWrite
--   Fuse       Getattr, Read, Write, Flush, Fsync and syncWriter of the file of fuse.go, toErrno and
--              mountDiskFS, and SubmitWrite of pipeline.go
--   Reconcile  reconcileCapture, submitPunch and run of reconcile.go
--   System     Write of fuse.go, the queue of its events, processWrite and processPunch of writer.go
--              on one overlay, as main.go puts them together, beside what the bytes should be
--   Http       the handler of /stream of httpserver.go with its client
--   Gadget     usb_gadget.go: Setup, Teardown, findUDC and writeFile
--   Main       main.go: main and shutdown as runs of steps
--
-- How the code is modelled. A pointer receiver is a record that is passed in and returned. An
-- operation under a lock is one step; ReadAt of shm.go reads the image before it takes the lock, so
-- its image and its overlay are two arguments, of two moments. A call of the operating system has
-- its results as arguments: byte counts, errors, and for reads a function of the place and the
-- length; a file is a byte for each offset, and a failed punch changes nothing. uint64 sums wrap
-- (add_u64), and theorems that need it say that an address stays below 2 ^ 64. What a goroutine
-- sends is a list, and what it receives is a list of events in any order, so every interleaving of
-- the channels is a list of events; a receive that blocks for ever is none. A send to the sniffer
-- is an append: the channel has room while the writes sent are at most its depth (Pipeline/Room),
-- and Pipeline/Handover is the channel itself, which can block. sort.Slice is insertion sort, which
-- may order entries that the comparison does not tell apart in another way.
--
-- The map of NTFS records is a list of entries with the assignment and the deletion of Go's map,
-- a set of record numbers is a list that may name one twice, and an int64 cluster number is its
-- bit pattern, which is negative from 2 ^ 63 on. A reader that fails gives its error as a value.
--
-- Fuel. emit_loop has the length of the buffer, of which each round takes a byte at least.
-- release_run has one more than the number of pending writes, of which each round behind the
-- first removes one. search_from has the width of its interval, which each round shortens.
-- parse_runs has the length of its bytes and parse_attributes that of the record, of which a
-- round takes a byte at least. push has one more than the entries of its channel, of which a
-- round takes one. read_runs and scan_chunks have the bytes that are left to read; a round takes
-- one at least. Running out is an error of its own, out_of_fuel, which the code does not have.
-- The rings have any positive length in the theorems; in the code 65536 captures and 131072
-- writes.
--
-- System takes the writes from the queue in the order of their submission, which is what the
-- dispatcher makes of their numbers, and each call of Write as one step. What the disk should be is a
-- byte for each offset with two sets of offsets, those that a reader must see right and those that
-- the image must get; the overlay and its generations do not occur in it.
--
-- The calls of usb_gadget.go are answered by a function of all the calls before; main.go is a run of
-- steps of which any may fail and every wait returns, checked against what the parts need of each
-- other.
--
-- What is not modelled: the directory and the options of the mount (fuse.go), whose library is
-- not in the repository, and two calls of Write at a time; listening and serving, headers and
-- Flush (httpserver.go), which are calls of net/http; the script gadget.sh; the flags but
-- -no-gadget, which choose names and what is logged; the capacity of the channel to the
-- reconciler; and logging.
pub mod Prelude
pub mod Ranges
pub mod Shm
pub mod Events
pub mod Scanner
pub mod Sniffer
pub mod Pipeline
pub mod Journal
pub mod Writer
pub mod Reconcile
pub mod Mbr
pub mod Hub
pub mod Ntfs
pub mod Fuse
pub mod System
pub mod Http
pub mod Gadget
pub mod Main

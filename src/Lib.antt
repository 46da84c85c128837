-- ===== src/Lib.antt =====
-- The data side of the C++ client of OpenIO SDS (oio-sds-cpp).
--
-- The program moves blobs between a caller and the places that store them. A blob API
-- (src/oio/api/blob.hpp) defines uploads, downloads and removals, each a transaction that is prepared,
-- then committed or aborted. Backends implement it: a map in memory (src/oio/blob/mem), Kinetic drives
-- (src/oio/blob/kinetic/coro), files (src/oio/blob/local), HTTP servers (src/oio/blob/http), rawx
-- services over HTTP (src/oio/blob/rawx), and erasure coding over these. The backends that talk to a
-- network do so through the sockets of src/utils/net.cpp, which turn system calls that take
-- or give some of the bytes into calls that take or give all of them.
--
-- Files, and the code they model:
--   Prelude          lists, byte strings, machine integers, maps with string keys, decimal numbers
--   Api              causes, statuses and their translation from errno values and service codes
--                    (src/oio/api/common.hpp, common.cpp); transaction steps (src/oio/api/blob.hpp)
--   Api.Protocol     the orders of calls that a transaction answers with success
--   Mem              oio::mem::blob::Cache (src/oio/blob/mem/blob.cpp and blob.hpp): create, write,
--                    xattr, commit, abort, remove, stat and get are Cache::Create and so on
--   Mem.Upload, Mem.Download, Mem.Removal
--                    MemUpload, MemDownload and MemRemoval of the same file; the cache they share is an
--                    argument of each call and a part of its result
--   Mem.Calls, Mem.Lifetime, Mem.RoundTrip, Mem.Steps
--                    proofs: one call, histories of calls, an upload and its download, transactions
--                    among other clients
--   Net.Reading      Socket::read_exactly (src/utils/net.cpp)
--   Net.Sending      the two Socket::send of the same file
--   Net.Receiving    Socket::read of the same file
--   Net.Exactly, Net.Gather
--                    proofs on reading and on sending
--   Net.Address      net::Addr, its parsing and printing (src/utils/net.cpp and net.hpp); proofs in
--                    Net.Address.Urls
--   Net.Socket       Socket::connect, Reconnect and close of the same files, with their proofs
--   Kinetic.Frame    Exchange::Write and Frame::Read (src/oio/blob/kinetic/coro/RPC.cpp); proofs in
--                    Kinetic.Framing
--   Kinetic.Exchange, Kinetic.Commands
--                    Exchange, Request, Put, Get, Delete, GetKeyRange and GetNext of the same file;
--                    proofs in Kinetic.Wired
--   Kinetic.Client   CoroutineClient (CoroutineClient.cpp, PendingExchange.cpp of that directory):
--                    rpc is RPC, wake a turn of run_agent_producer up to where its Write yields,
--                    end_write what follows, and receives a turn of run_agent_consumer; proofs in
--                    Kinetic.Accounting, Owned, Signals, Writing, Checks, History and Stalled
--   Kinetic.Upload   KineticUpload (blob.cpp of that directory); proofs in Kinetic.Blocks,
--                    ZeroBlocks, Manifest and Targets
--   Kinetic.Rolling, Kinetic.Removal
--                    _rolling_delete, KineticRemoval and KineticUpload::Abort, with their proofs
--   Kinetic.Listing  KineticListing of that file; proofs in Kinetic.Batches, Listed and Ranges
--   Kinetic.Keys, Kinetic.Download
--                    KineticDownload of that file, with the keys it parses; Kinetic.Sorting stands for
--                    std::forward_list::sort; proofs in Kinetic.Window, Numbered, Gathered, Stores and
--                    RoundTrip
--   Http.Request     http::Request (src/utils/http.cpp) over a Channel; Http.Wire: the sockets of
--                    src/utils/net.cpp are channels; proofs in Http.Chunks, Body and Inline
--   Http.Parser, Http.Reply, Http.Call, Http.Parameters
--                    http::Reply, its hooks, http::Call and http::Parameters (src/utils/http.cpp and
--                    http.hpp)
--   Http.Stream      the sockets of src/utils/net.cpp as http::Reply reads them, with their proofs
--   Http.Upload, Http.Removal, Http.Download, Http.Builder
--                    HttpUpload, HttpRemoval, HttpDownload and their builders (src/oio/blob/http/blob.cpp)
--                    over an Exchange, a request and its reply on one connection; proofs in Http.Outcomes
--   Http.SocketMap   SocketMap and SocketElement (src/oio/blob/http/socket_map.h)
--   Api.Transaction  the calls of a transaction, and how often they may end it
--   Rawx.Url, Rawx.Command, Rawx.Builder
--                    RawxUrl, Range, RawxCommand and the builders (src/oio/blob/rawx/blob.hpp and
--                    blob.cpp); proofs in Rawx.RoundTrip
--   Rawx.Wrapper, Rawx.Download
--                    RawxUpload and RawxRemoval, whose steps are the same, and RawxDownload (blob.cpp of
--                    that directory), over a transaction or a download of another backend; proofs in
--                    Rawx.Ends and Rawx.Reading
--   Local.FileSystem the system calls on files, and what the proofs take for granted of them
--   Local.Upload, Local.Removal, Local.Download
--                    LocalUpload, LocalRemoval and LocalDownload (src/oio/blob/local/blob.cpp); proofs in
--                    Local.Upload.Pending, Written, Sequence and Published, and in
--                    Local.Download.Loading and Reading
--   Ec.Command, Ec.Code
--                    RawxUrlSet and EcCommand (src/oio/blob/rawx/blob.hpp, src/oio/blob/ec/blob.hpp);
--                    what is called of liberasurecode
--   Ec.Fragments, Ec.Download, Ec.Fetch
--                    EcDownload (src/oio/blob/ec/blob.cpp): its slots and masks, its loop over the
--                    targets, and the download of a fragment from a rawx service; proofs in Ec.Bits,
--                    Gathering, Slots, Offered and Fetching
--   Ec.Upload        EcUpload and EcRemoval of the same file; proofs in Ec.Addressed and Ec.Sending
--   Router.Upload, Router.Download
--                    RouterUpload, RouterDownload and RouterRemoval (src/oio/blob/router/blob.cpp);
--                    proofs in Router.Chunk and Router.Prepared
--   Directory        OioUrl and DirectoryClient (src/oio/directory/dir.cpp and dir.hpp), with
--                    OioError::Decode (src/oio/api/common.cpp) and its proofs
--   Examples         runs of the models, and the theorems at inputs that meet their hypotheses
--
-- State is passed explicitly: each operation takes the object and gives it back with its status. What
-- the kernel answers to system calls is a list of answers that the loops consume; a theorem that a loop
-- succeeds says how much the answers must give. Coroutines switch only where the code waits, so that
-- the RPC client is a step function over events, and a history is any list of them.
--
-- An assertion of the code that fails, and a read of memory outside of a buffer, give no result
-- (`none` or a constructor of an outcome), as does fuel that ends before a loop.
--
-- Bounds and fuel: `KineticUpload::Write` and `RouterUpload::Write` recurse on fuel; a unit for each
-- byte is enough where each round takes a byte. `KineticListing::Prepare` recurses on fuel too: each
-- batch takes a key or finds a drive without any. The loops on sockets recurse on the answers they
-- consume. The loops over replies of http::Reply and http::Call recurse on fuel: a round consumes an
-- answer of the socket or a slice of the body. RawxDownload::Read recurses on fuel: a unit for each
-- piece that the inner download delivers is enough. LocalUpload::Write recurses on fuel, a unit for
-- each call of write(2), which may be interrupted without end. The reads of a fragment by EcDownload
-- and of an object by RouterDownload recurse on fuel: one unit more than the pieces that the service
-- delivers is enough. Masks of fragments are numbers without a width; the shifts of the source are
-- those of 64 bits, which hold for K + M below 63. Numbers are unbounded; conversions to a machine
-- width are written where the code makes them, as a remainder by 2 ^ 32 or a conversion to a signed
-- number.
--
-- Not modelled: protobuf, rapidjson, http-parser, libmill, liberasurecode and OpenSSL, which are
-- libraries of the build and stand as arguments or as bytes; logging; GetLog, which computes with
-- floating-point numbers; the options of sockets, and servers' sockets; negative chunk numbers; the
-- replies of the directory that are parsed into a payload; the services of containers and contents;
-- checksums; the server programs.
mod Prelude
pub mod Api
pub mod Mem
pub mod Net
pub mod Kinetic
pub mod Router
pub mod Ec
pub mod Directory
pub mod Http
pub mod Rawx
pub mod Local
mod Examples

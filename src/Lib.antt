-- ===== src/Lib.antt =====
-- zfs-live: an SMAPIv3 storage driver that keeps each virtual disk in a ZFS volume.
--
-- Parts of the program. The volume plugin (src/volume/volume.py) serves one request of xapi at a
-- time: it opens the metabase of libcow within three scopes, a volume context, a lock and a
-- database context, and drives ZFS by the helpers of src/volume/zfs_operations.py. These run the
-- zfs command, with a retry while something is busy, or call libzfs_core by
-- src/volume/lzc.py where the shared libraries on the host export what an operation needs. The SR
-- plugin (src/volume/sr.py) makes, attaches, lists and probes the dataset that holds the volumes,
-- keeps a metadata file in it, and cleans up volumes that the metabase does not know.
-- Incremental backup asks the volume plugin for the blocks that changed, as a bitmap in base64,
-- which it builds from what a qemu answers on a socket of the NBD protocol. A wrapper of xe
-- (src/shim/xe_wrapper.py) takes `vdi-copy` to the plugin's own copy where it can.
--
-- How it is modelled. `Effects` has a history of what the driver did to the outside (commands
-- run, ioctls, calls of the metabase, scopes entered and left, files and directories, pauses) and a
-- record `World` that answers each call by a function of that history: the answers of commands, the
-- kernel, libcow, the loader, the files, the clock and the processes are arbitrary, and any call of
-- the metabase or entry or exit of a scope may raise. A handler is an action: a function from a
-- history to a value or an exception and a longer history. Locks are those of libcow: the model has
-- the order of the scopes, not their waiting. The NBD client is a session: a function of a
-- connection, which has the pieces that are still to be received and the bytes that were sent.
--
-- Which file models which part:
--   * Prelude: Python's text functions, base64 and lists on native numbers;
--   * Effects: events, exceptions and the monad; Triple has what an action may do (`Does`), Hoare what
--     holds of the history before and after it, Kinds the kinds of events, Scopes the discipline of the metabase's scopes;
--   * Lzc: src/volume/lzc.py. Gates is the choice of a library (`_try_load_lib`, `_try_load_nvpair`,
--     `_ensure_init`) and `_op_available`; Retry the four ioctls and their `…_with_retry`. Kinds,
--     GateLaws and RetryLaws are proofs;
--   * Zfs: src/volume/zfs_operations.py. Command is `run_zfs_command`, Datasets the datasets and
--     `_lzc_recursive_destroy`, Zvols the zvols and snapshots, Reservation thick provisioning,
--     Reported the properties that `stat` shows, Orphans the search for orphans with the signs of use
--     (`_zvol_device_is_open`, `_zvol_has_active_datapath`) and their clean-up, Pools the pools, the
--     SR marker and the mount of a dataset. Kinds, Outside, Readers, PoolReaders, RetryLaws,
--     ReportedLaws, OrphanLaws, IdleChecks, IdleLaws, Answers, Places, ChildLaws and CleanUpLaws are
--     proofs;
--   * Volume: `Implementation` of src/volume/volume.py, a file for each group of handlers, and
--     `call_volume_command` as Dispatch; Metabase has the scopes, `recover_vdi_vsize` and the
--     URI prefixes of src/volume/zfs_live.py and src/volume/libcow/imageformat.py. Discipline,
--     Refusals, SnapshotLaws and KeyLaws are proofs;
--   * Sr: src/volume/sr.py. Config is `_parse_zfs_config`, Metadata the file of the SR, Create is
--     `create` with the adoption of zvols, Attach has `attach`, `detach`, `destroy` and `stat`,
--     Listing is `ls` with the reconciliation of orphans, Probe is `probe`; Features is
--     src/volume/zfs_features.py with src/volume/sr_capability_summary.py. Readers, ConfigLaws,
--     PlaceLaws, CreateLaws, ListingLaws, ProbeLaws and FeatureLaws are proofs;
--   * Nbd: src/datapath/nbd_client.py. Bytes has the fields of `struct`, Socket a connection with
--     `_recv_exact` and `_send_all`, Session the messages: `_handshake`, the three options and the
--     structured replies up to `fetch_dirty_extents` on a connection; Walk is `_walk_block_status` on
--     chunks that are unpacked. Encoding, Negotiation, Options and Exchange have what a server sends
--     by the protocol, with proofs; SocketLaws, Decoding, Refinement and Coverage are proofs;
--   * ChangedBlocks: Pack is `_pack_extents_to_bitmap` and `_empty_changed_blocks_result`, Listing is
--     `list_changed_blocks` with the granularity and src/datapath/cbt_consumer.py; Bits, Overlap
--     and Complete are proofs;
--   * Shim: src/shim/xe_wrapper.py. Host is what it asks of its host, Wrapper `_parse_kv_args`,
--     `_try_fast_path` and `main`; WrapperLaws is a proof;
--   * Tests: concrete runs, of the bitmap in Bitmaps, of the SR in Srs, of the NBD client in Wire and of
--     the wrapper of xe in Wrapper;
--     Worlds has the outside that they share.
--
-- Choices. The plugin runs under Python 2 on the host, where text and bytes are one type; texts are
-- native strings here, and lists of bytes on a connection. An exception carries the values that its
-- message is formatted from. A dictionary is an association list, in the order of insertion. The
-- defaults of the retry arguments (ten tries, a pause of 0.1 s) are used, as by every caller. `int` of a
-- text with a sign counts as a failure to parse; ZFS prints none. A clone of a snapshot that ZFS does
-- not list passes `None` for its name, which is an exception of type_error here. The datapath plugin's
-- side of change tracking is the record `Datapath`, which a handler takes as an argument; the
-- discipline of scopes assumes that it calls no metabase (`IsSeparate`), which holds where it is not
-- installed. `list_changed_blocks` takes the server behind each socket, with the outcome of the
-- negotiation, as an argument. The session reads a whole reply before its chunks are looked at,
-- where the code looks at each as it comes; an exception ends both, and what was yielded is lost.
-- `libzfs_core_init` answers the same whenever it is called. Offsets and lengths are natural numbers,
-- unbounded as in Python, but 64-bit words in an nvlist; the fields of a message have the
-- sizes of the protocol, and a value that does not fit its field, which `struct.pack` refuses, is cut.
--
-- Termination. Most loops are structural: over lists, over the tries that are left (`while ntries`,
-- `range(max_attempts - 1)`) or over the blocks of a range. Fuel is used for the walk over the block
-- status, one round for each 2 GiB of the export and one more; for `_recv_exact`, a round for each
-- byte, since each takes one at least; for the replies to an option and the chunks of a reply, as
-- many as there are bytes to be received and one more, since each has twenty at least; for the
-- descriptors of a chunk, as many as its bytes; and for the digits of a number.
--
-- Not modelled: the datapath plugin with its QMP client and the proxy (src/datapath), of which
-- only the NBD client and the consumer of change tracking are; the two copies that the wrapper of xe
-- runs, whose answers are the host's, and the other shims (src/shim); plugin queries, the installer
-- and the changelog tool; the creation, import and export of pools and `vol_copy_raw`, which the
-- plugins do not call; logging; the connecting, the timeout and the closing of a socket; the ctypes
-- signatures of libzfs_core.
pub mod Prelude
pub mod Effects
pub mod Lzc
pub mod Zfs
pub mod Volume
pub mod Sr
pub mod ChangedBlocks
pub mod Nbd
pub mod Shim
mod Tests

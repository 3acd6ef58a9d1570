-- ===== src/Lib.antt =====
-- Verification of the Global Data Plane: the client library gdp/, on the utility library ep/, and the
-- log daemon's append and subscribers in gdplogd/.
--
-- A program names objects by 32 bytes (gdp/gdp_name.c prints and reads such names, in base 64 by
-- ep/ep_b64.c), describes them by metadata (gdp/gdp_md.c), and exchanges packets with a router over a
-- channel (gdp/gdp_chan.c). Status codes (ep/ep_stat.h, gdp/gdp_stat.h) carry lengths as well as
-- errors, and hash tables (ep/ep_hash.c) keep the objects that are open (gdp/gdp_gob_cache.c), which are
-- counted and reused (gdp/gdp_gob_mgmt.c). ep/ep_xlate.c turns byte
-- strings into text and back. A request waits for its answers (gdp/gdp_req.c), which become events that
-- wait for their turn (gdp/gdp_event.c). A record of a log is a datum (gdp/gdp_datum.c): the client
-- numbers, links, signs and sends it (gdp/gdp_gob_ops.c, gdp/gdp_proto.c), and the log daemon checks and
-- stores it (gdplogd/logd_proto.c) and tells its subscribers (gdplogd/logd_pubsub.c).
--
-- Base        what the other files share: tests, lists, options, bit masks
-- Stat        EP_STAT and its parts (ep/ep_stat.h, ep/ep_statcodes.h, gdp/gdp_stat.h)
--             In Stat/Acknak get_default_estat with the answers of DispatchTable (gdp/gdp_proto.c), and
--             _gdp_acknak_from_estat (gdp/gdp_main.c)
-- Wire        PUT8 to PUT64 and GET8 to GET32 (gdp/gdp_priv.h); a writer gives the bytes it appends, a
--             reader takes them from the front, and none is a read past the end
-- Md          gdp_md_new, gdp_md_add, _gdp_md_adddata, gdp_md_get, gdp_md_find (gdp/gdp_md.c). The
--             array that realloc extends has unknown contents, a parameter. Md/Serial has
--             _gdp_md_serialize, _gdp_md_deserialize, _gdp_md_clone and _gdp_md_to_gdpname; Md/Entries
--             is the abstract view, a list of identifiers with their bytes
-- B64         ep_b64_enc_len, ep_b64_encode, ep_b64_decode. Text is a list of bytes; the loops keep
--             the source's indices by their remainders. size_t is written out as 64 bits, and char is
--             signed: an index of 128 and more is below the table, which is left as it was
-- Buf         the event library's buffers, by the calls that are made of them: an interface with its
--             documented behaviour, and Buf/Bytes, an instance by lists of bytes
-- Chan        read_header, and below it chan_read_cb (Chan/Loop) and send_helper with its callers
--             (Chan/Send). The callbacks are parameters. The variables that read_header writes through
--             pointers are the record Cursor. chan_read_cb runs on fuel, one unit for each packet and
--             one for the end. No fuel is enough for a header that drains nothing
-- Name        gdp_printable_name, gdp_internal_name, gdp_name_is_valid, gdp_name_parse and
--             gdp_name_resolve. The database's answer to a query is a parameter. Words are
--             little-endian, which the test for zero does not see. Where a name is not found, what is
--             left in its buffer is not modelled
-- Hash        ep_hash_new, find_node_ptr, ep_hash_search, ep_hash_insert, ep_hash_delete,
--             ep_hash_forall. Every operation holds the table's lock from start to end, so it is one
--             step. The default hash function is for tables below 2^30, where its shift stays in an int
-- Cache       the cache of open objects (gdp/gdp_gob_cache.c): sorted_insert and rebuild_lru_list, and
--             in Cache/Steps add_cache_unlocked, _gdp_gob_touch, _gdp_gob_cache_drop and
--             _gdp_gob_cache_changename as steps on a store of objects, the table and the list. An
--             object is its address. A read through NULL is none, and so is the insertion of an object
--             that the list has. The check of the list before each step, which finds nothing to mend
--             when the list is in order, is left out
-- Gobs        the life of an open object: _gdp_gob_new, _gdp_gob_free, _gdp_gob_incref, _gdp_gob_decref
--             and the lock (gdp/gdp_gob_mgmt.c), and in Gobs/Access _gdp_gob_cache_get,
--             _gdp_gob_cache_reclaim and _gdp_gob_cache_shutdown (gdp/gdp_gob_cache.c). A lock is its
--             flag; each operation is one step. Where ep_mem_zalloc puts an object, the name that
--             _gdp_newname makes up, the clock, the locks other threads hold and the file descriptors in
--             use are parameters. The loop of _gdp_gob_cache_reclaim runs on fuel, of which one more
--             than the age is enough. Gobs/Runs has the runs of these operations from the start, each
--             with the conditions of its step
-- Xlate       ep_xlate_in and ep_xlate_out (ep/ep_xlate.c). A C string is its bytes before the NUL;
--             isprint is a parameter. The loop of ep_xlate_in runs on fuel, and the length of the text
--             is enough, since each turn takes a byte. size_t is written out as 64 bits
-- Time        sums, order and conversions of times (ep/ep_time.c), which are not negative here
-- Event       events (gdp/gdp_event.c): _gdp_event_new, gdp_event_free, _gdp_event_trigger; in
--             Event/Queue insert_pending_event, _gdp_event_trigger_pending and
--             _gdp_event_add_from_req, and in Event/Next gdp_event_next, _gdp_event_free_all and the
--             callback thread. An event is its address and a list is a list of addresses, so what
--             happens to the links of an event that is put on two lists is not seen. The clock and the
--             delays are parameters. The loops run on fuel: for a request that does not persist, one
--             more than its events is enough, for one that persists no fuel may be
-- Request     requests (gdp/gdp_req.c): _gdp_req_new and _gdp_rid_new; in Request/Send _gdp_req_send,
--             which here does not write the message, _gdp_req_unsend and _gdp_req_find up to its first
--             wait; and in Request/Free _gdp_req_free, whose fuel is for the delivery of its events. A
--             request is its address, and its message is its identifier. Request/Released is about what
--             is left of a freed request. Request/Runs has the runs of these operations from the start,
--             each with the conditions of its step; between two of them other operations change the
--             objects and the events, and callers set the state and flags. The requests that the release
--             of an object frees are not modelled
-- Datum       datums (gdp/gdp_datum.c): gdp_datum_reset, gdp_datum_new and gdp_datum_free, on a pool of
--             addresses; in Datum/Message _gdp_datum_to_pb, _gdp_datum_from_pb and the times in a
--             message; in Datum/Digest the bytes of a datum's digest, _gdp_datum_hash, _gdp_datum_sign
--             and _gdp_datum_vrfy_gob. The cryptography (ep/ep_crypto.h, over OpenSSL) is an interface,
--             with the law that what one key of a pair signs the other verifies. A message on its way is
--             the interface Protobuf: what is unpacked is what was packed
-- GobOps      append_common (gdp/gdp_gob_ops.c), up to the asynchronous or waiting call that sends
--             its request; GobOps/Delivery puts it together with the daemon. The clock and the status of
--             _gdp_req_new are parameters
-- Logd        the log daemon: the physical layer is an interface (struct gob_phys_impl, gdplogd/logd.h),
--             whose laws are that it keeps a record that it takes; Logd/Append has cmd_append
--             (gdplogd/logd_proto.c) once the log is open, with the flags of its configuration. An answer
--             is its command and status; a read through NULL is none
-- Invoke      _gdp_invoke (gdp/gdp_proto.c) over Request. Its loop is structural on the attempts that
--             are left, from the assertion that the request is active; a wait is the list of its wakes,
--             each with what other threads did to the requests before; what _gdp_pdu_out and the wait
--             return is a parameter. Invoke/Results has ack_data_content and ack_end_results, on the
--             counts and the events of a request
-- Pubsub      subscribers of a log (gdplogd/logd_pubsub.c), over Request: sub_send_message_notification,
--             sub_end_subscription, sub_notify_all_subscribers, sub_end_all_subscriptions and
--             gob_reclaim_subscriptions, the turns of whose loop are bounded by fuel. Pubsub/Loop has
--             what a loop over the list of an object does, from what one round does. The limit of time,
--             the statuses of _gdp_pdu_out and whether a request can be locked are parameters
-- Tests       the theorems at concrete inputs
--
-- Not modelled: logging and debug output, memory allocation and its failure (the program aborts then),
-- locks, the connection of a channel, the name database's protocol, the algorithms of cryptography, and
-- the parts of the program that have no file here: the framing of messages, the subscriptions of a
-- client, the daemon's other commands and its storage.
pub mod Base
pub mod Stat
pub mod Wire
pub mod Md
pub mod B64
pub mod Buf
pub mod Chan
pub mod Name
pub mod Gobs
pub mod Time
pub mod Datum
pub mod GobOps
pub mod Invoke
pub mod Pubsub
pub mod Logd
pub mod Event
pub mod Request
pub mod Xlate
pub mod Hash
pub mod Cache
pub mod Tests

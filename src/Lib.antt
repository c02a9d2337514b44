-- ===== src/Lib.antt =====
-- Homestead, the HSS cache of Clearwater: what of it is modelled, and what is shown.
--
-- Homestead answers the HTTP requests of Sprout and the Diameter requests of the HSS from the records of
-- subscribers that it caches. The parts that decide what is stored and returned are modelled here; they
-- build on one another in this order.
--
-- Prelude: native numbers, signed integers, ordered dictionaries (`std::map` with string keys), vectors.
-- Varbyte: `encode_varbyte` and `decode_varbyte` of src/impu_store.cpp. The loop that encodes takes ten
--   rounds of fuel, which is enough for a `uint64_t`; the undefined shift of an `int` is a result.
-- Store: what src/impu_store.cpp uses of `Store`, which another repository implements.
-- ImpuStore: the records of src/impu_store.cpp and include/impu_store.h, with include/reg_state.h and
--   include/charging_addresses.h. ImpuStore.Json is their JSON, ImpuStore.Codec `to_data` and `from_data`,
--   ImpuStore.Ops the operations of the class `ImpuStore`. rapidjson and LZ4 are parameters (`Libs`).
--   The buffer of the compressor doubles from 2 KB to 128 KB, so that its loop takes seven rounds.
-- XmlUtils: src/homestead_xml_utils.cpp: the identities of a subscription (`get_public_and_default_ids` and
--   its callers), and in XmlUtils.RegData the document that `build_ClearwaterRegData_xml` builds.
--   rapidxml is a parameter (`XmlLib`), which turns a text into a tree.
-- Irs: `MemcachedImplicitRegistrationSet` of include/memcached_cache.h and src/memcached_cache.cpp:
--   the record, its setters, and in Irs.Elements the states that its IMPIs and IMPUs go through.
-- Cache: `MemcachedCache` of src/memcached_cache.cpp over a local and several remote stores
--   (`ImpuStoreOps`), with src/base_hss_cache.cpp and include/base_ims_subscription.h.
--   Cache.Mappings is `update_irs_impi_mappings`, Cache.Associated `update_irs_associated_impus`,
--   Cache.Record the loop `perform_irs_impu_action`, Cache.Actions the operations on every store, and
--   Cache.Subscription the reads and writes of several IRSs. The loops over DATA_CONTENTION have no bound
--   in the code; they take fuel, and `none` is its end. Cache.Cas and Cache.RecordCas show for which
--   stores and how much fuel they end, and Cache.Livelock when they do not.
-- RegDataTask: `ImpuRegDataTask` and `ImpuReadRegDataTask` of src/http_handlers.cpp and
--   include/http_handlers.h, which use the cache and the HSS to answer a request for registration data.
--   RegDataTask.Handlers has the handlers as functions from the members of the task to a turn: the
--   replies, and what the task then waits for. RegDataTask.Machine runs them as the callbacks come
--   (src/hss_cache_processor.cpp), in any order that the interfaces allow.
-- CacheProcessor: src/hss_cache_processor.cpp, by the callbacks that its calls of the cache make.
--   A read of a store that throws or is undefined, which ImpuStore.Ops models, is not followed through the
--   cache and its processor: `ImpuStoreOps` has the reads that return.
-- HssConnection: the requests to the HSS and its answers, include/hss_connection.h, and what the tasks ask
--   of a connection: a record of the four requests with one law.
-- Diameter: what src/cx.cpp uses of the library of Diameter messages, which another repository implements:
--   a record of operations (`DiameterLib`) and one of the laws that it is relied on for. Diameter.Trees
--   keeps the laws.
-- Cx: the messages of src/cx.cpp over that library: the requests in Cx, the answers in Cx.Answers, and in
--   Cx.Pushed the requests of the HSS.
-- DiameterHss: src/diameter_hss_connection.cpp, which creates the answers from messages;
--   DiameterHss.Connection is the connection for the tasks.
-- HsProv: src/hsprov_store.cpp and src/hsprov_hss_connection.cpp, the other connection for the tasks, over a
--   client of Cassandra.
-- Sprout: the requests of src/sproutconnection.cpp.
-- ImpiTasks, LocationTasks: the other tasks of src/http_handlers.cpp, over any connection: those for
--   authentication vectors, and those for a registration status and for a location.
-- RegistrationTermination: `RegistrationTerminationTask` of src/diameter_handlers.cpp, as the list of what it
--   does (`run`), for whatever the cache and Sprout reply (`Peers`);
--   RegistrationTermination.Messages goes from the message that comes in to the one that goes out.
-- PushProfile: `PushProfileTask` of the same file, in the same way, with PushProfile.Messages.
--   PushProfile.Cached puts the cache's `put_ims_subscription` in the place of the reply to a write.
-- Startup: of src/main.cpp the command line (`Options`, Startup.Parse) and the configuration that `main`
--   makes of it (Startup.Config): of the tasks, of the connection to the HSS, and how long a record is stored.
--   Startup.Running puts them together.
--
-- A store is a record of functions that pass a world on, so that other nodes may write between two
-- calls. Time is an argument, `now`. Numbers of 32 bits wrap around where the code narrows them.
--
-- Not modelled: of src/main.cpp the calls that create threads, resolvers, handlers and alarms; the pool of
-- threads of src/hss_cache_processor.cpp; src/statisticsmanager.cpp (counters); logging and latencies in
-- all parts.
pub mod Prelude
pub mod Varbyte
pub mod Store
pub mod ImpuStore
pub mod XmlUtils
pub mod Irs
pub mod Cache
pub mod RegDataTask
pub mod CacheProcessor
pub mod Cx
pub mod Diameter
pub mod DiameterHss
pub mod HsProv
pub mod HssConnection
pub mod ImpiTasks
pub mod LocationTasks
pub mod PushProfile
pub mod RegistrationTermination
pub mod Sprout
pub mod Startup

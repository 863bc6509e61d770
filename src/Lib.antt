-- ===== src/Lib.antt =====
-- Fabric peer extensions: a verification library for the repository's Go code. It models parts of
-- the extensions that a Hyperledger Fabric peer is built with: how the committers and validators of
-- an organization share the validation of a block and agree on its flags, how a committed block is
-- taken apart and published to the handlers of the peer, how requests to other peers are answered
-- and merged, how the resources of the peer are created, how private data is keyed, the
-- configuration that is kept in the ledger, and the counter of shared references.
--
-- How the parts interact. A committer chooses the peers that validate (Validation.Selector, from the
-- members that Discovery finds), each of which validates the transactions that its filter selects.
-- The results of the peers reach the committer, which keeps them in a cache by block
-- (Validation.ResultsCache), checks each against the policy of the organization
-- (Validation.Evaluator), and merges the flags (Validation.TxResults on Validation.TxFlags) until
-- all are set or its timer fires (Validation.Validator). A block that is committed is then visited
-- (BlockVisitor), and the publisher gives what is in it to its handlers (Publisher); one of them keeps
-- the cache of the ledger configuration up to date (LedgerConfig). Requests for validation wait for
-- their block in RequestCache, and the private data of the block is stored under the keys of PvtData.
--
-- Which file models what:
-- - Prelude and below: Go slices, maps and results, sorting as an interface with its law.
-- - Reference: pkg/common/reference/counter.go. Reference is the code, Reference.Protocol a resource
--   and its holders that the sequential calls implement, Reference.Interleaving the atomic steps of
--   calls that run at once, with what a call has read so far in its program counter, and
--   Reference.Closing how often the closer is called.
-- - Discovery: pkg/common/discovery (discovery.go, member.go, peergroup.go) and pkg/roles/roles.go.
-- - Validation.TxFlags: pkg/common/txflags/validation_flags.go, a flag for each transaction.
-- - Validation.TxResults: pkg/validation/validator/txresults.go (newTxResults, Merge,
--   markDuplicateTxIDs, allValidated, UnvalidatedMap).
-- - Validation.Selector: pkg/validation/validationpolicy/peergroupselector.go and peergroups.go.
-- - Validation.ResultsCache: pkg/validation/validationresults/validationresults.go.
-- - Validation.Evaluator: pkg/validation/validationpolicy/policyevaluator.go.
-- - Validation.Validator: pkg/validation/validator/validator.go (Validate,
--   waitForValidationResults, handleResults, validateBlock, getTransactionsToValidate).
-- - BlockVisitor: pkg/common/blockvisitor/blockvisitor.go and context.go. Data has what is read and
--   published, Action the errors, the handlers and the loops, Publish and Visit the traversal, a
--   function for each method; Items says what there is in a block whatever the client does, and
--   Refinement compares the two; Height is the Visitor, Client its options.
-- - MultiRequest: pkg/common/common.go (Values) and pkg/common/multirequest/multirequest.go.
-- - ResourceMgr: pkg/resource/resourcemgr.go, the creation of resources in rounds.
-- - RequestMgr: pkg/common/requestmgr/requestmgr.go, the requests of one channel on a heap that they
--   share with their clients; RequestMgr.Blocked has the steps of calls that run at once,
--   RequestMgr.Channels the managers of all channels.
-- - LedgerConfig: pkg/config/ledgerconfig and pkg/common/compositekey/compositekey.go. Config has the
--   keys and configurations (config/keyvalue.go, config.go), Criteria the criteria and the filter of
--   results (config/criteria.go, mgr/configresults.go), KeyValueMap what a configuration is saved as
--   (mgr/keyvaluemap.go, validator/validator.go), Keys the texts of keys and index entries, Manager
--   Save, Query and Delete (mgr/updatemgr.go, querymgr.go), Service the cache (service/service.go).
--   Strings are lists of bytes there.
-- - Publisher: pkg/gossip/blockpublisher/blockpublisher.go, a client of BlockVisitor. Publisher has
--   the handlers and Publish, with a send that the listener handles before it receives the next;
--   Publisher.Listener has the steps of the goroutines, which give the handlers the same events.
-- - RequestCache: pkg/validation/validationhandler/requestcache.go.
-- - BlockCache: pkg/blkstorage/cdbblkstorage/blockcache.go. Coherent compares a call with the store,
--   History has the histories of store and cache, Latest the pinned config block.
-- - Disseminator: pkg/collections/transientdata/dissemination/disseminator.go, on Discovery. Counting and
--   Members are about groups of peers, Rounds and Chosen about the loop that chooses endorsers, Endless
--   about endorsers that share an endpoint.
-- - OffLedger: pkg/collections/offledger/storeprovider. OffLedger is store/cache/cache.go,
--   OffLedger.Config and OffLedger.Store are olstore.go, OffLedger.Laws what is stored and read.
-- - PropResp: pkg/txn/proprespvalidator/validator.go. Definitions has the definitions of chaincodes and
--   their cache, Responses the checks of the responses and the signature set, Policies the rest up to
--   Validate; Cached compares it with a validator that has no cache, Endorsed says what is VALID.
-- - CommitCheck: pkg/txn/handler/checkforcommit.go; CommitCheck.Decision has the writes that count.
-- - PvtData: pkg/pvtdatastorage/common (kv_encoding.go, and of helper.go and store.go the
--   entries) and pkg/common/version/version.go. Varint has the numbers in reverse order, Keys the keys,
--   Expiry the entries; VarintLaws, VarintOrder and KeyLaws are about the keys, Derived and Complete
--   about what is derived from the entries; Assembler and ByBlock put entries together again.
--
-- Parameters, for code outside the repository: the codes of Fabric (Codes), sorting (Sort), the
-- policy library (PolicyLibrary), gossip (Gossip), the decoders of the ledger's messages
-- (Protocol), the state database (StateStore), encoding/json (Json), whose law is for texts that
-- are UTF-8 (Prelude.Utf8), the encodings of numbers in golang/protobuf (Varint) and Fabric
-- (OrderPreserving), the decoders of a proposal response (Decoders), what the check of the
-- responses asks of Fabric (Fabric), the caches of github.com/bluele/gcache (GCache), the policy
-- of expiry (BtlPolicy) and strings.ToLower. The invoker of pkg/common/injectinvoker, which works
-- by reflection, is a parameter although it is in the repository: with the creators it is one
-- function of the providers so far, and a creator that panics is left aside. The databases of
-- off-ledger collections, behind the interface api.DB of the repository, are Databases, of which
-- no law is assumed; their cache with expiry is ExpiringCache, and what the store asks of its peer
-- is Peer. The store behind the block cache and what is decoded of a block are the records
-- Retriever and Blocks. A client of the visitor is a state with callbacks that change it.
--
-- Integers and bounds. The 32-bit count of a reference counter is its bit pattern, and it wraps. A
-- ledger height, a request ID and the difference of two heights wrap at 64 bits. A flag is a byte.
-- Other integers are lengths and indexes, which do not reach a bound. The rounds of the resource
-- manager run on fuel, one unit for each creator, which is enough, and so do those that choose
-- endorsers, one unit more than there are endorsers, which is enough where their endpoints differ;
-- every other loop runs over a list or counts down. An index out of range panics, as a value of
-- Outcome or of Failure, and in BlockVisitor a payload without a header and an action payload
-- without an action do. The write set of private data that is stored, and the other pointers that
-- the code follows, are taken not to be nil.
--
-- Concurrency. A channel and its timer are the list of the events that are received; what arrives
-- in any order is stated for every order. The reference counter, the request manager and the
-- publisher have a step relation on the steps of their calls; the swap to the closed status and
-- the call of the closer are two steps.
--
-- Not modelled: logging, metrics, locks where only one operation runs under them, the sending of
-- gossip messages, CouchDB and LevelDB storage, the transaction client, the chaincodes, and the
-- wiring of the peer.
pub mod BlockCache
pub mod BlockVisitor
pub mod CommitCheck
pub mod Discovery
pub mod Disseminator
pub mod LedgerConfig
pub mod MultiRequest
pub mod OffLedger
pub mod Prelude
pub mod PropResp
pub mod Publisher
pub mod PvtData
pub mod Reference
pub mod RequestCache
pub mod RequestMgr
pub mod ResourceMgr
pub mod Validation

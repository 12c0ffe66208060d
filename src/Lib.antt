-- ===== src/Lib.antt =====
-- Cloudy: the economy, the record, the market, the claims and the disputes of a cooperative, in Go.
--
-- The economy (internal/economy) keeps one ledger of mutual credit for each platform: members sign
-- spends, stewards sign policy changes, and every ledger value derives its balances from a shared
-- append-only store, against which several writers race. The record (internal/record) keeps what
-- members agree: entries that two members seal, an operator's log of them as a Merkle tree, signed
-- checkpoints of the log, witnesses that countersign them, a second log of the course of each harm
-- claim, an intake for filings, and each member's own erasable locker. The market (internal/market)
-- and the tree of techniques (internal/techtree) are append-only logs with a hash chain: of signed
-- listings and their sales, and of signed claims and the references between them. The covenant
-- (internal/covenant) admits signed verdicts on sealed exchanges and counts them as a member's
-- standing; disputes (internal/dispute) take a sealed exchange through an opening to a ruling or a
-- withdrawal. An operator's root key (internal/opcred) delegates to its online keys for a window of
-- time. The storage (internal/storage) pads objects to size classes, places their shards on hosts,
-- and audits the hosts with challenges. The parts share no state. Covenant and dispute ask the
-- record, through an interface (Anchors), whether an exchange is sealed; here that is a function
-- that the definitions take. Each part stands on the primitives below.
--
-- Where what is modelled
--   Prelude            numbers, lists, Go maps as association lists, byte slices, 64-bit words with
--                      their wrap-around (Prelude.Word), and a value-or-error result
--   Primitives         crypto/ed25519, crypto/sha256 and the canon encoder, which are not in the
--                      repository: a record of functions that the definitions take. IsSigner is what
--                      is documented of keys and signatures, and IsDigest that SHA-256 returns 32
--                      bytes. No hypothesis says that it is free of collisions: a theorem that
--                      depends on that leaves as its other case a collision among the pairs of
--                      hashes that the code hashes in the run (Record.Tree.Hashed says which).
--                      Primitives.Toy is a concrete instance, for tests.
--   Economy.Spend      internal/economy/spend.go
--   Economy.Policy     internal/economy/policy.go
--   Economy.Store      internal/economy/store.go: the in-memory store
--   Economy.Ledger     internal/economy/ledger.go: admitSpend is `admit_spend` with the tests on
--                      amounts in `admit_amount`, Open is `open_ledger`, catchUp is `catch_up`, and
--                      one turn of the loop of Post or Enact is `round`. The directory of member
--                      keys is a function. What other writers append meanwhile is an argument
--                      (`Others`), so a theorem holds for each interleaving of appends.
--   Record.Entry       internal/record/entry.go
--   Record.Tree        internal/record/tree.go: mth is `mth`, provePath `prove_path`, rootFromPath
--                      `root_from_path`, proveConsistency `prove_consistency`, consRoots `cons_roots`
--   Record.Checkpoint  internal/record/checkpoint.go
--   Record.Verify      internal/record/verify.go
--   Record.Log         internal/record/log.go: the log, and apart from it its in-memory store
--   Record.Witness     internal/record/witness.go: the witness with its last checkpoint of each log
--   Record.Lifecycle   internal/record/lifecycle.go
--   Record.Filing      internal/record/filing.go
--   Record.Locker      internal/record/locker.go
--   Market.Listing     internal/market/category.go, rails.go and listing.go
--   Market.Catalog     internal/market/catalog.go: OpenLog is `open_catalog`
--   Techtree.Claim     internal/techtree/claim.go and reference.go
--   Techtree.Tree      internal/techtree/tree.go and weight.go: buildsOnReaches is
--                      `builds_on_reaches`, its outer loop `search_edges`, its inner `push_edges`
--   Covenant.Assessment  internal/covenant/assessment.go
--   Covenant.Store     internal/covenant/memstore.go
--   Covenant.Standing  internal/covenant/standing.go and distribution.go, and the loop of
--                      Book.Standing, which is `tally`
--   Covenant.Book      internal/covenant/book.go: Record is `record_assessment`, RecordAnswer
--                      `record_answer`
--   Dispute.Artifact   internal/dispute/opening.go, ruling.go and withdrawal.go
--   Dispute.Store      internal/dispute/memstore.go
--   Dispute.Registry   internal/dispute/registry.go and case.go: Open is `open_dispute`, Rule `rule`,
--                      Withdraw `withdraw`, Case `case_of`
--   Opcred.Keyset      internal/opcred/keyset.go, without its files
--   Opcred.Delegation  internal/opcred/root.go, and the signer of root_file.go
--   Storage.Entropy    internal/storage/placement.go: uniformInt
--   Storage.Placement  internal/storage/placement.go: PlaceShards is `place_shards`, its two loops
--                      `pass_1` and `pass_2`
--   Storage.Quantize   internal/storage/quantize.go
--   Storage.Audit      internal/storage/audit.go
--
-- Bounds and fuel. An int64 and a uint64 are written with their wrap-around where the source
-- computes with them. A hash is the number that its 32 bytes spell, and IsHash is its bound, a
-- hypothesis of the theorems that need it. An instant is a number of
-- nanoseconds. The recursions of the tree run on fuel: the number of leaves for the prover and the
-- length of the proof for the verifier, since each call splits the leaves or takes one hash off the
-- proof. largestPow2LT has 64 rounds, which are enough up to the size 2^63; above it the source
-- does not return, and the model yields `none` or `false` there. The length of a slice is a number
-- without bound, as no slice in memory reaches 2^63, and so is a count of verdicts or citations.
-- The search of the tree has as many turns as the log has items, and two more: each turn takes a
-- claim off the stack, and the edges of a claim are pushed once. The loop of uniformInt takes 8 bytes
-- of the reader in a turn, so the length of the reader bounds its turns.
--
-- Not modelled. Locks: a call is one step. Stores other than the in-memory ones, and their
-- failures. Copies of slices, which values do not need. The text of error messages: an error is a
-- constructor, and the cause that an error wraps is dropped. Labels for display (String methods).
-- In opcred the files of seeds, and the transmissions, which are of the protocol module. In
-- storage sealing, erasure coding, fetching and cover traffic. The packages contribute, enroll,
-- and the relays; and the HTTP handlers and programs, which are input and output.
pub mod Prelude
pub mod Primitives
pub mod Economy
pub mod Record
pub mod Market
pub mod Techtree
pub mod Covenant
pub mod Dispute
pub mod Opcred
pub mod Storage

-- ===== src/Lib.antt =====
-- A model of the Obsidion node's core and of its bridge's ledger and minting, with proofs.
--
-- Obsidion is a proof-of-work currency in Python. `obsidion/` is the node: the transactions and blocks
-- that travel, the rules that a block must pass, the chain state, which applies blocks to a table of
-- unspent outputs in a SQLite database and switches to the branch with the most work, and the memory
-- pool of transactions that wait for a block. `bridge/` mints wrapped coins on another chain against
-- deposits, and keeps a ledger of what it has done. The chain state and the pool call the rules, the
-- rules call the block and transaction formats, and those call the hashes; the bridge stands alone.
--
-- Which file models which part:
--
--   Params          obsidion/params.py: NetworkParams, MAINNET, TESTNET, REGTEST
--   Crypto          obsidion/crypto.py: sha256d, hash160, pow_hash, sign, verify, hash_to_int
--   Wire            struct.pack and unpack, and the reading of a buffer at an offset
--   Transaction     obsidion/transaction.py: Model (the dataclasses, check_structure), Varint and
--                   Codec (serialize, deserialize), Signing (signature_hash, sign_input,
--                   verify_input, coinbase, encoded_height)
--   Merkle          obsidion/merkle.py: merkle_root, merkle_proof, verify_proof
--   Block           obsidion/block.py: Compact (compact_to_target, target_to_compact), Model
--                   (BlockHeader, Block)
--   Consensus       obsidion/consensus.py: Emission (subsidy and the supply), Difficulty
--                   (expected_bits, median_time_past), Rules (the check_ functions)
--   Table, Storage  obsidion/storage.py: ChainDB, each SQL table an association list
--   ChainState      obsidion/chainstate.py: Undo (the undo records), Connect (_connect,
--                   _add_outputs, _disconnect), Reorg (tip, the walks along the parents, _reorg_to),
--                   Left (what a step that raises has written), Accept (accept_block,
--                   _remember_invalid, _ensure_genesis); Genesis is obsidion/genesis.py. Restore is about Connect, Accept/Runs about sequences of
--                   offered blocks
--   Mempool         obsidion/mempool.py: Mempool (its methods), Rate (fee_rate), Select (select);
--                   WellFormed, Eviction, Budget, Room, Admission and Runs are about its invariant,
--                   Depth about its recursion
--   Miner           obsidion/miner.py: build_template and grind
--   Bridge          bridge/ledger.py: Event (State, Deposit, Burn, the rows), Ledger (BridgeLedger),
--                   Ledger/Steps (sequences of calls). bridge/minting.py: Minting (MintService),
--                   Minting/Runtime (the machine that can die), Minting/Runs (passes and restarts)
--   Prelude, Errors the shared helpers, and the exceptions as values
--   Tests           concrete runs
--
-- A function that raises returns `Try`, with the exception as a value; a method that changes a table
-- takes the table and returns the new one. Python's `int` is ℤ where it can be negative (amounts,
-- versions, a height that comes off the wire), ℕ elsewhere. Bytes are lists of numbers.
--
-- Code that is not in the repository is a parameter: `Platform` holds hashlib's digests and scrypt,
-- and the signatures of the ecdsa package. What a theorem needs of it is among its hypotheses: the
-- digest's length in Merkle/Binding and Transaction/Signing/Verify, and there `IsKeyPair`, that a key's
-- own signatures of 32-byte digests verify. `SolanaMinter` is the protocol of bridge/minting.py over the
-- states of a cluster; `Cluster` adds what the cluster does on its own before each call and between
-- passes, such as landing the transaction of a `mint` that raised. `IsCluster` in Minting/Once is what
-- the bridge relies on: `find_mint` may answer that there is no mint only when none can still land. The
-- doc of `find_mint` speaks of existing mints alone, and Tests/Minting runs a cluster that takes it at
-- its word, where the deposit is minted twice.
--
-- Bounds and fuel: `max_halvings` (64) bounds the loops over eras as in the source. `root_loop` and
-- `proof_loop` of Merkle run on the length of the row, which every round shortens, and `bit_length` on
-- the number itself. `digits` of Bridge/Event runs on the number and one more. The walks of
-- ChainState/Reorg have one round for each height below where they start, and `mine_loop` of Genesis
-- one for each nonce and one more. `evict` of Mempool counts the calls that the interpreter's recursion
-- limit leaves, and running out is its RecursionError. `select` has one round for each entry and one
-- more, `grind` one for each nonce up to the limit and one more.
--
-- How a call ends matters where it has written something. `accept_block` takes the connection of
-- ChainDB and gives an `Outcome` with the connection that it leaves: `Connection` of Storage keeps what
-- is committed beside what its own reads see, and begin, commit and rollback act on it. The steps of a
-- transaction give the tables when they succeed; what they have written when one of them raises is
-- computed by the functions of ChainState/Left, rolled back after a ConsensusError, and left in an open
-- transaction after another exception. `accept` and the other methods of the pool give no pool with an
-- exception: a ConsensusError comes before any change, and the pool that an exception of another kind
-- leaves in the middle of an eviction is not modelled.
--
-- Not modelled: addresses, the wallet, the miner's thread, the wire protocol of peers, RPC, the
-- bridge's watcher, and everything that is display, threads or sockets. Amounts in the bridge's table
-- are not bounded to SQLite's 64 bits, and a fee rate beyond the largest double, an OverflowError, is
-- not reached.
pub mod Prelude
pub mod Errors
pub mod Params
pub mod Table
pub mod Wire
pub mod Crypto
pub mod Transaction
pub mod Merkle
pub mod Block
pub mod Consensus
pub mod Storage
pub mod ChainState
pub mod Mempool
pub mod Miner
pub mod Bridge
pub mod Tests

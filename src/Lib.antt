-- ===== src/Lib.antt =====
-- The script engine, the transactions, the blocks and the best chain of the Bitok node, as definitions
-- by clauses, with theorems about them.
--
-- The parts and the files:
--   Script/Opcode   script.h: `enum opcodetype` and the limits; the labels of the switch of `EvalScript`.
--   Script/Parse    script.h: `CScript::GetOp`, `operator<<`, `FindAndDelete`, `IsPushOnly`.
--   Script/Address  script.h: `SetBitcoinAddress` and `GetBitcoinAddressHash160`.
--   Script/Number   bignum.h and script.cpp: `CBigNum`, `CastToBigNum`, `CastToBool`.
--   Script/Signature  script.cpp: `CheckSignatureEncoding`, what it calls, and `CheckMinimalPush`.
--   Script/Crypto   util.h and key.h: `Hash`, `Hash160`, `CKey::SetPubKey`, `CKey::Verify`.
--   Script/Sighash  script.cpp: `SignatureHash` and `CheckSig`.
--   Script/Eval     script.cpp: `EvalScript` and `VerifyScript`. State has the parameters and the local
--     variables, Stack, Splice, Numeric and Signatures the blocks of the switch, Step one round of the
--     loop, Run the loop; Limits is about what the blocks may push.
--   Script/SigOps   script.cpp: `GetSigOpCount`.
--   Script/Solver   script.cpp: `Solver` without signing, and `ExtractHash160`.
--   Serialize       serialize.h: compact sizes, integers and vectors.
--   Transaction     main.h: `COutPoint`, `CTxIn`, `CTxOut`, `CTransaction` and their serialization; Size
--     has `GetSerializeSize`, Check `CheckTransaction`, Final `IsFinal`, Newer `IsNewerThan`, Money
--     `GetValueOut`, `GetMinFee` and, of main.cpp, `CBlock::GetBlockValue`.
--   Merkle          main.h: `CBlock::BuildMerkleTree`, `GetMerkleBranch`, `CheckMerkleBranch`.
--   Work            main.cpp and bignum.h: `GetNextWorkRequired`, `CBigNum::SetCompact`, `GetCompact`.
--   Ledger          main.h, main.cpp, db.cpp: `CDiskTxPos`, `CTxIndex`, the entries of `CTxDB` under "tx",
--     `ConnectInputs` and `DisconnectInputs`, and, of script.cpp, `VerifySignature`; Blocks has
--     `ConnectBlock` and `DisconnectBlock`. Spent, Marks, Inputs, Applied, Unmark, Undo, Tidy, Coins and
--     Fees are proofs.
--   Pool            main.cpp: `AcceptTransaction`, `AddToMemoryPool`, `RemoveFromMemoryPool`; Standard has
--     `IsStandard` and `IsStandardTx`, OrphanTxs `AddOrphanTx` and `EraseOrphanTx`. Conflicts,
--     Consistent, Accepts and Histories are proofs.
--   Block           main.h and main.cpp: `CBlock`, `CheckBlock`, and of bignum.h `getuint256`.
--   Chain           main.h and main.cpp: `CBlockIndex`, `mapBlockIndex`, `Checkpoints`, and the loops of
--     `Reorganize`; Add has `Reorganize` and `AddToBlockIndex`, Accept `GetMedianTimePast` and
--     `AcceptBlock`, Orphans `ProcessBlock`. Median, Fork, Branches, Index, Tip, Orphans/Accepted and
--     Orphans/Drain are proofs.
--   PartialTree     merkleblock.h: `CPartialMerkleTree`; Width, Segments, Root, RoundTrip and Wire are proofs.
--   Bloom           bloom.h: `CBloomFilter`; Bits, Members and Update are proofs.
--   MerkleBlock     merkleblock.h: `CMerkleBlock`, of a block and a filter or a set of hashes.
--   Prelude         what they share: lists, integers and results over the native numbers.
--   Samples, Tests  libraries and transactions to run the code on, and runs.
--
-- How they interact: `VerifyScript` runs `EvalScript` on both scripts over one stack. `EvalScript` reads
-- instructions by `GetOp`, and its signature checks call `CheckSig`, which hashes a copy of the
-- transaction by the serialization of Transaction. Transaction hashes are the leaves of the Merkle tree.
-- `ProcessBlock` runs `CheckBlock` and `AcceptBlock`, for the block and for those that waited for it;
-- `AcceptBlock` runs `AddToBlockIndex`, which connects the block by `ConnectBlock`, or the branch by
-- `Reorganize`, and takes its transactions out of memory. `ConnectInputs`, of a block's or of a loose
-- transaction, reads the previous ones, verifies the inputs by `VerifyScript`, and marks the outputs.
--
-- The state of `EvalScript` is a record of the stack, the other stack, `vfExec`, `nOpCount` and the
-- script from `pbegincodehash` on; a stack is a list with its top first. A block of the switch takes the
-- stack and returns the new one, or `none` where the code returns false or the library throws. A vector
-- of bytes is a list of numbers, a C++ integer a number with its wrap-around written out.
--
-- OpenSSL is a parameter: the record `Bignum` has its functions on BIGNUMs, `Crypto` its digests and
-- signatures. Theorems that need to know how a BIGNUM is written take the documented format as the
-- hypothesis `IsMpi`, those that compute with it `HasArithmetic`, and those that need the sizes of
-- digests `HasDigestSizes`.
--
-- The chain is a record of the block index, the genesis and best block with its hash and height, the
-- table of transactions, the best block's hash in the database, and the transactions in memory. A
-- pointer to a `CBlockIndex` or into `mapTransactions` is the key of the map that owns the object. An
-- operation on the table that fails is `none`: the callers abort the transaction of the database, so
-- that the table is the one before. The block files, yespower, the clock, `fTestMode`, and `fAllowFree`,
-- which the code computes with doubles, are parameters, in the records `Node`, `Checker` and `World`.
--
-- Loops that read a script or fill a tree take fuel: a unit for each byte of the script, since an
-- instruction has a byte at least, and a unit for each hash of a level. A loop over a script that is out
-- of fuel is `stuck`, and one over a tree is `none`; `FindAndDelete` has one unit more than bytes.
-- The loops over `pprev` have a unit more than the height of the block where they start, and that of
-- `ProcessBlock` a unit more than blocks wait. The height of a partial Merkle tree has 32 units, one for
-- each bit of an unsigned int.
--
-- Not modelled: signing and the stores of keys, the wallet and mining, the indexer of addresses, the
-- records of blocks in the database, relay and the network, storage, RPC and the windows; of numbers,
-- the conversions that scripts do not use.
pub mod Prelude
pub mod Script
pub mod Serialize
pub mod Transaction
pub mod Merkle
pub mod Work
pub mod Ledger
pub mod Block
pub mod Chain
pub mod PartialTree
pub mod Bloom
pub mod MerkleBlock
pub mod Pool
pub mod Samples
pub mod Tests

-- ===== src/Tests/Blocks.antt =====
-- Signature operations counted, and a Merkle tree over a block of three transactions.
use bitok_classic.Prelude.{ℕ, ◌*◌, ◌≤◌, ◌≡◌, arith, refl, some, List, [], ◌∷◌}
use bitok_classic.Prelude.{Bytes, length, done}
use bitok_classic.Prelude.Int.{pos}
use bitok_classic.Transaction.{Transaction}
use bitok_classic.Script.SigOps.{Counts, get_sig_op_count, get_sig_op_count-Counts}
use bitok_classic.Script.Opcode.{op_invalidopcode}
use bitok_classic.Merkle.{tx_hash, build_merkle_tree, get_merkle_branch, check_merkle_branch}
use bitok_classic.Merkle.Branch.{check_merkle_branch-get_merkle_branch}
use bitok_classic.Samples.{crypto, payment}

-- 2-of-n OP_CHECKMULTISIG, and OP_CHECKSIG: the opcode in front of OP_CHECKMULTISIG counts.
get_sig_op_count-multisig : get_sig_op_count (83 ∷ 174 ∷ 172 ∷ []) ≡ done 4
unfolding get_sig_op_count bitok_classic.Script.Parse.get_op
get_sig_op_count-multisig = refl

get_sig_op_count-Counts_example :
    (count : ℕ) × Counts op_invalidopcode (83 ∷ 174 ∷ 172 ∷ []) count
    × (get_sig_op_count (83 ∷ 174 ∷ 172 ∷ []) ≡ done count)
    × (count ≤ 20 * length {A = ℕ} (83 ∷ 174 ∷ 172 ∷ []))
get_sig_op_count-Counts_example = get_sig_op_count-Counts (83 ∷ 174 ∷ 172 ∷ []) (omega arith)

abbrev unlocked : Transaction
unlocked = record payment { lock_time = 0 }

abbrev block : List Transaction
block = payment ∷ unlocked ∷ payment ∷ []

check_merkle_branch-get_merkle_branch_example :
    (tree : List Bytes) × (root_hash : Bytes) × (branch : List Bytes) × (build_merkle_tree crypto
        block
      ≡ some (tree, root_hash))
    × (get_merkle_branch (length block) tree 2 ≡ some branch)
    × (check_merkle_branch crypto (tx_hash crypto payment) branch (pos 2) ≡ root_hash)
check_merkle_branch-get_merkle_branch_example =
    check_merkle_branch-get_merkle_branch crypto block 2 payment refl

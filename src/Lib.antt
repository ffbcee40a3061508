-- ===== src/Lib.antt =====
-- A library about zkrollup-go, a rollup whose nodes agree on batches of transactions by PBFT, apply
-- them to a state of accounts and contracts, and send them to an Ethereum contract.
--
-- The parts, and the files of this library that model them (paths from the repository's root):
--
-- pkg/state/state.go            State: the accounts, code, storage and batches. Accounts are objects
--                               that are shared by pointers, so the state holds a heap: `accounts`
--                               maps an address to a place in `heap`. State.Accounts has the view
--                               that forgets the places, and State.Supply the sum of the balances.
-- pkg/evm/state_adapter.go      Evm.Adapter: pending changes over a state, and ApplyChanges.
-- pkg/evm/evm.go                Evm: ExecuteContract and DeployContract on an adapter.
-- pkg/state/tree.go             Merkle: the sparse Merkle tree, which no other part uses.
-- pkg/sequencer/sequencer.go    Ledger: processFinalizedBatch and the three ways to process a
--                               transaction (processTransferTransaction is process_transfer, and so
--                               on). Sequencer: the sequencer's own state, AddTransaction and
--                               handleTransaction; Sequencer.Batching: tryCreateBatch, handleBatch,
--                               participateConsensus, the queue to the L1, the count of peers.
-- pkg/sequencer/api.go          Sequencer.Api: the queries.
-- pkg/consensus/types.go        Consensus.Types: messages, the state of a round, the quorum.
-- pkg/consensus/pbft.go         Consensus.Pbft: the state of a node, its list of nodes, ProposeBatch;
--                               Consensus.Rounds: the three phases; Consensus.Crs: the handlers of
--                               the ceremony; Consensus.Handler: HandleMessage. A run of a node
--                               is in Consensus.Handler.Reachable, and one of a node among fixed
--                               nodes in Consensus.Handler.Agreement.
-- pkg/consensus/crs_ceremony.go Consensus.Ceremony: the Powers of Tau ceremony.
-- pkg/p2p/protocol.go, host.go  Network: a node and its handlers; Network.Streams: what it does with
--                               the streams of the peers; Network.Broadcast: the sending of messages;
--                               Network.Discovery: NewNode, Connect, Disconnect and the search for
--                               peers. Sequencer.Wiring: the handlers that a sequencer sets up.
-- pkg/state/transaction.go, pkg/state/utils.go, pkg/util/format.go
--                               Hashing: what is hashed of a transaction, ParseAmount and the formats.
-- pkg/rpc/server.go             Rpc: the requests of clients; Rpc.Params: the fields of a transaction.
-- cmd/evm/main.go               Client: the command-line client, with its actions and its calls.
-- pkg/crypto/circuit.go, prover.go
--                               Prover: the circuit of a transaction, and its proofs, which no
--                               other part makes.
-- pkg/core/config.go, main.go   Settings: the configuration and the environment variables; Program:
--                               the start of the whole node, by Sequencer.Startup.
-- pkg/l1/client.go, contracts/ZKRollup.sol
--                               L1: the client of the rollup contract, and the contract.
-- pkg/sequencer/l1_integration.go
--                               L1.Submission: the loop that submits the batches of the queue.
-- pkg/l1/crsmanager.go, contracts/CRSManager.sol
--                               Onchain: the ceremony of the contract, and the calls of it.
-- pkg/sequencer/crs_orchestrator.go, pkg/sequencer/crsutils/crs_utils.go
--                               Onchain.Orchestrator: a node's turn in that ceremony.
--
-- How they interact: a peer hands a transaction to handle_transaction, and a client to
-- add_transaction by handle_send_transaction; both put it into the pool; try_create_batch takes
-- transactions from the pool and calls propose_batch; the messages of the other nodes come in by
-- handle_message; a decided batch goes to the log `decided_batch`, from which participate_consensus
-- takes it to process_finalized_batch, which runs the ledger on the state and puts the batch into
-- the queue to the L1, from which submit_batches_to_l1 sends it to the contract.
--
-- How the code is written down. A method that changes an object is a function of the object's state
-- into an Outcome: a value or an error, each with the state that is left (what was written before an
-- error stays written), or a panic for a nil dereference or an index out of range. A handler under
-- its lock is one step. Byte arrays of fixed length are the numbers that they spell, a *big.Int is
-- an Option of an integer, with `none` for nil, and unsigned 64-bit numbers wrap at 2 ^ 64. A Go map
-- is a list of entries with one for each key; where a loop ranges over a map, the model takes the
-- order of the list. The loops of the modelled code run over lists or count to a given number, such
-- as the 5 rounds of attempts of a broadcast, so they need no fuel. Only the digits of a number are
-- read off on fuel, the number itself, which Hashing.Decimal and Base.Bytes.Digits show to be enough.
--
-- Parameters, since they stand for code outside of the repository: the address that go-ethereum
-- gives to a new contract; the hash of a batch's JSON, the decoder of messages, whether a broadcast
-- succeeds, snarkjs with its files (Consensus.Pbft.Environment and Consensus.Ceremony.Tools), and
-- SHA-256 with the size of the field (Merkle); JSON (Network.Streams.Codec), the answers of peers
-- (Network.Broadcast.Links) and libp2p (Network.Discovery.Libp2p); the digests and ECDSA
-- (Hashing.Crypto); what the server asks of JSON and go-ethereum (Rpc.Params.Library); JSON, HTTP,
-- files, keys and signatures of the client (Client.Json, Client.Tools and `post`); the Ethereum node
-- (L1.Access, L1.Answers, Onchain.Orchestrator.Luck), the curve BN254 (Onchain.Orchestrator.Curve)
-- and gnark (Prover.Gadgets, Prover.Gnark). The theorems on the delivery of broadcasts and on the
-- client ask that JSON and the texts of a transaction read back what was written, the one on the
-- completion of the ceremony on the contract that the product of a point of the curve is a point of
-- 32 bytes, and the one on proofs what Prover.Completeness.IsGnark says of gnark; no other asks
-- anything of them.
--
-- Not modelled: the generated code (contracts/bindings, pkg/verifier, pkg/l1/contracts), the other
-- command-line tools (cmd), the end of the node (Stop and Close), the commands for Circom circuits in
-- pkg/consensus/crs_ceremony.go, which nothing calls, logging, timestamps and tickers.
pub mod Base
pub mod Outcome
pub mod State
pub mod Evm
pub mod Merkle
pub mod Hashing
pub mod Ledger
pub mod Network
pub mod Consensus
pub mod Sequencer
pub mod Rpc
pub mod Client
pub mod L1
pub mod Prover
pub mod Settings
pub mod Program
pub mod Onchain
pub mod Tests

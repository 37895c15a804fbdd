-- ===== src/Lib.antt =====
-- The signing protocols of a set of guards, as modelled from the packages of this repository.
--
-- A guard is a node with a key. The guards sign messages together through a tss service that runs
-- beside each of them, and transactions of the Ergo chain by that chain's own multi-signatures. Four
-- classes of the repository work together in a guard:
--
--   Communicator (packages/communication) sends and receives signed messages. A message is
--     taken if it is in time, names the key that stands at its index, and has a good signature.
--   GuardDetection (packages/detection) finds out which guards are active, by nonces that a
--     guard sends and the other one returns in an approval. It extends Communicator.
--   TssSigner (packages/tss), with its subclasses EcdsaSigner and EddsaSigner, keeps the
--     queue of messages to sign. In its turn a guard asks the active guards for their
--     signatures of a request; with as many approvals as the threshold asks it tells them to
--     start, and each of them posts the message to its tss service, whose answer ends the sign.
--     It extends Communicator and asks GuardDetection for the active guards.
--   MultiSigHandler (packages/ergo-multi-sig), with the functions of MultiSigUtils, keeps the
--     queue of transactions to sign. The guard in turn collects the others' commitments; with as
--     many as the transaction requires it simulates the rest and asks the ones that committed for
--     their partial proofs, and with those it completes the transaction and sends it to all. It
--     extends Communicator and asks GuardDetection for the peers' ids.
--
-- Beside them, the guards generate their keys with a service of its own, whose Dialer
-- (services/keygen-service) carries messages between the guards over libp2p and its relays. Nothing
-- else of the model depends on it.
--
-- Files:
--
--   Prelude                  numbers and texts that all parts share; Lists, and Maps for objects and
--                            maps with texts as keys
--   Json                     what JSON.stringify makes of a payload, which is what is signed
--   Exec                     methods that change a state and may throw; what they keep true
--                            in Invariance, what they answer and lead to in Triples
--   Encryption               packages/encryption/lib/abstract/EncryptionHandler.ts, an interface
--   Communicator             packages/communication/lib/Communicator.ts; the cached index in
--                            Index, handleMessage in Handling, from sender to receiver in Delivery
--   Detection                packages/detection/lib/GuardDetection.ts: State (constructor and data),
--                            Nonces (addNonce, clearNonce), Active (isGuardActive, activeGuards),
--                            Update (init, update, changePks), Handlers (processMessage and the
--                            three handlers), Register (register, registerPromised); Reachable
--                            has the steps of a guard's detection in any order
--   Tss                      packages/tss/lib/tss: State (constructor and data), Turns
--                            (getGuardTurn, isNoWorkTime, cleanup), Queue (getSign, removeSign,
--                            getPendingSign, addSignToCache), Schemes (EcdsaSigner, EddsaSigner),
--                            Approved (getApprovedGuards, startSign), Requests (sign,
--                            handleRequestMessage), Round (updateThreshold, update), Approvals
--                            (handleApproveMessage, handleStartMessage), Results (handleSignData,
--                            handleSignCachedMessage), Dispatch (processMessage); the proofs stand
--                            in Quorum, Queueing, Distinct, Starting, Consent, Settling, Rotation
--                            and in the modules below the parts they are about; Reachable has the
--                            steps of a signer in any order
--   MultiSig                 packages/ergo-multi-sig/lib: Data (types.ts), Ergo (what is taken from
--                            ergo-lib), State (constructor and data), Hints and Compare
--                            (MultiSigUtils.ts), Turns (peersWithIds, getCurrentTurnId, isMyTurn),
--                            Queue (getPk, getQueuedTransaction, generateCommitment, sign, cleanup),
--                            Commit (handleCommitment), Signing (initiateSign, handleSign,
--                            handleSignedTx), Dispatch (handleMyTurnForTx, handleMyTurn,
--                            processMessage); Since says what is left of a queue, and the Kept
--                            modules below the parts show it method by method; Reachable has the
--                            steps of a handler in any order, Held and Forever what they do
--                            while the semaphore is taken
--   Dialer                   services/keygen-service/src/communication/Dialer.ts: State (the state,
--                            the configuration, the node), Channels (subscribeChannel,
--                            handleBroadcast), Peers (peers, relays and the address book), Queue
--                            (sendMessage, getOpenStreamAndConnection, processMessageQueue)
--   Tests                    the theorems at concrete inputs
--
-- How the code is read:
--
--   - A method is a function from the state to a result and a state. A throw is the result err, and
--     what was written before it stays. Each method reads the clock once; the awaits are not modelled,
--     so that a handler runs without another one between its steps. The exception is sign of
--     TssSigner, whose part after the wait for the mutex is push_sign.
--   - Fields keep their names in snake case. Where the source has -1 or undefined the model has
--     none: the index that is not known, the threshold before the first answer, a remainder by zero,
--     a transaction that nobody coordinates.
--   - `submitMessage` appends to outbox, a post to the tss service to posts, a call of a caller's
--     callback to calls, a call of a registration's callback to fired, a call of a promise's resolve
--     or reject to settled. Of the semaphore of the multi-signature queue it is known whether it is
--     taken: since methods run one after the other, one that is found taken is never released, and
--     the method that needs it waits for ever, which is a throw that nothing follows. The callback that
--     handleRequestMessage registers is the data it closes over, and run_callbacks runs it after
--     the method that called it.
--   - A message on the wire is the message itself; of its text only the payload that is signed is
--     modelled. A payload of a shape that its type does not say is not modelled.
--   - setTimeout is a list of times, and expire_cache and run_timers are what runs when the time has
--     come. The dialer's intervals and event listeners are methods that any step may call.
--   - The clock, keys, random texts, the order of localeCompare, the curves' verification, the
--     tss service's answers and ergo-lib's types and functions are arguments: Host, SignerHost, TssApi,
--     MultiSigHost, ErgoLib. So is libp2p: Node.
--
-- Bounds: the loops run over lists, by recursion on them. The digits of a number are made with as
-- much fuel as the number and one, and a number has no more digits than that.
--
-- Not modelled: the encryption package's calls of curve libraries, logging, the start, routes and
-- configuration of the keygen service (services/keygen-service), the construction of its libp2p node
-- and the file of its peer id, and the tss service (services/tss-api).
pub mod Prelude
pub mod Json
pub mod Exec
pub mod Encryption
pub mod Communicator
pub mod Detection
pub mod Tss
pub mod MultiSig
pub mod Dialer
pub mod Tests

-- ===== src/Lib.antt =====
-- A model of the execution engine (layer4/engine/src), of layer 3's contract engine
-- (pipeline/src/l3ContractEngine.ts), of the bridge from Sui (pipeline/src/suiBridge.ts), of
-- settlement (layer5/settlement/src), of the builders of mint transactions (layer2/sdk/src and
-- layer3/sdk/src), of the pipeline that composes them (pipeline/src), and of the frontend's client
-- (frontend/src/api and frontend/src/pipeline).
--
-- The parts and how they interact. Layer 3 builds an ExecutionRequest (L3.antt, by `bindHandoff`
-- of Engine/Handoff.antt). The pipeline runner (Engine/Runner.antt, `PipelineRunner.run`) takes it
-- through the lanes: `admit` asks the circuit breaker (Engine/Breaker.antt), the idempotency guard
-- (Engine/Idempotency.antt), the gates of layer 3 (`validateL3Request`, Engine/Handoff.antt) and
-- the signatures (Engine/Auth.antt or Engine/SafeAuth.antt); `build_tx` takes a nonce
-- (Engine/Nonce.antt), builds the transaction (Engine/Builder.antt) and its gas (Engine/Gas.antt);
-- `submit_tx` hands it to the network (Engine/Submitter.antt) and reads the receipt; `finish`
-- waits for confirmations (Engine/Confirmation.antt) and hands the result to layer 5. The four
-- phases are in Engine/Runner/Phases.antt, over the state and the effects of
-- Engine/Runner/State.antt. Engine/Runner/Turns.antt takes the same body as turns, from one `await`
-- to the next, and Engine/Runner/Turns/Pool.antt lets the runs of one runner take their turns in
-- any order. Engine/Orchestrator.antt is the second driver of the same parts
-- (`ExecutionOrchestrator`), which its caller steps by hand. Engine/Types.antt has the data of
-- types.ts; Prelude and its children have the shared helpers.
--
-- Settlement, layer 5, checks a claim against a batch and a balance (Settlement/Credit.antt),
-- redeems the batch once (Settlement/Redemption.antt), logs the burn (Settlement/Burns.antt), holds
-- and pays USDC (Settlement/Usdc.antt), claims carbon credits (Settlement/Carbon.antt), buffers the
-- events that are reported (Settlement/Reporting.antt), watches bridges (Settlement/Watcher.antt),
-- and issues credit notes and keeps the audit trail (Settlement/Billing.antt). The orchestrator
-- (Settlement/Planner.antt, `planRedemption` and `processL4Execution`) calls the credit check, the
-- credit note, the ERP (Settlement/Grid.antt), the dry run of the PTB client
-- (Settlement/PtbClient.antt, over Settlement/Redeeming.antt and the configuration of
-- Settlement/Deployment.antt) and the event schema (Settlement/Archive.antt), and then reports and
-- burns. The service (Settlement/Service.antt, `SettlementService.process`) archives, appends to
-- the audit trail and calls the orchestrator.
--
-- Pipeline/Settling.antt plugs the service into the runner as its layer 5, which the engine takes
-- as a parameter; Pipeline/Full.antt is `runFullPipeline` with the hook of suiRedemptionHook.ts.
--
-- The HTTP server (Settlement/Backend.antt, `createSettlementBackendServer`, with the bodies of its
-- requests in Settlement/Backend/Bodies.antt) puts the rate limiter and the key of
-- Settlement/Security.antt before the orchestrator, the service, the gate checklist and the bridge
-- store. The audit trail may be kept in a file (Settlement/DiskAudit.antt), and so may the proofs
-- and the reports (Settlement/Stores.antt, persistence/ and ipfs/ipfsPinClient.ts). The indexer of
-- events (Settlement/Indexer.antt, `SuiEventIndexer.pollOnce` and the handler of
-- workers/eventIndexerWorker.ts) hands the events of the chain to the service.
--
-- The frontend's client (Frontend.antt, `request` of settlementClient.ts and
-- `runPipelineHealthCheck`) calls a `fetch` that is a parameter; Frontend/Serving.antt makes that
-- server its `fetch`.
--
-- Around them: the file .env (Settlement/DotEnv.antt, `loadRepoRootDotEnv`), the manifest and
-- readiness of a deployment (Settlement/Manifest.antt), the gate checklist (Settlement/Gates.antt),
-- the decisions of the API's security (Settlement/Security.antt),
-- the clients of Wormhole, of Circle and of Pyth (Settlement/Wormhole.antt,
-- Settlement/Offramp.antt), the bridge worker with its store (Settlement/BridgeWorker.antt), and
-- the builders of transactions (Settlement/Integrations.antt, Sdk/Layer2.antt, Sdk/Layer3.antt),
-- which hand their calls to a transaction (Sdk/Transaction.antt).
--
-- How code corresponds to definitions. A method that changes its object is a function from the
-- state to the state and a result; what it throws is a value (`Result`, and `Exit` for the body of
-- `run`, which also leaves by `return this.fail`). A map is an association list
-- (Prelude/Dict.antt), a JavaScript string is the list of its code units, a `bigint` is an integer
-- of any size (Prelude/Int.antt), or a natural number where the chain's type is unsigned. The
-- clock is an argument. The package viem and the chain's answers are the records `Viem` and
-- `Network` of Engine/External.antt and `Outside` of Engine/Runner/State.antt: parameters, of
-- which nothing is assumed. `Runner` records what was sent to the network and what was handed to
-- layer 5, which no field of the class does, and `GridOperatorClient` each post.
-- `process.env` is a function from names to texts. In settlement what is thrown is a `Failure`, in
-- an `Attempt`; files, the ERP, Wormholescan, Circle, the Sui node, hashes and random ids are
-- parameters. A transaction of the Sui SDK is the list of the calls that the source hands it; what
-- the SDK refuses at that is one of the ways in which a node's answer throws.
--
-- Bounds and fuel. The two loops that count, `submitWithRetry` and `awaitConfirmations`, recurse
-- on the rounds that the source itself sets (3 and 13), and so do `repoRoot` and
-- `loadRepoRootDotEnv` (8 directories); there is no other fuel. A call of `run` is one step in
-- Engine/Runner.antt and at most seven turns in Engine/Runner/Turns.antt, where calls may overlap
-- in time; the attempts of one submission are one turn, since nothing of the runner changes between
-- them. In settlement the posts to the ERP and the polls of the indexer may overlap (`sync_step`,
-- Settlement/Grid.antt, and `poll_step`, Settlement/Indexer.antt); all other calls are taken one
-- after the other.
--
-- Not modelled: the reads of files and of the chain (ultraPlonkProof.ts, `readSafeNonce`, the
-- fetches of pythPriceClient.ts), the start of settlement's HTTP server and the timers of its
-- streams, the interval of the indexer's timer, logging, the pages of the frontend, which are shown
-- by packages outside the repository, and the Solidity and Move sources, which are other languages.
pub mod Prelude
pub mod Engine
pub mod L3
pub mod Sdk
pub mod Settlement
pub mod Pipeline
pub mod Frontend
pub mod Tests

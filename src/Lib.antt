-- ===== src/Lib.antt =====
-- ZKredit's web client and documentation site, and its Soroban contracts: frontend/src, docs-site/src,
-- and contracts (wallet-identity, risk-attestation, attestor-registry, mock-lending-pool, shared).
--
-- The client connects a Freighter wallet, asks the ZKredit API to prepare an attestation of the
-- wallet's credit risk, has the wallet sign it, submits it to the Soroban contracts and reads it back.
-- It also makes Groth16 proofs of an identity in the browser, links wallets to the identity, follows a
-- KYC check, and shows loan terms. The contracts keep the registered attestors, the attestations with
-- their evidence, the groups of linked wallets, and the terms of loans. The parts, and the files that
-- model them:
--
--   frontend/src/lib/contracts/bytes.ts                     Bytes (toHex, fromHex)
--   frontend/src/lib/zk/identity-proof.ts                   IdentityProof, BigInt (toBE32, g1, g2,
--                                                           randomFieldElement, proveIdentity)
--   frontend/src/lib/kyc.ts, frontend/src/lib/identity.ts   Http
--   frontend/src/lib/attestor.ts                            Attestor (prepareAttestation)
--   frontend/src/lib/api.ts                                 Api
--   frontend/src/lib/freighter.ts and contracts/config.ts   Freighter
--   frontend/src/lib/contracts/rpc.ts                       Rpc (simulateContractCall,
--                                                           invokeContractCall,
--                                                           submitCosignedAttestation)
--   frontend/src/lib/contracts: types.ts, risk-attestation.ts,
--     wallet-identity.ts, mock-lending-pool.ts              Contracts, Contracts.Client
--   frontend/src/components/OnChainAttest.tsx               OnChainAttest
--   frontend/src/components/attestation: RevealStepper.tsx  OnChainAttest.Reveal
--     AttestCredential.tsx, ModelReceipts.tsx               Credential, Credential.Receipts,
--                                                           Credential.Bars
--   frontend/src/components/TryAttestation.tsx              TryAttestation (its results in Results
--                                                           and Details)
--   frontend/src/pages/Identity.tsx                         Identity (KycSteps is its hook for the
--                                                           KYC status as events in any order,
--                                                           Linked its list of wallets, Copying its
--                                                           copy buttons)
--   frontend/src/pages/Lending.tsx                          Lending
--   frontend/src/pages/Wallet.tsx, components/Badges.tsx    WalletPage
--   contracts/shared/src/groth16.rs                         Groth16
--   contracts/wallet-identity/src/lib.rs                    WalletIdentity
--   contracts/risk-attestation/src/lib.rs                   RiskAttestation
--   contracts/attestor-registry/src/lib.rs                  AttestorRegistry
--   contracts/mock-lending-pool/src/lib.rs                  MockLendingPool
--   contracts/shared/src/risc0.rs,
--     ml/risc0/methods/guest/src/main.rs                    Risc0 (parse_journal, verify_receipt; the
--                                                           bytes of vk.bin in Risc0.Vk)
--   the four contracts, called by one another               Deployment
--   frontend/src/App.tsx, lib/navigation.ts,
--     components/Nav.tsx                                    Routing (Routing.Home has pages/Home.tsx
--                                                           and components/ErrorBoundary.tsx)
--   frontend/src/components: Hero.tsx, HowItWorks.tsx,
--     WhatWeDo.tsx, WhatsProven.tsx, UseCases.tsx,
--     Footer.tsx                                            Landing (Landing.Links has all links of
--                                                           the site, Landing.Panels the marks)
--   frontend/scripts/cosign-attest.mjs                      Cosign
--   docs-site/src/lib/nav.ts                                Docs
--   docs-site/src/pages/DocPage.tsx, and of the components
--     PageNav.tsx, Sidebar.tsx, TableOfContents.tsx         Docs.Pages, Docs.Contents
--   docs-site/src/App.tsx, components/Header.tsx            Docs.Menu
--
-- Prelude has the library's names, tests on native numbers, texts and decimal numerals. Effects
-- says what code does: a synchronous function has a result (Sync: a value, an error, or pending),
-- and an asynchronous one is a function of a world to a result and the world after it (Io). Errors
-- are values with the class that made them, which `instanceof` asks for. Browser is the interface
-- to what the client does not own: `fetch`, the clock, the Freighter extension and the Stellar SDK
-- with its RPC server. They are parameters, and any answer of their type is allowed.
-- Rpc.Waiting.Runs, of the clock, is the only assumption on those of the client: a timer runs as
-- long as it says at least, and time does not go back while a server answers. Of the SDK of the
-- script, Cosign.Signing.HasBytes says that keys are bytes. A component's state stands beside the
-- world, and Effects.Lift gives it calls that leave the state alone; a `setState` is an update of
-- it. Tests has a concrete world, and the theorems at it.
--
-- Three loops have fuel, and `pending` is what they give without any. The wait for a transaction has a
-- deadline of 30 seconds and an interval of 1.5, so 21 rounds are enough. The polling of a proving job
-- and the wait of the script have no bound in the source, so their fuel bounds the rounds that are
-- looked at. The other loops are structural recursion.
--
-- A call of a contract returns, fails with an error of the contract, or panics (Host); the last two
-- leave the storage as it was, and the modules named Reachable let every call meet a host of its own.
-- The arithmetic of BN254, hashes and authorisations are parameters of Host, and so are the calls of
-- other contracts, each a result for its arguments; Deployment fills them with the models of those
-- contracts. A table of the storage is an association list (Storage), read by its keys, and published
-- events are a list. The client meets the contracts in Groth16.Assembled, where the verifier reads the
-- blob that IdentityProof assembles, in WalletIdentity.Binding, where addrToFieldElement meets
-- addr_to_fr, and in Deployment.Quotes, where the client reads terms of the pool. The guest of RISC
-- Zero meets the contract in Risc0.Journals.
--
-- What a page shows is a list of its texts, values and buttons (View), or a record of its parts, without
-- the layout. Replies to requests that overlap come in any order in Identity.KycSteps and WalletPage,
-- which are step relations; elsewhere a handler runs from its click to its end.
--
-- A text is a sequence of code points, and where the source counts or slices UTF-16 units, they are
-- computed. JSON numbers are the texts that are printed for them, as the client passes them on. The
-- promises of `Promise.all` and `Promise.allSettled` run one after the other here.
--
-- Not modelled: layout, styles, animations, the jump to the top of a new page, and the drawings
-- with the sphere; in Identity.tsx the removal of the page while a request runs; in
-- OnChainAttest.tsx a dynamic import of the client's own code that fails; on the documentation site
-- the rendering of Markdown. How a number or a date is printed is a parameter where JavaScript's
-- floating point decides it. Of the RISC Zero guest only the journal that it commits. The API and
-- the models in Python, the proving host, and the generated bindings.
pub mod Prelude
pub mod Bytes
pub mod Effects
pub mod BigInt
pub mod IdentityProof
pub mod Http
pub mod Attestor
pub mod Freighter
pub mod Rpc
pub mod Contracts
pub mod OnChainAttest
pub mod Identity
pub mod Api
pub mod TryAttestation
pub mod Cosign
pub mod Landing
pub mod Lending
pub mod Host
pub mod Storage
pub mod Groth16
pub mod Risc0
pub mod AttestorRegistry
pub mod RiskAttestation
pub mod MockLendingPool
pub mod Deployment
pub mod Routing
pub mod WalletIdentity
pub mod View
pub mod Credential
pub mod WalletPage
pub mod Docs
pub mod Tests

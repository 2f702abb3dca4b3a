-- ===== src/Docs.antt =====
-- docs-site/src/lib/nav.ts: the pages of the documentation, in order, and the lookups on them.
pub mod Order
pub mod Pages
pub mod Visits
pub mod Contents
pub mod Menu
use zkredit.Prelude.{
  ℕ, zero, suc, ◌-◌, ◌==◌, String, Bool, true, false, Option, none, some, List, [], ◌∷◌, ◌++◌,
  str_eq, if◌then◌else◌, get_elem?,
}

-- The text of a page is a Markdown file, named here by its import.
pub record DocPage : Type 0 where
  pub slug : String
  pub title : String
  pub description : String
  pub content : String

pub record DocSection : Type 0 where
  pub title : String
  pub pages : List DocPage

abbrev page : String → String → String → String → DocPage
page slug title description content = record {
  slug = slug;
  title = title;
  description = description;
  content = content;
}

unfoldable pub sections : List DocSection
sections =
    record {
      title = "Get Started";
      pages =
          page "get-started/introduction" "Introduction" "What ZKredit is" "introduction"
          ∷ page "get-started/how-it-works" "How It Works"
              "The four pieces that compose the system, end to end" "howItWorks"
          ∷ page "get-started/quickstart" "Quickstart" "Run the full stack locally" "quickstart"
          ∷ [];
    }
    ∷ record {
      title = "Concepts";
      pages =
          page "concepts/risk-attestations" "Risk Attestations"
            "Risk buckets, confidence, and what an attestation actually contains" "riskAttestations"
          ∷ page "concepts/dual-model" "Dual-Model Design"
              "Why there's a full model and a distilled model, and how they relate" "dualModel"
          ∷ page "concepts/on-chain-vs-off-chain" "On-Chain vs Off-Chain"
              "Exactly what gets published on Stellar and what never leaves the backend"
              "onChainOffChain"
          ∷ page "concepts/identity-and-sybil-resistance" "Identity & Sybil Resistance"
              "How KYC-bound nullifiers stop one person from farming many identities"
              "identitySybil"
          ∷ [];
    }
    ∷ record {
      title = "Architecture";
      pages =
          page "architecture/ml-pipeline" "ML Pipeline"
            "Data ingestion, feature families, and the full risk model" "mlPipeline"
          ∷ page "architecture/zk-proof-layer" "ZK Proof Layer"
              "RISC Zero, the zkVM guest, and the Groth16 compression step" "zkProofLayer"
          ∷ page "architecture/smart-contracts" "Smart Contracts"
              "The Soroban contracts that store and serve attestations" "smartContracts"
          ∷ page "architecture/security-and-threat-model" "Security & Threat Model"
              "Trust assumptions and known limitations" "securityModel"
          ∷ [];
    }
    ∷ record {
      title = "Guides";
      pages =
          page "guides/connect-wallet-and-get-attested" "Connect a Wallet & Get Attested"
            "Walk through requesting your first attestation with Freighter" "connectWallet"
          ∷ page "guides/verify-kyc-and-bind-identity" "Verify KYC & Bind Identity"
              "Link a KYC nullifier and a multi-wallet identity group" "kycGuide"
          ∷ page "guides/integrate-a-lending-protocol" "Integrate a Lending Protocol"
              "Plug ZKredit into your own Soroban contract and price loans by risk bucket"
              "integrateLending"
          ∷ page "guides/read-an-attestation-onchain" "Read an Attestation On-Chain"
              "Query RiskAttestation directly, without going through the API" "readOnchain"
          ∷ [];
    }
    ∷ record {
      title = "Reference";
      pages =
          page "reference/contract-addresses" "Contract Addresses"
            "Deployed mainnet and testnet contract IDs" "contractAddresses"
          ∷ page "reference/api-reference" "API Reference"
              "The FastAPI orchestrator's public routes" "apiReference"
          ∷ page "reference/contract-interfaces" "Contract Interfaces"
              "Public functions, types, and events for every Soroban contract" "contractInterfaces"
          ∷ page "reference/faq" "FAQ" "Common questions about scope, privacy, and trust" "faq"
          ∷ [];
    }
    ∷ []

-- `SECTIONS.flatMap((s) => s.pages)`
abbrev flat : List DocSection → List DocPage
flat [] = []
flat (s ∷ more) = s.pages ++ flat more

unfoldable pub all_pages : List DocPage
all_pages = flat sections

-- `pages.find((p) => p.slug === slug)`
unfoldable pub find_page : String → List DocPage → Option DocPage
find_page slug [] = none
find_page slug (p ∷ more) = if str_eq p.slug slug then some p else find_page slug more

unfoldable pub get_page : String → Option DocPage
get_page slug = find_page slug all_pages

-- `pages.findIndex((p) => p.slug === slug)`; `none` is -1.
abbrev succ : Option ℕ → Option ℕ
succ none = none
succ (some n) = some (suc n)

unfoldable pub find_index : String → List DocPage → Option ℕ
find_index slug [] = none
find_index slug (p ∷ more) = if str_eq p.slug slug then some 0 else succ (find_index slug more)

pub record Adjacent : Type 0 where
  pub prev : Option DocPage
  pub next : Option DocPage

-- `pages[index - 1]`: there is nothing at -1.
abbrev pub before : List DocPage → ℕ → Option DocPage
before pages zero = none
before pages (suc n) = get_elem? pages n

abbrev pub around : List DocPage → Option ℕ → Adjacent
around pages none = record { prev = none; next = none }
around pages (some n) = record { prev = before pages n; next = get_elem? pages (suc n) }

unfoldable pub adjacent_in : List DocPage → String → Adjacent
adjacent_in pages slug = around pages (find_index slug pages)

unfoldable pub get_adjacent_pages : String → Adjacent
get_adjacent_pages slug = adjacent_in all_pages slug

abbrev pub default_slug : String
default_slug = "get-started/introduction"

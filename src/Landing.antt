-- ===== src/Landing.antt =====
-- What the landing page lists, in frontend/src/components: HowItWorks.tsx, WhatWeDo.tsx, UseCases.tsx
-- and WhatsProven.tsx.
pub mod Links
pub mod Panels
use zkredit.Prelude.{◌<>◌, String, List, [], ◌∷◌}

pub record PipelineStep : Type 0 where
  pub number : String
  pub title : String
  pub blurb : String
  pub cta : String
  pub accent : String

unfoldable pub pipeline_steps : List PipelineStep
pipeline_steps =
    record {
      number = "01";
      title = "Read a wallet";
      blurb =
          "We read a wallet's public Stellar history straight from the ledger: how "
          <> "active it is, its payment mix, trustlines, counterparties, and how old and "
          <> "recent it is. Nothing private, nothing off-chain";
      cta = "Check a wallet's history";
      accent = "#5E9BFF";
    }
    ∷ record {
      number = "02";
      title = "Score behaviour";
      blurb =
          "An unsupervised model ranks the wallet against thousands of others and "
          <> "returns a risk bucket plus a FICO-style score. It reads real behaviour, so it "
          <> "never feels like a black box";
      cta = "Score a wallet's risk";
      accent = "#A17BFF";
    }
    ∷ record {
      number = "03";
      title = "Prove in zero-knowledge";
      blurb =
          "A distilled model runs inside a zero-knowledge circuit and proves the score "
          <> "is correct, without ever exposing the wallet's features or its transactions";
      cta = "Prove a score privately";
      accent = "#E86AF0";
    }
    ∷ record {
      number = "04";
      title = "Attest on-chain";
      blurb =
          "We anchor the risk bucket, confidence and model hashes on Soroban, so any "
          <> "lender gets a portable, tamper-proof attestation they can verify themselves";
      cta = "Attest a wallet on-chain";
      accent = "#FF7BC0";
    }
    ∷ []

pub record Capability : Type 0 where
  pub word : String
  pub blurb : String

unfoldable pub capabilities : List Capability
capabilities =
    record {
      word = "Score";
      blurb =
          "Turn any wallet's real on-chain history into a 300 to 850 behavioural risk "
          <> "score, a credit read for crypto";
    }
    ∷ record {
      word = "Prove";
      blurb =
          "Generate a zero-knowledge proof that the score is honest, verifiable without "
          <> "revealing a single transaction";
    }
    ∷ record {
      word = "Attest";
      blurb =
          "Anchor the result on Stellar as a portable, tamper-proof attestation any "
          <> "protocol can read";
    }
    ∷ record {
      word = "Lend";
      blurb =
          "Let lenders price risk on behaviour, not just collateral. Lower APR and "
          <> "collateral for verified low-risk wallets";
    }
    ∷ record {
      word = "Explain";
      blurb =
          "Every score ships with its top signals and reason codes. A transparent read "
          <> "of the wallet, never a black box";
    }
    ∷ record {
      word = "Protect";
      blurb =
          "Raw wallet data never touches the chain. Only the risk bucket, confidence, "
          <> "and model hashes go on-chain";
    }
    ∷ []

pub record CaseData : Type 0 where
  pub tag : String
  pub title : String
  pub body : String
  pub image : String

unfoldable pub cases : List CaseData
cases =
    record {
      tag = "Lenders";
      title = "Under-collateralised loans";
      body =
          "Price risk on wallet behaviour, not just collateral. A verified low-risk "
          <> "bucket unlocks better terms: a lower APR and lower collateral requirement.";
      image = "/lenders.jpg";
    }
    ∷ record {
      tag = "Protocols";
      title = "Sybil-resistant reputation";
      body =
          "Distinguish established wallets from fresh, anomalous ones before granting "
          <> "access, airdrops, or governance weight, with a proof, not a heuristic.";
      image = "/protocol.jpg";
    }
    ∷ record {
      tag = "Wallets";
      title = "Portable credit identity";
      body =
          "Carry one private, re-usable attestation across venues. Present the proof; "
          <> "keep your transaction graph to yourself.";
      image = "/wallets.jpg";
    }
    ∷ []

unfoldable pub proven : List String
proven =
    "A zero-knowledge proof, generated off-chain" ∷ "Nothing about the wallet is revealed"
    ∷ "Verify it yourself. No trust required" ∷ []

unfoldable pub anchored : List String
anchored =
    "The full model and its hashes go on-chain" ∷ "The credit score stays off-chain"
    ∷ "On-chain proof verification is on the roadmap" ∷ []

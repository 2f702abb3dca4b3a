-- ===== src/Attestor/Job.antt =====
-- What `getAttestationJob` makes of each answer.
use zkredit.Prelude.{
  ◌≡◌, ◌⊎◌, inl, inr, refl, String, true, false, Option, none, some, arith, if◌then◌else◌, str_eq,
  eq_iff, Bool-cases,
}
use zkredit.Effects.Json.{
  Json, null, str, obj, Fields, end, field, lookup, assign, property, equals_text, truthy?,
}
use zkredit.Effects.Sync.{ok}
use zkredit.Attestor.{
  job_result, succeeded, is_queued_attestation, flattened, set_some, with_fallback, is_present,
}

-- Writing a property leaves the others alone.
lookup-assign :
    (key other : String) (v : Json) (fs : Fields)
    → lookup other (assign key v fs) ≡ (if str_eq key other then some v else lookup other fs)
unfolding lookup assign
lookup-assign key other v end = refl
lookup-assign key other v (field k w more) =
    ground (arith, eq_iff k key, eq_iff k other, eq_iff key other, lookup-assign key other v more)

-- Flattening neither adds nor removes a property of another name.
lookup-set_some :
    (key other : String) (v : Option Json) (fs : Fields)
    → str_eq key other ≡ false
    → lookup other (set_some key v fs) ≡ lookup other fs
lookup-set_some key other none fs h = refl
lookup-set_some key other (some v) fs h = rw (lookup-assign key other v fs, h)

module _ (fs : Fields) (mode detail : Option Json) where
  lookup-set_both :
      (other : String)
      → str_eq "submission_mode" other ≡ false
      → str_eq "submission_detail" other ≡ false
      → lookup other (set_some "submission_detail" detail (set_some "submission_mode" mode fs))
        ≡ lookup other fs
  lookup-set_both other hm hd = rw (
    lookup-set_some "submission_detail" other detail (set_some "submission_mode" mode fs) hd,
    lookup-set_some "submission_mode" other mode fs hm,
  )

-- The payload of a job that succeeded, with a signable transaction.
pub record IsFinished (payload : Json) (fs : Fields) : Type 0 where
  pub no_error : truthy? (property "error" payload) ≡ false
  pub status : property "status" payload ≡ some (str "succeeded")
  pub result : property "result" payload ≡ some (obj fs)
  pub signable : truthy? (lookup "partial_xdr" fs) ≡ true

-- The payload of a job that succeeded, without an error and with a signable transaction, is
-- flattened to an object with that transaction, which counts as queued only if the job's own
-- result has a job_id.
pub job_result-finished :
    (payload : Json) (fs : Fields)
    → IsFinished payload fs
    → (gs : Fields) × (job_result payload ≡ ok (obj gs))
      × (lookup "partial_xdr" gs ≡ lookup "partial_xdr" fs)
      × (is_queued_attestation (obj gs) ≡ ok (is_present (lookup "job_id" fs)))
unfolding job_result is_queued_attestation
job_result-finished null fs f = cc f.status
job_result-finished (obj ps) fs f = (
  set_some "submission_detail" (with_fallback "submission_detail" (obj ps) fs)
      (set_some "submission_mode" (with_fallback "submission_mode" (obj ps) fs) fs),
  rw (f.no_error, f.status, f.result, f.signable),
  lookup-set_both fs _ _ "partial_xdr" refl refl,
  rw (lookup-set_both fs _ _ "job_id" refl refl),
)
job_result-finished _ fs f = cc f.status

-- Whatever a job that succeeded returns holds a signable transaction.
succeeded-signable :
    (payload j : Json) (o : Option Json)
    → succeeded payload o ≡ ok j
    → truthy? (property "partial_xdr" j) ≡ true
succeeded-signable payload j (some (obj fs)) h =
    elim (Bool-cases (truthy? (lookup "partial_xdr" fs))) [
      | inl there ↦
          let same : flattened payload fs ≡ j = ground arith in
          rw (← same) (rw (lookup-set_both fs _ _ "partial_xdr" refl refl) there)
      | inr missing ↦ ground arith
    ]
succeeded-signable payload j _ h = ground arith

-- If the payload of a job is used, it has no error and has not failed, and the answer is the
-- payload itself or holds a signable transaction.
job_result_sound :
    (payload j : Json)
    → job_result payload ≡ ok j
    → (truthy? (property "error" payload) ≡ false)
      × (equals_text (property "status" payload) "failed" ≡ false)
      × ((j ≡ payload) ⊎ (truthy? (property "partial_xdr" j) ≡ true))
unfolding job_result
job_result_sound null j h = cc
job_result_sound (obj ps) j h = ground (arith, succeeded-signable (obj ps) j (lookup "result" ps))
job_result_sound _ j h = ground arith
